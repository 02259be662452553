-- ===== src/Api/Requests.antt =====
-- api-client.ts: the requests that upload, infer, load and delete, and the URLs of artifacts. What
-- the gateway answers to a request with its headers, and `urlJoin`, are parameters. The progress of
-- an upload is left out.
pub mod Sent
pub mod VideoUrls
use Prim.Native.Nat.{◌^◌}
use mallard.Common.{
  ℕ, ◌*◌, Text, codes, length, take, Option, none, some, Bool, true, false, if◌then◌else◌, List, [],
  ◌∷◌, ◌++◌,
}
use mallard.Types.{ObjectType, image, video, ObjectRef, TypedObjectRef, ImageQuery}
use mallard.Grid.State.{Ordering}
use mallard.Grid.Loads.{default_to, default_orderings}
use mallard.Grid.Reducers.{is_video}
use mallard.Api.Auth.{
  Answer, Async, pure, ◌>>=◌, FiefAuth, UrlLibrary, Session, get_auth_headers,
  get_auth_query_string,
}
use mallard.Api.Forms.{
  UavImageMetadata, UavVideoMetadata, image_metadata_to_form, video_metadata_to_form,
}

-- `File` and `Blob`: the bytes, and the name of a file.
pub record File : Type 0 where
  pub content : List ℕ
  pub name : Text

-- The calls of the generated client.
pub data ApiRequest (V : Type 0) : Type 0 where
  query_artifacts : Option ℕ → ℕ → List ImageQuery → List Ordering → ApiRequest V
  get_thumbnail : Text → Text → ApiRequest V
  get_image : Text → Text → ApiRequest V
  create_uav_image : V → File → List (Option V) → ApiRequest V
  create_uav_video : File → List (Option V) → ApiRequest V
  delete_images_request : List ObjectRef → ApiRequest V
  infer_image : V → File → List (Option V) → ApiRequest V
  infer_video : File → List (Option V) → ApiRequest V

unfoldable pub probe_size : ℕ
probe_size = 5 * 2 ^ 20

-- The size is set in the given metadata, which every caller makes anew.
abbrev pub sized : {V : Type 0} → (ℕ → V) → List ℕ → UavImageMetadata V → UavImageMetadata V
sized number content metadata = record metadata { size = some (number (length content)) }

abbrev pub sized_video : {V : Type 0} → (ℕ → V) → List ℕ → UavVideoMetadata V → UavVideoMetadata V
sized_video number content metadata = record metadata {
  common = sized number content metadata.common;
}

abbrev Headers : Type 0
Headers = List (Text × Text)

module _ {B : Type 0} {E : Type 0} {V : Type 0} {R : Type 0} (urls : UrlLibrary) (location : Text)
    (fief_auth : Option (FiefAuth B E)) (gateway : ApiRequest V → Headers → Answer E R) where
  -- A call with the headers of the session. Its error is logged and thrown again.
  unfoldable pub send : ApiRequest V → Async (Session B) E R
  unfolding get_auth_headers
  send request = do
    auth_headers ← get_auth_headers urls location fief_auth
    λ after. (gateway request auth_headers, after)

  unfoldable pub query_images :
      List ImageQuery → Option (List Ordering) → Option ℕ → Option ℕ → Async (Session B) E R
  unfolding send
  query_images query orderings results_per_page page_num = send (
      query_artifacts results_per_page (default_to 1 page_num) query
        (default_to default_orderings orderings))

  unfoldable pub load_thumbnail : ObjectRef → Async (Session B) E R
  unfolding send
  load_thumbnail image_id = send (get_thumbnail image_id.bucket image_id.name)

  unfoldable pub load_image : ObjectRef → Async (Session B) E R
  unfolding send
  load_image image_id = send (get_image image_id.bucket image_id.name)

  unfoldable pub delete_images : List ObjectRef → Async (Session B) E R
  unfolding send
  delete_images images = send (delete_images_request images)

  -- `number` is a size as a value, `offset` the timezone's, in hours. The size is set in the given
  -- metadata, which every caller makes anew.
  module _ (number : ℕ → V) (offset : V) where
    -- `created` reads the new object's ID from the response.
    unfoldable pub create_image :
        (R → ObjectRef) → List ℕ → Text → UavImageMetadata V → Async (Session B) E ObjectRef
    unfolding send
    create_image created image_data name metadata =
        let form = image_metadata_to_form (sized number image_data metadata) in
        let file : File = record { content = image_data; name = name } in
        send (create_uav_image offset file form) >>= (λ response. pure (created response))

    unfoldable pub create_video :
        (R → ObjectRef) → List ℕ → Text → UavVideoMetadata V → Async (Session B) E ObjectRef
    unfolding send
    create_video created video_data name metadata =
        let form = video_metadata_to_form (sized_video number video_data metadata) in
        let file : File = record { content = video_data; name = name } in
        send (create_uav_video file form) >>= (λ response. pure (created response))

    unfoldable pub infer_image_metadata : List ℕ → Text → UavImageMetadata V → Async (Session B) E R
    unfolding send
    infer_image_metadata image_data name known_metadata = send (
        infer_image offset (record { content = image_data; name = name })
          (image_metadata_to_form (sized number image_data known_metadata)))

    -- Only the beginning of the video is sent, after its size was taken.
    unfoldable pub infer_video_metadata : List ℕ → Text → UavVideoMetadata V → Async (Session B) E R
    unfolding send
    infer_video_metadata video_data name known_metadata = send (
        infer_video (record { content = take probe_size video_data; name = name })
          (video_metadata_to_form (sized_video number video_data known_metadata)))

-- The URLs, with `url_join` of the package `url-join`.
module _ {B : Type 0} {E : Type 0} (urls : UrlLibrary) (location : Text)
    (fief_auth : Option (FiefAuth B E)) (url_join : List Text → Text) (api_base_url : Text) where
  abbrev with_query : List Text → ObjectRef → Async (Session B) E Text
  with_query path id = do
    query ← get_auth_query_string urls location fief_auth
    pure (url_join (api_base_url ∷ path ++ id.bucket ∷ (id.name ++ codes "?" ++ query) ∷ []))

  -- The router is that of the images for an image only.
  abbrev router : ObjectType → Text
  router image = codes "images"
  router _ = codes "videos"

  unfoldable pub get_artifact_url : TypedObjectRef → Async (Session B) E Text
  unfolding get_auth_query_string
  get_artifact_url artifact_id = with_query (router artifact_id.type ∷ []) artifact_id.id

  -- One of the two URLs that only a video has.
  abbrev video_url : Text → TypedObjectRef → Async (Session B) E (Option Text)
  video_url route artifact_id =
      if is_video artifact_id.type
      then with_query (codes "videos" ∷ route ∷ []) artifact_id.id >>= (λ url. pure (some url))
      else pure none

  unfoldable pub get_preview_video_url : TypedObjectRef → Async (Session B) E (Option Text)
  unfolding get_auth_query_string
  get_preview_video_url = video_url (codes "preview")

  unfoldable pub get_streamable_video_url : TypedObjectRef → Async (Session B) E (Option Text)
  unfolding get_auth_query_string
  get_streamable_video_url = video_url (codes "stream")
