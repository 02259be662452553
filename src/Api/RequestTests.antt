-- ===== src/Api/RequestTests.antt =====
-- A session with a token that Fief accepts and one with a token that has expired.
use mallard.Common.{
  arith, is_some, ℕ, ◌==◌, ◌≡◌, refl, Text, codes, length, Option, none, some, Bool, true, false,
  ◌⊎◌, List, [], ◌∷◌, ◌++◌, min,
}
use mallard.Types.{image, video, TypedObjectRef}
use mallard.Grid.Loads.{add_artifacts, default_orderings}
use mallard.Api.Auth.{
  Answer, answered, thrown, FiefAuth, UrlLibrary, Session, auth_callback, auth_valid, headers,
  redirect_to_login, callback_url, before_query, ensure_authenticated, get_auth_token,
  get_auth_headers, get_auth_query_string,
}
use mallard.Api.Auth.Login.{
  IsSignedIn, HasSeparateErrors, ensure_each, ensure_authenticated_lem,
  auth_callback-ensure_authenticated,
}
use mallard.Api.Forms.{
  UavImageMetadata, UavVideoMetadata, image_metadata_to_form, video_metadata_to_form,
}
use mallard.Api.Schemas.{
  uav_image_metadata_fields, uav_video_metadata_fields, own_parameters, nested_parameters, zip,
  image_metadata, video_metadata, with_defaults, metadata-metadata_to_form, value_of,
}
use mallard.Api.Requests.{
  ApiRequest, infer_video, send, create_image, infer_video_metadata, probe_size, get_artifact_url,
  get_preview_video_url, get_streamable_video_url, load_thumbnail, load_image, delete_images,
  query_images, get_thumbnail, get_image, query_artifacts,
}
use mallard.Api.Requests.Sent.{infer_video_metadata_lem}
use mallard.Api.Requests.VideoUrls.{added, add_artifacts_lem}
use mallard.Grid.Tests.{adapter, first_ref, second_ref, second, state}
use mallard.Grid.State.{create_artifact_entity_id, create_default_entity}

abbrev urls : UrlLibrary
urls = record { with_pathname = λ url path. codes "https://m" ++ path; resolve = λ url base. url }

abbrev location : Text
location = codes "https://m/details"

-- What is stored tells whether the token has expired; the errors are numbered.
abbrev fief_auth : FiefAuth Bool ℕ
fief_auth = record {
  is_authenticated = λ _. true;
  get_token_info = λ _. some (codes "t");
  validate_access_token = λ _ expired. elim expired [ true ↦ some 0 | false ↦ none ];
  redirect_to_login = λ _ expired. (none, expired);
  is_expired = λ err. err == 0;
  is_invalid = λ err. err == 1;
  is_missing_scope = λ _. false;
}

-- The user cannot be redirected.
abbrev offline : FiefAuth Bool ℕ
offline = record fief_auth { redirect_to_login = λ _ expired. (some 7, expired) }

-- Before any login.
abbrev session : Bool → Session Bool
session expired = record { fief = expired; pre_auth_location = none; logins = [] }

abbrev signed_in : IsSignedIn fief_auth false
signed_in = (codes "t", refl, refl, refl)

not_signed_in : ¬ IsSignedIn fief_auth true
not_signed_in (token, _, _, accepted) = absurd (cc)

separate : HasSeparateErrors fief_auth
separate err = ground arith

requests : Unit {0}
unfolding auth_valid redirect_to_login ensure_authenticated get_auth_token get_auth_headers
    get_auth_query_string before_query auth_callback callback_url image_metadata_to_form
    video_metadata_to_form own_parameters nested_parameters image_metadata video_metadata value_of
    send query_images load_image delete_images create_image infer_video_metadata load_thumbnail
    get_artifact_url get_preview_video_url get_streamable_video_url add_artifacts
requests = tt

abbrev redirected : Session Bool
redirected = record {
  fief = true;
  pre_auth_location = some location;
  logins = codes "/auth_callback" ∷ [];
}

login_tests :
    (ensure_authenticated urls location (some fief_auth) (session false)
      ≡ (answered tt, session false))
    × (ensure_authenticated urls location (some fief_auth) (session true)
        ≡ (answered tt, redirected))
    × (ensure_authenticated urls location (some offline) (session true) ≡ (thrown 7, redirected))
    × (get_auth_query_string urls location (some fief_auth) (session false)
        ≡ (answered (codes "auth_token=t"), session false))
unfolding requests
login_tests = (refl, refl, refl, refl)

-- The token that was refused is sent all the same.
refused_token :
    get_auth_headers urls location (some fief_auth) (session true)
    ≡ (answered ((codes "Authorization", codes "Bearer t") ∷ []), redirected)
unfolding requests
refused_token = refl

ensure_authenticated_lem_example :
    IsSignedIn fief_auth true
      × (ensure_authenticated urls location (some fief_auth) (session true)
          ≡ (answered tt, session true))
    ⊎ (¬ IsSignedIn fief_auth true)
      × (ensure_authenticated urls location (some fief_auth) (session true)
          ≡ (answered tt, redirected))
unfolding callback_url
ensure_authenticated_lem_example =
    ensure_authenticated_lem fief_auth urls location separate (session true)

auth_callback-ensure_authenticated_example :
    auth_callback urls
      (codes "https://m/auth_callback?code=1")
      (ensure_each fief_auth urls location 3 (session true))
    ≡ location
auth_callback-ensure_authenticated_example =
    auth_callback-ensure_authenticated fief_auth urls location separate (λ _. refl) 2 (session true)
      (codes "https://m/auth_callback?code=1") not_signed_in

-- The values are texts.
abbrev no_metadata : UavImageMetadata Text
no_metadata = record {
  size = none;
  name = some (codes "n");
  platform_type = none;
  notes = none;
  session_name = none;
  sequence_number = none;
  capture_date = none;
  location = some record { latitude_deg = some (codes "1"); longitude_deg = none };
  location_description = none;
  camera = none;
  altitude_meters = none;
  gsd_cm_px = some (codes "2");
  format = none;
}

abbrev no_video_metadata : UavVideoMetadata Text
no_video_metadata = record {
  common = no_metadata;
  frame_rate = some (codes "30");
  num_frames = none;
}

abbrev image_client : List (Option Text) → List (Text × Option Text)
image_client =
    zip (own_parameters uav_image_metadata_fields ++ nested_parameters uav_image_metadata_fields)

abbrev video_client : List (Option Text) → List (Text × Option Text)
video_client =
    zip (own_parameters uav_video_metadata_fields ++ nested_parameters uav_video_metadata_fields)

metadata-metadata_to_form_example :
    (image_metadata (codes "ground") [] (image_client (image_metadata_to_form no_metadata))
      ≡ with_defaults (codes "ground") [] no_metadata)
    × (video_metadata (codes "ground") [] (video_client (video_metadata_to_form no_video_metadata))
        ≡ record no_video_metadata { common = with_defaults (codes "ground") [] no_metadata })
metadata-metadata_to_form_example =
    metadata-metadata_to_form (codes "ground") [] image_client video_client (λ _. refl) (λ _. refl)
      no_metadata no_video_metadata

abbrev ref : TypedObjectRef
ref = record { id = record { bucket = codes "b"; name = codes "n" }; type = video }

abbrev picture : TypedObjectRef
picture = record { id = record { bucket = codes "b"; name = codes "p" }; type = image }

-- The gateway answers with the request.
abbrev gateway :
    ApiRequest Text → List (Text × Text) → Answer ℕ (ApiRequest Text × List (Text × Text))
gateway request sent = answered (request, sent)

request_tests :
    ((load_thumbnail urls location (some fief_auth) gateway ref.id (session false)).0
      ≡ answered (get_thumbnail (codes "b") (codes "n"), headers (some (codes "t"))))
    × ((load_image urls location (some fief_auth) gateway picture.id (session false)).0
        ≡ answered (get_image (codes "b") (codes "p"), headers (some (codes "t"))))
    × ((delete_images urls location (some fief_auth) gateway [] (session true)).1 ≡ redirected)
    × ((query_images urls location
          (some fief_auth)
          gateway
          []
          none
          (some 10)
          none
          (session false)).0
        ≡ answered (query_artifacts (some 10) 1 [] default_orderings, headers (some (codes "t"))))
unfolding requests
request_tests = (refl, refl, refl, refl)

abbrev number : ℕ → Text
number n = n ∷ []

infer_video_metadata_lem_example :
    (content : List ℕ) × (form : List (Option Text)) × (infer_video_metadata urls location
        (some fief_auth)
        gateway
        number
        []
        (1 ∷ 2 ∷ [])
        (codes "v")
        no_video_metadata
        (session false)
      ≡ (
        gateway
            (infer_video (record { content = content; name = codes "v" }) form)
            (headers (some (codes "t"))),
        session false,
      ))
    × ((rest : List ℕ) × (content ++ rest ≡ 1 ∷ 2 ∷ []))
    × (length content ≡ min probe_size 2)
    × (video_metadata (codes "ground") [] (video_client form) ≡ record no_video_metadata {
      common = with_defaults (codes "ground") [] (record no_metadata { size = some (2 ∷ []) });
    })
infer_video_metadata_lem_example =
    infer_video_metadata_lem urls location fief_auth gateway number [] (codes "ground") []
      video_client (λ _. refl) (1 ∷ 2 ∷ []) (codes "v") no_video_metadata (session false) signed_in

abbrev url_join : List Text → Text
url_join [] = []
url_join (part ∷ parts) = part ++ codes "/" ++ url_join parts

url_tests :
    (get_artifact_url urls location (some fief_auth) url_join (codes "api") picture (session false)
      ≡ (answered (codes "api/images/b/p?auth_token=t/"), session false))
    × (get_preview_video_url urls location
          (some fief_auth)
          url_join
          (codes "api")
          ref
          (session false)
        ≡ (answered (some (codes "api/videos/preview/b/n?auth_token=t/")), session false))
unfolding requests
url_tests = (refl, refl)

add_artifacts_lem_example :
    (preview streamable : Option Text) × ((added urls location fief_auth url_join
          (codes "api")
          (session false)
          adapter
          (second_ref ∷ first_ref ∷ [])
          state).table.entities
        (codes "b_2")
      ≡ some (record second { preview_url = preview; streamable_url = streamable }))
    × (is_some preview ≡ true)
    × (is_some streamable ≡ true)
unfolding create_artifact_entity_id create_default_entity
add_artifacts_lem_example =
    add_artifacts_lem urls location fief_auth url_join (codes "api") (session false) adapter
      signed_in (second_ref ∷ first_ref ∷ []) second_ref ((λ _. refl), ((λ h. absurd (cc)), tt))
      refl state second refl
