-- ===== src/Grid/Loads.antt =====
-- thumbnail-grid-slice.ts: the asynchronous action creators of queries, thumbnails, images and
-- metadata: when each one runs (`condition`), and what it answers for the state and the responses.
-- Where the program reads an unknown artifact it throws, which is `none` here.
pub mod Metadata
pub mod Thumbnails
use mathlib.Core.Option
use mallard.Common.{
  ◌>>=◌, ℕ, Text, codes, ltb, length, keep, map, Option, none, some, is_some, Bool, true, false,
  not, ◌&&◌, if◌then◌else◌, List, [], ◌∷◌, ◌++◌,
}
use mallard.Types.{
  RequestState, ArtifactStatus, not_loaded, loading, loaded, ImageQuery, TypedObjectRef, EntityId,
  ArtifactEntity,
}
use mallard.Grid.State.{
  Ordering, QueryOptions, QueryResponse, ImageViewState, create_artifact_entity_id,
  AddArtifactsReturn,
}
use mallard.Grid.Requests.{LoadImageReturn}
use mallard.Grid.Reducers.{is_video}

-- `DEFAULT_ORDERINGS` of api-client.ts.
abbrev pub default_orderings : List Ordering
default_orderings =
    record { field = codes "capture_date"; ascending = false }
    ∷ record { field = codes "session"; ascending = true }
    ∷ record { field = codes "name"; ascending = true }
    ∷ []

-- A status is `NOT_LOADED`.
abbrev pub is_not_loaded : ArtifactStatus → Bool
is_not_loaded not_loaded = true
is_not_loaded _ = false

abbrev pub is_loaded : ArtifactStatus → Bool
is_loaded loaded = true
is_loaded _ = false

-- What the videos' URLs are is asked of the gateway.
unfoldable pub add_artifacts :
    (TypedObjectRef → Option Text)
    → (TypedObjectRef → Option Text)
    → List TypedObjectRef
    → List AddArtifactsReturn
add_artifacts get_preview_video_url get_streamable_video_url [] = []
add_artifacts get_preview_video_url get_streamable_video_url (id ∷ ids) =
    record {
      backend_id = id;
      preview_url = get_preview_video_url id;
      streamable_url = get_streamable_video_url id;
    }
    ∷ add_artifacts get_preview_video_url get_streamable_video_url ids

-- What `queryImages` is called with.
pub record QueryRequest : Type 0 where
  pub query : List ImageQuery
  pub orderings : Option (List Ordering)
  pub results_per_page : Option ℕ
  pub page_num : ℕ

abbrev pub default_to : {A : Type 0} → A → Option A → A
default_to a none = a
default_to a (some b) = b

-- The options of `thunkStartNewQuery` with their defaults: the request, and the options that are
-- kept for the pages that follow.
unfoldable pub start_new_query :
    List ImageQuery → Option (List Ordering) → Option ℕ → Option ℕ → QueryRequest × QueryOptions
start_new_query query orderings results_per_page start_page_num =
    let ordered = some (default_to default_orderings orderings) in
    let page = default_to 1 start_page_num in
    (
      record {
        query = query;
        orderings = ordered;
        results_per_page = results_per_page;
        page_num = page;
      },
      record { orderings = ordered; results_per_page = results_per_page; page_num = some page },
    )

-- The IDs whose metadata both queries ask for.
unfoldable pub result_ids : QueryResponse → List EntityId
result_ids result = map (λ (i : TypedObjectRef). create_artifact_entity_id i.id) result.image_ids

-- `pageNum > currentQueryOptions.pageNum`, false where the latter is undefined
unfoldable pub is_next_page : ℕ → Option ℕ → Bool
is_next_page page_num none = false
is_next_page page_num (some n) = ltb n page_num

-- The results of the requests in their order, `none` for a rejected one and the new object URL for
-- the blob of a fulfilled one.
unfoldable pub fulfilled : List EntityId → List (Option Text) → List LoadImageReturn
fulfilled [] results = []
fulfilled (id ∷ ids) [] = []
fulfilled (id ∷ ids) (none ∷ results) = fulfilled ids results
fulfilled (id ∷ ids) (some url ∷ results) =
    record { image_id = id; image_url = url } ∷ fulfilled ids results

pub record LoadMetadataReturn (M : Type 0) : Type 0 where
  pub image_ids : List EntityId
  pub metadata : List M

module _ {M : Type 0} where
  unfoldable pub continue_query_condition : ℕ → ImageViewState M → Bool
  continue_query_condition page_num s =
      ltb 0 (length s.current_query)
      && s.current_query_has_more_pages
      && is_next_page page_num s.current_query_options.page_num

  unfoldable pub continue_query : ℕ → ImageViewState M → QueryRequest
  continue_query page_num s = record {
    query = s.current_query;
    orderings = s.current_query_options.orderings;
    results_per_page = s.current_query_options.results_per_page;
    page_num = page_num;
  }

  unfoldable pub set_video_url_condition : EntityId → ImageViewState M → Option Bool
  set_video_url_condition id s = do
    artifact ← s.table.entities id
    some (is_video artifact.backend_id.type)

  -- `every`, which stops at the first failure.
  unfoldable pub every_entity :
      (ArtifactEntity M → Bool) → ImageViewState M → List EntityId → Option Bool
  every_entity p s [] = some true
  every_entity p s (id ∷ ids) =
      let rest = every_entity p s ids in
      do entity ← s.table.entities id; if p entity then rest else some false

  unfoldable pub load_thumbnails_condition : List EntityId → ImageViewState M → Option Bool
  unfolding every_entity
  load_thumbnails_condition ids s = do
    b ← every_entity (λ e. not (is_not_loaded e.thumbnail_status)) s ids
    some (not b)

  unfoldable pub load_image_condition : EntityId → ImageViewState M → Option Bool
  load_image_condition id s = do
    entity ← s.table.entities id
    some (is_not_loaded entity.image_status)

  unfoldable pub load_metadata_condition : List EntityId → ImageViewState M → Option Bool
  unfolding every_entity
  load_metadata_condition ids s = do
    b ← every_entity (λ e. not (is_not_loaded e.metadata_status)) s ids
    some (not b)

  -- The loop of `thunkLoadThumbnailsChunk`: the IDs whose thumbnails are requested.
  unfoldable pub filtered_ids : ImageViewState M → List EntityId → Option (List EntityId)
  filtered_ids s [] = some []
  filtered_ids s (id ∷ ids) =
      let rest = filtered_ids s ids in
      do
        entity ← s.table.entities id
        if is_loaded entity.thumbnail_status then rest else Option.map (id ∷◌) rest

  -- `imageIds.map(selectById)`, read by the filters that follow
  unfoldable pub select_entities :
      ImageViewState M → List EntityId → Option (List (ArtifactEntity M))
  select_entities s [] = some []
  select_entities s (id ∷ ids) =
      let rest = select_entities s ids in
      do entity ← s.table.entities id; others ← rest; some (entity ∷ others)

  abbrev pub has_metadata : ArtifactEntity M → Bool
  has_metadata e = is_some e.metadata

  -- The metadata of entities that have it.
  unfoldable pub previous_metadata : List (ArtifactEntity M) → List M
  previous_metadata [] = []
  previous_metadata (e ∷ es) = elim e.metadata [
    | none ↦ previous_metadata es
    | some m ↦ m ∷ previous_metadata es
  ]

  -- `thunkLoadMetadata`, with what `getMetadata` answers for its argument.
  unfoldable pub load_metadata :
      (List TypedObjectRef → List M)
      → List EntityId
      → ImageViewState M
      → Option (LoadMetadataReturn M)
  unfolding previous_metadata
  load_metadata get_metadata image_ids s = do
    entities ← select_entities s image_ids
    let to_load = keep (λ e. not (has_metadata e)) entities
    let loaded_entities = keep has_metadata entities
    let backend_ids = map (λ (e : ArtifactEntity M). e.backend_id) to_load
    some (record {
      image_ids =
          map (λ (e : ArtifactEntity M). create_artifact_entity_id e.backend_id.id) loaded_entities
          ++ map (λ (r : TypedObjectRef). create_artifact_entity_id r.id) backend_ids;
      metadata = previous_metadata loaded_entities ++ get_metadata backend_ids;
    })
