-- ===== src/Grid/State.antt =====
-- types.ts and thumbnail-grid-slice.ts: the state of the home and details pages, its entities and
-- their IDs.
use mallard.Common.{ℕ, Text, codes, Option, none, Bool, true, false, List, [], ◌++◌}
use mallard.Common.Int.{ℤ, pos}
use mallard.Types.{
  RequestState, idle, not_loaded, ImageQuery, ObjectRef, TypedObjectRef, EntityId, NormalizedState,
  ArtifactEntity,
}
use mallard.Autocomplete.Complete.{AutocompleteMenu, no_menu}

-- `Ordering` of the API; its field is a string enumeration.
pub record Ordering : Type 0 where
  pub field : Text
  pub ascending : Bool

pub record QueryOptions : Type 0 where
  pub orderings : Option (List Ordering)
  pub results_per_page : Option ℕ
  pub page_num : Option ℕ

-- `QueryResponse` of the API.
pub record QueryResponse : Type 0 where
  pub image_ids : List TypedObjectRef
  pub page_num : ℕ
  pub is_last_page : Bool

pub record Suggestions : Type 0 where
  pub menu : AutocompleteMenu
  pub text_completions : List (Option Text)

pub record SearchState : Type 0 where
  pub search_string : Text
  pub autocomplete_suggestions : Suggestions
  pub query_state : RequestState

-- The table that the interface extends is the field `table`. The two counters are signed, since
-- nothing keeps a reducer from taking them below zero.
pub record ImageViewState (M : Type 0) : Type 0 where
  pub table : NormalizedState (ArtifactEntity M)
  pub current_query : List ImageQuery
  pub current_query_options : QueryOptions
  pub current_query_state : RequestState
  pub metadata_loading_state : RequestState
  pub image_deletion_state : RequestState
  pub current_query_error : Option Text
  pub current_query_has_more_pages : Bool
  pub search : SearchState
  pub details_frontend_id : Option EntityId
  pub num_items_selected : ℤ
  pub num_thumbnails_loaded : ℤ
  pub bulk_download_state : RequestState
  pub metadata_editing_state : RequestState
  pub exported_images_url : Option Text
  pub collapsed_sections : Text → Option Bool
  pub editing_dialog_open : Bool
  pub last_scroll_location : ℕ

unfoldable pub create_artifact_entity_id : ObjectRef → EntityId
create_artifact_entity_id r = r.bucket ++ (codes "_" ++ r.name)

-- The adapter's `selectId`.
abbrev pub select_id : {M : Type 0} → ArtifactEntity M → EntityId
select_id e = create_artifact_entity_id e.backend_id.id

-- What `thunkAddArtifacts` finds out about an artifact.
pub record AddArtifactsReturn : Type 0 where
  pub backend_id : TypedObjectRef
  pub preview_url : Option Text
  pub streamable_url : Option Text

unfoldable pub create_default_entity : {M : Type 0} → AddArtifactsReturn → ArtifactEntity M
create_default_entity a = record {
  backend_id = a.backend_id;
  thumbnail_status = not_loaded;
  image_status = not_loaded;
  metadata_status = not_loaded;
  thumbnail_url = none;
  artifact_url = none;
  preview_url = a.preview_url;
  streamable_url = a.streamable_url;
  metadata = none;
  is_selected = false;
}

abbrev pub no_options : QueryOptions
no_options = record { orderings = none; results_per_page = none; page_num = none }

abbrev pub no_suggestions : Suggestions
no_suggestions = record { menu = no_menu; text_completions = [] }

abbrev pub empty_table : {E : Type 0} → NormalizedState E
empty_table = record { ids = []; entities = λ _. none }

unfoldable pub initial_state : {M : Type 0} → ImageViewState M
initial_state = record {
  table = empty_table;
  current_query = [];
  current_query_options = no_options;
  current_query_state = idle;
  metadata_loading_state = idle;
  image_deletion_state = idle;
  current_query_error = none;
  current_query_has_more_pages = true;
  search = record {
    search_string = [];
    autocomplete_suggestions = no_suggestions;
    query_state = idle;
  };
  details_frontend_id = none;
  num_items_selected = pos 0;
  num_thumbnails_loaded = pos 0;
  bulk_download_state = idle;
  metadata_editing_state = idle;
  exported_images_url = none;
  collapsed_sections = λ _. none;
  editing_dialog_open = false;
  last_scroll_location = 0;
}
