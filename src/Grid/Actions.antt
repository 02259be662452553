-- ===== src/Grid/Actions.antt =====
-- thumbnail-grid-slice.ts: `thumbnailGridSlice.reducer`, the reducers put together. An action is
-- one of the slice's own, or a pending or fulfilled request, with its argument and result.
use mallard.Common.{ℕ, Text, ◌≡◌, Distinct, text_Eq, Option, some, Bool, List, map}
use mallard.Types.{ImageQuery, TypedObjectRef, EntityId, ArtifactEntity}
use mallard.Adapter.{EntityAdapter}
use mallard.Grid.State.{
  QueryOptions, QueryResponse, ImageViewState, select_id, create_artifact_entity_id,
  AddArtifactsReturn, initial_state,
}
use mallard.Grid.Reducers.{
  clear_full_sized_images, clear_thumbnails, clear_image_view, set_search_string, select_images,
  show_details, set_exported_images_url, set_section_expanded, set_editing_dialog_open,
  clear_video_url, set_scroll_location,
}
use mallard.Grid.Requests.{
  LoadImageReturn, add_artifacts_pending, add_artifacts_fulfilled, set_video_url_fulfilled,
  start_new_query_pending, start_new_query_fulfilled, continue_query_pending,
  continue_query_fulfilled, bulk_download_pending, bulk_download_fulfilled, update_metadata_pending,
  update_metadata_fulfilled, do_autocomplete_pending, do_autocomplete_fulfilled,
  load_thumbnails_pending, load_thumbnails_fulfilled, load_image_pending, load_image_fulfilled,
  delete_selected_pending, delete_selected_fulfilled, load_metadata_pending,
  load_metadata_fulfilled,
}

pub data Action (M : Type 0) : Type 0 where
  clear_full_sized : List EntityId → Action M
  clear_thumbs : List EntityId → Action M
  clear_view : Bool → Action M
  set_search : Option Text → Bool → Action M
  select : List EntityId → Bool → Action M
  details : EntityId → Action M
  exported_url : Option Text → Action M
  section_expanded : Text → Bool → Action M
  editing_dialog : Bool → Action M
  clear_video : EntityId → Action M
  scroll_location : ℕ → Action M
  adding_artifacts : List TypedObjectRef → Action M
  added_artifacts : List AddArtifactsReturn → Action M
  got_video_url : EntityId → Text → Action M
  starting_query : Action M
  started_query : List ImageQuery → QueryOptions → QueryResponse → Action M
  continuing_query : Action M
  continued_query : ℕ → QueryResponse → Action M
  downloading : Action M
  downloaded : Action M
  updating_metadata : Action M
  updated_metadata : M → List EntityId → Action M
  completing : Text → Action M
  completed : List (Option Text) → Action M
  loading_thumbnails : List EntityId → Action M
  loaded_thumbnails : List EntityId → List LoadImageReturn → Action M
  loading_image : EntityId → Action M
  loaded_image : LoadImageReturn → Action M
  deleting_selected : Action M
  deleted_selected : List EntityId → Action M
  loading_metadata : List EntityId → Action M
  loaded_metadata : List EntityId → List M → Action M

module _ {M : Type 0} (adapter : EntityAdapter (ArtifactEntity M) select_id) where
  -- `none`: the reducer throws.
  unfoldable pub reducer : Action M → ImageViewState M → Option (ImageViewState M)
  reducer (clear_full_sized ids) s = some (clear_full_sized_images adapter ids s)
  reducer (clear_thumbs ids) s = some (clear_thumbnails adapter ids s)
  reducer (clear_view preserve) s = some (clear_image_view adapter preserve s)
  reducer (set_search text clear) s = some (set_search_string adapter text clear s)
  reducer (select ids on) s = some (select_images adapter ids on s)
  reducer (details id) s = some (show_details adapter id s)
  reducer (exported_url url) s = some (set_exported_images_url adapter url s)
  reducer (section_expanded name expand) s = some (set_section_expanded adapter name expand s)
  reducer (editing_dialog shown) s = some (set_editing_dialog_open adapter shown s)
  reducer (clear_video id) s = clear_video_url adapter id s
  reducer (scroll_location n) s = some (set_scroll_location adapter n s)
  reducer (adding_artifacts ids) s = some (add_artifacts_pending adapter ids s)
  reducer (added_artifacts rs) s = some (add_artifacts_fulfilled adapter rs s)
  reducer (got_video_url id url) s = some (set_video_url_fulfilled adapter id url s)
  reducer starting_query s = some (start_new_query_pending adapter s)
  reducer (started_query q o r) s = some (start_new_query_fulfilled adapter q o r s)
  reducer continuing_query s = some (continue_query_pending adapter s)
  reducer (continued_query n r) s = some (continue_query_fulfilled adapter n r s)
  reducer downloading s = some (bulk_download_pending adapter s)
  reducer downloaded s = some (bulk_download_fulfilled adapter s)
  reducer updating_metadata s = some (update_metadata_pending adapter s)
  reducer (updated_metadata m ids) s = some (update_metadata_fulfilled adapter m ids s)
  reducer (completing t) s = some (do_autocomplete_pending adapter t s)
  reducer (completed ts) s = some (do_autocomplete_fulfilled adapter ts s)
  reducer (loading_thumbnails ids) s = some (load_thumbnails_pending adapter ids s)
  reducer (loaded_thumbnails ids rs) s = some (load_thumbnails_fulfilled adapter ids rs s)
  reducer (loading_image id) s = some (load_image_pending adapter id s)
  reducer (loaded_image r) s = some (load_image_fulfilled adapter r s)
  reducer deleting_selected s = some (delete_selected_pending adapter s)
  reducer (deleted_selected ids) s = some (delete_selected_fulfilled adapter ids s)
  reducer (loading_metadata ids) s = some (load_metadata_pending adapter ids s)
  reducer (loaded_metadata ids ms) s = some (load_metadata_fulfilled adapter ids ms s)

-- A batch of artifacts to add has each artifact once; nothing is asked of the other actions.
abbrev pub IsBatch : {M : Type 0} → Action M → Type 0
IsBatch (adding_artifacts ids) =
    Distinct (map (λ (r : TypedObjectRef). create_artifact_entity_id r.id) ids)
IsBatch _ = Unit

-- The states that the slice comes to from its initial state, by any actions in any order.
pub data Reaches {M : Type 0} (adapter : EntityAdapter (ArtifactEntity M) select_id)
    : ImageViewState M → Type 0 where
  start : Reaches adapter initial_state
  step :
      (action : Action M) (s s' : ImageViewState M)
      → Reaches adapter s
      → IsBatch action
      → reducer adapter action s ≡ some s'
      → Reaches adapter s'
