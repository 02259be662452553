-- ===== src/Grid/RequestTests.antt =====
-- thumbnail-grid-slice.ts on the small table: requests, clearing and deletion.
use mallard.Grid.Reducers.{
  clear_full_sized_images, clear_thumbnails, clear_image_view, set_search_string, select_images,
  show_details, set_exported_images_url, set_section_expanded, set_editing_dialog_open,
  clear_video_url, set_scroll_location,
}
use mallard.Autocomplete.Complete.{
  user_input, some_directive, could_match_directives, first_menu, token_before_end, update_menu,
  complete_token, complete_search,
}
use mallard.Autocomplete.Predicate.{
  new_token, tokenize, parse_string, condition_of, directive_argument, parse_date,
  platform_type_values, parse_platform, parse_token, is_matched, search_string,
}
use mallard.Common.{
  ◌≡◌, refl, Text, codes, none, some, not, if◌then◌else◌, [], ◌∷◌, ◌++◌, map, mem, keep, text_Eq,
}
use mathlib.Core.Option
use mallard.Common.Int.{pos, ◌+ℤ◌, ◌-ℤ◌}
use mallard.Types.{TypedObjectRef}
use mallard.Adapter.{IsNormalized}
use mallard.Adapter.Count.{at_id}
use mallard.Grid.State.{
  ImageViewState, select_id, create_artifact_entity_id, create_default_entity, initial_state,
}
use mallard.Grid.Requests.{
  load_metadata_fulfilled, load_thumbnails_fulfilled, add_artifacts_pending,
  add_artifacts_fulfilled, set_video_url_fulfilled, start_new_query_pending, update_query_state,
  start_new_query_fulfilled, continue_query_pending, continue_query_fulfilled,
  bulk_download_pending, bulk_download_fulfilled, update_metadata_pending,
  update_metadata_fulfilled, do_autocomplete_pending, do_autocomplete_fulfilled,
  load_thumbnails_pending, load_image_pending, load_image_fulfilled, delete_selected_pending,
  delete_selected_fulfilled, load_metadata_pending, metadata_updates,
}
use mallard.Grid.Actions.{adding_artifacts, reducer, Reaches, start, step}
use mallard.Grid.Normalized.{Reaches-IsNormalized}
use mallard.Grid.Thunks.{
  Store, done, thunk_clear_entities, thunk_clear_image_view, get_selected_image_ids, selected_in,
  collect, clear_loop, clear_with, thunk_clear_full_sized_images, thunk_clear_thumbnails,
  needs_update, update_ids, thunk_select_images, thunk_select_all, thunk_show_details,
  thunk_clear_exported_images, thunk_text_search,
}
use mallard.Grid.Counters.{selected, IsCounted}
use mallard.Grid.Release.{held, image_of, thumbnail_of, thunk_clear_image_view_lem}
use mallard.Grid.Freed.{IsFreed, thunk_clear_entities-IsFreed}
use mallard.Grid.Deletion.{thunk_delete_selected, thunk_delete_selected_lem}
use mallard.Grid.Loads.{
  LoadMetadataReturn, load_metadata, fulfilled, filtered_ids, add_artifacts, start_new_query,
  result_ids, is_next_page, continue_query_condition, continue_query, set_video_url_condition,
  every_entity, load_thumbnails_condition, load_image_condition, load_metadata_condition,
  select_entities, previous_metadata,
}
use mallard.Grid.Loads.Metadata.{with_metadata, metadata_of, load_metadata_lem}
use mallard.Grid.Loads.Thumbnails.{load_thumbnails-IsCounted}
use mallard.Grid.Tests.{
  adapter, first_ref, second_ref, second, state, both, state-IsNormalized, state-IsCounted,
  state-knows,
}

requests : Unit {0}
unfolding ◌+ℤ◌ ◌-ℤ◌ new_token tokenize parse_string condition_of directive_argument parse_date
    platform_type_values parse_platform parse_token is_matched search_string user_input
    some_directive could_match_directives first_menu token_before_end update_menu complete_token
    complete_search create_artifact_entity_id create_default_entity initial_state
    clear_full_sized_images clear_thumbnails clear_image_view set_search_string select_images
    show_details set_exported_images_url set_section_expanded set_editing_dialog_open
    clear_video_url set_scroll_location add_artifacts_pending add_artifacts_fulfilled
    set_video_url_fulfilled start_new_query_pending update_query_state start_new_query_fulfilled
    continue_query_pending continue_query_fulfilled bulk_download_pending bulk_download_fulfilled
    update_metadata_pending update_metadata_fulfilled do_autocomplete_pending
    do_autocomplete_fulfilled load_thumbnails_pending load_thumbnails_fulfilled load_image_pending
    load_image_fulfilled delete_selected_pending delete_selected_fulfilled load_metadata_pending
    metadata_updates load_metadata_fulfilled collect clear_loop clear_with
    thunk_clear_full_sized_images thunk_clear_thumbnails thunk_clear_entities thunk_clear_image_view
    needs_update update_ids thunk_select_images thunk_select_all thunk_show_details
    thunk_clear_exported_images thunk_text_search selected_in get_selected_image_ids reducer
    thunk_delete_selected add_artifacts start_new_query result_ids is_next_page fulfilled
    continue_query_condition continue_query set_video_url_condition every_entity
    load_thumbnails_condition load_image_condition load_metadata_condition filtered_ids
    select_entities previous_metadata load_metadata
requests = tt

abbrev store : Store Text
store = record { image_view = state; revoked = [] }

clearing_tests :
    (held thumbnail_of state.table both ≡ codes "blob:1" ∷ [])
    × (held image_of state.table both ≡ [])
    × (get_selected_image_ids adapter state ≡ codes "b_1" ∷ [])
unfolding requests
clearing_tests = (refl, refl, refl)

-- The state after two artifacts were added.
abbrev added : ImageViewState Text
added = elim (reducer adapter (adding_artifacts (first_ref ∷ second_ref ∷ [])) initial_state) [
  | none ↦ initial_state
  | some s ↦ s
]

added-Reaches : Reaches adapter added
unfolding requests
added-Reaches =
    step (adding_artifacts (first_ref ∷ second_ref ∷ [])) initial_state added start
      (refl, (refl, tt)) refl

Reaches-IsNormalized_example : IsNormalized select_id added.table
Reaches-IsNormalized_example = Reaches-IsNormalized adapter added added-Reaches

thunk_clear_image_view_lem_example :
    (s' : ImageViewState Text) × (thunk_clear_image_view adapter store
      ≡ done (record {
        image_view = s';
        revoked =
            ([] ++ held thumbnail_of state.table state.table.ids)
            ++ held image_of state.table state.table.ids;
      }))
    × (s'.table.ids ≡ [])
    × IsCounted s'
thunk_clear_image_view_lem_example = thunk_clear_image_view_lem adapter store state-IsNormalized

thunk_clear_entities-IsFreed_example :
    (s' : ImageViewState Text) × (thunk_clear_entities adapter both
        (record { image_view = state; revoked = [] })
      ≡ done (record {
        image_view = s';
        revoked = ([] ++ held image_of state.table both) ++ held thumbnail_of state.table both;
      }))
    × IsFreed adapter both state s'
thunk_clear_entities-IsFreed_example =
    thunk_clear_entities-IsFreed adapter both state [] (refl, (refl, tt)) (refl, (refl, tt))
      state-IsCounted

thunk_delete_selected_lem_example :
    (s' : ImageViewState Text) × (thunk_delete_selected adapter state store
      ≡ done (record {
        image_view = s';
        revoked =
            ([] ++ held image_of state.table (get_selected_image_ids adapter state))
            ++ held thumbnail_of state.table (get_selected_image_ids adapter state);
      }))
    × (s'.table.ids ≡ keep (λ j. not (at_id selected state.table j)) state.table.ids)
    × IsCounted s'
thunk_delete_selected_lem_example =
    thunk_delete_selected_lem adapter state store refl state-IsCounted

-- The gateway's metadata, and its answers.
abbrev describe : TypedObjectRef → Text
describe r = codes "about " ++ r.id.name

load_metadata_lem_example :
    (p : LoadMetadataReturn Text) × (load_metadata (map describe) both state ≡ some p)
    × ((load_metadata_fulfilled adapter p.image_ids p.metadata state).table.entities (codes "b_2")
        ≡ (if mem (codes "b_2") both
            then Option.map
                (with_metadata adapter describe (metadata_of adapter describe second))
                (state.table.entities (codes "b_2"))
            else state.table.entities (codes "b_2")))
load_metadata_lem_example =
    load_metadata_lem adapter describe (map describe) (λ refs. refl) state state both
      state-IsNormalized state-knows (codes "b_2") second refl

load_thumbnails-IsCounted_example : IsCounted (
    load_thumbnails_fulfilled adapter both
      (fulfilled (codes "b_2" ∷ []) (some (codes "blob:2") ∷ []))
      state)
unfolding requests
load_thumbnails-IsCounted_example =
    load_thumbnails-IsCounted adapter both (codes "b_2" ∷ []) (some (codes "blob:2") ∷ []) state
      (refl, tt) (refl, tt) (refl, tt) state-IsCounted

-- Where the view was cleared while the thumbnails were loading, they are counted all the same.
cleared_while_loading :
    (load_thumbnails_fulfilled adapter both
      (fulfilled both (some (codes "blob:1") ∷ none ∷ []))
      initial_state).num_thumbnails_loaded
    ≡ pos 1
unfolding requests
cleared_while_loading = refl
