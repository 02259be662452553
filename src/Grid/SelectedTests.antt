-- ===== src/Grid/SelectedTests.antt =====
-- thumbnail-grid-slice.ts on the small table: download, editing and export.
use mallard.Grid.Reducers.{
  clear_full_sized_images, clear_thumbnails, clear_image_view, set_search_string, select_images,
  show_details, set_exported_images_url, set_section_expanded, set_editing_dialog_open,
  clear_video_url, set_scroll_location,
}
use mallard.Common.{count, ◌≡◌, refl, Text, codes, false, [], ◌++◌}
use mallard.Common.Int.{pos, ◌-ℤ◌, ◌+ℤ◌}
use mallard.Adapter.Count.{count_entities}
use mallard.Grid.State.{
  ImageViewState, create_artifact_entity_id, create_default_entity, initial_state,
}
use mallard.Grid.Thunks.{
  done, thunk_select_all, collect, clear_loop, clear_with, thunk_clear_full_sized_images,
  thunk_clear_thumbnails, thunk_clear_entities, thunk_clear_image_view, needs_update, update_ids,
  thunk_select_images, thunk_show_details, thunk_clear_exported_images, thunk_text_search,
  selected_in, get_selected_image_ids,
}
use mallard.Grid.Counters.{selected, IsCounted}
use mallard.Grid.Selection.{thunk_select_all_lem}
use mallard.Grid.Release.{held, image_of, thumbnail_of}
use mallard.Grid.Selected.{
  thunk_bulk_download_selected, thunk_update_selected_metadata, thunk_export_selected,
  thunk_bulk_download_selected-late, thunk_update_selected_metadata_lem, bulk_download_condition,
  download_info,
}
use mallard.Grid.Tests.{adapter, state, state-IsNormalized, state-IsCounted}

-- The state after the user deselected everything.
abbrev deselected : ImageViewState Text
deselected = thunk_select_all adapter false state

selection : Unit {0}
unfolding count ◌+ℤ◌ ◌-ℤ◌ create_artifact_entity_id create_default_entity initial_state
    clear_full_sized_images clear_thumbnails clear_image_view set_search_string select_images
    show_details set_exported_images_url set_section_expanded set_editing_dialog_open
    clear_video_url set_scroll_location collect clear_loop clear_with thunk_clear_full_sized_images
    thunk_clear_thumbnails thunk_clear_entities thunk_clear_image_view needs_update update_ids
    thunk_select_images thunk_select_all thunk_show_details thunk_clear_exported_images
    thunk_text_search selected_in get_selected_image_ids bulk_download_condition download_info
    thunk_bulk_download_selected thunk_update_selected_metadata thunk_export_selected
selection = tt

none_selected : count_entities selected deselected.table ≡ 0
unfolding selection
none_selected = refl

thunk_bulk_download_selected-late_example :
    (thunk_bulk_download_selected adapter state deselected).num_items_selected
    ≡ pos 0 -ℤ pos (count_entities selected state.table)
thunk_bulk_download_selected-late_example =
    thunk_bulk_download_selected-late adapter state deselected
      ((thunk_select_all_lem adapter state false state-IsCounted).1) none_selected

thunk_update_selected_metadata_lem_example :
    (s' : ImageViewState Text) × (thunk_update_selected_metadata adapter
        (codes "new")
        state
        (record { image_view = state; revoked = [] })
      ≡ done (record {
        image_view = s';
        revoked =
            ([] ++ held thumbnail_of state.table state.table.ids)
            ++ held image_of state.table state.table.ids;
      }))
    × (s'.table.ids ≡ [])
    × IsCounted s'
thunk_update_selected_metadata_lem_example =
    thunk_update_selected_metadata_lem adapter (codes "new") state
      (record { image_view = state; revoked = [] }) state-IsNormalized
