-- ===== src/Grid/Reducers.antt =====
-- thumbnail-grid-slice.ts: the reducers of `thumbnailGridSlice`. Each takes the action's payload.
use mallard.Common.{
  ℕ, Text, text_eq, length, Option, none, some, Bool, true, false, not, if◌then◌else◌, List, [],
}
use mallard.Common.Int.{pos, ◌+ℤ◌, ◌-ℤ◌}
use mallard.Types.{idle, not_loaded, ObjectType, video, EntityId, ArtifactEntity}
use mallard.Adapter.{EntityAdapter}
use mallard.Adapter.Count.{update_each}
use mallard.Grid.State.{ImageViewState, select_id, no_options, no_suggestions}

abbrev pub is_video : ObjectType → Bool
is_video video = true
is_video _ = false

module _ {M : Type 0} (adapter : EntityAdapter (ArtifactEntity M) select_id) where
  open adapter use {update_one, remove_all}

  -- The changes of the two clearing actions.
  abbrev pub no_full_size : ArtifactEntity M → ArtifactEntity M
  no_full_size e = record e { artifact_url = none; image_status = not_loaded }

  abbrev pub no_thumbnail : ArtifactEntity M → ArtifactEntity M
  no_thumbnail e = record e { thumbnail_url = none; thumbnail_status = not_loaded }

  unfoldable pub clear_full_sized_images : List EntityId → ImageViewState M → ImageViewState M
  clear_full_sized_images ids s = record s { table = update_each adapter no_full_size ids s.table }

  unfoldable pub clear_thumbnails : List EntityId → ImageViewState M → ImageViewState M
  clear_thumbnails ids s = record s {
    table = update_each adapter no_thumbnail ids s.table;
    num_thumbnails_loaded = s.num_thumbnails_loaded -ℤ pos (length ids);
  }

  unfoldable pub clear_image_view : Bool → ImageViewState M → ImageViewState M
  clear_image_view preserve_query s = record s {
    table = remove_all s.table;
    current_query = if preserve_query then s.current_query else [];
    current_query_options =
        if preserve_query
        then record (s.current_query_options) { page_num = some 0 }
        else no_options;
    current_query_state = idle;
    metadata_loading_state = idle;
    current_query_error = none;
    current_query_has_more_pages = true;
    num_items_selected = pos 0;
    num_thumbnails_loaded = pos 0;
    collapsed_sections = λ _. none;
  }

  -- An absent search string leaves the present one.
  unfoldable pub set_search_string : Option Text → Bool → ImageViewState M → ImageViewState M
  set_search_string new_string clear_autocomplete s = record s {
    search = record {
      search_string = elim new_string [ none ↦ s.search.search_string | some t ↦ t ];
      autocomplete_suggestions =
          if clear_autocomplete then no_suggestions else s.search.autocomplete_suggestions;
      query_state = if clear_autocomplete then idle else s.search.query_state;
    };
  }

  unfoldable pub select_images : List EntityId → Bool → ImageViewState M → ImageViewState M
  select_images ids select s = record s {
    table = update_each adapter (λ e. record e { is_selected = select }) ids s.table;
    num_items_selected =
        if select
        then s.num_items_selected +ℤ pos (length ids)
        else s.num_items_selected -ℤ pos (length ids);
  }

  unfoldable pub show_details : EntityId → ImageViewState M → ImageViewState M
  show_details id s = record s { details_frontend_id = some id }

  unfoldable pub set_exported_images_url : Option Text → ImageViewState M → ImageViewState M
  set_exported_images_url url s = record s { exported_images_url = url }

  unfoldable pub set_section_expanded : Text → Bool → ImageViewState M → ImageViewState M
  set_section_expanded name expand s = record s {
    collapsed_sections = λ n. if text_eq name n then some (not expand) else s.collapsed_sections n;
  }

  unfoldable pub set_editing_dialog_open : Bool → ImageViewState M → ImageViewState M
  set_editing_dialog_open shown s = record s { editing_dialog_open = shown }

  -- `none`: reading the type of an unknown artifact throws.
  unfoldable pub clear_video_url : EntityId → ImageViewState M → Option (ImageViewState M)
  clear_video_url id s = elim (s.table.entities id) [
    | none ↦ none
    | some entity ↦ some (
        if not (is_video entity.backend_id.type)
        then s
        else record s { table = update_one (id, λ e. record e { artifact_url = none }) s.table })
  ]

  unfoldable pub set_scroll_location : ℕ → ImageViewState M → ImageViewState M
  set_scroll_location location s = record s { last_scroll_location = location }
