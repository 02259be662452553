-- ===== src/Grid/Tests.antt =====
-- thumbnail-grid-slice.ts on a small table: selection.
use mallard.Autocomplete.Complete.{
  user_input, some_directive, could_match_directives, first_menu, token_before_end, update_menu,
  complete_token, complete_search,
}
use mallard.Autocomplete.Predicate.{
  new_token, tokenize, parse_string, condition_of, directive_argument, parse_date,
  platform_type_values, parse_platform, parse_token, is_matched, search_string,
}
use mallard.Common.{
  ◌≡◌, refl, Text, codes, text_eq, none, some, true, false, if◌then◌else◌, List, [], ◌∷◌, mem, All,
  text_Eq, count, Bool-cases, eq_of_some, ap, sym, ◌∙◌, eq_of_text_eq, inl, inr, arith,
}
use mathlib.Core.Option
use mallard.Common.Int.{pos, negsuc, ◌+ℤ◌, ◌-ℤ◌}
use mallard.Types.{image, video, TypedObjectRef, EntityId, ArtifactEntity}
use mallard.Adapter.{IsNormalized, EntityAdapter}
use mallard.Adapter.Tables.{tables}
use mallard.Grid.State.{
  ImageViewState, create_artifact_entity_id, select_id, create_default_entity, initial_state,
}
use mallard.Grid.Ids.{create_artifact_entity_id_injective}
use mallard.Grid.Reducers.{
  select_images, clear_thumbnails, clear_full_sized_images, clear_image_view, set_search_string,
  show_details, set_exported_images_url, set_section_expanded, set_editing_dialog_open,
  clear_video_url, set_scroll_location,
}
use mallard.Grid.Requests.{
  add_artifacts_pending, load_thumbnails_fulfilled, add_artifacts_fulfilled,
  set_video_url_fulfilled, start_new_query_pending, update_query_state, start_new_query_fulfilled,
  continue_query_pending, continue_query_fulfilled, bulk_download_pending, bulk_download_fulfilled,
  update_metadata_pending, update_metadata_fulfilled, do_autocomplete_pending,
  do_autocomplete_fulfilled, load_thumbnails_pending, load_image_pending, load_image_fulfilled,
  delete_selected_pending, delete_selected_fulfilled, load_metadata_pending, metadata_updates,
  load_metadata_fulfilled,
}
use mallard.Grid.Thunks.{
  thunk_select_images, thunk_select_all, collect, clear_loop, clear_with,
  thunk_clear_full_sized_images, thunk_clear_thumbnails, thunk_clear_entities,
  thunk_clear_image_view, needs_update, update_ids, thunk_show_details, thunk_clear_exported_images,
  thunk_text_search, selected_in, get_selected_image_ids,
}
use mallard.Grid.Counters.{IsCounted}
use mallard.Grid.Selection.{IsKnown, thunk_select_images-IsCounted, entities-thunk_select_images}

-- The definitions that the tests evaluate.
grid : Unit {0}
unfolding count ◌+ℤ◌ ◌-ℤ◌ new_token tokenize parse_string condition_of directive_argument parse_date
    platform_type_values parse_platform parse_token is_matched search_string user_input
    some_directive could_match_directives first_menu token_before_end update_menu complete_token
    complete_search create_artifact_entity_id create_default_entity initial_state
    clear_full_sized_images clear_thumbnails clear_image_view set_search_string select_images
    show_details set_exported_images_url set_section_expanded set_editing_dialog_open
    clear_video_url set_scroll_location add_artifacts_pending add_artifacts_fulfilled
    set_video_url_fulfilled start_new_query_pending update_query_state start_new_query_fulfilled
    continue_query_pending continue_query_fulfilled bulk_download_pending bulk_download_fulfilled
    update_metadata_pending update_metadata_fulfilled do_autocomplete_pending
    do_autocomplete_fulfilled load_thumbnails_pending load_thumbnails_fulfilled load_image_pending
    load_image_fulfilled delete_selected_pending delete_selected_fulfilled load_metadata_pending
    metadata_updates load_metadata_fulfilled collect clear_loop clear_with
    thunk_clear_full_sized_images thunk_clear_thumbnails thunk_clear_entities thunk_clear_image_view
    needs_update update_ids thunk_select_images thunk_select_all thunk_show_details
    thunk_clear_exported_images thunk_text_search selected_in get_selected_image_ids
grid = tt

-- Metadata is a text here.
abbrev pub adapter : EntityAdapter (ArtifactEntity Text) select_id
adapter = tables select_id

abbrev pub first_ref : TypedObjectRef
first_ref = record { id = record { bucket = codes "b"; name = codes "1" }; type = image }

abbrev pub second_ref : TypedObjectRef
second_ref = record { id = record { bucket = codes "b"; name = codes "2" }; type = video }

-- The first artifact is selected and has a thumbnail, the second one is new.
abbrev pub first : ArtifactEntity Text
first =
    record (create_default_entity
      (record { backend_id = first_ref; preview_url = none; streamable_url = none })) {
        is_selected = true;
        thumbnail_url = some (codes "blob:1");
      }

abbrev pub second : ArtifactEntity Text
second =
    create_default_entity
      (record { backend_id = second_ref; preview_url = none; streamable_url = none })

abbrev pub state : ImageViewState Text
state = record initial_state {
  table = record {
    ids = codes "b_1" ∷ codes "b_2" ∷ [];
    entities = λ j.
        if text_eq (codes "b_1") j
        then some first
        else if text_eq (codes "b_2") j
        then some second
        else none;
  };
  num_items_selected = pos 1;
  num_thumbnails_loaded = pos 1;
}

pub state-IsNormalized : IsNormalized select_id state.table
unfolding grid
state-IsNormalized = record {
  distinct = (refl, (refl, tt));
  listed = λ j. ground arith;
  keyed = λ j e h. elim (Bool-cases (text_eq (codes "b_1") j)) [
    | inl here ↦
        let same : some first ≡ some e = ground arith in
        ap select_id (sym (eq_of_some same)) ∙ eq_of_text_eq (codes "b_1") j here
    | inr other ↦ elim (Bool-cases (text_eq (codes "b_2") j)) [
      | inl here ↦
          let same : some second ≡ some e = ground arith in
          ap select_id (sym (eq_of_some same)) ∙ eq_of_text_eq (codes "b_2") j here
      | inr missing ↦ absurd (ground arith)
    ]
  ];
}

pub state-IsCounted : IsCounted state
unfolding grid
state-IsCounted = record { normalized = state-IsNormalized; items = refl; thumbnails = refl }

abbrev pub both : List EntityId
both = codes "b_1" ∷ codes "b_2" ∷ []

selection_tests :
    ((thunk_select_images adapter both true state).num_items_selected ≡ pos 2)
    × ((thunk_select_images adapter both false state).num_items_selected ≡ pos 0)
    × ((select_images adapter both false state).num_items_selected ≡ negsuc 0)
    × ((clear_thumbnails adapter (codes "b_1" ∷ []) state).num_thumbnails_loaded ≡ pos 0)
unfolding grid
selection_tests = (refl, refl, refl, refl)

pub state-knows : All (IsKnown state) both
state-knows = (refl, (refl, tt))

thunk_select_images-IsCounted_example : IsCounted (thunk_select_images adapter both true state)
thunk_select_images-IsCounted_example =
    thunk_select_images-IsCounted adapter state true both (refl, (refl, tt)) state-knows
      state-IsCounted

entities-thunk_select_images_example :
    (thunk_select_images adapter both true state).table.entities (codes "b_2") ≡ (
      if mem (codes "b_2") both
      then Option.map
          (λ (e : ArtifactEntity Text). record e { is_selected = true })
          (state.table.entities (codes "b_2"))
      else state.table.entities (codes "b_2"))
entities-thunk_select_images_example =
    entities-thunk_select_images adapter state true both (codes "b_2")

create_artifact_entity_id_injective_example :
    first_ref.id ≡ record { bucket = codes "b"; name = codes "1" }
create_artifact_entity_id_injective_example =
    create_artifact_entity_id_injective first_ref.id record { bucket = codes "b"; name = codes "1" }
      refl refl refl

-- With an underscore in a bucket's name, two artifacts have one ID.
shared_id :
    create_artifact_entity_id record { bucket = codes "a_b"; name = codes "c" }
    ≡ create_artifact_entity_id record { bucket = codes "a"; name = codes "b_c" }
unfolding grid
shared_id = refl
