-- ===== src/Elements/GridTests.antt =====
-- thumbnail-grid.ts on a small table: groups, loading and a selected region.
use mallard.Grid.Loads.{
  add_artifacts, start_new_query, result_ids, is_next_page, fulfilled, continue_query_condition,
  continue_query, set_video_url_condition, every_entity, load_thumbnails_condition,
  load_image_condition, load_metadata_condition, filtered_ids, select_entities, previous_metadata,
  load_metadata,
}
use mallard.Grid.Requests.{
  add_artifacts_pending, add_artifacts_fulfilled, set_video_url_fulfilled, start_new_query_pending,
  update_query_state, start_new_query_fulfilled, continue_query_pending, continue_query_fulfilled,
  bulk_download_pending, bulk_download_fulfilled, update_metadata_pending,
  update_metadata_fulfilled, do_autocomplete_pending, do_autocomplete_fulfilled,
  load_thumbnails_pending, load_thumbnails_fulfilled, load_image_pending, load_image_fulfilled,
  delete_selected_pending, delete_selected_fulfilled, load_metadata_pending, metadata_updates,
  load_metadata_fulfilled,
}
use mallard.Grid.Reducers.{
  clear_full_sized_images, clear_thumbnails, clear_image_view, set_search_string, select_images,
  show_details, set_exported_images_url, set_section_expanded, set_editing_dialog_open,
  clear_video_url, set_scroll_location,
}
use mallard.Common.{
  ◌≡◌, refl, Text, codes, text_eq, List, [], ◌∷◌, ◌⊎◌, none, some, true, false, if◌then◌else◌,
  text_Eq, arith, ◌∷◌,
}
use mallard.Types.{EntityId, ArtifactEntity, NormalizedState, succeeded}
use mallard.Grid.State.{create_artifact_entity_id, create_default_entity, initial_state}
use mallard.Grid.Tests.{adapter, first, second, state, state-IsNormalized}
use mallard.Elements.Groups.{
  make_key, Browser, Details, GroupedImages, ImageWithStatus, sorted_groups, make_key, add_image,
  insert, sort, group_images, group_by_date_and_session, flat_ids, get_ordered_image_ids,
}
use mallard.Elements.Groups.Correct.{IsPartition, sorted_groups_lem}
use mallard.Elements.ThumbnailGrid.{
  ThumbnailGrid, Page, returned, order_from, overall_state, is_busy, is_enough_loaded,
  num_thumbnails_displayed, restore_scroll_position, map_state, continue_from, load_more_data,
  load_next_section, load_content_while_needed, loading_state_changed, find_start, ids_between,
  find_selectable_region,
}
use mallard.Elements.ThumbnailGrid.Requesting.{IsInSync}
use mallard.Elements.ThumbnailGrid.Loading.{load_content_while_needed_lem}
use mallard.Elements.ThumbnailGrid.Region.{IsRegion, find_selectable_region_lem}

-- The definitions that the tests evaluate.
grids : Unit {0}
unfolding create_artifact_entity_id create_default_entity initial_state clear_full_sized_images
    clear_thumbnails clear_image_view set_search_string select_images show_details
    set_exported_images_url set_section_expanded set_editing_dialog_open clear_video_url
    set_scroll_location add_artifacts_pending add_artifacts_fulfilled set_video_url_fulfilled
    start_new_query_pending update_query_state start_new_query_fulfilled continue_query_pending
    continue_query_fulfilled bulk_download_pending bulk_download_fulfilled update_metadata_pending
    update_metadata_fulfilled do_autocomplete_pending do_autocomplete_fulfilled
    load_thumbnails_pending load_thumbnails_fulfilled load_image_pending load_image_fulfilled
    delete_selected_pending delete_selected_fulfilled load_metadata_pending metadata_updates
    load_metadata_fulfilled add_artifacts start_new_query result_ids is_next_page fulfilled
    continue_query_condition continue_query set_video_url_condition every_entity
    load_thumbnails_condition load_image_condition load_metadata_condition filtered_ids
    select_entities previous_metadata load_metadata make_key add_image insert sort group_images
    group_by_date_and_session sorted_groups flat_ids get_ordered_image_ids order_from overall_state
    is_busy is_enough_loaded num_thumbnails_displayed restore_scroll_position map_state
    continue_from load_more_data load_next_section load_content_while_needed loading_state_changed
    find_start ids_between find_selectable_region
grids = tt

-- Names are in no order, and all pictures are of one time.
abbrev browser : Browser
browser = record { comes_after = λ a b. false; asymmetric = λ a b h. refl; get_time = λ t. 0 }

-- The metadata is the end of the name of the session.
abbrev details : Details Text
details = record {
  capture_date = λ m. codes "2024-05-01";
  session_name = λ m. some (115 ∷ m);
  name = λ m. m;
}

abbrev table : NormalizedState (ArtifactEntity Text)
table = record {
  ids = codes "b_1" ∷ codes "b_2" ∷ codes "b_3" ∷ [];
  entities = λ j.
      if text_eq (codes "b_1") j
      then some (record first { metadata = some (codes "2") })
      else if text_eq (codes "b_2") j
      then some (record second { metadata = some (codes "1") })
      else if text_eq (codes "b_3") j
      then some second
      else none;
}

sorted_groups_lem_example :
    (groups : List GroupedImages) × (sorted_groups browser details table.ids table ≡ some groups)
    × IsPartition details table browser table.ids groups
sorted_groups_lem_example =
    sorted_groups_lem details table browser table.ids
      (λ j e m known described. (refl, λ same. ground arith)) (refl, (refl, (refl, tt)))

groups_tests :
    sorted_groups browser details table.ids table
    ≡ some (
        record {
          image_ids = codes "b_2" ∷ [];
          capture_date = codes "2024-05-01";
          session = some (codes "s1");
        }
        ∷ record {
          image_ids = codes "b_1" ∷ [];
          capture_date = codes "2024-05-01";
          session = some (codes "s2");
        }
        ∷ [])
unfolding grids
groups_tests = refl

-- A session with the name "undefined" and no session at all have one key.
key_tests :
    make_key (codes "2024-05-01") (some (codes "undefined")) ≡ make_key (codes "2024-05-01") none
unfolding grids
key_tests = refl

abbrev images : List ImageWithStatus
images =
    record { id = codes "a"; selected = true }
    ∷ record { id = codes "b"; selected = false }
    ∷ record { id = codes "c"; selected = false }
    ∷ record { id = codes "d"; selected = false }
    ∷ []

abbrev element : ThumbnailGrid
element = record {
  grouped_artifacts = [];
  grouped_artifacts_flat_ids = images;
  grouped_artifacts_order = order_from 0 images;
  loading_state = succeeded;
  has_more_pages = true;
  is_query_running = false;
  query_page_num = none;
  saved_scroll_height = none;
  restored_scroll_position = false;
  last_num_thumbnails_displayed = 0;
  sufficient_data_loaded = false;
  client_height = 800;
  content_scroll_height = 900;
  scroll_height = 900;
  scroll_top = 0;
}

find_selectable_region_lem_example :
    (region : List EntityId) × (find_selectable_region (codes "c") element ≡ some region)
    × IsRegion
        (record { id = codes "a"; selected = true }
          ∷ record { id = codes "b"; selected = false }
          ∷ record { id = codes "c"; selected = false }
          ∷ [])
        (codes "c")
        region
find_selectable_region_lem_example =
    find_selectable_region_lem
      (record { id = codes "a"; selected = true }
        ∷ record { id = codes "b"; selected = false }
        ∷ [])
      (record { id = codes "c"; selected = false })
      (record { id = codes "d"; selected = false } ∷ []) element refl refl
      (refl, (refl, (refl, (refl, tt))))

region_tests :
    find_selectable_region (codes "c") element ≡ some (codes "a" ∷ codes "b" ∷ codes "c" ∷ [])
unfolding grids
region_tests = refl

abbrev page : Page browser details
page = record { image_view = state; element = element }

page-IsInSync : IsInSync state element
unfolding grids
page-IsInSync = record { more = refl; running = refl; page_num = refl }

load_content_while_needed_lem_example :
    (page' : Page browser details) × (load_content_while_needed browser details adapter 2 page
      ≡ returned page')
    × ((is_busy page'.element ≡ true)
        ⊎ ((is_enough_loaded page'.element ≡ true) ⊎ (page'.element.has_more_pages ≡ false)))
load_content_while_needed_lem_example =
    load_content_while_needed_lem browser details adapter 0 page state-IsNormalized page-IsInSync
      (λ running. ground arith)
