-- ===== src/Elements/ThumbnailGrid.antt =====
-- thumbnail-grid.ts and infinite-scrolling-element.ts: the grid of thumbnails, its state from the
-- store, the loop that loads content, and the selection of a region. Heights are in pixels, as the
-- browser measures them; nothing is rendered while an event is handled.
pub mod Requesting
pub mod Loading
pub mod Start
pub mod Region
use mathlib.Core.Option
use mallard.Common.{
  ◌>>=◌, ℕ, suc, zero, ◌+◌, ◌-◌, ◌*◌, ◌≤◌, leb, ltb, Text, text_eq, length, map, get_elem?, Option,
  none, some, is_some, Bool, true, false, not, ◌&&◌, ◌||◌, if◌then◌else◌, List, [], ◌∷◌, ◌++◌,
}
use mallard.Types.{
  RequestState, idle, loading, succeeded, failed, EntityId, ArtifactEntity, NormalizedState,
}
use mallard.Adapter.{EntityAdapter}
use mallard.Grid.State.{ImageViewState, select_id}
use mallard.Grid.Reducers.{set_scroll_location}
use mallard.Grid.Thunks.{thunk_select_images}
use mallard.Grid.Requests.{start_new_query_pending, continue_query_pending}
use mallard.Grid.Loads.{continue_query_condition}
use mallard.Elements.Groups.{
  Browser, Details, GroupedImages, ImageWithStatus, sorted_groups, get_ordered_image_ids,
}

pub record ThumbnailGrid : Type 0 where
  pub grouped_artifacts : List GroupedImages
  pub grouped_artifacts_flat_ids : List ImageWithStatus
  pub grouped_artifacts_order : EntityId → Option ℕ
  pub loading_state : RequestState
  pub has_more_pages : Bool
  pub is_query_running : Bool
  pub query_page_num : Option ℕ
  pub saved_scroll_height : Option ℕ
  pub restored_scroll_position : Bool
  pub last_num_thumbnails_displayed : ℕ
  pub sufficient_data_loaded : Bool
  pub client_height : ℕ
  pub content_scroll_height : ℕ
  pub scroll_height : ℕ
  pub scroll_top : ℕ

-- A section, as the grid counts it: whether it is expanded, and the number of its artifacts.
pub record SectionSize : Type 0 where
  pub expanded : Bool
  pub displayed : ℕ

-- `new Map(artifactIds.map((image, i) => [image.id, i]))`: the last index of an ID.
unfoldable pub order_from : ℕ → List ImageWithStatus → EntityId → Option ℕ
order_from i [] id = none
order_from i (image ∷ images) id =
    let later = order_from (suc i) images id in
    if is_some later then later else if text_eq image.id id then some i else none

-- The overall state, by whether there are images.
unfoldable pub overall_state : RequestState → RequestState → Bool → RequestState
overall_state RequestState.idle RequestState.idle has_images = RequestState.idle
overall_state RequestState.succeeded RequestState.succeeded has_images = RequestState.succeeded
overall_state RequestState.succeeded metadata_state false = RequestState.succeeded
overall_state content_state metadata_state has_images = RequestState.loading

abbrev pub is_loading : RequestState → Bool
is_loading RequestState.loading = true
is_loading _ = false

unfoldable pub is_busy : ThumbnailGrid → Bool
is_busy element = is_loading element.loading_state

-- `isEnoughLoaded`, with `OVERFILL_MARGIN_PERCENT` 50, and without a subtraction or a division:
-- the content below the viewport is at least the margin.
unfoldable pub is_enough_loaded : ThumbnailGrid → Bool
is_enough_loaded element =
    leb (100 * (element.scroll_top + element.client_height) + 50 * element.client_height)
      (100 * element.content_scroll_height)

-- `numThumbnailsDisplayed`
unfoldable pub num_thumbnails_displayed : List SectionSize → ℕ
num_thumbnails_displayed [] = 0
num_thumbnails_displayed (section ∷ sections) =
    if section.expanded
    then section.displayed + num_thumbnails_displayed sections
    else num_thumbnails_displayed sections

-- The last part of `updated`: an old scroll position is restored once.
unfoldable pub restore_scroll_position : ThumbnailGrid → ThumbnailGrid
restore_scroll_position element = elim element.saved_scroll_height [
  | none ↦ element
  | some saved ↦
      if not element.restored_scroll_position && leb saved element.scroll_height
      then record element { scroll_top = saved; restored_scroll_position = true }
      else element
]

module _ (browser : Browser) {M : Type 0} (details : Details M) where
  abbrev pub shown : ImageViewState M → ThumbnailGrid → List GroupedImages → ThumbnailGrid
  shown s element grouped =
      let artifact_ids = get_ordered_image_ids grouped s.table in
      record element {
        loading_state =
            overall_state s.current_query_state s.metadata_loading_state
              (ltb 0 (length s.table.ids));
        grouped_artifacts = grouped;
        grouped_artifacts_flat_ids = artifact_ids;
        grouped_artifacts_order = order_from 0 artifact_ids;
        has_more_pages = s.current_query_has_more_pages;
        query_page_num = s.current_query_options.page_num;
        is_query_running = ltb 0 (length s.current_query);
        saved_scroll_height = some s.last_scroll_location;
      }

  -- `none`: it throws, at an ID without an artifact.
  unfoldable pub map_state : ImageViewState M → ThumbnailGrid → Option ThumbnailGrid
  unfolding sorted_groups overall_state
  map_state s element =
      Option.map (shown s element) (sorted_groups browser details s.table.ids s.table)

  -- The element and the part of the store that it shows.
  pub record Page : Type 0 where
    pub image_view : ImageViewState M
    pub element : ThumbnailGrid

  pub data LoopResult : Type 0 where
    returned : Page → LoopResult
    threw : LoopResult
    unfinished : LoopResult

  module _ (adapter : EntityAdapter (ArtifactEntity M) select_id) where
    -- The next page is requested where the condition of `thunkContinueQuery` holds. A missing page
    -- number is no number.
    unfoldable pub continue_from : Option ℕ → ImageViewState M → ImageViewState M
    continue_from none s = s
    continue_from (some n) s =
        if continue_query_condition (n + 1) s then continue_query_pending adapter s else s

    -- The handler of the event that asks for more data.
    unfoldable pub load_more_data : ThumbnailGrid → ImageViewState M → ImageViewState M
    unfolding continue_from
    load_more_data element s =
        if element.is_query_running
        then continue_from element.query_page_num s
        else start_new_query_pending adapter s

    -- Whether there was more to load, and the page after the store changed.
    unfoldable pub load_next_section : Page → Option (Bool × Page)
    load_next_section page =
        let s = load_more_data page.element page.image_view in
        let loaded =
          Option.map (λ element. (true, record { image_view = s; element = element }))
            (map_state s page.element) in
        if page.element.has_more_pages then loaded else some (false, page)

    abbrev pub measured : Page → Page
    measured page = record page {
      element = record (page.element) { sufficient_data_loaded = is_enough_loaded page.element };
    }

    -- The loop goes on where there was more to load.
    abbrev pub after_load : Option (Bool × Page) → (Page → LoopResult) → LoopResult
    after_load none continue = threw
    after_load (some (false, page)) continue = returned page
    after_load (some (true, page)) continue = continue page

    -- `loadContentWhileNeeded`
    unfoldable pub load_content_while_needed : ℕ → Page → LoopResult
    unfolding load_next_section
    load_content_while_needed zero page = unfinished
    load_content_while_needed (suc fuel) page =
        let loaded =
          after_load (load_next_section (measured page)) (load_content_while_needed fuel) in
        if is_busy page.element
        then returned page
        else if is_enough_loaded page.element
        then returned (measured page)
        else loaded

    -- The part of `updated` that follows a change of the loading state: content is loaded if no more
    -- thumbnails are displayed than before.
    unfoldable pub loading_state_changed : RequestState → List SectionSize → ℕ → Page → LoopResult
    unfolding load_content_while_needed num_thumbnails_displayed
    loading_state_changed RequestState.loading sections fuel page =
        let displayed = num_thumbnails_displayed sections in
        let counted = λ (p : Page). record p {
          element = record (p.element) { last_num_thumbnails_displayed = displayed };
        } in
        if leb displayed page.element.last_num_thumbnails_displayed
        then elim (load_content_while_needed fuel page) [
          | returned page' ↦ returned (counted page')
          | threw ↦ threw
          | unfinished ↦ unfinished
        ]
        else returned (counted page)
    loading_state_changed old sections fuel page = returned page

-- `findSelectableRegion`: the loop that looks for a selected thumbnail, from an index down. `none`
-- where an index has no thumbnail, which throws; `some none` where no thumbnail is selected.
unfoldable pub find_start : List ImageWithStatus → ℕ → Option (Option ℕ)
find_start images zero = do
  image ← get_elem? images 0
  some (if image.selected then some 0 else none)
find_start images (suc i) =
    let earlier = find_start images i in
    do image ← get_elem? images (suc i); if image.selected then some (some (suc i)) else earlier

-- The IDs at so many indices from one on.
unfoldable pub ids_between : List ImageWithStatus → ℕ → ℕ → Option (List EntityId)
ids_between images start zero = some []
ids_between images start (suc n) =
    let rest = ids_between images (suc start) n in
    do image ← get_elem? images start; ids ← rest; some (image.id ∷ ids)

-- The region, by what the loop found.
abbrev pub region_from :
    List ImageWithStatus → EntityId → ℕ → Option (Option ℕ) → Option (List EntityId)
region_from images end_id end_index none = none
region_from images end_id end_index (some none) = some (end_id ∷ [])
region_from images end_id end_index (some (some start)) =
    ids_between images start (suc end_index - start)

-- An ID that is not displayed gives an index that compares with nothing, and no region.
abbrev pub region_to : List ImageWithStatus → EntityId → Option ℕ → Option (List EntityId)
region_to images end_id none = some []
region_to images end_id (some end_index) =
    region_from images end_id end_index (find_start images end_index)

unfoldable pub find_selectable_region : EntityId → ThumbnailGrid → Option (List EntityId)
unfolding find_start ids_between
find_selectable_region end_id element =
    region_to element.grouped_artifacts_flat_ids end_id (element.grouped_artifacts_order end_id)

module _ {M : Type 0} (adapter : EntityAdapter (ArtifactEntity M) select_id) where
  -- The handlers of a selection with the shift key, and of a click.
  unfoldable pub on_shift_selected :
      EntityId → ThumbnailGrid → ImageViewState M → Option (ImageViewState M)
  unfolding find_selectable_region
  on_shift_selected artifact_id element s =
      Option.map (λ region. thunk_select_images adapter region true s)
        (find_selectable_region artifact_id element)

  unfoldable pub on_click : ThumbnailGrid → ImageViewState M → ImageViewState M
  on_click element s = set_scroll_location adapter element.scroll_top s
