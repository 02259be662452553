-- ===== src/Elements/Section.antt =====
-- thumbnail-grid-section.ts: a section of the grid, its events and what they dispatch.
pub mod Selecting
use mallard.Common.{
  ℕ, Text, map, Option, none, some, Bool, true, false, not, ◌&&◌, ◌||◌, if◌then◌else◌, List, [],
  ◌∷◌, ◌++◌,
}
use mallard.Types.{EntityId, ArtifactEntity, NormalizedState}
use mallard.Adapter.{EntityAdapter}
use mallard.Grid.State.{ImageViewState, select_id}
use mallard.Grid.Reducers.{set_section_expanded}
use mallard.Grid.Requests.{load_thumbnails_pending}
use mallard.Grid.Loads.{load_thumbnails_condition}
use mallard.Grid.Thunks.{Store, Outcome, done, thunk_select_images, thunk_clear_entities}
use mallard.Elements.Groups.{is_selected}
use mallard.Elements.Container.{
  Layout, Tracker, ContainerEvent, children_visible, children_not_visible,
  enable_visibility_tracking, disable_visibility_tracking,
}

pub record ThumbnailGridSection : Type 0 where
  pub section_header : Text
  pub displayed_artifacts : List EntityId
  pub selected : Bool
  pub expanded : Bool
  pub has_updated : Bool
  pub tracker : Tracker

-- The custom events.
pub data SectionEvent : Type 0 where
  select_toggled : Bool → SectionEvent
  expand_toggled : Bool → SectionEvent
  reload_data : List EntityId → SectionEvent
  delete_data : List EntityId → SectionEvent

-- `onChildrenVisible` and `onChildrenNotVisible`
unfoldable pub on_children : (ℕ → EntityId) → List ContainerEvent → List SectionEvent
on_children frontend_id [] = []
on_children frontend_id (children_visible children ∷ events) =
    reload_data (map frontend_id children) ∷ on_children frontend_id events
on_children frontend_id (children_not_visible children ∷ events) =
    delete_data (map frontend_id children) ∷ on_children frontend_id events

unfoldable pub on_select : ThumbnailGridSection → ThumbnailGridSection × SectionEvent
on_select element =
    let selected = not element.selected in
    (record element { selected = selected }, select_toggled selected)

unfoldable pub clear_thumbnails : ThumbnailGridSection → SectionEvent
clear_thumbnails element = delete_data element.displayed_artifacts

unfoldable pub reload_thumbnails : ThumbnailGridSection → List SectionEvent
reload_thumbnails element =
    if not element.expanded then [] else reload_data element.displayed_artifacts ∷ []

module _ (layout : Layout) (frontend_id : ℕ → EntityId) where
  -- The tracker, with what its calls dispatch.
  abbrev pub tracked_by :
      ThumbnailGridSection
      → Tracker × List ContainerEvent
      → ThumbnailGridSection × List SectionEvent
  tracked_by element (tracker, events) =
      (record element { tracker = tracker }, on_children frontend_id events)

  unfoldable pub enable_tracking : ThumbnailGridSection → ThumbnailGridSection × List SectionEvent
  unfolding on_children enable_visibility_tracking
  enable_tracking element =
      if not element.has_updated || not element.expanded
      then (element, [])
      else tracked_by element (enable_visibility_tracking layout element.tracker)

  -- A collapsed section stops tracking and clears its thumbnails.
  unfoldable pub on_expand_or_collapse :
      ThumbnailGridSection → ThumbnailGridSection × List SectionEvent
  unfolding enable_tracking clear_thumbnails disable_visibility_tracking
  on_expand_or_collapse element =
      let expanded = not element.expanded in
      let element' = record element { expanded = expanded } in
      let (enabled, events) = enable_tracking element' in
      if expanded then (enabled, expand_toggled expanded ∷ events) else (
        record element' { tracker = disable_visibility_tracking element.tracker },
        expand_toggled expanded ∷ clear_thumbnails element' ∷ [],
      )

abbrev pub is_true : Option Bool → Bool
is_true none = false
is_true (some b) = b

module _ {M : Type 0} where
  -- The loop of `mapState`.
  unfoldable pub all_selected : NormalizedState (ArtifactEntity M) → List EntityId → Bool
  all_selected t [] = true
  all_selected t (id ∷ ids) =
      let rest = all_selected t ids in if not (is_selected (t.entities id)) then false else rest

  unfoldable pub map_state : ImageViewState M → ThumbnailGridSection → ThumbnailGridSection
  unfolding all_selected
  map_state s element = record element {
    selected = all_selected s.table element.displayed_artifacts;
    expanded = not (is_true (s.collapsed_sections element.section_header));
  }

  -- `chunk` of lodash breaks the IDs up.
  module _ (adapter : EntityAdapter (ArtifactEntity M) select_id)
      (chunk : List EntityId → List (List EntityId)) where
    -- `thunkLoadThumbnails`: each chunk becomes pending where its condition holds.
    unfoldable pub load_chunks : List (List EntityId) → ImageViewState M → ImageViewState M
    load_chunks [] s = s
    load_chunks (ids ∷ chunks) s = load_chunks chunks (
        if is_true (load_thumbnails_condition ids s)
        then load_thumbnails_pending adapter ids s
        else s)

    unfoldable pub thunk_load_thumbnails : List EntityId → ImageViewState M → ImageViewState M
    thunk_load_thumbnails ids = load_chunks (chunk ids)

    -- What the action of an event does at once.
    unfoldable pub dispatch : ThumbnailGridSection → SectionEvent → Store M → Outcome M
    unfolding thunk_load_thumbnails
    dispatch element (select_toggled select) store = done (record store {
      image_view = thunk_select_images adapter element.displayed_artifacts select store.image_view;
    })
    dispatch element (expand_toggled expand) store = done (record store {
      image_view = set_section_expanded adapter element.section_header expand store.image_view;
    })
    dispatch element (reload_data ids) store =
        done (record store { image_view = thunk_load_thumbnails ids store.image_view })
    dispatch element (delete_data ids) store = thunk_clear_entities adapter ids store
