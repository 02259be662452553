-- ===== src/Elements/SectionTests.antt =====
-- thumbnail-grid-section.ts and top-nav-bar.ts on a small table.
use mallard.Common.{◌≡◌, Text, codes, List, [], ◌∷◌, true, false, text_Eq, All}
use mallard.Types.{EntityId}
use mallard.Adapter.Count.{count_entities}
use mallard.Grid.Thunks.{Store, done}
use mallard.Grid.Counters.{selected}
use mallard.Grid.Tests.{adapter, both, state, state-IsCounted, state-knows}
use mallard.Elements.Groups.{is_selected}
use mallard.Elements.NavBar.{select_cancel}
use mallard.Elements.NavBar.Modes.{IsShown, select_cancel_lem}
use mallard.Elements.Section.{ThumbnailGridSection, on_select}
use mallard.Elements.Section.Selecting.{on_select_lem}
use mallard.Elements.NavBar as NavBar
use mallard.Elements.Section as Section

abbrev store : Store Text
store = record { image_view = state; revoked = [] }

select_cancel_lem_example :
    IsShown store.image_view (NavBar.map_state (λ m. m) store.image_view)
    × IsShown
        (NavBar.dispatch adapter select_cancel store).image_view
        (NavBar.map_state (λ m. m) (NavBar.dispatch adapter select_cancel store).image_view)
    × (count_entities selected (NavBar.dispatch adapter select_cancel store).image_view.table ≡ 0)
select_cancel_lem_example = select_cancel_lem (λ m. m) adapter store state-IsCounted

-- Each ID is a chunk.
abbrev chunk : List EntityId → List (List EntityId)
chunk [] = []
chunk (id ∷ ids) = (id ∷ []) ∷ chunk ids

abbrev section : ThumbnailGridSection
section = record {
  section_header = codes "s1";
  displayed_artifacts = both;
  selected = false;
  expanded = true;
  has_updated = true;
  tracker = record { visible_children = []; tracking_enabled = false };
}

on_select_lem_example :
    (store' : Store Text) × (Section.dispatch adapter chunk section (on_select section).1 store
      ≡ done store')
    × ((Section.map_state store'.image_view (on_select section).0).selected ≡ true)
    × All (λ j. is_selected (store'.image_view.table.entities j) ≡ true) both
on_select_lem_example = on_select_lem adapter chunk section store (λ e. cc) state-knows
