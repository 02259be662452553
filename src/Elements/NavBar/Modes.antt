-- ===== src/Elements/NavBar/Modes.antt =====
-- top-nav-bar.ts: the modes of the bar.
use mallard.Common.{ℕ, ◌≡◌, refl, ap, sym, ◌∙◌, zero, suc, false, not, ◌&&◌, arith, ltb}
use mallard.Common.Int.{pos}
use mallard.Common.{Text}
use mallard.Types.{ArtifactEntity}
use mallard.Adapter.{EntityAdapter}
use mallard.Adapter.Count.{count_entities}
use mallard.Grid.State.{ImageViewState, select_id}
use mallard.Grid.Thunks.{Store}
use mallard.Grid.Counters.{IsCounted, selected}
use mallard.Grid.Selection.{thunk_select_all_lem}
use mallard.Elements.NavBar.{
  TopNavBar, is_positive, is_zero, in_selection_mode, shows_search_box, shows_artifact_download,
  select_cancel, map_state, dispatch,
}

-- Zero and positive are what they are of a number.
is_zero-pos : (n : ℕ) → is_zero (pos n) ≡ not (ltb 0 n)
is_zero-pos zero = refl
is_zero-pos (suc n) = ground arith

is_positive-pos : (n : ℕ) → is_positive (pos n) ≡ ltb 0 n
is_positive-pos zero = refl
is_positive-pos (suc n) = ground arith

-- The bar shows the actions for a selection if artifacts are selected, and else the search box; and
-- neither while it shows the download of an artifact.
pub record IsShown {M : Type 0} (s : ImageViewState M) (bar : TopNavBar) : Type 0 where
  pub search :
      shows_search_box bar
      ≡ (not (ltb 0 (count_entities selected s.table)) && not (shows_artifact_download bar))
  pub selection :
      in_selection_mode bar
      ≡ (ltb 0 (count_entities selected s.table) && not (shows_artifact_download bar))

module _ {M : Type 0} (name_of : M → Text) where
  map_state-IsShown : (s : ImageViewState M) → IsCounted s → IsShown s (map_state name_of s)
  unfolding shows_search_box in_selection_mode shows_artifact_download map_state
  map_state-IsShown s c =
      let n = count_entities selected s.table in
      let link = not (shows_artifact_download (map_state name_of s)) in
      record {
        search = ap (λ b. b && link) (ap is_zero c.items ∙ is_zero-pos n);
        selection = ap (λ b. b && link) (ap is_positive c.items ∙ is_positive-pos n);
      }

  -- Where the counters are right, the bar shows the actions for a selection exactly if artifacts are
  -- selected, and the search box exactly if none is, neither beside the download of an artifact; this
  -- is so again when the user cancels the selection, and then no artifact is selected.
  pub select_cancel_lem :
      (adapter : EntityAdapter (ArtifactEntity M) select_id) (store : Store M)
      → IsCounted store.image_view
      → IsShown store.image_view (map_state name_of store.image_view)
        × IsShown
            (dispatch adapter select_cancel store).image_view
            (map_state name_of (dispatch adapter select_cancel store).image_view)
        × (count_entities selected (dispatch adapter select_cancel store).image_view.table ≡ 0)
  unfolding dispatch
  select_cancel_lem adapter store c =
      let (none_left, counted) = thunk_select_all_lem adapter store.image_view false c in
      (
        map_state-IsShown store.image_view c,
        map_state-IsShown _ counted,
        pos_injective (sym counted.items ∙ none_left),
      )
    where
      pos_injective : {m n : ℕ} → pos m ≡ pos n → m ≡ n
      pos_injective e = cc
