-- ===== src/Elements/BarTests.antt =====
-- top-nav-bar.ts, thumbnail-grid-section.ts and visibility-checking-container.ts on small inputs.
use mallard.Common.{ℕ, suc, zero, ◌≤◌, ◌≡◌, refl, [], ◌∷◌, true, text_Eq, arith, ◌&&◌, leb, ltb}
use mallard.Common.Int.{pos, negsuc}
use mallard.Elements.Container.{
  Box, Layout, Tracker, children_visible, children_not_visible, is_visible, trim_back, trim_front,
  visible_after, visible_before, first_visible, unshift_all, remove_all_invisible, next_visible,
  previous_visible, add_all_newly_visible, reset_visibility_tracking, update,
  enable_visibility_tracking, disable_visibility_tracking,
}
use mallard.Elements.Container.Told.{among, told, update-told}
use mallard.Elements.Container.Tracked.{IsWindow, Tracks, update-Tracks}

-- The definitions that the tests evaluate.
tracking : Unit {0}
unfolding is_visible trim_back trim_front visible_after visible_before first_visible unshift_all
    remove_all_invisible next_visible previous_visible add_all_newly_visible
    reset_visibility_tracking update enable_visibility_tracking disable_visibility_tracking
tracking = tt

-- The first child is far above, the last one far below.
abbrev box : ℕ → Box
box zero = record { is_connected = true; bottom = negsuc 100; top = negsuc 200 }
box (suc zero) = record { is_connected = true; bottom = pos 40; top = negsuc 60 }
box (suc (suc zero)) = record { is_connected = true; bottom = pos 140; top = pos 40 }
box (suc (suc (suc _))) = record { is_connected = true; bottom = pos 900; top = pos 800 }

abbrev layout : Layout
layout = record { inner_height = 100; num_children = 4; box = box }

layout-shown : (i : ℕ) → suc i ≤ 4 → is_visible layout i ≡ (leb 1 i && ltb i 3)
unfolding tracking
layout-shown zero h = refl
layout-shown (suc zero) h = refl
layout-shown (suc (suc zero)) h = refl
layout-shown (suc (suc (suc i))) h = ground arith

layout-IsWindow : IsWindow layout 1 3
layout-IsWindow = record { shown = layout-shown; bounded = omega arith; ordered = omega arith }

abbrev tracker : Tracker
tracker = record { visible_children = 0 ∷ 1 ∷ []; tracking_enabled = true }

update-Tracks_example :
    Tracks layout 1 3 layout-IsWindow (0 ∷ 1 ∷ []) (update layout tracker).0.visible_children
update-Tracks_example = update-Tracks layout 1 3 layout-IsWindow 0 2 tracker refl (omega arith)

update-told_example :
    told (update layout tracker).1 (λ i. among i (0 ∷ 1 ∷ [])) 2
    ≡ among 2 (update layout tracker).0.visible_children
update-told_example = update-told layout 1 3 layout-IsWindow 0 2 tracker refl (omega arith) 2

update_tests : update layout tracker ≡ (
  record { visible_children = 1 ∷ 2 ∷ []; tracking_enabled = true },
  children_not_visible (0 ∷ []) ∷ children_visible (2 ∷ []) ∷ [],
)
unfolding tracking
update_tests = refl
