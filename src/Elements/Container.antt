-- ===== src/Elements/Container.antt =====
-- visibility-checking-container.ts: the children of an element that are visible. A child is its
-- position among the children of the parent, which has so many; the layout says where they are.
pub mod Window
pub mod Tracked
pub mod Told
use mallard.Common.{
  ℕ, suc, zero, ◌+◌, ◌-◌, ◌*◌, leb, Bool, true, false, ◌&&◌, if◌then◌else◌, List, [], ◌∷◌, ◌++◌,
  Option, none, some,
}
use mallard.Common.Int.{ℤ, pos, negsuc}

-- What the browser gives for an element, in pixels.
pub record Box : Type 0 where
  pub is_connected : Bool
  pub bottom : ℤ
  pub top : ℤ

pub record Layout : Type 0 where
  pub inner_height : ℕ
  pub num_children : ℕ
  pub box : ℕ → Box

pub record Tracker : Type 0 where
  pub visible_children : List ℕ
  pub tracking_enabled : Bool

-- The calls of `onChildrenVisible` and `onChildrenNotVisible`.
pub data ContainerEvent : Type 0 where
  children_visible : List ℕ → ContainerEvent
  children_not_visible : List ℕ → ContainerEvent

-- The buffer is `VISIBLE_MARGIN_PERCENT`, 50, of the height; both sides are multiplied by 100.
abbrev pub is_below : ℕ → ℤ → Bool
is_below inner_height (pos bottom) = true
is_below inner_height (negsuc bottom) = leb (100 * suc bottom) (inner_height * 50)

abbrev pub is_above : ℕ → ℤ → Bool
is_above inner_height (pos top) = leb (100 * top) (100 * inner_height + inner_height * 50)
is_above inner_height (negsuc top) = true

unfoldable pub is_visible : Layout → ℕ → Bool
is_visible layout child =
    let rect = layout.box child in
    rect.is_connected
    && (is_below layout.inner_height rect.bottom && is_above layout.inner_height rect.top)

-- The deque after a loop, and the children that the loop took, in order.
pub record Trimmed : Type 0 where
  pub kept : List ℕ
  pub taken : List ℕ

module _ (visible : ℕ → Bool) where
  abbrev pub trim_to : ℕ → Trimmed → Trimmed
  trim_to child rest = elim rest.kept [
    | [] ↦
        if visible child
        then record { kept = child ∷ []; taken = rest.taken }
        else record { kept = []; taken = rest.taken ++ child ∷ [] }
    | k ∷ ks ↦ record { kept = child ∷ k ∷ ks; taken = rest.taken }
  ]

  -- The loop from the back, on the list from the front.
  unfoldable pub trim_back : List ℕ → Trimmed
  trim_back [] = record { kept = []; taken = [] }
  trim_back (child ∷ children) = trim_to child (trim_back children)

  unfoldable pub trim_front : List ℕ → Trimmed
  trim_front [] = record { kept = []; taken = [] }
  trim_front (child ∷ children) =
      let rest = trim_front children in
      if visible child
      then record { kept = child ∷ children; taken = [] }
      else record rest { taken = child ∷ rest.taken }

  -- The visible children from one on, with so many children left.
  unfoldable pub visible_after : ℕ → ℕ → List ℕ
  visible_after zero child = []
  visible_after (suc remaining) child =
      let rest = visible_after remaining (suc child) in if visible child then child ∷ rest else []

  -- The visible children before one, the last one first.
  unfoldable pub visible_before : ℕ → List ℕ
  visible_before zero = []
  visible_before (suc child) =
      let rest = visible_before child in if visible child then child ∷ rest else []

  -- The first visible child.
  unfoldable pub first_visible : ℕ → ℕ → Option ℕ
  first_visible zero child = none
  first_visible (suc remaining) child =
      let rest = first_visible remaining (suc child) in if visible child then some child else rest

abbrev pub last_of : ℕ → List ℕ → ℕ
last_of child [] = child
last_of child (next ∷ children) = last_of next children

unfoldable pub unshift_all : List ℕ → List ℕ → List ℕ
unshift_all [] children = children
unshift_all (child ∷ new) children = unshift_all new (child ∷ children)

-- The calls, none for no child.
abbrev pub tell : (List ℕ → ContainerEvent) → List ℕ → List ContainerEvent
tell event [] = []
tell event (child ∷ children) = event (child ∷ children) ∷ []

module _ (layout : Layout) where
  unfoldable pub remove_all_invisible : Tracker → Tracker × List ContainerEvent
  unfolding trim_back trim_front
  remove_all_invisible tracker =
      let back = trim_back (is_visible layout) tracker.visible_children in
      let front = trim_front (is_visible layout) back.kept in
      (
        record tracker { visible_children = front.kept },
        tell children_not_visible (back.taken ++ front.taken),
      )

  -- The children after the last one, and before the first one.
  unfoldable pub next_visible : List ℕ → List ℕ
  unfolding visible_after
  next_visible [] = []
  next_visible (child ∷ children) =
      let last = last_of child children in
      visible_after (is_visible layout) (layout.num_children - suc last) (suc last)

  unfoldable pub previous_visible : List ℕ → List ℕ
  unfolding visible_before
  previous_visible [] = []
  previous_visible (child ∷ children) = visible_before (is_visible layout) child

  unfoldable pub add_all_newly_visible : Tracker → Tracker × List ContainerEvent
  unfolding next_visible previous_visible unshift_all
  add_all_newly_visible tracker =
      let children = tracker.visible_children in
      let after = next_visible children in
      let before = previous_visible children in
      (
        record tracker { visible_children = unshift_all before (children ++ after) },
        tell children_visible (after ++ before),
      )

  abbrev pub and_add : Tracker × List ContainerEvent → Tracker × List ContainerEvent
  and_add (tracker, events) =
      let (tracker', events') = add_all_newly_visible tracker in (tracker', events ++ events')

  -- The first visible child is found anew.
  abbrev pub found_first : Option ℕ → Tracker → Tracker × List ContainerEvent
  found_first none tracker = (record tracker { visible_children = [] }, [])
  found_first (some child) tracker =
      (record tracker { visible_children = child ∷ [] }, children_visible (child ∷ []) ∷ [])

  unfoldable pub reset_visibility_tracking : Tracker → Tracker × List ContainerEvent
  unfolding first_visible add_all_newly_visible
  reset_visibility_tracking tracker =
      and_add (found_first (first_visible (is_visible layout) layout.num_children 0) tracker)

  -- The handler of scrolling and resizing.
  unfoldable pub update : Tracker → Tracker × List ContainerEvent
  unfolding remove_all_invisible reset_visibility_tracking
  update tracker = elim tracker.visible_children [
    | [] ↦ reset_visibility_tracking tracker
    | child ∷ children ↦ and_add (remove_all_invisible tracker)
  ]

  unfoldable pub enable_visibility_tracking : Tracker → Tracker × List ContainerEvent
  unfolding reset_visibility_tracking
  enable_visibility_tracking tracker =
      let (tracker', events) = reset_visibility_tracking tracker in
      if tracker.tracking_enabled
      then (tracker, [])
      else (record tracker' { tracking_enabled = true }, events)

-- Without tracking the handler is not called.
unfoldable pub disable_visibility_tracking : Tracker → Tracker
disable_visibility_tracking tracker = record tracker { tracking_enabled = false }
