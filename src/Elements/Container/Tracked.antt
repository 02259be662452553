-- ===== src/Elements/Container/Tracked.antt =====
-- visibility-checking-container.ts: the tracked children after an update.
use mallard.Common.{
  ℕ, suc, zero, ◌+◌, ◌-◌, ◌≤◌, leb, ltb, Bool, true, false, ◌&&◌, Bool-cases, List, [], ◌++◌, ◌≡◌,
  refl, sym, ap, ◌∙◌, ◌⊎◌, inl, inr, All, ◌≢◌, arith, min, max,
}
use mathlib.Core.Path.{subst}
use mallard.Elements.Container.{
  Layout, Tracker, is_visible, trim_back, trim_front, visible_after, unshift_all, next_visible,
  previous_visible, remove_all_invisible, add_all_newly_visible, reset_visibility_tracking, update,
}
use mallard.Elements.Container.Window.{
  range, range-append, last_of-range, AreAll, trim_back-none, visible_after-range,
  unshift-visible_before, first_visible-none, first_visible-found, trimmed-range,
}

-- The visible children are those from one on up to another.
pub record IsWindow (layout : Layout) (a b : ℕ) : Type 0 where
  pub shown : (i : ℕ) → suc i ≤ layout.num_children → is_visible layout i ≡ (leb a i && ltb i b)
  pub bounded : b ≤ layout.num_children
  pub ordered : a ≤ b

abbrev pub tracker_of : List ℕ → Bool → Tracker
tracker_of children enabled = record { visible_children = children; tracking_enabled = enabled }

module _ (layout : Layout) (a b : ℕ) (w : IsWindow layout a b) where
  inside : (i m : ℕ) → a ≤ i → i + m ≤ b → AreAll (is_visible layout) true i m
  inside i m l u j lower upper = let bounded = w.bounded in w.shown j (omega arith) ∙ ground arith

  before : (i m : ℕ) → i + m ≤ a → AreAll (is_visible layout) false i m
  before i m u j lower upper =
      let bounded = w.bounded in let ordered = w.ordered in w.shown j (omega arith) ∙ ground arith

  after : (i m : ℕ) → b ≤ i → i + m ≤ layout.num_children → AreAll (is_visible layout) false i m
  after i m l u j lower upper = w.shown j (omega arith) ∙ ground arith

  abbrev added : List ℕ → List ℕ
  added children =
      unshift_all (previous_visible layout children) (children ++ next_visible layout children)

  added-range : (x q : ℕ) → a ≤ x → suc (x + q) ≤ b → added (range x (suc q)) ≡ range a (b - a)
  unfolding next_visible previous_visible unshift_all
  added-range x q l u =
      let visible = is_visible layout in
      let n = layout.num_children in
      let bounded = w.bounded in
      let last = x + q in
      let next : next_visible layout (range x (suc q)) ≡ range (suc last) (b - suc last) =
        ap (λ i. visible_after visible (n - suc i) (suc i)) (last_of-range x q last refl)
        ∙ visible_after-range visible (n - suc last) (suc last) (b - suc last) b (omega arith)
            (omega arith) (inside (suc last) (b - suc last) (omega arith) (omega arith))
            (λ m. after b 1 (omega arith) (omega arith) b (omega arith) (omega arith)) in
      ap (λ l. unshift_all (previous_visible layout (range x (suc q))) (range x (suc q) ++ l)) next
      ∙ ap (λ l. unshift_all (previous_visible layout (range x (suc q))) l)
          (sym
            (range-append x (suc q) (b - suc last) (suc last) (b - x) (omega arith) (omega arith)))
      ∙ unshift-visible_before visible a (x - a) (b - x) x (b - a) (omega arith) (omega arith)
          (inside a (x - a) (omega arith) (omega arith))
          (λ j e. before j 1 (omega arith) j (omega arith) (omega arith))

  abbrev kept : List ℕ → List ℕ
  kept children =
      (trim_front (is_visible layout) (trim_back (is_visible layout) children).kept).kept

  -- The children of which some is visible.
  kept-range :
      (lo m : ℕ)
      → suc (max lo a) ≤ min (lo + m) b
      → lo + m ≤ layout.num_children
      → kept (range lo m) ≡ range (max lo a) (min (lo + m) b - max lo a)
  kept-range lo m some_visible fits =
      let visible = is_visible layout in
      let x = max lo a in
      let last = min (lo + m) b - 1 in
      let size : suc (last - x) ≡ min (lo + m) b - x = omega arith in
      trimmed-range visible lo m x last (omega arith) (omega arith) (omega arith)
        (λ j l u. before j 1 (omega arith) j (omega arith) (omega arith))
        (inside x 1 (omega arith) (omega arith) x (omega arith) (omega arith))
        (inside last 1 (omega arith) (omega arith) last (omega arith) (omega arith))
        (λ j l u. after j 1 (omega arith) (omega arith) j (omega arith) (omega arith))
      ∙ ap (range x) size

  -- The children of which none is visible.
  kept-none :
      (lo m : ℕ)
      → min (lo + m) b ≤ max lo a
      → lo + m ≤ layout.num_children
      → AreAll (is_visible layout) false lo m
  kept-none lo m none_visible fits j l u = w.shown j (omega arith) ∙ ground arith

  -- The visible children are tracked, or none, where none that was tracked is visible any more.
  abbrev pub Tracks : List ℕ → List ℕ → Type 0
  Tracks old new =
      (new ≡ range a (b - a))
      ⊎ ((new ≡ []) × (old ≢ []) × All (λ j. is_visible layout j ≡ false) old)

  reset-range :
      (enabled : Bool)
      → (reset_visibility_tracking layout (tracker_of [] enabled)).0.visible_children
        ≡ range a (b - a)
  unfolding reset_visibility_tracking add_all_newly_visible
  reset-range enabled =
      let bounded = w.bounded in
      elim (Bool-cases (ltb a b)) [
        | inl some_visible ↦
            let l : suc a ≤ b = ground arith in
            let first =
              first_visible-found (is_visible layout) a layout.num_children 0 a (omega arith)
                (omega arith) (before 0 a (omega arith))
                (inside a 1 (omega arith) (omega arith) a (omega arith) (omega arith)) in
            rw first (added-range a 0 (omega arith) (omega arith))
        | inr none_visible ↦
            let l : b ≤ a = ground arith in
            let size : b - a ≡ 0 = omega arith in
            let missing =
              first_visible-none (is_visible layout) layout.num_children 0
                (kept-none 0 layout.num_children (omega arith) (omega arith)) in
            rw (missing, size) refl
      ]

  All-range :
      (i m : ℕ)
      → AreAll (is_visible layout) false i m
      → All (λ j. is_visible layout j ≡ false) (range i m)
  All-range i zero h = tt
  All-range i (suc m) h = (
    h i (omega arith) (omega arith),
    All-range (suc i) m (λ j l u. h j (omega arith) (omega arith)),
  )

  update-range :
      (lo m : ℕ) (enabled : Bool)
      → lo + m ≤ layout.num_children
      → Tracks (range lo m) (update layout (tracker_of (range lo m) enabled)).0.visible_children
  unfolding update remove_all_invisible add_all_newly_visible reset_visibility_tracking
  update-range lo zero enabled fits = inl (reset-range enabled)
  update-range lo (suc m) enabled fits = elim (Bool-cases (ltb (max lo a) (min (lo + suc m) b))) [
    | inl some_visible ↦
        let x = max lo a in
        let l : suc x ≤ min (lo + suc m) b = ground arith in
        let size : min (lo + suc m) b - x ≡ suc (min (lo + suc m) b - x - 1) = omega arith in
        inl (
          ap added (kept-range lo (suc m) l fits ∙ ap (range x) size)
          ∙ added-range x (min (lo + suc m) b - x - 1) (omega arith) (omega arith))
    | inr none_visible ↦
        let l : min (lo + suc m) b ≤ max lo a = ground arith in
        let off = kept-none lo (suc m) l fits in
        let nothing : kept (range lo (suc m)) ≡ [] =
          ap (λ t. (trim_front (is_visible layout) t).kept)
            (trim_back-none (is_visible layout) lo (suc m) off) in
        inr (ap added nothing, (λ e. cc), All-range lo (suc m) off)
  ]

  -- Where the visible children are consecutive, and consecutive children were tracked, exactly the
  -- visible ones are tracked after an update; or none, where there were some, and none of them is
  -- visible any more.
  pub update-Tracks :
      (lo m : ℕ) (tracker : Tracker)
      → tracker.visible_children ≡ range lo m
      → lo + m ≤ layout.num_children
      → Tracks tracker.visible_children (update layout tracker).0.visible_children
  update-Tracks lo m tracker e fits =
      subst
        (λ children.
          Tracks children
            (update layout (tracker_of children tracker.tracking_enabled)).0.visible_children)
        (sym e) (update-range lo m tracker.tracking_enabled fits)
