-- ===== src/Elements/Container/Told.antt =====
-- visibility-checking-container.ts: what the calls of an update tell of the children.
use mallard.Common.{
  ℕ, suc, zero, ◌+◌, ◌-◌, ◌≤◌, ◌==◌, leb, ltb, Bool, true, false, not, ◌&&◌, ◌||◌, Bool-cases, List,
  [], ◌∷◌, ◌++◌, ◌≡◌, refl, sym, ap, ◌∙◌, inl, inr, Option, none, some, arith,
}
use mallard.Elements.Container.{
  Layout, Tracker, Trimmed, ContainerEvent, children_visible, children_not_visible, is_visible,
  trim_to, trim_back, trim_front, first_visible, found_first, unshift_all, tell, next_visible,
  previous_visible, remove_all_invisible, add_all_newly_visible, reset_visibility_tracking, update,
}
use mallard.Elements.Container.Window.{range}
use mallard.Elements.Container.Tracked.{tracker_of, IsWindow, update-Tracks}

abbrev pub among : ℕ → List ℕ → Bool
among j [] = false
among j (i ∷ is) = (i == j) || among j is

-- Which children are visible, by the calls.
abbrev pub told : List ContainerEvent → (ℕ → Bool) → ℕ → Bool
told [] shown j = shown j
told (children_visible children ∷ events) shown j = told events (λ i. shown i || among i children) j
told (children_not_visible children ∷ events) shown j =
    told events (λ i. shown i && not (among i children)) j

among-append : (j : ℕ) (xs ys : List ℕ) → among j (xs ++ ys) ≡ (among j xs || among j ys)
among-append j [] ys = refl
among-append j (x ∷ xs) ys = ground (arith, among-append j xs ys)

among-unshift_all :
    (j : ℕ) (xs ys : List ℕ) → among j (unshift_all xs ys) ≡ (among j xs || among j ys)
unfolding unshift_all
among-unshift_all j [] ys = refl
among-unshift_all j (x ∷ xs) ys = ground (arith, among-unshift_all j xs (x ∷ ys))

module _ (visible : ℕ → Bool) where
  -- The parts of a list that a loop keeps and takes, and that what it takes is invisible.
  record Parts (j : ℕ) (xs : List ℕ) (r : Trimmed) : Type 0 where
    all : among j xs ≡ (among j r.kept || among j r.taken)
    invisible : among j r.taken ≡ true → visible j ≡ false

  same_visible : (x j : ℕ) (b : Bool) → (x == j) ≡ true → visible x ≡ b → visible j ≡ b
  same_visible x j b e h = let same : j ≡ x = ground arith in ap visible same ∙ h

  trim_to-Parts :
      (j x : ℕ) (xs : List ℕ) (kept taken : List ℕ)
      → Parts j xs (record { kept = kept; taken = taken })
      → Parts j (x ∷ xs) (trim_to visible x (record { kept = kept; taken = taken }))
  trim_to-Parts j x xs (k ∷ kept) taken h = record {
    all = ground (arith, h.all);
    invisible = h.invisible;
  }
  trim_to-Parts j x xs [] taken h = elim (Bool-cases (visible x)) [
    | inl on ↦ rw on (record { all = ground (arith, h.all); invisible = h.invisible })
    | inr off ↦ rw off (record {
      all = ground (arith, h.all, among-append j taken (x ∷ []));
      invisible = λ m. elim (Bool-cases (among j taken)) [
        | inl before ↦ h.invisible before
        | inr other ↦ same_visible x j false (ground (arith, among-append j taken (x ∷ []))) off
      ];
    })
  ]

  trim_back-Parts : (j : ℕ) (xs : List ℕ) → Parts j xs (trim_back visible xs)
  unfolding trim_back
  trim_back-Parts j [] = record { all = refl; invisible = λ m. ground arith }
  trim_back-Parts j (x ∷ xs) =
      let r = trim_back visible xs in trim_to-Parts j x xs r.kept r.taken (trim_back-Parts j xs)

  trim_front-Parts : (j : ℕ) (xs : List ℕ) → Parts j xs (trim_front visible xs)
  unfolding trim_front
  trim_front-Parts j [] = record { all = refl; invisible = λ m. ground arith }
  trim_front-Parts j (x ∷ xs) =
      let h = trim_front-Parts j xs in
      elim (Bool-cases (visible x)) [
        | inl on ↦ rw on (record { all = ground arith; invisible = λ m. ground arith })
        | inr off ↦ rw off (record {
          all = ground (arith, h.all);
          invisible = λ m. elim (Bool-cases (x == j)) [
            | inl here ↦ same_visible x j false here off
            | inr other ↦ h.invisible (ground arith)
          ];
        })
      ]

told-append :
    (es fs : List ContainerEvent) (shown : ℕ → Bool) (j : ℕ)
    → told (es ++ fs) shown j ≡ told fs (told es shown) j
told-append [] fs shown j = refl
told-append (children_visible cs ∷ es) fs shown j = told-append es fs (λ i. shown i || among i cs) j
told-append (children_not_visible cs ∷ es) fs shown j =
    told-append es fs (λ i. shown i && not (among i cs)) j

told-visible :
    (cs : List ℕ) (shown : ℕ → Bool) (j : ℕ)
    → told (tell children_visible cs) shown j ≡ (shown j || among j cs)
told-visible [] shown j = ground arith
told-visible (c ∷ cs) shown j = refl

told-not_visible :
    (cs : List ℕ) (shown : ℕ → Bool) (j : ℕ)
    → told (tell children_not_visible cs) shown j ≡ (shown j && not (among j cs))
told-not_visible [] shown j = ground arith
told-not_visible (c ∷ cs) shown j = refl

among-range : (j i m : ℕ) → among j (range i m) ≡ (leb i j && ltb j (i + m))
among-range j i zero = ground arith
among-range j i (suc m) = ground (arith, among-range j (suc i) m)

module _ (layout : Layout) where
  -- Before and after the children are added.
  add-told :
      (tracker : Tracker) (shown : ℕ → Bool) (j : ℕ)
      → shown j ≡ among j tracker.visible_children
      → told (add_all_newly_visible layout tracker).1 shown j
        ≡ among j (add_all_newly_visible layout tracker).0.visible_children
  unfolding add_all_newly_visible
  add-told tracker shown j h =
      let children = tracker.visible_children in
      let next = next_visible layout children in
      let previous = previous_visible layout children in
      told-visible (next ++ previous) shown j
      ∙ ground (
        arith,
        h,
        among-append j next previous,
        among-unshift_all j previous (children ++ next),
        among-append j children next,
      )

  AllVisible : Tracker → Type 0
  AllVisible tracker =
      (j : ℕ) → among j tracker.visible_children ≡ true → is_visible layout j ≡ true

  remove-told :
      (tracker : Tracker) (j : ℕ)
      → (among j (remove_all_invisible layout tracker).0.visible_children ≡ true
          → is_visible layout j ≡ true)
      → told (remove_all_invisible layout tracker).1 (λ i. among i tracker.visible_children) j
        ≡ among j (remove_all_invisible layout tracker).0.visible_children
  unfolding remove_all_invisible
  remove-told tracker j all_visible =
      let visible = is_visible layout in
      let children = tracker.visible_children in
      let back = trim_back visible children in
      let front = trim_front visible back.kept in
      let b = trim_back-Parts visible j children in
      let f = trim_front-Parts visible j back.kept in
      told-not_visible (back.taken ++ front.taken) (λ i. among i children) j
      ∙ ground (
        arith,
        among-append j back.taken front.taken,
        b.all,
        b.invisible,
        f.all,
        f.invisible,
        all_visible,
      )

  kept-added :
      (tracker : Tracker) (j : ℕ)
      → among j tracker.visible_children ≡ true
      → among j (add_all_newly_visible layout tracker).0.visible_children ≡ true
  unfolding add_all_newly_visible
  kept-added tracker j m =
      let children = tracker.visible_children in
      let next = next_visible layout children in
      let previous = previous_visible layout children in
      ground
        (arith, m, among-unshift_all j previous (children ++ next), among-append j children next)

  found-told :
      (o : Option ℕ) (enabled : Bool) (j : ℕ)
      → told (found_first layout o (tracker_of [] enabled)).1 (λ i. false) j
        ≡ among j (found_first layout o (tracker_of [] enabled)).0.visible_children
  found-told none enabled j = refl
  found-told (some child) enabled j = refl

  reset-told :
      (enabled : Bool) (j : ℕ)
      → told (reset_visibility_tracking layout (tracker_of [] enabled)).1 (λ i. false) j
        ≡ among j (reset_visibility_tracking layout (tracker_of [] enabled)).0.visible_children
  unfolding reset_visibility_tracking
  reset-told enabled j =
      let o = first_visible (is_visible layout) layout.num_children 0 in
      let found = found_first layout o (tracker_of [] enabled) in
      told-append found.1 (add_all_newly_visible layout found.0).1 (λ i. false) j
      ∙ add-told found.0 (told found.1 (λ i. false)) j (found-told o enabled j)

  update-told_of :
      (children : List ℕ) (enabled : Bool)
      → AllVisible (update layout (tracker_of children enabled)).0
      → (j : ℕ)
      → told (update layout (tracker_of children enabled)).1 (λ i. among i children) j
        ≡ among j (update layout (tracker_of children enabled)).0.visible_children
  unfolding update AllVisible
  update-told_of [] enabled all_visible j = reset-told enabled j
  update-told_of (c ∷ cs) enabled all_visible j =
      let tracker = tracker_of (c ∷ cs) enabled in
      let removed = remove_all_invisible layout tracker in
      told-append removed.1 (add_all_newly_visible layout removed.0).1 (λ i. among i (c ∷ cs)) j
      ∙ add-told removed.0 (told removed.1 (λ i. among i (c ∷ cs))) j
          (remove-told tracker j (λ m. all_visible j (kept-added removed.0 j m)))

  -- Where the visible children are consecutive, and consecutive children were tracked, the calls of an
  -- update tell exactly what changed: who knew the tracked children before knows them afterwards.
  pub update-told :
      (a b : ℕ) (w : IsWindow layout a b) (lo m : ℕ) (tracker : Tracker)
      → tracker.visible_children ≡ range lo m
      → lo + m ≤ layout.num_children
      → (j : ℕ)
      → told (update layout tracker).1 (λ i. among i tracker.visible_children) j
        ≡ among j (update layout tracker).0.visible_children
  unfolding AllVisible
  update-told a b w lo m tracker e fits =
      update-told_of tracker.visible_children tracker.tracking_enabled (λ j found.
        elim (update-Tracks layout a b w lo m tracker e fits) [
          | inl tracked ↦
              let bounded = w.bounded in
              let inside : (leb a j && ltb j (a + (b - a))) ≡ true =
                sym (among-range j a (b - a)) ∙ ap (among j) (sym tracked) ∙ found in
              let low : suc j ≤ layout.num_children = ground arith in w.shown j low ∙ ground arith
          | inr (none_left, _, _) ↦ absurd (ground (arith, ap (among j) none_left ∙ refl, found))
        ])
