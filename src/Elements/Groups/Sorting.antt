-- ===== src/Elements/Groups/Sorting.antt =====
-- thumbnail-grid.ts: what `Array.sort` leaves as it is, and the order that it makes.
use mallard.Common.{
  ℕ, ◌+◌, Text, text_eq, map, ◌≡◌, refl, ap, ◌∙◌, mem, text_Eq, Distinct, count, count-append,
  beq_comm, Bool, true, false, ◌||◌, Bool-cases, inl, inr, List, [], ◌∷◌, All, arith,
}
use mallard.Elements.Groups.{
  insert, sort, text_gt, Browser, GroupedImages, group_after, session_or_empty, flat_ids,
}

module _ {A : Type 0} (after : A → A → Bool) where
  -- No element comes after the one that follows it.
  abbrev pub IsOrdered : List A → Type 0
  IsOrdered [] = Unit
  IsOrdered (x ∷ []) = Unit
  IsOrdered (x ∷ y ∷ xs) = (after x y ≡ false) × IsOrdered (y ∷ xs)

  module _ (asymmetric : (a b : A) → after a b ≡ true → after b a ≡ false) where
    -- What stays in front of the rest of a list stays in front of it with one element more.
    insert-IsOrdered-after :
        (y x : A) (xs : List A)
        → after y x ≡ false
        → IsOrdered (y ∷ xs)
        → IsOrdered (insert after x xs)
        → IsOrdered (y ∷ insert after x xs)
    unfolding insert
    insert-IsOrdered-after y x [] h _ k = (h, k)
    insert-IsOrdered-after y x (z ∷ xs) h (g, gs) k = elim (Bool-cases (after x z)) [
      | inl later ↦ rw later (g, rw later at k)
      | inr first ↦ rw first (h, rw first at k)
    ]

    insert-IsOrdered : (x : A) (xs : List A) → IsOrdered xs → IsOrdered (insert after x xs)
    unfolding insert
    insert-IsOrdered x [] _ = tt
    insert-IsOrdered x (y ∷ []) _ = elim (Bool-cases (after x y)) [
      | inl later ↦ rw later (asymmetric x y later, tt)
      | inr first ↦ rw first (first, tt)
    ]
    insert-IsOrdered x (y ∷ z ∷ xs) (g, gs) =
        let rest = insert-IsOrdered x (z ∷ xs) gs in
        elim (Bool-cases (after x y)) [
          | inl later ↦
              rw later (insert-IsOrdered-after y x (z ∷ xs) (asymmetric x y later) (g, gs) rest)
          | inr first ↦ rw first (first, (g, gs))
        ]

    pub sort-IsOrdered : (xs : List A) → IsOrdered (sort after xs)
    unfolding sort
    sort-IsOrdered [] = tt
    sort-IsOrdered (x ∷ xs) = insert-IsOrdered x (sort after xs) (sort-IsOrdered xs)

  -- A sum over the elements.
  abbrev pub total : (A → ℕ) → List A → ℕ
  total f [] = 0
  total f (x ∷ xs) = f x + total f xs

  total-insert : (f : A → ℕ) (x : A) (xs : List A) → total f (insert after x xs) ≡ f x + total f xs
  unfolding insert
  total-insert f x [] = refl
  total-insert f x (y ∷ xs) = elim (Bool-cases (after x y)) [
    | inl later ↦ rw later (omega (arith, total-insert f x xs))
    | inr first ↦ rw first refl
  ]

  pub total-sort : (f : A → ℕ) (xs : List A) → total f (sort after xs) ≡ total f xs
  unfolding sort
  total-sort f [] = refl
  total-sort f (x ∷ xs) = omega (arith, total-insert f x (sort after xs), total-sort f xs)

  All-insert : (P : A → Type 0) (x : A) (xs : List A) → P x → All P xs → All P (insert after x xs)
  unfolding insert
  All-insert P x [] h _ = (h, tt)
  All-insert P x (y ∷ xs) h (k, ks) = elim (Bool-cases (after x y)) [
    | inl later ↦ rw later (k, All-insert P x xs h ks)
    | inr first ↦ rw first (h, (k, ks))
  ]

  pub All-sort : (P : A → Type 0) (xs : List A) → All P xs → All P (sort after xs)
  unfolding sort
  All-sort P [] _ = tt
  All-sort P (x ∷ xs) (h, hs) = All-insert P x (sort after xs) h (All-sort P xs hs)

  module _ (key : A → Text) where
    mem-insert :
        (k : Text) (x : A) (xs : List A)
        → mem k (map key (insert after x xs)) ≡ mem k (key x ∷ map key xs)
    unfolding insert
    mem-insert k x [] = refl
    mem-insert k x (y ∷ xs) = elim (Bool-cases (after x y)) [
      | inl later ↦ rw later (ground (arith, mem-insert k x xs))
      | inr first ↦ rw first refl
    ]

    mem-sort : (k : Text) (xs : List A) → mem k (map key (sort after xs)) ≡ mem k (map key xs)
    unfolding sort
    mem-sort k [] = refl
    mem-sort k (x ∷ xs) =
        mem-insert k x (sort after xs) ∙ ap (text_eq (key x) k ||◌) (mem-sort k xs)

    Distinct-insert :
        (x : A) (xs : List A)
        → mem (key x) (map key xs) ≡ false
        → Distinct (map key xs)
        → Distinct (map key (insert after x xs))
    unfolding insert
    Distinct-insert x [] m d = (m, d)
    Distinct-insert x (y ∷ xs) m (n, d) = elim (Bool-cases (after x y)) [
      | inl later ↦ rw later (
        mem-insert (key y) x xs ∙ ground (arith, beq_comm (key x) (key y)),
        Distinct-insert x xs (ground arith) d,
      )
      | inr first ↦ rw first (m, (n, d))
    ]

    pub Distinct-sort : (xs : List A) → Distinct (map key xs) → Distinct (map key (sort after xs))
    unfolding sort
    Distinct-sort [] _ = tt
    Distinct-sort (x ∷ xs) (n, d) =
        Distinct-insert x (sort after xs) (mem-sort (key x) xs ∙ n) (Distinct-sort xs d)

text_gt_asymmetric : (s t : Text) → text_gt s t ≡ true → text_gt t s ≡ false
text_gt_asymmetric [] t h = cc
text_gt_asymmetric (x ∷ s) [] h = refl
text_gt_asymmetric (x ∷ s) (y ∷ t) h = ground (arith, text_gt_asymmetric s t)

pub group_after_asymmetric :
    (browser : Browser) (a b : GroupedImages)
    → group_after browser a b ≡ true
    → group_after browser b a ≡ false
group_after_asymmetric browser a b h =
    ground (arith, text_gt_asymmetric (session_or_empty a.session) (session_or_empty b.session))

pub count-flat_ids :
    (j : Text) (groups : List GroupedImages)
    → count (text_eq j) (flat_ids groups)
      ≡ total (λ _ _. true) (λ (g : GroupedImages). count (text_eq j) g.image_ids) groups
unfolding flat_ids count
count-flat_ids j [] = refl
count-flat_ids j (g ∷ groups) =
    count-append (text_eq j) g.image_ids (flat_ids groups)
    ∙ ap (count (text_eq j) g.image_ids +◌) (count-flat_ids j groups)
