-- ===== src/Elements/Container/Window.antt =====
-- visibility-checking-container.ts: consecutive children, and the loops over them.
use mallard.Common.{
  ℕ, suc, zero, ◌+◌, ◌-◌, ◌≤◌, Bool, true, false, List, [], ◌∷◌, ◌++◌, none, some, ◌≡◌, refl, sym,
  ap, ◌∙◌, arith,
}
use mallard.Elements.Container.{
  Trimmed, trim_to, trim_back, trim_front, visible_after, visible_before, first_visible, last_of,
  unshift_all,
}

-- So many children from one on.
abbrev pub range : ℕ → ℕ → List ℕ
range child zero = []
range child (suc n) = child ∷ range (suc child) n

pub range-append : (i p q j m : ℕ) → j ≡ i + p → m ≡ p + q → range i m ≡ range i p ++ range j q
range-append i zero q j m e t =
    let start : j ≡ i = omega arith in let size : m ≡ q = omega arith in rw (start, size) refl
range-append i (suc p) q j m e t =
    let size : m ≡ suc (p + q) = omega arith in
    rw size (ap (λ l. i ∷ l) (range-append (suc i) p q j (p + q) (omega arith) refl))

pub last_of-range : (i n j : ℕ) → j ≡ i + n → last_of i (range (suc i) n) ≡ j
last_of-range i zero j e = omega arith
last_of-range i (suc n) j e = last_of-range (suc i) n j (omega arith)

module _ (visible : ℕ → Bool) where
  -- Whether so many children from one on are all visible or all invisible.
  abbrev pub AreAll : Bool → ℕ → ℕ → Type 0
  AreAll b i n = (j : ℕ) → i ≤ j → suc j ≤ i + n → visible j ≡ b

  pub trim_back-none : (i n : ℕ) → AreAll false i n → (trim_back visible (range i n)).kept ≡ []
  unfolding trim_back
  trim_back-none i zero h = refl
  trim_back-none i (suc n) h =
      let rest = trim_back-none (suc i) n (λ j l u. h j (omega arith) (omega arith)) in
      let here = h i (omega arith) (omega arith) in rw rest (rw here refl)

  trim_to-cons :
      (child k : ℕ) (ks : List ℕ) (rest : Trimmed)
      → rest.kept ≡ k ∷ ks
      → (trim_to visible child rest).kept ≡ child ∷ k ∷ ks
  trim_to-cons child k ks rest h = rw h refl

  -- A list that ends with a visible child.
  trim_back-kept :
      (children : List ℕ) (last r : ℕ)
      → visible last ≡ true
      → AreAll false (suc last) r
      → (trim_back visible (children ++ last ∷ range (suc last) r)).kept ≡ children ++ last ∷ []
  unfolding trim_back
  trim_back-kept [] last r v h = rw (trim_back-none (suc last) r h) (rw v refl)
  trim_back-kept (c ∷ []) last r v h = trim_to-cons c last [] _ (trim_back-kept [] last r v h)
  trim_back-kept (c ∷ d ∷ children) last r v h =
      trim_to-cons c d (children ++ last ∷ []) _ (trim_back-kept (d ∷ children) last r v h)

  trim_front-kept :
      (i p j : ℕ) (children : List ℕ)
      → j ≡ i + p
      → AreAll false i p
      → visible j ≡ true
      → (trim_front visible (range i p ++ j ∷ children)).kept ≡ j ∷ children
  unfolding trim_front
  trim_front-kept i zero j children e h v = rw v refl
  trim_front-kept i (suc p) j children e h v =
      let here = h i (omega arith) (omega arith) in
      rw here (
        trim_front-kept (suc i) p j children (omega arith)
          (λ k l u. h k (omega arith) (omega arith)) v)

  pub visible_after-range :
      (r i s j : ℕ)
      → j ≡ i + s
      → s ≤ r
      → AreAll true i s
      → (suc s ≤ r → visible j ≡ false)
      → visible_after visible r i ≡ range i s
  unfolding visible_after
  visible_after-range zero i zero j e l h off = refl
  visible_after-range zero i (suc s) j e l h off = absurd (omega arith)
  visible_after-range (suc r) i zero j e l h off =
      let here : visible i ≡ false = ap visible (omega arith) ∙ off (omega arith) in rw here refl
  visible_after-range (suc r) i (suc s) j e l h off =
      let on = h i (omega arith) (omega arith) in
      rw on (
        ap (λ t. i ∷ t)
          (visible_after-range r (suc i) s j (omega arith) (omega arith)
            (λ k l' u. h k (omega arith) (omega arith)) (λ m. off (omega arith))))

  -- The children before the first one are put in front of it.
  pub unshift-visible_before :
      (a d m x t : ℕ)
      → x ≡ a + d
      → t ≡ d + m
      → AreAll true a d
      → ((j : ℕ) → a ≡ suc j → visible j ≡ false)
      → unshift_all (visible_before visible x) (range x m) ≡ range a t
  unfolding visible_before unshift_all
  unshift-visible_before zero zero m x t e f h off =
      let start : x ≡ 0 = omega arith in let size : t ≡ m = omega arith in rw (start, size) refl
  unshift-visible_before (suc a) zero m x t e f h off =
      let start : x ≡ suc a = omega arith in
      let size : t ≡ m = omega arith in let before = off a refl in rw (start, size) (rw before refl)
  unshift-visible_before a (suc d) m x t e f h off =
      let start : x ≡ suc (a + d) = omega arith in
      let on = h (a + d) (omega arith) (omega arith) in
      rw start (
        rw on (
          unshift-visible_before a d (suc m) (a + d) t refl (omega arith)
            (λ k l u. h k (omega arith) (omega arith)) off))

  pub first_visible-none : (r i : ℕ) → AreAll false i r → first_visible visible r i ≡ none
  unfolding first_visible
  first_visible-none zero i h = refl
  first_visible-none (suc r) i h =
      let off = h i (omega arith) (omega arith) in
      rw off (first_visible-none r (suc i) (λ j l u. h j (omega arith) (omega arith)))

  pub first_visible-found :
      (s r i j : ℕ)
      → j ≡ i + s
      → suc s ≤ r
      → AreAll false i s
      → visible j ≡ true
      → first_visible visible r i ≡ some j
  unfolding first_visible
  first_visible-found s zero i j e l h v = absurd (omega arith)
  first_visible-found zero (suc r) i j e l h v =
      let same : i ≡ j = omega arith in
      let here : visible i ≡ true = ap visible same ∙ v in rw here (ap some same)
  first_visible-found (suc s) (suc r) i j e l h v =
      let off = h i (omega arith) (omega arith) in
      rw off (
        first_visible-found s r (suc i) j (omega arith) (omega arith)
          (λ k l' u. h k (omega arith) (omega arith)) v)

  -- What is left of consecutive children when the invisible ones at both ends are removed.
  pub trimmed-range :
      (lo m x last : ℕ)
      → lo ≤ x
      → x ≤ last
      → suc last ≤ lo + m
      → AreAll false lo (x - lo)
      → visible x ≡ true
      → visible last ≡ true
      → AreAll false (suc last) (lo + m - suc last)
      → (trim_front visible (trim_back visible (range lo m)).kept).kept ≡ range x (suc (last - x))
  trimmed-range lo m x last lx xl lm before vx vl after =
      let r = lo + m - suc last in
      let split : range lo m ≡ range lo (last - lo) ++ last ∷ range (suc last) r =
        range-append lo (last - lo) (suc r) last m (omega arith) (omega arith) in
      let joined : range lo (last - lo) ++ last ∷ [] ≡ range lo (suc (last - lo)) =
        sym (range-append lo (last - lo) 1 last (suc (last - lo)) (omega arith) (omega arith)) in
      let apart : range lo (suc (last - lo)) ≡ range lo (x - lo) ++ range x (suc (last - x)) =
        range-append lo (x - lo) (suc (last - x)) x (suc (last - lo)) (omega arith) (omega arith) in
      let back : (trim_back visible (range lo m)).kept
          ≡ range lo (x - lo) ++ range x (suc (last - x)) =
        ap (λ l. (trim_back visible l).kept) split
        ∙ trim_back-kept (range lo (last - lo)) last r vl after
        ∙ joined
        ∙ apart in
      ap (λ l. (trim_front visible l).kept) back
      ∙ trim_front-kept lo (x - lo) x (range (suc x) (last - x)) (omega arith) before vx
