-- ===== src/Elements/ThumbnailGrid/Start.antt =====
-- thumbnail-grid.ts, findSelectableRegion: the loop that looks for the last selected thumbnail.
use mathlib.Core.Path.{subst}
use mallard.Common.{
  ℕ, zero, suc, ◌+◌, text_eq_refl, length, map, get_elem?, ◌≡◌, refl, ap, sym, ◌∙◌, mem, text_Eq,
  Distinct, none, some, true, false, Bool-cases, inl, inr, List, [], ◌∷◌, ◌++◌, append_assoc, All,
  All-append, ◌⊎◌, arith,
}
use mallard.Types.{EntityId}
use mallard.Elements.Groups.{ImageWithStatus}
use mallard.Elements.ThumbnailGrid.{order_from, find_start}

abbrev pub ids : List ImageWithStatus → List EntityId
ids images = map (λ (i : ImageWithStatus). i.id) images

abbrev pub IsUnselected : ImageWithStatus → Type 0
IsUnselected i = i.selected ≡ false

order_from-none :
    (i : ℕ) (images : List ImageWithStatus) (id : EntityId)
    → mem id (ids images) ≡ false
    → order_from i images id ≡ none
unfolding order_from
order_from-none i [] id h = refl
order_from-none i (x ∷ images) id h = ground (arith, order_from-none (suc i) images id)

pub order_from-found :
    (i : ℕ) (before : List ImageWithStatus) (x : ImageWithStatus) (after : List ImageWithStatus)
    → Distinct (ids (before ++ x ∷ after))
    → order_from i (before ++ x ∷ after) x.id ≡ some (i + length before)
unfolding order_from
order_from-found i [] x after (n, d) =
    let none_later = order_from-none (suc i) after x.id n in
    let same = text_eq_refl x.id in ground arith
order_from-found i (y ∷ before) x after (n, d) =
    let later = order_from-found (suc i) before x after d in
    let place : suc i + length before ≡ i + suc (length before) = omega arith in
    rw later (rw place refl)

pub get_elem?-middle :
    (before : List ImageWithStatus) (x : ImageWithStatus) (after : List ImageWithStatus)
    → get_elem? (before ++ x ∷ after) (length before) ≡ some x
get_elem?-middle [] x after = refl
get_elem?-middle (y ∷ before) x after = get_elem?-middle before x after

pub snoc-cases :
    (n : ℕ) (xs : List ImageWithStatus)
    → length xs ≡ suc n
    → (ys : List ImageWithStatus) × (x : ImageWithStatus) × (xs ≡ ys ++ x ∷ []) × (length ys ≡ n)
snoc-cases n [] h = absurd (omega (arith, h))
snoc-cases n (x ∷ []) h = ([], x, refl, omega (arith, h))
snoc-cases zero (x ∷ y ∷ xs) h = absurd (omega (arith, h))
snoc-cases (suc n) (x ∷ y ∷ xs) h =
    let (ys, z, e, l) = snoc-cases n (y ∷ xs) (omega (arith, h)) in
    (x ∷ ys, z, ap (x ∷◌) e, omega (arith, l))

-- The last selected thumbnail of a list.
pub record IsLastSelected (images : List ImageWithStatus) (front : List ImageWithStatus)
    (start : ImageWithStatus) (middle : List ImageWithStatus) : Type 0 where
  pub parts : images ≡ front ++ start ∷ middle
  pub selected : start.selected ≡ true
  pub others : All IsUnselected middle

abbrev pub Start : List ImageWithStatus → List ImageWithStatus → ℕ → Type 0
Start images all n =
    (All IsUnselected images × (find_start all n ≡ some none))
    ⊎ ((front : List ImageWithStatus) × (start : ImageWithStatus) × (middle : List ImageWithStatus)
        × IsLastSelected images front start middle
        × (find_start all n ≡ some (some (length front))))

-- One round of the loop.
find_start-selected :
    (all : List ImageWithStatus) (n : ℕ) (x : ImageWithStatus)
    → get_elem? all n ≡ some x
    → x.selected ≡ true
    → find_start all n ≡ some (some n)
unfolding find_start
find_start-selected all zero x at h = rw at (rw h refl)
find_start-selected all (suc n) x at h = rw at (rw h refl)

find_start-unselected :
    (all : List ImageWithStatus) (n : ℕ) (x : ImageWithStatus)
    → get_elem? all (suc n) ≡ some x
    → x.selected ≡ false
    → find_start all (suc n) ≡ find_start all n
unfolding find_start
find_start-unselected all n x at h = rw at (rw h refl)

find_start-none :
    (all : List ImageWithStatus) (x : ImageWithStatus)
    → get_elem? all 0 ≡ some x
    → x.selected ≡ false
    → find_start all 0 ≡ some none
unfolding find_start
find_start-none all x at h = rw at (rw h refl)

get_elem?-snoc :
    (n : ℕ) (ys : List ImageWithStatus) (x : ImageWithStatus) (after : List ImageWithStatus)
    → length ys ≡ n
    → get_elem? ((ys ++ x ∷ []) ++ after) n ≡ some x
get_elem?-snoc n ys x after h =
    ap (get_elem? ((ys ++ x ∷ []) ++ after)) (sym h)
    ∙ ap (λ all. get_elem? all (length ys)) (append_assoc ys (x ∷ []) after)
    ∙ get_elem?-middle ys x after

Start-here :
    (n : ℕ) (ys : List ImageWithStatus) (x : ImageWithStatus) (after : List ImageWithStatus)
    → length ys ≡ n
    → x.selected ≡ true
    → Start (ys ++ x ∷ []) ((ys ++ x ∷ []) ++ after) n
Start-here n ys x after l h = inr (
  ys,
  x,
  [],
  record { parts = refl; selected = h; others = tt },
  find_start-selected _ n x (get_elem?-snoc n ys x after l) h ∙ ap (λ k. some (some k)) (sym l),
)

pub find_start_lem :
    (n : ℕ) (ys : List ImageWithStatus) (x : ImageWithStatus) (after : List ImageWithStatus)
    → length ys ≡ n
    → Start (ys ++ x ∷ []) ((ys ++ x ∷ []) ++ after) n
find_start_lem zero (y ∷ ys) x after l = absurd (omega (arith, l))
find_start_lem zero [] x after l = elim (Bool-cases x.selected) [
  | inl on' ↦ Start-here zero [] x after l on'
  | inr off ↦ inl ((off, tt), find_start-none (x ∷ after) x refl off)
]
find_start_lem (suc n) ys x after l =
    let (zs, z, parts, k) = snoc-cases n ys l in
    elim (Bool-cases x.selected) [
      | inl on' ↦ Start-here (suc n) ys x after l on'
      | inr off ↦
          let all = (ys ++ x ∷ []) ++ after in
          let earlier : Start (zs ++ z ∷ []) ((zs ++ z ∷ []) ++ (x ∷ after)) n =
            find_start_lem n zs z (x ∷ after) k in
          let same_list : (zs ++ z ∷ []) ++ (x ∷ after) ≡ all =
            ap (◌++ (x ∷ after)) (sym parts) ∙ sym (append_assoc ys (x ∷ []) after) in
          let skip = find_start-unselected all n x (get_elem?-snoc (suc n) ys x after l) off in
          Start-later n ys x all off
            (subst (λ u. Start u all n) (sym parts)
              (subst (λ u. Start (zs ++ z ∷ []) u n) same_list earlier))
            skip
    ]
  where
    Start-later :
        (n : ℕ) (ys : List ImageWithStatus) (x : ImageWithStatus) (all : List ImageWithStatus)
        → x.selected ≡ false
        → Start ys all n
        → find_start all (suc n) ≡ find_start all n
        → Start (ys ++ x ∷ []) all (suc n)
    Start-later n ys x all off (inl (none_on, nowhere)) skip =
        inl (All-append IsUnselected ys (x ∷ []) none_on (off, tt), skip ∙ nowhere)
    Start-later n ys x all off (inr (front, start, middle, last, found)) skip = inr (
      front,
      start,
      middle ++ x ∷ [],
      record {
        parts = ap (◌++ (x ∷ [])) last.parts ∙ append_assoc front (start ∷ middle) (x ∷ []);
        selected = last.selected;
        others = All-append IsUnselected middle (x ∷ []) last.others (off, tt);
      },
      skip ∙ found,
    )
