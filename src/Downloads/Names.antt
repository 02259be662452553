-- ===== src/Downloads/Names.antt =====
-- downloads.ts: the names in `fetchImages`, by how often each name came before.
use mallard.Common.{
  ℕ, zero, suc, ◌+◌, ◌==◌, ◌≡◌, refl, ap, sym, ◌∙◌, Text, text_eq, eq_of_text_eq, Option, none,
  some, false, Bool-cases, inl, inr, arith, if◌then◌else◌, List, [], ◌∷◌, option_text_Eq,
}
use mallard.Downloads.{
  DuplicateNames, set_count, numbered_name, file_name, count_or_zero, fetch_names, fetch_images,
}

-- How often a name is in a list.
unfoldable pub occurrences : Text → List (Option Text) → ℕ
occurrences w [] = 0
occurrences w (none ∷ names) = occurrences w names
occurrences w (some v ∷ names) =
    let rest = occurrences w names in if text_eq v w then rest + 1 else rest

-- A name that came `n` times before.
abbrev pub name_after : ℕ → Text → Text
name_after zero w = w
name_after (suc n) w = numbered_name (suc n) w

-- The names behind the names `earlier`, the last of which is first.
unfoldable pub numbered : List (Option Text) → List (Option Text) → List (Option Text)
numbered earlier [] = []
numbered earlier (none ∷ names) = none ∷ numbered (none ∷ earlier) names
numbered earlier (some [] ∷ names) = some [] ∷ numbered (some [] ∷ earlier) names
numbered earlier (some (c ∷ w) ∷ names) =
    some (name_after (occurrences (c ∷ w) earlier) (c ∷ w))
    ∷ numbered (some (c ∷ w) ∷ earlier) names

-- The map holds how often each name came before.
abbrev Counts : DuplicateNames → List (Option Text) → Type 0
Counts counts earlier =
    (c : ℕ) (w : Text)
    → counts (c ∷ w)
      ≡ (if occurrences (c ∷ w) earlier == 0 then none else some (occurrences (c ∷ w) earlier))

-- A name that is counted, and one that is not.
counted-none :
    (counts : DuplicateNames) (earlier : List (Option Text))
    → Counts counts earlier
    → Counts counts (none ∷ earlier)
unfolding occurrences
counted-none counts earlier h c w = h c w

counted-empty :
    (counts : DuplicateNames) (earlier : List (Option Text))
    → Counts counts earlier
    → Counts counts (some [] ∷ earlier)
unfolding occurrences
counted-empty counts earlier h c w = h c w

count_of :
    (counts : DuplicateNames) (earlier : List (Option Text)) (c : ℕ) (w : Text)
    → Counts counts earlier
    → count_or_zero (counts (c ∷ w)) ≡ occurrences (c ∷ w) earlier
count_of counts earlier c w h = ground (arith, h c w)

counted-some :
    (counts : DuplicateNames) (earlier : List (Option Text)) (c : ℕ) (w : Text)
    → Counts counts earlier
    → Counts (set_count (c ∷ w) (occurrences (c ∷ w) earlier + 1) counts) (some (c ∷ w) ∷ earlier)
unfolding occurrences
counted-some counts earlier c w h d v = elim (Bool-cases (text_eq (c ∷ w) (d ∷ v))) [
  | inl here ↦
      let same = eq_of_text_eq (c ∷ w) (d ∷ v) here in
      ground (arith, ap (λ x. occurrences x earlier) same)
  | inr other ↦ ground (arith, h d v)
]

name_after-again : (n : ℕ) (w : Text) → (n == 0) ≡ false → name_after n w ≡ numbered_name n w
name_after-again zero w h = absurd (ground arith)
name_after-again (suc n) w h = refl

file_name-seen :
    (counts : DuplicateNames) (earlier : List (Option Text)) (c : ℕ) (w : Text)
    → Counts counts earlier
    → file_name (counts (c ∷ w)) (c ∷ w) ≡ name_after (occurrences (c ∷ w) earlier) (c ∷ w)
file_name-seen counts earlier c w h =
    let seen = occurrences (c ∷ w) earlier in
    elim (Bool-cases (seen == 0)) [
      | inl first ↦
          let absent : counts (c ∷ w) ≡ none = ground (arith, h c w) in
          let none_seen : seen ≡ 0 = ground arith in
          ap (λ o. file_name o (c ∷ w)) absent ∙ ap (λ n. name_after n (c ∷ w)) (sym none_seen)
      | inr again ↦
          let present : counts (c ∷ w) ≡ some seen = ground (arith, h c w) in
          ap (λ o. file_name o (c ∷ w)) present ∙ sym (name_after-again seen (c ∷ w) again)
    ]

fetch_names-numbered :
    (counts : DuplicateNames) (earlier names : List (Option Text))
    → Counts counts earlier
    → fetch_names counts names ≡ numbered earlier names
unfolding fetch_names numbered
fetch_names-numbered counts earlier [] h = refl
fetch_names-numbered counts earlier (none ∷ names) h =
    ap (none ∷◌)
      (fetch_names-numbered counts (none ∷ earlier) names (counted-none counts earlier h))
fetch_names-numbered counts earlier (some [] ∷ names) h =
    ap (some [] ∷◌)
      (fetch_names-numbered counts (some [] ∷ earlier) names (counted-empty counts earlier h))
fetch_names-numbered counts earlier (some (c ∷ w) ∷ names) h =
    let seen = occurrences (c ∷ w) earlier in
    let rest =
      ap (λ n. fetch_names (set_count (c ∷ w) (n + 1) counts) names) (count_of counts earlier c w h)
      ∙ fetch_names-numbered (set_count (c ∷ w) (seen + 1) counts) (some (c ∷ w) ∷ earlier) names
          (counted-some counts earlier c w h) in
    ap
      (λ n.
        some n ∷ fetch_names (set_count (c ∷ w) (count_or_zero (counts (c ∷ w)) + 1) counts) names)
      (file_name-seen counts earlier c w h)
    ∙ ap (some (name_after seen (c ∷ w)) ∷◌) rest

-- Each file of the archive has the name of its artifact, with the number of times that the name
-- came before in front of it if it did; an absent or empty name is passed on.
pub fetch_images-numbered : (names : List (Option Text)) → fetch_images names ≡ numbered [] names
unfolding fetch_images occurrences
fetch_images-numbered names = fetch_names-numbered (λ _. none) [] names (λ c w. refl)
