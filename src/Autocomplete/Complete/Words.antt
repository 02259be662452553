-- ===== src/Autocomplete/Complete/Words.antt =====
-- autocomplete.ts: the words of a search, and texts that are joined from words.
use mallard.Common.{
  ℕ, includes_unit, cons_head, ◌==◌, All, ◌≡◌, refl, ap, ◌∙◌, Text, split, length, join, true,
  false, ltb, Bool-cases, inl, inr, List, [], ◌∷◌, ◌++◌, keep, arith,
}
use mallard.Autocomplete.Predicate.{space}

-- The words of a search: its parts between spaces that are not empty.
unfoldable pub words : Text → List Text
words s = keep (λ (w : Text). ltb 0 (length w)) (split space s)

-- A word has a character, and no space.
pub record IsWord (w : Text) : Type 0 where
  pub one_word : includes_unit space w ≡ false
  pub not_empty : ltb 0 (length w) ≡ true

pub split-word : (c : ℕ) (w : Text) → includes_unit c w ≡ false → split c w ≡ w ∷ []
split-word c [] h = refl
split-word c (x ∷ w) h = ground (arith, split-word c w)

pub split-separator :
    (c : ℕ) (w rest : Text)
    → includes_unit c w ≡ false
    → split c (w ++ (c ∷ rest)) ≡ w ∷ split c rest
split-separator c [] rest h = ground arith
split-separator c (x ∷ w) rest h = ground (arith, split-separator c w rest)

split-join :
    (w : Text) (ws : List Text)
    → All IsWord (w ∷ ws)
    → split space (join (space ∷ []) (w ∷ ws)) ≡ w ∷ ws
split-join w [] (h, _) = split-word space w h.one_word
split-join w (v ∷ ws) (h, hs) =
    split-separator space w (join (space ∷ []) (v ∷ ws)) h.one_word ∙ ap (w ∷◌) (split-join v ws hs)

keep-words : (ws : List Text) → All IsWord ws → keep (λ (w : Text). ltb 0 (length w)) ws ≡ ws
keep-words [] _ = refl
keep-words (w ∷ ws) (h, hs) = rw (h.not_empty, keep-words ws hs)

pub words-join :
    (w : Text) (ws : List Text) → All IsWord (w ∷ ws) → words (join (space ∷ []) (w ∷ ws)) ≡ w ∷ ws
unfolding words
words-join w ws h =
    ap (keep (λ (v : Text). ltb 0 (length v))) (split-join w ws h) ∙ keep-words (w ∷ ws) h

cons_head-parts :
    (c x : ℕ) (ws : List Text)
    → (x == c) ≡ false
    → All (λ w. includes_unit c w ≡ false) ws
    → All (λ w. includes_unit c w ≡ false) (cons_head x ws)
cons_head-parts c x [] other _ = (ground arith, tt)
cons_head-parts c x (w ∷ ws) other (h, hs) = (ground arith, hs)

-- The parts of a search are free of spaces.
split-parts : (c : ℕ) (s : Text) → All (λ w. includes_unit c w ≡ false) (split c s)
split-parts c [] = (refl, tt)
split-parts c (x ∷ s) = elim (Bool-cases (x == c)) [
  | inl here ↦ rw here (refl, split-parts c s)
  | inr other ↦ rw other (cons_head-parts c x (split c s) other (split-parts c s))
]

pub All-IsWord : (s : Text) → All IsWord (words s)
unfolding words
All-IsWord s = each (split space s) (split-parts space s)
  where
    each :
        (ws : List Text)
        → All (λ w. includes_unit space w ≡ false) ws
        → All IsWord (keep (λ (w : Text). ltb 0 (length w)) ws)
    each [] _ = tt
    each (w ∷ ws) (h, hs) = elim (Bool-cases (ltb 0 (length w))) [
      | inl long ↦ rw long (record { one_word = h; not_empty = long }, each ws hs)
      | inr empty ↦ rw empty (each ws hs)
    ]
