-- ===== src/Autocomplete/Suggestions/Unique.antt =====
-- autocomplete.ts: `deDuplicateSuggestions`.
use mallard.Common.{
  ◌≡◌, refl, Text, Option, ◌||◌, Bool-cases, List, [], ◌∷◌, ◌++◌, arith, mem, option_text_Eq,
  Distinct, mem-append, mem_of_beq, Distinct-snoc, inl, inr,
}
use mallard.Autocomplete.Suggestions.{de_duplicate_loop, de_duplicate_suggestions}

-- The set has the same members as the output throughout.
module _ (set out : List (Option Text)) where
  abbrev SameMembers : Type 0
  SameMembers = (a : Option Text) → mem a set ≡ mem a out

-- The loop keeps the output without repetition, and its members are those seen so far.
loop_invariant :
    (set out ss : List (Option Text))
    → SameMembers set out
    → Distinct out
    → Distinct (de_duplicate_loop set out ss)
      × ((a : Option Text) → mem a (de_duplicate_loop set out ss) ≡ (mem a out || mem a ss))
unfolding de_duplicate_loop
loop_invariant set out [] same d = (d, λ a. ground arith)
loop_invariant set out (s ∷ ss) same d = elim (Bool-cases (mem s set)) [
  | inl seen ↦
      let (d', m) = loop_invariant set out ss same d in
      rw seen (d', λ a. ground (arith, m a, same s, mem_of_beq s a out))
  | inr new ↦
      let (d', m) =
        loop_invariant (s ∷ set) (out ++ s ∷ []) ss
          (λ a. ground (arith, same a, mem-append a out (s ∷ [])))
          (Distinct-snoc out s d (ground (arith, same s))) in
      rw new (d', λ a. ground (arith, m a, mem-append a out (s ∷ [])))
]

-- The filtered suggestions have no repetition, and have the same members as the given ones.
pub de_duplicate_suggestions_lem :
    (ss : List (Option Text))
    → Distinct (de_duplicate_suggestions ss)
      × ((a : Option Text) → mem a (de_duplicate_suggestions ss) ≡ mem a ss)
unfolding de_duplicate_suggestions
de_duplicate_suggestions_lem ss = loop_invariant [] [] ss (λ a. refl) tt
