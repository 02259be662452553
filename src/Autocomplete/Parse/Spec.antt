-- ===== src/Autocomplete/Parse/Spec.antt =====
-- What a search string means, independently of the parser's loop: a reading of the tokens from left
-- to right that keeps the text collected so far.
use mallard.Common.{
  Text, Option, none, some, true, not, starts_with, codes, includes_unit, if◌then◌else◌, List, [],
  ◌∷◌, ◌++◌,
}
use mallard.Autocomplete.Predicate.{
  DateLibrary, Token, Predicate, capture_date, platform, string, space, colon, condition_of,
  directive_argument, platform_type_values,
}

-- The date predicate that a token's value denotes on its own, if any.
unfoldable pub date_predicate : DateLibrary → Text → Option Predicate
date_predicate dates value = elim (condition_of value) [
  | none ↦ none
  | some c ↦ elim (dates.parse (directive_argument value)) [
    | none ↦ none
    | some u ↦
        some (capture_date (record { condition = some c; date = some u; search_string = value }))
  ]
]

unfoldable pub platform_predicate : Text → Option Predicate
platform_predicate value =
    if starts_with value (codes "platform:")
    then elim (platform_type_values (directive_argument value)) [
      | none ↦ none
      | some t ↦ some (platform (record { platform = some t; search_string = value }))
    ]
    else none

pub data Reading : Type 0 where
  ending : Reading
  word : Reading
  directive : Predicate → Reading
  ignored : Reading

unfoldable pub directive_or : Option Predicate → Reading → Reading
directive_or none r = r
directive_or (some p) r = directive p

unfoldable pub classify : DateLibrary → Token → Reading
unfolding directive_or
classify dates t =
    if t.is_end
    then ending
    else if not (includes_unit colon t.value)
    then word
    else directive_or (date_predicate dates t.value)
        (directive_or (platform_predicate t.value) ignored)

-- The natural-language text is one predicate, if there is any.
unfoldable pub flush : Text → List Predicate
flush [] = []
flush (c ∷ w) = string (record { matched = true; search_string = c ∷ w }) ∷ []

-- A word joins the text behind a space.
unfoldable pub add_word : Text → Text → Text
add_word [] v = v
add_word (c ∷ w) v = (c ∷ w) ++ (space ∷ v)

module _ (dates : DateLibrary) where
  unfoldable pub read_token : (Text → List Predicate) → Reading → Text → Text → List Predicate
  read_token meaning ending w v = flush w ++ meaning []
  read_token meaning word w v = meaning (add_word w v)
  read_token meaning (directive p) w v = flush w ++ (p ∷ meaning [])
  read_token meaning ignored w v = flush w ++ meaning []

  -- The predicates that the tokens denote, behind the text `w`. Text that no end token follows is
  -- dropped, as the program does; `tokenize` puts one behind every search.
  unfoldable pub meaning : Text → List Token → List Predicate
  unfolding read_token
  meaning w [] = []
  meaning w (t ∷ ts) = read_token (λ w'. meaning w' ts) (classify dates t) w t.value
