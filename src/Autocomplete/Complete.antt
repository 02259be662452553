-- ===== src/Autocomplete/Complete.antt =====
-- autocomplete.ts: `couldMatchDirectives`, `updateMenu`, `completeToken` and `completeSearch`.
pub mod Words
pub mod Tokens
use mallard.Common.{
  ℕ, ◌-◌, Text, codes, split, starts_with, index_of, is_some, length, get_elem?, last?, pop, map,
  join, Option, none, some, Bool, true, false, ◌&&◌, ◌||◌, ltb, not, if◌then◌else◌, List, [], ◌∷◌,
  ◌++◌,
}
use mallard.Autocomplete.Predicate.{
  DateLibrary, Token, tokenize, space, colon, Predicate, search_string,
}
use mallard.Autocomplete.Parse.{parse}

pub data AutocompleteMenu : Type 0 where
  no_menu date_menu platform_menu : AutocompleteMenu

-- The static members of a class in `PREDICATE_ORDER`.
pub record PredicateClass : Type 0 where
  pub directives : List Text
  pub menu : AutocompleteMenu

abbrev pub predicate_order : List PredicateClass
predicate_order =
    record {
      directives = codes "before" ∷ codes "after" ∷ codes "on" ∷ codes "date" ∷ [];
      menu = date_menu;
    }
    ∷ record { directives = codes "platform" ∷ []; menu = platform_menu }
    ∷ record { directives = []; menu = no_menu }
    ∷ []

-- `value.split(":")[0]`
unfoldable pub user_input : Text → Text
user_input value = elim (split colon value) [ [] ↦ [] | s ∷ _ ↦ s ]

unfoldable pub some_directive : Text → List Text → Bool
some_directive input [] = false
some_directive input (d ∷ ds) = starts_with d input || some_directive input ds

unfoldable pub could_match_directives : PredicateClass → Token → Bool
unfolding user_input some_directive
could_match_directives c last_token =
    let input = user_input last_token.value in
    if ltb (length input) 3 then false else some_directive input c.directives

unfoldable pub first_menu : List PredicateClass → Token → AutocompleteMenu
unfolding could_match_directives
first_menu [] last_token = no_menu
first_menu (c ∷ cs) last_token =
    let rest = first_menu cs last_token in
    if could_match_directives c last_token then c.menu else rest

-- `tokens.at(-2)`, which is there once there are two tokens.
unfoldable pub token_before_end : List Token → Token
token_before_end tokens = elim (get_elem? tokens (length tokens - 2)) [
  | none ↦ record { value = []; is_end = true }
  | some t ↦ t
]

unfoldable pub update_menu : Text → AutocompleteMenu
unfolding first_menu token_before_end
update_menu search_string =
    let tokens = tokenize search_string in
    if ltb (length tokens) 2 then no_menu else first_menu predicate_order (token_before_end tokens)

unfoldable pub complete_token : Text → Text → Text
unfolding token_before_end
complete_token search_string next_token =
    let tokens = tokenize search_string in
    if ltb (length tokens) 2
    then next_token
    else let partial = (token_before_end tokens).value in
      let kept = if starts_with next_token partial then pop (pop tokens) else pop tokens in
      join (space ∷ []) (map (λ t. t.value) kept ++ next_token ∷ [])

module _ (dates : DateLibrary) (lower : Text → Text) where
  -- `none` where the parser's fuel ran out.
  unfoldable pub complete_search : Text → Text → Option Text
  unfolding search_string
  complete_search text completion = elim (parse dates (tokenize text)) [
    | none ↦ none
    | some predicates ↦ elim (last? (map search_string predicates)) [
      | none ↦ some completion
      | some partial ↦
          let strings = map search_string predicates in
          let kept =
            if is_some (index_of (lower completion) (lower partial))
            then pop strings
            else strings in
          some (join (space ∷ []) (kept ++ completion ∷ []))
    ]
  ]
