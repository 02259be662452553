-- ===== src/Autocomplete/Suggestions.antt =====
-- autocomplete.ts: `findTextInField`, `findSurroundingText` and `deDuplicateSuggestions`, and the
-- part of `requestAutocomplete` behind the two requests. `toLowerCase` is a parameter: its tables
-- are the browser's.
pub mod Excerpt
pub mod Unique
use mallard.Common.{
  ℕ, ◌+◌, ◌-◌, ◌/◌, max, min, Text, codes, index_of, length, take, drop, Option, none, some, Bool,
  true, false, ltb, if◌then◌else◌, List, [], ◌∷◌, ◌++◌, map, mem, option_text_Eq,
}
use mallard.Autocomplete.Predicate.{Predicate, capture_date, platform, string}

-- `MAX_AUTOCOMPLETE_LENGTH`
abbrev pub max_autocomplete_length : ℕ
max_autocomplete_length = 60

-- `s.substring(a, b)`, which swaps its bounds where they are out of order
unfoldable pub substring : Text → ℕ → ℕ → Text
substring s a b = take (max a b - min a b) (drop (min a b) s)

pub record Window : Type 0 where
  pub start_index : ℕ
  pub end_index : ℕ

-- The window before the length budget is spent. `-` stops at 0, as the two `Math.max(…, 0)` do.
unfoldable pub centered_window : ℕ → ℕ → ℕ → ℕ → Window
centered_window found search_length field_length desired =
    let expand_by = (desired - search_length) / 2 in
    record {
      start_index = found - expand_by;
      end_index = min (found + search_length + expand_by) field_length;
    }

-- The two last `if`s. Where the program's budget is negative this one is 0, and both fail the test;
-- the end may lie before the start, where lowering lengthens the text.
unfoldable pub spend_budget : ℕ → ℕ → Window → Window
spend_budget field_length desired w =
    let budget = desired + w.start_index - w.end_index in
    let start = if ltb 0 budget then w.start_index - budget else w.start_index in
    let budget' = if ltb 0 budget then desired - w.end_index - start else budget in
    record {
      start_index = start;
      end_index = if ltb 0 budget' then min (w.end_index + budget') field_length else w.end_index;
    }

-- The text fields of the metadata that are searched.
pub record SearchedMetadata : Type 0 where
  pub name : Option Text
  pub notes : Option Text
  pub camera : Option Text
  pub session_name : Option Text

unfoldable pub text_or_empty : Option Text → Text
text_or_empty none = []
text_or_empty (some t) = t

module _ (lower : Text → Text) where
  -- The search text is lowered before its length is taken, the field's length is the original's.
  unfoldable pub find_text_in_field : Text → Text → ℕ → Option Text
  find_text_in_field search_string field_text desired =
      let search = lower search_string in
      elim (index_of (lower field_text) search) [
        | none ↦ none
        | some found ↦
            let w =
              spend_budget (length field_text) desired
                (centered_window found (length search) (length field_text) desired) in
            let prefix = if ltb 0 w.start_index then codes "..." else [] in
            let suffix = if ltb w.end_index (length field_text) then codes "..." else [] in
            some (prefix ++ (substring field_text w.start_index w.end_index ++ suffix))
      ]

  -- `searchField`: the match, or the one found so far.
  unfoldable pub search_field : Text → ℕ → Option Text → Option Text → Option Text
  unfolding text_or_empty
  search_field search desired field_text match_text =
      elim (find_text_in_field search (text_or_empty field_text) desired) [
        | none ↦ match_text
        | some t ↦ some t
      ]

  -- `none` is the `null` that the program returns as a string where nothing matches.
  unfoldable pub find_surrounding_text : Text → SearchedMetadata → ℕ → Option Text
  unfolding search_field
  find_surrounding_text search metadata desired =
      search_field search desired metadata.session_name (
        search_field search desired metadata.camera (
          search_field search desired metadata.notes
            (search_field search desired metadata.name none)))

-- The loop of `deDuplicateSuggestions`.
unfoldable pub de_duplicate_loop :
    List (Option Text) → List (Option Text) → List (Option Text) → List (Option Text)
de_duplicate_loop suggestion_set filtered [] = filtered
de_duplicate_loop suggestion_set filtered (s ∷ ss) =
    let seen = mem s suggestion_set in
    de_duplicate_loop (if seen then suggestion_set else s ∷ suggestion_set)
      (if seen then filtered else filtered ++ s ∷ []) ss

unfoldable pub de_duplicate_suggestions : List (Option Text) → List (Option Text)
unfolding de_duplicate_loop
de_duplicate_suggestions suggestions = de_duplicate_loop [] [] suggestions

module _ (lower : Text → Text) where
  -- `predicate instanceof StringPredicate`
  unfoldable pub search_text : List Predicate → List Text
  search_text [] = []
  search_text (string p ∷ ps) = p.search_string ∷ search_text ps
  search_text (capture_date p ∷ ps) = search_text ps
  search_text (platform p ∷ ps) = search_text ps

  unfoldable pub suggestions : List Text → List SearchedMetadata → ℕ → List (Option Text)
  suggestions [] all_metadata desired = []
  suggestions (t ∷ ts) all_metadata desired =
      map (λ m. find_surrounding_text lower t m desired) all_metadata
      ++ suggestions ts all_metadata desired

  -- What `requestAutocomplete` answers for the predicates it parsed and the metadata it received.
  unfoldable pub completions : List Predicate → List SearchedMetadata → ℕ → List (Option Text)
  unfolding search_text suggestions
  completions predicates all_metadata desired =
      de_duplicate_suggestions (suggestions (search_text predicates) all_metadata desired)
