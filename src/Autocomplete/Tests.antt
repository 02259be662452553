-- ===== src/Autocomplete/Tests.antt =====
-- The search box's language on concrete searches, and its theorems at them.
use mallard.Autocomplete.Complete.{
  user_input, some_directive, could_match_directives, first_menu, token_before_end, update_menu,
  complete_token, complete_search,
}
use mallard.Common.{
  ℕ, ◌+◌, ◌≤◌, ◌≡◌, refl, ◌↔◌, ◌⊎◌, inl, inr, Text, codes, text_eq, length, index_of, max, Option,
  none, some, ltb, ◌&&◌, true, if◌then◌else◌, List, [], ◌∷◌, ◌++◌, All, Any, option_text_Eq, arith,
}
use mallard.Common.Int.{pos}
use mallard.Types.{PlatformType, ImageQuery, empty_query}
use mallard.Autocomplete.Predicate.{
  DateLibrary, Predicate, capture_date, platform, string, before, tokenize, new_token, parse_string,
  condition_of, directive_argument, parse_date, platform_type_values, parse_platform, parse_token,
  is_matched, search_string,
}
use mallard.Autocomplete.Parse.{
  parse, new_predicate, push_matched, next_predicate, parse_round, parse_loop,
}
use mallard.Autocomplete.Parse.Spec.{
  meaning, date_predicate, platform_predicate, directive_or, classify, flush, add_word, read_token,
}
use mallard.Autocomplete.Parse.Correct.{parse-tokenize}
use mallard.Autocomplete.Queries.{
  Lodash, or_else, merge_range, queries_from_search_string, iso_date, date_range, make_queries,
  map_product, disjunctions, merge_all, queries_from_parsed_search_string,
}
use mallard.Autocomplete.Queries.Total.{total_width, length-queries_from_search_string, width}
use mallard.Autocomplete.Queries.Conditions.{Conditions, Satisfies}
use mallard.Autocomplete.Queries.Exact.{Asks, PairwiseSeparate}
use mallard.Autocomplete.Queries.Found.{
  queries-find_complete, queries-find_iff, queries-find_second_text,
}
use mallard.Autocomplete.Suggestions.{
  Window, find_text_in_field, de_duplicate_suggestions, substring, centered_window, spend_budget,
  text_or_empty, search_field, find_surrounding_text, de_duplicate_loop, search_text, suggestions,
  completions,
}
use mallard.Autocomplete.Suggestions.Excerpt.{IsExcerpt, excerpt, find_text_in_field_lem}
use mallard.Autocomplete.Complete.Words.{words, IsWord}
use mallard.Autocomplete.Complete.Tokens.{kept_words, words-complete_token}
use mallard.Autocomplete.Complete.{no_menu, platform_menu}

-- The last day of 2020, and no other date.
abbrev dates : DateLibrary
dates = record {
  parse = λ t. if text_eq t (codes "2020-12-31") then some (pos 18627) else none;
  to_iso_string = λ u. codes "2020-12-31T00:00:00.000Z";
}

abbrev lodash : Lodash
lodash = record {
  merge = λ l r. record {
    name = or_else r.name l.name;
    notes = or_else r.notes l.notes;
    camera = or_else r.camera l.camera;
    session = or_else r.session l.session;
    capture_dates = merge_range l.capture_dates r.capture_dates;
    platform_type = or_else r.platform_type l.platform_type;
  };
  merge_name = λ l r. refl;
  merge_notes = λ l r. refl;
  merge_camera = λ l r. refl;
  merge_session = λ l r. refl;
  merge_capture_dates = λ l r. refl;
  merge_platform_type = λ l r. refl;
}

-- The definitions that the tests evaluate.
autocomplete : Unit {0}
unfolding new_token tokenize parse_string condition_of directive_argument parse_date
    platform_type_values parse_platform parse_token is_matched search_string new_predicate
    push_matched next_predicate parse_round parse_loop parse date_predicate platform_predicate
    directive_or classify flush add_word read_token meaning iso_date date_range make_queries
    map_product disjunctions merge_all queries_from_parsed_search_string queries_from_search_string
    width total_width substring centered_window spend_budget text_or_empty find_text_in_field
    search_field find_surrounding_text de_duplicate_loop de_duplicate_suggestions search_text
    suggestions completions user_input some_directive could_match_directives first_menu
    token_before_end update_menu complete_token complete_search
autocomplete = tt

abbrev text : Text → Predicate
text s = string (record { matched = true; search_string = s })

abbrev before_2021 : Predicate
before_2021 = capture_date (record {
  condition = some before;
  date = some (pos 18627);
  search_string = codes "before:2020-12-31";
})

abbrev aerial : Predicate
aerial =
    platform
      (record { platform = some PlatformType.aerial; search_string = codes "platform:aerial" })

parse_tests :
    (parse dates (tokenize (codes "red  barn before:2020-12-31 platform:aerial"))
      ≡ some (text (codes "red barn") ∷ before_2021 ∷ aerial ∷ []))
    × (parse dates (tokenize (codes "red before:never barn"))
        ≡ some (text (codes "red") ∷ text (codes "barn") ∷ []))
    × (parse dates (tokenize []) ≡ some [])
unfolding autocomplete
parse_tests = (refl, refl, refl)

abbrev search : Text
search = codes "barn platform:aerial"

abbrev two_texts : Text
two_texts = codes "a x:y b"

-- An artifact named by every text, of no other text, from the air.
abbrev conditions : Conditions
conditions = record {
  named = λ s. s ≡ codes "b";
  noted = λ s. s ≡ codes "barn";
  shot_with = λ s. ⊥;
  in_session = λ s. ⊥;
  from = λ d. ⊥;
  until = λ d. ⊥;
  on_platform = λ p. p ≡ PlatformType.aerial;
}

abbrev found : List ImageQuery
found =
    record empty_query { name = some (codes "barn"); platform_type = some PlatformType.aerial }
    ∷ record empty_query { notes = some (codes "barn"); platform_type = some PlatformType.aerial }
    ∷ record empty_query { camera = some (codes "barn"); platform_type = some PlatformType.aerial }
    ∷ record empty_query { session = some (codes "barn"); platform_type = some PlatformType.aerial }
    ∷ []

search_found : queries_from_search_string dates lodash search ≡ some found
unfolding autocomplete
search_found = refl

search-meaning : meaning dates [] (tokenize search) ≡ text (codes "barn") ∷ aerial ∷ []
unfolding autocomplete
search-meaning = refl

parse-tokenize_example : parse dates (tokenize search) ≡ some (meaning dates [] (tokenize search))
parse-tokenize_example = parse-tokenize dates search

length-queries_from_search_string_example :
    (qs : List ImageQuery) × (queries_from_search_string dates lodash search ≡ some qs)
    × (length qs ≡ total_width (meaning dates [] (tokenize search)))
length-queries_from_search_string_example = length-queries_from_search_string dates lodash search

search-Asks : All (Asks dates conditions) (meaning dates [] (tokenize search))
search-Asks = rw search-meaning (inr (inl refl), (refl, tt))

search_separate : PairwiseSeparate (meaning dates [] (tokenize search))
search_separate = rw search-meaning ((tt, tt), (tt, tt))

queries-find_complete_example : Any (Satisfies conditions) found
queries-find_complete_example =
    queries-find_complete dates lodash conditions search found search_found search-Asks

queries-find_iff_example :
    Any (Satisfies conditions) found
    ↔ All (Asks dates conditions) (meaning dates [] (tokenize search))
queries-find_iff_example =
    queries-find_iff dates lodash conditions search found search_found search_separate

two_texts-meaning :
    meaning dates [] (tokenize two_texts)
    ≡ string (record { matched = true; search_string = codes "a" })
      ∷ string (record { matched = true; search_string = codes "b" })
      ∷ []
unfolding autocomplete
two_texts-meaning = refl

two_texts_found :
    (qs : List ImageQuery) × (queries_from_search_string dates lodash two_texts ≡ some qs)
unfolding autocomplete
two_texts_found = (_, refl)

queries-find_second_text_example : Any (Satisfies conditions) (two_texts_found.0)
queries-find_second_text_example =
    queries-find_second_text dates lodash conditions two_texts (two_texts_found.0)
      (two_texts_found.1) (record { matched = true; search_string = codes "a" })
      (record { matched = true; search_string = codes "b" }) two_texts-meaning refl

-- The lowering of ASCII letters.
abbrev lower : Text → Text
lower [] = []
lower (c ∷ s) = (if ltb 64 c && ltb c 91 then c + 32 else c) ∷ lower s

abbrev notes : Text
notes = codes "A red Barn behind the old mill"

excerpt_tests :
    (find_text_in_field lower (codes "BARN") notes 10 ≡ some (codes "...ed Barn be..."))
    × (find_text_in_field lower (codes "mill") notes 10 ≡ some (codes "...e old mill"))
    × (find_text_in_field lower (codes "tree") notes 10 ≡ none)
unfolding autocomplete
excerpt_tests = (refl, refl, refl)

notes_length : length (lower notes) ≤ length notes
notes_length = omega arith

find_text_in_field_lem_example :
    ((index_of (lower notes) (lower (codes "BARN")) ≡ none)
      × (find_text_in_field lower (codes "BARN") notes 10 ≡ none))
    ⊎ ((at : ℕ) × (w : Window) × (index_of (lower notes) (lower (codes "BARN")) ≡ some at)
        × IsExcerpt at (length (lower (codes "BARN"))) (length notes) 10 w
        × (find_text_in_field lower (codes "BARN") notes 10 ≡ some (excerpt notes w))
        × (length (excerpt notes w) ≤ max (length (lower (codes "BARN"))) 10 + 6))
find_text_in_field_lem_example = find_text_in_field_lem lower (codes "BARN") notes 10 notes_length

abbrev repeated : List (Option Text)
repeated = some (codes "a") ∷ none ∷ some (codes "a") ∷ []

completion_tests :
    (complete_token (codes "red bar") (codes "barn") ≡ codes "red barn")
    × (complete_token (codes " red  ") (codes "barn") ≡ codes "red barn")
    × (update_menu (codes "red plat") ≡ platform_menu)
    × (update_menu (codes "on") ≡ no_menu)
unfolding autocomplete
completion_tests = (refl, refl, refl, refl)

barn-IsWord : IsWord (codes "barn")
barn-IsWord = record { one_word = refl; not_empty = refl }

words-complete_token_example :
    words (complete_token (codes "red bar") (codes "barn"))
    ≡ kept_words (words (codes "red bar")) (codes "barn") ++ codes "barn" ∷ []
words-complete_token_example = words-complete_token (codes "red bar") (codes "barn") barn-IsWord
