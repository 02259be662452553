-- ===== src/Elements/SearchBox/Choices.antt =====
-- search-box.ts and autocomplete.ts: what a choice in a menu of the search box asks for.
use mallard.Common.{
  ◌≡◌, refl, ap, sym, ◌∙◌, Text, codes, includes_unit, some, true, false, List, [], ◌∷◌, ◌++◌,
  append_assoc, map-append, arith,
}
use mallard.Common.{append-nil}
use mallard.Common.Int.{ℤ}
use mallard.Types.{PlatformType}
use mallard.Autocomplete.Predicate.{
  DateLibrary, DateCondition, before, after, on, Token, Predicate, capture_date, platform,
  new_token, tokenize, space, colon, directive_argument, condition_of, platform_type_values,
}
use mallard.Autocomplete.Parse.{parse}
use mallard.Autocomplete.Parse.Spec.{
  Reading, ending, word, directive, ignored, directive_or, classify, date_predicate,
  platform_predicate, flush, add_word, read_token, meaning,
}
use mallard.Autocomplete.Parse.Correct.{parse-tokenize}
use mallard.Autocomplete.Complete.{complete_token}
use mallard.Autocomplete.Complete.Words.{words, IsWord, split-word, split-separator}
use mallard.Autocomplete.Complete.Tokens.{
  kept_words, word_tokens, tokenize-words, words-complete_token,
}
use mallard.Elements.SearchBox.{
  SearchBox, platform_token, date_token, add_token_to_search_string, on_platform_condition_click,
  on_date_selected,
}

module _ (dates : DateLibrary) where
  abbrev end : Token
  end = record { value = []; is_end = true }

  read_token-append :
      (first second : Text → List Predicate) (ps : List Predicate) (r : Reading) (w v : Text)
      → ((u : Text) → first u ≡ second u ++ ps)
      → read_token dates first r w v ≡ read_token dates second r w v ++ ps
  unfolding read_token
  read_token-append first second ps ending w v h =
      ap (flush w ++◌) (h []) ∙ sym (append_assoc (flush w) (second []) ps)
  read_token-append first second ps word w v h = h (add_word w v)
  read_token-append first second ps (directive p) w v h =
      ap (λ l. flush w ++ p ∷ l) (h []) ∙ sym (append_assoc (flush w) (p ∷ second []) ps)
  read_token-append first second ps ignored w v h =
      ap (flush w ++◌) (h []) ∙ sym (append_assoc (flush w) (second []) ps)

  classify-end : classify dates end ≡ ending
  unfolding classify
  classify-end = refl

  -- A directive at the end adds its predicate.
  meaning-directive :
      (w : Text) (ts : List Token) (t : Token) (p : Predicate)
      → classify dates t ≡ directive p
      → meaning dates w (ts ++ t ∷ end ∷ []) ≡ meaning dates w (ts ++ end ∷ []) ++ p ∷ []
  unfolding meaning read_token flush
  meaning-directive w [] t p h = rw (h, classify-end) (ap (◌++ p ∷ []) (sym (append-nil (flush w))))
  meaning-directive w (u ∷ ts) t p h =
      read_token-append _ _ (p ∷ []) (classify dates u) w u.value
        (λ w'. meaning-directive w' ts t p h)

  -- The predicates of a search that was completed by a directive.
  parse-complete_token :
      (s next : Text) (p : Predicate)
      → IsWord next
      → classify dates (new_token (some next)) ≡ directive p
      → parse dates (tokenize (complete_token s next))
        ≡ some (meaning dates [] (word_tokens (kept_words (words s) next) ++ end ∷ []) ++ p ∷ [])
  unfolding new_token
  parse-complete_token s next p h c =
      let kept = word_tokens (kept_words (words s) next) in
      let t = new_token (some next) in
      let tokens : tokenize (complete_token s next) ≡ kept ++ t ∷ end ∷ [] =
        tokenize-words (complete_token s next)
        ∙ ap (λ ws. word_tokens ws ++ end ∷ []) (words-complete_token s next h)
        ∙ ap (◌++ end ∷ [])
            (map-append (λ w. new_token (some w)) (kept_words (words s) next) (next ∷ []))
        ∙ append_assoc kept (t ∷ []) (end ∷ []) in
      parse-tokenize dates (complete_token s next)
      ∙ ap some (ap (meaning dates []) tokens ∙ meaning-directive [] kept t p c)

  abbrev pub platform_choice : PlatformType → Predicate
  platform_choice type =
      platform (record { platform = some type; search_string = platform_token type })

  abbrev pub date_choice : DateCondition → Text → ℤ → Predicate
  date_choice condition date time = capture_date (record {
    condition = some condition;
    date = some time;
    search_string = date_token condition date;
  })

  classify-platform_token :
      (type : PlatformType)
      → classify dates (new_token (some (platform_token type))) ≡ directive (platform_choice type)
  unfolding classify new_token date_predicate platform_predicate directive_or condition_of
      directive_argument platform_type_values
  classify-platform_token PlatformType.ground = refl
  classify-platform_token PlatformType.aerial = refl

  platform_token-IsWord : (type : PlatformType) → IsWord (platform_token type)
  platform_token-IsWord PlatformType.ground = record { one_word = refl; not_empty = refl }
  platform_token-IsWord PlatformType.aerial = record { one_word = refl; not_empty = refl }

  argument-date_token :
      (name date : Text)
      → includes_unit colon name ≡ false
      → includes_unit colon date ≡ false
      → directive_argument (name ++ colon ∷ date) ≡ date
  unfolding directive_argument
  argument-date_token name date h k =
      rw (directive_argument, split-separator colon name date h, split-word colon date k)

  classify-date_token :
      (condition : DateCondition) (date : Text) (time : ℤ)
      → includes_unit colon date ≡ false
      → dates.parse date ≡ some time
      → classify dates (new_token (some (date_token condition date)))
        ≡ directive (date_choice condition date time)
  unfolding classify new_token date_predicate directive_or condition_of
  classify-date_token before date time k h =
      rw (argument-date_token (codes "before") date refl k, h) refl
  classify-date_token on date time k h = rw (argument-date_token (codes "date") date refl k, h) refl
  classify-date_token after date time k h =
      rw (argument-date_token (codes "after") date refl k, h) refl

  date_token-IsWord :
      (condition : DateCondition) (date : Text)
      → includes_unit space date ≡ false
      → IsWord (date_token condition date)
  date_token-IsWord before date h = record { one_word = h; not_empty = ground arith }
  date_token-IsWord on date h = record { one_word = h; not_empty = ground arith }
  date_token-IsWord after date h = record { one_word = h; not_empty = ground arith }

  -- What a search asks that consists of the words which a completion keeps.
  abbrev pub kept_meaning : SearchBox → Text → List Predicate
  kept_meaning element next =
      meaning dates [] (word_tokens (kept_words (words element.value) next) ++ end ∷ [])

  -- After a platform was chosen in the menu, the search asks what its words ask without the last one,
  -- if the choice continues it, and for the platform; after a date that the browser can read was
  -- chosen, with no colon or space in it, also for that date under the chosen condition.
  pub add_token_to_search_string_lem :
      (element : SearchBox) (type : PlatformType) (date : Text) (time : ℤ)
      → includes_unit colon date ≡ false
      → includes_unit space date ≡ false
      → dates.parse date ≡ some time
      → (parse dates (tokenize (on_platform_condition_click type element).0.value)
          ≡ some (kept_meaning element (platform_token type) ++ platform_choice type ∷ []))
        × (parse dates (tokenize (on_date_selected date element).0.value)
            ≡ some (
                kept_meaning element (date_token element.selected_date_condition date)
                ++ date_choice element.selected_date_condition date time ∷ []))
  unfolding on_platform_condition_click on_date_selected add_token_to_search_string
  add_token_to_search_string_lem element type date time k h parsed =
      let condition = element.selected_date_condition in
      (
        parse-complete_token element.value (platform_token type) (platform_choice type)
            (platform_token-IsWord type) (classify-platform_token type),
        parse-complete_token element.value (date_token condition date)
            (date_choice condition date time) (date_token-IsWord condition date h)
            (classify-date_token condition date time k parsed),
      )
