-- ===== src/Autocomplete/Parse/Rounds.antt =====
-- autocomplete.ts: single rounds of the loop of `parse`, for each class and token.
use mallard.Common.{
  ◌≡◌, refl, ◌≢◌, Text, none, some, true, false, includes_unit, List, [], ◌∷◌, ◌++◌, arith,
  append_assoc,
}
use mallard.Autocomplete.Predicate.{DateLibrary, Token, Predicate, string, space, colon}
use mallard.Autocomplete.Parse.{ParseState, new_predicate, parse_round}
use mallard.Autocomplete.Parse.Spec.{date_predicate, platform_predicate, flush, add_word}

-- The loop between two predicates, and after it took natural-language text.
unfoldable pub idle : List Token → List Predicate → ParseState
idle ts ps = record {
  rest = ts;
  predicate_index = 0;
  current_predicate = new_predicate 0;
  predicates = ps;
}

unfoldable pub in_text : Text → List Token → List Predicate → ParseState
in_text w ts ps = record {
  rest = ts;
  predicate_index = 0;
  current_predicate = string (record { matched = false; search_string = w });
  predicates = ps;
}

-- The classes before `predicateIndex` rejected the first token.
unfoldable pub at_platform : List Token → List Predicate → ParseState
at_platform ts ps = record {
  rest = ts;
  predicate_index = 1;
  current_predicate = new_predicate 1;
  predicates = ps;
}

unfoldable pub at_string : List Token → List Predicate → ParseState
at_string ts ps = record {
  rest = ts;
  predicate_index = 2;
  current_predicate = new_predicate 2;
  predicates = ps;
}

module _ (dates : DateLibrary) (t : Token) (ts : List Token) (ps : List Predicate) where
  pub idle-end : t.is_end ≡ true → parse_round dates t ts (idle (t ∷ ts) ps) ≡ idle ts ps
  unfolding parse_round idle
  idle-end h = ground arith

  pub idle-directive :
      (p : Predicate)
      → t.is_end ≡ false
      → date_predicate dates t.value ≡ some p
      → parse_round dates t ts (idle (t ∷ ts) ps) ≡ idle ts (ps ++ p ∷ [])
  unfolding parse_round idle date_predicate
  idle-directive p h e = ground arith

  pub idle-other :
      t.is_end ≡ false
      → date_predicate dates t.value ≡ none
      → parse_round dates t ts (idle (t ∷ ts) ps) ≡ at_platform (t ∷ ts) ps
  unfolding parse_round idle at_platform date_predicate
  idle-other h e = ground arith

  pub platform-directive :
      (p : Predicate)
      → t.is_end ≡ false
      → platform_predicate t.value ≡ some p
      → parse_round dates t ts (at_platform (t ∷ ts) ps) ≡ idle ts (ps ++ p ∷ [])
  unfolding parse_round idle at_platform platform_predicate
  platform-directive p h e = ground arith

  pub platform-other :
      t.is_end ≡ false
      → platform_predicate t.value ≡ none
      → parse_round dates t ts (at_platform (t ∷ ts) ps) ≡ at_string (t ∷ ts) ps
  unfolding parse_round at_platform at_string platform_predicate
  platform-other h e = ground arith

  pub string-ignored :
      includes_unit colon t.value ≡ true
      → parse_round dates t ts (at_string (t ∷ ts) ps) ≡ idle ts ps
  unfolding parse_round at_string idle
  string-ignored h = ground arith

  pub string-word :
      t.is_end ≡ false
      → includes_unit colon t.value ≡ false
      → parse_round dates t ts (at_string (t ∷ ts) ps) ≡ in_text t.value ts ps
  unfolding parse_round at_string in_text
  string-word h k = ground arith

  pub in_text-word :
      (w : Text)
      → w ≢ []
      → t.is_end ≡ false
      → includes_unit colon t.value ≡ false
      → parse_round dates t ts (in_text w (t ∷ ts) ps) ≡ in_text (add_word w t.value) ts ps
  unfolding parse_round in_text add_word
  in_text-word [] some_text h k = absurd (some_text refl)
  in_text-word (c ∷ w) _ h k = ground (arith, append_assoc w (space ∷ []) t.value)

  module _ (w : Text) (some_text : w ≢ []) where
    pub in_text-end :
        t.is_end ≡ true
        → includes_unit colon t.value ≡ false
        → parse_round dates t ts (in_text w (t ∷ ts) ps) ≡ idle ts (ps ++ flush w)
    unfolding parse_round in_text idle flush
    in_text-end h k = ground arith

    pub in_text-special :
        includes_unit colon t.value ≡ true
        → parse_round dates t ts (in_text w (t ∷ ts) ps) ≡ idle (t ∷ ts) (ps ++ flush w)
    unfolding parse_round in_text idle flush
    in_text-special h = ground arith
