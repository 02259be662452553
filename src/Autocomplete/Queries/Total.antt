-- ===== src/Autocomplete/Queries/Total.antt =====
-- autocomplete.ts: how many queries `queriesFromSearchString` makes.
use mallard.Common.{
  ◌≡◌, refl, Text, Option, none, some, is_some, true, List, [], ◌∷◌, arith, All, All-append, ℕ, ◌*◌,
  length, map, length-map, length-append,
}
use mallard.Types.{RangeDate, ImageQuery, empty_query}
use mallard.Autocomplete.Predicate.{
  DateLibrary, Token, Predicate, capture_date, platform, string, is_matched, DateCondition, before,
  after, on, tokenize,
}
use mallard.Autocomplete.Parse.Spec.{
  flush, add_word, read_token, directive_or, date_predicate, platform_predicate, classify, meaning,
  Reading, ending, word, directive, ignored,
}
use mallard.Autocomplete.Parse.Correct.{parse-tokenize}
use mallard.Autocomplete.Queries.{
  Lodash, iso_date, date_range, make_queries, map_product, disjunctions, merge_all,
  queries_from_search_string,
}

-- The number of queries that a predicate stands for.
unfoldable pub width : Predicate → ℕ
width (capture_date p) = 1
width (platform p) = 1
width (string p) = 4

unfoldable pub total_width : List Predicate → ℕ
unfolding width
total_width [] = 1
total_width (p ∷ ps) = width p * total_width ps

abbrev pub IsMatched : Predicate → Type 0
IsMatched p = is_matched p ≡ true

flush-IsMatched : (w : Text) → All IsMatched (flush w)
unfolding flush is_matched
flush-IsMatched [] = tt
flush-IsMatched (c ∷ w) = (refl, tt)

date_predicate-IsMatched :
    (dates : DateLibrary) (v : Text) (p : Predicate) → date_predicate dates v ≡ some p → IsMatched p
unfolding date_predicate is_matched
date_predicate-IsMatched dates v p h = ground arith

platform_predicate-IsMatched :
    (v : Text) (p : Predicate) → platform_predicate v ≡ some p → IsMatched p
unfolding platform_predicate is_matched
platform_predicate-IsMatched v p h = ground arith

module _ (dates : DateLibrary) where
  classify-IsMatched : (t : Token) (p : Predicate) → classify dates t ≡ directive p → IsMatched p
  unfolding classify directive_or
  classify-IsMatched t p h =
      ground
        (arith, date_predicate-IsMatched dates t.value p, platform_predicate-IsMatched t.value p)

  read_token-IsMatched :
      (m : Text → List Predicate)
      → ((w : Text) → All IsMatched (m w))
      → (r : Reading) → ((p : Predicate) → r ≡ directive p → IsMatched p)
      → (w v : Text) → All IsMatched (read_token dates m r w v)
  unfolding read_token
  read_token-IsMatched m k ending d w v = All-append IsMatched _ _ (flush-IsMatched w) (k [])
  read_token-IsMatched m k word d w v = k (add_word w v)
  read_token-IsMatched m k (directive p) d w v =
      All-append IsMatched _ _ (flush-IsMatched w) (d p refl, k [])
  read_token-IsMatched m k ignored d w v = All-append IsMatched _ _ (flush-IsMatched w) (k [])

  pub meaning-IsMatched : (ts : List Token) (w : Text) → All IsMatched (meaning dates w ts)
  unfolding meaning
  meaning-IsMatched [] w = tt
  meaning-IsMatched (t ∷ ts) w =
      read_token-IsMatched _ (meaning-IsMatched ts) (classify dates t) (classify-IsMatched t) w
        t.value

  date_range_of_condition :
      (c : Option DateCondition) (iso : Option Text)
      → is_some c ≡ true
      → (r : RangeDate) × (date_range c iso ≡ some r)
  unfolding date_range
  date_range_of_condition none iso h = cc
  date_range_of_condition (some before) iso h = (_, refl)
  date_range_of_condition (some after) iso h = (_, refl)
  date_range_of_condition (some on) iso h = (_, refl)

  make_queries-width :
      (p : Predicate)
      → IsMatched p
      → (qs : List ImageQuery) × (make_queries dates p ≡ some qs) × (length qs ≡ width p)
  unfolding make_queries is_matched width
  make_queries-width (string p) h = (_, refl, refl)
  make_queries-width (platform p) h = (_, refl, refl)
  make_queries-width (capture_date p) h =
      let (r, e) = date_range_of_condition p.condition (iso_date dates p.date) (ground arith) in
      (record empty_query { capture_dates = some r } ∷ [], rw e, refl)

  length-map_product :
      (left right : List ImageQuery) (f : ImageQuery → ImageQuery → ImageQuery)
      → length (map_product left right f) ≡ length left * length right
  unfolding map_product
  length-map_product [] right f = omega arith
  length-map_product (l ∷ left) right f = omega (
    arith,
    length-append (map (f l) right) (map_product left right f),
    length-map (f l) right,
    length-map_product left right f,
  )

  module _ (lodash : Lodash) where
    disjunctions-width :
        (ps : List Predicate)
        → All IsMatched ps
        → (ds : List (List ImageQuery)) × (disjunctions dates lodash ps ≡ some ds)
          × ((merged : List ImageQuery)
              → length (merge_all dates lodash merged ds) ≡ length merged * total_width ps)
    unfolding disjunctions merge_all total_width
    disjunctions-width [] h = ([], refl, λ merged. omega arith)
    disjunctions-width (p ∷ ps) (h, hs) =
        let (qs, made, n) = make_queries-width p h in
        let (ds, rest, count) = disjunctions-width ps hs in
        (
          qs ∷ ds,
          rw (made, rest),
          λ merged.
              rw (count (map_product merged qs (λ l r. lodash.merge l r)), length-map_product, n)
                (omega arith),
        )

    -- Every search string has its queries: the parser ends, no date predicate throws, and the number
    -- of queries is the product over the predicates, four for each text and one for each directive.
    pub length-queries_from_search_string :
        (search : Text)
        → (qs : List ImageQuery) × (queries_from_search_string dates lodash search ≡ some qs)
          × (length qs ≡ total_width (meaning dates [] (tokenize search)))
    unfolding queries_from_search_string
    length-queries_from_search_string search =
        let ps = meaning dates [] (tokenize search) in
        let (ds, e, n) = disjunctions-width ps (meaning-IsMatched (tokenize search) []) in
        (
          merge_all dates lodash (empty_query ∷ []) ds,
          rw (parse-tokenize dates search, e),
          omega (arith, n (empty_query ∷ [])),
        )
