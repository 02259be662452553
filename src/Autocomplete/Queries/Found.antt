-- ===== src/Autocomplete/Queries/Found.antt =====
-- autocomplete.ts: what the queries of `queriesFromSearchString` find.
use mathlib.Core.Path.{subst}
use mallard.Common.{
  ◌≡◌, ap, sym, ◌∙◌, Text, some, Option-cases, eq_of_some, List, [], ◌∷◌, All, Any, inl, inr, arith,
  ◌↔◌,
}
use mallard.Types.{ImageQuery, empty_query}
use mallard.Autocomplete.Queries.{
  Lodash, merge_all, make_queries, disjunctions, queries_from_parsed_search_string,
  queries_from_search_string,
}
use mallard.Autocomplete.Predicate.{DateLibrary, Predicate, string, tokenize, StringPredicate}
use mallard.Autocomplete.Parse.Spec.{meaning}
use mallard.Autocomplete.Parse.Correct.{parse-tokenize}
use mallard.Autocomplete.Queries.Conditions.{Conditions, Satisfies, ApartQueries}
use mallard.Autocomplete.Queries.Meaning.{
  ApartAll, PairwiseApart, Meets-merge_all, Meets-of_merge_all,
}
use mallard.Autocomplete.Queries.Exact.{
  Asks, Separate, PairwiseSeparate, make_queries-Asks, make_queries-Apart,
}

module _ (dates : DateLibrary) (lodash : Lodash) where
  -- The two parts of a list of disjunctions.
  disjunctions-cons :
      (p : Predicate) (ps : List Predicate) (ds : List (List ImageQuery))
      → disjunctions dates lodash (p ∷ ps) ≡ some ds
      → (qs : List ImageQuery) × (rest : List (List ImageQuery)) × (make_queries dates p ≡ some qs)
        × (disjunctions dates lodash ps ≡ some rest)
        × (qs ∷ rest ≡ ds)
  unfolding disjunctions
  disjunctions-cons p ps ds e = elim (Option-cases (make_queries dates p)) [
    | inl missing ↦ absurd (ground arith)
    | inr (qs, made) ↦ elim (Option-cases (disjunctions dates lodash ps)) [
      | inl missing ↦ absurd (ground arith)
      | inr (rest, others) ↦ (qs, rest, made, others, ground arith)
    ]
  ]

  module _ (c : Conditions) where
    disjunctions-Asks :
        (ps : List Predicate) (ds : List (List ImageQuery))
        → disjunctions dates lodash ps ≡ some ds
        → All (Any (Satisfies c)) ds ↔ All (Asks dates c) ps
    unfolding disjunctions
    disjunctions-Asks [] ds e =
        subst (λ (x : List (List ImageQuery)). All (Any (Satisfies c)) x ↔ Unit {0}) (eq_of_some e)
          (λ _. tt, λ _. tt)
    disjunctions-Asks (p ∷ ps) ds e =
        let (qs, rest, made, others, same) = disjunctions-cons p ps ds e in
        let (to, from) = make_queries-Asks dates c p qs made in
        let (to', from') = disjunctions-Asks ps rest others in
        subst
          (λ (x : List (List ImageQuery)). All (Any (Satisfies c)) x ↔ All (Asks dates c) (p ∷ ps))
          same (λ h. (to h.0, to' h.1), λ h. (from h.0, from' h.1))

  disjunctions-Apart :
      (p : Predicate) (qs : List ImageQuery)
      → make_queries dates p ≡ some qs
      → (ps : List Predicate) (ds : List (List ImageQuery)) → disjunctions dates lodash ps ≡ some ds
      → All (Separate p) ps
      → All (ApartAll qs) ds
  unfolding disjunctions
  disjunctions-Apart p qs made [] ds e _ = subst (All (ApartAll qs)) (eq_of_some e) tt
  disjunctions-Apart p qs made (q ∷ ps) ds e (s, ss) =
      let (rs, rest, made', others, same) = disjunctions-cons q ps ds e in
      subst (All (ApartAll qs)) same (
        make_queries-Apart dates p q qs rs made made' s,
        disjunctions-Apart p qs made ps rest others ss,
      )

  disjunctions-PairwiseApart :
      (ps : List Predicate) (ds : List (List ImageQuery))
      → disjunctions dates lodash ps ≡ some ds
      → PairwiseSeparate ps
      → PairwiseApart ds
  unfolding disjunctions
  disjunctions-PairwiseApart [] ds e _ = subst PairwiseApart (eq_of_some e) tt
  disjunctions-PairwiseApart (p ∷ ps) ds e (s, ss) =
      let (qs, rest, made, others, same) = disjunctions-cons p ps ds e in
      subst PairwiseApart same (
        disjunctions-Apart p qs made ps rest others s,
        disjunctions-PairwiseApart ps rest others ss,
      )

  -- The queries of a search are the merged disjunctions of its predicates.
  queries-split :
      (search : Text) (qs : List ImageQuery)
      → queries_from_search_string dates lodash search ≡ some qs
      → (ds : List (List ImageQuery)) × (disjunctions dates lodash
            (meaning dates [] (tokenize search))
          ≡ some ds)
        × (merge_all dates lodash (empty_query ∷ []) ds ≡ qs)
  unfolding queries_from_search_string
  queries-split search qs e =
      let e' : queries_from_parsed_search_string dates lodash (meaning dates [] (tokenize search))
          ≡ some qs =
        rw (parse-tokenize dates search) at e in
      elim (Option-cases (disjunctions dates lodash (meaning dates [] (tokenize search)))) [
        | inl missing ↦ absurd (ground arith)
        | inr (ds, found) ↦ (ds, found, ground arith)
      ]

  empty_apart : (q : ImageQuery) → ApartQueries empty_query q
  empty_apart q = assumption tt

  empty_ApartAll : (ds : List (List ImageQuery)) → All (ApartAll (empty_query ∷ [])) ds
  empty_ApartAll [] = tt
  empty_ApartAll (d ∷ ds) = ((each d, tt), empty_ApartAll ds)
    where
      each : (qs : List ImageQuery) → All (λ r. ApartQueries empty_query r) qs
      each [] = tt
      each (q ∷ qs) = (empty_apart q, each qs)

  -- A query by a second name, merged into one by a first, is the query by the second.
  second_name :
      (c : Conditions) (s t : Text)
      → c.named t
      → Satisfies c (
          lodash.merge
            (lodash.merge empty_query (record empty_query { name = some s }))
            (record empty_query { name = some t }))
  second_name c s t h = record {
    name = rw lodash.merge_name h;
    notes = rw (lodash.merge_notes, lodash.merge_notes) tt;
    camera = rw (lodash.merge_camera, lodash.merge_camera) tt;
    session = rw (lodash.merge_session, lodash.merge_session) tt;
    min_date = rw (lodash.merge_capture_dates, lodash.merge_capture_dates) tt;
    max_date = rw (lodash.merge_capture_dates, lodash.merge_capture_dates) tt;
    platform_type = rw (lodash.merge_platform_type, lodash.merge_platform_type) tt;
  }

  module _ (c : Conditions) (search : Text) (qs : List ImageQuery)
      (made : queries_from_search_string dates lodash search ≡ some qs) where
    -- No artifact is missed: one that meets every predicate of the search meets some query.
    pub queries-find_complete :
        All (Asks dates c) (meaning dates [] (tokenize search)) → Any (Satisfies c) qs
    queries-find_complete h =
        let (ds, found, same) = queries-split search qs made in
        subst (Any (Satisfies c)) same (
          Meets-merge_all lodash c dates (empty_query ∷ []) ds (inl (assumption tt))
            ((disjunctions-Asks c (meaning dates [] (tokenize search)) ds found).1 h))

    -- Where the predicates of the search ask about different things, an artifact meets some query
    -- exactly when it meets every predicate.
    pub queries-find_iff :
        PairwiseSeparate (meaning dates [] (tokenize search))
        → Any (Satisfies c) qs ↔ All (Asks dates c) (meaning dates [] (tokenize search))
    queries-find_iff s =
        let (ds, found, same) = queries-split search qs made in
        (
          λ h. (disjunctions-Asks c (meaning dates [] (tokenize search)) ds found).0 (
              (Meets-of_merge_all lodash c dates (empty_query ∷ []) ds (empty_ApartAll ds)
                (disjunctions-PairwiseApart _ ds found s)
                (subst (Any (Satisfies c)) (sym same) h)).1),
          queries-find_complete,
        )

    -- Where the search has two texts and nothing else, as in "a x:y b", an artifact that is named
    -- by the second text meets some query, whatever the first one asks.
    pub queries-find_second_text :
        (s t : StringPredicate)
        → meaning dates [] (tokenize search) ≡ string s ∷ string t ∷ []
        → c.named t.search_string
        → Any (Satisfies c) qs
    unfolding disjunctions merge_all make_queries
    queries-find_second_text s t two h =
        let (ds, found, same) = queries-split search qs made in
        let found' = rw two at found in
        subst (Any (Satisfies c))
          (ap (merge_all dates lodash (empty_query ∷ [])) (eq_of_some found') ∙ same)
          (inl (second_name c s.search_string t.search_string h))
