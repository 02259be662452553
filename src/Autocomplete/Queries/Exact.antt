-- ===== src/Autocomplete/Queries/Exact.antt =====
-- autocomplete.ts: `makeQueries` against what each predicate asks of an artifact.
use mathlib.Core.Path.{subst, subst₂}
use mallard.Common.{
  Option-cases, eq_of_some, ◌≡◌, ap, sym, Text, Option, none, some, List, [], ◌∷◌, All, Any, ◌⊎◌,
  inl, inr, arith, ◌↔◌,
}
use mallard.Types.{PlatformType, RangeDate, ImageQuery, empty_query}
use mallard.Autocomplete.Queries.{make_queries, iso_date, date_range}
use mallard.Autocomplete.Predicate.{
  DateLibrary, Predicate, capture_date, platform, string, DateCondition, before, after, on,
  CaptureDatePredicate,
}
use mallard.Autocomplete.Queries.Conditions.{Apart, Holds, Conditions, Satisfies, ApartQueries}
use mallard.Autocomplete.Queries.Meaning.{ApartAll}

-- What a date predicate asks of an artifact.
abbrev AsksDate : Conditions → Option DateCondition → Option Text → Type 0
AsksDate c none iso = ⊥
AsksDate c (some before) iso = Holds c.until iso
AsksDate c (some after) iso = Holds c.from iso
AsksDate c (some on) iso = Holds c.from iso × Holds c.until iso

-- What a predicate asks of an artifact: a text stands in one of four fields, a date bounds the
-- capture date, and a platform is the artifact's.
abbrev pub Asks : DateLibrary → Conditions → Predicate → Type 0
Asks dates c (string p) =
    c.named p.search_string
    ⊎ c.noted p.search_string
    ⊎ c.shot_with p.search_string
    ⊎ c.in_session p.search_string
Asks dates c (platform p) = Holds c.on_platform p.platform
Asks dates c (capture_date p) = AsksDate c p.condition (iso_date dates p.date)

abbrev SeparateDates : Option DateCondition → Option DateCondition → Type 0
SeparateDates (some before) (some after) = Unit
SeparateDates (some after) (some before) = Unit
SeparateDates _ _ = ⊥

-- Two predicates that ask about different things: not two texts, not two platforms, and of two
-- dates one is a `before` and the other an `after`.
abbrev pub Separate : Predicate → Predicate → Type 0
Separate (string p) (string q) = ⊥
Separate (platform p) (platform q) = ⊥
Separate (capture_date p) (capture_date q) = SeparateDates p.condition q.condition
Separate _ _ = Unit

abbrev pub PairwiseSeparate : List Predicate → Type 0
PairwiseSeparate [] = Unit
PairwiseSeparate (p ∷ ps) = All (Separate p) ps × PairwiseSeparate ps

abbrev text_queries : Text → List ImageQuery
text_queries s =
    record empty_query { name = some s }
    ∷ record empty_query { notes = some s }
    ∷ record empty_query { camera = some s }
    ∷ record empty_query { session = some s }
    ∷ []

abbrev platform_query : Option PlatformType → ImageQuery
platform_query t = record empty_query { platform_type = t }

abbrev range_query : RangeDate → ImageQuery
range_query r = record empty_query { capture_dates = some r }

apart_none : {A : Type 0} (x : Option A) → Apart x none
apart_none none = tt
apart_none (some x) = tt

text_platform :
    (s : Text) (t : Option PlatformType) → ApartAll (text_queries s) (platform_query t ∷ [])
text_platform s t = assumption tt

platform_text :
    (t : Option PlatformType) (s : Text) → ApartAll (platform_query t ∷ []) (text_queries s)
platform_text t s = assumption (tt, apart_none t)

text_range : (s : Text) (r : RangeDate) → ApartAll (text_queries s) (range_query r ∷ [])
text_range s r = assumption tt

range_text : (r : RangeDate) (s : Text) → ApartAll (range_query r ∷ []) (text_queries s)
range_text r s = assumption (tt, apart_none r.min_value, apart_none r.max_value)

platform_range :
    (t : Option PlatformType) (r : RangeDate)
    → ApartAll (platform_query t ∷ []) (range_query r ∷ [])
platform_range t r = assumption (tt, apart_none t)

range_platform :
    (r : RangeDate) (t : Option PlatformType)
    → ApartAll (range_query r ∷ []) (platform_query t ∷ [])
range_platform r t = assumption (tt, apart_none r.min_value, apart_none r.max_value)

module _ (c : Conditions) where
  by_name : (s : Text) → Satisfies c (record empty_query { name = some s }) ↔ c.named s
  by_name s = (λ h. h.name, λ h. assumption tt)

  by_notes : (s : Text) → Satisfies c (record empty_query { notes = some s }) ↔ c.noted s
  by_notes s = (λ h. h.notes, λ h. assumption tt)

  by_camera : (s : Text) → Satisfies c (record empty_query { camera = some s }) ↔ c.shot_with s
  by_camera s = (λ h. h.camera, λ h. assumption tt)

  by_session : (s : Text) → Satisfies c (record empty_query { session = some s }) ↔ c.in_session s
  by_session s = (λ h. h.session, λ h. assumption tt)

  by_platform :
      (t : Option PlatformType)
      → Satisfies c (record empty_query { platform_type = t }) ↔ Holds c.on_platform t
  by_platform t = (λ h. h.platform_type, λ h. assumption tt)

  by_range :
      (r : RangeDate)
      → Satisfies c (range_query r) ↔ (Holds c.from r.min_value × Holds c.until r.max_value)
  by_range r = (λ h. (h.min_date, h.max_date), λ h. assumption (tt, h.0, h.1))

  abbrev AsksText : Text → Type 0
  AsksText s = c.named s ⊎ c.noted s ⊎ c.shot_with s ⊎ c.in_session s

  text_asked : (s : Text) → Any (Satisfies c) (text_queries s) → AsksText s
  text_asked s (inl h) = inl h.name
  text_asked s (inr (inl h)) = inr (inl h.notes)
  text_asked s (inr (inr (inl h))) = inr (inr (inl h.camera))
  text_asked s (inr (inr (inr (inl h)))) = inr (inr (inr h.session))
  text_asked s (inr (inr (inr (inr h)))) = elim h [ ]

  text_found : (s : Text) → AsksText s → Any (Satisfies c) (text_queries s)
  text_found s (inl h) = inl ((by_name s).1 h)
  text_found s (inr (inl h)) = inr (inl ((by_notes s).1 h))
  text_found s (inr (inr (inl h))) = inr (inr (inl ((by_camera s).1 h)))
  text_found s (inr (inr (inr h))) = inr (inr (inr (inl ((by_session s).1 h))))

  -- A disjunction of one query.
  one_query :
      (q : ImageQuery) (A : Type 0)
      → Satisfies c q ↔ A
      → (qs : List ImageQuery) → some (q ∷ []) ≡ some qs
      → Any (Satisfies c) qs ↔ A
  one_query q A f qs e =
      subst (λ (x : List ImageQuery). Any (Satisfies c) x ↔ A) (eq_of_some e)
        ((λ h. elim h [ inl k ↦ f.0 k | inr k ↦ absurd k ]), λ h. inl (f.1 h))

  range_asks :
      (k : Option DateCondition) (iso : Option Text) (r : RangeDate)
      → date_range k iso ≡ some r
      → (Holds c.from r.min_value × Holds c.until r.max_value) ↔ AsksDate c k iso
  unfolding date_range
  range_asks none iso r e = cc
  range_asks (some before) iso r e =
      subst
        (λ (x : RangeDate).
          (Holds c.from x.min_value × Holds c.until x.max_value) ↔ Holds c.until iso)
        (eq_of_some e) (λ h. h.1, λ h. (tt, h))
  range_asks (some after) iso r e =
      subst
        (λ (x : RangeDate).
          (Holds c.from x.min_value × Holds c.until x.max_value) ↔ Holds c.from iso)
        (eq_of_some e) (λ h. h.0, λ h. (h, tt))
  range_asks (some on) iso r e =
      subst
        (λ (x : RangeDate).
          (Holds c.from x.min_value × Holds c.until x.max_value)
          ↔ (Holds c.from iso × Holds c.until iso))
        (eq_of_some e) (λ h. h, λ h. h)

module _ (dates : DateLibrary) where
  -- The queries of a date predicate, if it has them, are one query with its range.
  date_queries :
      (p : CaptureDatePredicate) (qs : List ImageQuery)
      → make_queries dates (capture_date p) ≡ some qs
      → (r : RangeDate) × (date_range p.condition (iso_date dates p.date) ≡ some r)
        × (qs ≡ range_query r ∷ [])
  unfolding make_queries
  date_queries p qs e = elim (Option-cases (date_range p.condition (iso_date dates p.date))) [
    | inl missing ↦ absurd (ground arith)
    | inr (r, found) ↦ (r, found, ground arith)
  ]

  pub make_queries-Asks :
      (c : Conditions) (p : Predicate) (qs : List ImageQuery)
      → make_queries dates p ≡ some qs
      → Any (Satisfies c) qs ↔ Asks dates c p
  unfolding make_queries
  make_queries-Asks c (string p) qs e =
      subst (λ (x : List ImageQuery). Any (Satisfies c) x ↔ AsksText c p.search_string)
        (eq_of_some e) (text_asked c p.search_string, text_found c p.search_string)
  make_queries-Asks c (platform p) qs e =
      one_query c (platform_query p.platform) _ (by_platform c p.platform) qs e
  make_queries-Asks c (capture_date p) qs e =
      let (r, found, e') = date_queries p qs e in
      let (to, from) = range_asks c p.condition (iso_date dates p.date) r found in
      let (to', from') = by_range c r in
      one_query c (range_query r) (Asks dates c (capture_date p))
        (λ h. to (to' h), λ h. from' (from h)) qs (ap some (sym e'))

  apart_ranges :
      (k l : Option DateCondition) (x y : Option Text) (r s : RangeDate)
      → date_range k x ≡ some r
      → date_range l y ≡ some s
      → SeparateDates k l
      → ApartQueries (range_query r) (range_query s)
  unfolding date_range
  apart_ranges (some before) (some after) x y r s e f h =
      subst₂ (λ (a b : RangeDate). ApartQueries (range_query a) (range_query b)) (eq_of_some e)
        (eq_of_some f) (assumption (tt, apart_none x))
  apart_ranges (some after) (some before) x y r s e f h =
      subst₂ (λ (a b : RangeDate). ApartQueries (range_query a) (range_query b)) (eq_of_some e)
        (eq_of_some f) (assumption (tt, apart_none x))
  apart_ranges _ _ x y r s e f h = elim h [ ]

  pub make_queries-Apart :
      (p q : Predicate) (ps qs : List ImageQuery)
      → make_queries dates p ≡ some ps
      → make_queries dates q ≡ some qs
      → Separate p q
      → ApartAll ps qs
  unfolding make_queries
  make_queries-Apart (string p) (string q) ps qs e f h = elim h [ ]
  make_queries-Apart (platform p) (platform q) ps qs e f h = elim h [ ]
  make_queries-Apart (string p) (platform q) ps qs e f h =
      subst₂ ApartAll (eq_of_some e) (eq_of_some f) (text_platform p.search_string q.platform)
  make_queries-Apart (platform p) (string q) ps qs e f h =
      subst₂ ApartAll (eq_of_some e) (eq_of_some f) (platform_text p.platform q.search_string)
  make_queries-Apart (string p) (capture_date q) ps qs e f h =
      let (r, _, f') = date_queries q qs f in
      subst₂ ApartAll (eq_of_some e) (sym f') (text_range p.search_string r)
  make_queries-Apart (capture_date p) (string q) ps qs e f h =
      let (r, _, e') = date_queries p ps e in
      subst₂ ApartAll (sym e') (eq_of_some f) (range_text r q.search_string)
  make_queries-Apart (platform p) (capture_date q) ps qs e f h =
      let (r, _, f') = date_queries q qs f in
      subst₂ ApartAll (eq_of_some e) (sym f') (platform_range p.platform r)
  make_queries-Apart (capture_date p) (platform q) ps qs e f h =
      let (r, _, e') = date_queries p ps e in
      subst₂ ApartAll (sym e') (eq_of_some f) (range_platform r q.platform)
  make_queries-Apart (capture_date p) (capture_date q) ps qs e f h =
      let (r, found, e') = date_queries p ps e in
      let (s, found', f') = date_queries q qs f in
      subst₂ ApartAll (sym e') (sym f')
        ((apart_ranges p.condition q.condition _ _ r s found found' h, tt), tt)
