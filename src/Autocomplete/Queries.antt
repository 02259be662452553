-- ===== src/Autocomplete/Queries.antt =====
-- autocomplete.ts: `getDateRange`, `makeQueries`, `mapProduct`, `queriesFromParsedSearchString` and
-- `queriesFromSearchString`. lodash's `merge` is a parameter, as an interface.
pub mod Total
pub mod Conditions
pub mod Meaning
pub mod Exact
pub mod Found
use mallard.Common.{
  ◌>>=◌, Text, codes, split, get_elem?, Option, none, some, List, [], ◌∷◌, ◌++◌, map, ◌≡◌,
}
use mallard.Common.Int.{ℤ}
use mallard.Types.{RangeDate, ImageQuery, empty_query}
use mallard.Autocomplete.Predicate.{
  DateLibrary, DateCondition, before, after, on, Predicate, capture_date, platform, string,
  CaptureDatePredicate, tokenize,
}
use mallard.Autocomplete.Parse.{parse}

abbrev pub or_else {ℓ} : {A : Type ℓ} → Option A → Option A → Option A
or_else (some a) o = some a
or_else none o = o

-- Where both sides are objects, lodash merges them property by property.
abbrev pub merge_range : Option RangeDate → Option RangeDate → Option RangeDate
merge_range none r = r
merge_range (some l) none = some l
merge_range (some l) (some r) = some (record {
  min_value = or_else r.min_value l.min_value;
  max_value = or_else r.max_value l.max_value;
})

-- `merge({}, l, r)` of lodash: a source property that is not `undefined` overwrites the
-- destination's, and nested objects are merged.
pub record Lodash : Type 0 where
  pub merge : ImageQuery → ImageQuery → ImageQuery
  pub merge_name : (l r : ImageQuery) → (merge l r).name ≡ or_else r.name l.name
  pub merge_notes : (l r : ImageQuery) → (merge l r).notes ≡ or_else r.notes l.notes
  pub merge_camera : (l r : ImageQuery) → (merge l r).camera ≡ or_else r.camera l.camera
  pub merge_session : (l r : ImageQuery) → (merge l r).session ≡ or_else r.session l.session
  pub merge_capture_dates :
      (l r : ImageQuery) → (merge l r).capture_dates ≡ merge_range l.capture_dates r.capture_dates
  pub merge_platform_type :
      (l r : ImageQuery) → (merge l r).platform_type ≡ or_else r.platform_type l.platform_type

-- `this.date?.toISOString().split("T")[0]`
unfoldable pub iso_date : DateLibrary → Option ℤ → Option Text
iso_date dates none = none
iso_date dates (some u) = get_elem? (split b'T' (dates.to_iso_string u)) 0

-- The `switch` of `getDateRange`; `none` is the `Error` that it throws for a missing condition.
unfoldable pub date_range : Option DateCondition → Option Text → Option RangeDate
date_range none iso = none
date_range (some before) iso = some (record { min_value = none; max_value = iso })
date_range (some on) iso = some (record { min_value = iso; max_value = iso })
date_range (some after) iso = some (record { min_value = iso; max_value = none })

unfoldable pub make_queries : DateLibrary → Predicate → Option (List ImageQuery)
unfolding iso_date date_range
make_queries dates (capture_date p) = do
  range ← date_range p.condition (iso_date dates p.date)
  some (record empty_query { capture_dates = some range } ∷ [])
make_queries dates (platform p) = some (record empty_query { platform_type = p.platform } ∷ [])
make_queries dates (string p) = some (
    record empty_query { name = some p.search_string }
    ∷ record empty_query { notes = some p.search_string }
    ∷ record empty_query { camera = some p.search_string }
    ∷ record empty_query { session = some p.search_string }
    ∷ [])

module _ {ℓ κ} {T : Type ℓ} {O : Type κ} where
  -- `mapProduct`: the inner loop, then the outer one.
  unfoldable pub map_product : List T → List T → (T → T → O) → List O
  map_product [] right operator = []
  map_product (l ∷ left) right operator = map (operator l) right ++ map_product left right operator

module _ (dates : DateLibrary) (lodash : Lodash) where
  -- The first loop of `queriesFromParsedSearchString`.
  unfoldable pub disjunctions : List Predicate → Option (List (List ImageQuery))
  unfolding make_queries
  disjunctions [] = some []
  disjunctions (p ∷ ps) = do qs ← make_queries dates p; rest ← disjunctions ps; some (qs ∷ rest)

  -- The second loop.
  unfoldable pub merge_all : List ImageQuery → List (List ImageQuery) → List ImageQuery
  unfolding map_product
  merge_all merged [] = merged
  merge_all merged (d ∷ ds) = merge_all (map_product merged d (λ l r. lodash.merge l r)) ds

  unfoldable pub queries_from_parsed_search_string : List Predicate → Option (List ImageQuery)
  unfolding disjunctions merge_all
  queries_from_parsed_search_string predicates = do
    queries ← disjunctions predicates
    some (merge_all (empty_query ∷ []) queries)

  unfoldable pub queries_from_search_string : Text → Option (List ImageQuery)
  unfolding queries_from_parsed_search_string
  queries_from_search_string search_string = do
    predicates ← parse dates (tokenize search_string)
    queries_from_parsed_search_string predicates
