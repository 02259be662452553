-- ===== src/Autocomplete/Predicate.antt =====
-- autocomplete.ts: `Token`, `tokenize` and the three predicates with their `parse` methods.
-- `Date.parse` and `toISOString` come as `DateLibrary`: the former depends on the browser for most
-- texts. A `Date` is its time value.
use mallard.Common.{
  ℕ, Text, codes, text_eq, starts_with, includes_unit, split, length, get_elem?, keep, map, Option,
  none, some, is_some, Bool, true, false, not, ◌&&◌, ◌||◌, ltb, if◌then◌else◌, List, [], ◌∷◌, ◌++◌,
}
use mallard.Common.Int.{ℤ}
use mallard.Types.{PlatformType}

pub record DateLibrary : Type 0 where
  -- `Date.parse`, `none` for NaN
  pub parse : Text → Option ℤ
  -- `toISOString` of the date with a time value
  pub to_iso_string : ℤ → Text

abbrev pub space : ℕ
space = b' '

abbrev pub colon : ℕ
colon = b':'

pub record Token : Type 0 where
  pub value : Text
  pub is_end : Bool

-- `new Token(value)`: an absent or empty value makes the end token.
unfoldable pub new_token : Option Text → Token
new_token none = record { value = []; is_end = true }
new_token (some []) = record { value = []; is_end = true }
new_token (some (c ∷ s)) = record { value = c ∷ s; is_end = false }

unfoldable pub tokenize : Text → List Token
unfolding new_token
tokenize search_string =
    let tokens = map (λ t. new_token (some t)) (split space search_string) in
    keep (λ t. ltb 0 (length t.value)) tokens ++ new_token none ∷ []

pub data DateCondition : Type 0 where
  before after on : DateCondition

pub record StringPredicate : Type 0 where
  pub matched : Bool
  pub search_string : Text

pub record CaptureDatePredicate : Type 0 where
  pub condition : Option DateCondition
  pub date : Option ℤ
  pub search_string : Text

pub record PlatformPredicate : Type 0 where
  pub platform : Option PlatformType
  pub search_string : Text

-- The subclasses of `Predicate`.
pub data Predicate : Type 0 where
  capture_date : CaptureDatePredicate → Predicate
  platform : PlatformPredicate → Predicate
  string : StringPredicate → Predicate

-- `parse` of each class returns the object as it leaves it, and whether it accepted the token.
unfoldable pub parse_string : StringPredicate → Token → StringPredicate × Bool
parse_string p token =
    if includes_unit colon token.value
    then (record p { matched = ltb 0 (length p.search_string) }, false)
    else if token.is_end
    then (record p { matched = true }, true)
    else (
      record p {
        search_string =
            (if ltb 0 (length p.search_string)
              then p.search_string ++ space ∷ []
              else p.search_string)
            ++ token.value;
      },
      true,
    )

-- The `if` ladder over the directives: the condition that a token's prefix stands for.
unfoldable pub condition_of : Text → Option DateCondition
condition_of value =
    if starts_with value (codes "before:")
    then some before
    else if starts_with value (codes "after:")
    then some after
    else if starts_with value (codes "on:") || starts_with value (codes "date:")
    then some on
    else none

-- `value.split(":")[1]`, which is there once the value starts with a directive.
unfoldable pub directive_argument : Text → Text
directive_argument value = elim (get_elem? (split colon value) 1) [ none ↦ [] | some s ↦ s ]

module _ (dates : DateLibrary) where
  unfoldable pub parse_date : CaptureDatePredicate → Token → CaptureDatePredicate × Bool
  parse_date p token = if token.is_end then (p, true) else elim (condition_of token.value) [
    | none ↦ (p, false)
    | some c ↦ elim (dates.parse (directive_argument token.value)) [
      | none ↦ (record p { condition = some c }, false)
      | some unix_time ↦
          (record { condition = some c; date = some unix_time; search_string = token.value }, true)
    ]
  ]

-- `platformTypeValues`
unfoldable pub platform_type_values : Text → Option PlatformType
platform_type_values s =
    if text_eq s (codes "ground")
    then some PlatformType.ground
    else if text_eq s (codes "aerial")
    then some PlatformType.aerial
    else none

unfoldable pub parse_platform : PlatformPredicate → Token → PlatformPredicate × Bool
parse_platform p token =
    if token.is_end
    then (p, true)
    else if not (starts_with token.value (codes "platform:"))
    then (p, false)
    else elim (platform_type_values (directive_argument token.value)) [
      | none ↦ (p, false)
      | some t ↦ (record { platform = some t; search_string = token.value }, true)
    ]

-- The virtual methods.
unfoldable pub parse_token : DateLibrary → Predicate → Token → Predicate × Bool
unfolding parse_date parse_platform parse_string
parse_token dates (capture_date p) token =
    let r = parse_date dates p token in (capture_date r.0, r.1)
parse_token dates (platform p) token = let r = parse_platform p token in (platform r.0, r.1)
parse_token dates (string p) token = let r = parse_string p token in (string r.0, r.1)

unfoldable pub is_matched : Predicate → Bool
is_matched (capture_date p) = is_some p.condition && is_some p.date
is_matched (platform p) = is_some p.platform
is_matched (string p) = p.matched

unfoldable pub search_string : Predicate → Text
search_string (capture_date p) = p.search_string
search_string (platform p) = p.search_string
search_string (string p) = p.search_string
