-- ===== src/Common/Texts.antt =====
-- JavaScript strings as the lists of their UTF-16 code units, with the operations of `String`
-- that the program calls.
use Prim.Native.Nat.{ℕ, suc, ◌+◌, ◌≤◌}
use Prim.Native.Char.{code}
use Prim.Native.String.{String}
use mathlib.Core.Path.{◌≡◌, refl}
use mathlib.Core.Bool.{Bool, true, false, ◌&&◌, ◌||◌}
use mathlib.Core.List.{List, [], ◌∷◌, ◌++◌}
use mathlib.Core.Option
use mathlib.Core.Option.{Option, none, some}
use native.Mathlib.Omega.{arith}
use mathlib.Core.Logic.{inl, inr}
use mallard.Common.Tests.{◌==◌, if◌then◌else◌, Bool-cases, Option-cases}
use mallard.Common.Lists.{length}

abbrev pub Text : Type 0
Text = List ℕ

-- The code units of a literal of the source, which is ASCII.
abbrev pub codes : String → Text
codes String.[] = []
codes (String.◌∷◌ c s) = code c ∷ codes s

-- `a === b`
abbrev pub text_eq : Text → Text → Bool
text_eq [] [] = true
text_eq [] (y ∷ ys) = false
text_eq (x ∷ xs) [] = false
text_eq (x ∷ xs) (y ∷ ys) = x == y && text_eq xs ys

pub text_eq_refl : (s : Text) → text_eq s s ≡ true
text_eq_refl [] = refl
text_eq_refl (x ∷ xs) = ground (arith, text_eq_refl xs)

pub eq_of_text_eq : (s t : Text) → text_eq s t ≡ true → s ≡ t
eq_of_text_eq [] [] h = refl
eq_of_text_eq [] (y ∷ ys) h = cc
eq_of_text_eq (x ∷ xs) [] h = cc
eq_of_text_eq (x ∷ xs) (y ∷ ys) h = ground (arith, eq_of_text_eq xs ys)

-- A property of an object, or an entry of a `Map`, set to a value: it keeps its place if it is there.
unfoldable pub set_entry {ℓ} : {V : Type ℓ} → Text → V → List (Text × V) → List (Text × V)
set_entry key value [] = (key, value) ∷ []
set_entry key value ((k, v) ∷ entries) =
    if text_eq k key then (k, value) ∷ entries else (k, v) ∷ set_entry key value entries

-- The first value under a key.
unfoldable pub get_entry {ℓ} : {V : Type ℓ} → Text → List (Text × V) → Option V
get_entry key [] = none
get_entry key ((k, v) ∷ entries) = if text_eq k key then some v else get_entry key entries

-- `s.startsWith(prefix)`
abbrev pub starts_with : Text → Text → Bool
starts_with s [] = true
starts_with [] (y ∷ ys) = false
starts_with (x ∷ xs) (y ∷ ys) = x == y && starts_with xs ys

-- `s.includes(c)`, for one code unit
abbrev pub includes_unit : ℕ → Text → Bool
includes_unit c [] = false
includes_unit c (x ∷ xs) = x == c || includes_unit c xs

-- `s.indexOf(t)`, `none` for -1
abbrev pub index_of : Text → Text → Option ℕ
index_of [] t = if starts_with [] t then some 0 else none
index_of (x ∷ xs) t =
    let later = Option.map suc (index_of xs t) in if starts_with (x ∷ xs) t then some 0 else later

abbrev pub cons_head : ℕ → List Text → List Text
cons_head x [] = (x ∷ []) ∷ []
cons_head x (s ∷ ss) = (x ∷ s) ∷ ss

-- `s.split(c)`, for one code unit
abbrev pub split : ℕ → Text → List Text
split c [] = [] ∷ []
split c (x ∷ xs) = let rest = split c xs in if x == c then [] ∷ rest else cons_head x rest

-- `parts.join(sep)`
abbrev pub join : Text → List Text → Text
join sep [] = []
join sep (s ∷ []) = s
join sep (s ∷ t ∷ ss) = s ++ (sep ++ join sep (t ∷ ss))

pub includes_unit_of_starts_with :
    (c : ℕ) (s p : Text)
    → starts_with s p ≡ true
    → includes_unit c p ≡ true
    → includes_unit c s ≡ true
includes_unit_of_starts_with c s [] h k = cc
includes_unit_of_starts_with c [] (y ∷ p) h k = cc
includes_unit_of_starts_with c (x ∷ s) (y ∷ p) h k =
    ground (arith, includes_unit_of_starts_with c s p)

length-le_of_starts_with : (s p : Text) → starts_with s p ≡ true → length p ≤ length s
length-le_of_starts_with s [] h = omega arith
length-le_of_starts_with [] (y ∷ p) h = cc
length-le_of_starts_with (x ∷ s) (y ∷ p) h = ground (arith, length-le_of_starts_with s p)

-- A text is found where there is room for it.
pub index_of-le : (s t : Text) (i : ℕ) → index_of s t ≡ some i → i + length t ≤ length s
index_of-le [] t i h = ground (arith, length-le_of_starts_with [] t)
index_of-le (x ∷ s) t i h = elim (Bool-cases (starts_with (x ∷ s) t)) [
  | inl here ↦ ground (arith, length-le_of_starts_with (x ∷ s) t)
  | inr other ↦ elim (Option-cases (index_of s t)) [
    | inl missing ↦ ground arith
    | inr (j, found) ↦ ground (arith, index_of-le s t j)
  ]
]
