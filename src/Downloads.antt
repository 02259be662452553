-- ===== src/Downloads.antt =====
-- downloads.ts: the names that `fetchImages` gives to the files of the archive. The
-- requests and the streams are not modelled.
pub mod Names
mod Tests
use mallard.Common.{
  ℕ, zero, suc, ◌+◌, ltb, Text, text_eq, codes, Option, none, some, Bool, true, false,
  if◌then◌else◌, List, [], ◌∷◌, ◌++◌,
}
use Prim.Native.Nat.{◌/◌, ◌%◌}

-- A number in a template literal: its decimal digits, of which it has at most as many as it is
-- large.
unfoldable pub digits : ℕ → ℕ → Text
digits zero n = []
digits (suc fuel) n =
    let front = digits fuel (n / 10) in
    if ltb n 10 then (n + 48) ∷ [] else front ++ (n % 10 + 48) ∷ []

unfoldable pub decimal : ℕ → Text
unfolding digits
decimal n = digits (suc n) n

-- `duplicateNames`
abbrev pub DuplicateNames : Type 0
DuplicateNames = Text → Option ℕ

abbrev pub set_count : Text → ℕ → DuplicateNames → DuplicateNames
set_count name n counts other = if text_eq name other then some n else counts other

-- `${n}_${name}`
abbrev pub numbered_name : ℕ → Text → Text
numbered_name n name = decimal n ++ (codes "_" ++ name)

-- A name that is not there was seen 0 times.
abbrev pub count_or_zero : Option ℕ → ℕ
count_or_zero none = 0
count_or_zero (some n) = n

-- The name that is yielded, for the count of the artifact's name.
abbrev pub file_name : Option ℕ → Text → Text
file_name none name = name
file_name (some n) name = numbered_name n name

-- The loop's names. An absent or empty name is passed on.
unfoldable pub fetch_names : DuplicateNames → List (Option Text) → List (Option Text)
fetch_names counts [] = []
fetch_names counts (none ∷ names) = none ∷ fetch_names counts names
fetch_names counts (some [] ∷ names) = some [] ∷ fetch_names counts names
fetch_names counts (some (c ∷ w) ∷ names) =
    let rest = fetch_names (set_count (c ∷ w) (count_or_zero (counts (c ∷ w)) + 1) counts) names in
    some (file_name (counts (c ∷ w)) (c ∷ w)) ∷ rest

-- The names of the archive.
unfoldable pub fetch_images : List (Option Text) → List (Option Text)
unfolding fetch_names
fetch_images names = fetch_names (λ _. none) names
