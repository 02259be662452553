-- ===== src/Common/Keeping.antt =====
-- What holds of the kept elements of a list, and how many of them pass a test.
use Prim.Native.Nat.{◌+◌}
use mathlib.Core.Path.{◌≡◌, refl}
use mathlib.Core.Logic.{inl, inr}
use mathlib.Core.Bool.{Bool, true, false}
use mathlib.Core.List.{List, [], ◌∷◌, ◌++◌}
use native.Mathlib.Omega.{arith}
use mallard.Common.Tests.{Bool-cases}
use mallard.Common.Lists.{keep, All}
use mallard.Common.Texts.{Text, text_eq_refl}
use mallard.Common.Members.{text_Eq, mem, count}

-- A list of kept elements.
pub All-keep :
    {A : Type 0} (P : A → Type 0) (p : A → Bool)
    → ((a : A) → p a ≡ true → P a)
    → (xs : List A) → All P (keep p xs)
All-keep P p h [] = tt
All-keep P p h (x ∷ xs) = elim (Bool-cases (p x)) [
  | inl k ↦ rw k (h x k, All-keep P p h xs)
  | inr k ↦ rw k (All-keep P p h xs)
]

pub All-keep_of_All :
    {A : Type 0} (P : A → Type 0) (p : A → Bool) (xs : List A) → All P xs → All P (keep p xs)
All-keep_of_All P p [] _ = tt
All-keep_of_All P p (x ∷ xs) (h, hs) = elim (Bool-cases (p x)) [
  | inl k ↦ rw k (h, All-keep_of_All P p xs hs)
  | inr k ↦ rw k (All-keep_of_All P p xs hs)
]

-- Elements that are dropped and not counted.
pub count-keep :
    {A : Type 0} (p q : A → Bool)
    → ((a : A) → q a ≡ false → p a ≡ false)
    → (xs : List A) → count p (keep q xs) ≡ count p xs
unfolding count
count-keep p q h [] = refl
count-keep p q h (x ∷ xs) = elim (Bool-cases (q x)) [
  | inl k ↦ rw k (ground (arith, count-keep p q h xs))
  | inr k ↦ rw (k, h x k) (count-keep p q h xs)
]

pub keep-ext :
    (p q : Text → Bool) (xs : List Text)
    → ((a : Text) → mem a xs ≡ true → p a ≡ q a)
    → keep p xs ≡ keep q xs
keep-ext p q [] h = refl
keep-ext p q (x ∷ xs) h =
    ground (
      arith,
      h x (ground (arith, text_eq_refl x)),
      keep-ext p q xs (λ a m. h a (ground (arith, m))),
    )

pub count-append :
    {A : Type 0} (p : A → Bool) (xs ys : List A) → count p (xs ++ ys) ≡ count p xs + count p ys
unfolding count
count-append p [] ys = omega arith
count-append p (x ∷ xs) ys = ground (arith, count-append p xs ys)
