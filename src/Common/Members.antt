-- ===== src/Common/Members.antt =====
-- Membership by a Boolean test, lists without repetition, and counting.
use Prim.Native.Nat.{ℕ, suc}
use mathlib.Core.Path.{◌≡◌, refl, ap, sym, ◌∙◌}
use mathlib.Core.Logic.{inl, inr}
use mathlib.Core.Bool.{Bool, true, false, ◌&&◌, ◌||◌}
use mathlib.Core.List.{List, [], ◌∷◌, ◌++◌}
use mathlib.Core.Option.{Option, none, some}
use native.Mathlib.Omega.{arith}
use mallard.Common.Tests.{if◌then◌else◌, Bool-cases}
use mallard.Common.Lists.{length, keep, All}
use mallard.Common.Texts.{Text, text_eq, text_eq_refl, eq_of_text_eq}

-- `===` on the values of a type.
pub record Eq {ℓ} (A : Type ℓ) : Type ℓ where
  pub beq : A → A → Bool
  pub beq_refl : (a : A) → beq a a ≡ true
  pub eq_of_beq : (a b : A) → beq a b ≡ true → a ≡ b

abbrev pub option_text_eq : Option Text → Option Text → Bool
option_text_eq none none = true
option_text_eq none (some t) = false
option_text_eq (some s) none = false
option_text_eq (some s) (some t) = text_eq s t

pub option_text_eq_refl : (a : Option Text) → option_text_eq a a ≡ true
option_text_eq_refl none = refl
option_text_eq_refl (some s) = text_eq_refl s

pub eq_of_option_text_eq : (a b : Option Text) → option_text_eq a b ≡ true → a ≡ b
eq_of_option_text_eq none none h = refl
eq_of_option_text_eq none (some t) h = cc
eq_of_option_text_eq (some s) none h = cc
eq_of_option_text_eq (some s) (some t) h = ap some (eq_of_text_eq s t h)

instance abbrev pub text_Eq : Eq Text
text_Eq = record { beq = text_eq; beq_refl = text_eq_refl; eq_of_beq = eq_of_text_eq }

instance abbrev pub option_text_Eq : Eq (Option Text)
option_text_Eq = record {
  beq = option_text_eq;
  beq_refl = option_text_eq_refl;
  eq_of_beq = eq_of_option_text_eq;
}

module _ {ℓ} {A : Type ℓ} ⦃e : Eq A⦄ where
  abbrev pub mem : A → List A → Bool
  mem a [] = false
  mem a (x ∷ xs) = e.beq x a || mem a xs

  abbrev pub Distinct : List A → Type 0
  Distinct [] = Unit
  Distinct (x ∷ xs) = (mem x xs ≡ false) × Distinct xs

  pub beq_comm : (a b : A) → e.beq a b ≡ e.beq b a
  beq_comm a b = elim (Bool-cases (e.beq a b)) [
    | inl h ↦ rw (h, e.eq_of_beq a b h, e.beq_refl b)
    | inr h ↦ elim (Bool-cases (e.beq b a)) [
      | inl k ↦ ground (arith, e.eq_of_beq b a k, e.beq_refl a)
      | inr k ↦ rw (h, k)
    ]
  ]

  pub mem-append : (a : A) (xs ys : List A) → mem a (xs ++ ys) ≡ (mem a xs || mem a ys)
  mem-append a [] ys = refl
  mem-append a (x ∷ xs) ys = ground (arith, mem-append a xs ys)

  pub Distinct-snoc :
      (xs : List A) (a : A) → Distinct xs → mem a xs ≡ false → Distinct (xs ++ a ∷ [])
  Distinct-snoc [] a _ h = (refl, tt)
  Distinct-snoc (x ∷ xs) a (n, d) h =
      (ground (arith, mem-append x xs (a ∷ []), beq_comm a x), Distinct-snoc xs a d (ground arith))

  pub mem-keep : (p : A → Bool) (a : A) (xs : List A) → mem a (keep p xs) ≡ (mem a xs && p a)
  mem-keep p a [] = refl
  mem-keep p a (x ∷ xs) = elim (Bool-cases (e.beq x a)) [
    | inl h ↦ ground (arith, mem-keep p a xs, ap p (e.eq_of_beq x a h))
    | inr h ↦ ground (arith, mem-keep p a xs)
  ]

  pub Distinct-keep : (p : A → Bool) (xs : List A) → Distinct xs → Distinct (keep p xs)
  Distinct-keep p [] _ = tt
  Distinct-keep p (x ∷ xs) (n, d) = elim (Bool-cases (p x)) [
    | inl h ↦ rw h (ground (arith, mem-keep p x xs), Distinct-keep p xs d)
    | inr h ↦ rw h (Distinct-keep p xs d)
  ]

  pub mem_of_beq : (x a : A) (xs : List A) → e.beq x a ≡ true → mem x xs ≡ mem a xs
  mem_of_beq x a xs h = ap (λ y. mem y xs) (e.eq_of_beq x a h)

  beq_of_mem : (x a : A) (xs : List A) → mem x xs ≡ false → mem a xs ≡ true → e.beq x a ≡ false
  beq_of_mem x a xs n m = ground (arith, mem_of_beq x a xs)

-- How many elements pass a test.
unfoldable pub count {ℓ} : {A : Type ℓ} → (A → Bool) → List A → ℕ
count p [] = 0
count p (x ∷ xs) = if p x then suc (count p xs) else count p xs

module _ {ℓ} {A : Type ℓ} ⦃e : Eq A⦄ (p q : A → Bool) where
  pub count-ext : (xs : List A) → ((a : A) → mem a xs ≡ true → p a ≡ q a) → count p xs ≡ count q xs
  unfolding count
  count-ext [] h = refl
  count-ext (x ∷ xs) h =
      let rest = count-ext xs (λ a m. h a (ground (arith, m))) in
      ground (arith, rest, h x (ground (arith, e.beq_refl x)))

  -- Two tests that differ at one element, which the second passes.
  pub count-turn_on :
      (a : A) (xs : List A)
      → Distinct xs
      → mem a xs ≡ true
      → p a ≡ false
      → q a ≡ true
      → ((x : A) → e.beq a x ≡ false → p x ≡ q x)
      → count q xs ≡ suc (count p xs)
  unfolding count
  count-turn_on a [] _ m _ _ _ = cc
  count-turn_on a (x ∷ xs) (n, d) m off on' same = elim (Bool-cases (e.beq x a)) [
    | inl here ↦
        let x_eq_a = e.eq_of_beq x a here in
        let rest : count p xs ≡ count q xs =
          count-ext xs (λ b k. same b (ap (λ y. e.beq y b) (sym x_eq_a) ∙ beq_of_mem x b xs n k)) in
        ground (arith, rest, ap p x_eq_a, ap q x_eq_a)
    | inr other ↦
        ground
          (arith, count-turn_on a xs d (ground arith) off on' same, same x (beq_comm a x ∙ other))
  ]

module _ {ℓ} {A : Type ℓ} ⦃e : Eq A⦄ where
  pub All-of_mem {κ} : (P : A → Type κ) (xs : List A) → ((a : A) → mem a xs ≡ true → P a) → All P xs
  All-of_mem P [] h = tt
  All-of_mem P (x ∷ xs) h =
      (h x (ground (arith, e.beq_refl x)), All-of_mem P xs (λ a m. h a (ground (arith, m))))

  pub count-all :
      (p : A → Bool) (xs : List A)
      → ((a : A) → mem a xs ≡ true → p a ≡ true)
      → count p xs ≡ length xs
  unfolding count
  count-all p [] h = refl
  count-all p (x ∷ xs) h =
      let rest = count-all p xs (λ a m. h a (ground (arith, m))) in
      ground (arith, h x (ground (arith, e.beq_refl x)), rest)

  pub count-none :
      (p : A → Bool) (xs : List A) → ((a : A) → mem a xs ≡ true → p a ≡ false) → count p xs ≡ 0
  unfolding count
  count-none p [] h = refl
  count-none p (x ∷ xs) h =
      let rest = count-none p xs (λ a m. h a (ground (arith, m))) in
      ground (arith, h x (ground (arith, e.beq_refl x)), rest)
