-- ===== src/Elements/Uploader/Found.antt =====
-- file-uploader.ts: the files that `findFilesWithStatus` finds, and the table that they come from.
use mallard.Common.{
  length-take, ℕ, ◌-◌, ◌≤◌, ◌==◌, ltb, zero, suc, length, take, keep, map, ◌≡◌, refl, ap, sym, ◌∙◌,
  text_Eq, mem, Distinct, some, is_some, Option-cases, Bool, true, false, Bool-cases, inl, inr,
  List, [], ◌∷◌, All, All-of_mem, arith, count,
}
use mallard.Types.{EntityId, NormalizedState}
use mallard.Adapter.{IsNormalized}
use mallard.Adapter.Count.{at_id}
use mallard.Upload.State.{FileStatus, FrontendFileEntity, select_id}
use mallard.Elements.Uploader.{
  FileUploader, status_number, has_status, group_by_status, find_files_with_status, select_all,
}

module _ {A : Type 0} (f : A → EntityId) where
  mem-map-keep :
      (p : A → Bool) (a : EntityId) (xs : List A)
      → mem a (map f xs) ≡ false
      → mem a (map f (keep p xs)) ≡ false
  mem-map-keep p a [] h = refl
  mem-map-keep p a (x ∷ xs) h = ground (arith, mem-map-keep p a xs)

  mem-map-take :
      (k : ℕ) (a : EntityId) (xs : List A)
      → mem a (map f xs) ≡ false
      → mem a (map f (take k xs)) ≡ false
  mem-map-take zero a xs h = refl
  mem-map-take (suc k) a [] h = refl
  mem-map-take (suc k) a (x ∷ xs) h = ground (arith, mem-map-take k a xs)

  pub Distinct-map-keep :
      (p : A → Bool) (xs : List A) → Distinct (map f xs) → Distinct (map f (keep p xs))
  Distinct-map-keep p [] _ = tt
  Distinct-map-keep p (x ∷ xs) (n, d) = elim (Bool-cases (p x)) [
    | inl h ↦ rw h (mem-map-keep p (f x) xs n, Distinct-map-keep p xs d)
    | inr h ↦ rw h (Distinct-map-keep p xs d)
  ]

  pub Distinct-map-take : (k : ℕ) (xs : List A) → Distinct (map f xs) → Distinct (map f (take k xs))
  Distinct-map-take zero xs _ = tt
  Distinct-map-take (suc k) [] _ = tt
  Distinct-map-take (suc k) (x ∷ xs) (n, d) = (mem-map-take k (f x) xs n, Distinct-map-take k xs d)

module _ {A : Type 0} (P : A → Type 0) where
  pub All-take : (k : ℕ) (xs : List A) → All P xs → All P (take k xs)
  All-take zero xs _ = tt
  All-take (suc k) [] _ = tt
  All-take (suc k) (x ∷ xs) (h, hs) = (h, All-take k xs hs)

  pub All-keep_with :
      (p : A → Bool) (xs : List A) → All P xs → All (λ x. P x × (p x ≡ true)) (keep p xs)
  All-keep_with p [] _ = tt
  All-keep_with p (x ∷ xs) (h, hs) = elim (Bool-cases (p x)) [
    | inl k ↦ rw k ((h, k), All-keep_with p xs hs)
    | inr k ↦ rw k (All-keep_with p xs hs)
  ]

pub length-take-le : {A : Type 0} (k : ℕ) (xs : List A) → length (take k xs) ≤ k
length-take-le k xs = omega (arith, length-take k xs)

pub exclusive : (a b c : ℕ) → a == b ≡ false → c == a ≡ true → c == b ≡ false
exclusive a b c h k = ground arith

module _ {V : Type 0} where
  group_by_status_lem :
      (p n : FileStatus) (files : List (FrontendFileEntity V))
      → status_number p == status_number n ≡ false
      → group_by_status p n files
        ≡ record { previous = keep (has_status p) files; next = keep (has_status n) files }
  unfolding group_by_status
  group_by_status_lem p n [] h = refl
  group_by_status_lem p n (f ∷ files) h =
      let rest = group_by_status_lem p n files h in
      elim (Bool-cases (has_status p f)) [
        | inl first ↦
            let other : has_status n f ≡ false =
              exclusive (status_number p) _ (status_number f.status) h first in
            rw (first, other, rest) refl
        | inr first ↦ elim (Bool-cases (has_status n f)) [
          | inl second ↦ rw (first, second, rest) refl
          | inr second ↦ rw (first, second, rest) refl
        ]
      ]

  -- At most as many files of the first status as there is room for beside those of the second.
  pub find_files_with_status_lem :
      (p n : FileStatus) (max : ℕ) (element : FileUploader V)
      → status_number p == status_number n ≡ false
      → find_files_with_status p n max element
        ≡ take
            (max - length (keep (has_status n) element.uploading_files))
            (keep (has_status p) element.uploading_files)
  unfolding find_files_with_status
  find_files_with_status_lem p n max element h =
      rw (group_by_status_lem p n element.uploading_files h)
        (elim (Bool-cases (ltb (length (keep (has_status n) element.uploading_files)) max)) [
          | inl room ↦ rw room refl
          | inr full ↦
              let none_left : max - length (keep (has_status n) element.uploading_files) ≡ 0 =
                ground arith in
              rw (full, none_left) refl
        ])

  module _ (t : NormalizedState (FrontendFileEntity V)) where
    pub length-keep-select_all :
        (p : FrontendFileEntity V → Bool) (ids : List EntityId)
        → length (keep p (select_all t ids)) ≡ count (at_id p t) ids
    unfolding select_all count
    length-keep-select_all p [] = refl
    length-keep-select_all p (j ∷ ids) = elim (Option-cases (t.entities j)) [
      | inl missing ↦
          let off : at_id p t j ≡ false = ground arith in
          rw (off, missing) (length-keep-select_all p ids)
      | inr (e, found) ↦ rw found (ground (arith, length-keep-select_all p ids))
    ]

    module _ (n : IsNormalized select_id t) where
      pub select_all-known :
          (ids : List EntityId) → All (λ e. t.entities e.id ≡ some e) (select_all t ids)
      unfolding select_all
      select_all-known [] = tt
      select_all-known (j ∷ ids) = elim (Option-cases (t.entities j)) [
        | inl missing ↦ rw missing (select_all-known ids)
        | inr (e, found) ↦
            rw found (ap t.entities (n.keyed j e found) ∙ found, select_all-known ids)
      ]

      select_all-ids :
          (ids : List EntityId)
          → All (λ j. is_some (t.entities j) ≡ true) ids
          → map select_id (select_all t ids) ≡ ids
      unfolding select_all
      select_all-ids [] _ = refl
      select_all-ids (j ∷ ids) (h, hs) = elim (Option-cases (t.entities j)) [
        | inl missing ↦ ground arith
        | inr (e, found) ↦ rw found (ground (arith, n.keyed j e found, select_all-ids ids hs))
      ]

      pub Distinct-select_all : Distinct (map select_id (select_all t t.ids))
      Distinct-select_all =
          rw (select_all-ids t.ids (All-of_mem _ t.ids (λ j m. sym (n.listed j) ∙ m))) n.distinct
