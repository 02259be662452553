-- ===== src/Upload/Editable.antt =====
-- types.ts: which properties `filterOnlyEditable` leaves.
use mallard.Common.{
  ◌≡◌, refl, ap, sym, ◌∙◌, Text, text_eq, text_eq_refl, Bool, true, false, not, ◌||◌, ◌&&◌, List,
  [], ◌∷◌, map, mem, keep, All, All-imp, text_Eq, Bool-cases, inl, inr, arith, beq_comm,
  eq_of_text_eq,
}
use mallard.Upload.State.{
  Metadata, is_editable, delete_key, delete_uneditable, filter_only_editable,
}

module _ {V : Type 0} where
  keep-keep :
      (p q : Text × V → Bool) (m : Metadata V) → keep p (keep q m) ≡ keep (λ x. q x && p x) m
  keep-keep p q [] = refl
  keep-keep p q (x ∷ m) = ground (arith, keep-keep p q m)

  keep-cong :
      (p q : Text × V → Bool) (m : Metadata V) → ((x : Text × V) → p x ≡ q x) → keep p m ≡ keep q m
  keep-cong p q [] h = refl
  keep-cong p q (x ∷ m) h = ground (arith, h x, keep-cong p q m h)

  keep-true : (m : Metadata V) → keep (λ _. true) m ≡ m
  keep-true [] = refl
  keep-true (x ∷ m) = ap (x ∷◌) (keep-true m)

  -- A key that is deleted or spared, seen from the property `x`.
  spared :
      (key : Text) (keys : List Text) (x : Text × V)
      → is_editable key ≡ true
      → (not (mem x.0 keys) || is_editable x.0) ≡ (not (mem x.0 (key ∷ keys)) || is_editable x.0)
  spared key keys x h = elim (Bool-cases (text_eq key x.0)) [
    | inl here ↦ ground (arith, ap is_editable (eq_of_text_eq key x.0 here))
    | inr other ↦ ground arith
  ]

  deleted :
      (key : Text) (keys : List Text) (x : Text × V)
      → is_editable key ≡ false
      → (not (text_eq x.0 key) && (not (mem x.0 keys) || is_editable x.0))
        ≡ (not (mem x.0 (key ∷ keys)) || is_editable x.0)
  deleted key keys x h = elim (Bool-cases (text_eq key x.0)) [
    | inl here ↦ ground (arith, ap is_editable (eq_of_text_eq key x.0 here), beq_comm key x.0)
    | inr other ↦ ground (arith, beq_comm key x.0)
  ]

  -- The loop deletes the properties under those of the keys that are not editable.
  delete_uneditable_lem :
      (keys : List Text) (m : Metadata V)
      → delete_uneditable keys m ≡ keep (λ (x : Text × V). not (mem x.0 keys) || is_editable x.0) m
  unfolding delete_uneditable
  delete_uneditable_lem [] m = sym (keep-true m)
  delete_uneditable_lem (key ∷ keys) m = elim (Bool-cases (is_editable key)) [
    | inl editable ↦
        rw editable
          (delete_uneditable_lem keys m ∙ keep-cong _ _ m (λ x. spared key keys x editable))
    | inr not_editable ↦ rw not_editable (
        delete_uneditable_lem keys (delete_key key m)
        ∙ keep-keep (λ (x : Text × V). not (mem x.0 keys) || is_editable x.0)
            (λ (x : Text × V). not (text_eq x.0 key)) m
        ∙ keep-cong _ _ m (λ x. deleted key keys x not_editable))
  ]

  own_keys :
      (m : Metadata V) → All (λ (x : Text × V). mem x.0 (map (λ (y : Text × V). y.0) m) ≡ true) m
  own_keys [] = tt
  own_keys (x ∷ m) =
      (ground (arith, text_eq_refl x.0), All-imp _ _ m (λ y h. ground arith) (own_keys m))

  keep-All :
      (p q : Text × V → Bool) (P : Text × V → Type 0) (m : Metadata V)
      → ((x : Text × V) → P x → p x ≡ q x)
      → All P m
      → keep p m ≡ keep q m
  keep-All p q P [] h _ = refl
  keep-All p q P (x ∷ m) h (a, rest) = ground (arith, h x a, keep-All p q P m h rest)

  -- The filtered metadata are the properties with an editable key, in their order, and no other.
  pub filter_only_editable_lem :
      (m : Metadata V) → filter_only_editable m ≡ keep (λ (x : Text × V). is_editable x.0) m
  unfolding filter_only_editable
  filter_only_editable_lem m =
      delete_uneditable_lem (map (λ (x : Text × V). x.0) m) m
      ∙ keep-All _ _ (λ (x : Text × V). mem x.0 (map (λ (y : Text × V). y.0) m) ≡ true) m
          (λ x h. ground arith) (own_keys m)
