-- ===== src/Adapter/Steady.antt =====
-- Updates that leave a flag as it is, and additions, seen by a count.
use mallard.Common.{
  ◌+◌, ◌≡◌, ap, sym, ◌∙◌, text_eq, text_eq_refl, eq_of_text_eq, length, map, mem, text_Eq, Distinct,
  Bool, false, none, some, Bool-cases, List, [], ◌∷◌, ◌++◌, All, All-imp, arith, inl, inr,
  if◌then◌else◌, count, count-ext, count-append, beq_comm,
}
use mallard.Types.{EntityId, NormalizedState}
use mallard.Adapter.{IsNormalized, Update, KeepsId, EntityAdapter}
use mallard.Adapter.Normalized.{add_one-IsNormalized}
use mallard.Adapter.Count.{at_id, count_entities, flag_at, flag-update_one}

module _ {E : Type 0} {select_id : E → EntityId} (adapter : EntityAdapter E select_id)
    (p : E → Bool) where
  -- An update that sets a flag to what it is.
  flag-steady :
      (b : Bool) (u : Update E) (t : NormalizedState E)
      → KeepsId select_id u.1
      → ((e : E) → p (u.1 e) ≡ b)
      → flag_at p t u.0 ≡ some b
      → (j : EntityId) → flag_at p (adapter.update_one u t) j ≡ flag_at p t j
  flag-steady b u t k sets h j = elim (Bool-cases (text_eq u.0 j)) [
    | inl here ↦
        let at_j : flag_at p t j ≡ some b = ap (flag_at p t) (sym (eq_of_text_eq u.0 j here)) ∙ h in
        ground (arith, flag-update_one adapter p (u.1) k b sets (u.0) t j)
    | inr other ↦ ground (arith, flag-update_one adapter p (u.1) k b sets (u.0) t j)
  ]

  at_id_of_flag :
      (t t' : NormalizedState E) (j : EntityId)
      → flag_at p t j ≡ flag_at p t' j
      → at_id p t j ≡ at_id p t' j
  at_id_of_flag t t' j h = ground arith

  pub count-steady_one :
      (b : Bool) (u : Update E) (t : NormalizedState E)
      → KeepsId select_id u.1
      → ((e : E) → p (u.1 e) ≡ b)
      → flag_at p t u.0 ≡ some b
      → count_entities p (adapter.update_one u t) ≡ count_entities p t
  count-steady_one b u t k sets h =
      ap (count (at_id p (adapter.update_one u t))) (adapter.ids_update_one u t k)
      ∙ count-ext _ (at_id p t) t.ids
          (λ j m. at_id_of_flag (adapter.update_one u t) t j (flag-steady b u t k sets h j))

  pub count-steady :
      (b : Bool) (us : List (Update E)) (t : NormalizedState E)
      → All (λ (u : Update E). KeepsId select_id u.1) us
      → All (λ (u : Update E). (e : E) → p (u.1 e) ≡ b) us
      → All (λ (u : Update E). flag_at p t u.0 ≡ some b) us
      → count_entities p (adapter.update_many us t) ≡ count_entities p t
  count-steady b [] t _ _ _ = ap (count_entities p) (adapter.update_many_nil t)
  count-steady b (u ∷ us) t (k, ks) (s, ss) (h, hs) =
      ap (count_entities p) (adapter.update_many_cons u us t)
      ∙ count-steady b us (adapter.update_one u t) ks ss
          (All-imp _ _ us (λ v g. flag-steady b u t k s h v.0 ∙ g) hs)
      ∙ count-steady_one b u t k s h

  -- An added entity is counted with the others.
  pub count-add_one :
      (e : E) (t : NormalizedState E)
      → IsNormalized select_id t
      → t.entities (select_id e) ≡ none
      → count_entities p (adapter.add_one e t) ≡ count_entities p t + (if p e then 1 else 0)
  unfolding count
  count-add_one e t n fresh =
      let t' = adapter.add_one e t in
      let same : count (at_id p t') t.ids ≡ count (at_id p t) t.ids =
        count-ext (at_id p t') (at_id p t) t.ids
          (λ j m. ground (arith, adapter.entities_add_one e t j, n.listed j)) in
      let new : at_id p t' (select_id e) ≡ p e =
        ground (arith, adapter.entities_add_one e t (select_id e), text_eq_refl (select_id e)) in
      let ids : t'.ids ≡ t.ids ++ select_id e ∷ [] = ground (arith, adapter.ids_add_one e t) in
      ap (count (at_id p t')) ids
      ∙ count-append (at_id p t') t.ids (select_id e ∷ [])
      ∙ ground (arith, same, new)

-- Entities with distinct IDs, none of which is in the table.
module _ {E : Type 0} {select_id : E → EntityId} (adapter : EntityAdapter E select_id) where
  fresh_after :
      (e : E) (t : NormalizedState E) (es : List E)
      → mem (select_id e) (map select_id es) ≡ false
      → All (λ x. t.entities (select_id x) ≡ none) es
      → All (λ x. (adapter.add_one e t).entities (select_id x) ≡ none) es
  fresh_after e t [] _ _ = tt
  fresh_after e t (x ∷ es) h (f, fs) = (
    ground
        (arith, adapter.entities_add_one e t (select_id x), beq_comm (select_id e) (select_id x)),
    fresh_after e t es (ground arith) fs,
  )

  pub count-add_many :
      (p : E → Bool) (b : Bool) (es : List E) (t : NormalizedState E)
      → IsNormalized select_id t
      → Distinct (map select_id es)
      → All (λ e. t.entities (select_id e) ≡ none) es
      → All (λ e. p e ≡ b) es
      → count_entities p (adapter.add_many es t) ≡ count_entities p t + (if b then length es else 0)
  count-add_many p b [] t n _ _ _ = ground (arith, ap (count_entities p) (adapter.add_many_nil t))
  count-add_many p b (e ∷ es) t n (d, ds) (f, fs) (s, ss) =
      let rest =
        count-add_many p b es (adapter.add_one e t) (add_one-IsNormalized adapter e t n) ds
          (fresh_after e t es d fs) ss in
      let one = count-add_one adapter p e t n f in
      ap (count_entities p) (adapter.add_many_cons e es t) ∙ ground (arith, rest, one)
