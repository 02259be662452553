-- ===== src/Adapter/Normalized.antt =====
-- Normalised tables through the operations of the adapter.
use mallard.Common.{
  ◌≡◌, ap, sym, ◌∙◌, text_eq, eq_of_text_eq, not, ◌&&◌, ◌||◌, some, is_some, eq_of_some,
  Option-cases, Bool-cases, List, [], ◌∷◌, ◌++◌, map, mem, text_Eq, Distinct, Distinct-snoc,
  mem-keep, Distinct-keep, mem-append, if◌then◌else◌, arith, All, inl, inr, mem_of_beq,
}
use mallard.Types.{EntityId, NormalizedState}
use mallard.Adapter.{IsNormalized, Update, KeepsId, EntityAdapter}

module _ {E : Type 0} {select_id : E → EntityId} (adapter : EntityAdapter E select_id) where
  open adapter use {
    update_one, update_many, upsert_one, upsert_many, add_one, add_many, remove_many, remove_all,
  }

  update_one-keyed :
      (u : Update E) (t : NormalizedState E)
      → KeepsId select_id u.1
      → IsNormalized select_id t
      → (j : EntityId) (e : E) → (update_one u t).entities j ≡ some e
      → select_id e ≡ j
  update_one-keyed u t k n j e h =
      let h' = sym (adapter.entities_update_one u t k j) ∙ h in
      elim (Bool-cases (text_eq u.0 j)) [
        | inr other ↦ n.keyed j e (rw other at h')
        | inl here ↦ elim (Option-cases (t.entities j)) [
          | inl missing ↦ ground arith
          | inr (x, found) ↦
              let h'' : some (u.1 x) ≡ some e = ground arith in
              ap select_id (sym (eq_of_some h'')) ∙ k x ∙ n.keyed j x found
        ]
      ]

  pub update_one-IsNormalized :
      (u : Update E) (t : NormalizedState E)
      → KeepsId select_id u.1
      → IsNormalized select_id t
      → IsNormalized select_id (update_one u t)
  update_one-IsNormalized u t k n = record {
    distinct = rw (adapter.ids_update_one u t k) n.distinct;
    listed = λ j.
        ap (mem j) (adapter.ids_update_one u t k)
        ∙ ground (arith, n.listed j, adapter.entities_update_one u t k j);
    keyed = update_one-keyed u t k n;
  }

  pub update_many-IsNormalized :
      (us : List (Update E)) (t : NormalizedState E)
      → All (λ u. KeepsId select_id u.1) us
      → IsNormalized select_id t
      → IsNormalized select_id (update_many us t)
  update_many-IsNormalized [] t _ n = rw (adapter.update_many_nil t) n
  update_many-IsNormalized (u ∷ us) t (k, ks) n =
      rw (adapter.update_many_cons u us t)
        (update_many-IsNormalized us (update_one u t) ks (update_one-IsNormalized u t k n))

  -- Inserting an ID that may be present, as upserts and additions do.
  module _ (i : EntityId) (t t' : NormalizedState E) (n : IsNormalized select_id t)
      (inserted : t'.ids ≡ (if is_some (t.entities i) then t.ids else t.ids ++ i ∷ [])) where
    inserted-Distinct : Distinct t'.ids
    inserted-Distinct = elim (Bool-cases (is_some (t.entities i))) [
      | inl present ↦ rw (inserted, present) n.distinct
      | inr new ↦ rw (inserted, new) (Distinct-snoc t.ids i n.distinct (n.listed i ∙ new))
    ]

    mem-inserted : (j : EntityId) → mem j t'.ids ≡ (mem j t.ids || text_eq i j)
    mem-inserted j = elim (Bool-cases (is_some (t.entities i))) [
      | inl present ↦
          ap (mem j) {y = t.ids} (inserted ∙ rw present)
          ∙ ground (arith, n.listed i, eq_of_text_eq i j, mem_of_beq i j t.ids)
      | inr new ↦
          ap (mem j) {y = t.ids ++ i ∷ []} (inserted ∙ rw new)
          ∙ ground (arith, mem-append j t.ids (i ∷ []))
    ]

  pub upsert_one-IsNormalized :
      (e : E) (t : NormalizedState E)
      → IsNormalized select_id t
      → IsNormalized select_id (upsert_one e t)
  upsert_one-IsNormalized e t n =
      let ids = adapter.ids_upsert_one e t in
      record {
        distinct = inserted-Distinct (select_id e) t (upsert_one e t) n ids;
        listed = λ j.
            mem-inserted (select_id e) t (upsert_one e t) n ids j
            ∙ ground (arith, n.listed j, adapter.entities_upsert_one e t j);
        keyed = λ j x h. elim (Bool-cases (text_eq (select_id e) j)) [
          | inl here ↦
              let same : some e ≡ some x = ground (arith, adapter.entities_upsert_one e t j) in
              ap select_id (sym (eq_of_some same)) ∙ eq_of_text_eq (select_id e) j here
          | inr other ↦ n.keyed j x (ground (arith, adapter.entities_upsert_one e t j))
        ];
      }

  pub add_one-IsNormalized :
      (e : E) (t : NormalizedState E)
      → IsNormalized select_id t
      → IsNormalized select_id (add_one e t)
  add_one-IsNormalized e t n =
      let ids = adapter.ids_add_one e t in
      record {
        distinct = inserted-Distinct (select_id e) t (add_one e t) n ids;
        listed = λ j.
            mem-inserted (select_id e) t (add_one e t) n ids j
            ∙ ground (arith, n.listed j, adapter.entities_add_one e t j);
        keyed = λ j x h.
            elim (Bool-cases (text_eq (select_id e) j && not (is_some (t.entities j)))) [
              | inl here ↦
                  let same : some e ≡ some x = ground (arith, adapter.entities_add_one e t j) in
                  ap select_id (sym (eq_of_some same))
                  ∙ eq_of_text_eq (select_id e) j (ground arith)
              | inr other ↦ n.keyed j x (ground (arith, adapter.entities_add_one e t j))
            ];
      }

  pub add_many-IsNormalized :
      (es : List E) (t : NormalizedState E)
      → IsNormalized select_id t
      → IsNormalized select_id (add_many es t)
  add_many-IsNormalized [] t n = rw (adapter.add_many_nil t) n
  add_many-IsNormalized (e ∷ es) t n =
      rw (adapter.add_many_cons e es t)
        (add_many-IsNormalized es (add_one e t) (add_one-IsNormalized e t n))

  pub upsert_many-IsNormalized :
      (es : List E) (t : NormalizedState E)
      → Distinct (map select_id es)
      → IsNormalized select_id t
      → IsNormalized select_id (upsert_many es t)
  upsert_many-IsNormalized [] t _ n = rw (adapter.upsert_many_nil t) n
  upsert_many-IsNormalized (e ∷ es) t (d, ds) n =
      rw (adapter.upsert_many_cons e es t d)
        (upsert_many-IsNormalized es (upsert_one e t) ds (upsert_one-IsNormalized e t n))

  pub remove_many-IsNormalized :
      (js : List EntityId) (t : NormalizedState E)
      → IsNormalized select_id t
      → IsNormalized select_id (remove_many js t)
  remove_many-IsNormalized js t n = record {
    distinct =
        rw (adapter.ids_remove_many js t n) (Distinct-keep (λ j. not (mem j js)) t.ids n.distinct);
    listed = λ j.
        ap (mem j) (adapter.ids_remove_many js t n)
        ∙ mem-keep (λ j. not (mem j js)) j t.ids
        ∙ ground (arith, n.listed j, adapter.entities_remove_many js t j);
    keyed = λ j e h. n.keyed j e (ground (arith, adapter.entities_remove_many js t j));
  }

  pub remove_all-IsNormalized : (t : NormalizedState E) → IsNormalized select_id (remove_all t)
  remove_all-IsNormalized t = record {
    distinct = rw (adapter.ids_remove_all t) tt;
    listed = λ j.
        ap (mem j) (adapter.ids_remove_all t) ∙ ground (arith, adapter.entities_remove_all t j);
    keyed = λ j e h. ground (arith, adapter.entities_remove_all t j);
  }
