-- ===== src/Adapter/Entities.antt =====
-- The entities after one change was applied to each of a list of IDs.
use mathlib.Core.Option
use mallard.Common.{
  ◌≡◌, ◌∙◌, Option-cases, List, [], ◌∷◌, map, mem, text_Eq, text_eq, true, Bool-cases, All,
  if◌then◌else◌, arith, inl, inr,
}
use mallard.Types.{EntityId, NormalizedState}
use mallard.Adapter.{Update, KeepsId, EntityAdapter}
use mallard.Adapter.Count.{update_each}

module _ {E : Type 0} {select_id : E → EntityId} (adapter : EntityAdapter E select_id) where
  module _ (f : E → E) (keeps : KeepsId select_id f) where
    pub ids-update_each :
        (js : List EntityId) (t : NormalizedState E) → (update_each adapter f js t).ids ≡ t.ids
    ids-update_each [] t = rw (adapter.update_many_nil t)
    ids-update_each (j ∷ js) t =
        rw (adapter.update_many_cons (j, f) (map (λ i. (i, f)) js) t)
          (ids-update_each js (adapter.update_one (j, f) t) ∙ adapter.ids_update_one (j, f) t keeps)

    -- A change that is made twice is made once.
    pub entities-update_each :
        ((e : E) → f (f e) ≡ f e)
        → (js : List EntityId) (t : NormalizedState E) (j : EntityId)
        → (update_each adapter f js t).entities j
          ≡ (if mem j js then Option.map f (t.entities j) else t.entities j)
    entities-update_each idem [] t j = rw (adapter.update_many_nil t)
    entities-update_each idem (k ∷ js) t j =
        rw (adapter.update_many_cons (k, f) (map (λ i. (i, f)) js) t)
          (entities-update_each idem js (adapter.update_one (k, f) t) j ∙ once)
      where
        once :
            (if mem j js
              then Option.map f ((adapter.update_one (k, f) t).entities j)
              else (adapter.update_one (k, f) t).entities j)
            ≡ (if mem j (k ∷ js) then Option.map f (t.entities j) else t.entities j)
        once = elim (Option-cases (t.entities j)) [
          | inl missing ↦ ground (arith, adapter.entities_update_one (k, f) t keeps j)
          | inr (e, found) ↦ ground (arith, adapter.entities_update_one (k, f) t keeps j, idem e)
        ]

    -- What a change leaves alone in an entity, it leaves alone in the table.
    pub map-update_each :
        {A : Type 0} (g : E → A)
        → ((e : E) → f (f e) ≡ f e)
        → ((e : E) → g (f e) ≡ g e)
        → (js : List EntityId) (t : NormalizedState E) (j : EntityId)
        → Option.map g ((update_each adapter f js t).entities j) ≡ Option.map g (t.entities j)
    map-update_each g idem same js t j = elim (Option-cases (t.entities j)) [
      | inl missing ↦ ground (arith, entities-update_each idem js t j)
      | inr (e, found) ↦ ground (arith, entities-update_each idem js t j, same e)
    ]

  -- Updates of which those under one ID all make one change, that is made once.
  pub entities-update_many :
      (f : E → E)
      → ((e : E) → f (f e) ≡ f e)
      → (j : EntityId) (us : List (Update E)) (t : NormalizedState E)
      → All (λ (u : Update E). KeepsId select_id u.1) us
      → All (λ (u : Update E). text_eq u.0 j ≡ true → (e : E) → u.1 e ≡ f e) us
      → (adapter.update_many us t).entities j ≡ (
          if mem j (map (λ (u : Update E). u.0) us)
          then Option.map f (t.entities j)
          else t.entities j)
  entities-update_many f idem j [] t _ _ = rw (adapter.update_many_nil t)
  entities-update_many f idem j (u ∷ us) t (k, ks) (h, hs) =
      rw (adapter.update_many_cons u us t)
        (entities-update_many f idem j us (adapter.update_one u t) ks hs ∙ once)
    where
      once :
          (if mem j (map (λ (u : Update E). u.0) us)
            then Option.map f ((adapter.update_one u t).entities j)
            else (adapter.update_one u t).entities j)
          ≡ (if mem j (map (λ (u : Update E). u.0) (u ∷ us))
              then Option.map f (t.entities j)
              else t.entities j)
      once = elim (Option-cases (t.entities j)) [
        | inl missing ↦ ground (arith, adapter.entities_update_one u t k j)
        | inr (e, found) ↦ elim (Bool-cases (text_eq u.0 j)) [
          | inl here ↦ ground (arith, adapter.entities_update_one u t k j, idem e, h here e)
          | inr other ↦ ground (arith, adapter.entities_update_one u t k j)
        ]
      ]
