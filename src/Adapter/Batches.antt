-- ===== src/Adapter/Batches.antt =====
-- Counting through updates that each make a change of their own.
use mallard.Common.{
  ◌≡◌, ◌∙◌, ap, length, map, text_Eq, Distinct, Bool, true, false, not, some, List, [], ◌∷◌, All,
  arith,
}
use mallard.Types.{EntityId, NormalizedState}
use mallard.Adapter.{IsNormalized, Update, KeepsId, EntityAdapter}
use mallard.Adapter.Normalized.{update_one-IsNormalized}
use mallard.Adapter.Count.{
  count_entities, flag_at, Shifted, Shifted-trans, count-set_one, flags_stay, count-update_one_same,
}

module _ {E : Type 0} {select_id : E → EntityId} (adapter : EntityAdapter E select_id)
    (p : E → Bool) where
  abbrev pub ids_of : List (Update E) → List EntityId
  ids_of us = map (λ (u : Update E). u.0) us

  -- Updates under distinct IDs that all set a flag, which was the other way before.
  pub count-set_many :
      (b : Bool) (us : List (Update E)) (t : NormalizedState E)
      → IsNormalized select_id t
      → Distinct (ids_of us)
      → All (λ (u : Update E). KeepsId select_id u.1) us
      → All (λ (u : Update E). (e : E) → p (u.1 e) ≡ b) us
      → All (λ j. flag_at p t j ≡ some (not b)) (ids_of us)
      → Shifted b (length us) (count_entities p t) (count_entities p (adapter.update_many us t))
  count-set_many true [] t n _ _ _ _ =
      omega (arith, ap (count_entities p) (adapter.update_many_nil t))
  count-set_many false [] t n _ _ _ _ =
      omega (arith, ap (count_entities p) (adapter.update_many_nil t))
  count-set_many b (u ∷ us) t n (d, ds) (k, ks) (s, ss) (h, hs) =
      Shifted-trans b (length us) _ _ _ _ (ap (count_entities p) (adapter.update_many_cons u us t))
        (count-set_one adapter p (u.1) k b s (u.0) t n h)
        (count-set_many b us (adapter.update_one u t) (update_one-IsNormalized adapter u t k n) ds
          ks ss (flags_stay adapter p (u.1) k (u.0) t (some (not b)) (ids_of us) d hs))

  pub count-update_many_same :
      (us : List (Update E)) (t : NormalizedState E)
      → All (λ (u : Update E). KeepsId select_id u.1) us
      → All (λ (u : Update E). (e : E) → p (u.1 e) ≡ p e) us
      → count_entities p (adapter.update_many us t) ≡ count_entities p t
  count-update_many_same [] t _ _ = ap (count_entities p) (adapter.update_many_nil t)
  count-update_many_same (u ∷ us) t (k, ks) (s, ss) =
      ap (count_entities p) (adapter.update_many_cons u us t)
      ∙ count-update_many_same us (adapter.update_one u t) ks ss
      ∙ count-update_one_same adapter p (u.1) k s (u.0) t
