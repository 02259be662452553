-- ===== src/Adapter.antt =====
-- `createEntityAdapter` of Redux Toolkit: the operations that the slices call, with what its
-- documentation says of them. The slices take it as a parameter.
pub mod Normalized
pub mod Count
pub mod Entities
pub mod Batches
pub mod Steady
pub mod Tables
use mathlib.Core.Option
use mallard.Common.{
  ◌≡◌, Text, text_eq, Bool, true, false, not, Option, none, some, is_some, List, [], ◌∷◌, ◌++◌, map,
  mem, text_Eq, Distinct, keep, if◌then◌else◌, ◌&&◌,
}
use mallard.Types.{EntityId, NormalizedState}

-- Every ID is listed once, and exactly the listed IDs have entities, each under its own ID.
pub record IsNormalized {E : Type 0} (select_id : E → EntityId) (t : NormalizedState E)
    : Type 0 where
  pub distinct : Distinct t.ids
  pub listed : (j : EntityId) → mem j t.ids ≡ is_some (t.entities j)
  pub keyed : (j : EntityId) (e : E) → t.entities j ≡ some e → select_id e ≡ j

-- An update: the ID and the effect of the changes on the entity.
abbrev pub Update : Type 0 → Type 0
Update E = EntityId × (E → E)

-- The changes leave the entity's ID alone.
abbrev pub KeepsId : {E : Type 0} → (E → EntityId) → (E → E) → Type 0
KeepsId {E} select_id f = (e : E) → select_id (f e) ≡ select_id e

pub record EntityAdapter (E : Type 0) (select_id : E → EntityId) : Type 0 where
  pub update_one : Update E → NormalizedState E → NormalizedState E
  pub update_many : List (Update E) → NormalizedState E → NormalizedState E
  pub upsert_one : E → NormalizedState E → NormalizedState E
  pub upsert_many : List E → NormalizedState E → NormalizedState E
  pub add_one : E → NormalizedState E → NormalizedState E
  pub add_many : List E → NormalizedState E → NormalizedState E
  pub remove_many : List EntityId → NormalizedState E → NormalizedState E
  pub remove_all : NormalizedState E → NormalizedState E
  -- An update of an unknown ID is ignored.
  pub ids_update_one :
      (u : Update E) (t : NormalizedState E) → KeepsId select_id u.1 → (update_one u t).ids ≡ t.ids
  pub entities_update_one :
      (u : Update E) (t : NormalizedState E)
      → KeepsId select_id u.1
      → (j : EntityId)
      → (update_one u t).entities j
        ≡ (if text_eq u.0 j then Option.map u.1 (t.entities j) else t.entities j)
  pub update_many_nil : (t : NormalizedState E) → update_many [] t ≡ t
  pub update_many_cons :
      (u : Update E) (us : List (Update E)) (t : NormalizedState E)
      → update_many (u ∷ us) t ≡ update_many us (update_one u t)
  -- An upsert by a whole entity replaces the one with its ID, or appends.
  pub ids_upsert_one :
      (e : E) (t : NormalizedState E)
      → (upsert_one e t).ids
        ≡ (if is_some (t.entities (select_id e)) then t.ids else t.ids ++ select_id e ∷ [])
  pub entities_upsert_one :
      (e : E) (t : NormalizedState E) (j : EntityId)
      → (upsert_one e t).entities j ≡ (if text_eq (select_id e) j then some e else t.entities j)
  pub upsert_many_nil : (t : NormalizedState E) → upsert_many [] t ≡ t
  pub upsert_many_cons :
      (e : E) (es : List E) (t : NormalizedState E)
      → mem (select_id e) (map select_id es) ≡ false
      → upsert_many (e ∷ es) t ≡ upsert_many es (upsert_one e t)
  -- An entity whose ID is present is not added.
  pub ids_add_one :
      (e : E) (t : NormalizedState E)
      → (add_one e t).ids
        ≡ (if is_some (t.entities (select_id e)) then t.ids else t.ids ++ select_id e ∷ [])
  pub entities_add_one :
      (e : E) (t : NormalizedState E) (j : EntityId)
      → (add_one e t).entities j
        ≡ (if text_eq (select_id e) j && not (is_some (t.entities j)) then some e else t.entities j)
  pub add_many_nil : (t : NormalizedState E) → add_many [] t ≡ t
  pub add_many_cons :
      (e : E) (es : List E) (t : NormalizedState E)
      → add_many (e ∷ es) t ≡ add_many es (add_one e t)
  pub ids_remove_many :
      (js : List EntityId) (t : NormalizedState E)
      → IsNormalized select_id t
      → (remove_many js t).ids ≡ keep (λ j. not (mem j js)) t.ids
  pub entities_remove_many :
      (js : List EntityId) (t : NormalizedState E) (j : EntityId)
      → (remove_many js t).entities j ≡ (if mem j js then none else t.entities j)
  pub ids_remove_all : (t : NormalizedState E) → (remove_all t).ids ≡ []
  pub entities_remove_all :
      (t : NormalizedState E) (j : EntityId) → (remove_all t).entities j ≡ none
