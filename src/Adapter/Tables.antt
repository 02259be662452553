-- ===== src/Adapter/Tables.antt =====
-- An adapter that fills the interface, for the tests: the operations of `createEntityAdapter` on the
-- modelled table, without a sort order.
use mathlib.Core.Option
use mallard.Common.{
  refl, text_eq, not, ◌&&◌, none, some, is_some, List, [], ◌∷◌, ◌++◌, mem, text_Eq, keep,
  if◌then◌else◌,
}
use mallard.Types.{EntityId, NormalizedState}
use mallard.Adapter.{Update, EntityAdapter}

module _ {E : Type 0} (select_id : E → EntityId) where
  abbrev Table : Type 0
  Table = NormalizedState E

  abbrev update : Update E → Table → Table
  update u t = record {
    ids = t.ids;
    entities = λ j. if text_eq u.0 j then Option.map u.1 (t.entities j) else t.entities j;
  }

  abbrev insert_id : E → Table → List EntityId
  insert_id e t = if is_some (t.entities (select_id e)) then t.ids else t.ids ++ select_id e ∷ []

  abbrev upsert : E → Table → Table
  upsert e t = record {
    ids = insert_id e t;
    entities = λ j. if text_eq (select_id e) j then some e else t.entities j;
  }

  abbrev add : E → Table → Table
  add e t = record {
    ids = insert_id e t;
    entities = λ j.
        if text_eq (select_id e) j && not (is_some (t.entities j)) then some e else t.entities j;
  }

  abbrev remove : List EntityId → Table → Table
  remove js t = record {
    ids = keep (λ j. not (mem j js)) t.ids;
    entities = λ j. if mem j js then none else t.entities j;
  }

  -- One operation for each element, from the left.
  abbrev each : {A : Type 0} → (A → Table → Table) → List A → Table → Table
  each op [] t = t
  each op (a ∷ rest) t = each op rest (op a t)

  abbrev pub tables : EntityAdapter E select_id
  tables = record {
    update_one = update;
    update_many = each update;
    upsert_one = upsert;
    upsert_many = each upsert;
    add_one = add;
    add_many = each add;
    remove_many = remove;
    remove_all = λ t. record { ids = []; entities = λ _. none };
    ids_update_one = λ u t k. refl;
    entities_update_one = λ u t k j. refl;
    update_many_nil = λ t. refl;
    update_many_cons = λ u us t. refl;
    ids_upsert_one = λ e t. refl;
    entities_upsert_one = λ e t j. refl;
    upsert_many_nil = λ t. refl;
    upsert_many_cons = λ e es t m. refl;
    ids_add_one = λ e t. refl;
    entities_add_one = λ e t j. refl;
    add_many_nil = λ t. refl;
    add_many_cons = λ e es t. refl;
    ids_remove_many = λ js t n. refl;
    entities_remove_many = λ js t j. refl;
    ids_remove_all = λ t. refl;
    entities_remove_all = λ t j. refl;
  }
