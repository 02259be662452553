-- ===== src/Adapter/Count.antt =====
-- Counting the entities that pass a test, through updates.
use mathlib.Core.Option
use mallard.Common.{
  ℕ, suc, ◌+◌, ◌≡◌, ap, sym, ◌∙◌, text_eq, text_eq_refl, Bool, true, false, not, Option, none, some,
  is_some, Option-cases, List, [], ◌∷◌, map, length, mem, text_Eq, Distinct, beq_comm, count,
  count-ext, count-turn_on, if◌then◌else◌, arith, All, inl, inr,
}
use mallard.Types.{EntityId, NormalizedState}
use mallard.Adapter.{IsNormalized, KeepsId, EntityAdapter}
use mallard.Adapter.Normalized.{update_one-IsNormalized}

-- The test on the entity under an ID, false where there is none.
abbrev pub at_id : {E : Type 0} → (E → Bool) → NormalizedState E → EntityId → Bool
at_id p t j = elim (t.entities j) [ none ↦ false | some e ↦ p e ]

abbrev pub count_entities : {E : Type 0} → (E → Bool) → NormalizedState E → ℕ
count_entities p t = count (at_id p t) t.ids

-- The value of a flag under an ID.
abbrev pub flag_at : {E : Type 0} → (E → Bool) → NormalizedState E → EntityId → Option Bool
flag_at p t j = Option.map p (t.entities j)

-- A count went up, or down, by a number.
abbrev pub Shifted : Bool → ℕ → ℕ → ℕ → Type 0
Shifted true k old new = new ≡ old + k
Shifted false k old new = new + k ≡ old

pub Shifted-trans :
    (b : Bool) (k a m c c' : ℕ)
    → c' ≡ c
    → Shifted b 1 a m
    → Shifted b k m c
    → Shifted b (suc k) a c'
Shifted-trans true k a m c c' e h h' = omega arith
Shifted-trans false k a m c c' e h h' = omega arith

module _ {E : Type 0} {select_id : E → EntityId} (adapter : EntityAdapter E select_id) where
  open adapter use {update_one, update_many}

  -- One update applied to each of a list of IDs, as the reducers build them.
  abbrev pub update_each : (E → E) → List EntityId → NormalizedState E → NormalizedState E
  update_each f js t = update_many (map (λ j. (j, f)) js) t

  module _ (p : E → Bool) (f : E → E) (keeps : KeepsId select_id f) where
    -- Where the update leaves the flag alone, so does the table.
    pub count-update_one_same :
        ((e : E) → p (f e) ≡ p e)
        → (i : EntityId) (t : NormalizedState E)
        → count_entities p (update_one (i, f) t) ≡ count_entities p t
    count-update_one_same same i t =
        ap (count (at_id p (update_one (i, f) t))) (adapter.ids_update_one (i, f) t keeps)
        ∙ count-ext (at_id p (update_one (i, f) t)) (at_id p t) t.ids λ j _.
          elim (Option-cases (t.entities j)) [
            | inl missing ↦ ground (arith, adapter.entities_update_one (i, f) t keeps j)
            | inr (e, found) ↦ ground (arith, adapter.entities_update_one (i, f) t keeps j, same e)
          ]

    pub count-update_each_same :
        ((e : E) → p (f e) ≡ p e)
        → (js : List EntityId) (t : NormalizedState E)
        → count_entities p (update_each f js t) ≡ count_entities p t
    count-update_each_same same [] t = ap (count_entities p) (adapter.update_many_nil t)
    count-update_each_same same (j ∷ js) t =
        ap (count_entities p) (adapter.update_many_cons (j, f) (map (λ i. (i, f)) js) t)
        ∙ count-update_each_same same js (update_one (j, f) t)
        ∙ count-update_one_same same j t

    pub flag-update_one :
        (b : Bool)
        → ((e : E) → p (f e) ≡ b)
        → (i : EntityId) (t : NormalizedState E) (j : EntityId)
        → flag_at p (update_one (i, f) t) j
          ≡ (if text_eq i j then Option.map (λ _. b) (t.entities j) else flag_at p t j)
    flag-update_one b sets i t j = elim (Option-cases (t.entities j)) [
      | inl missing ↦ ground (arith, adapter.entities_update_one (i, f) t keeps j)
      | inr (e, found) ↦ ground (arith, adapter.entities_update_one (i, f) t keeps j, sets e)
    ]

    -- What the tables hold under one ID and under the others.
    at_id-update_self :
        (b : Bool)
        → ((e : E) → p (f e) ≡ b)
        → (i : EntityId) (t : NormalizedState E) → flag_at p t i ≡ some (not b)
        → (at_id p (update_one (i, f) t) i ≡ b)
          × (at_id p t i ≡ not b)
          × (is_some (t.entities i) ≡ true)
    at_id-update_self b sets i t h = elim (Option-cases (t.entities i)) [
      | inl missing ↦ absurd (ground arith)
      | inr (e, found) ↦
          let new = adapter.entities_update_one (i, f) t keeps i in
          (ground (arith, new, sets e, text_eq_refl i), ground arith, ground arith)
    ]

    at_id-update_ne :
        (i : EntityId) (t : NormalizedState E) (j : EntityId)
        → text_eq i j ≡ false
        → at_id p (update_one (i, f) t) j ≡ at_id p t j
    at_id-update_ne i t j h = ground (arith, adapter.entities_update_one (i, f) t keeps j)

    pub count-set_one :
        (b : Bool)
        → ((e : E) → p (f e) ≡ b)
        → (i : EntityId) (t : NormalizedState E) → IsNormalized select_id t
        → flag_at p t i ≡ some (not b)
        → Shifted b 1 (count_entities p t) (count_entities p (update_one (i, f) t))
    count-set_one true sets i t n h =
        let t' = update_one (i, f) t in
        let (on, off, present) = at_id-update_self true sets i t h in
        ap (count (at_id p t')) (adapter.ids_update_one (i, f) t keeps)
        ∙ count-turn_on (at_id p t) (at_id p t') i t.ids n.distinct (n.listed i ∙ present) off on
            (λ j k. sym (at_id-update_ne i t j k))
        ∙ omega arith
    count-set_one false sets i t n h =
        let t' = update_one (i, f) t in
        let (off, on, present) = at_id-update_self false sets i t h in
        let ids = ap (count (at_id p t')) (adapter.ids_update_one (i, f) t keeps) in
        let turned =
          count-turn_on (at_id p t') (at_id p t) i t.ids n.distinct (n.listed i ∙ present) off on
            (at_id-update_ne i t) in
        omega (arith, ids, turned)

    -- The flag under the other IDs stays.
    pub flags_stay :
        (i : EntityId) (t : NormalizedState E) (v : Option Bool) (js : List EntityId)
        → mem i js ≡ false
        → All (λ j. flag_at p t j ≡ v) js
        → All (λ j. flag_at p (update_one (i, f) t) j ≡ v) js
    flags_stay i t v [] m _ = tt
    flags_stay i t v (j ∷ js) m (h, hs) = (
      ground (arith, adapter.entities_update_one (i, f) t keeps j, beq_comm i j),
      flags_stay i t v js (ground arith) hs,
    )

    -- Setting the flag of distinct IDs that all have the other value changes the count by their
    -- number.
    pub count-set_each :
        (b : Bool)
        → ((e : E) → p (f e) ≡ b)
        → (js : List EntityId) (t : NormalizedState E) → IsNormalized select_id t
        → Distinct js
        → All (λ j. flag_at p t j ≡ some (not b)) js
        → Shifted b (length js) (count_entities p t) (count_entities p (update_each f js t))
    count-set_each true sets [] t n _ _ =
        omega (arith, ap (count_entities p) (adapter.update_many_nil t))
    count-set_each false sets [] t n _ _ =
        omega (arith, ap (count_entities p) (adapter.update_many_nil t))
    count-set_each b sets (j ∷ js) t n (d, ds) (h, hs) =
        Shifted-trans b (length js) _ _ _ _
          (ap (count_entities p) (adapter.update_many_cons (j, f) (map (λ i. (i, f)) js) t))
          (count-set_one b sets j t n h)
          (count-set_each b sets js (update_one (j, f) t)
            (update_one-IsNormalized adapter (j, f) t keeps n) ds
            (flags_stay j t (some (not b)) js d hs))
