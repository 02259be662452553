-- ===== src/Grid/Selection.antt =====
-- thumbnail-grid-slice.ts: `thunkSelectImages` and `thunkSelectAll`.
use mathlib.Core.Option
use mallard.Common.{
  ◌≡◌, refl, ap, sym, ◌∙◌, length, some, is_some, Option-cases, Bool-cases, Bool, true, false, not,
  List, [], ◌∷◌, arith, All, Distinct, text_Eq, keep, Distinct-keep, mem, mem-keep, ltb,
  if◌then◌else◌, inl, inr, ◌&&◌, count, All-of_mem, count-all, count-none,
}
use mallard.Common.Int.{pos}
use mallard.Types.{EntityId, ArtifactEntity}
use mallard.Adapter.{IsNormalized, EntityAdapter}
use mallard.Adapter.Count.{flag_at, at_id}
use mallard.Adapter.Entities.{ids-update_each, entities-update_each}
use mallard.Grid.State.{ImageViewState, select_id}
use mallard.Grid.Reducers.{select_images}
use mallard.Grid.Thunks.{needs_update, update_ids, thunk_select_images, thunk_select_all}
use mallard.Grid.Counters.{selected, IsCounted, select_images-IsCounted}

-- The artifact is in the state.
abbrev pub IsKnown : {M : Type 0} → ImageViewState M → EntityId → Type 0
IsKnown s j = is_some (s.table.entities j) ≡ true

same_selection :
    {M : Type 0} (e : ArtifactEntity M) (select : Bool)
    → (if select then not e.is_selected else e.is_selected) ≡ false
    → record e { is_selected = select } ≡ e
same_selection e true h =
    let q : true ≡ e.is_selected = ground arith in λ i. record e { is_selected = q i }
same_selection e false h =
    let q : false ≡ e.is_selected = ground arith in λ i. record e { is_selected = q i }

mem-nil_of_length :
    (j : EntityId) (xs : List EntityId) → ltb 0 (length xs) ≡ false → mem j xs ≡ false
mem-nil_of_length j [] h = refl
mem-nil_of_length j (x ∷ xs) h = absurd (ground arith)

module _ {M : Type 0} (adapter : EntityAdapter (ArtifactEntity M) select_id) (s : ImageViewState M)
    (select : Bool) where
  abbrev set_selected : ArtifactEntity M → ArtifactEntity M
  set_selected e = record e { is_selected = select }

  update_ids-keep :
      (ids : List EntityId)
      → update_ids adapter s select ids ≡ keep (needs_update adapter s select) ids
  unfolding update_ids
  update_ids-keep [] = refl
  update_ids-keep (id ∷ ids) = rw (update_ids-keep ids)

  flag_of_needs_update :
      (j : EntityId)
      → IsKnown s j
      → needs_update adapter s select j ≡ true
      → flag_at selected s.table j ≡ some (not select)
  unfolding needs_update
  flag_of_needs_update j known h = ground arith

  update_ids-flags :
      (ids : List EntityId)
      → All (IsKnown s) ids
      → All (λ j. flag_at selected s.table j ≡ some (not select)) (update_ids adapter s select ids)
  unfolding update_ids
  update_ids-flags [] _ = tt
  update_ids-flags (id ∷ ids) (k, ks) = elim (Bool-cases (needs_update adapter s select id)) [
    | inl h ↦ rw h (flag_of_needs_update id k h, update_ids-flags ids ks)
    | inr h ↦ rw h (update_ids-flags ids ks)
  ]

  -- Where the counters are right, selecting or deselecting distinct artifacts of the state keeps
  -- them right, whatever the selection of those artifacts was.
  pub thunk_select_images-IsCounted :
      (ids : List EntityId)
      → Distinct ids
      → All (IsKnown s) ids
      → IsCounted s
      → IsCounted (thunk_select_images adapter ids select s)
  unfolding thunk_select_images
  thunk_select_images-IsCounted ids d known c =
      let updates = update_ids adapter s select ids in
      elim (Bool-cases (ltb 0 (length updates))) [
        | inl some_update ↦ rw some_update (
            select_images-IsCounted adapter updates select s
              (rw (update_ids-keep ids) (Distinct-keep (needs_update adapter s select) ids d))
              (update_ids-flags ids known) c)
        | inr no_update ↦ rw no_update c
      ]

  -- Setting a selection that is there already changes nothing.
  set_selected_same :
      (j : EntityId)
      → needs_update adapter s select j ≡ false
      → Option.map set_selected (s.table.entities j) ≡ s.table.entities j
  unfolding needs_update
  set_selected_same j h = elim (Option-cases (s.table.entities j)) [
    | inl missing ↦ rw missing
    | inr (e, found) ↦ rw found (ap some (same_selection e select (rw (found, needs_update) at h)))
  ]

  mem-update_ids :
      (j : EntityId) (ids : List EntityId)
      → mem j (update_ids adapter s select ids) ≡ (mem j ids && needs_update adapter s select j)
  mem-update_ids j ids =
      ap (mem j) (update_ids-keep ids) ∙ mem-keep (needs_update adapter s select) j ids

  spread_updates :
      (ids : List EntityId) (j : EntityId)
      → (if mem j (update_ids adapter s select ids)
          then Option.map set_selected (s.table.entities j)
          else s.table.entities j)
        ≡ (if mem j ids then Option.map set_selected (s.table.entities j) else s.table.entities j)
  spread_updates ids j = elim (Bool-cases (needs_update adapter s select j)) [
    | inl h ↦ ground (arith, mem-update_ids j ids)
    | inr h ↦ ground (arith, mem-update_ids j ids, set_selected_same j h)
  ]

  -- After the thunk exactly the given artifacts have the given selection; the others, and all the
  -- other data of an artifact, are as before.
  pub entities-thunk_select_images :
      (ids : List EntityId) (j : EntityId)
      → (thunk_select_images adapter ids select s).table.entities j
        ≡ (if mem j ids then Option.map set_selected (s.table.entities j) else s.table.entities j)
  unfolding thunk_select_images select_images
  entities-thunk_select_images ids j =
      let updates = update_ids adapter s select ids in
      elim (Bool-cases (ltb 0 (length updates))) [
        | inl some_update ↦ rw some_update (
            entities-update_each adapter set_selected (λ e. refl) (λ e. refl) updates s.table j
            ∙ spread_updates ids j)
        | inr no_update ↦ rw no_update (
            ap
              (λ (b : Bool).
                if b then Option.map set_selected (s.table.entities j) else s.table.entities j)
              (sym (mem-nil_of_length j updates no_update))
            ∙ spread_updates ids j)
      ]

  ids-thunk_select_images :
      (ids : List EntityId) → (thunk_select_images adapter ids select s).table.ids ≡ s.table.ids
  unfolding thunk_select_images select_images
  ids-thunk_select_images ids =
      let updates = update_ids adapter s select ids in
      elim (Bool-cases (ltb 0 (length updates))) [
        | inl some_update ↦
            rw some_update (ids-update_each adapter set_selected (λ e. refl) updates s.table)
        | inr no_update ↦ rw no_update
      ]

  All-IsKnown : IsNormalized select_id s.table → All (IsKnown s) s.table.ids
  All-IsKnown n = All-of_mem (IsKnown s) s.table.ids (λ j m. sym (n.listed j) ∙ m)

  selected_after :
      (j : EntityId)
      → IsNormalized select_id s.table
      → mem j s.table.ids ≡ true
      → at_id selected (thunk_select_all adapter select s).table j ≡ select
  unfolding thunk_select_all
  selected_after j n m = elim (Option-cases (s.table.entities j)) [
    | inl missing ↦ absurd (ground (arith, n.listed j))
    | inr (e, found) ↦ ground (arith, entities-thunk_select_images s.table.ids j)
  ]

  thunk_select_all-IsCounted : IsCounted s → IsCounted (thunk_select_all adapter select s)
  unfolding thunk_select_all
  thunk_select_all-IsCounted c =
      thunk_select_images-IsCounted s.table.ids c.normalized.distinct (All-IsKnown c.normalized) c

  ids-thunk_select_all : (thunk_select_all adapter select s).table.ids ≡ s.table.ids
  unfolding thunk_select_all
  ids-thunk_select_all = ids-thunk_select_images s.table.ids

  count-thunk_select_all :
      IsNormalized select_id s.table
      → count (at_id selected (thunk_select_all adapter select s).table) s.table.ids
        ≡ (if select then length s.table.ids else 0)
  count-thunk_select_all n =
      let after = at_id selected (thunk_select_all adapter select s).table in
      elim (Bool-cases select) [
        | inl h ↦
            count-all after s.table.ids (λ j m. selected_after j n m ∙ h)
            ∙ ap (λ (b : Bool). if b then length s.table.ids else 0) (sym h)
        | inr h ↦
            count-none after s.table.ids (λ j m. selected_after j n m ∙ h)
            ∙ ap (λ (b : Bool). if b then length s.table.ids else 0) (sym h)
      ]

  -- Where the counters are right, selecting all makes the counter of selected items the number of
  -- artifacts, deselecting all makes it 0, and the counters are right afterwards.
  pub thunk_select_all_lem :
      IsCounted s
      → ((thunk_select_all adapter select s).num_items_selected
          ≡ pos (if select then length s.table.ids else 0))
        × IsCounted (thunk_select_all adapter select s)
  thunk_select_all_lem c =
      let counted = thunk_select_all-IsCounted c in
      let after = at_id selected (thunk_select_all adapter select s).table in
      (
        counted.items
            ∙ ap pos (ap (count after) ids-thunk_select_all ∙ count-thunk_select_all c.normalized),
        counted,
      )
