-- ===== src/Elements/Section/Selecting.antt =====
-- thumbnail-grid-section.ts: the select button, from the click to the section's properties.
use mallard.Common.{
  ◌≡◌, refl, ap, sym, ◌∙◌, Bool, true, false, Bool-cases, inl, inr, List, [], ◌∷◌, mem, text_Eq,
  All, All-of_mem, ◌≢◌, not, text_eq, eq_of_text_eq, Option-cases, is_some, arith,
}
use mallard.Types.{EntityId, ArtifactEntity, NormalizedState}
use mallard.Adapter.{EntityAdapter}
use mallard.Grid.State.{ImageViewState, select_id}
use mallard.Grid.Thunks.{Store, done, thunk_select_images}
use mallard.Grid.Selection.{IsKnown, entities-thunk_select_images}
use mallard.Elements.Groups.{is_selected}
use mallard.Elements.Section.{ThumbnailGridSection, on_select, all_selected, map_state, dispatch}

module _ {M : Type 0} where
  all_selected-same :
      (t : NormalizedState (ArtifactEntity M)) (b : Bool) (ids : List EntityId)
      → ids ≢ []
      → All (λ j. is_selected (t.entities j) ≡ b) ids
      → all_selected t ids ≡ b
  unfolding all_selected
  all_selected-same t b [] n h = absurd (n refl)
  all_selected-same t true (j ∷ []) n (h, _) = rw h refl
  all_selected-same t false (j ∷ ids) n (h, _) = rw h refl
  all_selected-same t true (j ∷ k ∷ ids) n (h, hs) =
      rw h (all_selected-same t true (k ∷ ids) (λ e. cc) hs)

  IsKnown-of_mem :
      (s : ImageViewState M) (ids : List EntityId)
      → All (IsKnown s) ids
      → (j : EntityId) → mem j ids ≡ true
      → IsKnown s j
  IsKnown-of_mem s [] _ j m = absurd (ground arith)
  IsKnown-of_mem s (i ∷ ids) (h, hs) j m = elim (Bool-cases (text_eq i j)) [
    | inl same ↦ ap (λ k. is_some (s.table.entities k)) (sym (eq_of_text_eq i j same)) ∙ h
    | inr other ↦ IsKnown-of_mem s ids hs j (ground arith)
  ]

  module _ (adapter : EntityAdapter (ArtifactEntity M) select_id)
      (chunk : List EntityId → List (List EntityId)) where
    displayed-selected :
        (s : ImageViewState M) (ids : List EntityId) (b : Bool)
        → All (IsKnown s) ids
        → All (λ j. is_selected ((thunk_select_images adapter ids b s).table.entities j) ≡ b) ids
    displayed-selected s ids b known =
        All-of_mem (λ j. is_selected ((thunk_select_images adapter ids b s).table.entities j) ≡ b)
          ids
          (λ j m. elim (Option-cases (s.table.entities j)) [
            | inl missing ↦ absurd (ground (arith, IsKnown-of_mem s ids known j m))
            | inr (e, found) ↦
                rw (entities-thunk_select_images adapter s b ids j) (rw (m, found) refl)
          ])

    -- Where the section displays artifacts, all in the table, a click on its select button leaves it
    -- and all of them selected if it was not, and not selected if it was, after the section took its
    -- properties from the store anew.
    pub on_select_lem :
        (element : ThumbnailGridSection) (store : Store M)
        → element.displayed_artifacts ≢ []
        → All (IsKnown store.image_view) element.displayed_artifacts
        → (store' : Store M) × (dispatch adapter chunk element (on_select element).1 store
            ≡ done store')
          × ((map_state store'.image_view (on_select element).0).selected ≡ not element.selected)
          × All
              (λ j. is_selected (store'.image_view.table.entities j) ≡ not element.selected)
              element.displayed_artifacts
    unfolding on_select dispatch map_state
    on_select_lem element store some_displayed known =
        let ids = element.displayed_artifacts in
        let b = not element.selected in
        let chosen = displayed-selected store.image_view ids b known in
        let after = thunk_select_images adapter ids b store.image_view in
        (_, refl, all_selected-same after.table b ids some_displayed chosen, chosen)
