-- ===== src/Elements/ThumbnailGrid/Requesting.antt =====
-- thumbnail-grid.ts: the request for more data, and the state of the element after it.
use mathlib.Core.Option
use mallard.Common.{
  ℕ, ltb, length, ◌≡◌, refl, ap, sym, ◌∙◌, some, is_some, Option-cases, Bool, true, Bool-cases, inl,
  inr, List, [], ◌∷◌, All, All-of_mem, arith, map, text_Eq, Text, ◌+◌, Text, ◌+◌,
}
use mallard.Types.{RequestState, EntityId, ArtifactEntity, NormalizedState}
use mallard.Adapter.{IsNormalized, EntityAdapter}
use mallard.Adapter.Normalized.{remove_all-IsNormalized}
use mallard.Grid.State.{ImageViewState, select_id}
use mallard.Grid.Requests.{start_new_query_pending, continue_query_pending}
use mallard.Grid.Loads.{continue_query_condition, is_next_page}
use mallard.Elements.Groups.{
  ImageData, GroupedImages, sort, image_group, group_after, Browser, Details, KeysToImages,
  add_entity, group_images, sorted_groups,
}
use mallard.Elements.ThumbnailGrid.{
  continue_from, shown, is_loading, ThumbnailGrid, overall_state, is_busy, map_state,
  load_more_data,
}

-- The properties of the element that the loop reads are those of the store.
pub record IsInSync {M : Type 0} (s : ImageViewState M) (element : ThumbnailGrid) : Type 0 where
  pub more : element.has_more_pages ≡ s.current_query_has_more_pages
  pub running : element.is_query_running ≡ ltb 0 (length s.current_query)
  pub page_num : element.query_page_num ≡ s.current_query_options.page_num

module _ (browser : Browser) {M : Type 0} (details : Details M) where
  group_images-total :
      (t : NormalizedState (ArtifactEntity M)) (ids : List EntityId) (groups : KeysToImages)
      → All (λ j. is_some (t.entities j) ≡ true) ids
      → (groups' : KeysToImages) × (group_images details t ids groups ≡ some groups')
  unfolding group_images
  group_images-total t [] groups _ = (groups, refl)
  group_images-total t (id ∷ ids) groups (h, hs) = elim (Option-cases (t.entities id)) [
    | inl missing ↦ ground arith
    | inr (e, known) ↦
        let (groups', done) =
          group_images-total t ids (add_entity details id e.metadata groups) hs in
        (groups', rw (known, group_images) done)
  ]

  sorted_groups-total :
      (t : NormalizedState (ArtifactEntity M)) (ids : List EntityId)
      → All (λ j. is_some (t.entities j) ≡ true) ids
      → (groups : List GroupedImages) × (sorted_groups browser details ids t ≡ some groups)
  unfolding sorted_groups
  sorted_groups-total t ids h =
      let (groups, done) = group_images-total t ids [] h in
      (
        _,
        ap
            (λ o.
              Option.map (sort (group_after browser))
                (Option.map (map (λ (g : Text × ImageData). image_group browser g.1)) o))
            done,
      )

  -- While a query loads, so does the element.
  pub map_state-busy :
      (s : ImageViewState M) (element : ThumbnailGrid)
      → IsNormalized select_id s.table
      → s.current_query_state ≡ RequestState.loading
      → (element' : ThumbnailGrid) × (map_state browser details s element ≡ some element')
        × (is_busy element' ≡ true)
  unfolding map_state is_busy overall_state
  map_state-busy s element n loading =
      let (groups, grouped) =
        sorted_groups-total s.table s.table.ids
          (All-of_mem _ s.table.ids (λ j m. sym (n.listed j) ∙ m)) in
      let busy : (m : RequestState) (b : Bool)
          → overall_state s.current_query_state m b ≡ RequestState.loading =
        λ m b. rw loading refl in
      (
        shown browser details s element groups,
        ap (Option.map (shown browser details s element)) grouped,
        ap is_loading (busy s.metadata_loading_state (ltb 0 (length s.table.ids))),
      )

  module _ (adapter : EntityAdapter (ArtifactEntity M) select_id) where
    abbrev Loads : ImageViewState M → Type 0
    Loads s = (s.current_query_state ≡ RequestState.loading) × IsNormalized select_id s.table

    continue_from-Loads :
        (n : ℕ) (s : ImageViewState M)
        → IsNormalized select_id s.table
        → continue_query_condition (n + 1) s ≡ true
        → Loads (continue_from browser details adapter (some n) s)
    unfolding continue_from continue_query_pending
    continue_from-Loads n s normal h = rw h (refl, normal)

    next_page : (n : ℕ) → is_next_page (n + 1) (some n) ≡ true
    unfolding is_next_page
    next_page n = ground arith

    condition_holds :
        (s : ImageViewState M) (page : ℕ)
        → ltb 0 (length s.current_query) ≡ true
        → s.current_query_has_more_pages ≡ true
        → s.current_query_options.page_num ≡ some page
        → continue_query_condition (page + 1) s ≡ true
    unfolding continue_query_condition
    condition_holds s page running more found = rw (running, more, found) (next_page page)

    pub load_more_data-Loads :
        (s : ImageViewState M) (element : ThumbnailGrid)
        → IsNormalized select_id s.table
        → IsInSync s element
        → element.has_more_pages ≡ true
        → (element.is_query_running ≡ true → is_some element.query_page_num ≡ true)
        → Loads (load_more_data browser details adapter element s)
    unfolding load_more_data start_new_query_pending
    load_more_data-Loads s element n sync more numbered =
        elim (Bool-cases element.is_query_running) [
          | inr new ↦ rw new (refl, remove_all-IsNormalized adapter s.table)
          | inl running ↦ elim (Option-cases element.query_page_num) [
            | inl missing ↦ ground (arith, numbered running)
            | inr (page, found) ↦
                rw (running, found) (continue_from-Loads page s n (condition page running found))
          ]
        ]
      where
        condition :
            (page : ℕ)
            → element.is_query_running ≡ true
            → element.query_page_num ≡ some page
            → continue_query_condition (page + 1) s ≡ true
        condition page running found =
            condition_holds s page (sym sync.running ∙ running) (sym sync.more ∙ more)
              (sym sync.page_num ∙ found)
