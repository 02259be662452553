-- ===== src/Grid/Deletion.antt =====
-- thumbnail-grid-slice.ts: `thunkDeleteSelected`, from the request's success on.
use mallard.Common.{
  ◌≡◌, refl, ap, sym, ◌∙◌, Bool, true, false, not, List, [], ◌∷◌, ◌++◌, arith, All, Distinct,
  Distinct-keep, text_Eq, keep, All-keep_of_All, count-keep, keep-ext, mem, mem-keep, count,
  count-none, count-ext,
}
use mathlib.Core.Path.{subst}
use mallard.Common.Int.{pos}
use mallard.Types.{EntityId, NormalizedState, ArtifactEntity}
use mallard.Adapter.{EntityAdapter}
use mallard.Adapter.Count.{at_id}
use mallard.Adapter.Normalized.{remove_many-IsNormalized}
use mallard.Grid.State.{ImageViewState, select_id}
use mallard.Grid.Requests.{delete_selected_fulfilled}
use mallard.Grid.Thunks.{
  Store, Outcome, done, ◌>>=◌, thunk_clear_entities, selected_in, get_selected_image_ids,
}
use mallard.Grid.Counters.{IsCounted, has_thumbnail, selected}
use mallard.Grid.Release.{held, IsLive, All-IsLive, image_of, thumbnail_of}
use mallard.Grid.Freed.{without_both, IsFreed-without_both, thunk_clear_entities_lem}

module _ {M : Type 0} (adapter : EntityAdapter (ArtifactEntity M) select_id) where
  -- The IDs are taken from the state at the request, the rest acts on the store at its success. The
  -- last step is the fulfilled reducer.
  unfoldable pub thunk_delete_selected : ImageViewState M → Store M → Outcome M
  thunk_delete_selected at_request store = do
    let ids = get_selected_image_ids adapter at_request
    store' ← thunk_clear_entities adapter ids store
    done (record store' { image_view = delete_selected_fulfilled adapter ids store'.image_view })

  selected_in-keep :
      (s : ImageViewState M) (ids : List EntityId)
      → selected_in adapter s ids ≡ keep (at_id selected s.table) ids
  unfolding selected_in
  selected_in-keep s [] = refl
  selected_in-keep s (j ∷ ids) = ground (arith, selected_in-keep s ids)

  pub get_selected_image_ids-keep :
      (s : ImageViewState M)
      → get_selected_image_ids adapter s ≡ keep (at_id selected s.table) s.table.ids
  unfolding get_selected_image_ids
  get_selected_image_ids-keep s = selected_in-keep s s.table.ids

  -- What is left of the entities.
  at_id-remove_many :
      (p : ArtifactEntity M → Bool) (ids : List EntityId) (t : NormalizedState (ArtifactEntity M))
      (j : EntityId)
      → mem j ids ≡ false
      → at_id p (adapter.remove_many ids t) j ≡ at_id p t j
  at_id-remove_many p ids t j h = ground (arith, adapter.entities_remove_many ids t j)

  -- Removing the selected artifacts, none of which has a thumbnail.
  delete_selected_fulfilled-IsCounted :
      (ids : List EntityId) (s : ImageViewState M)
      → ((j : EntityId) → mem j s.table.ids ≡ true → mem j ids ≡ at_id selected s.table j)
      → ((j : EntityId) → mem j ids ≡ true → at_id has_thumbnail s.table j ≡ false)
      → IsCounted s
      → IsCounted (delete_selected_fulfilled adapter ids s)
  unfolding delete_selected_fulfilled
  delete_selected_fulfilled-IsCounted ids s selects bare c =
      let t = s.table in
      let kept : EntityId → Bool = λ j. not (mem j ids) in
      let after = adapter.remove_many ids t in
      let remaining = adapter.ids_remove_many ids t c.normalized in
      let both : (j : EntityId)
          → mem j (keep kept t.ids) ≡ true
          → (mem j t.ids ≡ true) × (mem j ids ≡ false) =
        λ j m. (ground (arith, mem-keep kept j t.ids), ground (arith, mem-keep kept j t.ids)) in
      let none_left : (j : EntityId)
          → mem j (keep kept t.ids) ≡ true
          → at_id selected after j ≡ false =
        λ j m.
          at_id-remove_many selected ids t j ((both j m).1)
          ∙ sym (selects j ((both j m).0))
          ∙ (both j m).1 in
      let others : count (at_id has_thumbnail after) (keep kept t.ids)
          ≡ count (at_id has_thumbnail t) t.ids =
        count-ext (at_id has_thumbnail after) (at_id has_thumbnail t) (keep kept t.ids)
          (λ j m. at_id-remove_many has_thumbnail ids t j ((both j m).1))
        ∙ count-keep (at_id has_thumbnail t) kept (λ j h. bare j (ground arith)) t.ids in
      record {
        normalized = remove_many-IsNormalized adapter ids t c.normalized;
        items = ap pos (
            sym (
              ap (count (at_id selected after)) remaining
              ∙ count-none (at_id selected after) (keep kept t.ids) (λ j m. none_left j m)));
        thumbnails =
            c.thumbnails ∙ ap pos (sym (ap (count (at_id has_thumbnail after)) remaining ∙ others));
      }

  ids_left :
      (ids : List EntityId) (s : ImageViewState M)
      → IsCounted s
      → (delete_selected_fulfilled adapter ids s).table.ids
        ≡ keep (λ j. not (mem j ids)) s.table.ids
  unfolding delete_selected_fulfilled
  ids_left ids s c = adapter.ids_remove_many ids s.table c.normalized

  -- Where the table is the same at the request and at its success, and the counters are right,
  -- deleting the selected artifacts does not throw, revokes the URLs of their images and then of
  -- their thumbnails, keeps exactly the IDs of the artifacts that were not selected, in their
  -- order, and leaves the counters right.
  pub thunk_delete_selected_lem :
      (at_request : ImageViewState M) (store : Store M)
      → at_request.table ≡ store.image_view.table
      → IsCounted store.image_view
      → (s' : ImageViewState M) × (thunk_delete_selected at_request store
          ≡ done (record {
            image_view = s';
            revoked =
                (store.revoked
                  ++ held image_of store.image_view.table
                      (get_selected_image_ids adapter at_request))
                ++ held thumbnail_of store.image_view.table
                    (get_selected_image_ids adapter at_request);
          }))
        × (s'.table.ids
            ≡ keep (λ j. not (at_id selected store.image_view.table j)) store.image_view.table.ids)
        × IsCounted s'
  unfolding thunk_delete_selected
  thunk_delete_selected_lem at_request store same c =
      let s = store.image_view in
      let n = c.normalized in
      let ids = get_selected_image_ids adapter at_request in
      let chosen : ids ≡ keep (at_id selected s.table) s.table.ids =
        get_selected_image_ids-keep at_request
        ∙ ap (λ (t : NormalizedState (ArtifactEntity M)). keep (at_id selected t) t.ids) same in
      let is_chosen : (j : EntityId)
          → mem j s.table.ids ≡ true
          → mem j ids ≡ at_id selected s.table j =
        λ j m. ground (arith, ap (mem j) chosen, mem-keep (at_id selected s.table) j s.table.ids) in
      let live : All (IsLive s.table) ids = subst (All (IsLive s.table)) (sym chosen) (
        All-keep_of_All (IsLive s.table) (at_id selected s.table) s.table.ids
          (All-IsLive s.table n)) in
      let distinct : Distinct ids =
        subst (λ (js : List EntityId). Distinct js) (sym chosen)
          (Distinct-keep (at_id selected s.table) s.table.ids n.distinct) in
      let freed = IsFreed-without_both adapter ids s distinct c in
      let s₂ = without_both adapter ids s in
      (
        delete_selected_fulfilled adapter ids s₂,
        rw (thunk_clear_entities_lem adapter ids s store.revoked live),
        ids_left ids s₂ freed.counted
            ∙ ap (keep (λ j. not (mem j ids))) freed.ids_same
            ∙ keep-ext (λ j. not (mem j ids)) (λ j. not (at_id selected s.table j)) s.table.ids
                (λ j m. ap not (is_chosen j m)),
        delete_selected_fulfilled-IsCounted ids s₂
            (λ j m.
              is_chosen j (sym (ap (mem j) freed.ids_same) ∙ m) ∙ sym (freed.selection_same j))
            freed.no_thumbnail_left freed.counted,
      )
