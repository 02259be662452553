-- ===== src/Grid/Selected.antt =====
-- thumbnail-grid-slice.ts: `thunkBulkDownloadSelected`, `thunkUpdateSelectedMetadata` and
-- `thunkExportSelected`. Each takes the selected artifacts from the state at the request, and acts on
-- the store at the request's success.
use mallard.Common.{
  ◌+◌, ◌≡◌, refl, ap, sym, ◌∙◌, Text, length, map, Option, none, some, Bool, true, false, List, [],
  ◌∷◌, ◌++◌, arith, All, All-keep, Distinct, Distinct-keep, text_Eq, keep, count,
}
use mathlib.Core.Path.{subst}
use mallard.Common.Int.{pos, ◌-ℤ◌, counter-sub}
use mallard.Types.{RequestState, TypedObjectRef, EntityId, NormalizedState, ArtifactEntity}
use mallard.Adapter.{IsNormalized, EntityAdapter}
use mallard.Adapter.Count.{at_id, count_entities, flag_at}
use mallard.Adapter.Entities.{ids-update_each}
use mallard.Grid.State.{ImageViewState, select_id}
use mallard.Grid.Reducers.{select_images, set_exported_images_url, set_editing_dialog_open}
use mallard.Grid.Requests.{bulk_download_fulfilled, update_metadata_fulfilled}
use mallard.Grid.Thunks.{
  Store, Outcome, done, ◌>>=◌, thunk_select_all, thunk_clear_image_view, get_selected_image_ids,
}
use mallard.Grid.Counters.{
  IsCounted, selected, has_thumbnail, select_images-IsCounted, update_each-IsNormalized,
  counter-same,
}
use mallard.Grid.Selection.{thunk_select_all_lem}
use mallard.Grid.Deletion.{get_selected_image_ids-keep}
use mallard.Grid.Release.{held, image_of, thumbnail_of, thunk_clear_image_view_lem}

-- What `downloadArtifactZip` is given for each artifact. The cast of a missing one is `none`.
pub record DownloadInfo (M : Type 0) : Type 0 where
  pub id : Option TypedObjectRef
  pub metadata : Option M

module _ {M : Type 0} (adapter : EntityAdapter (ArtifactEntity M) select_id) where
  unfoldable pub bulk_download_condition : ImageViewState M → Bool
  bulk_download_condition s = elim s.bulk_download_state [
    | RequestState.idle ↦ true
    | RequestState.loading ↦ false
    | RequestState.succeeded ↦ true
    | RequestState.failed ↦ true
  ]

  unfoldable pub download_info : ImageViewState M → List (DownloadInfo M)
  download_info s =
      map
        (λ id. elim (s.table.entities id) [
          | none ↦ record { id = none; metadata = none }
          | some entity ↦ record { id = some entity.backend_id; metadata = entity.metadata }
        ])
        (get_selected_image_ids adapter s)

  unfoldable pub thunk_bulk_download_selected :
      ImageViewState M → ImageViewState M → ImageViewState M
  thunk_bulk_download_selected at_request s =
      bulk_download_fulfilled adapter
        (select_images adapter (get_selected_image_ids adapter at_request) false s)

  unfoldable pub thunk_update_selected_metadata : M → ImageViewState M → Store M → Outcome M
  thunk_update_selected_metadata metadata at_request store = do
    let ids = get_selected_image_ids adapter at_request
    store' ←
        thunk_clear_image_view adapter
          (record store { image_view = set_editing_dialog_open adapter false store.image_view })
    done (record store' {
      image_view = update_metadata_fulfilled adapter metadata ids store'.image_view;
    })

  unfoldable pub thunk_export_selected : Text → ImageViewState M → ImageViewState M
  thunk_export_selected list_url s =
      thunk_select_all adapter false (set_exported_images_url adapter (some list_url) s)

  length-keep : (p : EntityId → Bool) (xs : List EntityId) → length (keep p xs) ≡ count p xs
  unfolding count
  length-keep p [] = refl
  length-keep p (x ∷ xs) = ground (arith, length-keep p xs)

  -- As many IDs are selected as the table counts.
  length-get_selected_image_ids :
      (s : ImageViewState M)
      → length (get_selected_image_ids adapter s) ≡ count_entities selected s.table
  length-get_selected_image_ids s =
      ap length (get_selected_image_ids-keep adapter s)
      ∙ length-keep (at_id selected s.table) s.table.ids

  deselected :
      (ids : List EntityId) (s : ImageViewState M)
      → (select_images adapter ids false s).num_items_selected
        ≡ s.num_items_selected -ℤ pos (length ids)
  unfolding select_images
  deselected ids s = refl

  -- Where the table is the same when the download is finished, and the counters are right, nothing
  -- is selected afterwards, and the counters are right.
  pub thunk_bulk_download_selected_lem :
      (at_request s : ImageViewState M)
      → at_request.table ≡ s.table
      → IsCounted s
      → ((thunk_bulk_download_selected at_request s).num_items_selected ≡ pos 0)
        × IsCounted (thunk_bulk_download_selected at_request s)
  unfolding thunk_bulk_download_selected bulk_download_fulfilled
  thunk_bulk_download_selected_lem at_request s same c =
      let ids = get_selected_image_ids adapter at_request in
      let chosen : ids ≡ keep (at_id selected s.table) s.table.ids =
        get_selected_image_ids-keep adapter at_request
        ∙ ap (λ (t : NormalizedState (ArtifactEntity M)). keep (at_id selected t) t.ids) same in
      let distinct : Distinct ids =
        subst (λ (js : List EntityId). Distinct js) (sym chosen)
          (Distinct-keep (at_id selected s.table) s.table.ids c.normalized.distinct) in
      let on : All (λ j. flag_at selected s.table j ≡ some true) ids =
        subst (All (λ j. flag_at selected s.table j ≡ some true)) (sym chosen)
          (All-keep _ (at_id selected s.table) (λ j h. ground arith) s.table.ids) in
      let counted = select_images-IsCounted adapter ids false s distinct on c in
      let all_of_them : 0 + length ids ≡ count_entities selected s.table =
        omega (arith, ap length chosen, length-keep (at_id selected s.table) s.table.ids) in
      (
        deselected ids s ∙ counter-sub _ 0 (length ids) s.num_items_selected c.items all_of_them,
        assumption (counted.normalized, counted.items, counted.thumbnails),
      )

  -- Where the counters are right and nothing is selected any more when the download is finished,
  -- the counter of selected items is afterwards 0 less the number of artifacts that were selected
  -- at the request.
  pub thunk_bulk_download_selected-late :
      (at_request s : ImageViewState M)
      → IsCounted s
      → count_entities selected s.table ≡ 0
      → (thunk_bulk_download_selected at_request s).num_items_selected
        ≡ pos 0 -ℤ pos (count_entities selected at_request.table)
  unfolding thunk_bulk_download_selected bulk_download_fulfilled select_images
  thunk_bulk_download_selected-late at_request s c zero_left =
      rw (c.items, zero_left, length-get_selected_image_ids at_request)

  -- Where the counters are right, exporting the selected artifacts makes the counter of selected
  -- items 0, and leaves the counters right.
  pub thunk_export_selected_lem :
      (list_url : Text) (s : ImageViewState M)
      → IsCounted s
      → ((thunk_export_selected list_url s).num_items_selected ≡ pos 0)
        × IsCounted (thunk_export_selected list_url s)
  unfolding thunk_export_selected set_exported_images_url
  thunk_export_selected_lem list_url s c =
      thunk_select_all_lem adapter (record s { exported_images_url = some list_url }) false
        (assumption (c.normalized, c.items, c.thumbnails))

  update_metadata_fulfilled-IsCounted :
      (metadata : M) (ids : List EntityId) (s : ImageViewState M)
      → IsCounted s
      → IsCounted (update_metadata_fulfilled adapter metadata ids s)
  unfolding update_metadata_fulfilled
  update_metadata_fulfilled-IsCounted m ids s c =
      let f : ArtifactEntity M → ArtifactEntity M = λ e. record e { metadata = some m } in
      record {
        normalized = update_each-IsNormalized adapter f (λ e. refl) ids s c;
        items = counter-same adapter selected f (λ e. refl) (λ e. refl) ids s _ c.items;
        thumbnails =
            counter-same adapter has_thumbnail f (λ e. refl) (λ e. refl) ids s _ c.thumbnails;
      }

  ids-update_metadata_fulfilled :
      (metadata : M) (ids : List EntityId) (s : ImageViewState M)
      → (update_metadata_fulfilled adapter metadata ids s).table.ids ≡ s.table.ids
  unfolding update_metadata_fulfilled
  ids-update_metadata_fulfilled m ids s =
      ids-update_each adapter (λ e. record e { metadata = some m }) (λ e. refl) ids s.table

  -- Where the state is normalised when the metadata of the selected artifacts were updated, the
  -- thunk does not throw, the view is empty afterwards, every object URL that it held is revoked,
  -- and the counters are right.
  pub thunk_update_selected_metadata_lem :
      (metadata : M) (at_request : ImageViewState M) (store : Store M)
      → IsNormalized select_id store.image_view.table
      → (s' : ImageViewState M) × (thunk_update_selected_metadata metadata at_request store
          ≡ done (record {
            image_view = s';
            revoked =
                (store.revoked
                  ++ held thumbnail_of store.image_view.table store.image_view.table.ids)
                ++ held image_of store.image_view.table store.image_view.table.ids;
          }))
        × (s'.table.ids ≡ [])
        × IsCounted s'
  unfolding thunk_update_selected_metadata set_editing_dialog_open
  thunk_update_selected_metadata_lem metadata at_request store n =
      let ids = get_selected_image_ids adapter at_request in
      let closed : Store M = record store {
        image_view = record (store.image_view) { editing_dialog_open = false };
      } in
      let (s, cleared, empty, c) = thunk_clear_image_view_lem adapter closed n in
      (
        update_metadata_fulfilled adapter metadata ids s,
        rw cleared,
        ids-update_metadata_fulfilled metadata ids s ∙ empty,
        update_metadata_fulfilled-IsCounted metadata ids s c,
      )
