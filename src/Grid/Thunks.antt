-- ===== src/Grid/Thunks.antt =====
-- thumbnail-grid-slice.ts: the action creators that only dispatch. A store holds the slice's state
-- and the object URLs that were revoked, in order; a thunk that throws keeps what it did before.
use mallard.Common.{
  Text, length, map, Option, none, some, Bool, true, false, not, ltb, if◌then◌else◌, List, [], ◌∷◌,
  ◌++◌, is_some,
}
use mallard.Types.{TypedObjectRef, EntityId, ArtifactEntity}
use mallard.Adapter.{EntityAdapter}
use mallard.Grid.State.{ImageViewState, select_id, create_artifact_entity_id}
use mallard.Grid.Reducers.{
  clear_full_sized_images, clear_thumbnails, clear_image_view, select_images, show_details,
  set_exported_images_url,
}
use mallard.Grid.Requests.{add_artifacts_pending, start_new_query_pending}

pub record Store (M : Type 0) : Type 0 where
  pub image_view : ImageViewState M
  pub revoked : List Text

pub data Outcome (M : Type 0) : Type 0 where
  done : Store M → Outcome M
  threw : Store M → Outcome M

infixl 5 ◌>>=◌
abbrev pub ◌>>=◌ : {M : Type 0} → Outcome M → (Store M → Outcome M) → Outcome M
done s >>= f = f s
threw s >>= f = threw s

-- What the loops of the clearing thunks collect, until they meet an unknown artifact.
pub record Cleared : Type 0 where
  pub urls : List Text
  pub cleared_image_ids : List EntityId
  pub threw_error : Bool

-- `if (url) { URL.revokeObjectURL(url); clearedImageIds.push(imageId); }`
unfoldable pub collect : EntityId → Option Text → Cleared → Cleared
collect id none r = r
collect id (some []) r = r
collect id (some (c ∷ u)) r = record r {
  urls = (c ∷ u) ∷ r.urls;
  cleared_image_ids = id ∷ r.cleared_image_ids;
}

module _ {M : Type 0} (url : ArtifactEntity M → Option Text) where
  -- A missing or empty ID is skipped.
  unfoldable pub clear_loop : ImageViewState M → List (Option EntityId) → Cleared
  unfolding collect
  clear_loop s [] = record { urls = []; cleared_image_ids = []; threw_error = false }
  clear_loop s (none ∷ ids) = clear_loop s ids
  clear_loop s (some [] ∷ ids) = clear_loop s ids
  clear_loop s (some (c ∷ id) ∷ ids) =
      let rest = clear_loop s ids in
      elim (s.table.entities (c ∷ id)) [
        | none ↦ record { urls = []; cleared_image_ids = []; threw_error = true }
        | some entity ↦ collect (c ∷ id) (url entity) rest
      ]

  -- The two clearing thunks, with the entity's URL and the action that they dispatch.
  unfoldable pub clear_with :
      (List EntityId → ImageViewState M → ImageViewState M)
      → List (Option EntityId)
      → Store M
      → Outcome M
  unfolding clear_loop
  clear_with action ids store =
      let r = clear_loop store.image_view ids in
      if r.threw_error
      then threw (record store { revoked = store.revoked ++ r.urls })
      else done (record {
        image_view = action r.cleared_image_ids store.image_view;
        revoked = store.revoked ++ r.urls;
      })

module _ {M : Type 0} (adapter : EntityAdapter (ArtifactEntity M) select_id) where
  unfoldable pub thunk_clear_full_sized_images : List (Option EntityId) → Store M → Outcome M
  unfolding clear_with
  thunk_clear_full_sized_images ids =
      clear_with (λ e. e.artifact_url) (clear_full_sized_images adapter) ids

  unfoldable pub thunk_clear_thumbnails : List (Option EntityId) → Store M → Outcome M
  unfolding clear_with
  thunk_clear_thumbnails ids = clear_with (λ e. e.thumbnail_url) (clear_thumbnails adapter) ids

  unfoldable pub thunk_clear_entities : List EntityId → Store M → Outcome M
  thunk_clear_entities ids store = do
    store' ← thunk_clear_full_sized_images (map some ids) store
    thunk_clear_thumbnails (map some ids) store'

  unfoldable pub thunk_clear_image_view : Store M → Outcome M
  thunk_clear_image_view store = do
    let ids = store.image_view.table.ids
    store' ← thunk_clear_thumbnails (map some ids) store
    store'' ← thunk_clear_full_sized_images (map some ids) store'
    done (record store'' { image_view = clear_image_view adapter true store''.image_view })

  -- `entity?.isSelected !== select`, which holds of an unknown artifact too.
  unfoldable pub needs_update : ImageViewState M → Bool → EntityId → Bool
  needs_update s select id = elim (s.table.entities id) [
    | none ↦ true
    | some entity ↦ if select then not entity.is_selected else entity.is_selected
  ]

  -- The loop over `imageIds`.
  unfoldable pub update_ids : ImageViewState M → Bool → List EntityId → List EntityId
  update_ids s select [] = []
  update_ids s select (id ∷ ids) =
      let rest = update_ids s select ids in if needs_update s select id then id ∷ rest else rest

  unfoldable pub thunk_select_images : List EntityId → Bool → ImageViewState M → ImageViewState M
  thunk_select_images ids select s =
      let updates = update_ids s select ids in
      if ltb 0 (length updates) then select_images adapter updates select s else s

  unfoldable pub thunk_select_all : Bool → ImageViewState M → ImageViewState M
  thunk_select_all select s = thunk_select_images s.table.ids select s

  -- The artifact is registered if need be: the pending reducer of `thunkAddArtifacts` runs at once.
  unfoldable pub thunk_show_details : TypedObjectRef → ImageViewState M → ImageViewState M
  thunk_show_details backend_id s =
      let frontend_id = create_artifact_entity_id backend_id.id in
      let known = is_some (s.table.entities frontend_id) in
      show_details adapter frontend_id
        (if known then s else add_artifacts_pending adapter (backend_id ∷ []) s)

  -- Any URL but `null` is revoked and cleared.
  unfoldable pub thunk_clear_exported_images : Store M → Store M
  thunk_clear_exported_images store = elim store.image_view.exported_images_url [
    | none ↦ store
    | some url ↦ record {
      image_view = set_exported_images_url adapter none store.image_view;
      revoked = store.revoked ++ url ∷ [];
    }
  ]

  -- `thunkTextSearch` up to its request: the view is cleared and the query becomes pending.
  unfoldable pub thunk_text_search : Store M → Outcome M
  thunk_text_search store = do
    store' ← thunk_clear_image_view store
    done (record store' { image_view = start_new_query_pending adapter store'.image_view })

  -- `getSelectedImageIds`
  unfoldable pub selected_in : ImageViewState M → List EntityId → List EntityId
  selected_in s [] = []
  selected_in s (id ∷ ids) =
      let rest = selected_in s ids in
      elim (s.table.entities id) [
        | none ↦ rest
        | some entity ↦ if entity.is_selected then id ∷ rest else rest
      ]

  unfoldable pub get_selected_image_ids : ImageViewState M → List EntityId
  unfolding selected_in
  get_selected_image_ids s = selected_in s s.table.ids
