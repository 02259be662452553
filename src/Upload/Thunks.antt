-- ===== src/Upload/Thunks.antt =====
-- upload-slice.ts: the asynchronous action creators, as what they answer for the state and for what
-- the browser and the gateway answer, and `thunkFinishUpload` as what it does.
use mallard.Common.{
  ◌>>=◌, Text, Option, none, some, Bool, true, false, not, if◌then◌else◌, List, [], ◌∷◌, ◌++◌,
}
use mallard.Types.{ObjectType, image, video, ObjectRef, TypedObjectRef, EntityId}
use mallard.Adapter.{EntityAdapter}
use mallard.Upload.State.{
  MetadataInferenceStatus, FrontendFileEntity, Metadata, UploadState, select_id,
}
use mallard.Upload.Reducers.{FileIdWithData, dialog_closed}

abbrev pub is_image : ObjectType → Bool
is_image image = true
is_image _ = false

-- What a finished upload asks of the outside, in order.
pub data Effect (V : Type 0) : Type 0 where
  batch_update : Option (Metadata V) → List TypedObjectRef → Effect V
  revoke_object_url : Text → Effect V
  clear_image_view : Effect V

-- The effects of a thunk or of a step of it, and whether it throws after them.
pub record Step (V : Type 0) : Type 0 where
  pub effects : List (Effect V)
  pub thrown : Bool

module _ {V : Type 0} where
  -- `thunkPreProcessFiles`: `thumbnail` is the object URL of the resized file. A missing file entity
  -- throws.
  unfoldable pub pre_process_files :
      (EntityId → Text) → List EntityId → UploadState V → Option (List FileIdWithData)
  pre_process_files thumbnail [] s = some []
  pre_process_files thumbnail (id ∷ ids) s =
      let rest = pre_process_files thumbnail ids s in
      do
        entity ← s.table.entities id
        others ← rest
        some (
            record {
              id = id;
              data_url = if is_image entity.type then some (thumbnail entity.id) else none;
            }
            ∷ others)

  -- `thunkUploadFile`: `create_image` and `create_video` are the gateway's new objects.
  unfoldable pub upload_file :
      (EntityId → ObjectRef)
      → (EntityId → ObjectRef)
      → EntityId
      → UploadState V
      → Option TypedObjectRef
  upload_file create_image create_video file_id s = do
    entity ← s.table.entities file_id
    some (
        if is_image entity.type
        then record { id = create_image file_id; type = image }
        else record { id = create_video file_id; type = video })

  unfoldable pub infer_metadata :
      (EntityId → Metadata V)
      → (EntityId → Metadata V)
      → EntityId
      → UploadState V
      → Option (Metadata V)
  infer_metadata infer_image_metadata infer_video_metadata file_id s = do
    entity ← s.table.entities file_id
    some (
        if is_image entity.type then infer_image_metadata file_id else infer_video_metadata file_id)

  -- The condition of `thunkInferMetadata`.
  unfoldable pub infer_metadata_condition : UploadState V → Bool
  infer_metadata_condition s = elim s.metadata_status [
    | MetadataInferenceStatus.not_started ↦ true
    | MetadataInferenceStatus.loading ↦ false
    | MetadataInferenceStatus.complete ↦ false
  ]

  -- The references in `updateMetadataFromState`. A file without one gives `undefined`, on which
  -- `batchUpdateMetadata` throws when it reads the type.
  unfoldable pub object_refs : UploadState V → List EntityId → Option (List TypedObjectRef)
  object_refs s [] = some []
  object_refs s (id ∷ ids) =
      let rest = object_refs s ids in
      do file ← s.table.entities id; ref ← file.backend_ref; others ← rest; some (ref ∷ others)

  -- One round of the loop that releases thumbnails. An empty URL is falsy.
  abbrev pub release_url : Option Text → List (Effect V)
  release_url none = []
  release_url (some []) = []
  release_url (some (c ∷ u)) = revoke_object_url (c ∷ u) ∷ []

  -- `selectAll` leaves out what the table does not hold.
  abbrev pub release_thumbnail : Option (FrontendFileEntity V) → List (Effect V)
  release_thumbnail none = []
  release_thumbnail (some file) = release_url file.thumbnail_url

  -- `selectAll`, and the loop that releases the thumbnails of its files.
  unfoldable pub revocations : UploadState V → List EntityId → List (Effect V)
  revocations s [] = []
  revocations s (id ∷ ids) = release_thumbnail (s.table.entities id) ++ revocations s ids

  -- `updateMetadataFromState`: `accepts` tells whether the requests of `batchUpdateMetadata` are
  -- fulfilled. It throws before it sends anything where a file has no reference.
  unfoldable pub update_metadata_from_state :
      (Option (Metadata V) → List TypedObjectRef → Bool) → UploadState V → List EntityId → Step V
  unfolding object_refs
  update_metadata_from_state accepts s file_ids = elim (object_refs s file_ids) [
    | none ↦ record { effects = []; thrown = true }
    | some refs ↦ record {
      effects = batch_update s.metadata refs ∷ [];
      thrown = not (accepts s.metadata refs);
    }
  ]

  -- The first step of `thunkFinishUpload`.
  unfoldable pub metadata_update :
      (Option (Metadata V) → List TypedObjectRef → Bool) → UploadState V → Step V
  unfolding update_metadata_from_state
  metadata_update accepts s =
      if s.metadata_changed
      then update_metadata_from_state accepts s s.table.ids
      else record { effects = []; thrown = false }

  -- `thunkFinishUpload`: what it asks of the outside and whether it throws, and the slice's state
  -- after it. It reads the state `s` at its start, and `later` is the state when the update of the
  -- metadata has settled.
  unfoldable pub finish_upload :
      EntityAdapter (FrontendFileEntity V) select_id
      → (Option (Metadata V) → List TypedObjectRef → Bool)
      → UploadState V
      → UploadState V
      → Step V × UploadState V
  unfolding metadata_update revocations
  finish_upload adapter accepts s later =
      let update = metadata_update accepts s in
      if update.thrown then (update, later) else (
        record {
          effects = update.effects ++ revocations s s.table.ids ++ clear_image_view ∷ [];
          thrown = false;
        },
        dialog_closed adapter later,
      )
