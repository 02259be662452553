-- ===== src/Upload/State.antt =====
-- types.ts: the state of the upload flow, and `filterOnlyEditable`. A metadata object is the list of
-- its properties; the values of properties, and the progress of an upload, are only passed on.
use mallard.Common.{
  Text, codes, ℕ, Option, none, Bool, false, List, [], ◌∷◌, mem, map, not, text_eq, text_Eq, keep,
  if◌then◌else◌,
}
use mallard.Common.Int.{ℤ, pos}
use mallard.Types.{ObjectType, TypedObjectRef, EntityId, NormalizedState}

pub data FileStatus : Type 0 where
  pending pre_processing awaiting_upload uploading complete : FileStatus

pub data UploadWorkflowStatus : Type 0 where
  waiting uploading finalizing : UploadWorkflowStatus

pub data MetadataInferenceStatus : Type 0 where
  not_started loading complete : MetadataInferenceStatus

pub record FrontendFileEntity (V : Type 0) : Type 0 where
  pub id : EntityId
  pub thumbnail_url : Option Text
  pub name : Text
  pub status : FileStatus
  pub upload_progress : V
  pub type : ObjectType
  pub backend_ref : Option TypedObjectRef

abbrev pub Metadata : Type 0 → Type 0
Metadata V = List (Text × V)

pub record UploadState (V : Type 0) : Type 0 where
  pub table : NormalizedState (FrontendFileEntity V)
  pub dialog_open : Bool
  pub is_dragging : Bool
  pub uploads_in_progress : ℤ
  pub uploads_completed : ℕ
  pub metadata_status : MetadataInferenceStatus
  pub metadata : Option (Metadata V)
  pub metadata_changed : Bool
  pub status : UploadWorkflowStatus

-- The adapter's default `selectId`.
abbrev pub select_id : {V : Type 0} → FrontendFileEntity V → EntityId
select_id e = e.id

unfoldable pub initial_state : {V : Type 0} → UploadState V
initial_state = record {
  table = record { ids = []; entities = λ _. none };
  dialog_open = false;
  is_dragging = false;
  uploads_in_progress = pos 0;
  uploads_completed = 0;
  metadata_status = MetadataInferenceStatus.not_started;
  metadata = none;
  metadata_changed = false;
  status = waiting;
}

-- `EDITABLE_METADATA_FIELDS`
abbrev pub editable_metadata_fields : List Text
editable_metadata_fields =
    codes "platformType"
    ∷ codes "altitudeMeters"
    ∷ codes "gsdCmPx"
    ∷ codes "sessionName"
    ∷ codes "captureDate"
    ∷ codes "camera"
    ∷ codes "notes"
    ∷ []

-- `EDITABLE_METADATA_FIELDS_SET.has(key)`
unfoldable pub is_editable : Text → Bool
is_editable key = mem key editable_metadata_fields

-- `delete`: the properties with other keys stay.
abbrev pub delete_key : {V : Type 0} → Text → Metadata V → Metadata V
delete_key key m = keep (λ (p : Text × _). not (text_eq p.0 key)) m

-- The loop over `Object.keys(metadataCopy)`.
unfoldable pub delete_uneditable : {V : Type 0} → List Text → Metadata V → Metadata V
delete_uneditable [] m = m
delete_uneditable (key ∷ keys) m =
    delete_uneditable keys (if is_editable key then m else delete_key key m)

-- `filterOnlyEditable`
unfoldable pub filter_only_editable : {V : Type 0} → Metadata V → Metadata V
unfolding delete_uneditable
filter_only_editable m = delete_uneditable (map (λ (p : Text × _). p.0) m) m
