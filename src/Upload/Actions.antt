-- ===== src/Upload/Actions.antt =====
-- upload-slice.ts: `uploadSlice.reducer`, the reducers put together, and the order in which the file
-- uploader dispatches them.
use mallard.Common.{◌≡◌, Distinct, text_Eq, map, none, some, Bool, true, false, List, All}
use mallard.Common.Int.{pos}
use mallard.Types.{TypedObjectRef, EntityId}
use mallard.Adapter.{EntityAdapter}
use mallard.Adapter.Count.{flag_at}
use mallard.Upload.State.{
  FileStatus, FrontendFileEntity, Metadata, UploadState, select_id, initial_state,
}
use mallard.Upload.Reducers.{
  File, FileIdWithData, prepare, dialog_opened, dialog_closed, file_drop_zone_entered,
  file_drop_zone_exited, set_metadata, update_progress, upload_file_pending, upload_file_fulfilled,
  infer_metadata_pending, infer_metadata_fulfilled, add_selected_files, pre_process_files_pending,
  pre_process_files_fulfilled, finish_upload_pending, finish_upload_fulfilled,
}

pub data UploadAction (V : Type 0) : Type 0 where
  opened : UploadAction V
  closed : UploadAction V
  entered : UploadAction V
  exited : UploadAction V
  edited : Metadata V → UploadAction V
  progressed : EntityId → V → UploadAction V
  selected_files : V → List (EntityId × File) → UploadAction V
  pre_processing_files : List EntityId → UploadAction V
  pre_processed_files : List FileIdWithData → UploadAction V
  uploading_file : EntityId → UploadAction V
  uploaded_file : EntityId → TypedObjectRef → UploadAction V
  inferring : UploadAction V
  inferred : Metadata V → UploadAction V
  finishing : UploadAction V
  finished : UploadAction V

-- The upload of a file is complete.
abbrev pub is_complete : {V : Type 0} → FrontendFileEntity V → Bool
is_complete e = elim e.status [
  | FileStatus.pending ↦ false
  | FileStatus.pre_processing ↦ false
  | FileStatus.awaiting_upload ↦ false
  | FileStatus.uploading ↦ false
  | FileStatus.complete ↦ true
]

-- The file is in the table, and its upload is not complete.
abbrev pub IsOpen : {V : Type 0} → UploadState V → EntityId → Type 0
IsOpen s j = flag_at is_complete s.table j ≡ some false

-- When the uploader dispatches an action: the dialog closes when no upload runs, selected files
-- have new IDs, and only files whose upload is not complete are processed and uploaded.
abbrev pub IsAllowed : {V : Type 0} → UploadAction V → UploadState V → Type 0
IsAllowed closed s = s.uploads_in_progress ≡ pos 0
IsAllowed (selected_files z files) s =
    Distinct (map select_id (prepare z files))
    × All (λ e. s.table.entities (select_id e) ≡ none) (prepare z files)
IsAllowed (pre_processing_files ids) s = All (IsOpen s) ids
IsAllowed (pre_processed_files fs) s = All (λ (f : FileIdWithData). IsOpen s f.id) fs
IsAllowed (uploading_file id) s = IsOpen s id
IsAllowed (uploaded_file id ref) s = IsOpen s id
IsAllowed _ s = Unit

module _ {V : Type 0} (adapter : EntityAdapter (FrontendFileEntity V) select_id) where
  unfoldable pub upload_reducer : UploadAction V → UploadState V → UploadState V
  upload_reducer opened s = dialog_opened adapter s
  upload_reducer closed s = dialog_closed adapter s
  upload_reducer entered s = file_drop_zone_entered adapter s
  upload_reducer exited s = file_drop_zone_exited adapter s
  upload_reducer (edited m) s = set_metadata adapter m s
  upload_reducer (progressed id n) s = update_progress adapter id n s
  upload_reducer (selected_files z files) s = add_selected_files adapter (prepare z files) s
  upload_reducer (pre_processing_files ids) s = pre_process_files_pending adapter ids s
  upload_reducer (pre_processed_files fs) s = pre_process_files_fulfilled adapter fs s
  upload_reducer (uploading_file id) s = upload_file_pending adapter id s
  upload_reducer (uploaded_file id ref) s = upload_file_fulfilled adapter id ref s
  upload_reducer inferring s = infer_metadata_pending adapter s
  upload_reducer (inferred m) s = infer_metadata_fulfilled adapter m s
  upload_reducer finishing s = finish_upload_pending adapter s
  upload_reducer finished s = finish_upload_fulfilled adapter s

-- The states that the uploader comes to.
pub data Uploads {V : Type 0} (adapter : EntityAdapter (FrontendFileEntity V) select_id)
    : UploadState V → Type 0 where
  fresh : Uploads adapter initial_state
  next :
      (action : UploadAction V) (s : UploadState V)
      → Uploads adapter s
      → IsAllowed action s
      → Uploads adapter (upload_reducer adapter action s)
