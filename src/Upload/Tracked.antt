-- ===== src/Upload/Tracked.antt =====
-- upload-slice.ts: the upload counters and the files of the table.
use mallard.Common.{refl, text_Eq, [], ◌∷◌, count}
use mallard.Adapter.{EntityAdapter}
use mallard.Upload.State.{FileStatus, FrontendFileEntity, UploadState, select_id, initial_state}
use mallard.Upload.Reducers.{
  dialog_opened, file_drop_zone_entered, file_drop_zone_exited, set_metadata, update_progress,
  upload_file_pending, infer_metadata_pending, infer_metadata_fulfilled, finish_upload_pending,
  finish_upload_fulfilled,
}
use mallard.Upload.Actions.{
  UploadAction, opened, closed, entered, exited, edited, progressed, selected_files,
  pre_processing_files, pre_processed_files, uploading_file, uploaded_file, inferring, inferred,
  finishing, finished, IsAllowed, upload_reducer, Uploads, fresh, next,
}
use mallard.Upload.Counters.{
  IsTracked, steady-IsTracked, uploaded_file-IsTracked, selected_files-IsTracked,
  same_table-IsTracked, one_update, pre_processing-IsTracked, pre_processed-IsTracked,
  closed-IsTracked,
}

module _ {V : Type 0} (adapter : EntityAdapter (FrontendFileEntity V) select_id) where
  -- Every action that is allowed keeps the counters right.
  upload_reducer-IsTracked :
      (action : UploadAction V) (s : UploadState V)
      → IsAllowed action s
      → IsTracked s
      → IsTracked (upload_reducer adapter action s)
  unfolding upload_reducer dialog_opened file_drop_zone_entered file_drop_zone_exited set_metadata
      update_progress upload_file_pending infer_metadata_pending infer_metadata_fulfilled
      finish_upload_pending finish_upload_fulfilled
  upload_reducer-IsTracked closed s a h = closed-IsTracked adapter s a
  upload_reducer-IsTracked (progressed id n) s a h =
      same_table-IsTracked adapter (λ e. record e { upload_progress = n }) id s (λ e. refl)
        (λ e. refl) h
  upload_reducer-IsTracked (selected_files z files) s a h =
      selected_files-IsTracked adapter z files s a h
  upload_reducer-IsTracked (pre_processing_files ids) s a h =
      pre_processing-IsTracked adapter ids s a h
  upload_reducer-IsTracked (pre_processed_files fs) s a h = pre_processed-IsTracked adapter fs s a h
  upload_reducer-IsTracked (uploading_file id) s a h =
      steady-IsTracked adapter ((id, λ e. record e { status = FileStatus.uploading }) ∷ []) s _
        (λ e. refl, tt) (λ e. refl, tt) (a, tt) (one_update adapter _ s.table) refl refl h
  upload_reducer-IsTracked (uploaded_file id ref) s a h =
      uploaded_file-IsTracked adapter id ref s a h
  upload_reducer-IsTracked opened s a h = assumption (h.normalized, h.in_progress, h.completed)
  upload_reducer-IsTracked entered s a h = assumption (h.normalized, h.in_progress, h.completed)
  upload_reducer-IsTracked exited s a h = assumption (h.normalized, h.in_progress, h.completed)
  upload_reducer-IsTracked (edited m) s a h = assumption (h.normalized, h.in_progress, h.completed)
  upload_reducer-IsTracked inferring s a h = assumption (h.normalized, h.in_progress, h.completed)
  upload_reducer-IsTracked (inferred m) s a h =
      assumption (h.normalized, h.in_progress, h.completed)
  upload_reducer-IsTracked finishing s a h = assumption (h.normalized, h.in_progress, h.completed)
  upload_reducer-IsTracked finished s a h = assumption (h.normalized, h.in_progress, h.completed)

  initial-IsTracked : IsTracked (initial_state {V = V})
  unfolding initial_state count
  initial-IsTracked = record {
    normalized = record { distinct = tt; listed = λ j. refl; keyed = λ j e h. cc };
    in_progress = refl;
    completed = refl;
  }

  -- In every state that the uploader comes to by allowed actions (the dialog closes when no upload
  -- runs, selected files have new and distinct IDs, and only files of the table that are not yet
  -- uploaded are processed and uploaded), the table is normalised, and the two counters are the
  -- numbers of its files that are not yet uploaded, and that are uploaded.
  pub Uploads-IsTracked : (s : UploadState V) → Uploads adapter s → IsTracked s
  Uploads-IsTracked _ fresh = initial-IsTracked
  Uploads-IsTracked _ (next action s u a) =
      upload_reducer-IsTracked action s a (Uploads-IsTracked s u)
