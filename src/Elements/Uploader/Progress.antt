-- ===== src/Elements/Uploader/Progress.antt =====
-- file-uploader.ts: the room for files that are processed at once, and its use.
use mallard.Common.{ℕ, ◌+◌, ◌-◌, min, length, length-take, keep, ◌≡◌, ap, ◌∙◌, true, false, arith}
use mallard.Adapter.{EntityAdapter}
use mallard.Adapter.Count.{count_entities}
use mallard.Upload.State.{
  FileStatus, pending, pre_processing, awaiting_upload, FrontendFileEntity, UploadState, select_id,
}
use mallard.Elements.Uploader.{
  FileUploader, ChangedProperties, has_status, max_concurrent_uploads,
  max_concurrent_pre_processing, update_events, map_state, dispatch_all,
}
use mallard.Elements.Uploader.Starting.{being_pre_processed, being_uploaded}
use mallard.Elements.Uploader.Throttle.{IsThrottled, found, all_files, dispatch_all-Starts}
use mallard.Elements.Uploader.Found.{length-keep-select_all}
use mallard.Adapter.{IsNormalized}

-- How many files have the status.
abbrev pub num_with : {V : Type 0} → FileStatus → UploadState V → ℕ
num_with status s = count_entities (has_status status) s.table

module _ {V : Type 0} (adapter : EntityAdapter (FrontendFileEntity V) select_id)
    (zero_progress : V) where
  length-found :
      (s : UploadState V) (element : FileUploader V) (n : IsNormalized select_id s.table)
      (status : FileStatus) (k : ℕ)
      → length (found adapter zero_progress s element n status k) ≡ min k (num_with status s)
  length-found s element n status k =
      length-take k (keep (has_status status) (all_files adapter zero_progress s element n))
      ∙ ap (min k) (length-keep-select_all s.table (has_status status) s.table.ids)

  -- Where the table is normalised, and no more files are processed than the uploader allows: after
  -- the actions of all events that an update of the uploader dispatches when its files change and no
  -- new ones were selected, as many files are processed as the limits allow, one of those that were
  -- being pre-processed or were pending, and three of those that were being uploaded or waited for
  -- it, or all of them if there are fewer. A file whose request was rejected is still being processed
  -- here, since nothing sets its status back.
  pub dispatch_all-fills :
      (changed : ChangedProperties) (s : UploadState V) (element : FileUploader V)
      → changed.uploading_files ≡ true
      → changed.last_selected_files ≡ false
      → IsThrottled s
      → let after =
          dispatch_all zero_progress adapter (update_events changed (map_state s element)) s in
        (num_with pre_processing after ≡ min 1 (num_with pre_processing s + num_with pending s))
        × (num_with FileStatus.uploading after
            ≡ min 3 (num_with FileStatus.uploading s + num_with awaiting_upload s))
  dispatch_all-fills changed s element files_changed none_selected h =
      let n = h.normalized in
      let (s', started, after) =
        dispatch_all-Starts adapter zero_progress changed s element files_changed none_selected n in
      let ps =
        length-found s element n pending (max_concurrent_pre_processing - being_pre_processed s) in
      let us =
        length-found s element n awaiting_upload (max_concurrent_uploads - being_uploaded s) in
      (
        omega (
          arith,
          ap (count_entities (has_status pre_processing)) after,
          started.pre_processed,
          h.pre_processed,
          ps,
        ),
        omega (
          arith,
          ap (count_entities (has_status FileStatus.uploading)) after,
          started.uploaded,
          h.uploaded,
          us,
        ),
      )
