-- ===== src/Elements/UploadTests.antt =====
-- file-uploader.ts, with two pictures that were selected.
use mallard.Upload.Thunks.{
  pre_process_files, upload_file, infer_metadata, infer_metadata_condition, object_refs,
  revocations, metadata_update, finish_upload,
}
use mallard.Common.{ℕ, ◌≡◌, refl, codes, List, [], ◌∷◌, true, false, text_Eq, count, arith}
use mallard.Common.Int.{◌+ℤ◌, ◌-ℤ◌}
use mallard.Types.{EntityId}
use mallard.Adapter.{EntityAdapter}
use mallard.Adapter.Tables.{tables}
use mallard.Upload.State.{
  FrontendFileEntity, UploadState, select_id, initial_state, is_editable, delete_uneditable,
  filter_only_editable,
}
use mallard.Upload.Actions.{selected_files, upload_reducer, Uploads, fresh, next}
use mallard.Upload.Counters.{IsTracked}
use mallard.Upload.Tracked.{Uploads-IsTracked}
use mallard.Elements.Uploader.{
  FileUploader, pre_process_ready, drop_zone_dragging, ChangedProperties, dispatch_all,
  update_events, map_state, set_files, valid_files, with_uuids, get_files_from_data_transfer,
  on_drag_enter, on_drag_leave, on_drop, on_files_chosen, num_remaining_uploads, group_by_status,
  find_files_with_status, find_files_to_pre_process, find_files_to_upload, updated, select_all,
  dispatch,
}
use mallard.Elements.Uploader.Throttle.{IsThrottled, dispatch_all-IsThrottled}
use mallard.Elements.Uploader.Progress.{num_with, dispatch_all-fills}
use mallard.Common.{◌+◌, min}
use mallard.Upload.State.{FileStatus, pending, pre_processing, awaiting_upload}
use mallard.Upload.Reducers.{
  File, is_supported, prepare, dialog_opened, dialog_closed, file_drop_zone_entered,
  file_drop_zone_exited, set_metadata, update_progress, upload_file_pending, upload_file_fulfilled,
  infer_metadata_pending, infer_metadata_fulfilled, add_selected_files, pre_process_files_pending,
  pre_process_files_fulfilled, finish_upload_pending, finish_upload_fulfilled,
}

-- The definitions that the tests evaluate.
pub uploading : Unit {0}
unfolding count ◌+ℤ◌ ◌-ℤ◌ initial_state is_editable delete_uneditable filter_only_editable
    is_supported prepare dialog_opened dialog_closed file_drop_zone_entered file_drop_zone_exited
    set_metadata update_progress upload_file_pending upload_file_fulfilled infer_metadata_pending
    infer_metadata_fulfilled add_selected_files pre_process_files_pending
    pre_process_files_fulfilled finish_upload_pending finish_upload_fulfilled pre_process_files
    upload_file infer_metadata infer_metadata_condition object_refs revocations metadata_update
    finish_upload upload_reducer set_files valid_files with_uuids get_files_from_data_transfer
    on_drag_enter on_drag_leave on_drop on_files_chosen num_remaining_uploads group_by_status
    find_files_with_status find_files_to_pre_process find_files_to_upload update_events updated
    select_all map_state dispatch dispatch_all
uploading = tt

-- Values are numbers here.
abbrev pub adapter : EntityAdapter (FrontendFileEntity ℕ) select_id
adapter = tables select_id

abbrev pub files : List (EntityId × File)
files =
    (codes "f1", record { name = codes "a.png"; type = codes "image/png" })
    ∷ (codes "f2", record { name = codes "c.png"; type = codes "image/png" })
    ∷ []

abbrev pub selected : UploadState ℕ
selected = upload_reducer adapter (selected_files 0 files) initial_state

selected-Uploads : Uploads adapter selected
unfolding uploading
selected-Uploads =
    next (selected_files 0 files) initial_state fresh ((refl, (refl, tt)), (refl, (refl, tt)))

selected-IsThrottled : IsThrottled selected
unfolding uploading
selected-IsThrottled =
    let h : IsTracked selected = Uploads-IsTracked adapter selected selected-Uploads in
    record { normalized = h.normalized; pre_processed = omega arith; uploaded = omega arith }

abbrev idle_element : FileUploader ℕ
idle_element = record {
  is_dragging = false;
  last_selected_files = [];
  all_selected_files = files;
  uploading_files = [];
  num_files_uploaded = 0;
}

abbrev changes : ChangedProperties
changes = record { uploading_files = true; is_dragging = true; last_selected_files = false }

-- One file at a time is pre-processed.
update_tests :
    update_events changes (map_state selected idle_element)
    ≡ pre_process_ready (codes "f1" ∷ []) ∷ drop_zone_dragging false ∷ []
unfolding uploading
update_tests = refl

dispatch_all-IsThrottled_example :
    IsThrottled
      (dispatch_all 0 adapter (update_events changes (map_state selected idle_element)) selected)
dispatch_all-IsThrottled_example =
    dispatch_all-IsThrottled adapter 0 changes selected idle_element refl refl selected-IsThrottled

dispatch_all-fills_example :
    let after : UploadState ℕ =
      dispatch_all 0 adapter (update_events changes (map_state selected idle_element)) selected in
    (num_with pre_processing after
      ≡ min 1 (num_with pre_processing selected + num_with pending selected))
    × (num_with FileStatus.uploading after
        ≡ min 3 (num_with FileStatus.uploading selected + num_with awaiting_upload selected))
dispatch_all-fills_example =
    dispatch_all-fills adapter 0 changes selected idle_element refl refl selected-IsThrottled
