-- ===== src/Upload/Tests.antt =====
-- The upload of one picture, and the theorems at it.
use mallard.Common.{
  ℕ, ◌≡◌, refl, Text, codes, List, [], ◌∷◌, keep, text_Eq, All, some, Bool, true, false, map,
  Option,
}
use mallard.Common.Int.{pos, ◌+ℤ◌, ◌-ℤ◌}
use mallard.Types.{image, TypedObjectRef, EntityId}
use mallard.Adapter.{EntityAdapter}
use mallard.Adapter.Tables.{tables}
use mallard.Upload.State.{
  FrontendFileEntity, Metadata, UploadState, select_id, initial_state, is_editable,
  delete_uneditable, filter_only_editable,
}
use mallard.Upload.Reducers.{
  File, is_supported, prepare, dialog_opened, dialog_closed, file_drop_zone_entered,
  file_drop_zone_exited, set_metadata, update_progress, upload_file_pending, upload_file_fulfilled,
  infer_metadata_pending, infer_metadata_fulfilled, add_selected_files, pre_process_files_pending,
  pre_process_files_fulfilled, finish_upload_pending, finish_upload_fulfilled,
}
use mallard.Upload.Finish.{IsUploaded, uploaded_object, Ends, finish_upload_lem}
use mallard.Upload.Thunks.{
  batch_update, revoke_object_url, clear_image_view, finish_upload, pre_process_files, upload_file,
  infer_metadata, infer_metadata_condition, object_refs, revocations, metadata_update,
  update_metadata_from_state,
}
use mallard.Upload.Actions.{
  edited, pre_processed_files, selected_files, uploaded_file, closed, upload_reducer, Uploads,
  fresh, next,
}
use mallard.Upload.Counters.{IsTracked}
use mallard.Upload.Tracked.{Uploads-IsTracked}
use mallard.Upload.Editable.{filter_only_editable_lem}

uploads : Unit {0}
unfolding ◌+ℤ◌ ◌-ℤ◌ initial_state is_editable delete_uneditable filter_only_editable is_supported
    prepare dialog_opened dialog_closed file_drop_zone_entered file_drop_zone_exited set_metadata
    update_progress upload_file_pending upload_file_fulfilled infer_metadata_pending
    infer_metadata_fulfilled add_selected_files pre_process_files_pending
    pre_process_files_fulfilled finish_upload_pending finish_upload_fulfilled pre_process_files
    upload_file infer_metadata infer_metadata_condition object_refs revocations metadata_update
    update_metadata_from_state finish_upload upload_reducer
uploads = tt

-- Values are numbers here.
abbrev adapter : EntityAdapter (FrontendFileEntity ℕ) select_id
adapter = tables select_id

abbrev files : List (EntityId × File)
files =
    (codes "f1", record { name = codes "a.png"; type = codes "image/png" })
    ∷ (codes "f2", record { name = codes "b.txt"; type = codes "text/plain" })
    ∷ []

abbrev picture : TypedObjectRef
picture = record { id = record { bucket = codes "b"; name = codes "1" }; type = image }

abbrev selected : UploadState ℕ
selected = upload_reducer adapter (selected_files 0 files) initial_state

abbrev uploaded : UploadState ℕ
uploaded = upload_reducer adapter (uploaded_file (codes "f1") picture) selected

upload_tests :
    (selected.uploads_in_progress ≡ pos 1)
    × (uploaded.uploads_in_progress ≡ pos 0)
    × (uploaded.uploads_completed ≡ 1)
    × ((upload_reducer adapter closed uploaded).table.ids ≡ [])
unfolding uploads
upload_tests = (refl, refl, refl, refl)

uploaded-Uploads : Uploads adapter uploaded
unfolding uploads
uploaded-Uploads =
    next (uploaded_file (codes "f1") picture) selected
      (next (selected_files 0 files) initial_state fresh ((refl, tt), (refl, tt))) refl

Uploads-IsTracked_example : IsTracked uploaded
Uploads-IsTracked_example = Uploads-IsTracked adapter uploaded uploaded-Uploads

abbrev inferred_metadata : Metadata ℕ
inferred_metadata =
    (codes "name", 1) ∷ (codes "camera", 2) ∷ (codes "size", 3) ∷ (codes "notes", 4) ∷ []

filter_only_editable_lem_example :
    filter_only_editable inferred_metadata
    ≡ keep (λ (x : Text × ℕ). is_editable x.0) inferred_metadata
filter_only_editable_lem_example = filter_only_editable_lem inferred_metadata

filter_tests :
    filter_only_editable inferred_metadata ≡ (codes "camera", 2) ∷ (codes "notes", 4) ∷ []
unfolding uploads
filter_tests = refl

-- The uploaded picture with a thumbnail, and edited metadata.
abbrev pictured : UploadState ℕ
pictured = upload_reducer adapter (edited inferred_metadata) (
    upload_reducer adapter (uploaded_file (codes "f1") picture) (
      upload_reducer adapter
        (pre_processed_files (record { id = codes "f1"; data_url = some (codes "blob:1") } ∷ []))
        selected))

pictured-IsUploaded : All (IsUploaded pictured) pictured.table.ids
unfolding uploads
pictured-IsUploaded = ((_, picture, refl, refl), tt)

abbrev accepts : Bool → Option (Metadata ℕ) → List TypedObjectRef → Bool
accepts answer _ _ = answer

finish_upload_lem_example :
    (refs : List TypedObjectRef) × (map some refs
      ≡ map (uploaded_object pictured) pictured.table.ids)
    × Ends adapter
        (accepts false)
        pictured
        pictured
        refs
        (finish_upload adapter (accepts false) pictured pictured)
finish_upload_lem_example =
    finish_upload_lem adapter (accepts false) pictured pictured pictured-IsUploaded

finish_tests :
    (finish_upload adapter (accepts true) pictured pictured ≡ (
      record {
        effects =
            batch_update pictured.metadata (picture ∷ [])
            ∷ revoke_object_url (codes "blob:1")
            ∷ clear_image_view
            ∷ [];
        thrown = false;
      },
      dialog_closed adapter pictured,
    ))
    × (finish_upload adapter (accepts false) pictured pictured ≡ (
      record { effects = batch_update pictured.metadata (picture ∷ []) ∷ []; thrown = true },
      pictured,
    ))
unfolding uploads
finish_tests = (refl, refl)
