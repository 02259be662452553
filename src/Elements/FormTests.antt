-- ===== src/Elements/FormTests.antt =====
-- metadata-form.ts, with inferred metadata.
use mallard.Upload.Thunks.{
  pre_process_files, upload_file, infer_metadata, infer_metadata_condition, object_refs,
  revocations, metadata_update, finish_upload,
}
use mallard.Upload.Reducers.{
  is_supported, prepare, dialog_opened, dialog_closed, file_drop_zone_entered,
  file_drop_zone_exited, set_metadata, update_progress, upload_file_pending, upload_file_fulfilled,
  infer_metadata_pending, infer_metadata_fulfilled, add_selected_files, pre_process_files_pending,
  pre_process_files_fulfilled, finish_upload_pending, finish_upload_fulfilled,
}
use mallard.Common.{
  ◌==◌, ℕ, ◌≡◌, refl, Text, codes, [], ◌∷◌, none, some, true, false, set_entry, get_entry,
}
use mallard.Common.Int.{◌+ℤ◌, ◌-ℤ◌}
use mallard.Upload.State.{
  Metadata, UploadState, initial_state, is_editable, delete_uneditable, filter_only_editable,
}
use mallard.Upload.Actions.{UploadAction, selected_files, inferring, inferred, upload_reducer}
use mallard.Elements.UploadTests.{adapter, files}
use mallard.Elements.MetadataForm.{
  Inputs, MetadataForm, FormState, update_metadata, update_metadata_from_event,
  update_metadata_number, update_platform, extract_capture_date, form_changed, to_form_state,
  map_state, first_selected_metadata, map_editing_state,
}
use mallard.Elements.MetadataForm.Sessions.{Sessions}

-- The definitions that the tests evaluate.
forms : Unit {0}
unfolding set_entry get_entry ◌+ℤ◌ ◌-ℤ◌ initial_state is_editable delete_uneditable
    filter_only_editable is_supported prepare dialog_opened dialog_closed file_drop_zone_entered
    file_drop_zone_exited set_metadata update_progress upload_file_pending upload_file_fulfilled
    infer_metadata_pending infer_metadata_fulfilled add_selected_files pre_process_files_pending
    pre_process_files_fulfilled finish_upload_pending finish_upload_fulfilled pre_process_files
    upload_file infer_metadata infer_metadata_condition object_refs revocations metadata_update
    finish_upload upload_reducer update_metadata update_metadata_from_event update_metadata_number
    update_platform extract_capture_date form_changed to_form_state map_state
    first_selected_metadata map_editing_state
forms = tt

-- The inputs' values are their texts' first characters.
abbrev first_code : Text → ℕ
first_code [] = 0
first_code (c ∷ _) = c

abbrev inputs : Inputs ℕ
inputs = record {
  of_text = first_code;
  to_number = first_code;
  of_platform = λ _. 1;
  is_falsy = λ n. n == 0;
  iso_date = λ _. some (codes "2024-05-01");
}

abbrev notes : Metadata ℕ
notes = (codes "notes", 4) ∷ []

abbrev blank : MetadataForm ℕ
blank = record { metadata = none; state = FormState.inactive; user_modified = false }

-- The form after the store changed.
abbrev after : UploadState ℕ → MetadataForm ℕ → MetadataForm ℕ
after s form = map_state inputs s form

abbrev selected : UploadState ℕ
selected = upload_reducer adapter (selected_files 0 files) initial_state

abbrev waiting : UploadState ℕ
waiting = upload_reducer adapter inferring selected

abbrev complete : UploadState ℕ
complete = upload_reducer adapter (inferred notes) waiting

abbrev edited_form : MetadataForm ℕ
edited_form = record {
  metadata = some ((codes "notes", 9) ∷ []);
  state = FormState.ready;
  user_modified = true;
}

abbrev edited : UploadState ℕ
edited = upload_reducer adapter (UploadAction.edited ((codes "notes", 9) ∷ [])) complete

-- Where the date was cleared no date is valid, and `render` throws.
date_tests : extract_capture_date (record inputs { iso_date = λ _. none }) edited_form ≡ none
unfolding forms
date_tests = refl
