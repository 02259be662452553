-- ===== src/Elements/MetadataForm/Session.antt =====
-- metadata-form.ts and upload-slice.ts: what the form shows of the store.
use mallard.Common.{◌≢◌}
use mallard.Common.{◌≡◌, Option, Bool, true}
use mallard.Adapter.{EntityAdapter}
use mallard.Upload.State.{
  MetadataInferenceStatus, FrontendFileEntity, Metadata, UploadState, select_id,
}
use mallard.Elements.MetadataForm.History.{History, untouched, overwritten}
use mallard.Elements.MetadataForm.{FormState, ready, Inputs, MetadataForm, to_form_state}
use mallard.Elements.MetadataForm.Sessions.{Sessions}

module _ {V : Type 0} (inputs : Inputs V)
    (adapter : EntityAdapter (FrontendFileEntity V) select_id) where
  -- A form that is shown shows the metadata of the store, unless they were overwritten, and only
  -- such a form was modified, by an edit.
  record Shows (form : MetadataForm V) (s : UploadState V) (h : History) : Type 0 where
    state_of : form.state ≡ to_form_state inputs s.metadata_status
    same : h ≢ overwritten → form.state ≡ ready → form.metadata ≡ s.metadata
    complete : form.user_modified ≡ true → s.metadata_status ≡ MetadataInferenceStatus.complete
    touched : form.user_modified ≡ true → h ≢ untouched

  -- What an action leaves of metadata that are complete, where the form was edited.
  record Leaves (h : History) (s : UploadState V) (h' : History) (s' : UploadState V) : Type 0 where
    stays : s'.dialog_open ≡ true → s'.metadata_status ≡ MetadataInferenceStatus.complete
    keeps :
        h' ≢ overwritten
        → s'.metadata_status ≡ MetadataInferenceStatus.complete
        → (h ≢ overwritten) × (s'.metadata ≡ s.metadata)
    touches : s'.dialog_open ≡ true → h' ≢ untouched

  abbrev form_of : Option (Metadata V) → FormState → Bool → MetadataForm V
  form_of m state modified = record { metadata = m; state = state; user_modified = modified }
