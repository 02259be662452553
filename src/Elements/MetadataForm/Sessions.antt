-- ===== src/Elements/MetadataForm/Sessions.antt =====
-- metadata-form.ts and upload-slice.ts: the form beside the store.
use mallard.Common.{Text, ◌≡◌, none, some, true, false}
use mallard.Adapter.{EntityAdapter}
use mallard.Upload.State.{FrontendFileEntity, UploadState, select_id, initial_state}
use mallard.Upload.Thunks.{infer_metadata_condition}
use mallard.Upload.Actions.{UploadAction, edited, inferring, upload_reducer}
use mallard.Elements.MetadataForm.History.{
  History, untouched, by_user, after_action, after_rendering,
}
use mallard.Elements.MetadataForm.{
  inactive, ready, Inputs, MetadataForm, lacks_date, update_metadata, extract_capture_date,
  form_changed, map_state,
}

-- When an action can come: metadata are inferred where the condition of `thunkInferMetadata` holds,
-- and only the form edits them.
abbrev pub CanCome : {V : Type 0} → UploadAction V → UploadState V → Type 0
CanCome inferring s = infer_metadata_condition s ≡ true
CanCome (edited m) s = ⊥
CanCome _ s = Unit

module _ {V : Type 0} (inputs : Inputs V)
    (adapter : EntityAdapter (FrontendFileEntity V) select_id) where
  -- What `updated` sends to the store.
  abbrev pub sent : MetadataForm V → UploadState V → UploadState V
  sent form s = elim (form_changed inputs true form) [
    | none ↦ s
    | some m ↦ upload_reducer adapter (edited m) s
  ]

  -- The form and the store, which an action changes, or the user by an input, or the form by itself
  -- when it shows metadata without a date.
  pub data Sessions : MetadataForm V → UploadState V → History → Type 0 where
    start :
        Sessions
          (record { metadata = none; state = inactive; user_modified = false })
          initial_state
          untouched
    act :
        (action : UploadAction V) (form : MetadataForm V) (s : UploadState V) (h : History)
        → Sessions form s h
        → CanCome action s
        → Sessions
            (map_state inputs (upload_reducer adapter action s) form)
            (upload_reducer adapter action s)
            (after_action action h)
    edit :
        (property : Text) (value : V) (form : MetadataForm V) (s : UploadState V) (h : History)
        → Sessions form s h
        → form.state ≡ ready
        → Sessions
            (map_state inputs
              (sent (update_metadata inputs property value form) s)
              (update_metadata inputs property value form))
            (sent (update_metadata inputs property value form) s)
            by_user
    date :
        (date_string : Text) (form form' : MetadataForm V) (s : UploadState V) (h : History)
        → Sessions form s h
        → form.state ≡ ready
        → extract_capture_date inputs form ≡ some (date_string, form')
        → Sessions
            (map_state inputs (sent form' s) form')
            (sent form' s)
            (after_rendering (lacks_date inputs form) h)
