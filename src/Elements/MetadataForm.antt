-- ===== src/Elements/MetadataForm.antt =====
-- metadata-form.ts: `MetadataForm` and the two elements that connect it to the store. A metadata
-- object is the list of its properties. What the inputs and dates give are functions of `Inputs`.
pub mod Session
pub mod History
pub mod Sessions
use mallard.Common.{
  Text, codes, set_entry, get_entry, Option, none, some, Bool, true, false, ◌&&◌, if◌then◌else◌,
  List, [], ◌∷◌, ◌>>=◌,
}
use mallard.Types.{PlatformType, EntityId, ArtifactEntity}
use mallard.Adapter.{EntityAdapter}
use mallard.Upload.State.{
  MetadataInferenceStatus, FrontendFileEntity, Metadata, UploadState, filter_only_editable,
}
use mallard.Grid.State.{ImageViewState}

pub data FormState : Type 0 where
  inactive loading ready : FormState

-- The value of a text, `+text` and the value of a platform; whether a value is falsy; and the date
-- of a value, or of today, in ISO format, `none` where the date is invalid, on which `toISOString`
-- throws.
pub record Inputs (V : Type 0) : Type 0 where
  pub of_text : Text → V
  pub to_number : Text → V
  pub of_platform : PlatformType → V
  pub is_falsy : V → Bool
  pub iso_date : Option V → Option Text

pub record MetadataForm (V : Type 0) : Type 0 where
  pub metadata : Option (Metadata V)
  pub state : FormState
  pub user_modified : Bool

module _ {V : Type 0} (inputs : Inputs V) where
  -- `{ ...null }` has no properties.
  abbrev pub properties : Option (Metadata V) → Metadata V
  properties none = []
  properties (some m) = m

  unfoldable pub update_metadata : Text → V → MetadataForm V → MetadataForm V
  update_metadata property value form = record form {
    metadata = some (set_entry property value (properties form.metadata));
    user_modified = true;
  }

  -- The event is the value of its target.
  unfoldable pub update_metadata_from_event :
      Text → Text → Option V → MetadataForm V → MetadataForm V
  unfolding update_metadata
  update_metadata_from_event target_value property none form =
      update_metadata property (inputs.of_text target_value) form
  update_metadata_from_event target_value property (some value) form =
      update_metadata property value form

  unfoldable pub update_metadata_number : Text → Text → MetadataForm V → MetadataForm V
  unfolding update_metadata_from_event
  update_metadata_number target_value property form =
      update_metadata_from_event target_value property (some (inputs.to_number target_value)) form

  -- The `change` of a platform's radio button.
  unfoldable pub update_platform : PlatformType → Text → MetadataForm V → MetadataForm V
  unfolding update_metadata_from_event
  update_platform type target_value form =
      update_metadata_from_event target_value (codes "platformType")
        (some (inputs.of_platform type)) form

  abbrev pub capture_date_of : Option (Metadata V) → Option V
  capture_date_of none = none
  capture_date_of (some m) = get_entry (codes "captureDate") m

  abbrev pub is_missing : Option V → Bool
  is_missing none = true
  is_missing (some v) = inputs.is_falsy v

  abbrev pub has_metadata : MetadataForm V → Bool
  has_metadata form = elim form.metadata [ none ↦ false | some m ↦ true ]

  -- The metadata have no date.
  abbrev pub lacks_date : MetadataForm V → Bool
  lacks_date form = has_metadata form && is_missing (capture_date_of form.metadata)

  -- The date that `render` shows, and the form after it. `none` where it throws.
  unfoldable pub extract_capture_date : MetadataForm V → Option (Text × MetadataForm V)
  unfolding update_metadata
  extract_capture_date form =
      let date = capture_date_of form.metadata in
      inputs.iso_date date >>= λ date_string.
      if lacks_date form
      then some
          (date_string, update_metadata (codes "captureDate") (inputs.of_text date_string) form)
      else some (date_string, form)

  -- The detail of the event that `updated` dispatches, by whether the metadata changed. Metadata that
  -- the user modified are there.
  unfoldable pub form_changed : Bool → MetadataForm V → Option (Metadata V)
  form_changed metadata_changed form =
      if form.user_modified && metadata_changed then form.metadata else none

  unfoldable pub to_form_state : MetadataInferenceStatus → FormState
  to_form_state MetadataInferenceStatus.not_started = inactive
  to_form_state MetadataInferenceStatus.loading = FormState.loading
  to_form_state MetadataInferenceStatus.complete = ready

  -- `ConnectedMetadataForm.mapState`
  unfoldable pub map_state : UploadState V → MetadataForm V → MetadataForm V
  unfolding to_form_state
  map_state s form = record {
    metadata = if form.user_modified then form.metadata else s.metadata;
    state = to_form_state s.metadata_status;
    user_modified = if s.dialog_open then form.user_modified else false;
  }

  -- The loop of `ConnectedMetadataEditingForm.mapState`: the metadata of the first selected artifact,
  -- or what is shown already.
  unfoldable pub first_selected_metadata :
      ImageViewState (Metadata V) → List EntityId → Option (Metadata V) → Option (Metadata V)
  first_selected_metadata s [] shown = shown
  first_selected_metadata s (id ∷ ids) shown =
      let rest = first_selected_metadata s ids shown in
      elim (s.table.entities id) [
        | none ↦ rest
        | some entity ↦
            if entity.is_selected
            then elim entity.metadata [ none ↦ none | some m ↦ some (filter_only_editable m) ]
            else rest
      ]

  -- `ConnectedMetadataEditingForm.mapState`
  unfoldable pub map_editing_state : ImageViewState (Metadata V) → MetadataForm V → MetadataForm V
  unfolding first_selected_metadata
  map_editing_state s form = record {
    metadata =
        if form.user_modified
        then form.metadata
        else first_selected_metadata s s.table.ids form.metadata;
    state = ready;
    user_modified = if s.editing_dialog_open then form.user_modified else false;
  }
