-- ===== src/Elements/Uploader.antt =====
-- file-uploader.ts: `FileUploader` and `ConnectedFileUploader`. The handlers of the drop zone's and
-- the file input's events are functions; `uuid` gives the results of `uuidv4`, one after the other.
pub mod Found
pub mod Starting
pub mod Started
pub mod Throttle
pub mod Progress
use mallard.Common.{
  ℕ, suc, ◌-◌, ◌==◌, ltb, length, take, map, Text, set_entry, Option, none, some, Bool, true, false,
  if◌then◌else◌, List, [], ◌∷◌, ◌++◌,
}
use mallard.Common.Int.{ℤ, pos, ◌-ℤ◌}
use mallard.Types.{EntityId, NormalizedState}
use mallard.Adapter.{EntityAdapter}
use mallard.Upload.State.{
  FileStatus, pending, pre_processing, awaiting_upload, FrontendFileEntity, UploadState, select_id,
}
use mallard.Upload.Reducers.{File}
use mallard.Upload.Thunks.{infer_metadata_condition}
use mallard.Upload.Actions.{
  UploadAction, entered, exited, selected_files, pre_processing_files, uploading_file, inferring,
  upload_reducer,
}

-- The numbers of the enumeration.
abbrev pub status_number : FileStatus → ℕ
status_number FileStatus.pending = 0
status_number FileStatus.pre_processing = 1
status_number FileStatus.awaiting_upload = 2
status_number FileStatus.uploading = 3
status_number FileStatus.complete = 4

abbrev pub has_status : {V : Type 0} → FileStatus → FrontendFileEntity V → Bool
has_status status file = status_number file.status == status_number status

pub record FileUploader (V : Type 0) : Type 0 where
  pub is_dragging : Bool
  pub last_selected_files : List (EntityId × File)
  pub all_selected_files : List (EntityId × File)
  pub uploading_files : List (FrontendFileEntity V)
  pub num_files_uploaded : ℕ

-- The custom events.
pub data UploaderEvent : Type 0 where
  files_selected : List (EntityId × File) → UploaderEvent
  upload_ready : EntityId → UploaderEvent
  pre_process_ready : List EntityId → UploaderEvent
  metadata_inference_ready : EntityId → UploaderEvent
  drop_zone_dragging : Bool → UploaderEvent

-- `_changedProperties.has`, for the three that the element asks for.
pub record ChangedProperties : Type 0 where
  pub uploading_files : Bool
  pub is_dragging : Bool
  pub last_selected_files : Bool

-- The two lists that `findFilesWithStatus` fills.
pub record Grouped (V : Type 0) : Type 0 where
  pub previous : List (FrontendFileEntity V)
  pub next : List (FrontendFileEntity V)

abbrev pub max_concurrent_uploads : ℕ
max_concurrent_uploads = 3

abbrev pub max_concurrent_pre_processing : ℕ
max_concurrent_pre_processing = 1

-- `map.set` for each of the new files.
unfoldable pub set_files : List (EntityId × File) → List (EntityId × File) → List (EntityId × File)
unfolding set_entry
set_files [] files = files
set_files ((key, file) ∷ new) files = set_files new (set_entry key file files)

-- `getAsFile` of each item, `none` where it is no file.
unfoldable pub valid_files : List (Option File) → List File
valid_files [] = []
valid_files (none ∷ items) = valid_files items
valid_files (some file ∷ items) = file ∷ valid_files items

unfoldable pub with_uuids : (ℕ → EntityId) → ℕ → List File → List (EntityId × File)
with_uuids uuid n [] = []
with_uuids uuid n (file ∷ files) = (uuid n, file) ∷ with_uuids uuid (suc n) files

unfoldable pub get_files_from_data_transfer :
    (ℕ → EntityId) → Option (List (Option File)) → List (EntityId × File)
unfolding valid_files with_uuids
get_files_from_data_transfer uuid none = []
get_files_from_data_transfer uuid (some items) = with_uuids uuid 0 (valid_files items)

abbrev pub cons_some : {A : Type 0} → Option A → List A → List A
cons_some none xs = xs
cons_some (some x) xs = x ∷ xs

module _ {V : Type 0} where
  unfoldable pub on_drag_enter : FileUploader V → FileUploader V
  on_drag_enter element = record element { is_dragging = true }

  unfoldable pub on_drag_leave : FileUploader V → FileUploader V
  on_drag_leave element = record element { is_dragging = false }

  unfoldable pub on_drop :
      (ℕ → EntityId) → Option (List (Option File)) → FileUploader V → FileUploader V
  on_drop uuid items element = record element {
    last_selected_files = get_files_from_data_transfer uuid items;
    is_dragging = false;
  }

  -- The file input's `change`.
  unfoldable pub on_files_chosen : (ℕ → EntityId) → List File → FileUploader V → FileUploader V
  on_files_chosen uuid files element = record element {
    last_selected_files = with_uuids uuid 0 files;
  }

  -- What `render` shows of the progress: the number of remaining files, and whether the pill is
  -- visible.
  unfoldable pub num_remaining_uploads : FileUploader V → ℤ
  num_remaining_uploads element =
      pos (length element.uploading_files) -ℤ pos element.num_files_uploaded

  unfoldable pub group_by_status : FileStatus → FileStatus → List (FrontendFileEntity V) → Grouped V
  group_by_status previous_status next_status [] = record { previous = []; next = [] }
  group_by_status previous_status next_status (file ∷ files) =
      let rest = group_by_status previous_status next_status files in
      if has_status previous_status file
      then record rest { previous = file ∷ rest.previous }
      else if has_status next_status file
      then record rest { next = file ∷ rest.next }
      else rest

  unfoldable pub find_files_with_status :
      FileStatus → FileStatus → ℕ → FileUploader V → List (FrontendFileEntity V)
  unfolding group_by_status
  find_files_with_status previous_status next_status max_num_files element =
      let grouped = group_by_status previous_status next_status element.uploading_files in
      if ltb (length grouped.next) max_num_files
      then take (max_num_files - length grouped.next) grouped.previous
      else []

  unfoldable pub find_files_to_pre_process : FileUploader V → List (FrontendFileEntity V)
  find_files_to_pre_process =
      find_files_with_status pending pre_processing max_concurrent_pre_processing

  unfoldable pub find_files_to_upload : FileUploader V → List (FrontendFileEntity V)
  find_files_to_upload =
      find_files_with_status awaiting_upload FileStatus.uploading max_concurrent_uploads

  abbrev pub pre_process_events : List (FrontendFileEntity V) → List UploaderEvent
  pre_process_events [] = []
  pre_process_events (f ∷ fs) = pre_process_ready (map select_id (f ∷ fs)) ∷ []

  abbrev pub inference_events : List (FrontendFileEntity V) → List UploaderEvent
  inference_events [] = []
  inference_events (f ∷ fs) = metadata_inference_ready f.id ∷ []

  abbrev pub upload_events : List (FrontendFileEntity V) → List UploaderEvent
  upload_events fs = map (λ f. upload_ready f.id) fs

  -- The events that `updated` dispatches, in order. The files to upload are those of before the
  -- pre-processing event, which does not change them.
  unfoldable pub update_events : ChangedProperties → FileUploader V → List UploaderEvent
  unfolding find_files_to_pre_process find_files_to_upload
  update_events changed element =
      let new_uploads = find_files_to_upload element in
      (if changed.uploading_files
        then pre_process_events (find_files_to_pre_process element)
          ++ (inference_events new_uploads ++ upload_events new_uploads)
        else [])
      ++ ((if changed.is_dragging then drop_zone_dragging element.is_dragging ∷ [] else [])
          ++ (if changed.last_selected_files
              then files_selected element.last_selected_files ∷ []
              else []))

  -- The element after `updated`.
  unfoldable pub updated : ChangedProperties → FileUploader V → FileUploader V
  updated changed element =
      if changed.last_selected_files
      then record element {
        all_selected_files = set_files element.last_selected_files element.all_selected_files;
      }
      else element

  -- `selectAll`
  unfoldable pub select_all :
      NormalizedState (FrontendFileEntity V) → List EntityId → List (FrontendFileEntity V)
  select_all t [] = []
  select_all t (id ∷ ids) = cons_some (t.entities id) (select_all t ids)

  unfoldable pub map_state : UploadState V → FileUploader V → FileUploader V
  unfolding select_all
  map_state s element = record element {
    uploading_files = select_all s.table s.table.ids;
    num_files_uploaded = s.uploads_completed;
  }

  module _ (zero_progress : V) (adapter : EntityAdapter (FrontendFileEntity V) select_id) where
    -- What the action of an event does at once; an asynchronous one becomes pending, unless its
    -- condition is false.
    unfoldable pub dispatch : UploaderEvent → UploadState V → UploadState V
    dispatch (drop_zone_dragging true) s = upload_reducer adapter entered s
    dispatch (drop_zone_dragging false) s = upload_reducer adapter exited s
    dispatch (files_selected files) s =
        upload_reducer adapter (selected_files zero_progress files) s
    dispatch (pre_process_ready ids) s = upload_reducer adapter (pre_processing_files ids) s
    dispatch (upload_ready id) s = upload_reducer adapter (uploading_file id) s
    dispatch (metadata_inference_ready id) s =
        if infer_metadata_condition s then upload_reducer adapter inferring s else s

    unfoldable pub dispatch_all : List UploaderEvent → UploadState V → UploadState V
    unfolding dispatch
    dispatch_all [] s = s
    dispatch_all (event ∷ events) s = dispatch_all events (dispatch event s)
