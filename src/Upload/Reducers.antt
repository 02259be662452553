-- ===== src/Upload/Reducers.antt =====
-- upload-slice.ts: the prepared action `addSelectedFiles` and the reducers of `uploadSlice`.
use mallard.Common.{
  ◌+◌, Text, codes, starts_with, mem, text_Eq, length, map, Option, none, some, Bool, true, false,
  if◌then◌else◌, List, [], ◌∷◌,
}
use mallard.Common.Int.{pos, ◌+ℤ◌, ◌-ℤ◌}
use mallard.Types.{image, video, TypedObjectRef, EntityId}
use mallard.Adapter.{EntityAdapter}
use mallard.Adapter.Count.{update_each}
use mallard.Upload.State.{
  FileStatus, pending, pre_processing, awaiting_upload, UploadWorkflowStatus, waiting, finalizing,
  MetadataInferenceStatus, not_started, loading, FrontendFileEntity, Metadata, UploadState,
  select_id, filter_only_editable,
}

-- The two properties of a `File` that the slice reads.
pub record File : Type 0 where
  pub name : Text
  pub type : Text

-- `SUPPORTED_FILE_TYPES`
abbrev pub supported_file_types : List Text
supported_file_types =
    codes "image/apng"
    ∷ codes "image/avif"
    ∷ codes "image/gif"
    ∷ codes "image/jpeg"
    ∷ codes "image/png"
    ∷ codes "image/svg+xml"
    ∷ codes "image/webp"
    ∷ codes "video/mp4"
    ∷ codes "video/webm"
    ∷ codes "video/x-msvideo"
    ∷ codes "video/quicktime"
    ∷ []

-- `SUPPORTED_FILE_TYPES.has(type)`
unfoldable pub is_supported : Text → Bool
is_supported type = mem type supported_file_types

-- `FileIdWithData`
pub record FileIdWithData : Type 0 where
  pub id : EntityId
  pub data_url : Option Text

module _ {V : Type 0} where
  -- `prepare`, for the entries of the map in their order. `zero_progress` is `0.0`.
  unfoldable pub prepare : V → List (EntityId × File) → List (FrontendFileEntity V)
  prepare zero_progress [] = []
  prepare zero_progress (f ∷ files) =
      let rest = prepare zero_progress files in
      if is_supported (f.1).type
      then record {
        id = f.0;
        thumbnail_url = none;
        name = (f.1).name;
        status = pending;
        upload_progress = zero_progress;
        type = if starts_with (f.1).type (codes "image/") then image else video;
        backend_ref = none;
      }
        ∷ rest
      else rest

  module _ (adapter : EntityAdapter (FrontendFileEntity V) select_id) where
    open adapter use {update_one, update_many, add_many, remove_all}

    unfoldable pub dialog_opened : UploadState V → UploadState V
    dialog_opened s = record s { dialog_open = true; status = waiting }

    unfoldable pub dialog_closed : UploadState V → UploadState V
    dialog_closed s = record s {
      dialog_open = false;
      table = remove_all s.table;
      metadata_status = not_started;
      metadata = none;
      metadata_changed = false;
      status = waiting;
      uploads_completed = 0;
    }

    unfoldable pub file_drop_zone_entered : UploadState V → UploadState V
    file_drop_zone_entered s = record s { is_dragging = true }

    unfoldable pub file_drop_zone_exited : UploadState V → UploadState V
    file_drop_zone_exited s = record s { is_dragging = false }

    unfoldable pub set_metadata : Metadata V → UploadState V → UploadState V
    set_metadata m s = record s { metadata = some m; metadata_changed = true }

    unfoldable pub update_progress : EntityId → V → UploadState V → UploadState V
    update_progress id progress s = record s {
      table = update_one (id, λ e. record e { upload_progress = progress }) s.table;
    }

    unfoldable pub upload_file_pending : EntityId → UploadState V → UploadState V
    upload_file_pending id s = record s {
      table = update_one (id, λ e. record e { status = FileStatus.uploading }) s.table;
    }

    unfoldable pub upload_file_fulfilled : EntityId → TypedObjectRef → UploadState V → UploadState V
    upload_file_fulfilled id ref s = record s {
      table =
          update_one (id, λ e. record e { status = FileStatus.complete; backend_ref = some ref })
            s.table;
      uploads_in_progress = s.uploads_in_progress -ℤ pos 1;
      uploads_completed = s.uploads_completed + 1;
    }

    unfoldable pub infer_metadata_pending : UploadState V → UploadState V
    infer_metadata_pending s = record s { metadata_status = loading }

    unfoldable pub infer_metadata_fulfilled : Metadata V → UploadState V → UploadState V
    infer_metadata_fulfilled m s = record s {
      metadata_status = MetadataInferenceStatus.complete;
      metadata = some (filter_only_editable m);
    }

    unfoldable pub add_selected_files : List (FrontendFileEntity V) → UploadState V → UploadState V
    add_selected_files files s = record s {
      table = add_many files s.table;
      is_dragging = false;
      uploads_in_progress = s.uploads_in_progress +ℤ pos (length files);
      status = UploadWorkflowStatus.uploading;
    }

    unfoldable pub pre_process_files_pending : List EntityId → UploadState V → UploadState V
    pre_process_files_pending ids s = record s {
      table = update_each adapter (λ e. record e { status = pre_processing }) ids s.table;
    }

    unfoldable pub pre_process_files_fulfilled : List FileIdWithData → UploadState V → UploadState V
    pre_process_files_fulfilled files s = record s {
      table =
          update_many
            (map
              (λ (f : FileIdWithData).
                (f.id, λ e. record e { status = awaiting_upload; thumbnail_url = f.data_url }))
              files)
            s.table;
    }

    unfoldable pub finish_upload_pending : UploadState V → UploadState V
    finish_upload_pending s = record s { status = finalizing }

    unfoldable pub finish_upload_fulfilled : UploadState V → UploadState V
    finish_upload_fulfilled s = record s { status = waiting }
