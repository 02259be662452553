-- ===== src/Elements/Uploader/Throttle.antt =====
-- file-uploader.ts: how many files are processed at once.
use mallard.Common.{
  append-nil, ℕ, ◌-◌, ◌≤◌, length, take, keep, map, ◌≡◌, refl, ap, ◌∙◌, text_Eq, Distinct, true,
  false, if◌then◌else◌, List, [], ◌∷◌, ◌++◌, arith,
}
use mallard.Adapter.{IsNormalized, EntityAdapter}
use mallard.Adapter.Count.{count_entities}
use mallard.Upload.State.{
  FileStatus, pending, pre_processing, awaiting_upload, FrontendFileEntity, UploadState, select_id,
}
use mallard.Elements.Uploader.{
  FileUploader, UploaderEvent, drop_zone_dragging, ChangedProperties, has_status,
  max_concurrent_uploads, max_concurrent_pre_processing, find_files_to_pre_process,
  find_files_to_upload, pre_process_events, inference_events, upload_events, update_events,
  select_all, map_state, dispatch_all,
}
use mallard.Elements.Uploader.Starting.{Starts, being_pre_processed, being_uploaded}
use mallard.Elements.Uploader.Found.{
  All-keep_with, All-take, Distinct-map-keep, Distinct-map-take, length-take-le,
  find_files_with_status_lem, length-keep-select_all, select_all-known, Distinct-select_all,
}
use mallard.Elements.Uploader.Started.{
  AreFiles, dispatch_all-append, starting-Starts, dragging-Starts,
}

pub record IsThrottled {V : Type 0} (s : UploadState V) : Type 0 where
  pub normalized : IsNormalized select_id s.table
  pub pre_processed :
      count_entities (has_status pre_processing) s.table ≤ max_concurrent_pre_processing
  pub uploaded : count_entities (has_status FileStatus.uploading) s.table ≤ max_concurrent_uploads

throttled :
    {V : Type 0} (s s' : UploadState V) {s'' : UploadState V} (a b : ℕ)
    → IsThrottled s
    → Starts a b s s'
    → s''.table ≡ s'.table
    → a ≤ max_concurrent_pre_processing - being_pre_processed s
    → b ≤ max_concurrent_uploads - being_uploaded s
    → IsThrottled s''
throttled s s' a b h k same la lb = record {
  normalized = rw same k.normalized;
  pre_processed = omega (
    arith,
    ap (count_entities (has_status pre_processing)) same,
    k.pre_processed,
    h.pre_processed,
  );
  uploaded =
      omega
        (arith, ap (count_entities (has_status FileStatus.uploading)) same, k.uploaded, h.uploaded);
}

module _ {V : Type 0} (adapter : EntityAdapter (FrontendFileEntity V) select_id)
    (zero_progress : V) where
  module _ (s : UploadState V) (element : FileUploader V) (n : IsNormalized select_id s.table) where
    abbrev pub all_files : List (FrontendFileEntity V)
    all_files = select_all s.table s.table.ids

    abbrev pub found : FileStatus → ℕ → List (FrontendFileEntity V)
    found status k = take k (keep (has_status status) all_files)

    found-AreFiles : (status : FileStatus) (k : ℕ) → AreFiles s status (found status k)
    found-AreFiles status k =
        All-take _ k (keep (has_status status) all_files)
          (All-keep_with _ (has_status status) all_files (select_all-known s.table n s.table.ids))

    found-Distinct : (status : FileStatus) (k : ℕ) → Distinct (map select_id (found status k))
    found-Distinct status k =
        Distinct-map-take select_id k (keep (has_status status) all_files) (
          Distinct-map-keep select_id (has_status status) all_files (Distinct-select_all s.table n))

    find_files_to_pre_process-found :
        find_files_to_pre_process (map_state s element)
        ≡ found pending (max_concurrent_pre_processing - being_pre_processed s)
    unfolding find_files_to_pre_process map_state
    find_files_to_pre_process-found =
        find_files_with_status_lem pending pre_processing max_concurrent_pre_processing
          (map_state s element) refl
        ∙ ap (λ k. found pending (max_concurrent_pre_processing - k))
            (length-keep-select_all s.table (has_status pre_processing) s.table.ids)

    find_files_to_upload-found :
        find_files_to_upload (map_state s element)
        ≡ found awaiting_upload (max_concurrent_uploads - being_uploaded s)
    unfolding find_files_to_upload map_state
    find_files_to_upload-found =
        find_files_with_status_lem awaiting_upload FileStatus.uploading max_concurrent_uploads
          (map_state s element) refl
        ∙ ap (λ k. found awaiting_upload (max_concurrent_uploads - k))
            (length-keep-select_all s.table (has_status FileStatus.uploading) s.table.ids)

  abbrev drag_events : ChangedProperties → FileUploader V → List UploaderEvent
  drag_events changed element =
      if changed.is_dragging then drop_zone_dragging element.is_dragging ∷ [] else []

  abbrev starting_events :
      List (FrontendFileEntity V) → List (FrontendFileEntity V) → List UploaderEvent
  starting_events ps us = pre_process_events ps ++ (inference_events us ++ upload_events us)

  update_events_lem :
      (changed : ChangedProperties) (element : FileUploader V)
      → changed.uploading_files ≡ true
      → changed.last_selected_files ≡ false
      → update_events changed element
        ≡ starting_events (find_files_to_pre_process element) (find_files_to_upload element)
          ++ (drag_events changed element ++ [])
  unfolding update_events
  update_events_lem changed element f n = rw (f, n) refl

  -- What the events of an update start.
  pub dispatch_all-Starts :
      (changed : ChangedProperties) (s : UploadState V) (element : FileUploader V)
      → changed.uploading_files ≡ true
      → changed.last_selected_files ≡ false
      → (n : IsNormalized select_id s.table)
      → (s' : UploadState V) × Starts
          (length
            (found s element n pending (max_concurrent_pre_processing - being_pre_processed s)))
          (length (found s element n awaiting_upload (max_concurrent_uploads - being_uploaded s)))
          s
          s'
        × ((dispatch_all zero_progress adapter
              (update_events changed (map_state s element))
              s).table
            ≡ s'.table)
  dispatch_all-Starts changed s element files_changed none_selected n =
      let element' = map_state s element in
      let ps = found s element n pending (max_concurrent_pre_processing - being_pre_processed s) in
      let us = found s element n awaiting_upload (max_concurrent_uploads - being_uploaded s) in
      let drag = drag_events changed element' in
      let s' = dispatch_all zero_progress adapter (starting_events ps us) s in
      let events : update_events changed element' ≡ starting_events ps us ++ (drag ++ []) =
        update_events_lem changed element' files_changed none_selected
        ∙ ap (λ xs. starting_events xs (find_files_to_upload element') ++ (drag ++ []))
            (find_files_to_pre_process-found s element n)
        ∙ ap (λ xs. starting_events ps xs ++ (drag ++ []))
            (find_files_to_upload-found s element n) in
      (
        s',
        starting-Starts adapter zero_progress ps us s n (found-Distinct s element n pending _)
            (found-AreFiles s element n pending _) (found-Distinct s element n awaiting_upload _)
            (found-AreFiles s element n awaiting_upload _),
        ap (λ xs. (dispatch_all zero_progress adapter xs s).table)
              (events ∙ ap (starting_events ps us ++◌) (append-nil drag))
            ∙ ap (λ z. z.table)
                (dispatch_all-append adapter zero_progress (starting_events ps us) drag s)
            ∙ dragging-Starts adapter zero_progress changed element' s',
      )

  -- Where the table is normalised, and no more files are processed than the uploader allows, this is
  -- so after the actions of all events that an update of the uploader dispatches when its files
  -- change and no new ones were selected, whether or not the user drags something meanwhile.
  pub dispatch_all-IsThrottled :
      (changed : ChangedProperties) (s : UploadState V) (element : FileUploader V)
      → changed.uploading_files ≡ true
      → changed.last_selected_files ≡ false
      → IsThrottled s
      → IsThrottled
          (dispatch_all zero_progress adapter (update_events changed (map_state s element)) s)
  dispatch_all-IsThrottled changed s element files_changed none_selected h =
      let n = h.normalized in
      let (s', started, after) =
        dispatch_all-Starts changed s element files_changed none_selected n in
      throttled s s' _ _ h started after
        (length-take-le _ (keep (has_status pending) (all_files s element n)))
        (length-take-le _ (keep (has_status awaiting_upload) (all_files s element n)))
