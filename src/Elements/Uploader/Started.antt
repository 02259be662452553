-- ===== src/Elements/Uploader/Started.antt =====
-- file-uploader.ts: what the events of an update start.
use mathlib.Core.Option
use mathlib.Core.Path.{subst}
use mallard.Common.{
  length-map, ◌==◌, length, map, ◌≡◌, refl, ap, sym, ◌∙◌, text_Eq, Distinct, some, Bool, true,
  false, if◌then◌else◌, Bool-cases, inl, inr, List, [], ◌∷◌, ◌++◌, All, All-imp, arith,
}
use mallard.Types.{EntityId}
use mallard.Adapter.{IsNormalized, EntityAdapter}
use mallard.Adapter.Count.{count_entities, flag_at}
use mallard.Upload.State.{
  FileStatus, pending, pre_processing, awaiting_upload, FrontendFileEntity, UploadState, select_id,
}
use mallard.Upload.Reducers.{
  pre_process_files_pending, infer_metadata_pending, file_drop_zone_entered, file_drop_zone_exited,
}
use mallard.Upload.Thunks.{infer_metadata_condition}
use mallard.Upload.Actions.{upload_reducer}
use mallard.Elements.Uploader.{
  FileUploader, UploaderEvent, upload_ready, drop_zone_dragging, ChangedProperties, status_number,
  has_status, pre_process_events, inference_events, upload_events, dispatch, dispatch_all,
}
use mallard.Elements.Uploader.Starting.{
  Starts, HasFlag, not_mem_of_flag, pre_process-Starts, pre_process-flags, uploads-Starts,
}
use mallard.Elements.Uploader.Found.{exclusive}

module _ {V : Type 0} (s : UploadState V) where
  -- Files of the table with a status.
  abbrev pub AreFiles : FileStatus → List (FrontendFileEntity V) → Type 0
  AreFiles status files =
      All (λ e. (s.table.entities e.id ≡ some e) × (has_status status e ≡ true)) files

  flags-of_AreFiles :
      (status other : FileStatus) (b : Bool) (files : List (FrontendFileEntity V))
      → ((e : FrontendFileEntity V) → has_status status e ≡ true → has_status other e ≡ b)
      → AreFiles status files
      → All (HasFlag other b s) (map select_id files)
  flags-of_AreFiles status other b [] h _ = tt
  flags-of_AreFiles status other b (e ∷ files) h ((known, k), ks) = (
    ap (Option.map (has_status other)) known ∙ ap some (h e k),
    flags-of_AreFiles status other b files h ks,
  )

  flags_table :
      (status : FileStatus) (b : Bool) (s' : UploadState V) (ks : List EntityId)
      → s'.table ≡ s.table
      → All (HasFlag status b s) ks
      → All (HasFlag status b s') ks
  flags_table status b s' ks e h =
      subst (λ t. All (λ j. flag_at (has_status status) t j ≡ some b) ks) (sym e) h

-- As many more as there is room for.
excludes :
    {V : Type 0} (status other : FileStatus) (e : FrontendFileEntity V)
    → status_number status == status_number other ≡ false
    → has_status status e ≡ true
    → has_status other e ≡ false
excludes status other e h k = exclusive (status_number status) (status_number other) _ h k

module _ {V : Type 0} (adapter : EntityAdapter (FrontendFileEntity V) select_id)
    (zero_progress : V) where
  pub dispatch_all-append :
      (xs ys : List UploaderEvent) (s : UploadState V)
      → dispatch_all zero_progress adapter (xs ++ ys) s
        ≡ dispatch_all zero_progress adapter ys (dispatch_all zero_progress adapter xs s)
  unfolding dispatch_all
  dispatch_all-append [] ys s = refl
  dispatch_all-append (x ∷ xs) ys s = dispatch_all-append xs ys (dispatch zero_progress adapter x s)

  pre_process_events-Starts :
      (files : List (FrontendFileEntity V)) (s : UploadState V)
      → IsNormalized select_id s.table
      → Distinct (map select_id files)
      → AreFiles s pending files
      → Starts (length files) 0 s (dispatch_all zero_progress adapter (pre_process_events files) s)
  unfolding dispatch_all upload_reducer
  pre_process_events-Starts [] s n d h = record {
    normalized = n;
    pre_processed = omega arith;
    uploaded = omega arith;
  }
  pre_process_events-Starts (f ∷ files) s n d h =
      let ids = map select_id (f ∷ files) in
      subst (λ k. Starts k 0 s (pre_process_files_pending adapter ids s))
        (length-map select_id (f ∷ files))
        (pre_process-Starts adapter ids s n d
          (flags-of_AreFiles s pending pre_processing false (f ∷ files)
            (λ e. excludes pending pre_processing e refl) h)
          (flags-of_AreFiles s pending FileStatus.uploading false (f ∷ files)
            (λ e. excludes pending FileStatus.uploading e refl) h))

  pre_process_events-flags :
      (status : FileStatus) (files : List (FrontendFileEntity V)) (ks : List EntityId)
      (s : UploadState V)
      → AreFiles s pending files
      → All (HasFlag pending false s) ks
      → All (HasFlag status false s) ks
      → All
          (HasFlag status false (dispatch_all zero_progress adapter (pre_process_events files) s))
          ks
  unfolding dispatch_all upload_reducer
  pre_process_events-flags status [] ks s h p k = k
  pre_process_events-flags status (f ∷ files) ks s h p k =
      pre_process-flags adapter status false (map select_id (f ∷ files)) ks s k (
        All-imp _ _ ks
          (λ j g.
            not_mem_of_flag pending s j (map select_id (f ∷ files)) g
              (flags-of_AreFiles s pending pending true (f ∷ files) (λ e k. k) h))
          p)

  inference_events-table :
      (files : List (FrontendFileEntity V)) (s : UploadState V)
      → (dispatch_all zero_progress adapter (inference_events files) s).table ≡ s.table
  unfolding dispatch_all upload_reducer infer_metadata_pending
  inference_events-table [] s = refl
  inference_events-table (f ∷ files) s = elim (Bool-cases (infer_metadata_condition s)) [
    | inl first ↦ rw first refl
    | inr later ↦ rw later refl
  ]

  upload_events-map :
      (files : List (FrontendFileEntity V))
      → upload_events files ≡ map upload_ready (map select_id files)
  upload_events-map [] = refl
  upload_events-map (f ∷ files) = ap (upload_ready f.id ∷◌) (upload_events-map files)

  -- The three kinds of events, one after the other.
  pub starting-Starts :
      (ps us : List (FrontendFileEntity V)) (s : UploadState V)
      → IsNormalized select_id s.table
      → Distinct (map select_id ps)
      → AreFiles s pending ps
      → Distinct (map select_id us)
      → AreFiles s awaiting_upload us
      → Starts (length ps) (length us) s (
          dispatch_all zero_progress adapter
            (pre_process_events ps ++ (inference_events us ++ upload_events us))
            s)
  starting-Starts ps us s n dp hp du hu =
      let s' = dispatch_all zero_progress adapter (pre_process_events ps) s in
      let s'' = dispatch_all zero_progress adapter (inference_events us) s' in
      let first = pre_process_events-Starts ps s n dp hp in
      let same : s''.table ≡ s'.table = inference_events-table us s' in
      let flags : (status : FileStatus)
          → status_number awaiting_upload == status_number status ≡ false
          → All (HasFlag status false s'') (map select_id us) =
        λ status h. flags_table s' status false s'' _ same (
          pre_process_events-flags status ps (map select_id us) s hp
            (flags-of_AreFiles s awaiting_upload pending false us
              (λ e. excludes awaiting_upload pending e refl) hu)
            (flags-of_AreFiles s awaiting_upload status false us
              (λ e. excludes awaiting_upload status e h) hu)) in
      let last =
        uploads-Starts adapter zero_progress (map select_id us) s'' (rw same first.normalized) du
          (flags pre_processing refl) (flags FileStatus.uploading refl) in
      let parts : dispatch_all zero_progress adapter (map upload_ready (map select_id us)) s''
          ≡ dispatch_all zero_progress adapter
              (pre_process_events ps ++ (inference_events us ++ upload_events us)) s =
        sym (
          dispatch_all-append (pre_process_events ps) (inference_events us ++ upload_events us) s
          ∙ dispatch_all-append (inference_events us) (upload_events us) s'
          ∙ ap (λ events. dispatch_all zero_progress adapter events s'') (upload_events-map us)) in
      let pre_count = ap (count_entities (has_status pre_processing)) same in
      let up_count = ap (count_entities (has_status FileStatus.uploading)) same in
      subst (Starts (length ps) (length us) s) parts (record {
        normalized = last.normalized;
        pre_processed = omega (arith, last.pre_processed, pre_count, first.pre_processed);
        uploaded = omega (arith, last.uploaded, up_count, first.uploaded, length-map select_id us);
      })

  pub dragging-Starts :
      (changed : ChangedProperties) (element : FileUploader V) (s : UploadState V)
      → (dispatch_all zero_progress adapter
          (if changed.is_dragging then drop_zone_dragging element.is_dragging ∷ [] else [])
          s).table
        ≡ s.table
  unfolding dispatch_all upload_reducer file_drop_zone_entered file_drop_zone_exited
  dragging-Starts changed element s = elim (Bool-cases changed.is_dragging) [
    | inl drag ↦ elim (Bool-cases element.is_dragging) [
      | inl entered ↦ rw (drag, entered) refl
      | inr left ↦ rw (drag, left) refl
    ]
    | inr still ↦ rw still refl
  ]
