-- ===== src/Upload/Counters.antt =====
-- upload-slice.ts: how the single reducers change the upload counters and the files of the table.
use mallard.Common.{
  All-map, All-always, ◌+◌, ◌≡◌, refl, ap, sym, ◌∙◌, length, map, text_Eq, some, Bool, true, false,
  not, Bool-cases, inl, inr, List, [], ◌∷◌, All, All-imp, arith, count,
}
use mallard.Common.Int.{pos, counter-add, counter-sub}
use mallard.Types.{TypedObjectRef, EntityId, NormalizedState}
use mallard.Adapter.{IsNormalized, Update, KeepsId, EntityAdapter}
use mallard.Adapter.Normalized.{
  update_one-IsNormalized, update_many-IsNormalized, add_many-IsNormalized, remove_all-IsNormalized,
}
use mallard.Adapter.Count.{at_id, count_entities, count-update_one_same, count-set_one}
use mallard.Adapter.Steady.{count-steady, count-add_many}
use mallard.Upload.State.{
  FileStatus, pre_processing, awaiting_upload, FrontendFileEntity, UploadState, select_id,
}
use mallard.Upload.Reducers.{
  File, FileIdWithData, prepare, is_supported, dialog_closed, upload_file_fulfilled,
  add_selected_files, pre_process_files_pending, pre_process_files_fulfilled,
}
use mallard.Upload.Actions.{selected_files, is_complete, IsOpen, IsAllowed}

abbrev is_open : {V : Type 0} → FrontendFileEntity V → Bool
is_open e = not (is_complete e)

-- The table is normalised, and the counters are the numbers of its files that are still to be
-- uploaded, and that are uploaded.
pub record IsTracked {V : Type 0} (s : UploadState V) : Type 0 where
  pub normalized : IsNormalized select_id s.table
  pub in_progress : s.uploads_in_progress ≡ pos (count_entities is_open s.table)
  pub completed : s.uploads_completed ≡ count_entities is_complete s.table

module _ {V : Type 0} (adapter : EntityAdapter (FrontendFileEntity V) select_id) where
  abbrev Keeps : List (Update (FrontendFileEntity V)) → Type 0
  Keeps us = All (λ (u : Update (FrontendFileEntity V)). KeepsId select_id u.1) us

  -- Updates that leave open files open, and the rest of the state's counters alone.
  pub steady-IsTracked :
      (us : List (Update (FrontendFileEntity V))) (s s' : UploadState V)
      → Keeps us
      → All
          (λ (u : Update (FrontendFileEntity V)).
            (e : FrontendFileEntity V) → is_complete (u.1 e) ≡ false)
          us
      → All (λ (u : Update (FrontendFileEntity V)). IsOpen s u.0) us
      → s'.table ≡ adapter.update_many us s.table
      → s'.uploads_in_progress ≡ s.uploads_in_progress
      → s'.uploads_completed ≡ s.uploads_completed
      → IsTracked s
      → IsTracked s'
  steady-IsTracked us s s' k off open' t p c h = record {
    normalized = rw t (update_many-IsNormalized adapter us s.table k h.normalized);
    in_progress =
        p
        ∙ h.in_progress
        ∙ ap pos (
            sym (
              ap (count_entities is_open) t
              ∙ count-steady adapter is_open true us s.table k
                  (All-imp _ _ us (λ u f e. ap not (f e)) off)
                  (All-imp _ _ us (λ u f. ground arith) open')));
    completed =
        c
        ∙ h.completed
        ∙ sym (
            ap (count_entities is_complete) t
            ∙ count-steady adapter is_complete false us s.table k off open');
  }

  pub uploaded_file-IsTracked :
      (id : EntityId) (ref : TypedObjectRef) (s : UploadState V)
      → IsOpen s id
      → IsTracked s
      → IsTracked (upload_file_fulfilled adapter id ref s)
  unfolding upload_file_fulfilled
  uploaded_file-IsTracked id ref s o h =
      let f : FrontendFileEntity V → FrontendFileEntity V =
        λ e. record e { status = FileStatus.complete; backend_ref = some ref } in
      let one_more =
        count-set_one adapter is_complete f (λ e. refl) true (λ e. refl) id s.table h.normalized
          o in
      let one_less =
        count-set_one adapter is_open f (λ e. refl) false (λ e. refl) id s.table h.normalized
          (ground arith) in
      record {
        normalized = update_one-IsNormalized adapter (id, f) s.table (λ e. refl) h.normalized;
        in_progress = counter-sub _ _ 1 s.uploads_in_progress h.in_progress one_less;
        completed = ap (◌+ 1) h.completed ∙ sym one_more;
      }

  prepare-pending :
      (z : V) (files : List (EntityId × File)) → All (λ e. is_complete e ≡ false) (prepare z files)
  unfolding prepare
  prepare-pending z [] = tt
  prepare-pending z (f ∷ files) = elim (Bool-cases (is_supported ((f.1).type))) [
    | inl supported ↦ rw supported (refl, prepare-pending z files)
    | inr unsupported ↦ rw unsupported (prepare-pending z files)
  ]

  pub selected_files-IsTracked :
      (z : V) (files : List (EntityId × File)) (s : UploadState V)
      → IsAllowed (selected_files z files) s
      → IsTracked s
      → IsTracked (add_selected_files adapter (prepare z files) s)
  unfolding add_selected_files
  selected_files-IsTracked z files s (d, new) h =
      let es = prepare z files in
      let off = prepare-pending z files in
      record {
        normalized = add_many-IsNormalized adapter es s.table h.normalized;
        in_progress = counter-add _ _ (length es) s.uploads_in_progress h.in_progress (
            count-add_many adapter is_open true es s.table h.normalized d new
              (All-imp _ _ es (λ e k. ap not k) off));
        completed =
            h.completed
            ∙ sym (
                count-add_many adapter is_complete false es s.table h.normalized d new off
                ∙ omega arith);
      }

  pub same_table-IsTracked :
      (f : FrontendFileEntity V → FrontendFileEntity V) (id : EntityId) (s : UploadState V)
      → KeepsId select_id f
      → ((e : FrontendFileEntity V) → is_complete (f e) ≡ is_complete e)
      → IsTracked s
      → IsTracked (record s { table = adapter.update_one (id, f) s.table })
  same_table-IsTracked f id s k same h = record {
    normalized = update_one-IsNormalized adapter (id, f) s.table k h.normalized;
    in_progress =
        h.in_progress
        ∙ ap pos
            (sym (count-update_one_same adapter is_open f k (λ e. ap not (same e)) id s.table));
    completed = h.completed ∙ sym (count-update_one_same adapter is_complete f k same id s.table);
  }

  pub one_update :
      (u : Update (FrontendFileEntity V)) (t : NormalizedState (FrontendFileEntity V))
      → adapter.update_one u t ≡ adapter.update_many (u ∷ []) t
  one_update u t =
      sym (adapter.update_many_cons u [] t ∙ adapter.update_many_nil (adapter.update_one u t))

  pub pre_processing-IsTracked :
      (ids : List EntityId) (s : UploadState V)
      → All (IsOpen s) ids
      → IsTracked s
      → IsTracked (pre_process_files_pending adapter ids s)
  unfolding pre_process_files_pending
  pre_processing-IsTracked ids s o h =
      let f : EntityId → Update (FrontendFileEntity V) =
        λ j. (j, λ e. record e { status = pre_processing }) in
      steady-IsTracked (map f ids) s _ (All-map _ f ids (All-always _ ids (λ j e. refl)))
        (All-map _ f ids (All-always _ ids (λ j e. refl))) (All-map _ f ids o) refl refl refl h

  pub pre_processed-IsTracked :
      (fs : List FileIdWithData) (s : UploadState V)
      → All (λ (f : FileIdWithData). IsOpen s f.id) fs
      → IsTracked s
      → IsTracked (pre_process_files_fulfilled adapter fs s)
  unfolding pre_process_files_fulfilled
  pre_processed-IsTracked fs s o h =
      let f : FileIdWithData → Update (FrontendFileEntity V) =
        λ x. (x.id, λ e. record e { status = awaiting_upload; thumbnail_url = x.data_url }) in
      steady-IsTracked (map f fs) s _ (All-map _ f fs (All-always _ fs (λ j e. refl)))
        (All-map _ f fs (All-always _ fs (λ j e. refl))) (All-map _ f fs o) refl refl refl h

  pub closed-IsTracked :
      (s : UploadState V) → s.uploads_in_progress ≡ pos 0 → IsTracked (dialog_closed adapter s)
  unfolding dialog_closed count
  closed-IsTracked s none_left = record {
    normalized = remove_all-IsNormalized adapter s.table;
    in_progress =
        none_left
        ∙ ap pos (
            sym (
              ap (count (at_id is_open (adapter.remove_all s.table)))
                (adapter.ids_remove_all s.table)));
    completed = sym (
        ap (count (at_id is_complete (adapter.remove_all s.table)))
          (adapter.ids_remove_all s.table));
  }
