-- ===== src/Elements/Uploader/Starting.antt =====
-- file-uploader.ts: what a started operation does to the numbers of files that are processed.
use mathlib.Core.Option
use mallard.Common.{
  All-map, All-always, text_eq, eq_of_text_eq, ℕ, ◌+◌, length, map, ◌≡◌, refl, ap, ◌∙◌, text_Eq,
  mem, Distinct, some, Bool, true, false, Bool-cases, inl, inr, List, [], ◌∷◌, All, arith,
}
use mallard.Types.{EntityId}
use mallard.Adapter.{IsNormalized, EntityAdapter}
use mallard.Adapter.Normalized.{update_one-IsNormalized, update_many-IsNormalized}
use mallard.Adapter.Count.{
  count_entities, flag_at, update_each, count-set_one, count-set_each, flags_stay,
}
use mallard.Adapter.Entities.{entities-update_each}
use mallard.Adapter.Steady.{count-steady_one, count-steady}
use mallard.Upload.State.{FileStatus, pre_processing, FrontendFileEntity, UploadState, select_id}
use mallard.Upload.Reducers.{pre_process_files_pending, upload_file_pending}
use mallard.Upload.Actions.{upload_reducer}
use mallard.Elements.Uploader.{upload_ready, has_status, dispatch_all}

abbrev pub being_pre_processed : {V : Type 0} → UploadState V → ℕ
being_pre_processed s = count_entities (has_status pre_processing) s.table

abbrev pub being_uploaded : {V : Type 0} → UploadState V → ℕ
being_uploaded s = count_entities (has_status FileStatus.uploading) s.table

-- A step that starts so many of each.
pub record Starts {V : Type 0} (a : ℕ) (b : ℕ) (s : UploadState V) (s' : UploadState V)
    : Type 0 where
  pub normalized : IsNormalized select_id s'.table
  pub pre_processed : being_pre_processed s' ≡ being_pre_processed s + a
  pub uploaded : being_uploaded s' ≡ being_uploaded s + b

abbrev pub HasFlag : {V : Type 0} → FileStatus → Bool → UploadState V → EntityId → Type 0
HasFlag status b s j = flag_at (has_status status) s.table j ≡ some b

-- A file with one value of a flag is not among files with the other.
pub not_mem_of_flag :
    {V : Type 0} (status : FileStatus) (s : UploadState V) (k : EntityId) (js : List EntityId)
    → HasFlag status false s k
    → All (HasFlag status true s) js
    → mem k js ≡ false
not_mem_of_flag status s k [] h _ = refl
not_mem_of_flag status s k (j ∷ js) h (g, gs) = elim (Bool-cases (text_eq j k)) [
  | inl same ↦ ground (arith, ap (flag_at (has_status status) s.table) (eq_of_text_eq j k same))
  | inr other ↦ rw other (not_mem_of_flag status s k js h gs)
]

module _ {V : Type 0} (adapter : EntityAdapter (FrontendFileEntity V) select_id) where
  pub pre_process-Starts :
      (ids : List EntityId) (s : UploadState V)
      → IsNormalized select_id s.table
      → Distinct ids
      → All (HasFlag pre_processing false s) ids
      → All (HasFlag FileStatus.uploading false s) ids
      → Starts (length ids) 0 s (pre_process_files_pending adapter ids s)
  unfolding pre_process_files_pending
  pre_process-Starts ids s n d p u =
      let f : FrontendFileEntity V → FrontendFileEntity V =
        λ e. record e { status = pre_processing } in
      record {
        normalized =
            update_many-IsNormalized adapter (map (λ j. (j, f)) ids) s.table
              (All-map _ (λ j. (j, f)) ids (All-always _ ids (λ j e. refl))) n;
        pre_processed =
            count-set_each adapter (has_status pre_processing) f (λ e. refl) true (λ e. refl) ids
              s.table n d p;
        uploaded =
            count-steady adapter (has_status FileStatus.uploading) false (map (λ j. (j, f)) ids)
              s.table (All-map _ (λ j. (j, f)) ids (All-always _ ids (λ j e. refl)))
              (All-map _ (λ j. (j, f)) ids (All-always _ ids (λ j e. refl)))
              (All-map _ (λ j. (j, f)) ids u)
            ∙ omega arith;
      }

  -- Files that are not pre-processed keep their flags meanwhile.
  pub pre_process-flags :
      (status : FileStatus) (b : Bool) (ids ks : List EntityId) (s : UploadState V)
      → All (HasFlag status b s) ks
      → All (λ k. mem k ids ≡ false) ks
      → All (HasFlag status b (pre_process_files_pending adapter ids s)) ks
  unfolding pre_process_files_pending
  pre_process-flags status b ids [] s _ _ = tt
  pre_process-flags status b ids (k ∷ ks) s (h, hs) (m, ms) =
      let f : FrontendFileEntity V → FrontendFileEntity V =
        λ e. record e { status = pre_processing } in
      let same : (update_each adapter f ids s.table).entities k ≡ s.table.entities k =
        entities-update_each adapter f (λ e. refl) (λ e. refl) ids s.table k ∙ rw m refl in
      (ap (Option.map (has_status status)) same ∙ h, pre_process-flags status b ids ks s hs ms)

  upload-Starts :
      (k : EntityId) (s : UploadState V)
      → IsNormalized select_id s.table
      → HasFlag pre_processing false s k
      → HasFlag FileStatus.uploading false s k
      → Starts 0 1 s (upload_file_pending adapter k s)
  unfolding upload_file_pending
  upload-Starts k s n p u =
      let f : FrontendFileEntity V → FrontendFileEntity V =
        λ e. record e { status = FileStatus.uploading } in
      record {
        normalized = update_one-IsNormalized adapter (k, f) s.table (λ e. refl) n;
        pre_processed =
            count-steady_one adapter (has_status pre_processing) false (k, f) s.table (λ e. refl)
              (λ e. refl) p
            ∙ omega arith;
        uploaded =
            count-set_one adapter (has_status FileStatus.uploading) f (λ e. refl) true (λ e. refl) k
              s.table n u;
      }

  upload-flags :
      (status : FileStatus) (b : Bool) (k : EntityId) (ks : List EntityId) (s : UploadState V)
      → mem k ks ≡ false
      → All (HasFlag status b s) ks
      → All (HasFlag status b (upload_file_pending adapter k s)) ks
  unfolding upload_file_pending
  upload-flags status b k ks s m h =
      flags_stay adapter (has_status status) (λ e. record e { status = FileStatus.uploading })
        (λ e. refl) k s.table (some b) ks m h

  module _ (zero_progress : V) where
    pub uploads-Starts :
        (ks : List EntityId) (s : UploadState V)
        → IsNormalized select_id s.table
        → Distinct ks
        → All (HasFlag pre_processing false s) ks
        → All (HasFlag FileStatus.uploading false s) ks
        → Starts 0 (length ks) s (dispatch_all zero_progress adapter (map upload_ready ks) s)
    unfolding dispatch_all upload_reducer
    uploads-Starts [] s n _ _ _ = record {
      normalized = n;
      pre_processed = omega arith;
      uploaded = omega arith;
    }
    uploads-Starts (k ∷ ks) s n (m, d) (p, ps) (u, us) =
        let s' = upload_file_pending adapter k s in
        let first = upload-Starts k s n p u in
        let rest =
          uploads-Starts ks s' first.normalized d (upload-flags pre_processing false k ks s m ps)
            (upload-flags FileStatus.uploading false k ks s m us) in
        record {
          normalized = rest.normalized;
          pre_processed = omega (arith, first.pre_processed, rest.pre_processed);
          uploaded = omega (arith, first.uploaded, rest.uploaded);
        }
