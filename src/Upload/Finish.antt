-- ===== src/Upload/Finish.antt =====
-- upload-slice.ts, thunkFinishUpload: what a finished upload does.
use mallard.Common.{
  ◌>>=◌, append_assoc, Text, ◌≡◌, refl, sym, Option, none, some, Bool, true, false, ◌⊎◌,
  if◌then◌else◌, Bool-cases, inl, inr, List, [], ◌∷◌, ◌++◌, map, All, Any, Any-append_inr,
}
use mallard.Types.{TypedObjectRef, EntityId}
use mallard.Adapter.{EntityAdapter}
use mallard.Upload.State.{FrontendFileEntity, Metadata, UploadState, select_id}
use mallard.Upload.Reducers.{dialog_closed}
use mallard.Upload.Thunks.{
  Effect, Step, release_thumbnail, release_url, batch_update, revoke_object_url, clear_image_view,
  object_refs, update_metadata_from_state, revocations, finish_upload,
}
use mathlib.Core.Path.{subst}

module _ {V : Type 0} where
  -- The object that the backend keeps for a file of the table.
  abbrev pub uploaded_object : UploadState V → EntityId → Option TypedObjectRef
  uploaded_object s id = s.table.entities id >>= λ (file : FrontendFileEntity V). file.backend_ref

  -- The backend has an object for a file of the table.
  abbrev pub IsUploaded : UploadState V → EntityId → Type 0
  IsUploaded s id =
      (file : FrontendFileEntity V) × (ref : TypedObjectRef) × (s.table.entities id ≡ some file)
      × (file.backend_ref ≡ some ref)

  object_refs_lem :
      (s : UploadState V) (ids : List EntityId)
      → All (IsUploaded s) ids
      → (refs : List TypedObjectRef) × (object_refs s ids ≡ some refs)
        × (map some refs ≡ map (uploaded_object s) ids)
  unfolding object_refs
  object_refs_lem s [] h = ([], refl, refl)
  object_refs_lem s (id ∷ ids) ((file, ref, known, stored), h) =
      let (refs, found, same) = object_refs_lem s ids h in
      (ref ∷ refs, rw (known, stored, found), rw (known, stored, same))

  -- A file's thumbnail is revoked by the effects, if it has one.
  abbrev pub IsRevoked : List (Effect V) → Option Text → Type 0
  IsRevoked effects none = Unit
  IsRevoked effects (some []) = Unit
  IsRevoked effects (some (c ∷ u)) = Any (λ x. x ≡ revoke_object_url (c ∷ u)) effects

  abbrev pub IsReleased : List (Effect V) → Option (FrontendFileEntity V) → Type 0
  IsReleased effects none = Unit
  IsReleased effects (some file) = IsRevoked effects file.thumbnail_url

  url-IsRevoked :
      (before rest : List (Effect V)) (url : Option Text)
      → IsRevoked (before ++ (release_url url ++ rest)) url
  url-IsRevoked before rest none = tt
  url-IsRevoked before rest (some []) = tt
  url-IsRevoked before rest (some (c ∷ u)) = Any-append_inr _ before _ (inl refl)

  file-IsReleased :
      (before rest : List (Effect V)) (file : Option (FrontendFileEntity V))
      → IsReleased (before ++ (release_thumbnail file ++ rest)) file
  file-IsReleased before rest none = tt
  file-IsReleased before rest (some file) = url-IsRevoked before rest file.thumbnail_url

  revocations-IsReleased :
      (s : UploadState V) (before : List (Effect V)) (ids : List EntityId)
      → All (λ id. IsReleased (before ++ revocations s ids) (s.table.entities id)) ids
  unfolding revocations
  revocations-IsReleased s before [] = tt
  revocations-IsReleased s before (id ∷ ids) =
      let first = release_thumbnail (s.table.entities id) in
      (
        file-IsReleased before (revocations s ids) (s.table.entities id),
        subst (λ effects. All (λ j. IsReleased effects (s.table.entities j)) ids)
            (append_assoc before first (revocations s ids))
            (revocations-IsReleased s (before ++ first) ids),
      )

  -- What a finished upload whose metadata were taken does in a state, for the objects `refs`, and
  -- the slice's state after it.
  pub record Finishes (s : UploadState V) (refs : List TypedObjectRef)
      (result : Step V × UploadState V) : Type 0 where
    pub returns : result.0.thrown ≡ false
    pub releases : List (Effect V)
    pub in_order :
        result.0.effects
        ≡ (if s.metadata_changed then batch_update s.metadata refs ∷ [] else [])
          ++ releases
          ++ clear_image_view ∷ []
    pub released : All (λ id. IsReleased releases (s.table.entities id)) s.table.ids
    pub closed : result.1.dialog_open ≡ false
    pub empty : result.1.table.ids ≡ []

  module _ (adapter : EntityAdapter (FrontendFileEntity V) select_id)
      (accepts : Option (Metadata V) → List TypedObjectRef → Bool) (s later : UploadState V) where
    -- The two ways in which an upload of files with the objects `refs` can end.
    abbrev pub Ends : List TypedObjectRef → Step V × UploadState V → Type 0
    Ends refs result =
        (s.metadata_changed ≡ true)
          × (accepts s.metadata refs ≡ false)
          × (result
              ≡ (record { effects = batch_update s.metadata refs ∷ []; thrown = true }, later))
        ⊎ (s.metadata_changed ≡ true → accepts s.metadata refs ≡ true) × Finishes s refs result

    abbrev success : List TypedObjectRef → Step V × UploadState V
    success refs = (
      record {
        effects =
            (if s.metadata_changed then batch_update s.metadata refs ∷ [] else [])
            ++ revocations s s.table.ids
            ++ clear_image_view ∷ [];
        thrown = false;
      },
      dialog_closed adapter later,
    )

    success-Finishes :
        (refs : List TypedObjectRef) (result : Step V × UploadState V)
        → result ≡ success refs
        → Finishes s refs result
    unfolding dialog_closed
    success-Finishes refs result e =
        subst (λ r. Finishes s refs r) (sym e)
          (record {
            returns = refl;
            releases = revocations s s.table.ids;
            in_order = refl;
            released = revocations-IsReleased s [] s.table.ids;
            closed = refl;
            empty = adapter.ids_remove_all later.table;
          })

    finish_upload-Ends :
        (refs : List TypedObjectRef)
        → object_refs s s.table.ids ≡ some refs
        → Ends refs (finish_upload adapter accepts s later)
    unfolding finish_upload
    finish_upload-Ends refs found = elim (Bool-cases s.metadata_changed) [
      | inr same ↦ inr ((λ c. cc), success-Finishes refs _ (rw same refl))
      | inl changed ↦ elim (Bool-cases (accepts s.metadata refs)) [
        | inl accepted ↦ inr (
          (λ _. accepted),
          success-Finishes refs _ (rw (update_metadata_from_state, found, accepted, changed) refl),
        )
        | inr rejected ↦
            inl (changed, rejected, rw (update_metadata_from_state, found, rejected, changed) refl)
      ]
    ]

    -- Where the backend has an object for every file of the table: if the metadata were changed, a
    -- finished upload first sends them for the objects of all files, in the order of the table. If
    -- this update is rejected, it throws, does nothing else, and the slice's state is what it was by
    -- then. Otherwise it does not throw: it revokes the thumbnail of every file that has one, and
    -- clears the image view; afterwards the dialog is closed and its table is empty.
    pub finish_upload_lem :
        All (IsUploaded s) s.table.ids
        → (refs : List TypedObjectRef) × (map some refs ≡ map (uploaded_object s) s.table.ids)
          × Ends refs (finish_upload adapter accepts s later)
    finish_upload_lem h =
        let (refs, found, same) = object_refs_lem s s.table.ids h in
        (refs, same, finish_upload-Ends refs found)
