-- ===== src/Api/Updated.antt =====
-- api-client.ts: what `batchUpdateMetadata` sends.
use mallard.Common.{
  arith, ℕ, ltb, length, keep, map, ◌≡◌, refl, ap, Option, none, Bool, true, false, Bool-cases,
  Option-cases, inl, inr, List, [], ◌∷◌, Any, Any-append_inl, Any-append_inr,
}
use mallard.Types.{ObjectType, ObjectRef, TypedObjectRef}
use mallard.Api.{has_type_image, has_type_video, separate_by_type}
use mallard.Api.Updates.{
  MediaMetadata, UpdateRequest, update_images, update_videos, Outcome, clean_metadata, send_update,
  batch_update_metadata,
}

Any-keep :
    (p : ℕ → Bool) (k : ℕ) (xs : List ℕ)
    → p k ≡ true
    → Any (λ j. j ≡ k) xs
    → Any (λ j. j ≡ k) (keep p xs)
Any-keep p k [] passes h = h
Any-keep p k (x ∷ xs) passes (inl here) = rw (ap p here, passes) (inl here)
Any-keep p k (x ∷ xs) passes (inr there) = elim (Bool-cases (p x)) [
  | inl kept ↦ rw kept (inr (Any-keep p k xs passes there))
  | inr left_out ↦ rw left_out (Any-keep p k xs passes there)
]

Any-map :
    {A : Type 0} (f : ℕ → A) (k : ℕ) (xs : List ℕ)
    → Any (λ j. j ≡ k) xs
    → Any (λ x. x ≡ f k) (map f xs)
Any-map f k [] h = elim h [ ]
Any-map f k (x ∷ xs) (inl here) = inl (ap f here)
Any-map f k (x ∷ xs) (inr there) = inr (Any-map f k xs there)

not_empty : (k : ℕ) (xs : List ℕ) → Any (λ j. j ≡ k) xs → ltb 0 (length xs) ≡ true
not_empty k [] h = elim h [ ]
not_empty k (x ∷ xs) h = ground arith

module _ {V : Type 0} {M : Type 0} (heap : ℕ → TypedObjectRef) (accepts : UpdateRequest V M → Bool)
    (accepted : (q : UpdateRequest V M) → accepts q ≡ true) where
  send_update-succeeds :
      (request_for : List ObjectRef → UpdateRequest V M) (ids : List ℕ) (before : Outcome V M)
      → before.thrown ≡ false
      → (send_update heap accepts request_for ids before).thrown ≡ false
  unfolding send_update
  send_update-succeeds request_for ids before h = elim (Bool-cases (ltb 0 (length ids))) [
    | inl some_ids ↦ rw (h, some_ids, accepted (request_for (map (λ k. (heap k).id) ids))) refl
    | inr no_ids ↦ rw (h, no_ids) refl
  ]

  send_update-keeps :
      (P : UpdateRequest V M → Type 0) (request_for : List ObjectRef → UpdateRequest V M)
      (ids : List ℕ) (before : Outcome V M)
      → before.thrown ≡ false
      → Any P before.sent
      → Any P (send_update heap accepts request_for ids before).sent
  unfolding send_update
  send_update-keeps P request_for ids before h known = elim (Bool-cases (ltb 0 (length ids))) [
    | inl some_ids ↦ rw (h, some_ids) (Any-append_inl P before.sent _ known)
    | inr no_ids ↦ rw (h, no_ids) known
  ]

  send_update-sends :
      (request_for : List ObjectRef → UpdateRequest V M) (ids : List ℕ) (before : Outcome V M)
      (k : ℕ)
      → before.thrown ≡ false
      → Any (λ j. j ≡ k) ids
      → Any
          (λ q. (refs : List ObjectRef) × (q ≡ request_for refs) × Any (λ x. x ≡ (heap k).id) refs)
          (send_update heap accepts request_for ids before).sent
  unfolding send_update
  send_update-sends request_for ids before k h listed =
      rw (h, not_empty k ids listed)
        (Any-append_inr _ before.sent _ (inl (_, refl, Any-map (λ j. (heap j).id) k ids listed)))

  -- A request in the list sends these metadata for an object.
  abbrev pub IsSent :
      (List ObjectRef → UpdateRequest V M) → ObjectRef → List (UpdateRequest V M) → Type 0
  IsSent request_for ref sent =
      Any (λ q. (refs : List ObjectRef) × (q ≡ request_for refs) × Any (λ x. x ≡ ref) refs) sent

  -- The update of an artifact of a type. The function ignores the types other than two.
  abbrev pub IsUpdated :
      MediaMetadata V M → Option Bool → ObjectType → ObjectRef → List (UpdateRequest V M) → Type 0
  IsUpdated metadata increment ObjectType.image ref sent =
      IsSent (λ refs. update_images metadata refs increment) ref sent
  IsUpdated metadata increment ObjectType.video ref sent =
      IsSent (λ refs. update_videos metadata refs increment) ref sent
  IsUpdated metadata increment ObjectType.artifact ref sent = Unit
  IsUpdated metadata increment ObjectType.raster ref sent = Unit

  clean_metadata-all :
      (metadata : MediaMetadata V M)
      → clean_metadata true true true metadata ≡ record {
        name = none;
        size = none;
        num_frames = none;
        frame_rate = none;
        others = metadata.others;
      }
  unfolding clean_metadata
  clean_metadata-all metadata = elim (Option-cases metadata.num_frames) [
    | inl n_none ↦ elim (Option-cases metadata.frame_rate) [
      | inl f_none ↦ rw (n_none, f_none) refl
      | inr (r, f_some) ↦ rw (n_none, f_some) refl
    ]
    | inr (m, n_some) ↦ rw n_some refl
  ]

  -- Where every request is accepted, batchUpdateMetadata with its defaults does not throw for a list
  -- of artifacts that is not empty, and for any image or video in the list, a request of its kind is
  -- sent that names it, with the given metadata, except that the name, the size and the length
  -- parameters are undefined.
  pub batch_update_metadata_lem :
      (metadata : MediaMetadata V M) (artifacts : List ℕ) (increment : Option Bool) (k : ℕ)
      → Any (λ j. j ≡ k) artifacts
      → ((batch_update_metadata heap accepts metadata artifacts increment true true true).thrown
          ≡ false)
        × IsUpdated
            record {
              name = none;
              size = none;
              num_frames = none;
              frame_rate = none;
              others = metadata.others;
            }
            increment
            (heap k).type
            (heap k).id
            (batch_update_metadata heap accepts metadata artifacts increment true true true).sent
  unfolding batch_update_metadata separate_by_type
  batch_update_metadata_lem metadata artifacts increment k listed = (
    send_update-succeeds _ (keep (has_type_video heap) artifacts) _ images_succeed,
    rw⁻¹ (clean_metadata-all metadata) (updated (heap k).type refl),
  )
    where
      sent : MediaMetadata V M
      sent = clean_metadata true true true metadata

      images_succeed :
          (send_update heap accepts
            (λ ids. update_images sent ids increment)
            (keep (has_type_image heap) artifacts)
            record { sent = []; thrown = false }).thrown
          ≡ false
      images_succeed = send_update-succeeds _ (keep (has_type_image heap) artifacts) _ refl

      updated :
          (ty : ObjectType)
          → (heap k).type ≡ ty
          → IsUpdated sent increment ty
              (heap k).id
              (batch_update_metadata heap accepts metadata artifacts increment true true true).sent
      updated ObjectType.image e =
          send_update-keeps _ _ (keep (has_type_video heap) artifacts) _ images_succeed (
            send_update-sends _ (keep (has_type_image heap) artifacts) _ k refl
              (Any-keep (has_type_image heap) k artifacts (rw (e, has_type_image) refl) listed))
      updated ObjectType.video e =
          send_update-sends _ (keep (has_type_video heap) artifacts) _ k images_succeed
            (Any-keep (has_type_video heap) k artifacts (rw (e, has_type_video) refl) listed)
      updated ObjectType.artifact e = tt
      updated ObjectType.raster e = tt
