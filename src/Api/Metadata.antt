-- ===== src/Api/Metadata.antt =====
-- api-client.ts: the answer of `getMetadata`.
use mallard.Common.{
  ℕ, suc, ◌==◌, ltb, length, keep, map, ◌≡◌, refl, ap, Option, none, some, Bool, true, false, ◌||◌,
  ◌&&◌, Bool-cases, inl, inr, arith, if◌then◌else◌, List, [], ◌∷◌,
}
use mallard.Types.{ObjectType, ObjectRef, TypedObjectRef}
use mallard.Api.{
  set_key, set_each, has_type_image, has_type_video, separate_by_type, request, get_metadata,
}

abbrev has : ℕ → List ℕ → Bool
has k [] = false
has k (x ∷ xs) = x == k || has k xs

has-keep : (p : ℕ → Bool) (k : ℕ) (xs : List ℕ) → has k (keep p xs) ≡ (has k xs && p k)
has-keep p k [] = refl
has-keep p k (x ∷ xs) = elim (Bool-cases (x == k)) [
  | inl here ↦ let same : x ≡ k = ground arith in ground (arith, has-keep p k xs, ap p same)
  | inr other ↦ ground (arith, has-keep p k xs)
]

module _ (heap : ℕ → TypedObjectRef) {M : Type 0} (describe : ObjectRef → M) where
  -- The entries after the answer for some IDs was set.
  abbrev assign : List ℕ → (ℕ → Option M) → ℕ → Option M
  assign [] entries = entries
  assign (k ∷ ks) entries = assign ks (set_key k (describe (heap k).id) entries)

  set_each-assign :
      (ks : List ℕ) (entries : ℕ → Option M)
      → set_each ks (map describe (map (λ k. (heap k).id) ks)) entries ≡ some (assign ks entries)
  unfolding set_each
  set_each-assign [] entries = refl
  set_each-assign (k ∷ ks) entries = set_each-assign ks (set_key k (describe (heap k).id) entries)

  assign_lem :
      (ks : List ℕ) (entries : ℕ → Option M) (k : ℕ)
      → assign ks entries k ≡ (if has k ks then some (describe (heap k).id) else entries k)
  assign_lem [] entries k = refl
  assign_lem (x ∷ ks) entries k = elim (Bool-cases (x == k)) [
    | inl here ↦
        let same : x ≡ k = ground arith in
        ground (
          arith,
          assign_lem ks (set_key x (describe (heap x).id) entries) k,
          ap (λ j. describe (heap j).id) same,
        )
    | inr other ↦ ground (arith, assign_lem ks (set_key x (describe (heap x).id) entries) k)
  ]

  request-assign :
      (find : List ObjectRef → List M)
      → ((refs : List ObjectRef) → find refs ≡ map describe refs)
      → (ks : List ℕ) (entries : ℕ → Option M)
      → request heap find ks entries ≡ some (assign ks entries)
  unfolding request
  request-assign find answers [] entries = refl
  request-assign find answers (k ∷ ks) entries =
      let some_ids : ltb 0 (suc (length ks)) ≡ true = ground arith in
      rw (some_ids, answers (map (λ j. (heap j).id) (k ∷ ks))) (set_each-assign (k ∷ ks) entries)

module _ (heap : ℕ → TypedObjectRef) {M : Type 0}
    (image_metadata video_metadata : ObjectRef → M) where
  -- The metadata of an artifact: what the request for its type says of it, and nothing for an
  -- artifact that is neither an image nor a video.
  abbrev pub own_metadata : ℕ → Option M
  own_metadata k = elim (heap k).type [
    | ObjectType.image ↦ some (image_metadata (heap k).id)
    | ObjectType.video ↦ some (video_metadata (heap k).id)
    | ObjectType.artifact ↦ none
    | ObjectType.raster ↦ none
  ]

  entry :
      (artifact_ids : List ℕ) (k : ℕ)
      → has k artifact_ids ≡ true
      → assign heap video_metadata
          (keep (has_type_video heap) artifact_ids)
          (assign heap image_metadata (keep (has_type_image heap) artifact_ids) (λ _. none))
          k
        ≡ own_metadata k
  entry ids k h = ground (
    arith,
    assign_lem heap video_metadata (keep (has_type_video heap) ids)
        (assign heap image_metadata (keep (has_type_image heap) ids) (λ _. none)) k,
    assign_lem heap image_metadata (keep (has_type_image heap) ids) (λ _. none) k,
    has-keep (has_type_video heap) k ids,
    has-keep (has_type_image heap) k ids,
  )

  map-entries :
      (f g : ℕ → Option M) (all : List ℕ)
      → ((k : ℕ) → has k all ≡ true → f k ≡ g k)
      → map f all ≡ map g all
  map-entries f g [] h = refl
  map-entries f g (x ∷ xs) h =
      let itself : (x == x) ≡ true = ground arith in
      let first = h x (ground (arith, itself)) in
      rw (first, map-entries f g xs (λ k m. h k (ground (arith, m))))

  -- Where each of the two requests answers in the order of its IDs, `getMetadata` does not throw,
  -- and answers for its artifacts in their order: each image by the first request, each
  -- video by the second, and anything else by nothing.
  pub get_metadata_lem :
      (find_image_metadata find_video_metadata : List ObjectRef → List M)
      → ((refs : List ObjectRef) → find_image_metadata refs ≡ map image_metadata refs)
      → ((refs : List ObjectRef) → find_video_metadata refs ≡ map video_metadata refs)
      → (artifact_ids : List ℕ)
      → get_metadata heap find_image_metadata find_video_metadata artifact_ids
        ≡ some (map own_metadata artifact_ids)
  unfolding get_metadata separate_by_type
  get_metadata_lem find_i find_v answers_i answers_v ids =
      rw
        (
          request-assign heap image_metadata find_i answers_i (keep (has_type_image heap) ids)
              (λ _. none),
          request-assign heap video_metadata find_v answers_v (keep (has_type_video heap) ids)
              (assign heap image_metadata (keep (has_type_image heap) ids) (λ _. none)),
        )
        (ap some (map-entries _ own_metadata ids (entry ids)))
