-- ===== src/Api.antt =====
-- api-client.ts: `separateByType` and `getMetadata`. A typed reference is an object; `heap` holds
-- the objects by their identity, by which the keys of a `Map` are compared. Each one owns its `id`
-- object, which is the key. The two requests are parameters.
pub mod Metadata
pub mod Updates
pub mod Updated
pub mod Auth
pub mod Forms
pub mod Schemas
pub mod Requests
mod Tests
mod RequestTests
use mallard.Common.{
  ◌>>=◌, ℕ, ◌==◌, ltb, length, keep, map, Option, none, some, Bool, true, false, if◌then◌else◌,
  List, [], ◌∷◌,
}
use mallard.Types.{ObjectType, image, video, ObjectRef, TypedObjectRef}

module _ {M : Type 0} where
  -- `map.set(key, value)`
  abbrev pub set_key : ℕ → M → (ℕ → Option M) → ℕ → Option M
  set_key key value entries k = if key == k then some value else entries k

  -- `metadata.forEach((m, i) => idsToMeta.set(ids[i].id, m))`, which throws past the end of `ids`.
  unfoldable pub set_each : List ℕ → List M → (ℕ → Option M) → Option (ℕ → Option M)
  set_each ids [] entries = some entries
  set_each [] (m ∷ ms) entries = none
  set_each (id ∷ ids) (m ∷ ms) entries = set_each ids ms (set_key id m entries)

module _ (heap : ℕ → TypedObjectRef) where
  abbrev pub has_type_image : ℕ → Bool
  has_type_image k = elim (heap k).type [
    | ObjectType.image ↦ true
    | ObjectType.video ↦ false
    | ObjectType.artifact ↦ false
    | ObjectType.raster ↦ false
  ]

  abbrev pub has_type_video : ℕ → Bool
  has_type_video k = elim (heap k).type [
    | ObjectType.video ↦ true
    | ObjectType.image ↦ false
    | ObjectType.artifact ↦ false
    | ObjectType.raster ↦ false
  ]

  pub record SeparatedIds : Type 0 where
    pub image_ids : List ℕ
    pub video_ids : List ℕ

  unfoldable pub separate_by_type : List ℕ → SeparatedIds
  separate_by_type artifact_ids = record {
    image_ids = keep has_type_image artifact_ids;
    video_ids = keep has_type_video artifact_ids;
  }

  -- One of the two requests, which is only made for some IDs.
  unfoldable pub request :
      {M : Type 0} → (List ObjectRef → List M) → List ℕ → (ℕ → Option M) → Option (ℕ → Option M)
  unfolding set_each
  request find ids entries =
      if ltb 0 (length ids)
      then set_each ids (find (map (λ k. (heap k).id) ids)) entries
      else some entries

  module _ {M : Type 0} (find_image_metadata find_video_metadata : List ObjectRef → List M) where
    unfoldable pub get_metadata : List ℕ → Option (List (Option M))
    unfolding separate_by_type request
    get_metadata artifact_ids = do
      let separated = separate_by_type artifact_ids
      with_images ← request find_image_metadata separated.image_ids (λ _. none)
      ids_to_meta ← request find_video_metadata separated.video_ids with_images
      some (map (λ o. ids_to_meta o) artifact_ids)
