-- ===== src/Api/Tests.antt =====
-- The metadata of an image, a video and a raster.
use mallard.Common.{
  ℕ, ◌==◌, ◌≡◌, refl, Text, codes, map, none, some, true, false, inl, inr, if◌then◌else◌, [], ◌∷◌,
  ◌++◌,
}
use mallard.Types.{image, video, raster, ObjectRef, TypedObjectRef}
use mallard.Api.{get_metadata, set_each, separate_by_type, request}
use mallard.Api.Updates.{
  MediaMetadata, update_images, clean_metadata, send_update, batch_update_metadata,
}
use mallard.Api.Updated.{IsUpdated, batch_update_metadata_lem}
use mallard.Api.Metadata.{own_metadata, get_metadata_lem}

api : Unit {0}
unfolding clean_metadata send_update batch_update_metadata set_each separate_by_type request
    get_metadata
api = tt

abbrev heap : ℕ → TypedObjectRef
heap k = record {
  id = record { bucket = codes "b"; name = k ∷ [] };
  type = if k == 1 then image else if k == 2 then video else raster;
}

abbrev of_image : ObjectRef → Text
of_image r = codes "image " ++ r.name

abbrev of_video : ObjectRef → Text
of_video r = codes "video " ++ r.name

metadata_tests :
    get_metadata heap (map of_image) (map of_video) (2 ∷ 3 ∷ 1 ∷ [])
    ≡ some (some (codes "video " ++ 2 ∷ []) ∷ none ∷ some (codes "image " ++ 1 ∷ []) ∷ [])
unfolding api
metadata_tests = refl

get_metadata_lem_example :
    get_metadata heap (map of_image) (map of_video) (2 ∷ 3 ∷ 1 ∷ [])
    ≡ some (map (own_metadata heap of_image of_video) (2 ∷ 3 ∷ 1 ∷ []))
get_metadata_lem_example =
    get_metadata_lem heap of_image of_video (map of_image) (map of_video) (λ refs. refl)
      (λ refs. refl) (2 ∷ 3 ∷ 1 ∷ [])

abbrev metadata : MediaMetadata Text Text
metadata = record {
  name = some (codes "a");
  size = none;
  num_frames = none;
  frame_rate = some (codes "30");
  others = codes "camera";
}

abbrev cleaned : MediaMetadata Text Text
cleaned = record {
  name = none;
  size = none;
  num_frames = none;
  frame_rate = none;
  others = codes "camera";
}

batch_update_metadata_lem_example :
    ((batch_update_metadata heap (λ _. true) metadata (3 ∷ 2 ∷ []) none true true true).thrown
      ≡ false)
    × IsUpdated heap
        (λ _. true)
        (λ q. refl)
        cleaned
        none
        video
        (heap 2).id
        (batch_update_metadata heap (λ _. true) metadata (3 ∷ 2 ∷ []) none true true true).sent
batch_update_metadata_lem_example =
    batch_update_metadata_lem heap (λ _. true) (λ q. refl) metadata (3 ∷ 2 ∷ []) none 2
      (inr (inl refl))

-- A rejected request for images leaves the videos as they are.
rejected_tests :
    batch_update_metadata heap (λ _. false) metadata (2 ∷ 1 ∷ []) none true true true
    ≡ record { sent = update_images cleaned ((heap 1).id ∷ []) none ∷ []; thrown = true }
unfolding api
rejected_tests = refl
