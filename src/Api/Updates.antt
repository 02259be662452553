-- ===== src/Api/Updates.antt =====
-- api-client.ts: `batchUpdateMetadata`. What a request answers is a parameter: `accepts` tells
-- whether it is fulfilled. Once one is rejected, the function throws.
use mallard.Common.{
  ℕ, ltb, length, map, Option, none, some, Bool, true, false, not, ◌||◌, if◌then◌else◌, List, [],
  ◌∷◌, ◌++◌,
}
use mallard.Types.{ObjectRef, TypedObjectRef}
use mallard.Api.{separate_by_type}

-- `UavImageMetadata` and `UavVideoMetadata` of the generated client: the properties that the
-- function reads, and the others. An image has no length parameters.
pub record MediaMetadata (V : Type 0) (M : Type 0) : Type 0 where
  pub name : Option V
  pub size : Option V
  pub num_frames : Option V
  pub frame_rate : Option V
  pub others : M

pub data UpdateRequest (V : Type 0) (M : Type 0) : Type 0 where
  update_images update_videos : MediaMetadata V M → List ObjectRef → Option Bool → UpdateRequest V M

-- The requests that were sent, in order, and whether the last one was rejected.
pub record Outcome (V : Type 0) (M : Type 0) : Type 0 where
  pub sent : List (UpdateRequest V M)
  pub thrown : Bool

abbrev is_defined : {V : Type 0} → Option V → Bool
is_defined none = false
is_defined (some _) = true

unfoldable pub clean_metadata :
    {V M : Type 0} → Bool → Bool → Bool → MediaMetadata V M → MediaMetadata V M
clean_metadata ignore_name ignore_size ignore_length metadata =
    let named = if ignore_name then record metadata { name = none } else metadata in
    let sized = if ignore_size then record named { size = none } else named in
    if ignore_length
    then if is_defined sized.num_frames || is_defined sized.frame_rate
      then record sized { num_frames = none; frame_rate = none }
      else sized
    else sized

module _ {V : Type 0} {M : Type 0} (heap : ℕ → TypedObjectRef)
    (accepts : UpdateRequest V M → Bool) where
  unfoldable pub send_update :
      (List ObjectRef → UpdateRequest V M) → List ℕ → Outcome V M → Outcome V M
  send_update request_for ids before =
      let sent = request_for (map (λ k. (heap k).id) ids) in
      if before.thrown
      then before
      else if ltb 0 (length ids)
      then record { sent = before.sent ++ sent ∷ []; thrown = not (accepts sent) }
      else before

  unfoldable pub batch_update_metadata :
      MediaMetadata V M → List ℕ → Option Bool → Bool → Bool → Bool → Outcome V M
  unfolding separate_by_type
  batch_update_metadata metadata artifacts increment ignore_name ignore_size ignore_length =
      let metadata_copy = clean_metadata ignore_name ignore_size ignore_length metadata in
      let separated = separate_by_type heap artifacts in
      let after_images =
        send_update (λ ids. update_images metadata_copy ids increment) separated.image_ids
          record { sent = []; thrown = false } in
      send_update (λ ids. update_videos metadata_copy ids increment) separated.video_ids
        after_images
