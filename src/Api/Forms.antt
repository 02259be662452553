-- ===== src/Api/Forms.antt =====
-- api-client.ts: metadata as the parameters of a form; and the fields by which the gateway's schemas
-- name such parameters.
use mallard.Common.{◌>>=◌, Option, List, [], ◌∷◌, ◌++◌}

-- `GeoPoint`, `UavImageMetadata` and `UavVideoMetadata` of the generated client. An absent property
-- is `none`; the other values are those of JavaScript.
pub record GeoPoint (V : Type 0) : Type 0 where
  pub latitude_deg : Option V
  pub longitude_deg : Option V

pub record UavImageMetadata (V : Type 0) : Type 0 where
  pub size : Option V
  pub name : Option V
  pub platform_type : Option V
  pub notes : Option V
  pub session_name : Option V
  pub sequence_number : Option V
  pub capture_date : Option V
  pub location : Option (GeoPoint V)
  pub location_description : Option V
  pub camera : Option V
  pub altitude_meters : Option V
  pub gsd_cm_px : Option V
  pub format : Option V

-- The properties that it shares with an image, and its own.
pub record UavVideoMetadata (V : Type 0) : Type 0 where
  pub common : UavImageMetadata V
  pub frame_rate : Option V
  pub num_frames : Option V

module _ {V : Type 0} where
  common_metadata_to_form : UavImageMetadata V → List (Option V)
  common_metadata_to_form metadata =
      metadata.size ∷ metadata.name ∷ metadata.platform_type ∷ metadata.notes
      ∷ metadata.session_name ∷ metadata.sequence_number ∷ metadata.capture_date
      ∷ metadata.location_description ∷ metadata.camera ∷ metadata.altitude_meters
      ∷ metadata.gsd_cm_px ∷ metadata.format ∷ []

  -- `metadata.location?.latitudeDeg`
  abbrev pub latitude_deg : Option (GeoPoint V) → Option V
  latitude_deg location = location >>= λ p. p.latitude_deg

  abbrev pub longitude_deg : Option (GeoPoint V) → Option V
  longitude_deg location = location >>= λ p. p.longitude_deg

  unfoldable pub image_metadata_to_form : UavImageMetadata V → List (Option V)
  unfolding common_metadata_to_form
  image_metadata_to_form metadata =
      common_metadata_to_form metadata
      ++ latitude_deg metadata.location ∷ longitude_deg metadata.location ∷ []

  unfoldable pub video_metadata_to_form : UavVideoMetadata V → List (Option V)
  unfolding common_metadata_to_form
  video_metadata_to_form metadata =
      common_metadata_to_form metadata.common
      ++ metadata.frame_rate
        ∷ metadata.num_frames
        ∷ latitude_deg metadata.common.location
        ∷ longitude_deg metadata.common.location
        ∷ []
