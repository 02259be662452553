-- ===== src/Api/Schemas.antt =====
-- The schemas of the gateway, in mallard/gateway: the parameters by which a form of api-client.ts
-- reaches it, and the metadata that it makes of them.
use mallard.Common.{
  ◌>>=◌, ◌≡◌, refl, Text, codes, get_entry, Option, none, some, List, [], ◌∷◌, ◌++◌,
}
use mallard.Api.Forms.{
  GeoPoint, UavImageMetadata, UavVideoMetadata, image_metadata_to_form, video_metadata_to_form,
}

-- A field of a model, by the alias of its name, or one that is a model itself, with its fields.
pub data ModelField : Type 0 where
  plain : Text → ModelField
  sub_model : List Text → ModelField

abbrev pub geo_point : List Text
geo_point = codes "latitudeDeg" ∷ codes "longitudeDeg" ∷ []

abbrev pub metadata_fields : List ModelField
metadata_fields =
    plain (codes "size")
    ∷ plain (codes "name")
    ∷ plain (codes "platformType")
    ∷ plain (codes "notes")
    ∷ plain (codes "sessionName")
    ∷ plain (codes "sequenceNumber")
    ∷ plain (codes "captureDate")
    ∷ sub_model geo_point
    ∷ plain (codes "locationDescription")
    ∷ []

abbrev pub raster_metadata_fields : List ModelField
raster_metadata_fields =
    metadata_fields
    ++ plain (codes "camera") ∷ plain (codes "altitudeMeters") ∷ plain (codes "gsdCmPx") ∷ []

abbrev pub uav_image_metadata_fields : List ModelField
uav_image_metadata_fields = raster_metadata_fields ++ plain (codes "format") ∷ []

abbrev pub uav_video_metadata_fields : List ModelField
uav_video_metadata_fields =
    raster_metadata_fields
    ++ plain (codes "format") ∷ plain (codes "frameRate") ∷ plain (codes "numFrames") ∷ []

-- The parameters that `as_form` gives a model: those of its own, and those of the models on which it
-- depends.
unfoldable pub own_parameters : List ModelField → List Text
own_parameters [] = []
own_parameters (plain name ∷ fields) = name ∷ own_parameters fields
own_parameters (sub_model names ∷ fields) = own_parameters fields

unfoldable pub nested_parameters : List ModelField → List Text
nested_parameters [] = []
nested_parameters (plain name ∷ fields) = nested_parameters fields
nested_parameters (sub_model names ∷ fields) = names ++ nested_parameters fields

module _ {V : Type 0} where
  abbrev pub zip : List Text → List (Option V) → List (Text × Option V)
  zip [] values = []
  zip (name ∷ names) [] = []
  zip (name ∷ names) (value ∷ values) = (name, value) ∷ zip names values

  -- The generated client names its arguments in the order of the API's description, in which the
  -- parameters of a model come before those of the models on which it depends.
  abbrev pub IsPositional : (List (Option V) → List (Text × Option V)) → List ModelField → Type 0
  IsPositional client fields =
      (values : List (Option V))
      → client values ≡ zip (own_parameters fields ++ nested_parameters fields) values

  -- An argument that is absent is not appended to the form.
  unfoldable pub value_of : Text → List (Text × Option V) → Option V
  unfolding get_entry
  value_of name form = get_entry name form >>= λ v. v

  abbrev pub or_default : V → Option V → Option V
  or_default d none = some d
  or_default d (some v) = some v

  -- `cls(**data)`, with the defaults of the two fields that have one.
  module _ (ground empty : V) where
    unfoldable pub image_metadata : List (Text × Option V) → UavImageMetadata V
    unfolding value_of
    image_metadata form = record {
      size = value_of (codes "size") form;
      name = value_of (codes "name") form;
      platform_type = or_default ground (value_of (codes "platformType") form);
      notes = or_default empty (value_of (codes "notes") form);
      session_name = value_of (codes "sessionName") form;
      sequence_number = value_of (codes "sequenceNumber") form;
      capture_date = value_of (codes "captureDate") form;
      location = some record {
        latitude_deg = value_of (codes "latitudeDeg") form;
        longitude_deg = value_of (codes "longitudeDeg") form;
      };
      location_description = value_of (codes "locationDescription") form;
      camera = value_of (codes "camera") form;
      altitude_meters = value_of (codes "altitudeMeters") form;
      gsd_cm_px = value_of (codes "gsdCmPx") form;
      format = value_of (codes "format") form;
    }

    unfoldable pub video_metadata : List (Text × Option V) → UavVideoMetadata V
    unfolding image_metadata
    video_metadata form = record {
      common = image_metadata form;
      frame_rate = value_of (codes "frameRate") form;
      num_frames = value_of (codes "numFrames") form;
    }

    abbrev pub with_location : Option (GeoPoint V) → GeoPoint V
    with_location none = record { latitude_deg = none; longitude_deg = none }
    with_location (some p) = p

    -- What the gateway holds of metadata where nothing is lost.
    abbrev pub with_defaults : UavImageMetadata V → UavImageMetadata V
    with_defaults metadata = record metadata {
      platform_type = or_default ground metadata.platform_type;
      notes = or_default empty metadata.notes;
      location = some (with_location metadata.location);
    }

    nested_location :
        (location : Option (GeoPoint V))
        → record {
          latitude_deg = location >>= λ p. p.latitude_deg;
          longitude_deg = location >>= λ p. p.longitude_deg;
        }
          ≡ with_location location
    nested_location none = refl
    nested_location (some p) = refl

    image_metadata-image_metadata_to_form :
        (client : List (Option V) → List (Text × Option V))
        → IsPositional client uav_image_metadata_fields
        → (metadata : UavImageMetadata V)
        → image_metadata (client (image_metadata_to_form metadata)) ≡ with_defaults metadata
    unfolding image_metadata image_metadata_to_form own_parameters nested_parameters
    image_metadata-image_metadata_to_form client positional metadata =
        rw (positional _, nested_location metadata.location) refl

    pub video_metadata-video_metadata_to_form :
        (client : List (Option V) → List (Text × Option V))
        → IsPositional client uav_video_metadata_fields
        → (metadata : UavVideoMetadata V)
        → video_metadata (client (video_metadata_to_form metadata))
          ≡ record metadata { common = with_defaults metadata.common }
    unfolding video_metadata video_metadata_to_form own_parameters nested_parameters
    video_metadata-video_metadata_to_form client positional metadata =
        rw (positional _, nested_location metadata.common.location) refl

    -- Where the generated client passes its arguments on in the order of the API's description, the
    -- gateway reads the metadata of every image and every video from the form, each value in its
    -- field, with the defaults of the platform, the notes and the location where these are absent.
    pub metadata-metadata_to_form :
        (image_client video_client : List (Option V) → List (Text × Option V))
        → IsPositional image_client uav_image_metadata_fields
        → IsPositional video_client uav_video_metadata_fields
        → (image : UavImageMetadata V) (video : UavVideoMetadata V)
        → (image_metadata (image_client (image_metadata_to_form image)) ≡ with_defaults image)
          × (video_metadata (video_client (video_metadata_to_form video))
              ≡ record video { common = with_defaults video.common })
    metadata-metadata_to_form image_client video_client images videos image video = (
      image_metadata-image_metadata_to_form image_client images image,
      video_metadata-video_metadata_to_form video_client videos video,
    )
