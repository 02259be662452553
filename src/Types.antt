-- ===== src/Types.antt =====
-- types.ts: the shared enumerations, and the query that mirrors the API's `ImageQuery`.
use mallard.Common.{Text, Bool, true, false, Option, none, some, List, [], ◌∷◌}

pub data RequestState : Type 0 where
  idle loading succeeded failed : RequestState

pub data ArtifactStatus : Type 0 where
  not_loaded loading loaded : ArtifactStatus

-- `PlatformType` and `ObjectType` of the generated API client, which mirrors the gateway's.
pub data PlatformType : Type 0 where
  ground aerial : PlatformType

pub data ObjectType : Type 0 where
  artifact raster image video : ObjectType

-- `RangeDate` of the generated API client. An absent property is `none`.
pub record RangeDate : Type 0 where
  pub min_value : Option Text
  pub max_value : Option Text

pub record ImageQuery : Type 0 where
  pub name : Option Text
  pub notes : Option Text
  pub camera : Option Text
  pub session : Option Text
  pub capture_dates : Option RangeDate
  pub platform_type : Option PlatformType

-- `{}`
abbrev pub empty_query : ImageQuery
empty_query = record {
  name = none;
  notes = none;
  camera = none;
  session = none;
  capture_dates = none;
  platform_type = none;
}

pub record ObjectRef : Type 0 where
  pub bucket : Text
  pub name : Text

pub record TypedObjectRef : Type 0 where
  pub id : ObjectRef
  pub type : ObjectType

-- A frontend ID.
abbrev pub EntityId : Type 0
EntityId = Text

-- `Dictionary` is a function, `undefined` is `none`.
pub record NormalizedState (E : Type 0) : Type 0 where
  pub ids : List EntityId
  pub entities : EntityId → Option E

-- The entry for one artifact. Its metadata is the backend's business.
pub record ArtifactEntity (M : Type 0) : Type 0 where
  pub backend_id : TypedObjectRef
  pub thumbnail_status : ArtifactStatus
  pub image_status : ArtifactStatus
  pub metadata_status : ArtifactStatus
  pub thumbnail_url : Option Text
  pub artifact_url : Option Text
  pub preview_url : Option Text
  pub streamable_url : Option Text
  pub metadata : Option M
  pub is_selected : Bool

-- `if (url)`: neither `null` nor empty.
abbrev pub is_truthy : Option Text → Bool
is_truthy none = false
is_truthy (some []) = false
is_truthy (some (c ∷ s)) = true
