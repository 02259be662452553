-- ===== src/Elements/Thumbnail.antt =====
-- artifact-thumbnail.ts and artifact-info-base.ts: a thumbnail, what it takes from the store, and its
-- select button.
use mallard.Common.{
  Text, codes, Option, none, some, Bool, true, false, not, ◌&&◌, if◌then◌else◌, [], ◌∷◌, ◌++◌,
}
use mallard.Types.{
  ObjectType, image, video, artifact, raster, ArtifactStatus, TypedObjectRef, EntityId,
  ArtifactEntity,
}
use mallard.Adapter.{EntityAdapter}
use mallard.Grid.State.{ImageViewState, select_id}
use mallard.Grid.Thunks.{thunk_select_images}

pub record ArtifactThumbnail (M : Type 0) : Type 0 where
  pub frontend_id : Option EntityId
  pub type : Option ObjectType
  pub source_url : Option Text
  pub selected : Bool
  pub on_click_link : Option Text
  pub metadata : Option M
  pub preview_url : Option Text
  pub is_hovering : Bool

-- The custom events of the select button.
pub data ThumbnailEvent : Type 0 where
  selected_event : Bool → ThumbnailEvent
  shift_selected : Option EntityId → ThumbnailEvent

abbrev pub is_loaded : ArtifactStatus → Bool
is_loaded ArtifactStatus.loaded = true
is_loaded _ = false

abbrev pub is_image : ObjectType → Bool
is_image image = true
is_image _ = false

-- The value of an enumeration's member in a URL.
abbrev pub type_text : ObjectType → Text
type_text image = codes "image"
type_text video = codes "video"
type_text artifact = codes "artifact"
type_text raster = codes "raster"

unfoldable pub make_details_url : TypedObjectRef → Text
make_details_url backend_id =
    codes "/details/"
    ++ type_text backend_id.type
    ++ codes "/"
    ++ backend_id.id.bucket
    ++ codes "/"
    ++ backend_id.id.name

module _ {M : Type 0} where
  unfoldable pub on_select : Bool → ArtifactThumbnail M → ArtifactThumbnail M × ThumbnailEvent
  on_select shift_key element =
      let selected = not element.selected in
      (
        record element { selected = selected },
        if selected && shift_key
            then shift_selected element.frontend_id
            else selected_event selected,
      )

  -- `metadataUpdatesFromState` for an artifact of the store.
  unfoldable pub metadata_updates_from_state :
      ArtifactEntity M → ArtifactThumbnail M → ArtifactThumbnail M
  metadata_updates_from_state entity element =
      if is_image entity.backend_id.type && not (is_loaded entity.metadata_status)
      then element
      else record element { metadata = entity.metadata; type = some entity.backend_id.type }

  abbrev pub default_state : ArtifactThumbnail M → ArtifactThumbnail M
  default_state element = record element {
    source_url = none;
    selected = false;
    on_click_link = none;
    preview_url = none;
  }

  abbrev pub shown : ArtifactEntity M → ArtifactThumbnail M → ArtifactThumbnail M
  shown entity element = metadata_updates_from_state entity (record element {
    source_url = entity.thumbnail_url;
    selected = entity.is_selected;
    on_click_link = some (make_details_url entity.backend_id);
    preview_url = entity.preview_url;
  })

  -- An empty ID is falsy.
  unfoldable pub map_state : ImageViewState M → ArtifactThumbnail M → ArtifactThumbnail M
  unfolding make_details_url metadata_updates_from_state
  map_state s element = elim element.frontend_id [
    | none ↦ default_state element
    | some [] ↦ default_state element
    | some (c ∷ id) ↦ elim (s.table.entities (c ∷ id)) [
      | none ↦ default_state element
      | some entity ↦
          if is_loaded entity.thumbnail_status then shown entity element else default_state element
    ]
  ]

  -- What the event of a selection does; the grid takes the one with the shift key. The ID is there,
  -- since only a thumbnail with content has a select button.
  unfoldable pub select_thumbnail :
      EntityAdapter (ArtifactEntity M) select_id
      → EntityId
      → Bool
      → ImageViewState M
      → ImageViewState M
  select_thumbnail adapter frontend_id select s =
      thunk_select_images adapter (frontend_id ∷ []) select s
