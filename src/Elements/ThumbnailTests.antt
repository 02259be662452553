-- ===== src/Elements/ThumbnailTests.antt =====
-- artifact-thumbnail.ts on one thumbnail.
use mallard.Common.{
  ◌≡◌, refl, Text, codes, text_eq, none, some, true, false, [], ◌∷◌, if◌then◌else◌,
}
use mallard.Types.{ArtifactStatus}
use mallard.Grid.State.{
  ImageViewState, initial_state, create_default_entity, create_artifact_entity_id,
}
use mallard.Grid.Tests.{first}
use mallard.Elements.Thumbnail.{
  ArtifactThumbnail, selected_event, shift_selected, make_details_url, on_select,
  metadata_updates_from_state, map_state, select_thumbnail,
}

-- The definitions that the tests evaluate.
thumbnails : Unit {0}
unfolding create_artifact_entity_id create_default_entity initial_state make_details_url on_select
    metadata_updates_from_state map_state select_thumbnail
thumbnails = tt

abbrev blank : ArtifactThumbnail Text
blank = record {
  frontend_id = some (codes "b_1");
  type = none;
  source_url = none;
  selected = false;
  on_click_link = none;
  metadata = none;
  preview_url = none;
  is_hovering = false;
}

abbrev with_status : ArtifactStatus → ImageViewState Text
with_status status = record initial_state {
  table = record {
    ids = codes "b_1" ∷ [];
    entities = λ j.
        if text_eq (codes "b_1") j then some (record first { thumbnail_status = status }) else none;
  };
}

thumbnail_tests :
    ((on_select true blank).1 ≡ shift_selected (some (codes "b_1")))
    × ((on_select true (record blank { selected = true })).1 ≡ selected_event false)
    × (map_state (with_status ArtifactStatus.loading) blank ≡ blank)
    × (map_state (with_status ArtifactStatus.loaded) blank ≡ record blank {
      source_url = some (codes "blob:1");
      selected = true;
      on_click_link = some (codes "/details/image/b/1");
    })
unfolding thumbnails
thumbnail_tests = (refl, refl, refl, refl)
