-- ===== src/Grid/Freed.antt =====
-- thumbnail-grid-slice.ts: what `thunkClearEntities` leaves of the artifacts.
use mallard.Common.{
  ◌≡◌, refl, ◌∙◌, Text, is_some, Option-cases, Bool-cases, Bool, true, false, List, ◌++◌, arith,
  All, Distinct, Distinct-keep, text_Eq, keep, All-keep, mem, mem-keep, inl, inr,
}
use mathlib.Core.Option
use mallard.Types.{EntityId, NormalizedState, ArtifactEntity, is_truthy}
use mallard.Adapter.{EntityAdapter}
use mallard.Adapter.Count.{at_id, update_each}
use mallard.Adapter.Entities.{ids-update_each, entities-update_each, map-update_each}
use mallard.Grid.State.{ImageViewState, select_id}
use mallard.Grid.Reducers.{clear_thumbnails, clear_full_sized_images, no_thumbnail, no_full_size}
use mallard.Grid.Thunks.{
  done, thunk_clear_thumbnails, thunk_clear_full_sized_images, thunk_clear_entities,
}
use mallard.Grid.Counters.{
  IsCounted, has_thumbnail, selected, clear_thumbnails-IsCounted, clear_full_sized_images-IsCounted,
}
use mallard.Grid.Release.{
  held, IsLive, holds_url, clear_with_lem, IsLive-same, held-ext, image_of, thumbnail_of,
}

module _ {M : Type 0} (adapter : EntityAdapter (ArtifactEntity M) select_id) where
  -- A test on the entities that one change leaves alone, and another turns off.
  module _ (f : ArtifactEntity M → ArtifactEntity M)
      (keeps : (e : ArtifactEntity M) → select_id (f e) ≡ select_id e)
      (idem : (e : ArtifactEntity M) → f (f e) ≡ f e) (ids : List EntityId)
      (t : NormalizedState (ArtifactEntity M)) where
    at_id-same :
        (p : ArtifactEntity M → Bool)
        → ((e : ArtifactEntity M) → p (f e) ≡ p e)
        → (j : EntityId) → at_id p (update_each adapter f ids t) j ≡ at_id p t j
    at_id-same p same j = ground (arith, map-update_each adapter f keeps p idem same ids t j)

    at_id-off :
        (p : ArtifactEntity M → Bool)
        → ((e : ArtifactEntity M) → p (f e) ≡ false)
        → (j : EntityId) → mem j ids ≡ true
        → at_id p (update_each adapter f ids t) j ≡ false
    at_id-off p off j m = elim (Option-cases (t.entities j)) [
      | inl missing ↦ ground (arith, entities-update_each adapter f keeps idem ids t j)
      | inr (e, found) ↦ ground (arith, entities-update_each adapter f keeps idem ids t j, off e)
    ]

  -- Clearing what the artifacts that have it have leaves none that has it.
  at_id-cleared :
      (f : ArtifactEntity M → ArtifactEntity M)
      → ((e : ArtifactEntity M) → select_id (f e) ≡ select_id e)
      → ((e : ArtifactEntity M) → f (f e) ≡ f e)
      → (p : ArtifactEntity M → Bool) → ((e : ArtifactEntity M) → p (f e) ≡ false)
      → (ids : List EntityId) (t : NormalizedState (ArtifactEntity M)) (j : EntityId)
      → mem j ids ≡ true
      → at_id p (update_each adapter f (keep (at_id p t) ids) t) j ≡ false
  at_id-cleared f keeps idem p off ids t j m =
      let cleared = keep (at_id p t) ids in
      elim (Bool-cases (at_id p t j)) [
        | inl has ↦
            at_id-off f keeps idem cleared t p off j (ground (arith, mem-keep (at_id p t) j ids))
        | inr has_not ↦
            let other : mem j cleared ≡ false = ground (arith, mem-keep (at_id p t) j ids) in
            ground (arith, entities-update_each adapter f keeps idem cleared t j)
      ]

  abbrev has_image : ArtifactEntity M → Bool
  has_image e = is_truthy e.artifact_url

  -- What an artifact table is after the URLs of some artifacts were released.
  pub record IsFreed (ids : List EntityId) (s s' : ImageViewState M) : Type 0 where
    pub counted : IsCounted s'
    pub ids_same : s'.table.ids ≡ s.table.ids
    pub selection_same : (j : EntityId) → at_id selected s'.table j ≡ at_id selected s.table j
    pub no_thumbnail_left :
        (j : EntityId) → mem j ids ≡ true → at_id has_thumbnail s'.table j ≡ false
    pub no_image_left : (j : EntityId) → mem j ids ≡ true → at_id has_image s'.table j ≡ false

  module _ (ids : List EntityId) (s : ImageViewState M) where
    -- The two states of `thunkClearEntities`.
    abbrev without_images : ImageViewState M
    without_images = clear_full_sized_images adapter (keep (holds_url image_of s) ids) s

    abbrev pub without_both : ImageViewState M
    without_both =
        clear_thumbnails adapter (keep (holds_url thumbnail_of without_images) ids) without_images

    image_keeps_thumbnails :
        (j : EntityId)
        → Option.map thumbnail_of (without_images.table.entities j)
          ≡ Option.map thumbnail_of (s.table.entities j)
    unfolding clear_full_sized_images
    image_keeps_thumbnails j =
        map-update_each adapter (no_full_size adapter) (λ e. refl) thumbnail_of (λ e. refl)
          (λ e. refl) (keep (holds_url image_of s) ids) s.table j

    image_keeps_known :
        (j : EntityId) → is_some (without_images.table.entities j) ≡ is_some (s.table.entities j)
    image_keeps_known j = ground (arith, image_keeps_thumbnails j)

    pub IsFreed-without_both : Distinct ids → IsCounted s → IsFreed ids s without_both
    unfolding clear_full_sized_images clear_thumbnails
    IsFreed-without_both d c =
        let k₁ = keep (holds_url image_of s) ids in
        let k₂ = keep (holds_url thumbnail_of without_images) ids in
        record {
          counted =
              clear_thumbnails-IsCounted adapter k₂ without_images
                (Distinct-keep (holds_url thumbnail_of without_images) ids d)
                (All-keep _ (holds_url thumbnail_of without_images) (λ j h. ground arith) ids)
                (clear_full_sized_images-IsCounted adapter k₁ s c);
          ids_same =
              ids-update_each adapter (no_thumbnail adapter) (λ e. refl) k₂ _
              ∙ ids-update_each adapter (no_full_size adapter) (λ e. refl) k₁ s.table;
          selection_same = λ j.
              at_id-same (no_thumbnail adapter) (λ e. refl) (λ e. refl) k₂ without_images.table
                selected (λ e. refl) j
              ∙ at_id-same (no_full_size adapter) (λ e. refl) (λ e. refl) k₁ s.table selected
                  (λ e. refl) j;
          no_thumbnail_left = λ j m.
              at_id-cleared (no_thumbnail adapter) (λ e. refl) (λ e. refl) has_thumbnail (λ e. refl)
                ids without_images.table j m;
          no_image_left = λ j m.
              at_id-same (no_thumbnail adapter) (λ e. refl) (λ e. refl) k₂ without_images.table
                has_image (λ e. refl) j
              ∙ at_id-cleared (no_full_size adapter) (λ e. refl) (λ e. refl) has_image (λ e. refl)
                  ids s.table j m;
        }

    pub thunk_clear_entities_lem :
        (revoked : List Text)
        → All (IsLive s.table) ids
        → thunk_clear_entities adapter ids (record { image_view = s; revoked = revoked })
          ≡ done (record {
            image_view = without_both;
            revoked = (revoked ++ held image_of s.table ids) ++ held thumbnail_of s.table ids;
          })
    unfolding thunk_clear_entities thunk_clear_thumbnails thunk_clear_full_sized_images
    thunk_clear_entities_lem revoked live = rw (
      clear_with_lem image_of s (clear_full_sized_images adapter) ids revoked live,
      clear_with_lem thumbnail_of without_images (clear_thumbnails adapter) ids
          (revoked ++ held image_of s.table ids)
          (IsLive-same s.table without_images.table image_keeps_known ids live),
      held-ext thumbnail_of s.table without_images.table image_keeps_thumbnails ids,
    )

    -- Where the counters are right, clearing distinct artifacts of the table does not throw. It
    -- revokes the URLs of their images and then of their thumbnails, in their order; none of them
    -- holds a URL afterwards, the IDs and the selection are as before, and the counters stay
    -- right.
    pub thunk_clear_entities-IsFreed :
        (revoked : List Text)
        → All (IsLive s.table) ids
        → Distinct ids
        → IsCounted s
        → (s' : ImageViewState M) × (thunk_clear_entities adapter ids
              (record { image_view = s; revoked = revoked })
            ≡ done (record {
              image_view = s';
              revoked = (revoked ++ held image_of s.table ids) ++ held thumbnail_of s.table ids;
            }))
          × IsFreed ids s s'
    thunk_clear_entities-IsFreed revoked live d c =
        (without_both, thunk_clear_entities_lem revoked live, IsFreed-without_both d c)
