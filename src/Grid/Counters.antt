-- ===== src/Grid/Counters.antt =====
-- thumbnail-grid-slice.ts: the two counters and the table that they describe.
use mallard.Common.{
  ◌≡◌, refl, ap, sym, ◌∙◌, length, map, some, Bool, true, false, not, List, [], ◌∷◌, All, Distinct,
  text_Eq,
}
use mallard.Common.Int.{ℤ, pos, counter-add, counter-sub}
use mallard.Types.{EntityId, ArtifactEntity, is_truthy}
use mallard.Adapter.{IsNormalized, EntityAdapter}
use mallard.Adapter.Normalized.{update_many-IsNormalized}
use mallard.Adapter.Count.{
  count_entities, flag_at, update_each, count-set_each, count-update_each_same,
}
use mallard.Grid.State.{ImageViewState, select_id}
use mallard.Grid.Reducers.{
  no_thumbnail, no_full_size, select_images, clear_thumbnails, clear_full_sized_images,
}

abbrev pub selected : {M : Type 0} → ArtifactEntity M → Bool
selected e = e.is_selected

abbrev pub has_thumbnail : {M : Type 0} → ArtifactEntity M → Bool
has_thumbnail e = is_truthy e.thumbnail_url

-- The table is normalised, and each counter is the number of entities that it is meant to count.
pub record IsCounted {M : Type 0} (s : ImageViewState M) : Type 0 where
  pub normalized : IsNormalized select_id s.table
  pub items : s.num_items_selected ≡ pos (count_entities selected s.table)
  pub thumbnails : s.num_thumbnails_loaded ≡ pos (count_entities has_thumbnail s.table)

module _ {M : Type 0} (adapter : EntityAdapter (ArtifactEntity M) select_id) where
  pub update_each-IsNormalized :
      (f : ArtifactEntity M → ArtifactEntity M)
      → ((e : ArtifactEntity M) → select_id (f e) ≡ select_id e)
      → (ids : List EntityId) (s : ImageViewState M) → IsCounted s
      → IsNormalized select_id (update_each adapter f ids s.table)
  update_each-IsNormalized f keeps ids s c =
      update_many-IsNormalized adapter (map (λ j. (j, f)) ids) s.table (all_keep ids) c.normalized
    where
      all_keep :
          (js : List EntityId)
          → All
              (λ (u : EntityId × (ArtifactEntity M → ArtifactEntity M)).
                (e : ArtifactEntity M) → select_id (u.1 e) ≡ select_id e)
              (map (λ j. (j, f)) js)
      all_keep [] = tt
      all_keep (j ∷ js) = (keeps, all_keep js)

  pub counter-same :
      (p : ArtifactEntity M → Bool) (f : ArtifactEntity M → ArtifactEntity M)
      → ((e : ArtifactEntity M) → select_id (f e) ≡ select_id e)
      → ((e : ArtifactEntity M) → p (f e) ≡ p e)
      → (ids : List EntityId) (s : ImageViewState M) (z : ℤ) → z ≡ pos (count_entities p s.table)
      → z ≡ pos (count_entities p (update_each adapter f ids s.table))
  counter-same p f keeps same ids s z h =
      h ∙ ap pos (sym (count-update_each_same adapter p f keeps same ids s.table))

  -- Where the counters are right, selecting distinct artifacts of the table that are not selected,
  -- or deselecting distinct ones that are, keeps them right.
  pub select_images-IsCounted :
      (ids : List EntityId) (select : Bool) (s : ImageViewState M)
      → Distinct ids
      → All (λ j. flag_at selected s.table j ≡ some (not select)) ids
      → IsCounted s
      → IsCounted (select_images adapter ids select s)
  unfolding select_images
  select_images-IsCounted ids true s d h c = record {
    normalized =
        update_each-IsNormalized (λ e. record e { is_selected = true }) (λ e. refl) ids s c;
    items = counter-add _ _ (length ids) s.num_items_selected c.items (
        count-set_each adapter selected (λ e. record e { is_selected = true }) (λ e. refl) true
          (λ e. refl) ids s.table c.normalized d h);
    thumbnails =
        counter-same has_thumbnail (λ e. record e { is_selected = true }) (λ e. refl) (λ e. refl)
          ids s _ c.thumbnails;
  }
  select_images-IsCounted ids false s d h c = record {
    normalized =
        update_each-IsNormalized (λ e. record e { is_selected = false }) (λ e. refl) ids s c;
    items = counter-sub _ _ (length ids) s.num_items_selected c.items (
        count-set_each adapter selected (λ e. record e { is_selected = false }) (λ e. refl) false
          (λ e. refl) ids s.table c.normalized d h);
    thumbnails =
        counter-same has_thumbnail (λ e. record e { is_selected = false }) (λ e. refl) (λ e. refl)
          ids s _ c.thumbnails;
  }

  -- Where the counters are right, clearing the thumbnails of distinct artifacts of the table that
  -- have one keeps them right.
  pub clear_thumbnails-IsCounted :
      (ids : List EntityId) (s : ImageViewState M)
      → Distinct ids
      → All (λ j. flag_at has_thumbnail s.table j ≡ some true) ids
      → IsCounted s
      → IsCounted (clear_thumbnails adapter ids s)
  unfolding clear_thumbnails
  clear_thumbnails-IsCounted ids s d h c = record {
    normalized = update_each-IsNormalized (no_thumbnail adapter) (λ e. refl) ids s c;
    items = counter-same selected (no_thumbnail adapter) (λ e. refl) (λ e. refl) ids s _ c.items;
    thumbnails = counter-sub _ _ (length ids) s.num_thumbnails_loaded c.thumbnails (
        count-set_each adapter has_thumbnail (no_thumbnail adapter) (λ e. refl) false (λ e. refl)
          ids s.table c.normalized d h);
  }

  pub clear_full_sized_images-IsCounted :
      (ids : List EntityId) (s : ImageViewState M)
      → IsCounted s
      → IsCounted (clear_full_sized_images adapter ids s)
  unfolding clear_full_sized_images
  clear_full_sized_images-IsCounted ids s c = record {
    normalized = update_each-IsNormalized (no_full_size adapter) (λ e. refl) ids s c;
    items = counter-same selected (no_full_size adapter) (λ e. refl) (λ e. refl) ids s _ c.items;
    thumbnails =
        counter-same has_thumbnail (no_full_size adapter) (λ e. refl) (λ e. refl) ids s _
          c.thumbnails;
  }
