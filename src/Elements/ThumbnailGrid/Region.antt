-- ===== src/Elements/ThumbnailGrid/Region.antt =====
-- thumbnail-grid.ts, findSelectableRegion: from the last selected thumbnail up to the given one.
use mathlib.Core.Path.{subst}
use mallard.Common.{
  suc, ◌-◌, length, length-append, get_elem?, ◌≡◌, refl, ap, sym, ◌∙◌, text_Eq, Distinct, some, inl,
  inr, List, [], ◌∷◌, ◌++◌, append_assoc, All, ◌⊎◌, arith,
}
use mallard.Types.{EntityId}
use mallard.Elements.Groups.{ImageWithStatus}
use mallard.Elements.ThumbnailGrid.{
  region_from, region_to, ThumbnailGrid, order_from, find_start, ids_between,
  find_selectable_region,
}
use mallard.Elements.ThumbnailGrid.Start.{
  ids, IsUnselected, order_from-found, get_elem?-middle, IsLastSelected, Start, find_start_lem,
}

ids_between_lem :
    (front middle after : List ImageWithStatus)
    → ids_between (front ++ (middle ++ after)) (length front) (length middle) ≡ some (ids middle)
unfolding ids_between
ids_between_lem front [] after = refl
ids_between_lem front (x ∷ middle) after =
    let all = front ++ (x ∷ (middle ++ after)) in
    let here : get_elem? all (length front) ≡ some x = get_elem?-middle front x (middle ++ after) in
    let next = ids_between_lem (front ++ x ∷ []) middle after in
    let same : (front ++ x ∷ []) ++ (middle ++ after) ≡ all =
      append_assoc front (x ∷ []) (middle ++ after) in
    let place : length (front ++ x ∷ []) ≡ suc (length front) =
      length-append front (x ∷ []) ∙ omega arith in
    let rest : ids_between all (suc (length front)) (length middle) ≡ some (ids middle) =
      subst (λ k. ids_between all k (length middle) ≡ some (ids middle)) place
        (subst (λ l. ids_between l (length (front ++ x ∷ [])) (length middle) ≡ some (ids middle))
          same next) in
    rw (here, rest) refl

-- The IDs from the last selected thumbnail on.
ids_of_parts :
    (before : List ImageWithStatus) (end : ImageWithStatus)
    (after images front : List ImageWithStatus) (start : ImageWithStatus)
    (middle : List ImageWithStatus)
    → (before ++ end ∷ []) ++ after ≡ images
    → before ++ end ∷ [] ≡ front ++ start ∷ middle
    → ids_between images (length front) (suc (length before) - length front)
      ≡ some (ids (start ∷ middle))
ids_of_parts before end after images front start middle prefix parts =
    let split : front ++ ((start ∷ middle) ++ after) ≡ images =
      sym (append_assoc front (start ∷ middle) after) ∙ ap (◌++ after) (sym parts) ∙ prefix in
    let number : length (start ∷ middle) ≡ suc (length before) - length front = omega (
      arith,
      ap length parts,
      length-append before (end ∷ []),
      length-append front (start ∷ middle),
    ) in
    subst (λ k. ids_between images (length front) k ≡ some (ids (start ∷ middle))) number
      (subst
        (λ l. ids_between l (length front) (length (start ∷ middle)) ≡ some (ids (start ∷ middle)))
        split (ids_between_lem front (start ∷ middle) after))

-- The region that a thumbnail ends, if the thumbnails up to it are given: from the last selected one
-- on, or the thumbnail alone.
abbrev pub IsRegion : List ImageWithStatus → EntityId → List EntityId → Type 0
IsRegion images end_id region =
    (All IsUnselected images × (region ≡ end_id ∷ []))
    ⊎ ((front : List ImageWithStatus) × (start : ImageWithStatus) × (middle : List ImageWithStatus)
        × IsLastSelected images front start middle
        × (region ≡ ids (start ∷ middle)))

-- For a displayed thumbnail, where all have different IDs and the order is that of the displayed
-- ones, the region consists of the thumbnails from the last selected one up to the given one, and of
-- the given one alone if none up to it is selected.
pub find_selectable_region_lem :
    (before : List ImageWithStatus) (end : ImageWithStatus) (after : List ImageWithStatus)
    (element : ThumbnailGrid)
    → element.grouped_artifacts_flat_ids ≡ before ++ end ∷ after
    → element.grouped_artifacts_order ≡ order_from 0 element.grouped_artifacts_flat_ids
    → Distinct (ids element.grouped_artifacts_flat_ids)
    → (region : List EntityId) × (find_selectable_region end.id element ≡ some region)
      × IsRegion (before ++ end ∷ []) end.id region
unfolding find_selectable_region
find_selectable_region_lem before end after element displayed order distinct =
    let images = element.grouped_artifacts_flat_ids in
    let n = length before in
    let place : element.grouped_artifacts_order end.id ≡ some n =
      ap (λ f. f end.id) order
      ∙ ap (λ l. order_from 0 l end.id) displayed
      ∙ order_from-found 0 before end after (subst (λ l. Distinct (ids l)) displayed distinct)
      ∙ ap some (omega arith) in
    let prefix : (before ++ end ∷ []) ++ after ≡ images =
      append_assoc before (end ∷ []) after ∙ sym displayed in
    let goes : find_selectable_region end.id element
        ≡ region_from images end.id n (find_start images n) =
      ap (region_to images end.id) place in
    region images goes prefix
      (subst (λ l. Start (before ++ end ∷ []) l n) prefix (find_start_lem n before end after refl))
  where
    region :
        (images : List ImageWithStatus)
        → find_selectable_region end.id element
          ≡ region_from images end.id (length before) (find_start images (length before))
        → (before ++ end ∷ []) ++ after ≡ images
        → Start (before ++ end ∷ []) images (length before)
        → (r : List EntityId) × (find_selectable_region end.id element ≡ some r)
          × IsRegion (before ++ end ∷ []) end.id r
    region images goes prefix (inl (none_on, nowhere)) = (
      end.id ∷ [],
      goes ∙ ap (region_from images end.id (length before)) nowhere,
      inl (none_on, refl),
    )
    region images goes prefix (inr (front, start, middle, last, found)) = (
      ids (start ∷ middle),
      goes
          ∙ ap (region_from images end.id (length before)) found
          ∙ ids_of_parts before end after images front start middle prefix last.parts,
      inr (front, start, middle, last, refl),
    )
