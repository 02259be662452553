-- ===== src/Elements/Groups/Correct.antt =====
-- thumbnail-grid.ts: the sorted groups of the thumbnail grid.
use mallard.Common.{
  ◌+◌, Text, text_eq, map, keep, ◌≡◌, refl, ap, sym, ◌∙◌, text_Eq, Distinct, count, count-append,
  some, is_some, true, List, [], ◌∷◌, All, All-map, arith,
}
use mallard.Types.{EntityId, ArtifactEntity, NormalizedState}
use mallard.Elements.Groups.{
  Browser, Details, NamedImage, ImageData, GroupedImages, KeysToImages, sort, name_after,
  image_group, group_after, sorted_groups, flat_ids,
}
use mallard.Elements.Groups.Sorting.{total, total-sort, All-sort, Distinct-sort, count-flat_ids}
use mallard.Elements.Groups.Order.{IsLatestFirst, sort-IsLatestFirst}
use mallard.Elements.Groups.Partition.{image_ids, listed, keys, one_if, IsOf, IsGroup}
use mallard.Elements.Groups.Extends.{
  group_key, count-cons, is_described, ArePlain, Extends, group_images-Extends,
}

module _ {M : Type 0} (details : Details M) (t : NormalizedState (ArtifactEntity M)) where
  module _ (browser : Browser) where
    images-count :
        (j : EntityId) (images : List NamedImage)
        → count (text_eq j) (map (λ (i : NamedImage). i.id) images)
          ≡ total (name_after browser) (λ (i : NamedImage). one_if (text_eq j i.id)) images
    unfolding count
    images-count j [] = refl
    images-count j (i ∷ images) =
        count-cons j i.id (map (λ (k : NamedImage). k.id) images)
        ∙ ap (one_if (text_eq j i.id) +◌) (images-count j images)

    image_group-count :
        (j : EntityId) (d : ImageData)
        → count (text_eq j) (image_group browser d).image_ids ≡ count (text_eq j) (image_ids d)
    image_group-count j d =
        images-count j (sort (name_after browser) d.images)
        ∙ total-sort (name_after browser) (λ (i : NamedImage). one_if (text_eq j i.id)) d.images
        ∙ sym (images-count j d.images)

    All-of_map :
        (P : EntityId → Type 0) (images : List NamedImage)
        → All P (map (λ (i : NamedImage). i.id) images)
        → All (λ (i : NamedImage). P i.id) images
    All-of_map P [] _ = tt
    All-of_map P (i ∷ images) (h, hs) = (h, All-of_map P images hs)

    image_group-members :
        (P : EntityId → Type 0) (d : ImageData)
        → All P (image_ids d)
        → All P (image_group browser d).image_ids
    image_group-members P d h =
        All-map P (λ (i : NamedImage). i.id) (sort (name_after browser) d.images)
          (All-sort (name_after browser) (λ (i : NamedImage). P i.id) d.images
            (All-of_map P d.images h))

    abbrev to_groups : KeysToImages → List GroupedImages
    to_groups groups = map (λ (g : Text × ImageData). image_group browser g.1) groups

    to_groups-count :
        (j : EntityId) (groups : KeysToImages)
        → count (text_eq j) (flat_ids (to_groups groups)) ≡ count (text_eq j) (listed groups)
    unfolding flat_ids
    to_groups-count j [] = refl
    to_groups-count j ((k, d) ∷ groups) =
        let tail = to_groups-count j groups in
        let mine = image_group-count j d in
        count-append (text_eq j) (image_group browser d).image_ids (flat_ids (to_groups groups))
        ∙ omega (arith, tail, mine, count-append (text_eq j) (image_ids d) (listed groups))

    to_groups-members :
        (groups : KeysToImages)
        → All (IsGroup details t) groups
        → All
            (λ (g : GroupedImages). All (IsOf details t g.capture_date g.session) g.image_ids)
            (to_groups groups)
    to_groups-members [] _ = tt
    to_groups-members ((k, d) ∷ groups) (g, gs) = (
      image_group-members (IsOf details t d.date d.session) d g.members,
      to_groups-members groups gs,
    )

    to_groups-keys :
        (groups : KeysToImages)
        → All (IsGroup details t) groups
        → map group_key (to_groups groups) ≡ keys groups
    to_groups-keys [] _ = refl
    to_groups-keys ((k, d) ∷ groups) (g, gs) =
        let first = g.keyed in let rest = to_groups-keys groups gs in cc

    -- The artifacts of a list that have metadata, in groups.
    pub record IsPartition (ids : List EntityId) (groups : List GroupedImages) : Type 0 where
      pub once :
          (j : EntityId)
          → count (text_eq j) (flat_ids groups)
            ≡ count (text_eq j) (keep (is_described details t) ids)
      pub members :
          All
            (λ (g : GroupedImages). All (IsOf details t g.capture_date g.session) g.image_ids)
            groups
      pub distinct : Distinct (map group_key groups)
      pub ordered : IsLatestFirst browser groups

    sorted-IsPartition :
        (ids : List EntityId) (groups : KeysToImages)
        → Extends details t [] ids groups
        → IsPartition ids (sort (group_after browser) (to_groups groups))
    unfolding count
    sorted-IsPartition ids groups h =
        let after = group_after browser in
        record {
          once = λ j.
              count-flat_ids j (sort after (to_groups groups))
              ∙ total-sort after (λ (g : GroupedImages). count (text_eq j) g.image_ids)
                  (to_groups groups)
              ∙ sym (count-flat_ids j (to_groups groups))
              ∙ to_groups-count j groups
              ∙ omega (arith, h.counted j);
          members = All-sort after _ (to_groups groups) (to_groups-members groups h.are_groups);
          distinct =
              Distinct-sort after group_key (to_groups groups)
                (rw (to_groups-keys groups h.are_groups) h.distinct);
          ordered = sort-IsLatestFirst browser (to_groups groups);
        }

    -- Where the dates of the table have the length of a date and no session is called "undefined",
    -- the groups of known artifacts are a partition: each artifact of the list is in the groups as
    -- often as in the list if it has metadata, and else not; it is in the group of its date and its
    -- session, of which there is one; and the groups are ordered by time, the latest first, and then
    -- by session.
    pub sorted_groups_lem :
        (ids : List EntityId)
        → ArePlain details t
        → All (λ j. is_some (t.entities j) ≡ true) ids
        → (groups : List GroupedImages) × (sorted_groups browser details ids t ≡ some groups)
          × IsPartition ids groups
    unfolding sorted_groups
    sorted_groups_lem ids plain known =
        let (groups, done, h) = group_images-Extends details t ids [] plain known tt tt in
        (
          sort (group_after browser) (to_groups groups),
          rw done refl,
          sorted-IsPartition ids groups h,
        )
