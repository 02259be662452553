-- ===== src/Elements/Groups/Extends.antt =====
-- thumbnail-grid.ts: the groups that the loop over the artifacts fills.
use mallard.Common.{
  ◌+◌, Text, text_eq, keep, ◌≡◌, refl, ap, sym, ◌∙◌, text_Eq, Distinct, count, count-append, none,
  some, is_some, Option-cases, Bool, true, false, Bool-cases, inl, inr, List, [], ◌∷◌, All, arith,
}
use mallard.Types.{EntityId, ArtifactEntity, NormalizedState}
use mallard.Elements.Groups.{
  Details, NamedImage, GroupedImages, make_key, KeysToImages, add_entity, group_images,
}
use mallard.Elements.Groups.Partition.{
  listed, keys, one_if, count_one, count-add_image, Distinct-add_image, IsPlain, IsGroup,
  add_image-IsGroup,
}

abbrev pub group_key : GroupedImages → Text
group_key g = make_key g.capture_date g.session

pub count-cons :
    (j i : EntityId) (ids : List EntityId)
    → count (text_eq j) (i ∷ ids) ≡ one_if (text_eq j i) + count (text_eq j) ids
unfolding count
count-cons j i ids = ground arith

module _ {M : Type 0} (details : Details M) (t : NormalizedState (ArtifactEntity M)) where
  -- The artifact has metadata.
  abbrev pub is_described : EntityId → Bool
  is_described id = elim (t.entities id) [ none ↦ false | some e ↦ is_some e.metadata ]

  -- The dates and sessions in the metadata of the table.
  abbrev pub ArePlain : Type 0
  ArePlain =
      (j : EntityId) (e : ArtifactEntity M) (m : M)
      → t.entities j ≡ some e
      → e.metadata ≡ some m
      → IsPlain (details.capture_date m) (details.session_name m)

  -- Groups with distinct keys, which list some IDs more than others.
  pub record Extends (groups : KeysToImages) (ids : List EntityId) (groups' : KeysToImages)
      : Type 0 where
    pub are_groups : All (IsGroup details t) groups'
    pub distinct : Distinct (keys groups')
    pub counted :
        (j : EntityId)
        → count (text_eq j) (listed groups')
          ≡ count (text_eq j) (listed groups) + count (text_eq j) (keep is_described ids)

  add_entity-Extends :
      (id : EntityId) (e : ArtifactEntity M) (groups : KeysToImages)
      → ArePlain
      → t.entities id ≡ some e
      → All (IsGroup details t) groups
      → Distinct (keys groups)
      → Extends groups (id ∷ []) (add_entity details id e.metadata groups)
  unfolding count
  add_entity-Extends id e groups plain known gs d = elim (Option-cases e.metadata) [
    | inl missing ↦
        let off : is_described id ≡ false = rw (known, is_described) (rw missing refl) in
        let none_kept : keep is_described (id ∷ []) ≡ [] = rw off refl in
        rw missing (record {
          are_groups = gs;
          distinct = d;
          counted = λ j. omega (arith, ap (count (text_eq j)) none_kept);
        })
    | inr (m, described) ↦
        let on' : is_described id ≡ true = rw (known, is_described) (rw described refl) in
        let date = details.capture_date m in
        let session = details.session_name m in
        let image : NamedImage = record { name = details.name m; id = id } in
        let one_kept : keep is_described (id ∷ []) ≡ id ∷ [] = rw on' refl in
        rw described (record {
          are_groups =
              add_image-IsGroup details t date session image groups (plain id e m known described)
                (e, m, known, described, refl, refl) gs;
          distinct = Distinct-add_image (make_key date session) date session image groups d;
          counted = λ j.
              count-add_image (make_key date session) date session image j groups
              ∙ ap (count (text_eq j) (listed groups) +◌)
                  (sym (ap (count (text_eq j)) one_kept ∙ count_one j id));
        })
  ]

  count-keep_cons :
      (j id : EntityId) (ids : List EntityId)
      → count (text_eq j) (keep is_described (id ∷ ids))
        ≡ count (text_eq j) (keep is_described (id ∷ []))
          + count (text_eq j) (keep is_described ids)
  count-keep_cons j id ids = elim (Bool-cases (is_described id)) [
    | inl on' ↦ rw on' (count-append (text_eq j) (id ∷ []) (keep is_described ids))
    | inr off ↦ rw off (count-append (text_eq j) [] (keep is_described ids))
  ]

  pub group_images-Extends :
      (ids : List EntityId) (groups : KeysToImages)
      → ArePlain
      → All (λ j. is_some (t.entities j) ≡ true) ids
      → All (IsGroup details t) groups
      → Distinct (keys groups)
      → (groups' : KeysToImages) × (group_images details t ids groups ≡ some groups')
        × Extends groups ids groups'
  unfolding group_images count
  group_images-Extends [] groups plain _ gs d =
      (groups, refl, record { are_groups = gs; distinct = d; counted = λ j. omega arith })
  group_images-Extends (id ∷ ids) groups plain (h, hs) gs d = elim (Option-cases (t.entities id)) [
    | inl missing ↦ ground arith
    | inr (e, known) ↦
        let first = add_entity-Extends id e groups plain known gs d in
        let (groups', done, rest) =
          group_images-Extends ids (add_entity details id e.metadata groups) plain hs
            first.are_groups first.distinct in
        (
          groups',
          rw (known, group_images) done,
          record {
            are_groups = rest.are_groups;
            distinct = rest.distinct;
            counted = λ j. omega (arith, rest.counted j, first.counted j, count-keep_cons j id ids);
          },
        )
  ]
