-- ===== src/Elements/Groups.antt =====
-- thumbnail-grid.ts: `groupByDateAndSession`, `getOrderedImageIds` and the sort in `mapState`. What
-- the grid reads of the metadata are the fields of `Details`. The time of a date and the order of
-- names are the browser's.
pub mod Sorting
pub mod Order
pub mod Partition
pub mod Extends
pub mod Correct
use mathlib.Core.Option
use mallard.Common.{
  ◌≡◌, ℕ, ◌==◌, ltb, Text, codes, text_eq, map, Option, none, some, Bool, true, false,
  if◌then◌else◌, List, [], ◌∷◌, ◌++◌, ◌&&◌, ◌||◌,
}
use mallard.Types.{EntityId, ArtifactEntity, NormalizedState}

-- `captureDate`, `sessionName` and `name` of the metadata.
pub record Details (M : Type 0) : Type 0 where
  pub capture_date : M → Text
  pub session_name : M → Option Text
  pub name : M → Text

-- `localeCompare(a, b) > 0`, which does not hold both ways, and `new Date(d).getTime()`, counted from
-- any day before all dates.
pub record Browser : Type 0 where
  pub comes_after : Text → Text → Bool
  pub asymmetric : (a b : Text) → comes_after a b ≡ true → comes_after b a ≡ false
  pub get_time : Text → ℕ

pub record NamedImage : Type 0 where
  pub name : Text
  pub id : EntityId

-- `ImageData`
pub record ImageData : Type 0 where
  pub date : Text
  pub session : Option Text
  pub images : List NamedImage

-- `GroupedImages`; the date is kept as the text from which `Date` is made.
pub record GroupedImages : Type 0 where
  pub image_ids : List EntityId
  pub capture_date : Text
  pub session : Option Text

-- `ImageWithStatus`
pub record ImageWithStatus : Type 0 where
  pub id : EntityId
  pub selected : Bool

-- `a > b` on strings
abbrev pub text_gt : Text → Text → Bool
text_gt [] t = false
text_gt (x ∷ s) [] = true
text_gt (x ∷ s) (y ∷ t) = ltb y x || (x == y && text_gt s t)

-- `captureDate + session ?? ""`, where `+` binds tighter than `??`.
abbrev pub session_text : Option Text → Text
session_text none = codes "undefined"
session_text (some s) = s

unfoldable pub make_key : Text → Option Text → Text
make_key capture_date session = capture_date ++ session_text session

-- `keysToImages`: the entries in the order of their keys' first occurrence.
abbrev pub KeysToImages : Type 0
KeysToImages = List (Text × ImageData)

-- The body of the loop, for an image with metadata: the group is made if need be, and gets the
-- image.
unfoldable pub add_image : Text → Text → Option Text → NamedImage → KeysToImages → KeysToImages
add_image key date session image [] =
    (key, record { date = date; session = session; images = image ∷ [] }) ∷ []
add_image key date session image ((k, d) ∷ groups) =
    let rest = add_image key date session image groups in
    if text_eq k key
    then (k, record d { images = d.images ++ image ∷ [] }) ∷ groups
    else (k, d) ∷ rest

-- `Array.sort`, which is stable: `after a b` is that the comparison gives a positive number.
module _ {A : Type 0} (after : A → A → Bool) where
  unfoldable pub insert : A → List A → List A
  insert x [] = x ∷ []
  insert x (y ∷ ys) = let rest = insert x ys in if after x y then y ∷ rest else x ∷ y ∷ ys

  unfoldable pub sort : List A → List A
  unfolding insert
  sort [] = []
  sort (x ∷ xs) = insert x (sort xs)

module _ {M : Type 0} (details : Details M) where
  open details use {capture_date, session_name}

  abbrev pub add_entity : EntityId → Option M → KeysToImages → KeysToImages
  add_entity id none groups = groups
  add_entity id (some m) groups =
      add_image (make_key (capture_date m) (session_name m)) (capture_date m) (session_name m)
        (record { name = details.name m; id = id }) groups

  -- The loop. An ID without an artifact would throw: `none`.
  unfoldable pub group_images :
      NormalizedState (ArtifactEntity M) → List EntityId → KeysToImages → Option KeysToImages
  group_images t [] groups = some groups
  group_images t (id ∷ ids) groups = elim (t.entities id) [
    | none ↦ none
    | some entity ↦ group_images t ids (add_entity id entity.metadata groups)
  ]

-- `session ?? ""`
abbrev pub session_or_empty : Option Text → Text
session_or_empty none = []
session_or_empty (some s) = s

module _ (browser : Browser) where
  abbrev pub name_after : NamedImage → NamedImage → Bool
  name_after a b = browser.comes_after a.name b.name

  abbrev pub image_group : ImageData → GroupedImages
  image_group d = record {
    image_ids = map (λ (i : NamedImage). i.id) (sort name_after d.images);
    capture_date = d.date;
    session = d.session;
  }

  -- The comparison in `mapState`: by time, the latest first, then by session.
  abbrev pub group_after : GroupedImages → GroupedImages → Bool
  group_after a b =
      let time_a = browser.get_time a.capture_date in
      let time_b = browser.get_time b.capture_date in
      if time_a == time_b
      then text_gt (session_or_empty a.session) (session_or_empty b.session)
      else ltb time_a time_b

  module _ {M : Type 0} (details : Details M) where
    unfoldable pub group_by_date_and_session :
        List EntityId → NormalizedState (ArtifactEntity M) → Option (List GroupedImages)
    unfolding group_images
    group_by_date_and_session ids t =
        Option.map (map (λ (g : Text × ImageData). image_group g.1)) (group_images details t ids [])

    -- The sorted groups in `mapState`.
    unfoldable pub sorted_groups :
        List EntityId → NormalizedState (ArtifactEntity M) → Option (List GroupedImages)
    unfolding group_by_date_and_session
    sorted_groups ids t = Option.map (sort group_after) (group_by_date_and_session ids t)

-- `flatten(groupedArtifacts.map((g) => g.imageIds))`
unfoldable pub flat_ids : List GroupedImages → List EntityId
flat_ids [] = []
flat_ids (g ∷ groups) = g.image_ids ++ flat_ids groups

abbrev pub is_selected : {M : Type 0} → Option (ArtifactEntity M) → Bool
is_selected none = false
is_selected (some entity) = entity.is_selected

unfoldable pub get_ordered_image_ids :
    {M : Type 0} → List GroupedImages → NormalizedState (ArtifactEntity M) → List ImageWithStatus
unfolding flat_ids
get_ordered_image_ids groups t =
    map (λ id. record { id = id; selected = is_selected (t.entities id) }) (flat_ids groups)
