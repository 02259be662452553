-- ===== src/Elements/Groups/Partition.antt =====
-- thumbnail-grid.ts: the groups of the thumbnail grid as a partition of the artifacts with metadata.
use mathlib.Core.Path.{subst}
use mallard.Common.{
  map-append, ℕ, ◌+◌, Text, codes, text_eq, eq_of_text_eq, length, map, ◌≡◌, ◌≢◌, refl, ap, sym,
  ◌∙◌, mem, text_Eq, Distinct, count, count-append, beq_comm, Option, none, some, Bool, true, false,
  ◌||◌, Bool-cases, inl, inr, List, [], ◌∷◌, ◌++◌, All, All-append, arith,
}
use mallard.Types.{EntityId, ArtifactEntity, NormalizedState}
use mallard.Elements.Groups.{
  Details, NamedImage, ImageData, session_text, make_key, KeysToImages, add_image,
}

-- The IDs in all groups.
abbrev pub image_ids : ImageData → List EntityId
image_ids d = map (λ (i : NamedImage). i.id) d.images

abbrev pub listed : KeysToImages → List EntityId
listed [] = []
listed ((k, d) ∷ groups) = image_ids d ++ listed groups

abbrev pub keys : KeysToImages → List Text
keys groups = map (λ (g : Text × ImageData). g.0) groups

abbrev pub one_if : Bool → ℕ
one_if true = 1
one_if false = 0

pub count_one : (j i : EntityId) → count (text_eq j) (i ∷ []) ≡ one_if (text_eq j i)
unfolding count
count_one j i = ground arith

count-snoc :
    (j : EntityId) (d : ImageData) (image : NamedImage)
    → count (text_eq j) (image_ids (record d { images = d.images ++ image ∷ [] }))
      ≡ count (text_eq j) (image_ids d) + one_if (text_eq j image.id)
count-snoc j d image =
    ap (count (text_eq j)) (map-append (λ (i : NamedImage). i.id) d.images (image ∷ []))
    ∙ count-append (text_eq j) (image_ids d) (image.id ∷ [])
    ∙ ap (count (text_eq j) (image_ids d) +◌) (count_one j image.id)

module _ (key date : Text) (session : Option Text) (image : NamedImage) where
  pub count-add_image :
      (j : EntityId) (groups : KeysToImages)
      → count (text_eq j) (listed (add_image key date session image groups))
        ≡ count (text_eq j) (listed groups) + one_if (text_eq j image.id)
  unfolding add_image
  count-add_image j [] =
      count-append (text_eq j) [] (image.id ∷ [])
      ∙ ap (count (text_eq j) [] +◌) (count_one j image.id)
  count-add_image j ((k, d) ∷ groups) =
      let d' = record d { images = d.images ++ image ∷ [] } in
      let all = count-append (text_eq j) (image_ids d) (listed groups) in
      elim (Bool-cases (text_eq k key)) [
        | inl here ↦ rw here (
            count-append (text_eq j) (image_ids d') (listed groups)
            ∙ omega (arith, all, count-snoc j d image))
        | inr other ↦ rw other (
            count-append (text_eq j) (image_ids d)
              (listed (add_image key date session image groups))
            ∙ omega (arith, all, count-add_image j groups))
      ]

  mem-add_image :
      (k : Text) (groups : KeysToImages)
      → mem k (keys (add_image key date session image groups))
        ≡ (mem k (keys groups) || text_eq key k)
  unfolding add_image
  mem-add_image k [] = ground arith
  mem-add_image k ((l, d) ∷ groups) = elim (Bool-cases (text_eq l key)) [
    | inl here ↦ rw here (ground (arith, ap (λ z. text_eq z k) (eq_of_text_eq l key here)))
    | inr other ↦ rw other (ground (arith, mem-add_image k groups))
  ]

  pub Distinct-add_image :
      (groups : KeysToImages)
      → Distinct (keys groups)
      → Distinct (keys (add_image key date session image groups))
  unfolding add_image
  Distinct-add_image [] _ = (refl, tt)
  Distinct-add_image ((l, d) ∷ groups) (n, ds) = elim (Bool-cases (text_eq l key)) [
    | inl here ↦ rw here (n, ds)
    | inr other ↦
        rw other
          (mem-add_image l groups ∙ ground (arith, beq_comm key l), Distinct-add_image groups ds)
  ]

append_injective : (a b c d : Text) → length a ≡ length b → a ++ c ≡ b ++ d → (a ≡ b) × (c ≡ d)
append_injective [] [] c d _ e = (refl, e)
append_injective [] (y ∷ b) c d l e = absurd (omega (arith, l))
append_injective (x ∷ a) [] c d l e = absurd (omega (arith, l))
append_injective (x ∷ a) (y ∷ b) c d l e =
    let rest : a ++ c ≡ b ++ d = cc in
    let (firsts, seconds) = append_injective a b c d (omega (arith, l)) rest in (cc, seconds)

-- A date as the gateway writes it, and a session whose name is not that of an absent one.
abbrev pub IsPlain : Text → Option Text → Type 0
IsPlain date session = (length date ≡ 10) × (session ≢ some (codes "undefined"))

session_text_injective :
    (s t : Option Text)
    → s ≢ some (codes "undefined")
    → t ≢ some (codes "undefined")
    → session_text s ≡ session_text t
    → s ≡ t
session_text_injective none none h k e = refl
session_text_injective none (some t) h k e = absurd (k (ap some (sym e)))
session_text_injective (some s) none h k e = absurd (h (ap some e))
session_text_injective (some s) (some t) h k e = ap some e

make_key_injective :
    (date date' : Text) (session session' : Option Text)
    → IsPlain date session
    → IsPlain date' session'
    → make_key date session ≡ make_key date' session'
    → (date ≡ date') × (session ≡ session')
unfolding make_key
make_key_injective date date' session session' (l, n) (l', n') e =
    let (dates, texts) = append_injective date date' _ _ (l ∙ sym l') e in
    (dates, session_text_injective session session' n n' texts)

module _ {M : Type 0} (details : Details M) (t : NormalizedState (ArtifactEntity M)) where
  -- An artifact with metadata of a date and a session.
  abbrev pub IsOf : Text → Option Text → EntityId → Type 0
  IsOf date session id =
      (e : ArtifactEntity M) × (m : M) × (t.entities id ≡ some e)
      × (e.metadata ≡ some m)
      × (details.capture_date m ≡ date)
      × (details.session_name m ≡ session)

  pub record IsGroup (g : Text × ImageData) : Type 0 where
    pub keyed : g.0 ≡ make_key (g.1).date (g.1).session
    pub plain : IsPlain (g.1).date (g.1).session
    pub members : All (IsOf (g.1).date (g.1).session) (image_ids g.1)

  pub add_image-IsGroup :
      (date : Text) (session : Option Text) (image : NamedImage) (groups : KeysToImages)
      → IsPlain date session
      → IsOf date session image.id
      → All IsGroup groups
      → All IsGroup (add_image (make_key date session) date session image groups)
  unfolding add_image
  add_image-IsGroup date session image [] p h _ =
      (record { keyed = refl; plain = p; members = (h, tt) }, tt)
  add_image-IsGroup date session image ((k, d) ∷ groups) p h (g, gs) =
      elim (Bool-cases (text_eq k (make_key date session))) [
        | inr other ↦ rw other (g, add_image-IsGroup date session image groups p h gs)
        | inl here ↦
            let (dates, sessions) =
              make_key_injective d.date date d.session session g.plain p
                (sym g.keyed ∙ eq_of_text_eq k (make_key date session) here) in
            let member : IsOf d.date d.session image.id =
              subst (λ z. IsOf z d.session image.id) (sym dates)
                (subst (λ z. IsOf date z image.id) (sym sessions) h) in
            rw here (
              record {
                keyed = g.keyed;
                plain = g.plain;
                members =
                    subst (All (IsOf d.date d.session))
                      (sym (map-append (λ (i : NamedImage). i.id) d.images (image ∷ [])))
                      (All-append (IsOf d.date d.session) (image_ids d) (image.id ∷ []) g.members
                        (member, tt));
              },
              gs,
            )
      ]
