-- ===== src/Elements/Groups/Order.antt =====
-- thumbnail-grid.ts: the order of the groups, by time, the latest first, and then by session.
use mallard.Common.{
  ◌<◌, ◌==◌, Text, ◌≡◌, ◌∙◌, false, Bool-cases, ◌⊎◌, inl, inr, List, [], ◌∷◌, All, All-imp, arith,
}
use mallard.Elements.Groups.{sort, text_gt, Browser, GroupedImages, group_after, session_or_empty}
use mallard.Elements.Groups.Sorting.{IsOrdered, sort-IsOrdered, group_after_asymmetric}

-- The lexical order of texts, by their code units.
abbrev pub TextLe : Text → Text → Type 0
TextLe [] t = Unit
TextLe (x ∷ s) [] = ⊥
TextLe (x ∷ s) (y ∷ t) = (x < y) ⊎ ((x ≡ y) × TextLe s t)

TextLe-trans : (r s t : Text) → TextLe r s → TextLe s t → TextLe r t
TextLe-trans [] s t h k = tt
TextLe-trans (x ∷ r) [] t h k = elim h [ ]
TextLe-trans (x ∷ r) (y ∷ s) [] h k = elim k [ ]
TextLe-trans (x ∷ r) (y ∷ s) (z ∷ t) (inl h) (inl k) = inl (omega arith)
TextLe-trans (x ∷ r) (y ∷ s) (z ∷ t) (inl h) (inr (k, _)) = inl (omega arith)
TextLe-trans (x ∷ r) (y ∷ s) (z ∷ t) (inr (h, _)) (inl k) = inl (omega arith)
TextLe-trans (x ∷ r) (y ∷ s) (z ∷ t) (inr (h, hs)) (inr (k, ks)) =
    inr (h ∙ k, TextLe-trans r s t hs ks)

TextLe-of_text_gt : (s t : Text) → text_gt s t ≡ false → TextLe s t
TextLe-of_text_gt [] t h = tt
TextLe-of_text_gt (x ∷ s) [] h = absurd (cc)
TextLe-of_text_gt (x ∷ s) (y ∷ t) h = elim (Bool-cases (x == y)) [
  | inl same ↦ inr (ground arith, TextLe-of_text_gt s t (ground arith))
  | inr other ↦ inl (ground arith)
]

module _ (browser : Browser) where
  -- A group of a later time, or of the same time and a session that does not come later.
  abbrev pub Precedes : GroupedImages → GroupedImages → Type 0
  Precedes a b =
      (browser.get_time b.capture_date < browser.get_time a.capture_date)
      ⊎ ((browser.get_time a.capture_date ≡ browser.get_time b.capture_date)
          × TextLe (session_or_empty a.session) (session_or_empty b.session))

  -- Each group precedes all that follow it.
  abbrev pub IsLatestFirst : List GroupedImages → Type 0
  IsLatestFirst [] = Unit
  IsLatestFirst (g ∷ groups) = All (Precedes g) groups × IsLatestFirst groups

  Precedes-trans : (a b c : GroupedImages) → Precedes a b → Precedes b c → Precedes a c
  Precedes-trans a b c (inl h) (inl k) = inl (omega arith)
  Precedes-trans a b c (inl h) (inr (k, _)) = inl (omega arith)
  Precedes-trans a b c (inr (h, _)) (inl k) = inl (omega arith)
  Precedes-trans a b c (inr (h, hs)) (inr (k, ks)) = inr (h ∙ k, TextLe-trans _ _ _ hs ks)

  Precedes-of_group_after : (a b : GroupedImages) → group_after browser a b ≡ false → Precedes a b
  Precedes-of_group_after a b h =
      elim (Bool-cases (browser.get_time a.capture_date == browser.get_time b.capture_date)) [
        | inl same ↦ inr (ground arith, TextLe-of_text_gt _ _ (ground arith))
        | inr other ↦ inl (ground arith)
      ]

  IsLatestFirst-of_IsOrdered :
      (groups : List GroupedImages) → IsOrdered (group_after browser) groups → IsLatestFirst groups
  IsLatestFirst-of_IsOrdered [] _ = tt
  IsLatestFirst-of_IsOrdered (g ∷ []) _ = (tt, tt)
  IsLatestFirst-of_IsOrdered (g ∷ h ∷ groups) (k, ks) =
      let (after, rest) = IsLatestFirst-of_IsOrdered (h ∷ groups) ks in
      let first = Precedes-of_group_after g h k in
      ((first, All-imp _ _ groups (λ c p. Precedes-trans g h c first p) after), (after, rest))

  pub sort-IsLatestFirst :
      (groups : List GroupedImages) → IsLatestFirst (sort (group_after browser) groups)
  sort-IsLatestFirst groups =
      IsLatestFirst-of_IsOrdered (sort (group_after browser) groups)
        (sort-IsOrdered (group_after browser) (group_after_asymmetric browser) groups)
