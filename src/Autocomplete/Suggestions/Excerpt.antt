-- ===== src/Autocomplete/Suggestions/Excerpt.antt =====
-- autocomplete.ts: the excerpt of `findTextInField` around a match.
use mallard.Common.{
  length-take, ℕ, zero, suc, ◌+◌, ◌-◌, ◌≤◌, max, min, ◌≡◌, Text, codes, index_of, index_of-le, ◌⊎◌,
  length, length-append, take, drop, none, some, Option-cases, Bool, true, false, ltb,
  if◌then◌else◌, [], ◌∷◌, ◌++◌, arith, inl, inr,
}
use mallard.Autocomplete.Suggestions.{
  substring, Window, centered_window, spend_budget, find_text_in_field,
}

-- The window holds the match and lies in the field; it has the desired length, or all of the
-- field, or at least the match.
pub record IsExcerpt (found search_length field_length desired : ℕ) (w : Window) : Type 0 where
  pub from_match : w.start_index ≤ found
  pub to_match : found + search_length ≤ w.end_index
  pub in_field : w.end_index ≤ field_length
  pub size : w.end_index ≡ w.start_index + max search_length (min desired field_length)

spend_budget-IsExcerpt :
    (found s f d : ℕ)
    → found + s ≤ f
    → IsExcerpt found s f d (spend_budget f d (centered_window found s f d))
unfolding spend_budget centered_window
spend_budget-IsExcerpt found s f d h = ground arith

abbrev ellipsis : Bool → Text
ellipsis shown = if shown then codes "..." else []

-- The text between the bounds of a window, with the marks for what is left out.
abbrev pub excerpt : Text → Window → Text
excerpt field w =
    ellipsis (ltb 0 w.start_index)
    ++ (take (w.end_index - w.start_index) (drop w.start_index field)
        ++ ellipsis (ltb w.end_index (length field)))

length-drop : (n : ℕ) (s : Text) → length (drop n s) ≡ length s - n
length-drop zero s = omega arith
length-drop (suc n) [] = omega arith
length-drop (suc n) (x ∷ s) = omega (arith, length-drop n s)

length-ellipsis-le : (b : Bool) → length (ellipsis b) ≤ 3
length-ellipsis-le true = omega arith
length-ellipsis-le false = omega arith

substring_lem : (s : Text) (a b : ℕ) → a ≤ b → substring s a b ≡ take (b - a) (drop a s)
unfolding substring
substring_lem s a b h =
    let low : min a b ≡ a = omega arith in let high : max a b ≡ b = omega arith in rw (low, high)

length-excerpt :
    (field : Text) (found s d : ℕ) (w : Window)
    → IsExcerpt found s (length field) d w
    → length (excerpt field w) ≤ max s d + 6
length-excerpt field found s d w x =
    let front = ellipsis (ltb 0 w.start_index) in
    let back = ellipsis (ltb w.end_index (length field)) in
    let middle = take (w.end_index - w.start_index) (drop w.start_index field) in
    omega (
      arith,
      length-append front (middle ++ back),
      length-append middle back,
      length-ellipsis-le (ltb 0 w.start_index),
      length-ellipsis-le (ltb w.end_index (length field)),
      length-take (w.end_index - w.start_index) (drop w.start_index field),
      x.size,
    )

module _ (lower : Text → Text) (search field : Text) (desired : ℕ) where
  -- The excerpt of a field in which the lowered search text occurs at `found`.
  find_text_in_field-at :
      (found : ℕ)
      → length (lower field) ≤ length field
      → index_of (lower field) (lower search) ≡ some found
      → (w : Window) × IsExcerpt found (length (lower search)) (length field) desired w
        × (find_text_in_field lower search field desired ≡ some (excerpt field w))
  unfolding find_text_in_field
  find_text_in_field-at found le e =
      let w =
        spend_budget (length field) desired
          (centered_window found (length (lower search)) (length field) desired) in
      let x =
        spend_budget-IsExcerpt found (length (lower search)) (length field) desired
          (omega (arith, index_of-le (lower field) (lower search) found e)) in
      (
        w,
        x,
        rw (
          e,
          find_text_in_field,
          substring_lem field w.start_index w.end_index (omega (arith, x.from_match, x.to_match)),
        ),
      )

  -- Where lowering does not lengthen the field, no match gives no excerpt, and a match gives the
  -- text of a window, with "..." at each end where text is left out. The window holds the match
  -- and lies in the field; it is as long as the match, or as the desired length or the field, the
  -- shorter of the two, whichever is longer. The excerpt is at most 6 units longer than the match
  -- or the desired length.
  pub find_text_in_field_lem :
      length (lower field) ≤ length field
      → ((index_of (lower field) (lower search) ≡ none)
          × (find_text_in_field lower search field desired ≡ none))
        ⊎ ((found : ℕ) × (w : Window) × (index_of (lower field) (lower search) ≡ some found)
            × IsExcerpt found (length (lower search)) (length field) desired w
            × (find_text_in_field lower search field desired ≡ some (excerpt field w))
            × (length (excerpt field w) ≤ max (length (lower search)) desired + 6))
  unfolding find_text_in_field
  find_text_in_field_lem le = elim (Option-cases (index_of (lower field) (lower search))) [
    | inl missing ↦ inl (missing, rw (missing, find_text_in_field))
    | inr (found, e) ↦
        let (w, x, r) = find_text_in_field-at found le e in
        inr (found, w, e, x, r, length-excerpt field found (length (lower search)) desired w x)
  ]
