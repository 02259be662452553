-- ===== src/Autocomplete/Queries/Meaning.antt =====
-- autocomplete.ts: `mapProduct` and the merging of queries, read as conditions on an artifact.
use mallard.Common.{
  List, [], ◌∷◌, map, All, All-append, Any, Any-append, Any-append_inl, Any-append_inr, inl, inr,
}
use mallard.Types.{ImageQuery}
use mallard.Autocomplete.Queries.{Lodash, map_product, merge_all}
use mallard.Autocomplete.Predicate.{DateLibrary}
use mallard.Autocomplete.Queries.Conditions.{
  Conditions, Satisfies, ApartQueries, Satisfies-merge, Satisfies-of_merge, ApartQueries-merge,
}

-- Every query of one list is apart from every query of the other.
abbrev pub ApartAll : List ImageQuery → List ImageQuery → Type 0
ApartAll ls rs = All (λ l. All (λ r. ApartQueries l r) rs) ls

abbrev pub PairwiseApart : List (List ImageQuery) → Type 0
PairwiseApart [] = Unit
PairwiseApart (d ∷ ds) = All (ApartAll d) ds × PairwiseApart ds

module _ (lodash : Lodash) where
  open lodash use {merge}

  abbrev product : List ImageQuery → List ImageQuery → List ImageQuery
  product ls rs = map_product ls rs (λ l r. merge l r)

  ApartAll-product :
      (ls rs qs : List ImageQuery) → ApartAll ls qs → ApartAll rs qs → ApartAll (product ls rs) qs
  unfolding map_product
  ApartAll-product [] rs qs h k = tt
  ApartAll-product (l ∷ ls) rs qs (h, hs) k =
      All-append (λ q. All (λ r. ApartQueries q r) qs) (map (merge l) rs) (product ls rs) (row rs k)
        (ApartAll-product ls rs qs hs k)
    where
      cell :
          (r : ImageQuery) (ps : List ImageQuery)
          → All (λ q. ApartQueries l q) ps
          → All (λ q. ApartQueries r q) ps
          → All (λ q. ApartQueries (merge l r) q) ps
      cell r [] _ _ = tt
      cell r (q ∷ ps) (a, as') (b, bs) = (ApartQueries-merge lodash l r q a b, cell r ps as' bs)

      row : (rs : List ImageQuery) → ApartAll rs qs → ApartAll (map (merge l) rs) qs
      row [] _ = tt
      row (r ∷ rs) (b, bs) = (cell r qs h b, row rs bs)

  module _ (c : Conditions) where
    abbrev pub Meets : List ImageQuery → Type 0
    Meets = Any (Satisfies c)

    Meets-row :
        (l : ImageQuery) (rs : List ImageQuery)
        → Satisfies c l
        → Meets rs
        → Meets (map (merge l) rs)
    Meets-row l [] h k = k
    Meets-row l (r ∷ rs) h (inl k) = inl (Satisfies-merge lodash l r c h k)
    Meets-row l (r ∷ rs) h (inr k) = inr (Meets-row l rs h k)

    Meets-of_row :
        (l : ImageQuery) (rs : List ImageQuery)
        → All (λ r. ApartQueries l r) rs
        → Meets (map (merge l) rs)
        → Satisfies c l × Meets rs
    Meets-of_row l [] _ k = elim k [ ]
    Meets-of_row l (r ∷ rs) (a, _) (inl k) =
        let (x, y) = Satisfies-of_merge lodash l r c a k in (x, inl y)
    Meets-of_row l (r ∷ rs) (_, as') (inr k) = let (x, y) = Meets-of_row l rs as' k in (x, inr y)

    Meets-product : (ls rs : List ImageQuery) → Meets ls → Meets rs → Meets (product ls rs)
    unfolding map_product
    Meets-product [] rs h k = h
    Meets-product (l ∷ ls) rs (inl h) k =
        Any-append_inl (Satisfies c) (map (merge l) rs) (product ls rs) (Meets-row l rs h k)
    Meets-product (l ∷ ls) rs (inr h) k =
        Any-append_inr (Satisfies c) (map (merge l) rs) (product ls rs) (Meets-product ls rs h k)

    Meets-of_product :
        (ls rs : List ImageQuery) → ApartAll ls rs → Meets (product ls rs) → Meets ls × Meets rs
    unfolding map_product
    Meets-of_product [] rs _ h = elim h [ ]
    Meets-of_product (l ∷ ls) rs (a, as') h =
        elim (Any-append (Satisfies c) (map (merge l) rs) (product ls rs) h) [
          | inl k ↦ let (x, y) = Meets-of_row l rs a k in (inl x, y)
          | inr k ↦ let (x, y) = Meets-of_product ls rs as' k in (inr x, y)
        ]

    module _ (dates : DateLibrary) where
      pub Meets-merge_all :
          (merged : List ImageQuery) (ds : List (List ImageQuery))
          → Meets merged
          → All Meets ds
          → Meets (merge_all dates lodash merged ds)
      unfolding merge_all
      Meets-merge_all merged [] h _ = h
      Meets-merge_all merged (d ∷ ds) h (k, ks) =
          Meets-merge_all (product merged d) ds (Meets-product merged d h k) ks

      pub Meets-of_merge_all :
          (merged : List ImageQuery) (ds : List (List ImageQuery))
          → All (ApartAll merged) ds
          → PairwiseApart ds
          → Meets (merge_all dates lodash merged ds)
          → Meets merged × All Meets ds
      unfolding merge_all
      Meets-of_merge_all merged [] _ _ h = (h, tt)
      Meets-of_merge_all merged (d ∷ ds) (a, as') (b, bs) h =
          let (x, y) = Meets-of_merge_all (product merged d) ds (spread ds as' b) bs h in
          let (x', x'') = Meets-of_product merged d a x in (x', (x'', y))
        where
          spread :
              (es : List (List ImageQuery))
              → All (ApartAll merged) es
              → All (ApartAll d) es
              → All (ApartAll (product merged d)) es
          spread [] _ _ = tt
          spread (e ∷ es) (p, ps) (q, qs) = (ApartAll-product merged d e p q, spread es ps qs)
