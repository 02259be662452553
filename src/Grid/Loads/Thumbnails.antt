-- ===== src/Grid/Loads/Thumbnails.antt =====
-- thumbnail-grid-slice.ts: the thumbnails that a chunk's requests bring, and their counter.
use mathlib.Core.Path.{subst}
use mallard.Common.{
  ◌≡◌, refl, ap, sym, ◌∙◌, Text, length, length-map, All-imp, Option, none, some, Bool, true, false,
  not, List, [], ◌∷◌, map, mem, keep, Distinct, text_Eq, All, arith,
}
use mallard.Common.Int.{pos, counter-add}
use mallard.Types.{loaded, EntityId, NormalizedState, ArtifactEntity, is_truthy}
use mallard.Adapter.{Update, KeepsId, EntityAdapter}
use mallard.Adapter.Count.{flag_at, update_each, at_id, count-update_each_same}
use mallard.Adapter.Batches.{count-set_many, count-update_many_same}
use mallard.Adapter.Entities.{map-update_each}
use mallard.Adapter.Normalized.{update_many-IsNormalized}
use mallard.Grid.State.{ImageViewState, select_id}
use mallard.Grid.Requests.{LoadImageReturn, load_thumbnails_fulfilled}
use mallard.Grid.Counters.{IsCounted, has_thumbnail, selected, update_each-IsNormalized}
use mallard.Grid.Selection.{IsKnown}
use mallard.Grid.Loads.{fulfilled, filtered_ids, is_loaded}

-- The thumbnail of an artifact is loaded.
abbrev pub is_loaded_at : {M : Type 0} → NormalizedState (ArtifactEntity M) → EntityId → Bool
is_loaded_at t = at_id (λ e. is_loaded e.thumbnail_status) t

-- For known artifacts the loop requests exactly the thumbnails that are not loaded.
pub filtered_ids_lem :
    {M : Type 0} (s : ImageViewState M) (ids : List EntityId)
    → All (IsKnown s) ids
    → filtered_ids s ids ≡ some (keep (λ j. not (is_loaded_at s.table j)) ids)
unfolding filtered_ids
filtered_ids_lem s [] _ = refl
filtered_ids_lem s (j ∷ ids) (k, ks) = ground (arith, filtered_ids_lem s ids ks)

abbrev image_ids : List LoadImageReturn → List EntityId
image_ids rs = map (λ (r : LoadImageReturn). r.image_id) rs

fulfilled-other :
    (j : EntityId) (ids : List EntityId) (results : List (Option Text))
    → mem j ids ≡ false
    → mem j (image_ids (fulfilled ids results)) ≡ false
unfolding fulfilled
fulfilled-other j [] rs h = refl
fulfilled-other j (id ∷ ids) [] h = refl
fulfilled-other j (id ∷ ids) (none ∷ rs) h = fulfilled-other j ids rs (ground arith)
fulfilled-other j (id ∷ ids) (some u ∷ rs) h =
    let rest = fulfilled-other j ids rs (ground arith) in ground (arith, rest)

fulfilled-Distinct :
    (ids : List EntityId) (results : List (Option Text))
    → Distinct ids
    → Distinct (image_ids (fulfilled ids results))
unfolding fulfilled
fulfilled-Distinct [] rs _ = tt
fulfilled-Distinct (id ∷ ids) [] _ = tt
fulfilled-Distinct (id ∷ ids) (none ∷ rs) (d, ds) = fulfilled-Distinct ids rs ds
fulfilled-Distinct (id ∷ ids) (some u ∷ rs) (d, ds) =
    (fulfilled-other id ids rs d, fulfilled-Distinct ids rs ds)

All-fulfilled :
    (P : EntityId → Type 0) (ids : List EntityId) (results : List (Option Text))
    → All P ids
    → All P (image_ids (fulfilled ids results))
unfolding fulfilled
All-fulfilled P [] rs _ = tt
All-fulfilled P (id ∷ ids) [] _ = tt
All-fulfilled P (id ∷ ids) (none ∷ rs) (h, hs) = All-fulfilled P ids rs hs
All-fulfilled P (id ∷ ids) (some u ∷ rs) (h, hs) = (h, All-fulfilled P ids rs hs)

-- An object URL is not empty.
abbrev pub IsUrl : Option Text → Type 0
IsUrl none = Unit
IsUrl (some u) = is_truthy (some u) ≡ true

All-IsUrl :
    (ids : List EntityId) (results : List (Option Text))
    → All IsUrl results
    → All (λ (r : LoadImageReturn). is_truthy (some r.image_url) ≡ true) (fulfilled ids results)
unfolding fulfilled
All-IsUrl [] rs _ = tt
All-IsUrl (id ∷ ids) [] _ = tt
All-IsUrl (id ∷ ids) (none ∷ rs) (h, hs) = All-IsUrl ids rs hs
All-IsUrl (id ∷ ids) (some u ∷ rs) (h, hs) = (h, All-IsUrl ids rs hs)

module _ {M : Type 0} (adapter : EntityAdapter (ArtifactEntity M) select_id) where
  abbrev with_url : LoadImageReturn → Update (ArtifactEntity M)
  with_url r = (r.image_id, λ e. record e { thumbnail_url = some r.image_url })

  ids-with_url :
      (rs : List LoadImageReturn)
      → map (λ (u : Update (ArtifactEntity M)). u.0) (map with_url rs) ≡ image_ids rs
  ids-with_url [] = refl
  ids-with_url (r ∷ rs) = rw (ids-with_url rs)

  All-with_url :
      (P : Update (ArtifactEntity M) → Type 0)
      → ((r : LoadImageReturn) → P (with_url r))
      → (rs : List LoadImageReturn) → All P (map with_url rs)
  All-with_url P h [] = tt
  All-with_url P h (r ∷ rs) = (h r, All-with_url P h rs)

  sets_thumbnail :
      (rs : List LoadImageReturn)
      → All (λ (r : LoadImageReturn). is_truthy (some r.image_url) ≡ true) rs
      → All
          (λ (u : Update (ArtifactEntity M)). (e : ArtifactEntity M) → has_thumbnail (u.1 e) ≡ true)
          (map with_url rs)
  sets_thumbnail [] _ = tt
  sets_thumbnail (r ∷ rs) (h, hs) = (λ e. h, sets_thumbnail rs hs)

  -- Where the counters are right, the requested artifacts are distinct, known and without a
  -- thumbnail when the requests of a chunk have settled, and object URLs are not empty, the
  -- counters stay right, whichever of the requests were rejected.
  pub load_thumbnails-IsCounted :
      (ids sent : List EntityId) (results : List (Option Text)) (s : ImageViewState M)
      → Distinct sent
      → All (λ j. flag_at has_thumbnail s.table j ≡ some false) sent
      → All IsUrl results
      → IsCounted s
      → IsCounted (load_thumbnails_fulfilled adapter ids (fulfilled sent results) s)
  unfolding load_thumbnails_fulfilled
  load_thumbnails-IsCounted ids sent results s d bare urls c =
      let to_loaded : ArtifactEntity M → ArtifactEntity M =
        λ e. record e { thumbnail_status = loaded } in
      let t = update_each adapter to_loaded ids s.table in
      let n = update_each-IsNormalized adapter to_loaded (λ e. refl) ids s c in
      let rs = fulfilled sent results in
      let us = map with_url rs in
      let keeps =
        All-with_url (λ (u : Update (ArtifactEntity M)). KeepsId select_id u.1) (λ r e. refl) rs in
      let one =
        count-set_many adapter has_thumbnail true us t n
          (subst (λ (js : List EntityId). Distinct js) (sym (ids-with_url rs))
            (fulfilled-Distinct sent results d))
          keeps (sets_thumbnail rs (All-IsUrl sent results urls))
          (subst (All (λ j. flag_at has_thumbnail t j ≡ some false)) (sym (ids-with_url rs)) (
            All-fulfilled (λ j. flag_at has_thumbnail t j ≡ some false) sent results
              (All-imp _ _ sent
                (λ j h.
                  map-update_each adapter to_loaded (λ e. refl) has_thumbnail (λ e. refl)
                    (λ e. refl) ids s.table j
                  ∙ h)
                bare))) in
      record {
        normalized = update_many-IsNormalized adapter us t keeps n;
        items =
            c.items
            ∙ ap pos (
                sym (
                  count-update_many_same adapter selected us t keeps (
                    All-with_url
                      (λ (u : Update (ArtifactEntity M)).
                        (e : ArtifactEntity M) → selected (u.1 e) ≡ selected e)
                      (λ r e. refl) rs)
                  ∙ count-update_each_same adapter selected to_loaded (λ e. refl) (λ e. refl) ids
                      s.table));
        thumbnails = counter-add _ _ (length rs) s.num_thumbnails_loaded c.thumbnails (
            one
            ∙ omega (
              arith,
              length-map with_url rs,
              count-update_each_same adapter has_thumbnail to_loaded (λ e. refl) (λ e. refl) ids
                  s.table,
            ));
      }
