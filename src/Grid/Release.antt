-- ===== src/Grid/Release.antt =====
-- thumbnail-grid-slice.ts: which object URLs the clearing thunks revoke.
use mallard.Common.{
  ℕ, ◌≡◌, refl, ◌⊎◌, sym, ◌∙◌, Text, map, Option, none, some, is_some, Option-cases, Bool, true,
  false, List, [], ◌∷◌, ◌++◌, arith, All, All-of_mem, text_Eq, keep, count, inl, inr, codes,
}
use mathlib.Core.Option
use mallard.Types.{EntityId, NormalizedState, ArtifactEntity, is_truthy, ObjectRef}
use mallard.Adapter.{IsNormalized, EntityAdapter}
use mallard.Adapter.Count.{at_id}
use mallard.Adapter.Entities.{entities-update_each}
use mallard.Adapter.Normalized.{remove_all-IsNormalized}
use mallard.Grid.State.{ImageViewState, select_id, create_artifact_entity_id}
use mallard.Grid.Reducers.{
  clear_thumbnails, clear_full_sized_images, clear_image_view, no_thumbnail,
}
use mallard.Grid.Thunks.{
  Store, done, collect, clear_loop, clear_with, thunk_clear_thumbnails,
  thunk_clear_full_sized_images, thunk_clear_image_view,
}
use mallard.Grid.Counters.{IsCounted}

-- The URL under an ID, if there is one to revoke.
abbrev pub url_at :
    {M : Type 0}
    → (ArtifactEntity M → Option Text)
    → NormalizedState (ArtifactEntity M)
    → EntityId
    → List Text
url_at url t j = elim (t.entities j) [
  | none ↦ []
  | some e ↦ elim (url e) [ none ↦ [] | some u ↦ elim u [ [] ↦ [] | c ∷ rest ↦ (c ∷ rest) ∷ [] ] ]
]

-- The URLs under a list of IDs, in its order.
abbrev pub held :
    {M : Type 0}
    → (ArtifactEntity M → Option Text)
    → NormalizedState (ArtifactEntity M)
    → List EntityId
    → List Text
held url t [] = []
held url t (j ∷ js) = url_at url t j ++ held url t js

abbrev pub thumbnail_of : {M : Type 0} → ArtifactEntity M → Option Text
thumbnail_of e = e.thumbnail_url

abbrev pub image_of : {M : Type 0} → ArtifactEntity M → Option Text
image_of e = e.artifact_url

-- An ID that the loop looks up: it is not empty, and it is known.
abbrev pub IsLive : {M : Type 0} → NormalizedState (ArtifactEntity M) → EntityId → Type 0
IsLive t [] = ⊥
IsLive t (c ∷ j) = is_some (t.entities (c ∷ j)) ≡ true

id_not_empty : (r : ObjectRef) → (c : ℕ) × (j : Text) × (create_artifact_entity_id r ≡ c ∷ j)
unfolding create_artifact_entity_id
id_not_empty r = elim (cases r.bucket) [
  | inl empty ↦ (b'_', r.name, rw empty)
  | inr (c, rest, full) ↦ (c, rest ++ (codes "_" ++ r.name), rw full)
]
  where
    cases : (s : Text) → (s ≡ []) ⊎ ((c : ℕ) × (rest : Text) × (s ≡ c ∷ rest))
    cases [] = inl refl
    cases (c ∷ rest) = inr (c, rest, refl)

module _ {M : Type 0} where
  IsLive-of_known :
      (t : NormalizedState (ArtifactEntity M)) (j : EntityId)
      → IsNormalized select_id t
      → is_some (t.entities j) ≡ true
      → IsLive t j
  IsLive-of_known t (c ∷ j) n known = known
  IsLive-of_known t [] n known = elim (Option-cases (t.entities [])) [
    | inl missing ↦ absurd (ground arith)
    | inr (e, found) ↦
        let (c, j, cons) = id_not_empty e.backend_id.id in
        let clash : [] ≡ c ∷ j = sym (n.keyed [] e found) ∙ cons in absurd cc
  ]

  module _ (url : ArtifactEntity M → Option Text) (s : ImageViewState M) where
    abbrev pub holds_url : EntityId → Bool
    holds_url = at_id (λ e. is_truthy (url e)) s.table

    clear_loop_lem :
        (ids : List EntityId)
        → All (IsLive s.table) ids
        → clear_loop url s (map some ids) ≡ record {
          urls = held url s.table ids;
          cleared_image_ids = keep holds_url ids;
          threw_error = false;
        }
    unfolding clear_loop collect
    clear_loop_lem [] _ = refl
    clear_loop_lem ([] ∷ ids) (h, hs) = absurd h
    clear_loop_lem ((c ∷ j) ∷ ids) (h, hs) = ground (arith, clear_loop_lem ids hs)

    -- A clearing thunk on live IDs: it does not throw, revokes the URLs that the artifacts hold, and
    -- dispatches its action for the artifacts that held one.
    pub clear_with_lem :
        (action : List EntityId → ImageViewState M → ImageViewState M) (ids : List EntityId)
        (revoked : List Text)
        → All (IsLive s.table) ids
        → clear_with url action (map some ids) (record { image_view = s; revoked = revoked })
          ≡ done (record {
            image_view = action (keep holds_url ids) s;
            revoked = revoked ++ held url s.table ids;
          })
    unfolding clear_with
    clear_with_lem action ids revoked live = rw (clear_loop_lem ids live)

  -- What the URLs under an ID depend on.
  pub held-ext :
      (url : ArtifactEntity M → Option Text) (t t' : NormalizedState (ArtifactEntity M))
      → ((j : EntityId) → Option.map url (t'.entities j) ≡ Option.map url (t.entities j))
      → (ids : List EntityId) → held url t' ids ≡ held url t ids
  held-ext url t t' same [] = refl
  held-ext url t t' same (j ∷ ids) = elim (Option-cases (t.entities j)) [
    | inl missing ↦ ground (arith, same j, held-ext url t t' same ids)
    | inr (e, found) ↦ ground (arith, same j, held-ext url t t' same ids)
  ]

  pub All-IsLive :
      (t : NormalizedState (ArtifactEntity M)) → IsNormalized select_id t → All (IsLive t) t.ids
  All-IsLive t n = All-of_mem (IsLive t) t.ids (λ j m. IsLive-of_known t j n (sym (n.listed j) ∙ m))

  pub IsLive-same :
      (t t' : NormalizedState (ArtifactEntity M))
      → ((j : EntityId) → is_some (t'.entities j) ≡ is_some (t.entities j))
      → (ids : List EntityId) → All (IsLive t) ids
      → All (IsLive t') ids
  IsLive-same t t' same [] _ = tt
  IsLive-same t t' same ([] ∷ ids) (h, hs) = absurd h
  IsLive-same t t' same ((c ∷ j) ∷ ids) (h, hs) = (same (c ∷ j) ∙ h, IsLive-same t t' same ids hs)

module _ {M : Type 0} (adapter : EntityAdapter (ArtifactEntity M) select_id) where
  -- Clearing thumbnails leaves the artifacts and their full-sized images.
  pub thumbnails_only :
      (ids : List EntityId) (s : ImageViewState M) (j : EntityId)
      → (is_some ((clear_thumbnails adapter ids s).table.entities j) ≡ is_some (s.table.entities j))
        × (Option.map (λ e. e.artifact_url) ((clear_thumbnails adapter ids s).table.entities j)
            ≡ Option.map (λ e. e.artifact_url) (s.table.entities j))
  unfolding clear_thumbnails
  thumbnails_only ids s j =
      let after =
        entities-update_each adapter (no_thumbnail adapter) (λ e. refl) (λ e. refl) ids s.table j in
      elim (Option-cases (s.table.entities j)) [
        | inl missing ↦ (ground (arith, after), ground (arith, after))
        | inr (e, found) ↦ (ground (arith, after), ground (arith, after))
      ]

  -- `count_entities` of a table without IDs.
  emptied-IsCounted : (s : ImageViewState M) → IsCounted (clear_image_view adapter true s)
  unfolding clear_image_view count
  emptied-IsCounted s = record {
    normalized = remove_all-IsNormalized adapter s.table;
    items = rw (adapter.ids_remove_all s.table) refl;
    thumbnails = rw (adapter.ids_remove_all s.table) refl;
  }

  ids-emptied : (s : ImageViewState M) → (clear_image_view adapter true s).table.ids ≡ []
  unfolding clear_image_view
  ids-emptied s = adapter.ids_remove_all s.table

  -- Clearing the view of a normalised state never throws. It revokes the URL of every thumbnail and
  -- every full-sized image that an artifact holds, in the order of the artifacts, the thumbnails
  -- first, leaves no artifact, and leaves the counters right.
  pub thunk_clear_image_view_lem :
      (store : Store M)
      → IsNormalized select_id store.image_view.table
      → (s' : ImageViewState M) × (thunk_clear_image_view adapter store
          ≡ done (record {
            image_view = s';
            revoked =
                (store.revoked
                  ++ held thumbnail_of store.image_view.table store.image_view.table.ids)
                ++ held image_of store.image_view.table store.image_view.table.ids;
          }))
        × (s'.table.ids ≡ [])
        × IsCounted s'
  unfolding thunk_clear_image_view thunk_clear_thumbnails thunk_clear_full_sized_images
  thunk_clear_image_view_lem store n =
      let s = store.image_view in
      let ids = s.table.ids in
      let live = All-IsLive s.table n in
      let s₁ = clear_thumbnails adapter (keep (holds_url thumbnail_of s) ids) s in
      let same = thumbnails_only (keep (holds_url thumbnail_of s) ids) s in
      let first = clear_with_lem thumbnail_of s (clear_thumbnails adapter) ids store.revoked live in
      let second =
        clear_with_lem image_of s₁ (clear_full_sized_images adapter) ids
          (store.revoked ++ held thumbnail_of s.table ids)
          (IsLive-same s.table s₁.table (λ j. (same j).0) ids live) in
      let s₂ = clear_full_sized_images adapter (keep (holds_url image_of s₁) ids) s₁ in
      (
        clear_image_view adapter true s₂,
        rw (first, second, held-ext image_of s.table s₁.table (λ j. (same j).1) ids),
        ids-emptied s₂,
        emptied-IsCounted s₂,
      )
