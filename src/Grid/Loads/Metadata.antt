-- ===== src/Grid/Loads/Metadata.antt =====
-- The metadata that `thunkLoadMetadata` answers, in an order of its own, and where the fulfilled
-- reducer puts it.
use mathlib.Core.Option
use mallard.Common.{
  map-append, ◌≡◌, refl, ap, sym, ◌∙◌, text_eq, eq_of_text_eq, eq_of_some, none, some, Option-cases,
  Bool-cases, Bool, true, not, ◌||◌, List, [], ◌∷◌, ◌++◌, map, mem, mem-append, keep, text_Eq, All,
  All-append, if◌then◌else◌, arith, inl, inr,
}
use mallard.Types.{loaded, TypedObjectRef, EntityId, ArtifactEntity}
use mallard.Adapter.{IsNormalized, Update, KeepsId, EntityAdapter}
use mallard.Adapter.Entities.{entities-update_many}
use mallard.Grid.State.{ImageViewState, select_id, create_artifact_entity_id}
use mallard.Grid.Requests.{metadata_updates, load_metadata_fulfilled}
use mallard.Grid.Selection.{IsKnown}
use mallard.Grid.Loads.{
  LoadMetadataReturn, load_metadata, select_entities, has_metadata, previous_metadata,
}

module _ {M : Type 0} (adapter : EntityAdapter (ArtifactEntity M) select_id)
    (describe : TypedObjectRef → M) where
  -- The metadata of an artifact: its own, or what the gateway answers for it.
  abbrev pub metadata_of : ArtifactEntity M → M
  metadata_of e = elim e.metadata [ none ↦ describe e.backend_id | some m ↦ m ]

  abbrev pub with_metadata : M → ArtifactEntity M → ArtifactEntity M
  with_metadata m e = record e { metadata = some m; metadata_status = loaded }

  abbrev update_of : ArtifactEntity M → Update (ArtifactEntity M)
  update_of e = (select_id e, with_metadata (metadata_of e))

  abbrev lacks_metadata : ArtifactEntity M → Bool
  lacks_metadata e = not (has_metadata e)

  -- The first part of the answer.
  metadata_updates-previous :
      (es : List (ArtifactEntity M)) (ids : List EntityId) (ms : List M)
      → metadata_updates adapter
          (map select_id (keep has_metadata es) ++ ids)
          (previous_metadata (keep has_metadata es) ++ ms)
        ≡ map update_of (keep has_metadata es) ++ metadata_updates adapter ids ms
  unfolding metadata_updates previous_metadata
  metadata_updates-previous [] ids ms = refl
  metadata_updates-previous (e ∷ es) ids ms = elim (Option-cases e.metadata) [
    | inl missing ↦ rw missing (metadata_updates-previous es ids ms)
    | inr (m, found) ↦ rw (found, metadata_updates-previous es ids ms)
  ]

  -- The second part.
  metadata_updates-requested :
      (es : List (ArtifactEntity M))
      → metadata_updates adapter
          (map
            (λ (r : TypedObjectRef). create_artifact_entity_id r.id)
            (map (λ (e : ArtifactEntity M). e.backend_id) (keep lacks_metadata es)))
          (map describe (map (λ (e : ArtifactEntity M). e.backend_id) (keep lacks_metadata es)))
        ≡ map update_of (keep lacks_metadata es)
  unfolding metadata_updates
  metadata_updates-requested [] = refl
  metadata_updates-requested (e ∷ es) = elim (Option-cases e.metadata) [
    | inl missing ↦ rw (missing, metadata_updates-requested es)
    | inr (m, found) ↦ rw found (metadata_updates-requested es)
  ]

  -- Both parts together hold the IDs of all the artifacts.
  mem-parts :
      (j : EntityId) (es : List (ArtifactEntity M))
      → (mem j (map (λ (u : Update (ArtifactEntity M)). u.0) (map update_of (keep has_metadata es)))
          || mem j (
              map
                (λ (u : Update (ArtifactEntity M)). u.0)
                (map update_of (keep lacks_metadata es))))
        ≡ mem j (map select_id es)
  mem-parts j [] = refl
  mem-parts j (e ∷ es) = ground (arith, mem-parts j es)

  -- The artifacts that the thunk reads.
  select_entities_lem :
      (s : ImageViewState M) (ids : List EntityId)
      → IsNormalized select_id s.table
      → All (IsKnown s) ids
      → (es : List (ArtifactEntity M)) × (select_entities s ids ≡ some es)
        × (map select_id es ≡ ids)
        × All (λ e. s.table.entities (select_id e) ≡ some e) es
  unfolding select_entities
  select_entities_lem s [] n _ = ([], refl, refl, tt)
  select_entities_lem s (j ∷ ids) n (k, ks) = elim (Option-cases (s.table.entities j)) [
    | inl missing ↦ absurd (ground arith)
    | inr (e, found) ↦
        let (es, rest, same, own) = select_entities_lem s ids n ks in
        let key = n.keyed j e found in
        (e ∷ es, rw (found, rest), rw (key, same), (ap s.table.entities key ∙ found, own))
  ]

  -- Each update under the ID of an artifact is the one of that artifact.
  own_updates :
      (s : ImageViewState M) (j : EntityId) (e : ArtifactEntity M)
      → s.table.entities j ≡ some e
      → (p : ArtifactEntity M → Bool) (es : List (ArtifactEntity M))
      → All (λ x. s.table.entities (select_id x) ≡ some x) es
      → All
          (λ (u : Update (ArtifactEntity M)).
            text_eq u.0 j ≡ true → (x : ArtifactEntity M) → u.1 x ≡ with_metadata (metadata_of e) x)
          (map update_of (keep p es))
  own_updates s j e h p [] _ = tt
  own_updates s j e h p (y ∷ es) (k, ks) = elim (Bool-cases (p y)) [
    | inl kept ↦ rw kept (
      λ here x.
          let same : y ≡ e =
            eq_of_some (sym k ∙ ap s.table.entities (eq_of_text_eq (select_id y) j here) ∙ h) in
          ap (λ z. with_metadata (metadata_of z) x) same,
      own_updates s j e h p es ks,
    )
    | inr dropped ↦ rw dropped (own_updates s j e h p es ks)
  ]

  keep_ids :
      (es : List (ArtifactEntity M))
      → All (λ (u : Update (ArtifactEntity M)). KeepsId select_id u.1) (map update_of es)
  keep_ids [] = tt
  keep_ids (e ∷ es) = (λ x. refl, keep_ids es)

  -- Where the gateway describes the requested artifacts in their order, and the requested
  -- artifacts are known in a normalised state, the thunk answers. Through its answer an artifact
  -- of that state gets its own metadata if it was requested, and stays as it is then if not,
  -- whatever the order of the answer and whatever the state is by then. Its own metadata are those
  -- that it had at the request, or else what the gateway says of it.
  pub load_metadata_lem :
      (get_metadata : List TypedObjectRef → List M)
      → ((refs : List TypedObjectRef) → get_metadata refs ≡ map describe refs)
      → (s s' : ImageViewState M) (ids : List EntityId) → IsNormalized select_id s.table
      → All (IsKnown s) ids
      → (j : EntityId) (e : ArtifactEntity M) → s.table.entities j ≡ some e
      → (p : LoadMetadataReturn M) × (load_metadata get_metadata ids s ≡ some p)
        × ((load_metadata_fulfilled adapter p.image_ids p.metadata s').table.entities j ≡ (
            if mem j ids
            then Option.map (with_metadata (metadata_of e)) (s'.table.entities j)
            else s'.table.entities j))
  unfolding load_metadata load_metadata_fulfilled
  load_metadata_lem get_metadata answers s s' ids n known j e h =
      let (es, selected, same, own) = select_entities_lem s ids n known in
      let refs = map (λ (x : ArtifactEntity M). x.backend_id) (keep lacks_metadata es) in
      let parts =
        metadata_updates-previous es
          (map (λ (r : TypedObjectRef). create_artifact_entity_id r.id) refs) (map describe refs)
        ∙ ap (map update_of (keep has_metadata es) ++◌) (metadata_updates-requested es) in
      let us = map update_of (keep has_metadata es) ++ map update_of (keep lacks_metadata es) in
      let put =
        entities-update_many adapter (with_metadata (metadata_of e)) (λ x. refl) j us s'.table
          (All-append _ _ _ (keep_ids (keep has_metadata es)) (keep_ids (keep lacks_metadata es)))
          (All-append _ _ _ (own_updates s j e h has_metadata es own)
            (own_updates s j e h lacks_metadata es own)) in
      let members : mem j (map (λ (u : Update (ArtifactEntity M)). u.0) us) ≡ mem j ids =
        ap (mem j) (
          map-append (λ (u : Update (ArtifactEntity M)). u.0) (map update_of (keep has_metadata es))
            _)
        ∙ mem-append j _ _
        ∙ mem-parts j es
        ∙ ap (mem j) same in
      (
        record {
          image_ids =
              map select_id (keep has_metadata es)
              ++ map (λ (r : TypedObjectRef). create_artifact_entity_id r.id) refs;
          metadata = previous_metadata (keep has_metadata es) ++ map describe refs;
        },
        rw (selected, answers refs),
        rw parts (
            put
            ∙ ap
                (λ (b : Bool).
                  if b
                  then Option.map (with_metadata (metadata_of e)) (s'.table.entities j)
                  else s'.table.entities j)
                members),
      )
