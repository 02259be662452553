-- ===== src/Grid/Ids.antt =====
-- thumbnail-grid-slice.ts, createArtifactEntityId: what the frontend's IDs tell apart.
use mallard.Common.{Text, codes, ◌≡◌, refl, false, [], ◌∷◌, ◌++◌, includes_unit, arith}
use mallard.Types.{ObjectRef}
use mallard.Grid.State.{create_artifact_entity_id}

-- Texts without an underscore are told apart from what follows the first underscore.
cut :
    (b c n m : Text)
    → includes_unit b'_' b ≡ false
    → includes_unit b'_' c ≡ false
    → b ++ (codes "_" ++ n) ≡ c ++ (codes "_" ++ m)
    → (b ≡ c) × (n ≡ m)
cut [] [] n m hb hc e = (refl, cc)
cut [] (y ∷ c) n m hb hc e = let same : b'_' ≡ y = cc in ground arith
cut (x ∷ b) [] n m hb hc e = let same : x ≡ b'_' = cc in ground arith
cut (x ∷ b) (y ∷ c) n m hb hc e =
    let rest : b ++ (codes "_" ++ n) ≡ c ++ (codes "_" ++ m) = cc in
    let (buckets, names) = cut b c n m (ground arith) (ground arith) rest in (cc, names)

-- Artifacts in buckets whose names have no underscore have different frontend IDs, unless their
-- buckets and names are the same.
pub create_artifact_entity_id_injective :
    (r q : ObjectRef)
    → includes_unit b'_' r.bucket ≡ false
    → includes_unit b'_' q.bucket ≡ false
    → create_artifact_entity_id r ≡ create_artifact_entity_id q
    → r ≡ q
unfolding create_artifact_entity_id
create_artifact_entity_id_injective r q hr hq e =
    let parts = cut r.bucket q.bucket r.name q.name hr hq e in rw (parts.1, parts.0) refl
