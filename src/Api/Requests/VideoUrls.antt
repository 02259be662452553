-- ===== src/Api/Requests/VideoUrls.antt =====
-- api-client.ts and thumbnail-grid-slice.ts: the URLs that `thunkAddArtifacts` asks for.
use mallard.Common.{
  ◌≡◌, refl, ◌∙◌, Text, text_eq, text_Eq, mem, Option, none, some, is_some, true, Bool-cases, inl,
  inr, List, [], ◌∷◌, map, ap, All,
}
use mallard.Types.{TypedObjectRef, EntityId, ArtifactEntity}
use mallard.Adapter.{EntityAdapter, Update, KeepsId}
use mallard.Adapter.Entities.{entities-update_many}
use mallard.Grid.State.{AddArtifactsReturn, ImageViewState, select_id, create_artifact_entity_id}
use mallard.Grid.Requests.{add_artifacts_fulfilled}
use mallard.Grid.Reducers.{is_video}
use mallard.Grid.Loads.{add_artifacts}
use mallard.Api.Auth.{Answer, answered, thrown, FiefAuth, UrlLibrary, Session}
use mallard.Api.Auth.Login.{IsSignedIn, get_auth_token-IsSignedIn}
use mallard.Api.Requests.{get_preview_video_url, get_streamable_video_url}

-- What a function that does not throw answers.
abbrev pub url_of : {S E : Type 0} → Answer E (Option Text) × S → Option Text
url_of (answered url, _) = url
url_of (thrown _, _) = none

module _ {B : Type 0} {E : Type 0} (urls : UrlLibrary) (location : Text) (fief_auth : FiefAuth B E)
    (url_join : List Text → Text) (api_base_url : Text) (session : Session B) where
  abbrev pub preview_url : TypedObjectRef → Option Text
  preview_url id =
      url_of (get_preview_video_url urls location (some fief_auth) url_join api_base_url id session)

  abbrev pub streamable_url : TypedObjectRef → Option Text
  streamable_url id =
      url_of
        (get_streamable_video_url urls location (some fief_auth) url_join api_base_url id session)

  preview_url-is_video :
      IsSignedIn fief_auth session.fief
      → (id : TypedObjectRef) → is_some (preview_url id) ≡ is_video id.type
  unfolding get_preview_video_url
  preview_url-is_video signed_in id = elim (Bool-cases (is_video id.type)) [
    | inl v ↦ rw (v, get_auth_token-IsSignedIn fief_auth urls location session signed_in) refl
    | inr v ↦ rw v refl
  ]

  streamable_url-is_video :
      IsSignedIn fief_auth session.fief
      → (id : TypedObjectRef) → is_some (streamable_url id) ≡ is_video id.type
  unfolding get_streamable_video_url
  streamable_url-is_video signed_in id = elim (Bool-cases (is_video id.type)) [
    | inl v ↦ rw (v, get_auth_token-IsSignedIn fief_auth urls location session signed_in) refl
    | inr v ↦ rw v refl
  ]

  module _ {M : Type 0} (adapter : EntityAdapter (ArtifactEntity M) select_id) where
    abbrev with_urls : TypedObjectRef → ArtifactEntity M → ArtifactEntity M
    with_urls id e = record e { preview_url = preview_url id; streamable_url = streamable_url id }

    abbrev update_of : AddArtifactsReturn → Update (ArtifactEntity M)
    update_of a = (
      create_artifact_entity_id a.backend_id.id,
      λ e. record e { preview_url = a.preview_url; streamable_url = a.streamable_url },
    )

    abbrev updates : List TypedObjectRef → List (Update (ArtifactEntity M))
    updates ids = map update_of (add_artifacts preview_url streamable_url ids)

    updates-keep :
        (ids : List TypedObjectRef)
        → All (λ (u : Update (ArtifactEntity M)). KeepsId select_id u.1) (updates ids)
    unfolding add_artifacts
    updates-keep [] = tt
    updates-keep (id ∷ ids) = (λ e. refl, updates-keep ids)

    ids-updates :
        (ids : List TypedObjectRef)
        → map (λ (u : Update (ArtifactEntity M)). u.0) (updates ids)
          ≡ map (λ (id : TypedObjectRef). create_artifact_entity_id id.id) ids
    unfolding add_artifacts
    ids-updates [] = refl
    ids-updates (id ∷ ids) =
        ap (λ (rest : List EntityId). create_artifact_entity_id id.id ∷ rest) (ids-updates ids)

    updates-own :
        (j : EntityId) (id : TypedObjectRef) (ids : List TypedObjectRef)
        → All
            (λ (r : TypedObjectRef). text_eq (create_artifact_entity_id r.id) j ≡ true → r ≡ id)
            ids
        → All
            (λ (u : Update (ArtifactEntity M)).
              text_eq u.0 j ≡ true → (e : ArtifactEntity M) → u.1 e ≡ with_urls id e)
            (updates ids)
    unfolding add_artifacts
    updates-own j id [] _ = tt
    updates-own j id (r ∷ ids) (own, rest) =
        (λ here e. ap (λ x. with_urls x e) (own here), updates-own j id ids rest)

    -- The thunk and its fulfilled reducer, on the state of then.
    abbrev pub added : List TypedObjectRef → ImageViewState M → ImageViewState M
    added ids s = add_artifacts_fulfilled adapter (add_artifacts preview_url streamable_url ids) s

    -- Through `thunkAddArtifacts` and its fulfilled reducer, a requested artifact of a signed-in user
    -- that is in the table by then, and shares its frontend ID with no other requested one, has a
    -- preview and a streamable URL if it is a video, and neither if it is not. All else about it is
    -- as before.
    pub add_artifacts_lem :
        IsSignedIn fief_auth session.fief
        → (ids : List TypedObjectRef) (id : TypedObjectRef)
        → All
            (λ (r : TypedObjectRef).
              text_eq (create_artifact_entity_id r.id) (create_artifact_entity_id id.id) ≡ true
              → r ≡ id)
            ids
        → mem
            (create_artifact_entity_id id.id)
            (map (λ (r : TypedObjectRef). create_artifact_entity_id r.id) ids)
          ≡ true
        → (s : ImageViewState M) (e : ArtifactEntity M)
        → s.table.entities (create_artifact_entity_id id.id) ≡ some e
        → (preview streamable : Option Text) × ((added ids s).table.entities
              (create_artifact_entity_id id.id)
            ≡ some (record e { preview_url = preview; streamable_url = streamable }))
          × (is_some preview ≡ is_video id.type)
          × (is_some streamable ≡ is_video id.type)
    unfolding add_artifacts_fulfilled
    add_artifacts_lem signed_in ids id own requested s e found =
        let j = create_artifact_entity_id id.id in
        let put =
          entities-update_many adapter (with_urls id) (λ x. refl) j (updates ids) s.table
            (updates-keep ids) (updates-own j id ids own) in
        (
          preview_url id,
          streamable_url id,
          put ∙ rw (ids-updates ids, requested, found) refl,
          preview_url-is_video signed_in id,
          streamable_url-is_video signed_in id,
        )
