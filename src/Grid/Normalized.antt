-- ===== src/Grid/Normalized.antt =====
-- thumbnail-grid-slice.ts: the table of the state through the slice's actions.
use mallard.Common.{
  ◌≡◌, refl, sym, Text, map, text_Eq, Option, none, some, eq_of_some, Option-cases, Bool-cases,
  List, [], ◌∷◌, All, inl, inr, arith,
}
use mathlib.Core.Path.{subst}
use mallard.Types.{TypedObjectRef, EntityId, NormalizedState, ArtifactEntity}
use mallard.Adapter.{IsNormalized, Update, KeepsId, EntityAdapter}
use mallard.Adapter.Count.{update_each}
use mallard.Adapter.Normalized.{
  update_one-IsNormalized, update_many-IsNormalized, upsert_many-IsNormalized,
  remove_many-IsNormalized, remove_all-IsNormalized,
}
use mallard.Grid.State.{
  ImageViewState, select_id, create_artifact_entity_id, create_default_entity, AddArtifactsReturn,
  initial_state,
}
use mallard.Grid.Reducers.{
  is_video, clear_full_sized_images, clear_thumbnails, clear_image_view, set_search_string,
  select_images, show_details, set_exported_images_url, set_section_expanded,
  set_editing_dialog_open, clear_video_url, set_scroll_location,
}
use mallard.Grid.Requests.{
  default_entities, metadata_updates, LoadImageReturn, add_artifacts_pending,
  add_artifacts_fulfilled, set_video_url_fulfilled, start_new_query_pending,
  start_new_query_fulfilled, continue_query_pending, continue_query_fulfilled,
  bulk_download_pending, bulk_download_fulfilled, update_metadata_pending,
  update_metadata_fulfilled, do_autocomplete_pending, do_autocomplete_fulfilled,
  load_thumbnails_pending, load_thumbnails_fulfilled, load_image_pending, load_image_fulfilled,
  delete_selected_pending, delete_selected_fulfilled, load_metadata_pending,
  load_metadata_fulfilled,
}
use mallard.Grid.Actions.{
  Action, clear_full_sized, clear_thumbs, clear_view, set_search, select, details, exported_url,
  section_expanded, editing_dialog, clear_video, scroll_location, adding_artifacts, added_artifacts,
  got_video_url, starting_query, started_query, continuing_query, continued_query, downloading,
  downloaded, updating_metadata, updated_metadata, completing, completed, loading_thumbnails,
  loaded_thumbnails, loading_image, loaded_image, deleting_selected, deleted_selected,
  loading_metadata, loaded_metadata, reducer, IsBatch, Reaches, start, step,
}

module _ {M : Type 0} (adapter : EntityAdapter (ArtifactEntity M) select_id) where
  abbrev Keeping : List (Update (ArtifactEntity M)) → Type 0
  Keeping us = All (λ (u : Update (ArtifactEntity M)). KeepsId select_id u.1) us

  -- Updates that are built from a list keep the IDs if each does.
  Keeping-map :
      {A : Type 0} (f : A → Update (ArtifactEntity M))
      → ((a : A) → KeepsId select_id ((f a).1))
      → (xs : List A) → Keeping (map f xs)
  Keeping-map f h [] = tt
  Keeping-map f h (a ∷ xs) = (h a, Keeping-map f h xs)

  update_each-IsNormalized :
      (f : ArtifactEntity M → ArtifactEntity M)
      → KeepsId select_id f
      → (ids : List EntityId) (t : NormalizedState (ArtifactEntity M)) → IsNormalized select_id t
      → IsNormalized select_id (update_each adapter f ids t)
  update_each-IsNormalized f keeps ids t n =
      update_many-IsNormalized adapter (map (λ j. (j, f)) ids) t
        (Keeping-map (λ j. (j, f)) (λ j. keeps) ids) n

  Keeping-metadata_updates :
      (ids : List EntityId) (ms : List M) → Keeping (metadata_updates adapter ids ms)
  unfolding metadata_updates
  Keeping-metadata_updates [] ms = tt
  Keeping-metadata_updates (id ∷ ids) [] = (λ e. refl, Keeping-metadata_updates ids [])
  Keeping-metadata_updates (id ∷ ids) (m ∷ ms) = (λ e. refl, Keeping-metadata_updates ids ms)

  ids-default_entities :
      (ids : List TypedObjectRef)
      → map select_id (default_entities adapter ids)
        ≡ map (λ (r : TypedObjectRef). create_artifact_entity_id r.id) ids
  unfolding create_default_entity
  ids-default_entities [] = refl
  ids-default_entities (r ∷ ids) = rw (ids-default_entities ids)

  -- The state that an action leads to is the one that its reducer returns.
  to_next :
      (next s' : ImageViewState M)
      → IsNormalized select_id next.table
      → some next ≡ some s'
      → IsNormalized select_id s'.table
  to_next next s' n e =
      subst (λ (x : ImageViewState M). IsNormalized select_id x.table) (eq_of_some e) n

  clear_video_url-IsNormalized :
      (id : EntityId) (s s' : ImageViewState M)
      → IsNormalized select_id s.table
      → clear_video_url adapter id s ≡ some s'
      → IsNormalized select_id s'.table
  unfolding clear_video_url
  clear_video_url-IsNormalized id s s' n e = elim (Option-cases (s.table.entities id)) [
    | inl missing ↦ absurd (ground arith)
    | inr (entity, found) ↦ elim (Bool-cases (is_video entity.backend_id.type)) [
      | inl video ↦
          to_next _ s'
            (update_one-IsNormalized adapter (id, λ x. record x { artifact_url = none }) s.table
              (λ x. refl) n)
            (rw (clear_video_url, found, video) at e)
      | inr other ↦ to_next s s' n (rw (clear_video_url, found, other) at e)
    ]
  ]

  added_artifacts-IsNormalized :
      (rs : List AddArtifactsReturn) (s : ImageViewState M)
      → IsNormalized select_id s.table
      → IsNormalized select_id (add_artifacts_fulfilled adapter rs s).table
  unfolding add_artifacts_fulfilled
  added_artifacts-IsNormalized rs s n =
      update_many-IsNormalized adapter _ s.table (Keeping-map _ (λ a x. refl) rs) n

  loaded_thumbnails-IsNormalized :
      (ids : List EntityId) (rs : List LoadImageReturn) (s : ImageViewState M)
      → IsNormalized select_id s.table
      → IsNormalized select_id (load_thumbnails_fulfilled adapter ids rs s).table
  unfolding load_thumbnails_fulfilled
  loaded_thumbnails-IsNormalized ids rs s n =
      update_many-IsNormalized adapter _ _ (Keeping-map _ (λ a x. refl) rs)
        (update_each-IsNormalized _ (λ x. refl) ids s.table n)

  completed-IsNormalized :
      (ts : List (Option Text)) (s : ImageViewState M)
      → IsNormalized select_id s.table
      → IsNormalized select_id (do_autocomplete_fulfilled adapter ts s).table
  unfolding do_autocomplete_fulfilled
  completed-IsNormalized ts s n =
      let same : (do_autocomplete_fulfilled adapter ts s).table ≡ s.table = ground arith in
      subst (IsNormalized select_id) (sym same) n

  -- The table of the state that an action leads to.
  reducer-IsNormalized :
      (action : Action M) (s s' : ImageViewState M)
      → IsNormalized select_id s.table
      → IsBatch action
      → reducer adapter action s ≡ some s'
      → IsNormalized select_id s'.table
  unfolding reducer clear_full_sized_images clear_thumbnails clear_image_view set_search_string
      select_images show_details set_exported_images_url set_section_expanded
      set_editing_dialog_open set_scroll_location add_artifacts_pending set_video_url_fulfilled
      start_new_query_pending start_new_query_fulfilled continue_query_pending
      continue_query_fulfilled bulk_download_pending bulk_download_fulfilled update_metadata_pending
      update_metadata_fulfilled do_autocomplete_pending load_thumbnails_pending load_image_pending
      load_image_fulfilled delete_selected_pending delete_selected_fulfilled load_metadata_pending
      load_metadata_fulfilled
  reducer-IsNormalized (clear_full_sized ids) s s' n b e =
      to_next _ s' (update_each-IsNormalized _ (λ x. refl) ids s.table n) e
  reducer-IsNormalized (clear_thumbs ids) s s' n b e =
      to_next _ s' (update_each-IsNormalized _ (λ x. refl) ids s.table n) e
  reducer-IsNormalized (clear_view p) s s' n b e =
      to_next _ s' (remove_all-IsNormalized adapter s.table) e
  reducer-IsNormalized (set_search t c) s s' n b e = to_next _ s' n e
  reducer-IsNormalized (select ids on) s s' n b e =
      to_next _ s' (update_each-IsNormalized _ (λ x. refl) ids s.table n) e
  reducer-IsNormalized (details id) s s' n b e = to_next _ s' n e
  reducer-IsNormalized (exported_url u) s s' n b e = to_next _ s' n e
  reducer-IsNormalized (section_expanded x y) s s' n b e = to_next _ s' n e
  reducer-IsNormalized (editing_dialog x) s s' n b e = to_next _ s' n e
  reducer-IsNormalized (clear_video id) s s' n b e = clear_video_url-IsNormalized id s s' n e
  reducer-IsNormalized (scroll_location x) s s' n b e = to_next _ s' n e
  reducer-IsNormalized (adding_artifacts ids) s s' n b e =
      to_next _ s' (upsert_many-IsNormalized adapter _ s.table (rw (ids-default_entities ids) b) n)
        e
  reducer-IsNormalized (added_artifacts rs) s s' n b e =
      to_next _ s' (added_artifacts-IsNormalized rs s n) e
  reducer-IsNormalized (got_video_url id u) s s' n b e =
      to_next _ s' (update_one-IsNormalized adapter _ s.table (λ x. refl) n) e
  reducer-IsNormalized starting_query s s' n b e =
      to_next _ s' (remove_all-IsNormalized adapter s.table) e
  reducer-IsNormalized (started_query q o r) s s' n b e = to_next _ s' n e
  reducer-IsNormalized continuing_query s s' n b e = to_next _ s' n e
  reducer-IsNormalized (continued_query x r) s s' n b e = to_next _ s' n e
  reducer-IsNormalized downloading s s' n b e = to_next _ s' n e
  reducer-IsNormalized downloaded s s' n b e = to_next _ s' n e
  reducer-IsNormalized updating_metadata s s' n b e = to_next _ s' n e
  reducer-IsNormalized (updated_metadata m ids) s s' n b e =
      to_next _ s' (update_each-IsNormalized _ (λ x. refl) ids s.table n) e
  reducer-IsNormalized (completing t) s s' n b e = to_next _ s' n e
  reducer-IsNormalized (completed ts) s s' n b e = to_next _ s' (completed-IsNormalized ts s n) e
  reducer-IsNormalized (loading_thumbnails ids) s s' n b e =
      to_next _ s' (update_each-IsNormalized _ (λ x. refl) ids s.table n) e
  reducer-IsNormalized (loaded_thumbnails ids rs) s s' n b e =
      to_next _ s' (loaded_thumbnails-IsNormalized ids rs s n) e
  reducer-IsNormalized (loading_image id) s s' n b e =
      to_next _ s' (update_one-IsNormalized adapter _ s.table (λ x. refl) n) e
  reducer-IsNormalized (loaded_image r) s s' n b e =
      to_next _ s' (update_one-IsNormalized adapter _ s.table (λ x. refl) n) e
  reducer-IsNormalized deleting_selected s s' n b e = to_next _ s' n e
  reducer-IsNormalized (deleted_selected ids) s s' n b e =
      to_next _ s' (remove_many-IsNormalized adapter ids s.table n) e
  reducer-IsNormalized (loading_metadata ids) s s' n b e =
      to_next _ s' (update_each-IsNormalized _ (λ x. refl) ids s.table n) e
  reducer-IsNormalized (loaded_metadata ids ms) s s' n b e =
      to_next _ s' (update_many-IsNormalized adapter _ s.table (Keeping-metadata_updates ids ms) n)
        e

  initial-IsNormalized : IsNormalized select_id (initial_state {M = M}).table
  unfolding initial_state
  initial-IsNormalized = record { distinct = tt; listed = λ j. refl; keyed = λ j e h. cc }

  -- In every state that the slice reaches from its initial one by actions in any order, where each
  -- batch of artifacts that is added has each artifact once: every ID is listed once, exactly the
  -- listed IDs have artifacts, and each artifact stands under the ID of its own reference.
  pub Reaches-IsNormalized :
      (s : ImageViewState M) → Reaches adapter s → IsNormalized select_id s.table
  Reaches-IsNormalized _ start = initial-IsNormalized
  Reaches-IsNormalized _ (step action s s' r b e) =
      reducer-IsNormalized action s s' (Reaches-IsNormalized s r) b e
