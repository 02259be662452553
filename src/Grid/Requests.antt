-- ===== src/Grid/Requests.antt =====
-- thumbnail-grid-slice.ts: `extraReducers`, which follow the asynchronous requests. A reducer of a
-- pending request takes the request's argument, one of a fulfilled request its result.
use mallard.Common.{ℕ, Text, length, map, Option, none, some, not, List, [], ◌∷◌}
use mallard.Common.Int.{pos, ◌+ℤ◌}
use mallard.Types.{
  RequestState, succeeded, ArtifactStatus, loaded, ImageQuery, TypedObjectRef, EntityId,
  ArtifactEntity,
}
use mallard.Autocomplete.Complete.{update_menu}
use mallard.Adapter.{EntityAdapter, Update}
use mallard.Adapter.Count.{update_each}
use mallard.Grid.State.{
  QueryOptions, QueryResponse, ImageViewState, select_id, create_artifact_entity_id,
  AddArtifactsReturn, create_default_entity,
}

-- The two halves of `LoadImageReturn`.
pub record LoadImageReturn : Type 0 where
  pub image_id : EntityId
  pub image_url : Text

module _ {M : Type 0} (adapter : EntityAdapter (ArtifactEntity M) select_id) where
  open adapter use {update_one, update_many, upsert_many, remove_many, remove_all}

  -- The artifacts without the URLs that are still to come.
  abbrev pub default_entities : List TypedObjectRef → List (ArtifactEntity M)
  default_entities ids =
      map
        (λ id.
          create_default_entity
            (record { backend_id = id; preview_url = none; streamable_url = none }))
        ids

  unfoldable pub add_artifacts_pending : List TypedObjectRef → ImageViewState M → ImageViewState M
  add_artifacts_pending ids s = record s { table = upsert_many (default_entities ids) s.table }

  unfoldable pub add_artifacts_fulfilled :
      List AddArtifactsReturn → ImageViewState M → ImageViewState M
  add_artifacts_fulfilled artifacts s = record s {
    table =
        update_many
          (map
            (λ (a : AddArtifactsReturn). (
              create_artifact_entity_id a.backend_id.id,
              λ e. record e { preview_url = a.preview_url; streamable_url = a.streamable_url },
            ))
            artifacts)
          s.table;
  }

  unfoldable pub set_video_url_fulfilled : EntityId → Text → ImageViewState M → ImageViewState M
  set_video_url_fulfilled id url s = record s {
    table = update_one (id, λ e. record e { artifact_url = some url }) s.table;
  }

  unfoldable pub start_new_query_pending : ImageViewState M → ImageViewState M
  start_new_query_pending s = record s {
    table = remove_all s.table;
    current_query_state = RequestState.loading;
  }

  unfoldable pub update_query_state : QueryResponse → ImageViewState M → ImageViewState M
  update_query_state result s = record s {
    current_query_state = succeeded;
    current_query_has_more_pages = not result.is_last_page;
  }

  unfoldable pub start_new_query_fulfilled :
      List ImageQuery → QueryOptions → QueryResponse → ImageViewState M → ImageViewState M
  unfolding update_query_state
  start_new_query_fulfilled query options result s = record (update_query_state result s) {
    current_query = query;
    current_query_options = options;
  }

  unfoldable pub continue_query_pending : ImageViewState M → ImageViewState M
  continue_query_pending s = record s { current_query_state = RequestState.loading }

  unfoldable pub continue_query_fulfilled : ℕ → QueryResponse → ImageViewState M → ImageViewState M
  unfolding update_query_state
  continue_query_fulfilled page_num result s = record (update_query_state result s) {
    current_query_options = record (s.current_query_options) { page_num = some page_num };
  }

  unfoldable pub bulk_download_pending : ImageViewState M → ImageViewState M
  bulk_download_pending s = record s { bulk_download_state = RequestState.loading }

  unfoldable pub bulk_download_fulfilled : ImageViewState M → ImageViewState M
  bulk_download_fulfilled s = record s { bulk_download_state = succeeded }

  unfoldable pub update_metadata_pending : ImageViewState M → ImageViewState M
  update_metadata_pending s = record s { metadata_editing_state = RequestState.loading }

  unfoldable pub update_metadata_fulfilled : M → List EntityId → ImageViewState M → ImageViewState M
  update_metadata_fulfilled metadata ids s = record s {
    metadata_editing_state = succeeded;
    table = update_each adapter (λ e. record e { metadata = some metadata }) ids s.table;
  }

  unfoldable pub do_autocomplete_pending : Text → ImageViewState M → ImageViewState M
  do_autocomplete_pending text s = record s {
    search = record {
      search_string = text;
      autocomplete_suggestions = record (s.search.autocomplete_suggestions) {
        menu = update_menu text;
      };
      query_state = RequestState.loading;
    };
  }

  -- Suggestions that arrive after the user searched are dropped.
  unfoldable pub do_autocomplete_fulfilled :
      List (Option Text) → ImageViewState M → ImageViewState M
  do_autocomplete_fulfilled completions s = elim s.search.query_state [
    | RequestState.loading ↦ record s {
      search = record (s.search) {
        query_state = succeeded;
        autocomplete_suggestions = record (s.search.autocomplete_suggestions) {
          text_completions = completions;
        };
      };
    }
    | _ ↦ s
  ]

  unfoldable pub load_thumbnails_pending : List EntityId → ImageViewState M → ImageViewState M
  load_thumbnails_pending ids s = record s {
    table =
        update_each adapter (λ e. record e { thumbnail_status = ArtifactStatus.loading }) ids
          s.table;
  }

  -- All the requested thumbnails become loaded, and those that arrived get their URLs.
  unfoldable pub load_thumbnails_fulfilled :
      List EntityId → List LoadImageReturn → ImageViewState M → ImageViewState M
  load_thumbnails_fulfilled ids results s = record s {
    table =
        update_many
          (map
            (λ (p : LoadImageReturn).
              (p.image_id, λ e. record e { thumbnail_url = some p.image_url }))
            results)
          (update_each adapter (λ e. record e { thumbnail_status = loaded }) ids s.table);
    num_thumbnails_loaded = s.num_thumbnails_loaded +ℤ pos (length results);
  }

  unfoldable pub load_image_pending : EntityId → ImageViewState M → ImageViewState M
  load_image_pending id s = record s {
    table = update_one (id, λ e. record e { image_status = ArtifactStatus.loading }) s.table;
  }

  unfoldable pub load_image_fulfilled : LoadImageReturn → ImageViewState M → ImageViewState M
  load_image_fulfilled p s = record s {
    table =
        update_one
          (p.image_id, λ e. record e { image_status = loaded; artifact_url = some p.image_url })
          s.table;
  }

  unfoldable pub delete_selected_pending : ImageViewState M → ImageViewState M
  delete_selected_pending s = record s { image_deletion_state = RequestState.loading }

  unfoldable pub delete_selected_fulfilled : List EntityId → ImageViewState M → ImageViewState M
  delete_selected_fulfilled ids s = record s {
    image_deletion_state = succeeded;
    table = remove_many ids s.table;
    num_items_selected = pos 0;
  }

  unfoldable pub load_metadata_pending : List EntityId → ImageViewState M → ImageViewState M
  load_metadata_pending ids s = record s {
    metadata_loading_state = RequestState.loading;
    table =
        update_each adapter (λ e. record e { metadata_status = ArtifactStatus.loading }) ids
          s.table;
  }

  -- `metadata[index]` for each ID.
  unfoldable pub metadata_updates : List EntityId → List M → List (Update (ArtifactEntity M))
  metadata_updates [] ms = []
  metadata_updates (id ∷ ids) [] =
      (id, λ e. record e { metadata = none; metadata_status = loaded }) ∷ metadata_updates ids []
  metadata_updates (id ∷ ids) (m ∷ ms) =
      (id, λ e. record e { metadata = some m; metadata_status = loaded }) ∷ metadata_updates ids ms

  unfoldable pub load_metadata_fulfilled :
      List EntityId → List M → ImageViewState M → ImageViewState M
  unfolding metadata_updates
  load_metadata_fulfilled ids metadata s = record s {
    metadata_loading_state = succeeded;
    table = update_many (metadata_updates ids metadata) s.table;
  }
