-- ===== src/Elements/NavBar.antt =====
-- top-nav-bar.ts: what the bar shows of the store, its events and what they dispatch.
pub mod Modes
use mallard.Common.{
  suc, zero, Text, Option, none, some, Bool, true, false, not, ◌&&◌, if◌then◌else◌, List, [], ◌∷◌,
  ◌++◌,
}
use mallard.Common.Int.{ℤ, pos, negsuc}
use mallard.Types.{RequestState, EntityId, ArtifactEntity, is_truthy}
use mallard.Adapter.{EntityAdapter}
use mallard.Grid.State.{ImageViewState, select_id}
use mallard.Grid.Reducers.{set_editing_dialog_open}
use mallard.Grid.Requests.{bulk_download_pending, update_metadata_pending, delete_selected_pending}
use mallard.Grid.Thunks.{Store, thunk_select_all, thunk_clear_exported_images}
use mallard.Grid.Selected.{bulk_download_condition}

pub record TopNavBar : Type 0 where
  pub show_editing_dialog : Bool
  pub num_items_selected : ℤ
  pub show_deletion_progress : Bool
  pub show_editing_progress : Bool
  pub exported_url_file_link : Option Text
  pub artifact_link : Option Text
  pub artifact_name : Option Text

-- Null, undefined and the empty text are falsy.
abbrev pub is_positive : ℤ → Bool
is_positive (pos zero) = false
is_positive (pos (suc _)) = true
is_positive (negsuc _) = false

abbrev pub is_zero : ℤ → Bool
is_zero (pos zero) = true
is_zero (pos (suc _)) = false
is_zero (negsuc _) = false

-- The parts of the bar that `render` shows: the title and the actions for a selection, the search
-- box, and the download of the artifact in the details.
unfoldable pub in_selection_mode : TopNavBar → Bool
in_selection_mode element =
    is_positive element.num_items_selected && not (is_truthy element.artifact_link)

unfoldable pub shows_search_box : TopNavBar → Bool
shows_search_box element =
    is_zero element.num_items_selected && not (is_truthy element.artifact_link)

unfoldable pub shows_artifact_download : TopNavBar → Bool
shows_artifact_download element = is_truthy element.artifact_link

-- The custom events; that of edited metadata has the form's, which may be missing.
pub data NavBarEvent (M : Type 0) : Type 0 where
  download_started : NavBarEvent M
  delete : NavBarEvent M
  url_export : NavBarEvent M
  url_export_finished : NavBarEvent M
  select_cancel : NavBarEvent M
  edit_metadata : NavBarEvent M
  metadata_edited : Option M → NavBarEvent M
  metadata_editing_cancelled : NavBarEvent M

-- The buttons with a handler.
pub data NavBarButton : Type 0 where
  download_button cancel_selection edit_button export_urls delete_confirm_button : NavBarButton
  edit_confirm_button edit_cancel_button : NavBarButton

-- The event of a button's handler; the form's metadata is given.
unfoldable pub on_click : {M : Type 0} → Option M → NavBarButton → NavBarEvent M
on_click metadata download_button = download_started
on_click metadata delete_confirm_button = delete
on_click metadata export_urls = url_export
on_click metadata cancel_selection = select_cancel
on_click metadata edit_button = edit_metadata
on_click metadata edit_confirm_button = metadata_edited metadata
on_click metadata edit_cancel_button = metadata_editing_cancelled

-- The buttons that can be clicked: in the bar for a selection, in the dialog for a deletion and in the
-- dialog for editing.
unfoldable pub selection_buttons : TopNavBar → List NavBarButton
unfolding in_selection_mode
selection_buttons element =
    if in_selection_mode element
    then cancel_selection ∷ download_button ∷ edit_button ∷ export_urls ∷ []
    else []

unfoldable pub deletion_buttons : TopNavBar → List NavBarButton
deletion_buttons element = if element.show_deletion_progress then [] else delete_confirm_button ∷ []

unfoldable pub editing_buttons : TopNavBar → List NavBarButton
editing_buttons element =
    if element.show_editing_dialog
    then if element.show_editing_progress then [] else edit_confirm_button ∷ edit_cancel_button ∷ []
    else []

-- What `updated` does, in order.
pub data NavBarEffect (M : Type 0) : Type 0 where
  close_confirm_dialog : NavBarEffect M
  click_link : Text → NavBarEffect M
  dispatch_event : NavBarEvent M → NavBarEffect M

module _ {M : Type 0} where
  abbrev pub link_effects : Option Text → List (NavBarEffect M)
  link_effects none = []
  link_effects (some []) = []
  link_effects (some (c ∷ url)) = click_link (c ∷ url) ∷ dispatch_event url_export_finished ∷ []

  -- The effects by whether the deletion's progress changed. The anchor of the menu is left out.
  unfoldable pub update_effects : Bool → TopNavBar → List (NavBarEffect M)
  update_effects deletion_progress_changed element =
      (if deletion_progress_changed && not element.show_deletion_progress
        then close_confirm_dialog ∷ []
        else [])
      ++ link_effects element.exported_url_file_link

abbrev pub is_in_progress : RequestState → Bool
is_in_progress RequestState.loading = true
is_in_progress _ = false

module _ {M : Type 0} (name_of : M → Text) where
  -- `selectById` where the details show an artifact.
  abbrev pub artifact_of : ImageViewState M → Option (ArtifactEntity M)
  artifact_of s = elim s.details_frontend_id [
    | none ↦ none
    | some id ↦ if is_truthy (some id) then s.table.entities id else none
  ]

  abbrev pub link_of : Option (ArtifactEntity M) → Option Text
  link_of none = none
  link_of (some entity) = entity.artifact_url

  abbrev pub name_of_artifact : Option (ArtifactEntity M) → Option Text
  name_of_artifact none = none
  name_of_artifact (some entity) = elim entity.metadata [ none ↦ none | some m ↦ some (name_of m) ]

  unfoldable pub map_state : ImageViewState M → TopNavBar
  map_state s = record {
    num_items_selected = s.num_items_selected;
    show_deletion_progress = is_in_progress s.image_deletion_state;
    show_editing_dialog = s.editing_dialog_open;
    show_editing_progress = is_in_progress s.metadata_editing_state;
    exported_url_file_link = s.exported_images_url;
    artifact_link = link_of (artifact_of s);
    artifact_name = name_of_artifact (artifact_of s);
  }

module _ {M : Type 0} (adapter : EntityAdapter (ArtifactEntity M) select_id) where
  abbrev at_view : (ImageViewState M → ImageViewState M) → Store M → Store M
  at_view f store = record store { image_view = f store.image_view }

  -- What the action of an event does at once: the requests become pending. The state does not tell
  -- that an export was requested.
  unfoldable pub dispatch : NavBarEvent M → Store M → Store M
  dispatch download_started store =
      if bulk_download_condition adapter store.image_view
      then at_view (bulk_download_pending adapter) store
      else store
  dispatch select_cancel store = at_view (thunk_select_all adapter false) store
  dispatch delete store = at_view (delete_selected_pending adapter) store
  dispatch url_export store = store
  dispatch url_export_finished store = thunk_clear_exported_images adapter store
  dispatch edit_metadata store = at_view (set_editing_dialog_open adapter true) store
  dispatch (metadata_edited m) store = at_view (update_metadata_pending adapter) store
  dispatch metadata_editing_cancelled store = at_view (set_editing_dialog_open adapter false) store
