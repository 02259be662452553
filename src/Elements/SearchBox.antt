-- ===== src/Elements/SearchBox.antt =====
-- search-box.ts: the search box, its events and what they dispatch. `DateCondition` is the enumeration
-- of autocomplete.ts, which has the same members; the value of the text field is a field of the box.
pub mod Choices
use mallard.Common.{
  ℕ, ◌==◌, leb, ltb, length, Text, codes, text_eq, Option, none, some, Bool, true, false, ◌&&◌,
  ◌||◌, not, if◌then◌else◌, List, [], ◌∷◌, ◌++◌,
}
use mallard.Types.{PlatformType, RequestState, ArtifactEntity}
use mallard.Adapter.{EntityAdapter}
use mallard.Autocomplete.Predicate.{DateLibrary, DateCondition, before, after, on}
use mallard.Autocomplete.Complete.{
  AutocompleteMenu, no_menu, date_menu, platform_menu, complete_token, complete_search,
}
use mallard.Grid.State.{ImageViewState, select_id}
use mallard.Grid.Reducers.{set_search_string}
use mallard.Grid.Requests.{do_autocomplete_pending}
use mallard.Grid.Thunks.{Store, Outcome, done, thunk_text_search}

pub record SearchBox : Type 0 where
  pub autocomplete_suggestions : List (Option Text)
  pub show_progress : Bool
  pub search_string : Text
  pub autocomplete_menu : AutocompleteMenu
  pub show_clear : Bool
  pub selected_date_condition : DateCondition
  pub date_picker_shown : Bool
  pub value : Text

-- The custom events.
pub data SearchBoxEvent : Type 0 where
  search_string_changed : Text → SearchBoxEvent
  search_started : Text → SearchBoxEvent
  clear_search_string : SearchBoxEvent
  hide_autocomplete : SearchBoxEvent

-- White space and line terminators, which `trim` takes off both ends.
abbrev pub is_white_space : ℕ → Bool
is_white_space c =
    (leb 9 c && leb c 13)
    || (c == 32 || c == 160 || c == 5760 || (leb 8192 c && leb c 8202))
    || (c == 8232 || c == 8233 || c == 8239 || c == 8287 || c == 12288 || c == 65279)

unfoldable pub trim_start : Text → Text
trim_start [] = []
trim_start (c ∷ t) = let rest = trim_start t in if is_white_space c then rest else c ∷ t

unfoldable pub trim_end : Text → Text
trim_end [] = []
trim_end (c ∷ t) = elim (trim_end t) [
  | [] ↦ if is_white_space c then [] else c ∷ []
  | d ∷ rest ↦ c ∷ d ∷ rest
]

unfoldable pub trim : Text → Text
unfolding trim_start trim_end
trim t = trim_end (trim_start t)

abbrev pub text_changed : SearchBox → SearchBoxEvent
text_changed element = search_string_changed (trim element.value)

unfoldable pub clear : SearchBox → List SearchBoxEvent
clear element = clear_search_string ∷ []

-- The user's input is in the text field already.
unfoldable pub on_text_change : SearchBox → List SearchBoxEvent
unfolding trim
on_text_change element = text_changed element ∷ []

unfoldable pub start_search : SearchBox → List SearchBoxEvent
unfolding trim
start_search element = search_started (trim element.value) ∷ hide_autocomplete ∷ []

unfoldable pub on_key_press : Text → SearchBox → List SearchBoxEvent
unfolding start_search
on_key_press key element = if text_eq key (codes "Enter") then start_search element else []

unfoldable pub on_date_condition_click : DateCondition → SearchBox → SearchBox
on_date_condition_click condition element = record element {
  selected_date_condition = condition;
  date_picker_shown = true;
}

unfoldable pub add_token_to_search_string : Text → SearchBox → SearchBox × List SearchBoxEvent
unfolding complete_token trim
add_token_to_search_string new_token element =
    let element' = record element { value = complete_token element.value new_token } in
    (element', text_changed element' ∷ [])

-- `dateConditionToDirective` and `platformToDirectiveChoice`
abbrev pub date_condition_to_directive : DateCondition → Text
date_condition_to_directive before = codes "before"
date_condition_to_directive on = codes "date"
date_condition_to_directive after = codes "after"

abbrev pub platform_to_directive_choice : PlatformType → Text
platform_to_directive_choice PlatformType.ground = codes "ground"
platform_to_directive_choice PlatformType.aerial = codes "aerial"

abbrev pub platform_token : PlatformType → Text
platform_token platform = codes "platform:" ++ platform_to_directive_choice platform

abbrev pub date_token : DateCondition → Text → Text
date_token condition date = date_condition_to_directive condition ++ codes ":" ++ date

unfoldable pub on_platform_condition_click :
    PlatformType → SearchBox → SearchBox × List SearchBoxEvent
unfolding add_token_to_search_string
on_platform_condition_click platform = add_token_to_search_string (platform_token platform)

-- The date is the value of the date picker.
unfoldable pub on_date_selected : Text → SearchBox → SearchBox × List SearchBoxEvent
unfolding add_token_to_search_string
on_date_selected selected_date element =
    add_token_to_search_string (date_token element.selected_date_condition selected_date) element

-- `trim_dots` is `trim` of lodash, by periods. `none` where the search was not completed.
unfoldable pub on_suggestion_clicked :
    DateLibrary
    → (Text → Text)
    → (Text → Text)
    → Text
    → SearchBox
    → Option (SearchBox × List SearchBoxEvent)
unfolding complete_search start_search
on_suggestion_clicked dates lower trim_dots inner_text element =
    elim (complete_search dates lower element.value (trim_dots inner_text)) [
      | none ↦ none
      | some completed ↦
          let element' = record element { value = completed } in
          some (element', start_search element')
    ]

-- The buttons of a menu.
pub data MenuButton : Type 0 where
  date_button : DateCondition → MenuButton
  platform_button : PlatformType → MenuButton

unfoldable pub render_autocomplete_menu : AutocompleteMenu → List MenuButton
render_autocomplete_menu no_menu = []
render_autocomplete_menu date_menu = date_button before ∷ date_button on ∷ date_button after ∷ []
render_autocomplete_menu platform_menu =
    platform_button PlatformType.ground ∷ platform_button PlatformType.aerial ∷ []

abbrev pub is_menu : AutocompleteMenu → Bool
is_menu no_menu = false
is_menu date_menu = true
is_menu platform_menu = true

unfoldable pub show_autocomplete : SearchBox → Bool
show_autocomplete element =
    ltb 0 (length element.autocomplete_suggestions) || is_menu element.autocomplete_menu

-- The element after `updated`, by whether the search string changed.
unfoldable pub updated : Bool → SearchBox → SearchBox
updated has_changed element =
    if has_changed then record element { value = element.search_string } else element

abbrev pub is_loading : RequestState → Bool
is_loading RequestState.loading = true
is_loading _ = false

module _ {M : Type 0} where
  unfoldable pub map_state : ImageViewState M → SearchBox → SearchBox
  map_state s element = record element {
    autocomplete_suggestions = s.search.autocomplete_suggestions.text_completions;
    autocomplete_menu = s.search.autocomplete_suggestions.menu;
    show_progress = is_loading s.search.query_state;
    search_string = s.search.search_string;
    show_clear = ltb 0 (length s.search.search_string);
  }

  module _ (adapter : EntityAdapter (ArtifactEntity M) select_id) where
    abbrev pub at_view : (ImageViewState M → ImageViewState M) → Store M → Outcome M
    at_view f store = done (record store { image_view = f store.image_view })

    -- What the action of an event does at once: a request becomes pending.
    unfoldable pub dispatch : SearchBoxEvent → Store M → Outcome M
    dispatch (search_string_changed text) store =
        if ltb (length text) 3
        then at_view (set_search_string adapter (some text) true) store
        else at_view (do_autocomplete_pending adapter text) store
    dispatch (search_started text) store = thunk_text_search adapter store
    dispatch hide_autocomplete store = at_view (set_search_string adapter none true) store
    dispatch clear_search_string store = at_view (set_search_string adapter (some []) true) store
