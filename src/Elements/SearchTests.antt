-- ===== src/Elements/SearchTests.antt =====
-- search-box.ts on small inputs.
use mallard.Common.{
  ◌≡◌, refl, codes, text_eq, [], ◌∷◌, ◌++◌, none, some, true, false, text_Eq, if◌then◌else◌,
}
use mallard.Common.Int.{pos}
use mallard.Types.{PlatformType}
use mallard.Autocomplete.Predicate.{
  DateLibrary, before, tokenize, new_token, parse_string, condition_of, directive_argument,
  parse_date, platform_type_values, parse_platform, parse_token, is_matched, search_string,
}
use mallard.Autocomplete.Parse.{parse}
use mallard.Autocomplete.Complete.{
  platform_menu, complete_token, token_before_end, user_input, some_directive,
  could_match_directives, first_menu, update_menu, complete_search,
}
use mallard.Elements.SearchBox.{
  search_string_changed, search_started, hide_autocomplete, SearchBox, platform_token, date_token,
  trim_start, trim_end, trim, clear, on_text_change, start_search, on_key_press,
  on_date_condition_click, add_token_to_search_string, on_platform_condition_click,
  on_date_selected, on_suggestion_clicked, render_autocomplete_menu, show_autocomplete, updated,
  map_state, dispatch,
}
use mallard.Elements.SearchBox.Choices.{
  kept_meaning, platform_choice, date_choice, add_token_to_search_string_lem,
}

-- The definitions that the tests evaluate.
searching : Unit {0}
unfolding new_token tokenize parse_string condition_of directive_argument parse_date
    platform_type_values parse_platform parse_token is_matched search_string user_input
    some_directive could_match_directives first_menu token_before_end update_menu complete_token
    complete_search trim_start trim_end trim clear on_text_change start_search on_key_press
    on_date_condition_click add_token_to_search_string on_platform_condition_click on_date_selected
    on_suggestion_clicked render_autocomplete_menu show_autocomplete updated map_state dispatch
searching = tt

-- The last day of 2020, and no other date.
abbrev dates : DateLibrary
dates = record {
  parse = λ t. if text_eq t (codes "2020-12-31") then some (pos 18627) else none;
  to_iso_string = λ u. codes "2020-12-31T00:00:00.000Z";
}

abbrev box : SearchBox
box = record {
  autocomplete_suggestions = [];
  show_progress = false;
  search_string = codes "barn plat";
  autocomplete_menu = platform_menu;
  show_clear = true;
  selected_date_condition = before;
  date_picker_shown = false;
  value = codes "barn plat ";
}

box_tests :
    (on_platform_condition_click PlatformType.ground box ≡ (
      record box { value = codes "barn platform:ground" },
      search_string_changed (codes "barn platform:ground") ∷ [],
    ))
    × (start_search box ≡ search_started (codes "barn plat") ∷ hide_autocomplete ∷ [])
unfolding searching
box_tests = (refl, refl)

add_token_to_search_string_lem_example :
    (parse dates (tokenize (on_platform_condition_click PlatformType.ground box).0.value)
      ≡ some (
          kept_meaning dates box (platform_token PlatformType.ground)
          ++ platform_choice dates PlatformType.ground ∷ []))
    × (parse dates (tokenize (on_date_selected (codes "2020-12-31") box).0.value)
        ≡ some (
            kept_meaning dates box (date_token before (codes "2020-12-31"))
            ++ date_choice dates before (codes "2020-12-31") (pos 18627) ∷ []))
add_token_to_search_string_lem_example =
    add_token_to_search_string_lem dates box PlatformType.ground (codes "2020-12-31") (pos 18627)
      refl refl refl
