-- ===== src/EventMapping.antt =====
-- src-tauri/src/core/event_mapping.rs: which user messages are hidden, and the items of the turn
-- view that response items become. A message or a reasoning is never handed to `parse_turn_item` by
-- the builder of turns, and its branches for them are left out.
use mosaic_desktop.Prelude.{
  ◌-◌, Bool, false, ◌&&◌, Option, none, some, List, [], ◌∷◌, ◌++◌, codes, length, take, drop, any,
}
use mosaic_desktop.Protocol.Items.{Utf8, ContentItem}
use mosaic_desktop.Protocol.Utf8.{trim_start, trim_end, eq_ignore_ascii_case, join}
use mosaic_desktop.Protocol.TurnItems.{WebSearchAction, TurnItem}

abbrev pub contextual_fragments : List (Utf8 × Utf8)
contextual_fragments =
    (codes "# AGENTS.md instructions for ", codes "</INSTRUCTIONS>")
    ∷ (codes "<environment_context>", codes "</environment_context>")
    ∷ (codes "<skill>", codes "</skill>")
    ∷ (codes "<user_shell_command>", codes "</user_shell_command>")
    ∷ (codes "<turn_aborted>", codes "</turn_aborted>")
    ∷ (codes "<subagent_notification>", codes "</subagent_notification>")
    ∷ []

-- `get(..n)` and `get(n..)` give nothing inside a character; a slice that is cut there begins or ends
-- with a byte that is not ASCII, and so equals no marker.
abbrev begins_with : Utf8 → Utf8 → Bool
begins_with s p = eq_ignore_ascii_case (take (length p) s) p

abbrev ends_with : Utf8 → Utf8 → Bool
ends_with s p = eq_ignore_ascii_case (drop (length s - length p) s) p

unfoldable pub is_contextual_text : Utf8 → Bool
is_contextual_text text =
    any (λ marks. begins_with (trim_start text) marks.0 && ends_with (trim_end text) marks.1)
      contextual_fragments

abbrev pub is_contextual_user_fragment : ContentItem → Bool
is_contextual_user_fragment (ContentItem.input_text text) = is_contextual_text text
is_contextual_user_fragment (ContentItem.input_image url) = false
is_contextual_user_fragment (ContentItem.output_text text) = false

unfoldable pub is_contextual_user_message : List ContentItem → Bool
is_contextual_user_message content = any is_contextual_user_fragment content

abbrev or_empty : Option Utf8 → Utf8
or_empty none = []
or_empty (some s) = s

abbrev search_detail : Option Utf8 → Option (List Utf8) → Utf8
search_detail (some q) queries = q
search_detail none (some qs) = join (codes ", ") qs
search_detail none none = []

abbrev find_detail : Option Utf8 → Option Utf8 → Utf8
find_detail (some p) (some u) = codes "'" ++ p ++ codes "' in " ++ u
find_detail (some p) none = codes "'" ++ p ++ codes "'"
find_detail none (some u) = u
find_detail none none = []

unfoldable pub web_search_action_detail : WebSearchAction → Utf8
web_search_action_detail (WebSearchAction.search query queries) = search_detail query queries
web_search_action_detail (WebSearchAction.open_page url) = or_empty url
web_search_action_detail (WebSearchAction.find_in_page url pattern) = find_detail pattern url
web_search_action_detail WebSearchAction.other = []

abbrev action_or_other : Option WebSearchAction → WebSearchAction
action_or_other none = WebSearchAction.other
action_or_other (some a) = a

unfoldable pub parse_web_search : Option Utf8 → Option WebSearchAction → TurnItem
parse_web_search id action = TurnItem.web_search (record {
  id = or_empty id;
  query = web_search_action_detail (action_or_other action);
  action = some (action_or_other action);
})
