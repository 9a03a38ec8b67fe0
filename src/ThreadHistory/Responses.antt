-- ===== src/ThreadHistory/Responses.antt =====
-- src-tauri/src/core/thread_history.rs: the handler of response items, which panics on some texts
-- (`none`), and the loop over a rollout.
use mosaic_desktop.Prelude.{
  ℕ, ◌+◌, ◌-◌, true, ◌&&◌, Option, none, some, List, [], ◌∷◌, map, concat, String, str_eq, codes,
  length, if◌then◌else◌, text_eq, starts_with,
}
use mosaic_desktop.Protocol.Items.{Utf8, ContentItem}
use mosaic_desktop.Protocol.Utf8.{is_empty, strip_prefix, find, slice, utf8, trim_end_matches_byte}
use mosaic_desktop.Protocol.TurnItems.{MessagePhase, UserInput, TurnItem}
use mosaic_desktop.Protocol.Events.{
  ResponseItem, ReasoningContentItem, RolloutItem, session_meta, event_msg, compacted, turn_context,
  response_item,
}
use mosaic_desktop.StreamParser.{◌>>=◌}
use mosaic_desktop.EventMapping.{is_contextual_user_message, parse_web_search}
use mosaic_desktop.ThreadHistory.{
  TurnGroup, dismissed, PendingTurn, ThreadHistoryBuilder, new, finish, counted, next_item_id,
  on_current, on_ensured, push_item,
}
use mosaic_desktop.ThreadHistory.Events.{
  close_implicit_turn, push_numbered, add_reasoning, handle_event,
}

-- `[attached_file:name](path)`, behind its prefix: the path ends one byte before the text does.
abbrev attached : Utf8 → ℕ → Option UserInput
attached rest paren = do
  name ← slice rest 0 paren
  path ← slice rest (paren + 2) (length rest - 1)
  some (UserInput.attached_file name path)

abbrev skill_at : Utf8 → Option ℕ → Option ℕ → Option ℕ → Option ℕ → Option (Option UserInput)
skill_at text (some ns) (some ne) (some ps) (some pe) = some (do
  name ← slice text (ns + 6) ne
  path ← slice text (ps + 6) pe
  some (UserInput.skill name path))
skill_at text _ _ _ _ = none

-- A skill that the text serializes, and whether reading it panics.
unfoldable pub skill_of : Utf8 → Option (Option UserInput)
skill_of text =
    if starts_with text (codes "<skill>")
    then skill_at text (find text (codes "<name>")) (find text (codes "</name>"))
        (find text (codes "<path>")) (find text (codes "</path>"))
    else none

abbrev skill_or_text : Utf8 → Option (Option UserInput) → Option UserInput
skill_or_text text (some read) = read
skill_or_text text none = some (UserInput.text text [])

abbrev attached_or_text : Utf8 → Utf8 → Option ℕ → Option UserInput
attached_or_text text rest (some paren) = attached rest paren
attached_or_text text rest none = skill_or_text text (skill_of text)

abbrev input_of_rest : Utf8 → Option Utf8 → Option UserInput
input_of_rest text (some rest) = attached_or_text text rest (find rest (codes "]("))
input_of_rest text none = skill_or_text text (skill_of text)

unfoldable pub text_input : Utf8 → Option UserInput
text_input text = input_of_rest text (strip_prefix text (codes "[attached_file:"))

abbrev image_of : Utf8 → Option Utf8 → UserInput
image_of url (some path) = UserInput.local_image path
image_of url none = UserInput.image url

-- The `filter_map` of the content of a user message.
unfoldable pub user_inputs : List ContentItem → Option (List UserInput)
user_inputs [] = some []
user_inputs (ContentItem.input_text text ∷ cs) = do
  input ← text_input text
  inputs ← user_inputs cs
  some (input ∷ inputs)
user_inputs (ContentItem.input_image url ∷ cs) = do
  inputs ← user_inputs cs
  some (image_of (utf8 url) (strip_prefix (utf8 url) (codes "file://")) ∷ inputs)
user_inputs (ContentItem.output_text text ∷ cs) = user_inputs cs

abbrev pub output_text : ContentItem → Utf8
output_text (ContentItem.output_text text) = text
output_text (ContentItem.input_text text) = []
output_text (ContentItem.input_image url) = []

-- The marker `[turn_dismissed:<turn_id>]`.
unfoldable pub dismissed_id : List ContentItem → Option Utf8
dismissed_id [] = none
dismissed_id (ContentItem.input_text text ∷ cs) =
    elim (strip_prefix text (codes "[turn_dismissed:")) [
      | none ↦ none
      | some rest ↦ some (trim_end_matches_byte 93 rest)
    ]
dismissed_id (ContentItem.input_image url ∷ cs) = none
dismissed_id (ContentItem.output_text text ∷ cs) = none

abbrev pub dismiss_turn : Utf8 → TurnGroup → TurnGroup
dismiss_turn id t = record t {
  status = if text_eq (utf8 t.turn_id) id then dismissed else t.status;
}

abbrev pub dismiss_pending : Utf8 → PendingTurn → PendingTurn
dismiss_pending id t = record t { status = if text_eq (utf8 t.id) id then dismissed else t.status }

unfoldable pub dismiss : Option Utf8 → ThreadHistoryBuilder → ThreadHistoryBuilder
dismiss none b = b
dismiss (some id) b = record (on_current (dismiss_pending id) b) {
  turns = map (dismiss_turn id) b.turns;
}

abbrev plain_text : ReasoningContentItem → List Utf8
plain_text (ReasoningContentItem.text text) = text ∷ []
plain_text (ReasoningContentItem.reasoning_text text) = []

abbrev pub raw_texts : Option (List ReasoningContentItem) → List Utf8
raw_texts none = []
raw_texts (some items) = concat (map plain_text items)

module _ (now_v7 : ℕ → String) where
  unfoldable pub push_user : Utf8 → List UserInput → ThreadHistoryBuilder → ThreadHistoryBuilder
  push_user id [] b = b
  push_user id (input ∷ inputs) b =
      push_item now_v7 (TurnItem.user_message (record { id = id; content = input ∷ inputs }))
        (close_implicit_turn b)

  unfoldable pub handle_user : List ContentItem → ThreadHistoryBuilder → Option ThreadHistoryBuilder
  handle_user content b =
      if is_contextual_user_message content
      then some b
      else do inputs ← user_inputs content; some (push_user (next_item_id b) inputs (counted b))

  unfoldable pub handle_assistant :
      Utf8 → Option MessagePhase → ThreadHistoryBuilder → ThreadHistoryBuilder
  handle_assistant text phase b =
      if is_empty text
      then b
      else push_numbered now_v7
          (λ id. TurnItem.agent_message (record { id = id; content = text ∷ []; phase = phase })) b

  unfoldable pub handle_message :
      String
      → List ContentItem
      → Option MessagePhase
      → ThreadHistoryBuilder
      → Option ThreadHistoryBuilder
  handle_message role content phase b =
      if str_eq role "user"
      then handle_user content b
      else if str_eq role "assistant"
      then some (handle_assistant (concat (map output_text content)) phase b)
      else if str_eq role "system"
      then some (dismiss (dismissed_id content) b)
      else some b

  unfoldable pub handle_reasoning :
      Utf8 → List Utf8 → List Utf8 → ThreadHistoryBuilder → ThreadHistoryBuilder
  handle_reasoning id summary raw b =
      if is_empty summary && is_empty raw then b else add_reasoning now_v7 summary raw id b

  unfoldable pub handle_response_item :
      ResponseItem → ThreadHistoryBuilder → Option ThreadHistoryBuilder
  handle_response_item (ResponseItem.message id role content phase) b =
      handle_message role content phase b
  handle_response_item (ResponseItem.reasoning id summary content) b =
      some (handle_reasoning id summary (raw_texts content) b)
  handle_response_item (ResponseItem.web_search_call id action) b =
      some (push_item now_v7 (parse_web_search id action) b)
  handle_response_item (ResponseItem.function_call name arguments call_id) b = some b
  handle_response_item (ResponseItem.function_call_output call_id output) b = some b
  handle_response_item ResponseItem.local_shell_call b = some b
  handle_response_item ResponseItem.ghost_snapshot b = some b
  handle_response_item ResponseItem.custom_tool_call b = some b
  handle_response_item (ResponseItem.custom_tool_call_output call_id output) b = some b
  handle_response_item ResponseItem.compaction b = some b
  handle_response_item ResponseItem.other b = some b

  unfoldable pub handle_rollout_item :
      RolloutItem → ThreadHistoryBuilder → Option ThreadHistoryBuilder
  handle_rollout_item (event_msg ev) b = some (handle_event now_v7 ev b)
  handle_rollout_item (compacted c) b =
      some (on_ensured now_v7 (λ t. record t { saw_compaction = true }) b)
  handle_rollout_item (response_item ri) b = handle_response_item ri b
  handle_rollout_item (turn_context ctx) b = some b
  handle_rollout_item session_meta b = some b

  -- The loop of `build_turn_groups_from_rollout_items`.
  unfoldable pub handle_all : List RolloutItem → ThreadHistoryBuilder → Option ThreadHistoryBuilder
  handle_all [] b = some b
  handle_all (item ∷ items) b = handle_rollout_item item b >>= handle_all items

  unfoldable pub build_turn_groups_from_rollout_items : List RolloutItem → Option (List TurnGroup)
  build_turn_groups_from_rollout_items items = do b ← handle_all items new; some (finish b)
