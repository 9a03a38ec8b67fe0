-- ===== src/ThreadHistory/Events.antt =====
-- src-tauri/src/core/thread_history.rs: the handlers of the events, on the state of the builder.
use mosaic_desktop.Prelude.{
  ℕ, Bool, false, ◌&&◌, not, Option, none, some, List, [], ◌∷◌, ◌++◌, map, String, str_eq,
  if◌then◌else◌, text_eq,
}
use mosaic_desktop.Protocol.Items.{Utf8}
use mosaic_desktop.Protocol.Utf8.{is_empty, trim}
use mosaic_desktop.Protocol.TurnItems.{
  MessagePhase, UserInput, TurnItem, ReasoningItem, PlanItem, PatchApplyItemStatus, CollabAgentTool,
}
use mosaic_desktop.Protocol.Events.{
  EventMsg, UserMessageEvent, ElicitationResponseEvent, PatchApplyEndEvent,
  ApplyPatchApprovalRequestEvent,
}
use mosaic_desktop.ThreadHistory.{
  PendingTurn, ThreadHistoryBuilder, finish_current_turn, next_item_id, counted, on_current,
  handle_turn_started, handle_turn_complete, handle_turn_aborted, handle_error,
  handle_thread_rollback, merge_last, push_item, upsert_item_in_current_turn,
  upsert_item_in_turn_id,
}
use mosaic_desktop.ThreadHistory.Collab.{
  collab_spawn_item, collab_interaction_item, collab_waiting_item, collab_end_item,
}
use mosaic_desktop.ThreadHistory.Items.{
  exec_command_item, mcp_begin_item, mcp_end_item, elicitation_item, file_change_item, patch_status,
  dynamic_request_item, dynamic_response_item, exited_review, entered_review,
}

-- Whether a new user message closes the current turn.
unfoldable pub closes : Option PendingTurn → Bool
closes none = false
closes (some t) = not t.opened_explicitly && not (t.saw_compaction && is_empty t.items)

unfoldable pub close_implicit_turn : ThreadHistoryBuilder → ThreadHistoryBuilder
close_implicit_turn b = if closes b.current_turn then finish_current_turn b else b

abbrev images_of : Option (List Utf8) → List UserInput
images_of none = []
images_of (some urls) = map UserInput.image urls

unfoldable pub user_content : UserMessageEvent → List UserInput
user_content p =
    (if is_empty (trim p.message_text)
      then []
      else UserInput.text p.message_text p.text_elements ∷ [])
    ++ images_of p.images
    ++ map UserInput.local_image p.local_images

-- The response to the elicitation that it names, among the items of the current turn.
abbrev is_answered : ElicitationResponseEvent → TurnItem → Bool
is_answered p (TurnItem.elicitation e) =
    text_eq e.id p.request_id && str_eq e.server_name p.server_name
is_answered p _ = false

abbrev answered : ElicitationResponseEvent → TurnItem → TurnItem
answered p (TurnItem.elicitation e) =
    TurnItem.elicitation
      (record e { response_action = some p.action; response_content = p.content })
answered p item = item

unfoldable pub answer : ElicitationResponseEvent → List TurnItem → List TurnItem
answer p [] = []
answer p (x ∷ xs) =
    let rest = answer p xs in if is_answered p x then answered p x ∷ xs else x ∷ rest

unfoldable pub handle_elicitation_response :
    ElicitationResponseEvent → ThreadHistoryBuilder → ThreadHistoryBuilder
handle_elicitation_response p b = on_current (λ t. record t { items = answer p t.items }) b

-- The current turn with a reasoning merged into its last item.
unfoldable pub merge_current :
    (ReasoningItem → ReasoningItem) → Option PendingTurn → Option PendingTurn
merge_current f none = none
merge_current f (some t) = elim (merge_last f t.items) [
  | none ↦ none
  | some items ↦ some (record t { items = items })
]

abbrev pub more_texts : List Utf8 → List Utf8 → ReasoningItem → ReasoningItem
more_texts summary raw r = record r {
  summary_text = r.summary_text ++ summary;
  raw_content = r.raw_content ++ raw;
}

module _ (now_v7 : ℕ → String) where
  -- An item whose identifier the builder makes.
  unfoldable pub push_numbered : (Utf8 → TurnItem) → ThreadHistoryBuilder → ThreadHistoryBuilder
  push_numbered make b = push_item now_v7 (make (next_item_id b)) (counted b)

  unfoldable pub handle_user_message :
      UserMessageEvent → ThreadHistoryBuilder → ThreadHistoryBuilder
  handle_user_message p b =
      push_numbered (λ id. TurnItem.user_message (record { id = id; content = user_content p }))
        (close_implicit_turn b)

  unfoldable pub handle_agent_message :
      Utf8 → Option MessagePhase → ThreadHistoryBuilder → ThreadHistoryBuilder
  handle_agent_message text phase b =
      if is_empty text
      then b
      else push_numbered
          (λ id. TurnItem.agent_message (record { id = id; content = text ∷ []; phase = phase })) b

  -- A reasoning is merged into the last item, and pushed where that is none.
  unfoldable pub push_reasoning :
      List Utf8 → List Utf8 → Utf8 → ThreadHistoryBuilder → ThreadHistoryBuilder
  push_reasoning summary raw id b =
      push_item now_v7
        (TurnItem.reasoning (record { id = id; summary_text = summary; raw_content = raw })) b

  -- The current turn with the texts merged in, or the reasoning as an item of its own.
  abbrev pub merged_or_pushed :
      Option PendingTurn
      → List Utf8
      → List Utf8
      → Utf8
      → ThreadHistoryBuilder
      → ThreadHistoryBuilder
  merged_or_pushed (some t) summary raw given b = record b { current_turn = some t }
  merged_or_pushed none summary raw given b =
      if is_empty given
      then push_reasoning summary raw (next_item_id b) (counted b)
      else push_reasoning summary raw given b

  unfoldable pub add_reasoning :
      List Utf8 → List Utf8 → Utf8 → ThreadHistoryBuilder → ThreadHistoryBuilder
  add_reasoning summary raw given b =
      merged_or_pushed (merge_current (more_texts summary raw) b.current_turn) summary raw given b

  unfoldable pub handle_agent_reasoning : Utf8 → ThreadHistoryBuilder → ThreadHistoryBuilder
  handle_agent_reasoning text b = if is_empty text then b else add_reasoning (text ∷ []) [] [] b

  unfoldable pub handle_agent_reasoning_raw : Utf8 → ThreadHistoryBuilder → ThreadHistoryBuilder
  handle_agent_reasoning_raw text b = if is_empty text then b else add_reasoning [] (text ∷ []) [] b

  abbrev upsert_plan : String → PlanItem → ThreadHistoryBuilder → ThreadHistoryBuilder
  upsert_plan turn_id plan b =
      if is_empty plan.plan_text
      then b
      else upsert_item_in_turn_id now_v7 turn_id (TurnItem.plan plan) b

  -- `handle_item_started` and `handle_item_completed`, which are the same.
  unfoldable pub handle_item : String → TurnItem → ThreadHistoryBuilder → ThreadHistoryBuilder
  handle_item turn_id (TurnItem.plan plan) b = upsert_plan turn_id plan b
  handle_item turn_id _ b = b

  -- An item of a turn that the event may leave unnamed.
  unfoldable pub upsert_item_in_named_turn :
      String → TurnItem → ThreadHistoryBuilder → ThreadHistoryBuilder
  upsert_item_in_named_turn turn_id item b =
      if str_eq turn_id ""
      then upsert_item_in_current_turn now_v7 item b
      else upsert_item_in_turn_id now_v7 turn_id item b

  unfoldable pub handle_patch_apply_end :
      PatchApplyEndEvent → ThreadHistoryBuilder → ThreadHistoryBuilder
  handle_patch_apply_end p b =
      upsert_item_in_named_turn p.turn_id
        (file_change_item p.call_id p.changes (patch_status p.status)) b

  unfoldable pub handle_patch_approval :
      ApplyPatchApprovalRequestEvent → ThreadHistoryBuilder → ThreadHistoryBuilder
  handle_patch_approval p b =
      upsert_item_in_named_turn p.turn_id
        (file_change_item p.call_id p.changes PatchApplyItemStatus.in_progress) b

  unfoldable pub handle_event : EventMsg → ThreadHistoryBuilder → ThreadHistoryBuilder
  handle_event (EventMsg.user_message p) b = handle_user_message p b
  handle_event (EventMsg.agent_message text phase) b = handle_agent_message text phase b
  handle_event (EventMsg.agent_reasoning text) b = handle_agent_reasoning text b
  handle_event (EventMsg.agent_reasoning_raw_content text) b = handle_agent_reasoning_raw text b
  handle_event (EventMsg.web_search_end id query action) b =
      upsert_item_in_current_turn now_v7
        (TurnItem.web_search (record { id = id; query = query; action = some action })) b
  handle_event (EventMsg.exec_command_end p) b =
      upsert_item_in_turn_id now_v7 p.turn_id (exec_command_item p) b
  handle_event (EventMsg.mcp_tool_call_begin id invocation) b =
      upsert_item_in_current_turn now_v7 (mcp_begin_item id invocation) b
  handle_event (EventMsg.mcp_tool_call_end p) b =
      upsert_item_in_current_turn now_v7 (mcp_end_item p) b
  handle_event (EventMsg.elicitation_request p) b =
      upsert_item_in_current_turn now_v7 (elicitation_item p) b
  handle_event (EventMsg.elicitation_response p) b = handle_elicitation_response p b
  handle_event (EventMsg.patch_apply_end p) b = handle_patch_apply_end p b
  handle_event (EventMsg.apply_patch_approval_request p) b = handle_patch_approval p b
  handle_event (EventMsg.dynamic_tool_call_request p) b =
      upsert_item_in_named_turn p.turn_id (dynamic_request_item p) b
  handle_event (EventMsg.dynamic_tool_call_response p) b =
      upsert_item_in_named_turn p.turn_id (dynamic_response_item p) b
  handle_event (EventMsg.view_image_tool_call id path) b =
      upsert_item_in_current_turn now_v7 (TurnItem.image_view (record { id = id; path = path })) b
  handle_event (EventMsg.collab_agent_spawn_end p) b =
      upsert_item_in_current_turn now_v7 (collab_spawn_item p) b
  handle_event (EventMsg.collab_agent_interaction_end p) b =
      upsert_item_in_current_turn now_v7 (collab_interaction_item p) b
  handle_event (EventMsg.collab_waiting_end p) b =
      upsert_item_in_current_turn now_v7 (collab_waiting_item p) b
  handle_event (EventMsg.collab_close_end p) b =
      upsert_item_in_current_turn now_v7 (collab_end_item CollabAgentTool.close_agent p) b
  handle_event (EventMsg.collab_resume_end p) b =
      upsert_item_in_current_turn now_v7 (collab_end_item CollabAgentTool.resume_agent p) b
  handle_event EventMsg.context_compacted b =
      push_numbered (λ id. TurnItem.context_compaction (record { id = id })) b
  handle_event (EventMsg.entered_review_mode hint) b =
      push_numbered
        (λ id. TurnItem.entered_review_mode (record { id = id; review = entered_review hint })) b
  handle_event (EventMsg.exited_review_mode output) b =
      push_numbered
        (λ id. TurnItem.exited_review_mode (record { id = id; review = exited_review output })) b
  handle_event (EventMsg.item_started turn_id item) b = handle_item turn_id item b
  handle_event (EventMsg.item_completed turn_id item) b = handle_item turn_id item b
  handle_event (EventMsg.error p) b = handle_error p b
  handle_event (EventMsg.thread_rolled_back n) b = handle_thread_rollback n b
  handle_event (EventMsg.turn_aborted id) b = handle_turn_aborted id b
  handle_event (EventMsg.turn_started id) b = handle_turn_started id b
  handle_event (EventMsg.turn_complete id) b = handle_turn_complete id b
  handle_event (EventMsg.token_count info) b = b
  handle_event EventMsg.web_search_begin b = b
  handle_event EventMsg.undo_completed b = b
  handle_event EventMsg.other b = b
