-- ===== src/Rollout/Policy.antt =====
-- src-tauri/src/core/rollout/policy.rs: which items are persisted.
use mosaic_desktop.Prelude.{Bool, true, false, ◌||◌}
use mosaic_desktop.Protocol.Events.{
  EventMsg, RolloutItem, session_meta, event_msg, compacted, turn_context, response_item,
}

pub data EventPersistenceMode : Type 0 where
  limited extended : EventPersistenceMode

unfoldable pub is_limited_event : EventMsg → Bool
is_limited_event (EventMsg.user_message p) = true
is_limited_event (EventMsg.agent_message m phase) = true
is_limited_event (EventMsg.agent_reasoning t) = true
is_limited_event (EventMsg.agent_reasoning_raw_content t) = true
is_limited_event (EventMsg.token_count info) = true
is_limited_event EventMsg.context_compacted = true
is_limited_event (EventMsg.entered_review_mode hint) = true
is_limited_event (EventMsg.exited_review_mode output) = true
is_limited_event (EventMsg.thread_rolled_back n) = true
is_limited_event EventMsg.undo_completed = true
is_limited_event (EventMsg.turn_aborted id) = true
is_limited_event (EventMsg.turn_started id) = true
is_limited_event (EventMsg.turn_complete id) = true
is_limited_event _ = false

unfoldable pub is_extended_event : EventMsg → Bool
is_extended_event (EventMsg.error p) = true
is_extended_event EventMsg.web_search_begin = true
is_extended_event (EventMsg.web_search_end id query action) = true
is_extended_event (EventMsg.exec_command_end p) = true
is_extended_event (EventMsg.patch_apply_end p) = true
is_extended_event (EventMsg.mcp_tool_call_begin id invocation) = true
is_extended_event (EventMsg.mcp_tool_call_end p) = true
is_extended_event (EventMsg.elicitation_request p) = true
is_extended_event (EventMsg.elicitation_response p) = true
is_extended_event (EventMsg.view_image_tool_call id path) = true
is_extended_event (EventMsg.collab_agent_spawn_end p) = true
is_extended_event (EventMsg.collab_agent_interaction_end p) = true
is_extended_event (EventMsg.collab_waiting_end p) = true
is_extended_event (EventMsg.collab_close_end p) = true
is_extended_event (EventMsg.collab_resume_end p) = true
is_extended_event (EventMsg.dynamic_tool_call_request p) = true
is_extended_event (EventMsg.dynamic_tool_call_response p) = true
is_extended_event _ = false

unfoldable pub should_persist_event : EventMsg → EventPersistenceMode → Bool
should_persist_event ev limited = is_limited_event ev
should_persist_event ev extended = is_limited_event ev || is_extended_event ev

unfoldable pub is_persisted : RolloutItem → EventPersistenceMode → Bool
is_persisted (event_msg ev) mode = should_persist_event ev mode
is_persisted session_meta mode = true
is_persisted (compacted c) mode = true
is_persisted (turn_context c) mode = true
is_persisted (response_item r) mode = true
