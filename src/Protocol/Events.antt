-- ===== src/Protocol/Events.antt =====
-- Events and persisted items: src-tauri/src/protocol/event.rs, `ResponseItem` of types.rs and the
-- items of src-tauri/src/core/rollout/policy.rs. A field that no modelled function reads is left out.
use mosaic_desktop.Prelude.{ℕ, Bool, true, false, Option, none, some, List, String}
use mosaic_desktop.Prelude.Int.{ℤ}
use mosaic_desktop.Protocol.Items.{
  Utf8, ContentItem, FunctionCallOutputPayload, ResponseInputItem, TokenUsageInfo, TurnContextItem,
}
use mosaic_desktop.Protocol.TurnItems.{TurnItem, MessagePhase, WebSearchAction}

-- `CodexErrorInfo`; the HTTP status codes are left out.
pub data CodexErrorInfo : Type 0 where
  context_window_exceeded usage_limit_exceeded server_overloaded : CodexErrorInfo
  http_connection_failed response_stream_connection_failed : CodexErrorInfo
  internal_server_error unauthorized bad_request sandbox_error : CodexErrorInfo
  response_stream_disconnected response_too_many_failed_attempts : CodexErrorInfo
  thread_rollback_failed other : CodexErrorInfo

unfoldable pub affects_turn_status : CodexErrorInfo → Bool
affects_turn_status CodexErrorInfo.thread_rollback_failed = false
affects_turn_status _ = true

pub record ErrorEvent : Type 0 where
  pub error_message : String
  pub codex_error_info : Option CodexErrorInfo

pub record UserMessageEvent : Type 0 where
  pub message_text : Utf8
  pub images : Option (List Utf8)
  pub local_images : List Utf8
  pub text_elements : List String

pub data ExecCommandStatus : Type 0 where
  completed failed declined : ExecCommandStatus

pub data ParsedCommand : Type 0 where
  read : Utf8 → Utf8 → Utf8 → ParsedCommand
  list_files : Utf8 → Option Utf8 → ParsedCommand
  search : Utf8 → Option Utf8 → Option Utf8 → ParsedCommand
  unknown : Utf8 → ParsedCommand

pub record ExecCommandEndEvent : Type 0 where
  pub call_id : Utf8
  pub process_id : Option String
  pub turn_id : String
  pub command : List Utf8
  pub cwd : Utf8
  pub parsed_cmd : List ParsedCommand
  pub aggregated_output : Utf8
  pub exit_code : ℤ
  pub duration : ℕ
  pub status : ExecCommandStatus

pub record McpInvocation : Type 0 where
  pub server : String
  pub tool : String
  pub arguments : Option String

-- Of the result the builder reads the error.
pub record McpToolCallEndEvent : Type 0 where
  pub call_id : Utf8
  pub invocation : McpInvocation
  pub duration : ℕ
  pub failure : Option String

pub record ElicitationRequestEvent : Type 0 where
  pub server_name : String
  pub request_id : Utf8
  pub message_text : String
  pub mode : Option String
  pub schema : Option String
  pub url : Option String

pub record ElicitationResponseEvent : Type 0 where
  pub server_name : String
  pub request_id : Utf8
  pub action : String
  pub content : Option String

pub data FileChange : Type 0 where
  add delete : Utf8 → FileChange
  update : Utf8 → Option Utf8 → FileChange

pub data PatchApplyStatus : Type 0 where
  completed failed declined : PatchApplyStatus

-- The map of changes is the list of its entries, in the order in which it is iterated.
pub record PatchApplyEndEvent : Type 0 where
  pub call_id : Utf8
  pub turn_id : String
  pub changes : List (Utf8 × FileChange)
  pub status : PatchApplyStatus

pub record ApplyPatchApprovalRequestEvent : Type 0 where
  pub call_id : Utf8
  pub turn_id : String
  pub changes : List (Utf8 × FileChange)

pub record DynamicToolCallRequest : Type 0 where
  pub call_id : Utf8
  pub turn_id : String
  pub tool : String
  pub arguments : String

pub record DynamicToolCallResponseEvent : Type 0 where
  pub call_id : Utf8
  pub turn_id : String
  pub tool : String
  pub arguments : String
  pub content_items : List String
  pub success : Bool
  pub duration : Option ℕ

pub data AgentStatus : Type 0 where
  pending_init running : AgentStatus
  completed : Option String → AgentStatus
  errored : String → AgentStatus
  shutdown not_found : AgentStatus

pub record CollabAgentSpawnEndEvent : Type 0 where
  pub call_id : Utf8
  pub sender_thread_id : String
  pub new_thread_id : Option String
  pub prompt : String
  pub status : AgentStatus

pub record CollabAgentInteractionEndEvent : Type 0 where
  pub call_id : Utf8
  pub sender_thread_id : String
  pub receiver_thread_id : String
  pub prompt : String
  pub status : AgentStatus

-- `CollabCloseEndEvent` and `CollabResumeEndEvent`
pub record CollabEndEvent : Type 0 where
  pub call_id : Utf8
  pub sender_thread_id : String
  pub receiver_thread_id : String
  pub status : AgentStatus

pub record CollabWaitingEndEvent : Type 0 where
  pub call_id : Utf8
  pub sender_thread_id : String
  pub statuses : List (String × AgentStatus)

-- `EventMsg`; the variants that no modelled function tells apart are `other`.
pub data EventMsg : Type 0 where
  error : ErrorEvent → EventMsg
  context_compacted : EventMsg
  thread_rolled_back : ℕ → EventMsg
  turn_started turn_complete : String → EventMsg
  turn_aborted : Option String → EventMsg
  token_count : Option TokenUsageInfo → EventMsg
  agent_message : Utf8 → Option MessagePhase → EventMsg
  user_message : UserMessageEvent → EventMsg
  agent_reasoning agent_reasoning_raw_content : Utf8 → EventMsg
  mcp_tool_call_begin : Utf8 → McpInvocation → EventMsg
  mcp_tool_call_end : McpToolCallEndEvent → EventMsg
  web_search_begin : EventMsg
  web_search_end : Utf8 → Utf8 → WebSearchAction → EventMsg
  exec_command_end : ExecCommandEndEvent → EventMsg
  view_image_tool_call : Utf8 → Utf8 → EventMsg
  apply_patch_approval_request : ApplyPatchApprovalRequestEvent → EventMsg
  elicitation_request : ElicitationRequestEvent → EventMsg
  elicitation_response : ElicitationResponseEvent → EventMsg
  dynamic_tool_call_request : DynamicToolCallRequest → EventMsg
  dynamic_tool_call_response : DynamicToolCallResponseEvent → EventMsg
  patch_apply_end : PatchApplyEndEvent → EventMsg
  item_started item_completed : String → TurnItem → EventMsg
  entered_review_mode : Option Utf8 → EventMsg
  exited_review_mode : Option Utf8 → EventMsg
  undo_completed : EventMsg
  collab_agent_spawn_end : CollabAgentSpawnEndEvent → EventMsg
  collab_agent_interaction_end : CollabAgentInteractionEndEvent → EventMsg
  collab_waiting_end : CollabWaitingEndEvent → EventMsg
  collab_close_end collab_resume_end : CollabEndEvent → EventMsg
  other : EventMsg

pub data ReasoningContentItem : Type 0 where
  reasoning_text text : Utf8 → ReasoningContentItem

-- `ResponseItem`; `ReasoningSummaryItem` has one variant.
pub data ResponseItem : Type 0 where
  message : Option Utf8 → String → List ContentItem → Option MessagePhase → ResponseItem
  reasoning : Utf8 → List Utf8 → Option (List ReasoningContentItem) → ResponseItem
  function_call : String → String → String → ResponseItem
  function_call_output : String → FunctionCallOutputPayload → ResponseItem
  local_shell_call ghost_snapshot custom_tool_call : ResponseItem
  custom_tool_call_output : String → FunctionCallOutputPayload → ResponseItem
  web_search_call : Option Utf8 → Option WebSearchAction → ResponseItem
  compaction other : ResponseItem

unfoldable pub to_input_item : ResponseItem → Option ResponseInputItem
to_input_item (ResponseItem.message id role content phase) =
    some (ResponseInputItem.message role content)
to_input_item (ResponseItem.function_call name arguments call_id) =
    some (ResponseInputItem.function_call call_id name arguments)
to_input_item (ResponseItem.function_call_output call_id output) =
    some (ResponseInputItem.function_call_output call_id output)
to_input_item (ResponseItem.custom_tool_call_output call_id output) =
    some (ResponseInputItem.custom_tool_call_output call_id output)
to_input_item _ = none

-- `summary` is the field `message`.
pub record CompactedItem : Type 0 where
  pub summary : Utf8
  pub replacement_history : Option (List ResponseInputItem)

pub data RolloutItem : Type 0 where
  session_meta : RolloutItem
  event_msg : EventMsg → RolloutItem
  compacted : CompactedItem → RolloutItem
  turn_context : TurnContextItem → RolloutItem
  response_item : ResponseItem → RolloutItem
