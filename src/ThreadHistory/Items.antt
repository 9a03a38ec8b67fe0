-- ===== src/ThreadHistory/Items.antt =====
-- src-tauri/src/core/thread_history.rs: the items that the handlers make from the events.
use mosaic_desktop.Prelude.{
  ℕ, ◌-◌, ◌^◌, Option, none, some, List, ◌++◌, map, String, codes, ltb, if◌then◌else◌,
}
use mosaic_desktop.Protocol.Items.{Utf8}
use mosaic_desktop.Protocol.Utf8.{is_empty, trim, join, sort}
use mosaic_desktop.Protocol.TurnItems.{
  TurnItem, CommandExecutionStatus, PatchApplyItemStatus, CommandAction, ToolCallStatus,
  PatchChangeKind, FileUpdateChange,
}
use mosaic_desktop.Protocol.Events.{
  ExecCommandStatus, PatchApplyStatus, ParsedCommand, ExecCommandEndEvent, McpInvocation,
  McpToolCallEndEvent, ElicitationRequestEvent, FileChange, DynamicToolCallRequest,
  DynamicToolCallResponseEvent,
}

abbrev exec_status : ExecCommandStatus → CommandExecutionStatus
exec_status ExecCommandStatus.completed = CommandExecutionStatus.completed
exec_status ExecCommandStatus.failed = CommandExecutionStatus.failed
exec_status ExecCommandStatus.declined = CommandExecutionStatus.declined

abbrev command_action : ParsedCommand → CommandAction
command_action (ParsedCommand.read cmd name path) = CommandAction.read cmd name path
command_action (ParsedCommand.list_files cmd path) = CommandAction.list_files cmd path
command_action (ParsedCommand.search cmd query path) = CommandAction.search cmd query path
command_action (ParsedCommand.unknown cmd) = CommandAction.unknown cmd

-- `i64::try_from(millis)`
abbrev as_millis : ℕ → Option ℕ
as_millis d = if ltb d (2 ^ 63) then some d else none

unfoldable pub exec_command_item : ExecCommandEndEvent → TurnItem
exec_command_item p = TurnItem.command_execution (record {
  id = p.call_id;
  command = join (codes " ") p.command;
  cwd = p.cwd;
  process_id = p.process_id;
  status = exec_status p.status;
  command_actions = map command_action p.parsed_cmd;
  aggregated_output = if is_empty p.aggregated_output then none else some p.aggregated_output;
  exit_code = some p.exit_code;
  duration_ms = as_millis p.duration;
})

-- `unwrap_or(serde_json::Value::Null)`
abbrev or_null : Option String → String
or_null none = "null"
or_null (some v) = v

unfoldable pub mcp_begin_item : Utf8 → McpInvocation → TurnItem
mcp_begin_item call_id invocation = TurnItem.mcp_tool_call (record {
  id = call_id;
  server = invocation.server;
  tool = invocation.tool;
  status = ToolCallStatus.in_progress;
  arguments = or_null invocation.arguments;
  result = none;
  error = none;
  duration_ms = none;
})

abbrev mcp_status : Option String → ToolCallStatus
mcp_status none = ToolCallStatus.completed
mcp_status (some msg) = ToolCallStatus.failed

unfoldable pub mcp_end_item : McpToolCallEndEvent → TurnItem
mcp_end_item p = TurnItem.mcp_tool_call (record {
  id = p.call_id;
  server = p.invocation.server;
  tool = p.invocation.tool;
  status = mcp_status p.failure;
  arguments = or_null p.invocation.arguments;
  result = none;
  error = p.failure;
  duration_ms = as_millis p.duration;
})

unfoldable pub elicitation_item : ElicitationRequestEvent → TurnItem
elicitation_item p = TurnItem.elicitation (record {
  id = p.request_id;
  server_name = p.server_name;
  message = p.message_text;
  mode = p.mode;
  schema = p.schema;
  url = p.url;
  response_action = none;
  response_content = none;
})

abbrev moved : Utf8 → Option Utf8 → Utf8
moved diff none = diff
moved diff (some path) = diff ++ codes "\n\nMoved to: " ++ path

abbrev convert_change : Utf8 × FileChange → FileUpdateChange
convert_change (path, FileChange.add content) = record {
  path = path;
  kind = PatchChangeKind.add;
  diff = content;
}
convert_change (path, FileChange.delete content) = record {
  path = path;
  kind = PatchChangeKind.delete;
  diff = content;
}
convert_change (path, FileChange.update unified_diff move_path) = record {
  path = path;
  kind = PatchChangeKind.update move_path;
  diff = moved unified_diff move_path;
}

unfoldable pub convert_patch_changes : List (Utf8 × FileChange) → List FileUpdateChange
convert_patch_changes changes = sort (λ c. c.path) (map convert_change changes)

unfoldable pub file_change_item : Utf8 → List (Utf8 × FileChange) → PatchApplyItemStatus → TurnItem
file_change_item call_id changes status =
    TurnItem.file_change
      (record { id = call_id; changes = convert_patch_changes changes; status = status })

unfoldable pub patch_status : PatchApplyStatus → PatchApplyItemStatus
patch_status PatchApplyStatus.completed = PatchApplyItemStatus.completed
patch_status PatchApplyStatus.failed = PatchApplyItemStatus.failed
patch_status PatchApplyStatus.declined = PatchApplyItemStatus.declined

unfoldable pub dynamic_request_item : DynamicToolCallRequest → TurnItem
dynamic_request_item p = TurnItem.dynamic_tool_call (record {
  id = p.call_id;
  tool = p.tool;
  arguments = p.arguments;
  status = ToolCallStatus.in_progress;
  content_items = none;
  success = none;
  duration_ms = none;
})

-- `i64::try_from(millis).unwrap_or(i64::MAX)`
abbrev saturated_millis : Option ℕ → Option ℕ
saturated_millis none = none
saturated_millis (some d) = some (if ltb d (2 ^ 63) then d else 2 ^ 63 - 1)

unfoldable pub dynamic_response_item : DynamicToolCallResponseEvent → TurnItem
dynamic_response_item p = TurnItem.dynamic_tool_call (record {
  id = p.call_id;
  tool = p.tool;
  arguments = p.arguments;
  status = if p.success then ToolCallStatus.completed else ToolCallStatus.failed;
  content_items = some p.content_items;
  success = some p.success;
  duration_ms = saturated_millis p.duration;
})

-- The text of a review's end; `none` is a review without an output.
abbrev pub review_failed : Utf8
review_failed = codes "Reviewer failed to output a response."

unfoldable pub exited_review : Option Utf8 → Utf8
exited_review none = review_failed
exited_review (some explanation) =
    if is_empty (trim explanation) then review_failed else trim explanation

unfoldable pub entered_review : Option Utf8 → Utf8
entered_review none = codes "Review requested."
entered_review (some hint) = hint
