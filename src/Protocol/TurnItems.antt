-- ===== src/Protocol/TurnItems.antt =====
-- Items of a turn, of src-tauri/src/protocol/items.rs, with the types of types.rs that they hold.
-- A path is its text, a duration its milliseconds, and JSON values are carried as texts.
use mosaic_desktop.Prelude.{ℕ, Bool, Option, List, String}
use mosaic_desktop.Prelude.Int.{ℤ}
use mosaic_desktop.Protocol.Items.{Utf8}

pub data MessagePhase : Type 0 where
  commentary final_answer : MessagePhase

-- `text_elements` are carried as texts.
pub data UserInput : Type 0 where
  text : Utf8 → List String → UserInput
  image : Utf8 → UserInput
  local_image : Utf8 → UserInput
  attached_file : Utf8 → Utf8 → UserInput
  skill : Utf8 → Utf8 → UserInput
  mention : Utf8 → Utf8 → UserInput

pub data WebSearchAction : Type 0 where
  search : Option Utf8 → Option (List Utf8) → WebSearchAction
  open_page : Option Utf8 → WebSearchAction
  find_in_page : Option Utf8 → Option Utf8 → WebSearchAction
  other : WebSearchAction

pub record UserMessageItem : Type 0 where
  pub id : Utf8
  pub content : List UserInput

-- `AgentMessageContent` has one variant.
pub record AgentMessageItem : Type 0 where
  pub id : Utf8
  pub content : List Utf8
  pub phase : Option MessagePhase

pub record PlanItem : Type 0 where
  pub id : Utf8
  pub plan_text : Utf8

pub record ReasoningItem : Type 0 where
  pub id : Utf8
  pub summary_text : List Utf8
  pub raw_content : List Utf8

pub record WebSearchItem : Type 0 where
  pub id : Utf8
  pub query : Utf8
  pub action : Option WebSearchAction

pub record ContextCompactionItem : Type 0 where
  pub id : Utf8

pub data CommandExecutionStatus : Type 0 where
  in_progress completed failed declined : CommandExecutionStatus

pub data CommandAction : Type 0 where
  read : Utf8 → Utf8 → Utf8 → CommandAction
  list_files : Utf8 → Option Utf8 → CommandAction
  search : Utf8 → Option Utf8 → Option Utf8 → CommandAction
  unknown : Utf8 → CommandAction

pub record CommandExecutionItem : Type 0 where
  pub id : Utf8
  pub command : Utf8
  pub cwd : Utf8
  pub process_id : Option String
  pub status : CommandExecutionStatus
  pub command_actions : List CommandAction
  pub aggregated_output : Option Utf8
  pub exit_code : Option ℤ
  pub duration_ms : Option ℕ

-- `McpToolCallStatus`, `DynamicToolCallStatus` and `CollabAgentToolCallStatus`, which have the same
-- variants.
pub data ToolCallStatus : Type 0 where
  in_progress completed failed : ToolCallStatus

-- `McpToolCallResult` and `McpToolCallError`, of which the builder only makes the latter.
pub record McpToolCallItem : Type 0 where
  pub id : Utf8
  pub server : String
  pub tool : String
  pub status : ToolCallStatus
  pub arguments : String
  pub result : Option String
  pub error : Option String
  pub duration_ms : Option ℕ

pub record DynamicToolCallItem : Type 0 where
  pub id : Utf8
  pub tool : String
  pub arguments : String
  pub status : ToolCallStatus
  pub content_items : Option (List String)
  pub success : Option Bool
  pub duration_ms : Option ℕ

pub data PatchChangeKind : Type 0 where
  add delete : PatchChangeKind
  update : Option Utf8 → PatchChangeKind

pub record FileUpdateChange : Type 0 where
  pub path : Utf8
  pub kind : PatchChangeKind
  pub diff : Utf8

pub data PatchApplyItemStatus : Type 0 where
  in_progress completed failed declined : PatchApplyItemStatus

pub record FileChangeItem : Type 0 where
  pub id : Utf8
  pub changes : List FileUpdateChange
  pub status : PatchApplyItemStatus

pub record ImageViewItem : Type 0 where
  pub id : Utf8
  pub path : Utf8

-- `EnteredReviewModeItem` and `ExitedReviewModeItem`
pub record ReviewModeItem : Type 0 where
  pub id : Utf8
  pub review : Utf8

pub record ElicitationItem : Type 0 where
  pub id : Utf8
  pub server_name : String
  pub message : String
  pub mode : Option String
  pub schema : Option String
  pub url : Option String
  pub response_action : Option String
  pub response_content : Option String

pub data CollabAgentTool : Type 0 where
  spawn_agent send_input resume_agent wait close_agent : CollabAgentTool

pub data CollabAgentStatus : Type 0 where
  pending_init running completed errored shutdown not_found : CollabAgentStatus

pub record CollabAgentState : Type 0 where
  pub status : CollabAgentStatus
  pub message : Option String

-- `agents_states` is an association list.
pub record CollabToolCallItem : Type 0 where
  pub id : Utf8
  pub tool : CollabAgentTool
  pub status : ToolCallStatus
  pub sender_thread_id : String
  pub receiver_thread_ids : List String
  pub prompt : Option String
  pub agents_states : List (String × CollabAgentState)

pub data TurnItem : Type 0 where
  user_message : UserMessageItem → TurnItem
  agent_message : AgentMessageItem → TurnItem
  plan : PlanItem → TurnItem
  reasoning : ReasoningItem → TurnItem
  web_search : WebSearchItem → TurnItem
  context_compaction : ContextCompactionItem → TurnItem
  command_execution : CommandExecutionItem → TurnItem
  mcp_tool_call : McpToolCallItem → TurnItem
  dynamic_tool_call : DynamicToolCallItem → TurnItem
  file_change : FileChangeItem → TurnItem
  image_view : ImageViewItem → TurnItem
  entered_review_mode : ReviewModeItem → TurnItem
  exited_review_mode : ReviewModeItem → TurnItem
  collab_tool_call : CollabToolCallItem → TurnItem
  elicitation : ElicitationItem → TurnItem

-- `TurnItem::id`
abbrev pub id_of : TurnItem → Utf8
id_of (user_message i) = i.id
id_of (agent_message i) = i.id
id_of (plan i) = i.id
id_of (reasoning i) = i.id
id_of (web_search i) = i.id
id_of (context_compaction i) = i.id
id_of (command_execution i) = i.id
id_of (mcp_tool_call i) = i.id
id_of (dynamic_tool_call i) = i.id
id_of (file_change i) = i.id
id_of (image_view i) = i.id
id_of (entered_review_mode i) = i.id
id_of (exited_review_mode i) = i.id
id_of (collab_tool_call i) = i.id
id_of (elicitation i) = i.id
