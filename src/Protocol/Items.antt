-- ===== src/Protocol/Items.antt =====
-- Conversation items of src-tauri/src/protocol/types.rs. A text whose length or contents the code
-- looks at is the list of its UTF-8 bytes; identifiers, names and roles are only compared and
-- measured. JSON values (of the crate serde_json) are carried as texts and never looked at.
use mosaic_desktop.Prelude.{ℕ, Bool, false, Option, none, some, List, [], ◌∷◌, ◌++◌, String, str_eq}
use mosaic_desktop.Prelude.Int.{ℤ}

-- UTF-8 bytes.
abbrev pub Utf8 : Type 0
Utf8 = List ℕ

pub data ContentItem : Type 0 where
  input_text : Utf8 → ContentItem
  input_image : String → ContentItem
  output_text : Utf8 → ContentItem

pub data FunctionCallOutputContentItem : Type 0 where
  input_text : Utf8 → FunctionCallOutputContentItem
  input_image : String → FunctionCallOutputContentItem

pub data FunctionCallOutputBody : Type 0 where
  text : Utf8 → FunctionCallOutputBody
  content_items : List FunctionCallOutputContentItem → FunctionCallOutputBody

pub record FunctionCallOutputPayload : Type 0 where
  pub body : FunctionCallOutputBody
  pub success : Option Bool

-- `FunctionCallOutputPayload::from_text`
abbrev pub from_text : Utf8 → FunctionCallOutputPayload
from_text content = record { body = text content; success = none }

pub record CallToolResult : Type 0 where
  pub content : Option String
  pub is_error : Option Bool

-- `Result<CallToolResult, String>`
pub data McpResult : Type 0 where
  ok : CallToolResult → McpResult
  err : String → McpResult

pub data ResponseInputItem : Type 0 where
  message : String → List ContentItem → ResponseInputItem
  function_call : String → String → String → ResponseInputItem
  function_call_output : String → FunctionCallOutputPayload → ResponseInputItem
  mcp_tool_call_output : String → McpResult → ResponseInputItem
  custom_tool_call_output : String → FunctionCallOutputPayload → ResponseInputItem

abbrev pub text_message : String → Utf8 → ResponseInputItem
text_message role body = message role (ContentItem.input_text body ∷ [])

-- `message_text`: the texts of a message, joined.
abbrev content_text : ContentItem → Utf8
content_text (ContentItem.input_text body) = body
content_text (ContentItem.output_text body) = body
content_text (ContentItem.input_image url) = []

abbrev join_texts : List ContentItem → Utf8
join_texts [] = []
join_texts (c ∷ cs) = content_text c ++ join_texts cs

abbrev some_text : Utf8 → Option Utf8
some_text [] = none
some_text (b ∷ bs) = some (b ∷ bs)

unfoldable pub message_text : ResponseInputItem → Option Utf8
message_text (message role content) = some_text (join_texts content)
message_text (function_call call_id name arguments) = none
message_text (function_call_output call_id output) = none
message_text (mcp_tool_call_output call_id result) = none
message_text (custom_tool_call_output call_id output) = none

pub record TokenUsage : Type 0 where
  pub input_tokens : ℤ
  pub cached_input_tokens : ℤ
  pub output_tokens : ℤ
  pub reasoning_output_tokens : ℤ
  pub total_tokens : ℤ

pub record TokenUsageInfo : Type 0 where
  pub total_token_usage : TokenUsage
  pub last_token_usage : TokenUsage
  pub model_context_window : Option ℤ

-- `TurnContextItem` of src-tauri/src/core/rollout/policy.rs
pub record TurnContextItem : Type 0 where
  pub turn_id : Option String
  pub cwd : String
  pub model : String
  pub realtime_active : Option Bool

-- Is it a `Message` whose role is "user"?
abbrev pub is_user_message : ResponseInputItem → Bool
is_user_message (message role content) = str_eq role "user"
is_user_message (function_call call_id name arguments) = false
is_user_message (function_call_output call_id output) = false
is_user_message (mcp_tool_call_output call_id result) = false
is_user_message (custom_tool_call_output call_id output) = false
