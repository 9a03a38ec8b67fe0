-- ===== src/ContextManager/History.antt =====
-- src-tauri/src/core/context_manager/history.rs: the transcript, its truncation and its token counts.
-- A method that changes the manager returns the new one.
pub mod Turns
pub mod Truncation
pub mod Pending
pub mod Recording
mod Tests
use Prim.Native.String.{len}
use mosaic_desktop.Prelude.{
  ℕ, zero, suc, ◌+◌, ◌-◌, ◌*◌, ◌/◌, ◌^◌, Bool, true, false, not, ◌&&◌, ◌||◌, Option, none, some,
  List, [], ◌∷◌, ◌++◌, map, String, str_eq, Text, codes, length, take, drop, get_elem?, leb, ltb,
  ◌==◌, min, usize_max, if◌then◌else◌,
}
use mosaic_desktop.Prelude.Int.{ℤ, pos, as_i64, saturating_add_i64}
use mosaic_desktop.Protocol.Items.{
  Utf8, ContentItem, FunctionCallOutputContentItem, FunctionCallOutputBody, text, content_items,
  FunctionCallOutputPayload, ResponseInputItem, message, function_call, function_call_output,
  mcp_tool_call_output, custom_tool_call_output, is_user_message, TokenUsageInfo, TurnContextItem,
}
use mosaic_desktop.ContextManager.Normalize.{
  ensure_call_outputs_present, remove_orphan_outputs, remove_corresponding,
}

pub record ContextManager : Type 0 where
  pub items : List ResponseInputItem
  pub last_api_total_tokens : ℤ
  pub token_info : Option TokenUsageInfo
  pub reference_context_item : Option TurnContextItem

pub record TokenUsageBreakdown : Type 0 where
  pub last_api_total_tokens : ℤ
  pub all_items_bytes : ℤ
  pub pending_tokens : ℤ

abbrev pub new : ContextManager
new = record {
  items = [];
  last_api_total_tokens = pos 0;
  token_info = none;
  reference_context_item = none;
}

abbrev pub max_output_bytes : ℕ
max_output_bytes = 128 * 1024

pub data ItemTruncationPolicy : Type 0 where
  bytes tokens : ℕ → ItemTruncationPolicy

-- `ItemTruncationPolicy::max_bytes`; the product saturates.
unfoldable pub max_bytes : ItemTruncationPolicy → ℕ
max_bytes (bytes b) = b
max_bytes (tokens t) = min (t * 4) usize_max

-- `str::is_char_boundary` on UTF-8 bytes: the ends, and where no continuation byte stands.
abbrev boundary_at : Option ℕ → Bool
boundary_at none = true
boundary_at (some b) = ltb b 128 || leb 192 b

pub is_char_boundary : Utf8 → ℕ → Bool
is_char_boundary s i =
    (i == 0) || ((i == length s) || (ltb i (length s) && boundary_at (get_elem? s i)))

-- The `while end > 0 && !s.is_char_boundary(end)` loop.
pub floor_boundary : Utf8 → ℕ → ℕ
floor_boundary s zero = 0
floor_boundary s (suc end) =
    let lower = floor_boundary s end in if is_char_boundary s (suc end) then suc end else lower

abbrev pub marker : Utf8
marker = codes "\n... [truncated]"

pub truncate_str : Utf8 → ℕ → Utf8
truncate_str s limit = if leb (length s) limit then s else take (floor_boundary s limit) s ++ marker

-- The `match &output.body` of both branches of `truncate_output_with_limit`.
pub truncate_body : FunctionCallOutputBody → Option Bool → ℕ → FunctionCallOutputPayload
truncate_body (text s) success limit =
    if ltb limit (length s)
    then record { body = text (truncate_str s limit); success = none }
    else record { body = text s; success = success }
truncate_body (content_items items) success limit = record {
  body = content_items items;
  success = success;
}

pub truncate_output_with_limit : ResponseInputItem → ℕ → ResponseInputItem
truncate_output_with_limit (function_call_output call_id output) limit =
    function_call_output call_id (truncate_body output.body output.success limit)
truncate_output_with_limit (custom_tool_call_output call_id output) limit =
    custom_tool_call_output call_id (truncate_body output.body output.success limit)
truncate_output_with_limit (message role content) limit = message role content
truncate_output_with_limit (function_call call_id name arguments) limit =
    function_call call_id name arguments
truncate_output_with_limit (mcp_tool_call_output call_id result) limit =
    mcp_tool_call_output call_id result

-- `is_api_item` accepts every variant.
is_api_item : ResponseInputItem → Bool
is_api_item (message role content) = true
is_api_item (function_call call_id name arguments) = true
is_api_item (function_call_output call_id output) = true
is_api_item (mcp_tool_call_output call_id result) = true
is_api_item (custom_tool_call_output call_id output) = true

-- The loop of `record_items_with_policy`.
pub record_each : List ResponseInputItem → List ResponseInputItem → ℕ → List ResponseInputItem
record_each items [] limit = items
record_each items (item ∷ rest) limit =
    record_each
      (if is_api_item item then items ++ truncate_output_with_limit item limit ∷ [] else items) rest
      limit

unfoldable pub record_items_with_policy :
    ContextManager → List ResponseInputItem → ItemTruncationPolicy → ContextManager
record_items_with_policy c new_items policy = record c {
  items = record_each c.items new_items (max_bytes policy);
}

pub record_items : ContextManager → List ResponseInputItem → ContextManager
record_items c new_items = record_items_with_policy c new_items (bytes max_output_bytes)

pub for_prompt : ContextManager → List ResponseInputItem
for_prompt c = remove_orphan_outputs (ensure_call_outputs_present c.items)

-- `items.remove(0)`, where there is one.
first_removed : List ResponseInputItem → List ResponseInputItem
first_removed [] = []
first_removed (x ∷ xs) = remove_corresponding xs x

pub remove_first : ContextManager → ContextManager
remove_first c = record c { items = first_removed c.items }

-- `items.pop()`: what is left, and the newest item.
pop : List ResponseInputItem → Option (List ResponseInputItem × ResponseInputItem)
pop [] = none
pop (x ∷ xs) = elim (pop xs) [ none ↦ some ([], x) | some (rest, last) ↦ some (x ∷ rest, last) ]

pub remove_last : ContextManager → ContextManager × Bool
remove_last c = elim (pop c.items) [
  | none ↦ (c, false)
  | some (rest, removed) ↦ (record c { items = remove_corresponding rest removed }, true)
]

unfoldable pub replace : ContextManager → List ResponseInputItem → ContextManager
replace c items = record c { items = items }

-- The positions of the user messages among items of which the first has the index `i`.
pub user_positions : ℕ → List ResponseInputItem → List ℕ
user_positions i [] = []
user_positions i (x ∷ xs) =
    let rest = user_positions (suc i) xs in if is_user_message x then i ∷ rest else rest

-- `items.truncate(cut)`; an index that is missing, where the code panics, is met nowhere below.
truncate_at : Option ℕ → List ResponseInputItem → List ResponseInputItem
truncate_at none items = items
truncate_at (some cut) items = take cut items

-- The part of `drop_last_n_user_turns` behind its first test.
drop_turns : List ℕ → ℕ → List ResponseInputItem → List ResponseInputItem
drop_turns [] n items = items
drop_turns (first_user ∷ more) n items =
    if leb (length (first_user ∷ more)) n
    then take first_user items
    else truncate_at (get_elem? (first_user ∷ more) (length (first_user ∷ more) - n)) items

pub drop_turns_of : List ResponseInputItem → ℕ → List ResponseInputItem
drop_turns_of items n = if n == 0 then items else drop_turns (user_positions 0 items) n items

unfoldable pub drop_last_n_user_turns : ContextManager → ℕ → ContextManager
drop_last_n_user_turns c n = record c { items = drop_turns_of c.items n }

unfoldable pub update_token_usage : ContextManager → ℤ → ContextManager
update_token_usage c total_tokens = record c { last_api_total_tokens = total_tokens }

unfoldable pub set_token_info : ContextManager → Option TokenUsageInfo → ContextManager
set_token_info c info = record c { token_info = info }

unfoldable pub set_reference_context_item : ContextManager → Option TurnContextItem → ContextManager
set_reference_context_item c item = record c { reference_context_item = item }

pub is_model_generated : ResponseInputItem → Bool
is_model_generated (message role content) = str_eq role "assistant"
is_model_generated (function_call call_id name arguments) = true
is_model_generated (function_call_output call_id output) = false
is_model_generated (mcp_tool_call_output call_id result) = false
is_model_generated (custom_tool_call_output call_id output) = false

-- `rposition(is_model_generated).map_or(0, |i| i + 1)`
pub pending_start : List ResponseInputItem → ℕ
pending_start [] = 0
pending_start (x ∷ xs) =
    let later = pending_start xs in
    if later == 0 then (if is_model_generated x then 1 else 0) else suc later

pub items_after_last_model_item : List ResponseInputItem → List ResponseInputItem
items_after_last_model_item items = drop (pending_start items) items

abbrev content_bytes : List ContentItem → ℕ
content_bytes [] = 0
content_bytes (ContentItem.input_text s ∷ cs) = length s + content_bytes cs
content_bytes (ContentItem.output_text s ∷ cs) = length s + content_bytes cs
content_bytes (ContentItem.input_image url ∷ cs) = 7373 + content_bytes cs

abbrev output_bytes : List FunctionCallOutputContentItem → ℕ
output_bytes [] = 0
output_bytes (FunctionCallOutputContentItem.input_text s ∷ cs) = length s + output_bytes cs
output_bytes (FunctionCallOutputContentItem.input_image url ∷ cs) = 7373 + output_bytes cs

abbrev body_bytes : FunctionCallOutputBody → ℕ
body_bytes (text s) = length s
body_bytes (content_items items) = output_bytes items

-- The bytes are fewer than 2^63, so that the cast to `i64` keeps them.
unfoldable pub estimate_item_bytes : ResponseInputItem → ℕ
estimate_item_bytes (message role content) = content_bytes content + len role
estimate_item_bytes (function_call call_id name arguments) = len name + len arguments
estimate_item_bytes (function_call_output call_id output) = body_bytes output.body
estimate_item_bytes (mcp_tool_call_output call_id result) = 100
estimate_item_bytes (custom_tool_call_output call_id output) = 100

unfoldable pub estimate_item_tokens : ResponseInputItem → ℕ
estimate_item_tokens item = (estimate_item_bytes item + 3) / 4

pub sum_by : (ResponseInputItem → ℕ) → List ResponseInputItem → ℕ
sum_by f [] = 0
sum_by f (x ∷ xs) = f x + sum_by f xs

pub estimate_total_tokens : ContextManager → ℤ
estimate_total_tokens c =
    saturating_add_i64 c.last_api_total_tokens
      (as_i64 (sum_by estimate_item_tokens (items_after_last_model_item c.items)))

pub token_usage_breakdown : ContextManager → TokenUsageBreakdown
token_usage_breakdown c = record {
  last_api_total_tokens = c.last_api_total_tokens;
  all_items_bytes = as_i64 (sum_by estimate_item_bytes c.items);
  pending_tokens = as_i64 (sum_by estimate_item_tokens (items_after_last_model_item c.items));
}
