-- ===== src/HistoryTruncation.antt =====
-- src-tauri/src/core/truncation.rs: which of the newest items of a history are kept, and a text cut
-- to a budget of tokens.
mod Budget
use mosaic_desktop.Prelude.{
  ℕ, zero, suc, ◌+◌, ◌-◌, ◌*◌, ◌/◌, ◌%◌, ◌^◌, Bool, true, false, ◌||◌, Option, none, some, List, [],
  ◌∷◌, ◌++◌, codes, length, take, drop, leb, ltb, get_elem?, if◌then◌else◌, add_usize,
}
use mosaic_desktop.Protocol.Items.{
  Utf8, ResponseInputItem, FunctionCallOutputBody, message, function_call, function_call_output,
  mcp_tool_call_output, custom_tool_call_output, message_text, text, content_items,
}
use mosaic_desktop.Protocol.Utf8.{utf8, decimal}

pub data TruncationPolicy : Type 0 where
  keep_recent keep_recent_tokens : ℕ → TruncationPolicy
  auto_compact : TruncationPolicy

-- `div_ceil(4)`
unfoldable pub approx_token_count : Utf8 → ℕ
approx_token_count s = (length s + 3) / 4

abbrev or_empty : Option Utf8 → Utf8
or_empty none = []
or_empty (some s) = s

abbrev body_tokens : FunctionCallOutputBody → ℕ
body_tokens (text s) = approx_token_count s
body_tokens (content_items items) = 10

unfoldable pub estimate_tokens : ResponseInputItem → ℕ
estimate_tokens (message role content) =
    approx_token_count (or_empty (message_text (message role content)))
estimate_tokens (function_call call_id name arguments) = approx_token_count (utf8 arguments)
estimate_tokens (function_call_output call_id output) = body_tokens output.body
estimate_tokens (mcp_tool_call_output call_id result) = 10
estimate_tokens (custom_tool_call_output call_id output) = 10

-- The loop over the items, newest first: how many of them are kept.
unfoldable pub kept_within : ℕ → ℕ → List ResponseInputItem → ℕ
kept_within max_tokens cumulative [] = 0
kept_within max_tokens cumulative (item ∷ older) =
    let rest = kept_within max_tokens (add_usize cumulative (estimate_tokens item)) older in
    if ltb max_tokens (add_usize cumulative (estimate_tokens item)) then 0 else suc rest

-- `iter().rev()`
abbrev pub reversed {ℓ} : {A : Type ℓ} → List A → List A
reversed [] = []
reversed (x ∷ xs) = reversed xs ++ x ∷ []

unfoldable pub apply_truncation : List ResponseInputItem → TruncationPolicy → List ResponseInputItem
apply_truncation history (keep_recent max_items) =
    if leb (length history) max_items then history else drop (length history - max_items) history
apply_truncation history (keep_recent_tokens max_tokens) =
    drop (length history - kept_within max_tokens 0 (reversed history)) history
apply_truncation history auto_compact = history

-- `is_char_boundary`, past which the loop goes back.
abbrev starts_char : Option ℕ → Bool
starts_char none = true
starts_char (some b) = ltb b 0x80 || leb 0xc0 b

unfoldable pub floor_boundary : Utf8 → ℕ → ℕ
floor_boundary s zero = 0
floor_boundary s (suc end) =
    let lower = floor_boundary s end in
    if starts_char (get_elem? s (suc end)) then suc end else lower

abbrev cut_text : Utf8 → ℕ → Utf8
cut_text s end =
    take end s
    ++ codes "\n\n[... truncated "
    ++ decimal (approx_token_count (drop end s))
    ++ codes " tokens]"

-- The product is one of `usize`.
unfoldable pub formatted_truncate_text : Utf8 → TruncationPolicy → Utf8
formatted_truncate_text s (keep_recent max_items) = s
formatted_truncate_text s auto_compact = s
formatted_truncate_text s (keep_recent_tokens max_tokens) =
    let max_chars = max_tokens * 4 % 2 ^ 64 in
    if leb (length s) max_chars then s else cut_text s (floor_boundary s max_chars)
