-- ===== src/ContextManager/Normalize.antt =====
-- src-tauri/src/core/context_manager/normalize.rs: every function call gets an output, and no output
-- stands without its call.
pub mod Insert
pub mod Pairing
pub mod Kept
use mosaic_desktop.Prelude.{
  ℕ, zero, suc, ◌+◌, Bool, true, false, not, Option, none, some, List, [], ◌∷◌, ◌++◌, String,
  str_eq, any, retain, Text, codes, if◌then◌else◌,
}
use mosaic_desktop.Protocol.Items.{
  ResponseInputItem, message, function_call, function_call_output, mcp_tool_call_output,
  custom_tool_call_output, from_text,
}

-- Is it the output, or the call, with this id?
abbrev pub is_output_of : String → ResponseInputItem → Bool
is_output_of id (function_call_output cid output) = str_eq cid id
is_output_of id (message role content) = false
is_output_of id (function_call cid name arguments) = false
is_output_of id (mcp_tool_call_output cid result) = false
is_output_of id (custom_tool_call_output cid output) = false

abbrev pub is_call_of : String → ResponseInputItem → Bool
is_call_of id (function_call cid name arguments) = str_eq cid id
is_call_of id (message role content) = false
is_call_of id (function_call_output cid output) = false
is_call_of id (mcp_tool_call_output cid result) = false
is_call_of id (custom_tool_call_output cid output) = false

abbrev pub aborted : String → ResponseInputItem
aborted id = function_call_output id (from_text (codes "aborted"))

-- What one round of the first loop of `ensure_call_outputs_present` pushes to `inserts`.
abbrev pub insert_for :
    List ResponseInputItem → ℕ → ResponseInputItem → List (ℕ × ResponseInputItem)
insert_for all_items idx (function_call id name arguments) =
    if any (is_output_of id) all_items then [] else (idx, aborted id) ∷ []
insert_for all_items idx (message role content) = []
insert_for all_items idx (function_call_output id output) = []
insert_for all_items idx (mcp_tool_call_output id result) = []
insert_for all_items idx (custom_tool_call_output id output) = []

unfoldable pub collect_inserts :
    List ResponseInputItem → ℕ → List ResponseInputItem → List (ℕ × ResponseInputItem)
collect_inserts all_items idx [] = []
collect_inserts all_items idx (item ∷ items) =
    insert_for all_items idx item ++ collect_inserts all_items (suc idx) items

-- `Vec::insert`; an index past the end, where it panics, is met nowhere below.
unfoldable pub insert_at : ℕ → ResponseInputItem → List ResponseInputItem → List ResponseInputItem
insert_at zero x items = x ∷ items
insert_at (suc i) x [] = x ∷ []
insert_at (suc i) x (y ∷ items) = y ∷ insert_at i x items

-- The second loop: from the last insert to the first.
unfoldable pub insert_in_reverse :
    List (ℕ × ResponseInputItem) → List ResponseInputItem → List ResponseInputItem
insert_in_reverse [] items = items
insert_in_reverse ((idx, output) ∷ inserts) items =
    insert_at (suc idx) output (insert_in_reverse inserts items)

unfoldable pub ensure_call_outputs_present : List ResponseInputItem → List ResponseInputItem
ensure_call_outputs_present items = insert_in_reverse (collect_inserts items 0 items) items

-- The test of `retain` in `remove_orphan_outputs`; `call_ids` is the set of the calls' ids.
abbrev pub has_call : List ResponseInputItem → ResponseInputItem → Bool
has_call items (function_call_output id output) = any (is_call_of id) items
has_call items (message role content) = true
has_call items (function_call id name arguments) = true
has_call items (mcp_tool_call_output id result) = true
has_call items (custom_tool_call_output id output) = true

unfoldable pub remove_orphan_outputs : List ResponseInputItem → List ResponseInputItem
remove_orphan_outputs items = retain (has_call items) items

unfoldable pub remove_corresponding :
    List ResponseInputItem → ResponseInputItem → List ResponseInputItem
remove_corresponding items (function_call id name arguments) =
    retain (λ i. not (is_output_of id i)) items
remove_corresponding items (function_call_output id output) =
    retain (λ i. not (is_call_of id i)) items
remove_corresponding items (message role content) = items
remove_corresponding items (mcp_tool_call_output id result) = items
remove_corresponding items (custom_tool_call_output id output) = items
