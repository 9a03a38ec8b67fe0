-- ===== src/ContextManager/History/Recording.antt =====
-- What `record_items_with_policy` does to each of the items that it records.
use mosaic_desktop.Prelude.{
  ℕ, ◌+◌, ◌≤◌, ◌<◌, ◌≡◌, refl, ap, ◌∙◌, Bool, false, ◌⊎◌, Option, none, some, List, [], ◌∷◌, ◌++◌,
  map, length, take, ltb, ltb→lt, ltb_false→le, arith, length-append, length-take, Bool-cases, inl,
  inr, leb,
}
use mosaic_desktop.Protocol.Items.{
  Utf8, FunctionCallOutputBody, text, content_items, FunctionCallOutputPayload, from_text,
  ResponseInputItem, message, function_call, function_call_output, mcp_tool_call_output,
  custom_tool_call_output,
}
use mosaic_desktop.ContextManager.History.{
  ContextManager, ItemTruncationPolicy, max_bytes, floor_boundary, marker, truncate_str,
  truncate_body, truncate_output_with_limit, record_items_with_policy,
}
use mosaic_desktop.ContextManager.History.Truncation.{
  IsFloor, floor_boundary-IsFloor, record_each-append,
}

abbrev text_of : FunctionCallOutputBody → Option Utf8
text_of (text s) = some s
text_of (content_items items) = none

-- The text of an item that is the output of a function call or of a custom tool call, if the output
-- is a text.
abbrev text_output : ResponseInputItem → Option Utf8
text_output (function_call_output call_id output) = text_of output.body
text_output (custom_tool_call_output call_id output) = text_of output.body
text_output (message role content) = none
text_output (function_call call_id name arguments) = none
text_output (mcp_tool_call_output call_id result) = none

-- There is no text, or it has at most so many bytes.
abbrev Fits : ℕ → Option Utf8 → Type 0
Fits limit none = Unit
Fits limit (some s) = length s ≤ limit

-- The same call's output, but with another text.
abbrev with_text : ResponseInputItem → Utf8 → ResponseInputItem
with_text (function_call_output call_id output) s = function_call_output call_id (from_text s)
with_text (custom_tool_call_output call_id output) s = custom_tool_call_output call_id (from_text s)
with_text (message role content) s = message role content
with_text (function_call call_id name arguments) s = function_call call_id name arguments
with_text (mcp_tool_call_output call_id result) s = mcp_tool_call_output call_id result

-- How the item `x` is recorded: as it is, without a text output or with one that fits the limit, and
-- otherwise with the longest prefix of the text that fits and ends between two characters, and the
-- marker behind it.
pub data RecordedAs (limit : ℕ) (x : ResponseInputItem) : ResponseInputItem → Type 0 where
  whole : Fits limit (text_output x) → RecordedAs limit x x
  cut_short :
      (s : Utf8) (cut : ℕ)
      → text_output x ≡ some s
      → limit < length s
      → IsFloor s limit cut
      → RecordedAs limit x (with_text x (take cut s ++ marker))

-- One by one and in the same order.
abbrev pub AllRecordedAs : ℕ → List ResponseInputItem → List ResponseInputItem → Type 0
AllRecordedAs limit [] [] = Unit
AllRecordedAs limit [] (y ∷ ys) = ⊥
AllRecordedAs limit (x ∷ xs) [] = ⊥
AllRecordedAs limit (x ∷ xs) (y ∷ ys) =
    RecordedAs limit x y × Fits (limit + 16) (text_output y) × AllRecordedAs limit xs ys

-- What becomes of the body of an output.
abbrev Body : ℕ → FunctionCallOutputPayload → FunctionCallOutputPayload → Type 0
Body limit output output' =
    (Fits limit (text_of output.body) × (output' ≡ output))
    ⊎ ((s : Utf8) × (cut : ℕ) × (text_of output.body ≡ some s)
        × (limit < length s)
        × IsFloor s limit cut
        × (output' ≡ from_text (take cut s ++ marker)))

truncate_body_cases :
    (body : FunctionCallOutputBody) (success : Option Bool) (limit : ℕ)
    → Body limit (record { body = body; success = success }) (truncate_body body success limit)
unfolding truncate_body truncate_str
truncate_body_cases (text s) success limit = elim (Bool-cases (ltb limit (length s))) [
  | inl long ↦
      let over : leb (length s) limit ≡ false = ground arith in
      rw (long, over)
        (inr
          (s, floor_boundary s limit, refl, ltb→lt _ _ long, floor_boundary-IsFloor s limit, refl))
  | inr fits ↦ rw fits (inl (ltb_false→le _ _ fits, refl))
]
truncate_body_cases (content_items items) success limit = inl (tt, refl)

RecordedAs-output :
    (limit : ℕ) (item : ResponseInputItem) (wrap : FunctionCallOutputPayload → ResponseInputItem)
    (output output' : FunctionCallOutputPayload)
    → item ≡ wrap output
    → ((o : FunctionCallOutputPayload) → text_output (wrap o) ≡ text_of o.body)
    → ((o : FunctionCallOutputPayload) (s : Utf8) → with_text (wrap o) s ≡ wrap (from_text s))
    → Body limit output output'
    → RecordedAs limit item (wrap output')
RecordedAs-output limit item wrap output output' is same changes (inl (fits, e)) =
    rw (is, e) (whole (rw (same output) fits))
RecordedAs-output limit item wrap output output' is same changes
      (inr (s, cut, has, long, floor, e)) =
    rw (is, e, ← changes output (take cut s ++ marker))
      (cut_short s cut (same output ∙ has) long floor)

truncate_output_with_limit-RecordedAs :
    (limit : ℕ) (item : ResponseInputItem)
    → RecordedAs limit item (truncate_output_with_limit item limit)
unfolding truncate_output_with_limit
truncate_output_with_limit-RecordedAs limit (function_call_output id o) =
    RecordedAs-output limit (function_call_output id o) (function_call_output id) o _ refl
      (λ p. refl) (λ p s. refl) (truncate_body_cases o.body o.success limit)
truncate_output_with_limit-RecordedAs limit (custom_tool_call_output id o) =
    RecordedAs-output limit (custom_tool_call_output id o) (custom_tool_call_output id) o _ refl
      (λ p. refl) (λ p s. refl) (truncate_body_cases o.body o.success limit)
truncate_output_with_limit-RecordedAs limit (message role content) = whole tt
truncate_output_with_limit-RecordedAs limit (function_call id name args) = whole tt
truncate_output_with_limit-RecordedAs limit (mcp_tool_call_output id result) = whole tt

Fits-RecordedAs :
    (limit : ℕ) (x y : ResponseInputItem) → RecordedAs limit x y → Fits (limit + 16) (text_output y)
Fits-RecordedAs limit x _ (whole fits) = Fits-le (text_output x) fits
  where
    Fits-le : (o : Option Utf8) → Fits limit o → Fits (limit + 16) o
    Fits-le none h = tt
    Fits-le (some s) h = omega arith
Fits-RecordedAs limit x _ (cut_short s cut has long floor) = shorter x
  where
    bound : length (take cut s ++ marker) ≤ limit + 16
    bound = omega (arith, length-append (take cut s) marker, length-take cut s, floor.within)

    shorter :
        (x : ResponseInputItem)
        → Fits (limit + 16) (text_output (with_text x (take cut s ++ marker)))
    shorter (function_call_output id o) = bound
    shorter (custom_tool_call_output id o) = bound
    shorter (message role content) = tt
    shorter (function_call id name args) = tt
    shorter (mcp_tool_call_output id result) = tt

map-AllRecordedAs :
    (limit : ℕ) (xs : List ResponseInputItem)
    → AllRecordedAs limit xs (map (λ i. truncate_output_with_limit i limit) xs)
map-AllRecordedAs limit [] = tt
map-AllRecordedAs limit (x ∷ xs) =
    let recorded = truncate_output_with_limit-RecordedAs limit x in
    (recorded, Fits-RecordedAs limit x _ recorded, map-AllRecordedAs limit xs)

-- Recording appends one item for every new one, in their order, and changes nothing else of the
-- manager. A new item is appended as it is, unless it is the output of a function call or of a custom
-- tool call with a text of more bytes than the policy's limit: then it keeps its call's id and holds,
-- without a success flag, the longest prefix of the text that is within the limit and ends between
-- two characters, and behind it the marker, which is 16 bytes long and not counted by the limit.
pub record_items_with_policy_lem :
    (c : ContextManager) (new_items : List ResponseInputItem) (policy : ItemTruncationPolicy)
    → (added : List ResponseInputItem) × (record_items_with_policy c new_items policy
        ≡ record c { items = c.items ++ added })
      × AllRecordedAs (max_bytes policy) new_items added
unfolding record_items_with_policy
record_items_with_policy_lem c new_items policy =
    let limit = max_bytes policy in
    (
      map (λ i. truncate_output_with_limit i limit) new_items,
      ap (λ l. record c { items = l }) (record_each-append c.items new_items limit),
      map-AllRecordedAs limit new_items,
    )
