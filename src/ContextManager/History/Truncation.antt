-- ===== src/ContextManager/History/Truncation.antt =====
-- Truncation of a text output: a prefix that ends between two characters, and a marker.
use mosaic_desktop.Prelude.{
  ℕ, zero, suc, ◌≤◌, ◌<◌, ◌≡◌, refl, sym, true, false, ◌⊎◌, List, [], ◌∷◌, ◌++◌, map, length, take,
  ◌==◌, ==_iff, arith, append-nil, append_assoc, Bool-cases, inl, inr,
}
use mosaic_desktop.Protocol.Items.{
  Utf8, FunctionCallOutputBody, text, content_items, ResponseInputItem, message, function_call,
  function_call_output, mcp_tool_call_output, custom_tool_call_output,
}
use mosaic_desktop.ContextManager.History.{
  is_char_boundary, floor_boundary, marker, truncate_output_with_limit, is_api_item, record_each,
}

-- `floor_boundary s end` is the last boundary that is no later than `end`.
pub record IsFloor (s : Utf8) (limit cut : ℕ) : Type 0 where
  pub within : cut ≤ limit
  pub boundary : is_char_boundary s cut ≡ true
  pub last : (i : ℕ) → cut < i → i ≤ limit → is_char_boundary s i ≡ false

pub floor_boundary-IsFloor : (s : Utf8) (limit : ℕ) → IsFloor s limit (floor_boundary s limit)
unfolding floor_boundary is_char_boundary
floor_boundary-IsFloor s zero = record {
  within = omega arith;
  boundary = refl;
  last = λ i a b. absurd (omega arith);
}
floor_boundary-IsFloor s (suc n) = elim (Bool-cases (is_char_boundary s (suc n))) [
  | inl e ↦
      rw e (record { within = omega arith; boundary = e; last = λ i a b. absurd (omega arith) })
  | inr e ↦
      let ih = floor_boundary-IsFloor s n in
      rw e (record {
        within = omega (arith, ih.within);
        boundary = ih.boundary;
        last = λ i a b. elim (Bool-cases (i == suc n)) [
          | inl top ↦ rw ((==_iff i (suc n)).0 top) e
          | inr below ↦ ih.last i a (ground arith)
        ];
      })
]

-- What `truncate_str` returns: the text itself where it fits, and otherwise its prefix up to the last
-- character boundary within the limit, with the marker behind it.
abbrev pub Truncated : Utf8 → ℕ → Utf8 → Type 0
Truncated s limit r =
    ((length s ≤ limit) × (r ≡ s))
    ⊎ ((limit < length s) × (cut : ℕ) × IsFloor s limit cut × (r ≡ take cut s ++ marker))

abbrev body_text : FunctionCallOutputBody → Utf8
body_text (text s) = s
body_text (content_items items) = []

all_api : (item : ResponseInputItem) → is_api_item item ≡ true
unfolding is_api_item
all_api (message role content) = refl
all_api _ = refl

-- The text output of an item, where it has one.
abbrev pub output_text : ResponseInputItem → Utf8
output_text (function_call_output call_id output) = body_text output.body
output_text (custom_tool_call_output call_id output) = body_text output.body
output_text (message role content) = []
output_text (function_call call_id name arguments) = []
output_text (mcp_tool_call_output call_id result) = []

pub record_each-append :
    (items new_items : List ResponseInputItem) (limit : ℕ)
    → record_each items new_items limit
      ≡ items ++ map (λ i. truncate_output_with_limit i limit) new_items
unfolding record_each
record_each-append items [] limit = sym (append-nil items)
record_each-append items (x ∷ xs) limit =
    rw (all_api x, record_each-append (items ++ truncate_output_with_limit x limit ∷ []) xs limit)
      (append_assoc items _ _)
