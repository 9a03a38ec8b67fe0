-- ===== src/ContextManager/Normalize/Insert.antt =====
-- `ensure_call_outputs_present` by indices, against its plain description.
use mosaic_desktop.Prelude.{
  ℕ, suc, ◌≡◌, refl, ap, ◌∙◌, List, [], ◌∷◌, ◌++◌, append_assoc, any, arith, length, length-append,
  if◌then◌else◌, Bool-cases, inl, inr,
}
use mosaic_desktop.Protocol.Items.{
  ResponseInputItem, message, function_call, function_call_output, mcp_tool_call_output,
  custom_tool_call_output,
}
use mosaic_desktop.ContextManager.Normalize.{
  is_output_of, aborted, insert_for, collect_inserts, insert_at, insert_in_reverse,
  ensure_call_outputs_present,
}

-- The output that is missing behind an item.
abbrev pub missing_output : List ResponseInputItem → ResponseInputItem → List ResponseInputItem
missing_output all_items (function_call id name arguments) =
    if any (is_output_of id) all_items then [] else aborted id ∷ []
missing_output all_items (message role content) = []
missing_output all_items (function_call_output id output) = []
missing_output all_items (mcp_tool_call_output id result) = []
missing_output all_items (custom_tool_call_output id output) = []

-- Each item, followed by the output that it lacks.
abbrev pub with_outputs : List ResponseInputItem → List ResponseInputItem → List ResponseInputItem
with_outputs all_items [] = []
with_outputs all_items (x ∷ xs) = x ∷ missing_output all_items x ++ with_outputs all_items xs

insert_at-length :
    (p q : List ResponseInputItem) (x : ResponseInputItem)
    → insert_at (length p) x (p ++ q) ≡ p ++ x ∷ q
unfolding insert_at
insert_at-length [] q x = refl
insert_at-length (y ∷ p) q x = ap (λ l. y ∷ l) (insert_at-length p q x)

-- One round of `insert_in_reverse`, at the item `x` behind `p`.
insert_one :
    (all_items p q : List ResponseInputItem) (x : ResponseInputItem)
    (rest : List (ℕ × ResponseInputItem)) (items : List ResponseInputItem)
    → insert_in_reverse rest items ≡ (p ++ x ∷ []) ++ q
    → insert_in_reverse (insert_for all_items (length p) x ++ rest) items
      ≡ p ++ (x ∷ missing_output all_items x ++ q)
unfolding insert_in_reverse
insert_one all_items p q (function_call id name arguments) rest items h =
    let x = function_call id name arguments in
    elim (Bool-cases (any (is_output_of id) all_items)) [
      | inl e ↦ rw e (h ∙ append_assoc p _ q)
      | inr e ↦
          let len : suc (length p) ≡ length (p ++ x ∷ []) =
            omega (arith, length-append p (x ∷ [])) in
          rw e (rw (h, len) (insert_at-length (p ++ x ∷ []) q (aborted id) ∙ append_assoc p _ _))
    ]
insert_one all_items p q (message role content) rest items h = h ∙ append_assoc p _ q
insert_one all_items p q _ rest items h = h ∙ append_assoc p _ q

insert_all :
    (all_items p items : List ResponseInputItem)
    → insert_in_reverse (collect_inserts all_items (length p) items) (p ++ items)
      ≡ p ++ with_outputs all_items items
unfolding collect_inserts insert_in_reverse
insert_all all_items p [] = refl
insert_all all_items p (x ∷ xs) =
    let len : suc (length p) ≡ length (p ++ x ∷ []) = omega (arith, length-append p (x ∷ [])) in
    insert_one all_items p (with_outputs all_items xs) x _ (p ++ x ∷ xs)
      (rw (len, ← append_assoc p (x ∷ []) xs) (insert_all all_items (p ++ x ∷ []) xs))

-- The insertions by index put, right behind every function call that has no output anywhere in the
-- history, an "aborted" output of its id, and change nothing else.
pub ensure_call_outputs_present_lem :
    (items : List ResponseInputItem) → ensure_call_outputs_present items ≡ with_outputs items items
unfolding ensure_call_outputs_present
ensure_call_outputs_present_lem items = insert_all items [] items
