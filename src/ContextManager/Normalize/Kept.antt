-- ===== src/ContextManager/Normalize/Kept.antt =====
-- Both passes of normalize.rs touch nothing but function call outputs.
use mosaic_desktop.Prelude.{
  ◌≡◌, refl, ◌∙◌, Bool, true, false, List, [], ◌∷◌, any, retain, arith, Bool-cases, inl, inr,
}
use mosaic_desktop.Protocol.Items.{
  ResponseInputItem, message, function_call, function_call_output, mcp_tool_call_output,
  custom_tool_call_output,
}
use mosaic_desktop.ContextManager.Normalize.{
  is_output_of, has_call, ensure_call_outputs_present, remove_orphan_outputs,
}
use mosaic_desktop.ContextManager.Normalize.Insert.{with_outputs, ensure_call_outputs_present_lem}

abbrev pub is_no_output : ResponseInputItem → Bool
is_no_output (function_call_output id output) = false
is_no_output (message role content) = true
is_no_output (function_call id name arguments) = true
is_no_output (mcp_tool_call_output id result) = true
is_no_output (custom_tool_call_output id output) = true

has_call_of_no_output :
    (whole : List ResponseInputItem) (x : ResponseInputItem)
    → is_no_output x ≡ true
    → has_call whole x ≡ true
has_call_of_no_output whole (function_call_output id output) h = cc
has_call_of_no_output whole (message role content) h = refl
has_call_of_no_output whole _ h = refl

retain-retain {ℓ} :
    {A : Type ℓ} (p q : A → Bool) (xs : List A)
    → ((x : A) → p x ≡ true → q x ≡ true)
    → retain p (retain q xs) ≡ retain p xs
retain-retain p q [] imp = refl
retain-retain p q (x ∷ xs) imp = ground (arith, retain-retain p q xs imp, imp x)

retain-with_outputs :
    (items xs : List ResponseInputItem)
    → retain is_no_output (with_outputs items xs) ≡ retain is_no_output xs
retain-with_outputs items [] = refl
retain-with_outputs items (function_call id name arguments ∷ xs) =
    elim (Bool-cases (any (is_output_of id) items)) [
      | inl e ↦ rw (e, retain-with_outputs items xs)
      | inr e ↦ rw (e, retain-with_outputs items xs)
    ]
retain-with_outputs items (message role content ∷ xs) = rw (retain-with_outputs items xs)
retain-with_outputs items (x ∷ xs) = rw (retain-with_outputs items xs)

-- But for the function call outputs, both passes leave the items of a history as they were, in their
-- order.
pub retain-normalize :
    (items : List ResponseInputItem)
    → retain is_no_output (remove_orphan_outputs (ensure_call_outputs_present items))
      ≡ retain is_no_output items
unfolding remove_orphan_outputs
retain-normalize items = rw (ensure_call_outputs_present_lem items) (
    retain-retain is_no_output (has_call (with_outputs items items)) (with_outputs items items)
      (has_call_of_no_output (with_outputs items items))
    ∙ retain-with_outputs items items)
