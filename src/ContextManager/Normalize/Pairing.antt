-- ===== src/ContextManager/Normalize/Pairing.antt =====
-- After both passes of normalize.rs every call has its output and every output its call.
use mosaic_desktop.Prelude.{
  ◌≡◌, refl, Bool, true, List, [], ◌∷◌, String, eq_iff, any, retain, retain-All, All, All-imp,
  All-and, All-retain_self, arith, any-append, any-retain, All-retain, All-append, Bool-cases, inl,
  inr,
}
use mosaic_desktop.Protocol.Items.{
  ResponseInputItem, message, function_call, function_call_output, mcp_tool_call_output,
  custom_tool_call_output,
}
use mosaic_desktop.ContextManager.Normalize.{
  is_output_of, is_call_of, has_call, ensure_call_outputs_present, remove_orphan_outputs,
}
use mosaic_desktop.ContextManager.Normalize.Insert.{
  missing_output, with_outputs, ensure_call_outputs_present_lem,
}

-- Is the item no call, or a call with an output among `items`?
abbrev pub has_output : List ResponseInputItem → ResponseInputItem → Bool
has_output items (function_call id name arguments) = any (is_output_of id) items
has_output items (message role content) = true
has_output items (function_call_output id output) = true
has_output items (mcp_tool_call_output id result) = true
has_output items (custom_tool_call_output id output) = true

-- Every call has an output, and every output a call.
pub record IsPaired (items : List ResponseInputItem) : Type 0 where
  pub answered : All (λ i. has_output items i ≡ true) items
  pub called : All (λ i. has_call items i ≡ true) items

-- Nothing is lost by the insertions.
any-with_outputs :
    (p : ResponseInputItem → Bool) (all_items xs : List ResponseInputItem)
    → any p xs ≡ true
    → any p (with_outputs all_items xs) ≡ true
any-with_outputs p all_items [] h = h
any-with_outputs p all_items (x ∷ xs) h = ground (
  arith,
  any-with_outputs p all_items xs,
  any-append p (missing_output all_items x) (with_outputs all_items xs),
)

any-with_outputs_tail :
    (p : ResponseInputItem → Bool) (all_items xs : List ResponseInputItem) (x : ResponseInputItem)
    → any p (with_outputs all_items xs) ≡ true
    → any p (with_outputs all_items (x ∷ xs)) ≡ true
any-with_outputs_tail p all_items xs x h =
    ground (arith, any-append p (missing_output all_items x) (with_outputs all_items xs))

-- The outputs that are inserted are no calls.
All-missing_output :
    (whole all_items : List ResponseInputItem) (x : ResponseInputItem)
    → All (λ i. has_output whole i ≡ true) (missing_output all_items x)
All-missing_output whole all_items (function_call id name arguments) =
    elim (Bool-cases (any (is_output_of id) all_items)) [
      | inl e ↦ rw e tt
      | inr e ↦ rw e (refl, tt)
    ]
All-missing_output whole all_items (message role content) = tt
All-missing_output whole all_items _ = tt

-- A call has an output in any list that holds all that it is turned into.
has_output-first :
    (whole items xs : List ResponseInputItem) (x : ResponseInputItem)
    → ((p : ResponseInputItem → Bool) → any p items ≡ true → any p whole ≡ true)
    → ((p : ResponseInputItem → Bool)
        → any p (with_outputs items (x ∷ xs)) ≡ true
        → any p whole ≡ true)
    → has_output whole x ≡ true
has_output-first whole items xs (function_call id name arguments) old new =
    elim (Bool-cases (any (is_output_of id) items)) [
      | inl e ↦ old (is_output_of id) e
      | inr e ↦ new (is_output_of id) (rw (e, (eq_iff id id).1 refl))
    ]
has_output-first whole items xs (message role content) old new = refl
has_output-first whole items xs _ old new = refl

answered_within :
    (whole items xs : List ResponseInputItem)
    → ((p : ResponseInputItem → Bool) → any p items ≡ true → any p whole ≡ true)
    → ((p : ResponseInputItem → Bool) → any p (with_outputs items xs) ≡ true → any p whole ≡ true)
    → All (λ i. has_output whole i ≡ true) (with_outputs items xs)
answered_within whole items [] old new = tt
answered_within whole items (x ∷ xs) old new = (
  has_output-first whole items xs x old new,
  All-append (λ i. has_output whole i ≡ true) (missing_output items x) (with_outputs items xs)
      (All-missing_output whole items x)
      (answered_within whole items xs old (λ p h. new p (any-with_outputs_tail p items xs x h))),
)

-- A call is found where it stands.
abbrev is_present : List ResponseInputItem → ResponseInputItem → Bool
is_present items (function_call id name arguments) = any (is_call_of id) items
is_present items (message role content) = true
is_present items (function_call_output id output) = true
is_present items (mcp_tool_call_output id result) = true
is_present items (custom_tool_call_output id output) = true

present_first :
    (whole xs : List ResponseInputItem) (x : ResponseInputItem)
    → ((p : ResponseInputItem → Bool) → any p (x ∷ xs) ≡ true → any p whole ≡ true)
    → is_present whole x ≡ true
present_first whole xs (function_call id name arguments) sub =
    sub (is_call_of id) (rw ((eq_iff id id).1 refl))
present_first whole xs (message role content) sub = refl
present_first whole xs _ sub = refl

present_within :
    (whole xs : List ResponseInputItem)
    → ((p : ResponseInputItem → Bool) → any p xs ≡ true → any p whole ≡ true)
    → All (λ i. is_present whole i ≡ true) xs
present_within whole [] sub = tt
present_within whole (x ∷ xs) sub =
    (present_first whole xs x sub, present_within whole xs (λ p h. sub p (ground arith)))

-- The output of a call that is there is no orphan.
has_call_of_output :
    (whole : List ResponseInputItem) (id : String) (x : ResponseInputItem)
    → any (is_call_of id) whole ≡ true
    → is_output_of id x ≡ true
    → has_call whole x ≡ true
has_call_of_output whole id (function_call_output cid output) c h = rw ((eq_iff cid id).0 h) c
has_call_of_output whole id (message role content) c h = refl
has_call_of_output whole id _ c h = refl

has_call_of_call :
    (whole : List ResponseInputItem) (id : String) (x : ResponseInputItem)
    → is_call_of id x ≡ true
    → has_call whole x ≡ true
has_call_of_call whole id (function_call_output cid output) h = cc
has_call_of_call whole id (message role content) h = refl
has_call_of_call whole id _ h = refl

-- Removing orphans keeps the outputs of the calls that are there, and the calls.
has_output-retain :
    (whole : List ResponseInputItem) (x : ResponseInputItem)
    → is_present whole x ≡ true
    → has_output whole x ≡ true
    → has_output (retain (has_call whole) whole) x ≡ true
has_output-retain whole (function_call id name arguments) c h =
    any-retain (is_output_of id) (has_call whole) whole (λ x. has_call_of_output whole id x c) h
has_output-retain whole (message role content) c h = refl
has_output-retain whole _ c h = refl

has_call-retain :
    (whole : List ResponseInputItem) (x : ResponseInputItem)
    → has_call whole x ≡ true
    → has_call (retain (has_call whole) whole) x ≡ true
has_call-retain whole (function_call_output id output) h =
    any-retain (is_call_of id) (has_call whole) whole (has_call_of_call whole id) h
has_call-retain whole (message role content) h = refl
has_call-retain whole _ h = refl

-- After both passes every function call has an output of its id, and every function call output a
-- call of its id, whatever the history.
pub remove_orphan_outputs-IsPaired :
    (items : List ResponseInputItem)
    → IsPaired (remove_orphan_outputs (ensure_call_outputs_present items))
unfolding remove_orphan_outputs
remove_orphan_outputs-IsPaired items = rw (ensure_call_outputs_present_lem items) paired
  where
    whole : List ResponseInputItem
    whole = with_outputs items items

    answered : All (λ i. has_output whole i ≡ true) whole
    answered = answered_within whole items items (λ p. any-with_outputs p items items) (λ p h. h)

    paired : IsPaired (retain (has_call whole) whole)
    paired = record {
      answered =
          All-retain (λ i. has_output (retain (has_call whole) whole) i ≡ true) (has_call whole)
            whole
            (All-and (λ i. is_present whole i ≡ true) (λ i. has_output whole i ≡ true)
              (λ i. has_output (retain (has_call whole) whole) i ≡ true) (has_output-retain whole)
              whole (present_within whole whole (λ p h. h)) answered);
      called =
          All-imp (λ i. has_call whole i ≡ true)
            (λ i. has_call (retain (has_call whole) whole) i ≡ true) (has_call-retain whole)
            (retain (has_call whole) whole) (All-retain_self (has_call whole) whole);
    }

with_outputs_answered :
    (items xs : List ResponseInputItem)
    → All (λ i. has_output items i ≡ true) xs
    → with_outputs items xs ≡ xs
with_outputs_answered items [] h = refl
with_outputs_answered items (function_call id name arguments ∷ xs) h =
    rw (h.0, with_outputs_answered items xs h.1)
with_outputs_answered items (message role content ∷ xs) h = rw (with_outputs_answered items xs h.1)
with_outputs_answered items (x ∷ xs) h = rw (with_outputs_answered items xs h.1)

-- Both passes leave a history alone in which every call has an output and every output a call.
pub normalize_paired :
    (items : List ResponseInputItem)
    → IsPaired items
    → remove_orphan_outputs (ensure_call_outputs_present items) ≡ items
unfolding remove_orphan_outputs
normalize_paired items h =
    rw (ensure_call_outputs_present_lem items, with_outputs_answered items items h.answered)
      (retain-All (has_call items) items h.called)
