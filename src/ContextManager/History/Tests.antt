-- ===== src/ContextManager/History/Tests.antt =====
-- Runs of the history, and its theorems at a short conversation.
use mosaic_desktop.Prelude.{◌-◌, ◌≡◌, refl, List, [], ◌∷◌, ◌++◌, codes, retain}
use mosaic_desktop.Protocol.Items.{
  ResponseInputItem, text_message, function_call, function_call_output, from_text,
}
use mosaic_desktop.ContextManager.Normalize.{
  ensure_call_outputs_present, remove_orphan_outputs, collect_inserts, insert_at, insert_in_reverse,
}
use mosaic_desktop.ContextManager.Normalize.Insert.{with_outputs, ensure_call_outputs_present_lem}
use mosaic_desktop.ContextManager.Normalize.Pairing.{
  IsPaired, remove_orphan_outputs-IsPaired, normalize_paired,
}
use mosaic_desktop.ContextManager.Normalize.Kept.{is_no_output, retain-normalize}
use mosaic_desktop.ContextManager.History.{
  ContextManager, new, bytes, max_bytes, record_items_with_policy, drop_last_n_user_turns,
  items_after_last_model_item, truncate_body, truncate_str, floor_boundary, is_char_boundary,
  truncate_output_with_limit, user_positions, drop_turns_of, drop_turns, truncate_at, for_prompt,
}
use mosaic_desktop.ContextManager.History.Turns.{
  user_count, before_user, drop_last_n_user_turns_lem, drop_last_n_user_turns_twice,
}
use mosaic_desktop.ContextManager.History.Recording.{AllRecordedAs, record_items_with_policy_lem}
use mosaic_desktop.ContextManager.History.Pending.{IsPending, items_after_last_model_item-IsPending}

abbrev user : ResponseInputItem
user = text_message "user" (codes "hello")

abbrev call : ResponseInputItem
call = function_call "c1" "tool" "{}"

abbrev output : ResponseInputItem
output = function_call_output "c1" (from_text (codes "0123456789"))

abbrev talk : List ResponseInputItem
talk = user ∷ call ∷ output ∷ user ∷ function_call_output "c2" (from_text []) ∷ []

abbrev manager : ContextManager
manager = record new { items = talk }

-- `for_prompt_normalizes` and `for_prompt_removes_orphan_outputs` of the unit tests.
prompt : for_prompt manager ≡ user ∷ call ∷ output ∷ user ∷ []
unfolding for_prompt ensure_call_outputs_present remove_orphan_outputs collect_inserts
    insert_in_reverse insert_at
prompt = refl

one_turn_left : (drop_last_n_user_turns manager 1).items ≡ user ∷ call ∷ output ∷ []
unfolding drop_last_n_user_turns drop_turns_of drop_turns user_positions truncate_at
one_turn_left = refl

ensure_call_outputs_present_lem_example : ensure_call_outputs_present talk ≡ with_outputs talk talk
ensure_call_outputs_present_lem_example = ensure_call_outputs_present_lem talk

remove_orphan_outputs-IsPaired_example :
    IsPaired (remove_orphan_outputs (ensure_call_outputs_present talk))
remove_orphan_outputs-IsPaired_example = remove_orphan_outputs-IsPaired talk

normalize_paired_example :
    remove_orphan_outputs (ensure_call_outputs_present (user ∷ call ∷ output ∷ []))
    ≡ user ∷ call ∷ output ∷ []
normalize_paired_example =
    normalize_paired (user ∷ call ∷ output ∷ [])
      (record { answered = (refl, (refl, (refl, tt))); called = (refl, (refl, (refl, tt))) })

retain-normalize_example :
    retain is_no_output (remove_orphan_outputs (ensure_call_outputs_present talk))
    ≡ user ∷ call ∷ user ∷ []
retain-normalize_example = retain-normalize talk

drop_last_n_user_turns_lem_example :
    (drop_last_n_user_turns manager 1).items ≡ before_user (user_count talk - 1) talk
drop_last_n_user_turns_lem_example = drop_last_n_user_turns_lem manager 1

drop_last_n_user_turns_twice_example :
    drop_last_n_user_turns (drop_last_n_user_turns manager 1) 1 ≡ drop_last_n_user_turns manager 2
drop_last_n_user_turns_twice_example = drop_last_n_user_turns_twice manager 1 1

-- Under a limit of 4 bytes 10 become 20, of which 4 are the output's.
cut_to_four :
    truncate_output_with_limit output 4
    ≡ function_call_output "c1" (from_text (codes "0123\n... [truncated]"))
unfolding truncate_output_with_limit truncate_body truncate_str floor_boundary is_char_boundary
cut_to_four = refl

record_items_with_policy_lem_example :
    (added : List ResponseInputItem) × (record_items_with_policy manager
        (user ∷ output ∷ [])
        (bytes 4)
      ≡ record manager { items = talk ++ added })
    × AllRecordedAs (max_bytes (bytes 4)) (user ∷ output ∷ []) added
record_items_with_policy_lem_example =
    record_items_with_policy_lem manager (user ∷ output ∷ []) (bytes 4)

items_after_last_model_item-IsPending_example : IsPending talk (items_after_last_model_item talk)
items_after_last_model_item-IsPending_example = items_after_last_model_item-IsPending talk

-- What the model has not answered yet.
abbrev unanswered : List ResponseInputItem
unanswered = output ∷ user ∷ function_call_output "c2" (from_text []) ∷ []
