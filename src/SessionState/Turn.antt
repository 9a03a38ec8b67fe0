-- ===== src/SessionState/Turn.antt =====
-- src-tauri/src/core/state/turn.rs: what a turn waits for. The senders of the channels of `tokio` are
-- of any types; the tasks of a turn, kept in a map of the crate `indexmap`, are left out.
use mosaic_desktop.Prelude.{
  ◌≡◌, ◌≢◌, refl, Bool, true, not, Option, none, some, List, [], ◌∷◌, ◌++◌, String, str_eq, eq_iff,
  Bool-cases, inl, inr,
}
use mosaic_desktop.Protocol.Items.{ResponseInputItem}
use mosaic_desktop.Protocol.Utf8.{is_empty}
use mosaic_desktop.SessionState.{StringMap, insert_map, remove_map}

pub record TurnState {ℓ} (Approval Input Tool : Type ℓ) : Type ℓ where
  pub pending_approvals : StringMap Approval
  pub pending_user_input : StringMap Input
  pub pending_dynamic_tools : StringMap Tool
  pub pending_input : List ResponseInputItem
  pub custom_instructions : Option String

module _ {ℓ} {Approval Input Tool : Type ℓ} where
  -- An insertion returns the sender that it replaces, and a removal the one that was there.
  unfoldable pub insert_pending_approval :
      TurnState Approval Input Tool
      → String
      → Approval
      → TurnState Approval Input Tool × Option Approval
  insert_pending_approval ts key tx = (
    record ts { pending_approvals = insert_map ts.pending_approvals key tx },
    ts.pending_approvals key,
  )

  unfoldable pub remove_pending_approval :
      TurnState Approval Input Tool → String → TurnState Approval Input Tool × Option Approval
  remove_pending_approval ts key = (
    record ts { pending_approvals = remove_map ts.pending_approvals key },
    ts.pending_approvals key,
  )

  unfoldable pub insert_pending_user_input :
      TurnState Approval Input Tool → String → Input → TurnState Approval Input Tool × Option Input
  insert_pending_user_input ts key tx = (
    record ts { pending_user_input = insert_map ts.pending_user_input key tx },
    ts.pending_user_input key,
  )

  unfoldable pub remove_pending_user_input :
      TurnState Approval Input Tool → String → TurnState Approval Input Tool × Option Input
  remove_pending_user_input ts key = (
    record ts { pending_user_input = remove_map ts.pending_user_input key },
    ts.pending_user_input key,
  )

  unfoldable pub insert_pending_dynamic_tool :
      TurnState Approval Input Tool → String → Tool → TurnState Approval Input Tool × Option Tool
  insert_pending_dynamic_tool ts key tx = (
    record ts { pending_dynamic_tools = insert_map ts.pending_dynamic_tools key tx },
    ts.pending_dynamic_tools key,
  )

  unfoldable pub remove_pending_dynamic_tool :
      TurnState Approval Input Tool → String → TurnState Approval Input Tool × Option Tool
  remove_pending_dynamic_tool ts key = (
    record ts { pending_dynamic_tools = remove_map ts.pending_dynamic_tools key },
    ts.pending_dynamic_tools key,
  )

  unfoldable pub clear_pending : TurnState Approval Input Tool → TurnState Approval Input Tool
  clear_pending ts = record ts {
    pending_approvals = λ k. none;
    pending_user_input = λ k. none;
    pending_dynamic_tools = λ k. none;
    pending_input = [];
  }

  unfoldable pub set_custom_instructions :
      TurnState Approval Input Tool → String → TurnState Approval Input Tool
  set_custom_instructions ts instructions = record ts { custom_instructions = some instructions }

  unfoldable pub take_custom_instructions :
      TurnState Approval Input Tool → TurnState Approval Input Tool × Option String
  take_custom_instructions ts = (record ts { custom_instructions = none }, ts.custom_instructions)

  unfoldable pub push_pending_input :
      TurnState Approval Input Tool → ResponseInputItem → TurnState Approval Input Tool
  push_pending_input ts input = record ts { pending_input = ts.pending_input ++ input ∷ [] }

  unfoldable pub take_pending_input :
      TurnState Approval Input Tool → TurnState Approval Input Tool × List ResponseInputItem
  take_pending_input ts = (record ts { pending_input = [] }, ts.pending_input)

  unfoldable pub has_pending_input : TurnState Approval Input Tool → Bool
  has_pending_input ts = not (is_empty ts.pending_input)

  -- An approval that is answered is delivered once: a second answer finds nothing, and the other
  -- keys keep what they wait for.
  answered_once :
      (ts : TurnState Approval Input Tool) (key other : String) (tx : Approval)
      → key ≢ other
      → let inserted = (insert_pending_approval ts key tx).0 in
        let removed = (remove_pending_approval inserted key).0 in
        ((remove_pending_approval inserted key).1 ≡ some tx)
        × ((remove_pending_approval removed key).1 ≡ none)
        × (removed.pending_approvals other ≡ ts.pending_approvals other)
  unfolding insert_pending_approval remove_pending_approval
  answered_once ts key other tx h =
      let same : str_eq key key ≡ true = (eq_iff key key).1 refl in
      elim (Bool-cases (str_eq key other)) [
        | inl equal ↦ absurd (h ((eq_iff key other).0 equal))
        | inr apart ↦ (rw same refl, rw same refl, rw apart refl)
      ]
