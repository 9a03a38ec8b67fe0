-- ===== src/Rollout/Reconstruction/Idle.antt =====
-- The items of a rollout at which the reverse scan finds no checkpoint.
use mosaic_desktop.Prelude.{
  ◌≡◌, inl, inr, refl, Bool, true, false, Option, none, some, List, String, Bool-cases, ltb, arith,
}
use mosaic_desktop.Protocol.Items.{ResponseInputItem, is_user_message, TurnContextItem}
use mosaic_desktop.Protocol.Events.{
  RolloutItem, session_meta, event_msg, compacted, turn_context, response_item,
}
use mosaic_desktop.Rollout.Reconstruction.{
  ActiveReplaySegment, ScanState, or_else, turn_ids_are_compatible, keep_segment,
  finalize_active_segment, on_user_message, on_turn_complete, on_turn_aborted, on_turn_context,
  on_turn_started, on_input, RolloutEvent, rolled_back, completed, started, aborted, user_message,
  unread, rollout_event, on_event, finalized,
}

abbrev pub base_of : Option ActiveReplaySegment → Option (List ResponseInputItem)
base_of none = none
base_of (some seg) = seg.base

-- The replacement history that the scan ends with, if it stops here.
abbrev pub found : ScanState → Option (List ResponseInputItem)
found st = or_else st.base_replacement_history (base_of st.active_segment)

-- A step that finds nothing new.
abbrev pub IsIdle : ScanState → ScanState → Type 0
IsIdle st st' =
    (st'.pending_rollback_turns ≡ st.pending_rollback_turns)
    × (found st' ≡ found st)
    × (st'.rollout_suffix ≡ st.rollout_suffix)

abbrev pub with_segment : ScanState → Option ActiveReplaySegment → ScanState
with_segment st a = record st { active_segment = a }

pub or_else-none {ℓ} : {A : Type ℓ} (o : Option A) → or_else o none ≡ o
or_else-none none = refl
or_else-none (some a) = refl

pub user_message-IsIdle :
    (st : ScanState) (a : Option ActiveReplaySegment)
    → IsIdle (with_segment st a) (on_user_message (with_segment st a))
unfolding on_user_message
user_message-IsIdle st none = (refl, refl, refl)
user_message-IsIdle st (some seg) = (refl, refl, refl)

pub turn_complete-IsIdle :
    (id : String) (st : ScanState) (a : Option ActiveReplaySegment)
    → IsIdle (with_segment st a) (on_turn_complete id (with_segment st a))
unfolding on_turn_complete
turn_complete-IsIdle id st none = (refl, refl, refl)
turn_complete-IsIdle id st (some seg) = (refl, refl, refl)

pub turn_aborted-IsIdle :
    (id : Option String) (st : ScanState) (a : Option ActiveReplaySegment)
    → IsIdle (with_segment st a) (on_turn_aborted id (with_segment st a))
unfolding on_turn_aborted
turn_aborted-IsIdle none st none = (refl, refl, refl)
turn_aborted-IsIdle (some id) st none = (refl, refl, refl)
turn_aborted-IsIdle id st (some seg) = (refl, refl, refl)

pub turn_context-IsIdle :
    (ctx : TurnContextItem) (st : ScanState) (a : Option ActiveReplaySegment)
    → IsIdle (with_segment st a) (on_turn_context ctx (with_segment st a))
unfolding on_turn_context
turn_context-IsIdle ctx st none =
    elim (Bool-cases (turn_ids_are_compatible (or_else none ctx.turn_id) ctx.turn_id)) [
      | inl same ↦ rw same (refl, refl, refl)
      | inr other ↦ rw other (refl, refl, refl)
    ]
turn_context-IsIdle ctx st (some seg) =
    elim (Bool-cases (turn_ids_are_compatible (or_else seg.turn_id ctx.turn_id) ctx.turn_id)) [
      | inl same ↦ rw same (refl, refl, refl)
      | inr other ↦ rw other (refl, refl, refl)
    ]

-- Without a rollback, finalizing a segment hands its base on.
pub finalized-IsIdle :
    (st : ScanState) (a : Option ActiveReplaySegment)
    → st.pending_rollback_turns ≡ 0
    → IsIdle (with_segment st a) (finalized a (with_segment st a))
unfolding finalize_active_segment keep_segment
finalized-IsIdle st none h = (refl, refl, refl)
finalized-IsIdle st (some seg) h =
    let none_pending : ltb 0 st.pending_rollback_turns ≡ false = ground arith in
    rw none_pending (refl, or_else-none (or_else st.base_replacement_history seg.base), refl)

pub turn_started-IsIdle :
    (id : String) (st : ScanState) (a : Option ActiveReplaySegment)
    → st.pending_rollback_turns ≡ 0
    → IsIdle (with_segment st a) (on_turn_started id (with_segment st a))
unfolding on_turn_started
turn_started-IsIdle id st none h = (refl, refl, refl)
turn_started-IsIdle id st (some seg) h =
    elim (Bool-cases (turn_ids_are_compatible seg.turn_id (some id))) [
      | inl same ↦ rw same (finalized-IsIdle st (some seg) h)
      | inr other ↦ rw other (refl, refl, refl)
    ]

pub input-IsIdle : (o : Option ResponseInputItem) (st : ScanState) → IsIdle st (on_input o st)
unfolding on_input
input-IsIdle none st = (refl, refl, refl)
input-IsIdle (some item) st = elim (Bool-cases (is_user_message item)) [
  | inl user ↦ rw user (user_message-IsIdle st st.active_segment)
  | inr other ↦ rw other (refl, refl, refl)
]

-- A marker of a rollback.
abbrev pub rolls_back : RolloutEvent → Bool
rolls_back (rolled_back n) = true
rolls_back (completed id) = false
rolls_back (started id) = false
rolls_back (aborted id) = false
rolls_back user_message = false
rolls_back unread = false

abbrev pub is_rollback : RolloutItem → Bool
is_rollback (event_msg ev) = rolls_back (rollout_event ev)
is_rollback (compacted c) = false
is_rollback (turn_context ctx) = false
is_rollback (response_item r) = false
is_rollback session_meta = false

pub event-IsIdle :
    (e : RolloutEvent) (st : ScanState)
    → rolls_back e ≡ false
    → st.pending_rollback_turns ≡ 0
    → IsIdle st (on_event e st)
unfolding on_event
event-IsIdle (rolled_back n) st h z = cc
event-IsIdle (completed id) st h z = turn_complete-IsIdle id st st.active_segment
event-IsIdle (started id) st h z = turn_started-IsIdle id st st.active_segment z
event-IsIdle (aborted id) st h z = turn_aborted-IsIdle id st st.active_segment
event-IsIdle user_message st h z = user_message-IsIdle st st.active_segment
event-IsIdle unread st h z = (refl, refl, refl)
