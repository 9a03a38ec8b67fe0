-- ===== src/Rollout/Reconstruction.antt =====
-- src-tauri/src/core/rollout/reconstruction.rs: the history of a session from its rollout, by a
-- reverse scan for the newest checkpoint, here, and a forward replay behind it, in Forward.
pub mod Forward
pub mod Replay
pub mod Idle
pub mod Scan
pub mod Equivalence
use mosaic_desktop.Prelude.{
  ℕ, ◌+◌, ◌-◌, ◌/◌, ◌<◌, Bool, true, false, ◌&&◌, ◌||◌, not, Option, none, some, List, [], ◌∷◌,
  ◌++◌, map, String, str_eq, codes, length, ltb, leb, ◌==◌, if◌then◌else◌, usize_max,
  saturating_add,
}
use mosaic_desktop.Protocol.Utf8.{is_empty}
use mosaic_desktop.Protocol.Items.{
  Utf8, ContentItem, ResponseInputItem, text_message, is_user_message, TokenUsageInfo,
  TurnContextItem,
}
use mosaic_desktop.Protocol.Events.{
  EventMsg, ResponseItem, to_input_item, CompactedItem, RolloutItem, session_meta, event_msg,
  compacted, turn_context, response_item,
}
use mosaic_desktop.ContextManager.History
use mosaic_desktop.ContextManager.History.{
  ContextManager, ItemTruncationPolicy, record_items_with_policy, replace, drop_last_n_user_turns,
}

pub record PreviousTurnSettings : Type 0 where
  pub model : String
  pub realtime_active : Option Bool

pub data TurnReferenceContextItem : Type 0 where
  never_set cleared : TurnReferenceContextItem
  latest : TurnContextItem → TurnReferenceContextItem

pub record ActiveReplaySegment : Type 0 where
  pub turn_id : Option String
  pub counts_as_user_turn : Bool
  pub settings : Option PreviousTurnSettings
  pub reference : TurnReferenceContextItem
  pub base : Option (List ResponseInputItem)

-- `ActiveReplaySegment::default()`
abbrev pub default_segment : ActiveReplaySegment
default_segment = record {
  turn_id = none;
  counts_as_user_turn = false;
  settings = none;
  reference = never_set;
  base = none;
}

-- The variables of the reverse scan.
pub record ScanState : Type 0 where
  pub base_replacement_history : Option (List ResponseInputItem)
  pub previous_turn_settings : Option PreviousTurnSettings
  pub reference_context_item : TurnReferenceContextItem
  pub pending_rollback_turns : ℕ
  pub rollout_suffix : List RolloutItem
  pub active_segment : Option ActiveReplaySegment
  pub last_token_info : Option TokenUsageInfo

abbrev pub start : List RolloutItem → ScanState
start rollout_items = record {
  base_replacement_history = none;
  previous_turn_settings = none;
  reference_context_item = never_set;
  pending_rollback_turns = 0;
  rollout_suffix = rollout_items;
  active_segment = none;
  last_token_info = none;
}

abbrev pub is_none {ℓ} : {A : Type ℓ} → Option A → Bool
is_none none = true
is_none (some a) = false

-- `a` where it is set, and `b` otherwise.
abbrev pub or_else {ℓ} : {A : Type ℓ} → Option A → Option A → Option A
or_else none b = b
or_else (some a) b = some a

abbrev pub is_never_set : TurnReferenceContextItem → Bool
is_never_set never_set = true
is_never_set cleared = false
is_never_set (latest c) = false

abbrev pub is_cleared : TurnReferenceContextItem → Bool
is_cleared never_set = false
is_cleared cleared = true
is_cleared (latest c) = false

unfoldable pub turn_ids_are_compatible : Option String → Option String → Bool
turn_ids_are_compatible (some a) (some b) = str_eq a b
turn_ids_are_compatible none item = true
turn_ids_are_compatible (some a) none = true

-- The part of `finalize_active_segment` for a segment that no rollback takes back.
unfoldable pub keep_segment : ActiveReplaySegment → ScanState → ScanState
keep_segment seg st = record st {
  base_replacement_history = or_else st.base_replacement_history seg.base;
  previous_turn_settings =
      if is_none st.previous_turn_settings && seg.counts_as_user_turn
      then seg.settings
      else st.previous_turn_settings;
  reference_context_item =
      if is_never_set st.reference_context_item
        && (seg.counts_as_user_turn || is_cleared seg.reference)
      then seg.reference
      else st.reference_context_item;
}

unfoldable pub finalize_active_segment : ActiveReplaySegment → ScanState → ScanState
finalize_active_segment seg st =
    if ltb 0 st.pending_rollback_turns
    then record st {
      pending_rollback_turns =
          if seg.counts_as_user_turn
          then st.pending_rollback_turns - 1
          else st.pending_rollback_turns;
    }
    else keep_segment seg st

-- `active_segment.get_or_insert_with(ActiveReplaySegment::default)`
abbrev pub segment_of : ScanState → ActiveReplaySegment
segment_of st = elim (st.active_segment) [ none ↦ default_segment | some seg ↦ seg ]

abbrev pub set_segment : ScanState → ActiveReplaySegment → ScanState
set_segment st seg = record st { active_segment = some seg }

-- The branch of a compaction marker, with the items behind it.
unfoldable pub on_compacted : CompactedItem → List RolloutItem → ScanState → ScanState
on_compacted c behind st =
    let seg = segment_of st in
    let cleared_seg = record seg {
      reference = if is_never_set seg.reference then cleared else seg.reference;
    } in
    let found = is_none seg.base && not (is_none c.replacement_history) in
    record st {
      active_segment = some (record cleared_seg { base = or_else seg.base c.replacement_history });
      rollout_suffix = if found then behind else st.rollout_suffix;
    }

unfoldable pub on_user_message : ScanState → ScanState
on_user_message st = set_segment st (record (segment_of st) { counts_as_user_turn = true })

unfoldable pub on_turn_complete : String → ScanState → ScanState
on_turn_complete id st =
    let seg = segment_of st in
    set_segment st (record seg { turn_id = or_else seg.turn_id (some id) })

-- Without a segment, an abort opens one only for a turn that it names.
abbrev pub aborted_segment : Option ActiveReplaySegment → Option String → Option ActiveReplaySegment
aborted_segment (some seg) id = some (record seg { turn_id = or_else seg.turn_id id })
aborted_segment none none = none
aborted_segment none (some id) = some (record default_segment { turn_id = some id })

unfoldable pub on_turn_aborted : Option String → ScanState → ScanState
on_turn_aborted id st = record st { active_segment = aborted_segment st.active_segment id }

unfoldable pub on_turn_context : TurnContextItem → ScanState → ScanState
on_turn_context ctx st =
    let old = segment_of st in
    let seg = record old { turn_id = or_else old.turn_id ctx.turn_id } in
    set_segment st (
      if turn_ids_are_compatible seg.turn_id ctx.turn_id
      then record seg {
        settings = some (record { model = ctx.model; realtime_active = ctx.realtime_active });
        reference = if is_never_set seg.reference then latest ctx else seg.reference;
      }
      else seg)

-- `active_segment.take()`, where the turn that starts is the segment's.
abbrev pub start_turn : ScanState → String → Option ActiveReplaySegment → ScanState
start_turn st id none = st
start_turn st id (some seg) =
    if turn_ids_are_compatible seg.turn_id (some id)
    then finalize_active_segment seg (record st { active_segment = none })
    else st

unfoldable pub on_turn_started : String → ScanState → ScanState
on_turn_started id st = start_turn st id st.active_segment

unfoldable pub on_input : Option ResponseInputItem → ScanState → ScanState
on_input none st = st
on_input (some item) st = if is_user_message item then on_user_message st else st

-- The events that the two passes tell apart; `unread` stands for the others.
pub data RolloutEvent : Type 0 where
  rolled_back : ℕ → RolloutEvent
  completed started : String → RolloutEvent
  aborted : Option String → RolloutEvent
  user_message unread : RolloutEvent

unfoldable pub rollout_event : EventMsg → RolloutEvent
rollout_event (EventMsg.thread_rolled_back n) = rolled_back n
rollout_event (EventMsg.turn_complete id) = completed id
rollout_event (EventMsg.turn_started id) = started id
rollout_event (EventMsg.turn_aborted id) = aborted id
rollout_event (EventMsg.user_message p) = user_message
rollout_event _ = unread

unfoldable pub on_event : RolloutEvent → ScanState → ScanState
on_event (rolled_back n) st = record st {
  pending_rollback_turns = saturating_add st.pending_rollback_turns n;
}
on_event (completed id) st = on_turn_complete id st
on_event (started id) st = on_turn_started id st
on_event (aborted id) st = on_turn_aborted id st
on_event user_message st = on_user_message st
on_event unread st = st

abbrev pub token_info_of : RolloutItem → Option TokenUsageInfo
token_info_of (event_msg (EventMsg.token_count info)) = info
token_info_of _ = none

-- The `match` of the reverse scan, on an item and the items behind it.
unfoldable pub on_item : RolloutItem → List RolloutItem → ScanState → ScanState
on_item (compacted c) behind st = on_compacted c behind st
on_item (event_msg ev) behind st = on_event (rollout_event ev) st
on_item (response_item r) behind st = on_input (to_input_item r) st
on_item (turn_context ctx) behind st = on_turn_context ctx st
on_item session_meta behind st = st

-- One turn of the loop of the reverse scan.
unfoldable pub scan_item : RolloutItem → List RolloutItem → ScanState → ScanState
scan_item item behind st =
    on_item item behind
      (record st { last_token_info = or_else st.last_token_info (token_info_of item) })

unfoldable pub is_done : ScanState → Bool
is_done st =
    not (is_none st.base_replacement_history)
    && not (is_none st.previous_turn_settings)
    && not (is_never_set st.reference_context_item)

-- The reverse scan: the items still to visit, newest first, and those behind them.
unfoldable pub scan : List RolloutItem → List RolloutItem → ScanState → ScanState
scan [] behind st = st
scan (item ∷ rest) behind st =
    let st' = scan_item item behind st in
    let go_on = scan rest (item ∷ behind) st' in if is_done st' then st' else go_on

abbrev pub finalized : Option ActiveReplaySegment → ScanState → ScanState
finalized none st = st
finalized (some seg) st = finalize_active_segment seg (record st { active_segment = none })

abbrev pub reverse_onto {ℓ} : {A : Type ℓ} → List A → List A → List A
reverse_onto [] ys = ys
reverse_onto (x ∷ xs) ys = reverse_onto xs (x ∷ ys)

abbrev pub reverse {ℓ} : {A : Type ℓ} → List A → List A
reverse xs = reverse_onto xs []

unfoldable pub scanned : List RolloutItem → ScanState
scanned rollout_items =
    let st = scan (reverse rollout_items) [] (start rollout_items) in finalized st.active_segment st
