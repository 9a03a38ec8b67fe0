-- ===== src/Rollout/Reconstruction/Forward.antt =====
-- src-tauri/src/core/rollout/reconstruction.rs: the forward replay behind the checkpoint that the
-- reverse scan has found.
use mosaic_desktop.Prelude.{
  ℕ, ◌-◌, ◌/◌, Bool, true, false, Option, none, some, List, [], ◌∷◌, ◌++◌, map, str_eq, codes,
  length, leb, if◌then◌else◌,
}
use mosaic_desktop.Protocol.Utf8.{is_empty}
use mosaic_desktop.Protocol.Items.{
  Utf8, ContentItem, ResponseInputItem, text_message, TokenUsageInfo, TurnContextItem,
}
use mosaic_desktop.Protocol.Events.{
  to_input_item, RolloutItem, session_meta, event_msg, compacted, turn_context, response_item,
}
use mosaic_desktop.ContextManager.History
use mosaic_desktop.ContextManager.History.{
  ContextManager, ItemTruncationPolicy, record_items_with_policy, replace, drop_last_n_user_turns,
}
use mosaic_desktop.Rollout.Reconstruction.{
  PreviousTurnSettings, TurnReferenceContextItem, RolloutEvent, rollout_event, reverse, scanned,
  rolled_back, completed, started, aborted, user_message, unread, never_set, cleared, latest,
}

-- The texts of user messages: of each the first text of its content.
unfoldable pub first_text : List ContentItem → Option Utf8
first_text [] = none
first_text (ContentItem.input_text t ∷ cs) = some t
first_text (ContentItem.output_text t ∷ cs) = some t
first_text (ContentItem.input_image url ∷ cs) = first_text cs

abbrev pub user_text : ResponseInputItem → Option Utf8
user_text (ResponseInputItem.message role content) =
    if str_eq role "user" then first_text content else none
user_text (ResponseInputItem.function_call id name arguments) = none
user_text (ResponseInputItem.function_call_output id output) = none
user_text (ResponseInputItem.mcp_tool_call_output id result) = none
user_text (ResponseInputItem.custom_tool_call_output id output) = none

unfoldable pub user_messages : List ResponseInputItem → List Utf8
user_messages [] = []
user_messages (item ∷ items) = elim (user_text item) [
  | none ↦ user_messages items
  | some t ↦ t ∷ user_messages items
]

-- The loop over the newest messages, within a budget of tokens.
unfoldable pub select : ℕ → List Utf8 → List Utf8
select remaining_tokens [] = []
select remaining_tokens (msg ∷ msgs) =
    let rest = select (remaining_tokens - length msg / 4) msgs in
    if leb (length msg / 4) remaining_tokens then msg ∷ rest else []

unfoldable pub summary_text : Utf8 → Utf8
summary_text s =
    if is_empty s
    then codes "(no summary available)"
    else codes "[Previous conversation summary]\n" ++ s

unfoldable pub rebuilt : List ResponseInputItem → Utf8 → List ResponseInputItem
rebuilt items s =
    map (text_message "user") (reverse (select 1000 (reverse (user_messages items))))
    ++ text_message "user" (summary_text s) ∷ []

-- The history of the forward replay, and whether it has seen a compaction without a replacement.
pub record ReplayState : Type 0 where
  pub history : ContextManager
  pub saw_legacy_compaction : Bool

unfoldable pub replay_compacted : Option (List ResponseInputItem) → Utf8 → ReplayState → ReplayState
replay_compacted (some replacement) s r = record r { history = replace r.history replacement }
replay_compacted none s r = record {
  history = replace r.history (rebuilt r.history.items s);
  saw_legacy_compaction = true;
}

unfoldable pub replay_input :
    ItemTruncationPolicy → Option ResponseInputItem → ReplayState → ReplayState
replay_input policy none r = r
replay_input policy (some input) r = record r {
  history = record_items_with_policy r.history (input ∷ []) policy;
}

unfoldable pub replay_event : RolloutEvent → ReplayState → ReplayState
replay_event (rolled_back n) r = record r { history = drop_last_n_user_turns r.history n }
replay_event (completed id) r = r
replay_event (started id) r = r
replay_event (aborted id) r = r
replay_event user_message r = r
replay_event unread r = r

unfoldable pub replay_item : ItemTruncationPolicy → RolloutItem → ReplayState → ReplayState
replay_item policy (response_item item) r = replay_input policy (to_input_item item) r
replay_item policy (compacted c) r = replay_compacted c.replacement_history c.summary r
replay_item policy (event_msg ev) r = replay_event (rollout_event ev) r
replay_item policy (turn_context ctx) r = r
replay_item policy session_meta r = r

unfoldable pub replay : ItemTruncationPolicy → List RolloutItem → ReplayState → ReplayState
replay policy [] r = r
replay policy (item ∷ items) r = replay policy items (replay_item policy item r)

-- The history that the forward replay begins with.
abbrev pub replay_start : Option (List ResponseInputItem) → ReplayState
replay_start none = record { history = History.new; saw_legacy_compaction = false }
replay_start (some base) = record {
  history = replace History.new base;
  saw_legacy_compaction = false;
}

pub record RolloutReconstruction : Type 0 where
  pub rebuilt_history : List ResponseInputItem
  pub turn_settings : Option PreviousTurnSettings
  pub reference_item : Option TurnContextItem
  pub token_info : Option TokenUsageInfo

abbrev pub resolved : TurnReferenceContextItem → Option TurnContextItem
resolved never_set = none
resolved cleared = none
resolved (latest ctx) = some ctx

unfoldable pub reconstruct_history_from_rollout :
    List RolloutItem → ItemTruncationPolicy → RolloutReconstruction
reconstruct_history_from_rollout rollout_items policy =
    let st = scanned rollout_items in
    let r = replay policy st.rollout_suffix (replay_start st.base_replacement_history) in
    record {
      rebuilt_history = r.history.items;
      turn_settings = st.previous_turn_settings;
      reference_item = if r.saw_legacy_compaction then none else resolved st.reference_context_item;
      token_info = st.last_token_info;
    }
