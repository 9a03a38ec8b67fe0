-- ===== src/ThreadHistory/Tests.antt =====
-- Runs of the builder, and its theorems at concrete rollouts.
use mosaic_desktop.Prelude.{
  Option, ℕ, ◌+◌, ◌-◌, ◌≡◌, ◌≢◌, refl, true, false, none, some, List, [], ◌∷◌, ◌++◌, map, String,
  str_eq, eq_iff, codes, All, Any, length, take, if◌then◌else◌,
}
use mosaic_desktop.Protocol.Items.{Utf8, ContentItem}
use mosaic_desktop.EventMapping.{is_contextual_text, is_contextual_user_message}
use mosaic_desktop.ThreadHistory.{TurnGroup, next_item_id, on_ensured}
use mosaic_desktop.ThreadHistory.Events.{
  push_numbered, handle_agent_message, close_implicit_turn, closes,
}
use mosaic_desktop.ThreadHistory.Responses.{
  build_turn_groups_from_rollout_items, handle_response_item, handle_message, handle_user,
  user_inputs, skill_of, push_user,
}
use mosaic_desktop.Protocol.Events.{ResponseItem, response_item}
use mosaic_desktop.Protocol.Utf8.{
  trim_start, trim_end, trim_from, eq_ignore_ascii_case, ascii_lowercase, strip_prefix, find, slice,
  decimal, digits,
}
use mosaic_desktop.Protocol.TurnItems.{id_of}
use mosaic_desktop.Protocol.Events.{
  EventMsg, McpInvocation, McpToolCallEndEvent, RolloutItem, event_msg,
}
use mosaic_desktop.Rollout.Reconstruction.{rollout_event}
use mosaic_desktop.Rollout.Reconstruction.Idle.{is_rollback}
use mosaic_desktop.ThreadHistory.{
  ThreadHistoryBuilder, new, finish, finish_current_turn, handle_turn_started, handle_turn_complete,
  handle_thread_rollback, count_items, upsert_item_in_current_turn,
}
use mosaic_desktop.ThreadHistory.Items.{mcp_begin_item, mcp_end_item}
use mosaic_desktop.ThreadHistory.Events.{handle_event}
use mosaic_desktop.ThreadHistory.Responses.{handle_all, handle_rollout_item, text_input}
use mosaic_desktop.ThreadHistory.Evolution.{ids}
use mosaic_desktop.ThreadHistory.Lifecycle.{IsSettled, turn-completes}
use mosaic_desktop.ThreadHistory.Prefix.{handle_all-prefix, rollback-finish}
use mosaic_desktop.ThreadHistory.Upserts.{has_id, current_items, upsert_current-upsert_current}

abbrev uuid : ℕ → String
uuid n = "uuid"

uuid-fresh : (n : ℕ) → uuid n ≢ "t1"
uuid-fresh n e = let same : str_eq "uuid" "t1" ≡ true = (eq_iff "uuid" "t1").1 e in cc

-- A message, and the start of another turn before the first completes.
abbrev between : List RolloutItem
between =
    event_msg (EventMsg.agent_message (codes "hi") none)
    ∷ event_msg (EventMsg.turn_started "t2")
    ∷ []

between-All : All (λ item. is_rollback item ≡ false) between
unfolding rollout_event
between-All = (refl, (refl, tt))

abbrev after : ThreadHistoryBuilder → ThreadHistoryBuilder
after b =
    handle_event uuid (EventMsg.turn_started "t2")
      (handle_event uuid (EventMsg.agent_message (codes "hi") none) b)

between-after : (b : ThreadHistoryBuilder) → handle_all uuid between b ≡ some (after b)
unfolding handle_all handle_rollout_item
between-after b = refl

turn-completes_example :
    Any (IsSettled "t1") (finish (handle_turn_complete "t1" (after (handle_turn_started "t1" new))))
turn-completes_example =
    turn-completes uuid "t1" between new (after (handle_turn_started "t1" new)) uuid-fresh
      between-All (between-after (handle_turn_started "t1" new))

abbrev one_turn : ThreadHistoryBuilder
one_turn = finish_current_turn (handle_turn_started "t1" new)

handle_all-prefix_example :
    (more : List String) × (ids (after one_turn).turns ≡ ids one_turn.turns ++ more)
handle_all-prefix_example =
    handle_all-prefix uuid between one_turn (after one_turn) between-All (between-after one_turn)

rollback-finish_example :
    (finish (handle_thread_rollback 1 (after one_turn))
      ≡ take (length (finish (after one_turn)) - 1) (finish (after one_turn)))
    × ((handle_thread_rollback 1 (after one_turn)).next_item_index
        ≡ count_items (take (length (finish (after one_turn)) - 1) (finish (after one_turn))) + 1)
rollback-finish_example = rollback-finish 1 (after one_turn)

abbrev tool : McpInvocation
tool = record { server = "fs"; tool = "read"; arguments = none }

abbrev ended : McpToolCallEndEvent
ended = record { call_id = codes "c1"; invocation = tool; duration = 5; failure = some "gone" }

same-call : id_of (mcp_begin_item (codes "c1") tool) ≡ id_of (mcp_end_item ended)
unfolding mcp_begin_item mcp_end_item
same-call = refl

upsert_current-upsert_current_example :
    (upsert_item_in_current_turn uuid
        (mcp_end_item ended)
        (upsert_item_in_current_turn uuid (mcp_begin_item (codes "c1") tool) one_turn)
      ≡ upsert_item_in_current_turn uuid (mcp_end_item ended) one_turn)
    × (map id_of (
          current_items
            (upsert_item_in_current_turn uuid (mcp_end_item ended) one_turn).current_turn)
        ≡ (if has_id (id_of (mcp_end_item ended)) (current_items one_turn.current_turn)
            then map id_of (current_items one_turn.current_turn)
            else map id_of (current_items one_turn.current_turn)
              ++ id_of (mcp_end_item ended) ∷ []))
unfolding finish_current_turn
upsert_current-upsert_current_example =
    upsert_current-upsert_current uuid (mcp_begin_item (codes "c1") tool) (mcp_end_item ended)
      one_turn same-call

-- A serialized attachment whose path is cut off makes the handler panic.
panics : text_input (codes "[attached_file:a](") ≡ none
unfolding text_input strip_prefix find slice
panics = refl

-- The numbers of the items.
numbered : (decimal 7 ≡ codes "7") × (decimal 1203 ≡ codes "1203")
unfolding decimal digits
numbered = (refl, refl)

abbrev message : String → List ContentItem → RolloutItem
message role content = response_item (ResponseItem.message none role content none)

-- The identifiers of the items of all turns.
abbrev item_ids : Option (List TurnGroup) → List (List Utf8)
item_ids none = []
item_ids (some turns) = map (λ t. map id_of t.items) turns

-- A user message without contents uses a number up, so that after a rollback of no turn the number of
-- an item is given out again.
repeated :
    item_ids (
      build_turn_groups_from_rollout_items uuid (
        message "user" []
        ∷ message "user" (ContentItem.input_text (codes "a") ∷ [])
        ∷ event_msg (EventMsg.thread_rolled_back 0)
        ∷ event_msg (EventMsg.agent_message (codes "b") none)
        ∷ []))
    ≡ (codes "item-2" ∷ []) ∷ (codes "item-2" ∷ []) ∷ []
unfolding build_turn_groups_from_rollout_items handle_all handle_rollout_item handle_event
    handle_agent_message push_numbered next_item_id decimal digits on_ensured handle_thread_rollback
    finish finish_current_turn handle_response_item handle_message handle_user user_inputs
    text_input strip_prefix skill_of push_user is_contextual_user_message is_contextual_text
    close_implicit_turn closes trim_start trim_end trim_from eq_ignore_ascii_case ascii_lowercase
repeated = refl
