-- ===== src/Rollout/Tests.antt =====
-- Runs of the reconstruction of a history and of the cut of a rollout.
use mosaic_desktop.Prelude.{
  ◌++◌, drop, ◌≡◌, refl, false, none, some, [], ◌∷◌, List, String, codes, take, get_elem?, All,
  arith, ℕ,
}
use mosaic_desktop.Protocol.Items.{text_message, ContentItem}
use mosaic_desktop.Protocol.Events.{
  to_input_item, EventMsg, RolloutItem, ResponseItem, compacted, event_msg, response_item,
}
use mosaic_desktop.ContextManager.History.{tokens}
use mosaic_desktop.Rollout.Reconstruction.{
  scanned, scan, is_done, scan_item, on_item, on_event, on_turn_complete, on_input, on_compacted,
  on_turn_started, turn_ids_are_compatible, finalize_active_segment, keep_segment, on_user_message,
  rollout_event,
}
use mosaic_desktop.Rollout.Reconstruction.Forward.{
  replay, replay_start, reconstruct_history_from_rollout,
}
use mosaic_desktop.Rollout.Reconstruction.Replay.{items_of}
use mosaic_desktop.Rollout.Reconstruction.Equivalence.{reconstruct-replay}
use mosaic_desktop.Rollout.Reconstruction.Idle.{is_rollback}
use mosaic_desktop.Rollout.Truncation.{
  positions_from, step, boundary, input_boundary, event_boundary, user_message_positions,
  truncate_before_nth_user_message,
}
use mosaic_desktop.Rollout.Truncation.Prefix.{truncate_before-positions}

abbrev said : String → String → RolloutItem
said role body =
    response_item (ResponseItem.message none role (ContentItem.input_text (codes body) ∷ []) none)

-- A first turn, and a second whose compaction replaces the history.
abbrev two_turns : List RolloutItem
two_turns =
    said "user" "U1"
    ∷ said "assistant" "A1"
    ∷ event_msg (EventMsg.turn_started "t2")
    ∷ said "user" "U2"
    ∷ compacted (record {
      summary = codes "S";
      replacement_history = some (text_message "user" (codes "R") ∷ []);
    })
    ∷ said "assistant" "A2"
    ∷ event_msg (EventMsg.turn_complete "t2")
    ∷ []

two_turns-All : All (λ item. is_rollback item ≡ false) two_turns
unfolding rollout_event
two_turns-All = (refl, (refl, (refl, (refl, (refl, (refl, (refl, tt)))))))

reconstruct-replay_example :
    (reconstruct_history_from_rollout two_turns (tokens 100)).rebuilt_history
    ≡ items_of (replay (tokens 100) two_turns (replay_start none))
reconstruct-replay_example = reconstruct-replay two_turns (tokens 100) two_turns-All

-- A user message, one that is rolled back, and another.
abbrev rolled : List RolloutItem
rolled =
    said "user" "U1"
    ∷ said "assistant" "A1"
    ∷ said "user" "U2"
    ∷ event_msg (EventMsg.thread_rolled_back 1)
    ∷ said "user" "U3"
    ∷ []

rolled_positions : user_message_positions rolled ≡ 0 ∷ 4 ∷ []
unfolding user_message_positions positions_from step boundary input_boundary to_input_item
    event_boundary rollout_event
rolled_positions = refl

truncate_before-positions_example :
    (cut : ℕ) × (get_elem? (user_message_positions rolled) 1 ≡ some cut)
    × (truncate_before_nth_user_message rolled 1 ≡ some (take cut rolled))
    × (user_message_positions (take cut rolled) ≡ take 1 (user_message_positions rolled))
truncate_before-positions_example =
    truncate_before-positions rolled 1 (rw rolled_positions (omega arith)) (λ e. omega arith)

abbrev rolled_turns : List RolloutItem
rolled_turns = two_turns ++ event_msg (EventMsg.thread_rolled_back 1) ∷ []

-- The compaction of a turn that is rolled back gives no base, and still cuts what is replayed: the
-- first turn is lost.
cut_by_rolled_back_compaction :
    ((scanned rolled_turns).base_replacement_history ≡ none)
    × ((scanned rolled_turns).rollout_suffix ≡ drop 5 rolled_turns)
unfolding scanned scan is_done scan_item on_item on_event rollout_event on_turn_complete on_input
    to_input_item on_compacted on_turn_started turn_ids_are_compatible finalize_active_segment
    on_user_message keep_segment
cut_by_rolled_back_compaction = (refl, refl)
