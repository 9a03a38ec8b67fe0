-- ===== src/Rollout/Reconstruction/Replay.antt =====
-- The forward replay of src-tauri/src/core/rollout/reconstruction.rs on states with the same items.
use mosaic_desktop.Prelude.{◌≡◌, refl, ap, Option, none, some, List, [], ◌∷◌, ◌++◌}
use mosaic_desktop.Protocol.Items.{Utf8, ResponseInputItem}
use mosaic_desktop.Protocol.Events.{
  to_input_item, RolloutItem, session_meta, event_msg, compacted, turn_context, response_item,
}
use mosaic_desktop.ContextManager.History.{
  ItemTruncationPolicy, record_items_with_policy, replace, drop_last_n_user_turns,
}
use mosaic_desktop.Rollout.Reconstruction.{
  RolloutEvent, rolled_back, completed, started, aborted, user_message, unread, rollout_event,
}
use mosaic_desktop.Rollout.Reconstruction.Forward.{
  ReplayState, replay_compacted, replay_input, replay_event, replay_item, replay, rebuilt,
}

abbrev pub items_of : ReplayState → List ResponseInputItem
items_of r = r.history.items

input-items :
    (policy : ItemTruncationPolicy) (o : Option ResponseInputItem) (r r' : ReplayState)
    → items_of r ≡ items_of r'
    → items_of (replay_input policy o r) ≡ items_of (replay_input policy o r')
unfolding replay_input record_items_with_policy
input-items policy none r r' h = h
input-items policy (some input) r r' h = rw h refl

compacted-items :
    (o : Option (List ResponseInputItem)) (s : Utf8) (r r' : ReplayState)
    → items_of r ≡ items_of r'
    → items_of (replay_compacted o s r) ≡ items_of (replay_compacted o s r')
unfolding replay_compacted replace
compacted-items (some replacement) s r r' h = refl
compacted-items none s r r' h = ap (λ items. rebuilt items s) h

event-items :
    (e : RolloutEvent) (r r' : ReplayState)
    → items_of r ≡ items_of r'
    → items_of (replay_event e r) ≡ items_of (replay_event e r')
unfolding replay_event drop_last_n_user_turns
event-items (rolled_back n) r r' h = rw h refl
event-items (completed id) r r' h = h
event-items (started id) r r' h = h
event-items (aborted id) r r' h = h
event-items user_message r r' h = h
event-items unread r r' h = h

item-items :
    (policy : ItemTruncationPolicy) (item : RolloutItem) (r r' : ReplayState)
    → items_of r ≡ items_of r'
    → items_of (replay_item policy item r) ≡ items_of (replay_item policy item r')
unfolding replay_item
item-items policy (response_item i) r r' h = input-items policy (to_input_item i) r r' h
item-items policy (compacted c) r r' h = compacted-items c.replacement_history c.summary r r' h
item-items policy (event_msg ev) r r' h = event-items (rollout_event ev) r r' h
item-items policy (turn_context ctx) r r' h = h
item-items policy session_meta r r' h = h

pub replay-items :
    (policy : ItemTruncationPolicy) (xs : List RolloutItem) (r r' : ReplayState)
    → items_of r ≡ items_of r'
    → items_of (replay policy xs r) ≡ items_of (replay policy xs r')
unfolding replay
replay-items policy [] r r' h = h
replay-items policy (x ∷ xs) r r' h = replay-items policy xs _ _ (item-items policy x r r' h)

pub replay-append :
    (policy : ItemTruncationPolicy) (xs ys : List RolloutItem) (r : ReplayState)
    → replay policy (xs ++ ys) r ≡ replay policy ys (replay policy xs r)
unfolding replay
replay-append policy [] ys r = refl
replay-append policy (x ∷ xs) ys r = replay-append policy xs ys (replay_item policy x r)
