-- ===== src/Rollout/Truncation.antt =====
-- src-tauri/src/core/rollout/truncation.rs: a rollout cut before its n-th user message.
pub mod Prefix
use mosaic_desktop.Prelude.{
  ℕ, suc, ◌-◌, Bool, true, false, Option, none, some, List, [], ◌∷◌, ◌++◌, length, take, get_elem?,
  leb, ◌==◌, if◌then◌else◌, usize_max,
}
use mosaic_desktop.Protocol.Items.{ResponseInputItem, is_user_message}
use mosaic_desktop.Protocol.Events.{
  to_input_item, RolloutItem, session_meta, event_msg, compacted, turn_context, response_item,
}
use mosaic_desktop.Rollout.Reconstruction.{
  RolloutEvent, rolled_back, completed, started, aborted, user_message, unread, rollout_event,
}

-- What an item does to the positions.
pub data Boundary : Type 0 where
  pushes passes : Boundary
  drops : ℕ → Boundary

unfoldable pub input_boundary : Option ResponseInputItem → Boundary
input_boundary none = passes
input_boundary (some item) = if is_user_message item then pushes else passes

unfoldable pub event_boundary : RolloutEvent → Boundary
event_boundary (rolled_back n) = drops n
event_boundary user_message = pushes
event_boundary (completed id) = passes
event_boundary (started id) = passes
event_boundary (aborted id) = passes
event_boundary unread = passes

unfoldable pub boundary : RolloutItem → Boundary
boundary (response_item r) = input_boundary (to_input_item r)
boundary (event_msg ev) = event_boundary (rollout_event ev)
boundary (compacted c) = passes
boundary (turn_context ctx) = passes
boundary session_meta = passes

unfoldable pub step : Boundary → ℕ → List ℕ → List ℕ
step pushes idx positions = positions ++ idx ∷ []
step passes idx positions = positions
step (drops n) idx positions = take (length positions - n) positions

-- The loop, from the index of the first item.
unfoldable pub positions_from : ℕ → List ℕ → List RolloutItem → List ℕ
positions_from idx positions [] = positions
positions_from idx positions (item ∷ items) =
    positions_from (suc idx) (step (boundary item) idx positions) items

unfoldable pub user_message_positions : List RolloutItem → List ℕ
user_message_positions items = positions_from 0 [] items

-- `items[..cut_idx].to_vec()`, which panics past the end.
abbrev pub before {ℓ} : {A : Type ℓ} → List A → ℕ → Option (List A)
before items cut_idx = if leb cut_idx (length items) then some (take cut_idx items) else none

-- The cut at the position that was read.
abbrev pub cut_at {ℓ} : {A : Type ℓ} → List A → Option ℕ → Option (List A)
cut_at items none = none
cut_at items (some cut_idx) = before items cut_idx

unfoldable pub truncate_before_nth_user_message : List RolloutItem → ℕ → Option (List RolloutItem)
truncate_before_nth_user_message items n_from_start =
    let positions = user_message_positions items in
    if n_from_start == usize_max
    then some items
    else if leb (length positions) n_from_start
    then some []
    else cut_at items (get_elem? positions n_from_start)
