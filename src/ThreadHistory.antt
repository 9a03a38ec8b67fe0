-- ===== src/ThreadHistory.antt =====
-- src-tauri/src/core/thread_history.rs: the turns of a thread, built from its rollout. This file has
-- the state of the builder, its helpers and the life of a turn.
pub mod Collab
pub mod Items
pub mod Events
pub mod Responses
pub mod Evolution
pub mod Handlers
pub mod Rollouts
pub mod Lifecycle
pub mod Prefix
pub mod Upserts
mod Tests
use mosaic_desktop.Prelude.{
  ℕ, suc, ◌+◌, ◌-◌, Bool, true, false, ◌&&◌, ◌||◌, not, Option, none, some, List, [], ◌∷◌, ◌++◌,
  String, str_eq, codes, length, take, leb, if◌then◌else◌, text_eq,
}
use mosaic_desktop.Protocol.Items.{Utf8}
use mosaic_desktop.Protocol.Utf8.{is_empty, decimal}
use mosaic_desktop.Protocol.TurnItems.{TurnItem, ReasoningItem, id_of}
use mosaic_desktop.Protocol.Events.{CodexErrorInfo, affects_turn_status, ErrorEvent}

pub data TurnStatus : Type 0 where
  completed interrupted failed in_progress dismissed : TurnStatus

pub record TurnError : Type 0 where
  pub message : String
  pub error_info : Option CodexErrorInfo

pub record TurnGroup : Type 0 where
  pub turn_id : String
  pub items : List TurnItem
  pub status : TurnStatus
  pub error : Option TurnError

pub record PendingTurn : Type 0 where
  pub id : String
  pub items : List TurnItem
  pub status : TurnStatus
  pub error : Option TurnError
  pub opened_explicitly : Bool
  pub saw_compaction : Bool

-- With the number of UUIDs drawn so far.
pub record ThreadHistoryBuilder : Type 0 where
  pub turns : List TurnGroup
  pub current_turn : Option PendingTurn
  pub next_item_index : ℕ
  pub drawn : ℕ

abbrev pub new : ThreadHistoryBuilder
new = record { turns = []; current_turn = none; next_item_index = 1; drawn = 0 }

abbrev pub group_of : PendingTurn → TurnGroup
group_of t = record { turn_id = t.id; items = t.items; status = t.status; error = t.error }

abbrev pub pushed : Option PendingTurn → List TurnGroup → List TurnGroup
pushed none turns = turns
pushed (some t) turns =
    if is_empty t.items && not t.opened_explicitly && not t.saw_compaction
    then turns
    else turns ++ group_of t ∷ []

unfoldable pub finish_current_turn : ThreadHistoryBuilder → ThreadHistoryBuilder
finish_current_turn b = record b { turns = pushed b.current_turn b.turns; current_turn = none }

unfoldable pub finish : ThreadHistoryBuilder → List TurnGroup
finish b = (finish_current_turn b).turns

unfoldable pub next_item_id : ThreadHistoryBuilder → Utf8
next_item_id b = codes "item-" ++ decimal b.next_item_index

-- The builder behind a call of `next_item_id`.
abbrev pub counted : ThreadHistoryBuilder → ThreadHistoryBuilder
counted b = record b { next_item_index = suc b.next_item_index }

-- Finished turns, found by their identifier: the first of them.
unfoldable pub has_turn : String → List TurnGroup → Bool
has_turn id [] = false
has_turn id (t ∷ ts) = str_eq t.turn_id id || has_turn id ts

unfoldable pub update_turn : String → (TurnGroup → TurnGroup) → List TurnGroup → List TurnGroup
update_turn id f [] = []
update_turn id f (t ∷ ts) =
    let rest = update_turn id f ts in if str_eq t.turn_id id then f t ∷ ts else t ∷ rest

abbrev pub is_current : String → Option PendingTurn → Bool
is_current id none = false
is_current id (some t) = str_eq t.id id

abbrev pub on_pending : (PendingTurn → PendingTurn) → Option PendingTurn → Option PendingTurn
on_pending f none = none
on_pending f (some t) = some (f t)

-- A change of the current turn, where there is one.
abbrev pub on_current : (PendingTurn → PendingTurn) → ThreadHistoryBuilder → ThreadHistoryBuilder
on_current f b = record b { current_turn = on_pending f b.current_turn }

abbrev pub on_turn : String → (TurnGroup → TurnGroup) → ThreadHistoryBuilder → ThreadHistoryBuilder
on_turn id f b = record b { turns = update_turn id f b.turns }

unfoldable pub handle_turn_started : String → ThreadHistoryBuilder → ThreadHistoryBuilder
handle_turn_started id b = record (finish_current_turn b) {
  current_turn = some (record {
    id = id;
    items = [];
    status = in_progress;
    error = none;
    opened_explicitly = true;
    saw_compaction = false;
  });
}

-- `mark`
abbrev pub mark : TurnStatus → TurnStatus
mark completed = completed
mark in_progress = completed
mark interrupted = interrupted
mark failed = failed
mark dismissed = dismissed

abbrev pub mark_turn : TurnGroup → TurnGroup
mark_turn t = record t { status = mark t.status }

abbrev pub mark_pending : PendingTurn → PendingTurn
mark_pending t = record t { status = mark t.status }

unfoldable pub handle_turn_complete : String → ThreadHistoryBuilder → ThreadHistoryBuilder
handle_turn_complete id b =
    if is_current id b.current_turn
    then finish_current_turn (on_current mark_pending b)
    else if has_turn id b.turns
    then on_turn id mark_turn b
    else finish_current_turn (on_current mark_pending b)

abbrev pub interrupt : PendingTurn → PendingTurn
interrupt t = record t { status = interrupted }

unfoldable pub handle_turn_aborted : Option String → ThreadHistoryBuilder → ThreadHistoryBuilder
handle_turn_aborted none b = on_current interrupt b
handle_turn_aborted (some id) b =
    if is_current id b.current_turn
    then on_current interrupt b
    else if has_turn id b.turns
    then on_turn id (λ t. record t { status = interrupted }) b
    else on_current interrupt b

abbrev fails : Option CodexErrorInfo → Bool
fails none = true
fails (some info) = affects_turn_status info

unfoldable pub handle_error : ErrorEvent → ThreadHistoryBuilder → ThreadHistoryBuilder
handle_error p b =
    if fails p.codex_error_info
    then on_current
        (λ t. record t {
          status = failed;
          error = some (record { message = p.error_message; error_info = p.codex_error_info });
        })
        b
    else b

abbrev pub count_items : List TurnGroup → ℕ
count_items [] = 0
count_items (t ∷ ts) = length t.items + count_items ts

-- `truncate`, or `clear`.
abbrev pub without_last : ℕ → List TurnGroup → List TurnGroup
without_last n turns = if leb (length turns) n then [] else take (length turns - n) turns

unfoldable pub handle_thread_rollback : ℕ → ThreadHistoryBuilder → ThreadHistoryBuilder
handle_thread_rollback n b =
    let kept = without_last n (finish b) in
    record (finish_current_turn b) { turns = kept; next_item_index = count_items kept + 1 }

-- `upsert_turn_item`: the first item with the identifier is replaced.
unfoldable pub upsert_turn_item : List TurnItem → TurnItem → List TurnItem
upsert_turn_item [] item = item ∷ []
upsert_turn_item (x ∷ xs) item =
    let rest = upsert_turn_item xs item in
    if text_eq (id_of x) (id_of item) then item ∷ xs else x ∷ rest

-- The last item of a turn, where it is a reasoning, with more texts.
abbrev merged : (ReasoningItem → ReasoningItem) → TurnItem → Option TurnItem
merged f (TurnItem.reasoning r) = some (TurnItem.reasoning (f r))
merged f _ = none

unfoldable pub merge_last : (ReasoningItem → ReasoningItem) → List TurnItem → Option (List TurnItem)
merge_last f [] = none
merge_last f (x ∷ []) = elim (merged f x) [ none ↦ none | some y ↦ some (y ∷ []) ]
merge_last f (x ∷ y ∷ ys) = elim (merge_last f (y ∷ ys)) [ none ↦ none | some zs ↦ some (x ∷ zs) ]

-- `now_v7` is the sequence of the UUIDs that `uuid::Uuid::now_v7` draws.
module _ (now_v7 : ℕ → String) where
  abbrev pub turn_or_new : ℕ → Option PendingTurn → PendingTurn
  turn_or_new n (some t) = t
  turn_or_new n none = record {
    id = now_v7 n;
    items = [];
    status = completed;
    error = none;
    opened_explicitly = false;
    saw_compaction = false;
  }

  abbrev pub drawn_by : ℕ → Option PendingTurn → ℕ
  drawn_by n (some t) = n
  drawn_by n none = suc n

  -- A change of the turn that `ensure_turn` gives.
  unfoldable pub on_ensured :
      (PendingTurn → PendingTurn) → ThreadHistoryBuilder → ThreadHistoryBuilder
  on_ensured f b = record b {
    current_turn = some (f (turn_or_new b.drawn b.current_turn));
    drawn = drawn_by b.drawn b.current_turn;
  }

  abbrev pub push_item : TurnItem → ThreadHistoryBuilder → ThreadHistoryBuilder
  push_item item b = on_ensured (λ t. record t { items = t.items ++ item ∷ [] }) b

  unfoldable pub upsert_item_in_current_turn :
      TurnItem → ThreadHistoryBuilder → ThreadHistoryBuilder
  upsert_item_in_current_turn item b =
      on_ensured (λ t. record t { items = upsert_turn_item t.items item }) b

  unfoldable pub upsert_item_in_turn_id :
      String → TurnItem → ThreadHistoryBuilder → ThreadHistoryBuilder
  upsert_item_in_turn_id id item b =
      if is_current id b.current_turn
      then upsert_item_in_current_turn item b
      else if has_turn id b.turns
      then on_turn id (λ t. record t { items = upsert_turn_item t.items item }) b
      else upsert_item_in_current_turn item b
