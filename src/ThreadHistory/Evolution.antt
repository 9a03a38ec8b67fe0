-- ===== src/ThreadHistory/Evolution.antt =====
-- What the handlers do to the list of turns, whatever else they change: the relation of a builder to the
-- one that a handler returns, and the handlers of the life of a turn.
use mosaic_desktop.Prelude.{
  ℕ, ◌≡◌, ◌⊎◌, inl, inr, refl, ap, sym, ◌∙◌, subst, false, ◌&&◌, not, Option, none, some, List, [],
  ◌∷◌, ◌++◌, map, String, str_eq, Bool-cases,
}
use mosaic_desktop.Protocol.Utf8.{is_empty}
use mosaic_desktop.Protocol.TurnItems.{TurnItem}
use mosaic_desktop.Protocol.Events.{ErrorEvent}
use mosaic_desktop.ThreadHistory.{
  TurnGroup, PendingTurn, ThreadHistoryBuilder, group_of, finish_current_turn, finish, has_turn,
  update_turn, is_current, on_current, on_turn, handle_turn_started, mark_turn, mark_pending,
  handle_turn_complete, interrupt, handle_turn_aborted, handle_error, fails, turn_or_new,
  on_ensured, push_item, upsert_item_in_current_turn, upsert_item_in_turn_id,
}

abbrev pub ids : List TurnGroup → List String
ids turns = map (λ t. t.turn_id) turns

-- The current turn is still there.
abbrev pub SameTurn : Option PendingTurn → Option PendingTurn → Type 0
SameTurn none o = Unit
SameTurn (some t) none = ⊥
SameTurn (some t) (some t') = (t'.id ≡ t.id) × (t'.opened_explicitly ≡ t.opened_explicitly)

-- What the identifiers drawn for implicit turns are like.
abbrev pub IsOwn : (String → Type 0) → Option PendingTurn → Type 0
IsOwn Q none = Unit
IsOwn Q (some t) = (t.opened_explicitly ≡ false) → Q t.id

abbrev pub Evolves : (String → Type 0) → ThreadHistoryBuilder → ThreadHistoryBuilder → Type 0
Evolves Q b b' =
    (((ids b'.turns ≡ ids b.turns) × SameTurn b.current_turn b'.current_turn)
      ⊎ (ids b'.turns ≡ ids (finish b)))
    × (IsOwn Q b.current_turn → IsOwn Q b'.current_turn)

abbrev pub with_turn : ThreadHistoryBuilder → Option PendingTurn → ThreadHistoryBuilder
with_turn b o = record b { current_turn = o }

SameTurn-refl : (o : Option PendingTurn) → SameTurn o o
SameTurn-refl none = tt
SameTurn-refl (some t) = (refl, refl)

pub Evolves-refl : (Q : String → Type 0) (b : ThreadHistoryBuilder) → Evolves Q b b
Evolves-refl Q b = (inl (refl, SameTurn-refl b.current_turn), λ h. h)

-- A change that keeps what identifies a turn.
abbrev pub Keeps : (PendingTurn → PendingTurn) → Type 0
Keeps f = (t : PendingTurn) → ((f t).id ≡ t.id) × ((f t).opened_explicitly ≡ t.opened_explicitly)

IsOwn-keeps :
    (Q : String → Type 0) (t t' : PendingTurn)
    → t'.id ≡ t.id
    → t'.opened_explicitly ≡ t.opened_explicitly
    → IsOwn Q (some t)
    → IsOwn Q (some t')
IsOwn-keeps Q t t' same opened h implicit = subst Q (sym same) (h (sym opened ∙ implicit))

pub on_current-Evolves :
    (Q : String → Type 0) (f : PendingTurn → PendingTurn) (b : ThreadHistoryBuilder)
    (o : Option PendingTurn)
    → Keeps f
    → Evolves Q (with_turn b o) (on_current f (with_turn b o))
on_current-Evolves Q f b none h = (inl (refl, tt), λ k. tt)
on_current-Evolves Q f b (some t) h = (inl (refl, h t), IsOwn-keeps Q t (f t) (h t).0 (h t).1)

pub ids-update_turn :
    (tid : String) (f : TurnGroup → TurnGroup) (ts : List TurnGroup)
    → ((t : TurnGroup) → (f t).turn_id ≡ t.turn_id)
    → ids (update_turn tid f ts) ≡ ids ts
unfolding update_turn
ids-update_turn tid f [] h = refl
ids-update_turn tid f (t ∷ ts) h = elim (Bool-cases (str_eq t.turn_id tid)) [
  | inl this ↦ rw this (ap (λ i. i ∷ ids ts) (h t))
  | inr other ↦ rw other (ap (λ l. t.turn_id ∷ l) (ids-update_turn tid f ts h))
]

on_turn-Evolves :
    (Q : String → Type 0) (tid : String) (f : TurnGroup → TurnGroup) (b : ThreadHistoryBuilder)
    → ((t : TurnGroup) → (f t).turn_id ≡ t.turn_id)
    → Evolves Q b (on_turn tid f b)
on_turn-Evolves Q tid f b h =
    (inl (ids-update_turn tid f b.turns h, SameTurn-refl b.current_turn), λ k. k)

-- Finishing a turn that has changed adds the same identifier, if any.
ids-finish_marked :
    (b : ThreadHistoryBuilder) (o : Option PendingTurn)
    → ids (finish_current_turn (on_current mark_pending (with_turn b o))).turns
      ≡ ids (finish (with_turn b o))
unfolding finish finish_current_turn
ids-finish_marked b none = refl
ids-finish_marked b (some t) =
    elim (Bool-cases (is_empty t.items && not t.opened_explicitly && not t.saw_compaction)) [
      | inl dropped ↦ rw dropped refl
      | inr kept ↦ rw kept (map-snoc b.turns)
    ]
  where
    map-snoc :
        (ts : List TurnGroup)
        → ids (ts ++ group_of (mark_pending t) ∷ []) ≡ ids (ts ++ group_of t ∷ [])
    map-snoc [] = refl
    map-snoc (x ∷ xs) = ap (λ l. x.turn_id ∷ l) (map-snoc xs)

finish_marked-Evolves :
    (Q : String → Type 0) (b : ThreadHistoryBuilder)
    → Evolves Q b (finish_current_turn (on_current mark_pending b))
unfolding finish_current_turn
finish_marked-Evolves Q b = (inr (ids-finish_marked b b.current_turn), λ k. tt)

pub turn_complete-Evolves :
    (Q : String → Type 0) (tid : String) (b : ThreadHistoryBuilder)
    → Evolves Q b (handle_turn_complete tid b)
unfolding handle_turn_complete
turn_complete-Evolves Q tid b = elim (Bool-cases (is_current tid b.current_turn)) [
  | inl this ↦ rw this (finish_marked-Evolves Q b)
  | inr other ↦ elim (Bool-cases (has_turn tid b.turns)) [
    | inl found ↦ rw (other, found) (on_turn-Evolves Q tid mark_turn b (λ t. refl))
    | inr unknown ↦ rw (other, unknown) (finish_marked-Evolves Q b)
  ]
]

interrupt-Evolves :
    (Q : String → Type 0) (b : ThreadHistoryBuilder) → Evolves Q b (on_current interrupt b)
interrupt-Evolves Q b = on_current-Evolves Q interrupt b b.current_turn (λ t. (refl, refl))

pub turn_aborted-Evolves :
    (Q : String → Type 0) (o : Option String) (b : ThreadHistoryBuilder)
    → Evolves Q b (handle_turn_aborted o b)
unfolding handle_turn_aborted
turn_aborted-Evolves Q none b = interrupt-Evolves Q b
turn_aborted-Evolves Q (some tid) b = elim (Bool-cases (is_current tid b.current_turn)) [
  | inl this ↦ rw this (interrupt-Evolves Q b)
  | inr other ↦ elim (Bool-cases (has_turn tid b.turns)) [
    | inl found ↦ rw (other, found) (on_turn-Evolves Q tid _ b (λ t. refl))
    | inr unknown ↦ rw (other, unknown) (interrupt-Evolves Q b)
  ]
]

pub error-Evolves :
    (Q : String → Type 0) (p : ErrorEvent) (b : ThreadHistoryBuilder)
    → Evolves Q b (handle_error p b)
unfolding handle_error
error-Evolves Q p b = elim (Bool-cases (fails p.codex_error_info)) [
  | inl failed ↦ rw failed (on_current-Evolves Q _ b b.current_turn (λ t. (refl, refl)))
  | inr ignored ↦ rw ignored (Evolves-refl Q b)
]

pub turn_started-Evolves :
    (Q : String → Type 0) (tid : String) (b : ThreadHistoryBuilder)
    → Evolves Q b (handle_turn_started tid b)
unfolding handle_turn_started finish finish_current_turn
turn_started-Evolves Q tid b = (inr refl, λ k implicit. cc)

module _ (now_v7 : ℕ → String) (Q : String → Type 0) (fresh : (n : ℕ) → Q (now_v7 n)) where
  pub on_ensured-Evolves :
      (f : PendingTurn → PendingTurn) (b : ThreadHistoryBuilder) (o : Option PendingTurn)
      → Keeps f
      → Evolves Q (with_turn b o) (on_ensured now_v7 f (with_turn b o))
  unfolding on_ensured
  on_ensured-Evolves f b none h = (
    inl (refl, tt),
    λ k implicit. subst Q (sym (h (turn_or_new now_v7 b.drawn none)).0) (fresh b.drawn),
  )
  on_ensured-Evolves f b (some t) h = (inl (refl, h t), IsOwn-keeps Q t (f t) (h t).0 (h t).1)

  pub push-Evolves :
      (item : TurnItem) (b : ThreadHistoryBuilder) → Evolves Q b (push_item now_v7 item b)
  push-Evolves item b = on_ensured-Evolves _ b b.current_turn (λ t. (refl, refl))

  pub upsert-Evolves :
      (item : TurnItem) (b : ThreadHistoryBuilder)
      → Evolves Q b (upsert_item_in_current_turn now_v7 item b)
  unfolding upsert_item_in_current_turn
  upsert-Evolves item b = on_ensured-Evolves _ b b.current_turn (λ t. (refl, refl))

  pub upsert_in-Evolves :
      (tid : String) (item : TurnItem) (b : ThreadHistoryBuilder)
      → Evolves Q b (upsert_item_in_turn_id now_v7 tid item b)
  unfolding upsert_item_in_turn_id
  upsert_in-Evolves tid item b = elim (Bool-cases (is_current tid b.current_turn)) [
    | inl this ↦ rw this (upsert-Evolves item b)
    | inr other ↦ elim (Bool-cases (has_turn tid b.turns)) [
      | inl found ↦ rw (other, found) (on_turn-Evolves Q tid _ b (λ t. refl))
      | inr unknown ↦ rw (other, unknown) (upsert-Evolves item b)
    ]
  ]
