-- ===== src/ThreadHistory/Lifecycle.antt =====
-- The life of a turn in src-tauri/src/core/thread_history.rs, from its start to its completion.
use mosaic_desktop.Prelude.{
  ℕ, ◌≡◌, ◌≢◌, ◌⊎◌, inl, inr, refl, ap, sym, ◌∙◌, subst, true, false, ◌&&◌, not, Option, none, some,
  List, [], ◌∷◌, ◌++◌, String, str_eq, eq_iff, Bool-cases, All, Any, Any-append_left,
  Any-append_right,
}
use mosaic_desktop.Protocol.Utf8.{is_empty}
use mosaic_desktop.Protocol.Events.{RolloutItem}
use mosaic_desktop.Rollout.Reconstruction.Idle.{is_rollback}
use mosaic_desktop.ThreadHistory.{
  TurnStatus, completed, interrupted, failed, in_progress, dismissed, TurnGroup, PendingTurn,
  ThreadHistoryBuilder, pushed, group_of, finish_current_turn, finish, has_turn, update_turn,
  is_current, on_current, handle_turn_started, mark, mark_turn, mark_pending, handle_turn_complete,
}
use mosaic_desktop.ThreadHistory.Evolution.{ids, SameTurn, IsOwn, Evolves, with_turn}
use mosaic_desktop.ThreadHistory.Responses.{handle_all}
use mosaic_desktop.ThreadHistory.Rollouts.{handle_all-keeps}

-- A turn of the identifier is current, as an event started it, or is finished.
abbrev IsStarted : String → ThreadHistoryBuilder → Type 0
IsStarted id b =
    ((t : PendingTurn) × (b.current_turn ≡ some t) × (t.id ≡ id) × (t.opened_explicitly ≡ true))
    ⊎ Any (λ i. i ≡ id) (ids b.turns)

abbrev IsKnown : String → ThreadHistoryBuilder → Type 0
IsKnown id b = IsStarted id b × IsOwn (λ i. i ≢ id) b.current_turn

pub ids-append : (ts us : List TurnGroup) → ids (ts ++ us) ≡ ids ts ++ ids us
ids-append [] us = refl
ids-append (t ∷ ts) us = ap (λ l. t.turn_id ∷ l) (ids-append ts us)

-- An explicit turn is among the turns once it is finished, and the others stay.
pushed-explicit :
    (t : PendingTurn) (turns : List TurnGroup)
    → t.opened_explicitly ≡ true
    → pushed (some t) turns ≡ turns ++ group_of t ∷ []
pushed-explicit t turns h = elim (Bool-cases (is_empty t.items)) [
  | inl bare ↦ rw (bare, h) refl
  | inr filled ↦ rw filled refl
]

pushed-Any :
    (P : TurnGroup → Type 0) (o : Option PendingTurn) (turns : List TurnGroup)
    → Any P turns
    → Any P (pushed o turns)
pushed-Any P none turns h = h
pushed-Any P (some t) turns h =
    elim (Bool-cases (is_empty t.items && not t.opened_explicitly && not t.saw_compaction)) [
      | inl dropped ↦ rw dropped h
      | inr kept ↦ rw kept (Any-append_left P turns (group_of t ∷ []) h)
    ]

pushed-ids :
    (P : String → Type 0) (o : Option PendingTurn) (turns : List TurnGroup)
    → Any P (ids turns)
    → Any P (ids (pushed o turns))
pushed-ids P none turns h = h
pushed-ids P (some t) turns h =
    elim (Bool-cases (is_empty t.items && not t.opened_explicitly && not t.saw_compaction)) [
      | inl dropped ↦ rw dropped h
      | inr kept ↦ rw (kept, ids-append turns (group_of t ∷ [])) (Any-append_left P (ids turns) _ h)
    ]

same-started :
    (t : PendingTurn) (o : Option PendingTurn)
    → SameTurn (some t) o
    → (t' : PendingTurn) × (o ≡ some t')
      × (t'.id ≡ t.id)
      × (t'.opened_explicitly ≡ t.opened_explicitly)
same-started t none h = absurd h
same-started t (some t') (same, opened) = (t', refl, same, opened)

IsKnown-Evolves :
    (id : String) (b b' : ThreadHistoryBuilder)
    → Evolves (λ i. i ≢ id) b b'
    → IsKnown id b
    → IsKnown id b'
unfolding finish finish_current_turn
IsKnown-Evolves id b b' (inl (same, turn), own) (inl (t, e, this, opened), k) =
    let (t', e', this', opened') =
      same-started t b'.current_turn (subst (λ o. SameTurn o b'.current_turn) e turn) in
    (inl (t', e', this' ∙ this, opened' ∙ opened), own k)
IsKnown-Evolves id b b' (inl (same, turn), own) (inr there, k) =
    (inr (subst (Any (λ i. i ≡ id)) (sym same) there), own k)
IsKnown-Evolves id b b' (inr done, own) (inl (t, e, this, opened), k) = (
  inr (
      subst (Any (λ i. i ≡ id))
        (sym (
          done
          ∙ ap (λ o. ids (pushed o b.turns)) e
          ∙ ap ids (pushed-explicit t b.turns opened)
          ∙ ids-append b.turns (group_of t ∷ [])))
        (Any-append_right _ (ids b.turns) _ (inl this))),
  own k,
)
IsKnown-Evolves id b b' (inr done, own) (inr there, k) =
    (inr (subst (Any (λ i. i ≡ id)) (sym done) (pushed-ids _ b.current_turn b.turns there)), own k)

-- A finished turn of the identifier that is not in progress.
unfoldable pub IsSettled : String → TurnGroup → Type 0
IsSettled id t = (t.turn_id ≡ id) × (t.status ≢ in_progress)

mark_settled : (s : TurnStatus) → mark s ≢ in_progress
mark_settled completed h = cc
mark_settled interrupted h = cc
mark_settled failed h = cc
mark_settled in_progress h = cc
mark_settled dismissed h = cc

-- Marking the first turn of the identifier settles it.
update-IsSettled :
    (id : String) (turns : List TurnGroup)
    → Any (λ i. i ≡ id) (ids turns)
    → (has_turn id turns ≡ true) × Any (IsSettled id) (update_turn id mark_turn turns)
unfolding has_turn update_turn IsSettled
update-IsSettled id [] h = absurd h
update-IsSettled id (t ∷ ts) h = elim (Bool-cases (str_eq t.turn_id id)) [
  | inl this ↦ rw this (refl, inl ((eq_iff t.turn_id id).0 this, mark_settled t.status))
  | inr other ↦
      let (known, settled) = update-IsSettled id ts (not_first t.turn_id (ids ts) other h) in
      rw other (known, inr settled)
]
  where
    not_first :
        (i : String) (is : List String)
        → str_eq i id ≡ false
        → Any (λ j. j ≡ id) (i ∷ is)
        → Any (λ j. j ≡ id) is
    not_first i is other (inl e) = let same : str_eq i id ≡ true = (eq_iff i id).1 e in cc
    not_first i is other (inr h) = h

-- Completing a current turn that was started finishes it, settled.
finish_marked-IsSettled :
    (id : String) (b : ThreadHistoryBuilder) (o : Option PendingTurn)
    → is_current id o ≡ true
    → IsOwn (λ i. i ≢ id) o
    → Any (IsSettled id) (finish (finish_current_turn (on_current mark_pending (with_turn b o))))
unfolding finish finish_current_turn IsSettled
finish_marked-IsSettled id b none h own = cc
finish_marked-IsSettled id b (some t) h own =
    let this : t.id ≡ id = (eq_iff t.id id).0 h in
    elim (Bool-cases t.opened_explicitly) [
      | inl opened ↦
          rw (pushed-explicit (mark_pending t) b.turns opened)
            (Any-append_right (IsSettled id) b.turns _ (inl (this, mark_settled t.status)))
      | inr implicit ↦ absurd (own implicit this)
    ]

not_current :
    (id : String) (b : ThreadHistoryBuilder)
    → is_current id b.current_turn ≡ false
    → IsStarted id b
    → Any (λ i. i ≡ id) (ids b.turns)
not_current id b other (inr h) = h
not_current id b other (inl (t, e, this, opened)) =
    let same : str_eq t.id id ≡ true = (eq_iff t.id id).1 this in
    let other' : is_current id (some t) ≡ false = subst (λ o. is_current id o ≡ false) e other in cc

complete-IsSettled :
    (id : String) (b : ThreadHistoryBuilder)
    → IsKnown id b
    → Any (IsSettled id) (finish (handle_turn_complete id b))
unfolding handle_turn_complete finish finish_current_turn
complete-IsSettled id b (started, own) = elim (Bool-cases (is_current id b.current_turn)) [
  | inl this ↦ rw this (finish_marked-IsSettled id b b.current_turn this own)
  | inr other ↦
      let (known, settled) = update-IsSettled id b.turns (not_current id b other started) in
      rw (other, known)
        (pushed-Any (IsSettled id) b.current_turn (update_turn id mark_turn b.turns) settled)
]

started-IsKnown : (id : String) (b : ThreadHistoryBuilder) → IsKnown id (handle_turn_started id b)
unfolding handle_turn_started
started-IsKnown id b = (inl (_, refl, refl, refl), λ implicit. cc)

-- Whatever the state in which a turn is started: if the items that follow hold no rollback and are
-- read without a panic, and no UUID that the builder draws is the turn's identifier, then once the
-- turn completes, the finished list has a turn with the identifier that is not in progress.
pub turn-completes :
    (now_v7 : ℕ → String) (id : String) (items : List RolloutItem) (b b' : ThreadHistoryBuilder)
    → ((n : ℕ) → now_v7 n ≢ id)
    → All (λ item. is_rollback item ≡ false) items
    → handle_all now_v7 items (handle_turn_started id b) ≡ some b'
    → Any (IsSettled id) (finish (handle_turn_complete id b'))
turn-completes now_v7 id items b b' fresh h e = complete-IsSettled id b' (
    handle_all-keeps now_v7 (λ i. i ≢ id) fresh (IsKnown id) (IsKnown-Evolves id) items
      (handle_turn_started id b) b' h e (started-IsKnown id b))
