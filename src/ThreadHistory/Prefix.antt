-- ===== src/ThreadHistory/Prefix.antt =====
-- Which turns the builder of src-tauri/src/core/thread_history.rs keeps, without a rollback and with one.
use mosaic_desktop.Prelude.{
  ℕ, ◌+◌, ◌-◌, ◌≡◌, inl, inr, refl, ap, sym, ◌∙◌, false, ◌&&◌, not, Option, none, some, List, [],
  ◌∷◌, ◌++◌, String, Bool-cases, All, length, take, leb, arith, append-nil, append_assoc,
}
use mosaic_desktop.Protocol.Utf8.{is_empty}
use mosaic_desktop.Protocol.Events.{RolloutItem}
use mosaic_desktop.Rollout.Reconstruction.Idle.{is_rollback}
use mosaic_desktop.ThreadHistory.{
  TurnGroup, PendingTurn, ThreadHistoryBuilder, pushed, group_of, finish_current_turn, finish,
  without_last, count_items, handle_thread_rollback,
}
use mosaic_desktop.ThreadHistory.Evolution.{ids, Evolves}
use mosaic_desktop.ThreadHistory.Responses.{handle_all}
use mosaic_desktop.ThreadHistory.Rollouts.{handle_all-keeps}
use mosaic_desktop.ThreadHistory.Lifecycle.{ids-append}

pushed-prefix :
    (o : Option PendingTurn) (turns : List TurnGroup)
    → (more : List String) × (ids (pushed o turns) ≡ ids turns ++ more)
pushed-prefix none turns = ([], sym (append-nil (ids turns)))
pushed-prefix (some t) turns =
    elim (Bool-cases (is_empty t.items && not t.opened_explicitly && not t.saw_compaction)) [
      | inl dropped ↦ rw dropped ([], sym (append-nil (ids turns)))
      | inr kept ↦ rw kept (t.id ∷ [], ids-append turns (group_of t ∷ []))
    ]

longer :
    (b c c' : ThreadHistoryBuilder)
    → Evolves (λ i. Unit) c c'
    → (more : List String) × (ids c.turns ≡ ids b.turns ++ more)
    → (more : List String) × (ids c'.turns ≡ ids b.turns ++ more)
unfolding finish finish_current_turn
longer b c c' (inl (same, turn), own) (more, e) = (more, same ∙ e)
longer b c c' (inr done, own) (more, e) =
    let (last, e') = pushed-prefix c.current_turn c.turns in
    (more ++ last, done ∙ e' ∙ ap (λ l. l ++ last) e ∙ append_assoc (ids b.turns) more last)

without_last-take :
    (n : ℕ) (turns : List TurnGroup) → without_last n turns ≡ take (length turns - n) turns
without_last-take n turns = elim (Bool-cases (leb (length turns) n)) [
  | inl all ↦ let none_left : length turns - n ≡ 0 = ground arith in rw (all, none_left) refl
  | inr some_left ↦ rw some_left refl
]

-- A rollout without rollbacks that is read without a panic keeps the turns that were finished, in
-- their order, at the front of the list, with their identifiers.
pub handle_all-prefix :
    (now_v7 : ℕ → String) (items : List RolloutItem) (b b' : ThreadHistoryBuilder)
    → All (λ item. is_rollback item ≡ false) items
    → handle_all now_v7 items b ≡ some b'
    → (more : List String) × (ids b'.turns ≡ ids b.turns ++ more)
handle_all-prefix now_v7 items b b' h e =
    handle_all-keeps now_v7 (λ i. Unit) (λ n. tt)
      (λ c. (more : List String) × (ids c.turns ≡ ids b.turns ++ more)) (longer b) items b b' h e
      ([], sym (append-nil (ids b.turns)))

-- A rollback of `n` turns, the current one counting as the last, leaves the first ones of the finished
-- list, and the next item number is one more than their items.
pub rollback-finish :
    (n : ℕ) (b : ThreadHistoryBuilder)
    → (finish (handle_thread_rollback n b) ≡ take (length (finish b) - n) (finish b))
      × ((handle_thread_rollback n b).next_item_index
          ≡ count_items (take (length (finish b) - n) (finish b)) + 1)
unfolding handle_thread_rollback finish finish_current_turn
rollback-finish n b = rw (without_last-take n (pushed b.current_turn b.turns)) (refl, refl)
