-- ===== src/ThreadHistory/Handlers.antt =====
-- The handlers of the events, by what they do to the list of turns.
use mosaic_desktop.Prelude.{
  ℕ, ◌≡◌, inl, inr, refl, ap, subst, Bool, true, false, Option, none, some, List, [], ◌∷◌, map,
  String, str_eq, Bool-cases, Option-cases, if◌then◌else◌,
}
use mosaic_desktop.Protocol.Items.{Utf8}
use mosaic_desktop.Protocol.Utf8.{is_empty}
use mosaic_desktop.Protocol.TurnItems.{TurnItem, UserInput}
use mosaic_desktop.Protocol.Events.{EventMsg, event_msg}
use mosaic_desktop.Rollout.Reconstruction.{rollout_event}
use mosaic_desktop.Rollout.Reconstruction.Idle.{is_rollback}
use mosaic_desktop.ThreadHistory.{
  TurnGroup, PendingTurn, ThreadHistoryBuilder, finish_current_turn, finish, counted, on_current,
  on_ensured, merge_last, next_item_id, push_item,
}
use mosaic_desktop.ThreadHistory.Events.{
  closes, close_implicit_turn, handle_elicitation_response, merge_current, push_numbered,
  handle_user_message, handle_agent_message, push_reasoning, add_reasoning, more_texts,
  handle_agent_reasoning, handle_agent_reasoning_raw, handle_item, upsert_item_in_named_turn,
  handle_patch_apply_end, handle_patch_approval, handle_event,
}
use mosaic_desktop.ThreadHistory.Responses.{dismiss, dismiss_turn, dismiss_pending, push_user}
use mosaic_desktop.ThreadHistory.Evolution.{
  ids, Evolves, Evolves-refl, on_current-Evolves, turn_complete-Evolves, turn_aborted-Evolves,
  error-Evolves, turn_started-Evolves, push-Evolves, upsert-Evolves, upsert_in-Evolves,
}

merge_current-SameTurn :
    (Q : String → Type 0) (summary raw : List Utf8) (b : ThreadHistoryBuilder)
    (o : Option PendingTurn) (t' : PendingTurn)
    → merge_current (more_texts summary raw) o ≡ some t'
    → Evolves Q (record b { current_turn = o }) (record b { current_turn = some t' })
unfolding merge_current
merge_current-SameTurn Q summary raw b none t' h = cc
merge_current-SameTurn Q summary raw b (some t) t' h =
    elim (Option-cases (merge_last (more_texts summary raw) t.items)) [
      | inl other ↦ let no : none ≡ some t' = rw⁻¹ (ap pick other) h in cc
      | inr (items, merged) ↦
          let e : some (record t { items = items }) ≡ some t' = rw⁻¹ (ap pick merged) h in
          subst
            (λ o. elim o [
              | none ↦ Unit
              | some u ↦
                  Evolves Q (record b { current_turn = some t })
                    (record b { current_turn = some u })
            ])
            e (inl (refl, (refl, refl)), λ k. k)
    ]
  where
    pick : Option (List TurnItem) → Option PendingTurn
    pick o = elim o [ none ↦ none | some items ↦ some (record t { items = items }) ]

ids-dismiss : (m : Utf8) (ts : List TurnGroup) → ids (map (dismiss_turn m) ts) ≡ ids ts
ids-dismiss m [] = refl
ids-dismiss m (t ∷ ts) = ap (λ l. t.turn_id ∷ l) (ids-dismiss m ts)

pub dismiss-Evolves :
    (Q : String → Type 0) (m : Option Utf8) (b : ThreadHistoryBuilder) → Evolves Q b (dismiss m b)
unfolding dismiss
dismiss-Evolves Q none b = Evolves-refl Q b
dismiss-Evolves Q (some m) b = dismissed-Evolves b.current_turn
  where
    dismissed-Evolves :
        (o : Option PendingTurn)
        → Evolves Q
            (record b { current_turn = o })
            (record (on_current (dismiss_pending m) (record b { current_turn = o })) {
              turns = map (dismiss_turn m) b.turns;
            })
    dismissed-Evolves none = (inl (ids-dismiss m b.turns, tt), λ k. k)
    dismissed-Evolves (some t) = (inl (ids-dismiss m b.turns, (refl, refl)), λ k. k)

module _ (now_v7 : ℕ → String) (Q : String → Type 0) (fresh : (n : ℕ) → Q (now_v7 n)) where
  pub numbered-Evolves :
      (make : Utf8 → TurnItem) (b : ThreadHistoryBuilder)
      → Evolves Q b (push_numbered now_v7 make b)
  unfolding push_numbered finish finish_current_turn
  numbered-Evolves make b = push-Evolves now_v7 Q fresh (make (next_item_id b)) (counted b)

  -- A new item of a user, in the turn that is current then.
  closed-Evolves :
      (item : TurnItem) (b : ThreadHistoryBuilder)
      → Evolves Q b (push_item now_v7 item (close_implicit_turn b))
  unfolding close_implicit_turn finish_current_turn finish on_ensured
  closed-Evolves item b = elim (Bool-cases (closes b.current_turn)) [
    | inl closing ↦ rw closing (inr refl, λ k implicit. fresh b.drawn)
    | inr staying ↦ rw staying (push-Evolves now_v7 Q fresh item b)
  ]

  reasoning-Evolves :
      (summary raw : List Utf8) (given : Utf8) (b : ThreadHistoryBuilder)
      → Evolves Q b (push_reasoning now_v7 summary raw given b)
  unfolding push_reasoning
  reasoning-Evolves summary raw given b = push-Evolves now_v7 Q fresh _ b

  pub add_reasoning-Evolves :
      (summary raw : List Utf8) (given : Utf8) (b : ThreadHistoryBuilder)
      → Evolves Q b (add_reasoning now_v7 summary raw given b)
  unfolding add_reasoning finish finish_current_turn
  add_reasoning-Evolves summary raw given b =
      elim (Option-cases (merge_current (more_texts summary raw) b.current_turn)) [
        | inr (t, merged) ↦
            rw merged (merge_current-SameTurn Q summary raw b b.current_turn t merged)
        | inl apart ↦ elim (Bool-cases (is_empty given)) [
          | inl unnamed ↦
              rw (apart, unnamed) (reasoning-Evolves summary raw (next_item_id b) (counted b))
          | inr named ↦ rw (apart, named) (reasoning-Evolves summary raw given b)
        ]
      ]

  -- A handler that does nothing for a test.
  pub unless-Evolves :
      (test : Bool) (b b' : ThreadHistoryBuilder)
      → Evolves Q b b'
      → Evolves Q b (if test then b else b')
  unless-Evolves true b b' h = Evolves-refl Q b
  unless-Evolves false b b' h = h

  item-Evolves :
      (tid : String) (item : TurnItem) (b : ThreadHistoryBuilder)
      → Evolves Q b (handle_item now_v7 tid item b)
  unfolding handle_item
  item-Evolves tid (TurnItem.plan plan) b =
      unless-Evolves (is_empty plan.plan_text) b _
        (upsert_in-Evolves now_v7 Q fresh tid (TurnItem.plan plan) b)
  item-Evolves tid _ b = Evolves-refl Q b

  named-Evolves :
      (tid : String) (item : TurnItem) (b : ThreadHistoryBuilder)
      → Evolves Q b (upsert_item_in_named_turn now_v7 tid item b)
  unfolding upsert_item_in_named_turn
  named-Evolves tid item b = elim (Bool-cases (str_eq tid "")) [
    | inl unnamed ↦ rw unnamed (upsert-Evolves now_v7 Q fresh item b)
    | inr named ↦ rw named (upsert_in-Evolves now_v7 Q fresh tid item b)
  ]

  user_message-Evolves :
      (make : Utf8 → TurnItem) (b : ThreadHistoryBuilder)
      → Evolves Q b (push_numbered now_v7 make (close_implicit_turn b))
  unfolding push_numbered close_implicit_turn finish_current_turn finish on_ensured
  user_message-Evolves make b = elim (Bool-cases (closes b.current_turn)) [
    | inl closing ↦ rw closing (inr refl, λ k implicit. fresh b.drawn)
    | inr staying ↦ rw staying (numbered-Evolves make b)
  ]

  pub user-Evolves :
      (item_id : Utf8) (inputs : List UserInput) (b : ThreadHistoryBuilder)
      → Evolves Q b (push_user now_v7 item_id inputs b)
  unfolding push_user
  user-Evolves item_id [] b = Evolves-refl Q b
  user-Evolves item_id (input ∷ inputs) b = closed-Evolves _ b

  pub event-Evolves :
      (ev : EventMsg) (b : ThreadHistoryBuilder)
      → is_rollback (event_msg ev) ≡ false
      → Evolves Q b (handle_event now_v7 ev b)
  unfolding handle_event rollout_event handle_user_message handle_agent_message
      handle_agent_reasoning handle_agent_reasoning_raw handle_patch_apply_end handle_patch_approval
      handle_elicitation_response
  event-Evolves (EventMsg.user_message p) b h = user_message-Evolves _ b
  event-Evolves (EventMsg.agent_message text phase) b h =
      unless-Evolves (is_empty text) b _ (numbered-Evolves _ b)
  event-Evolves (EventMsg.agent_reasoning text) b h =
      unless-Evolves (is_empty text) b _ (add_reasoning-Evolves (text ∷ []) [] [] b)
  event-Evolves (EventMsg.agent_reasoning_raw_content text) b h =
      unless-Evolves (is_empty text) b _ (add_reasoning-Evolves [] (text ∷ []) [] b)
  event-Evolves (EventMsg.web_search_end i query action) b h = upsert-Evolves now_v7 Q fresh _ b
  event-Evolves (EventMsg.exec_command_end p) b h = upsert_in-Evolves now_v7 Q fresh p.turn_id _ b
  event-Evolves (EventMsg.mcp_tool_call_begin i invocation) b h = upsert-Evolves now_v7 Q fresh _ b
  event-Evolves (EventMsg.mcp_tool_call_end p) b h = upsert-Evolves now_v7 Q fresh _ b
  event-Evolves (EventMsg.elicitation_request p) b h = upsert-Evolves now_v7 Q fresh _ b
  event-Evolves (EventMsg.elicitation_response p) b h =
      on_current-Evolves Q _ b b.current_turn (λ t. (refl, refl))
  event-Evolves (EventMsg.patch_apply_end p) b h = named-Evolves p.turn_id _ b
  event-Evolves (EventMsg.apply_patch_approval_request p) b h = named-Evolves p.turn_id _ b
  event-Evolves (EventMsg.dynamic_tool_call_request p) b h = named-Evolves p.turn_id _ b
  event-Evolves (EventMsg.dynamic_tool_call_response p) b h = named-Evolves p.turn_id _ b
  event-Evolves (EventMsg.view_image_tool_call i path) b h = upsert-Evolves now_v7 Q fresh _ b
  event-Evolves (EventMsg.collab_agent_spawn_end p) b h = upsert-Evolves now_v7 Q fresh _ b
  event-Evolves (EventMsg.collab_agent_interaction_end p) b h = upsert-Evolves now_v7 Q fresh _ b
  event-Evolves (EventMsg.collab_waiting_end p) b h = upsert-Evolves now_v7 Q fresh _ b
  event-Evolves (EventMsg.collab_close_end p) b h = upsert-Evolves now_v7 Q fresh _ b
  event-Evolves (EventMsg.collab_resume_end p) b h = upsert-Evolves now_v7 Q fresh _ b
  event-Evolves EventMsg.context_compacted b h = numbered-Evolves _ b
  event-Evolves (EventMsg.entered_review_mode hint) b h = numbered-Evolves _ b
  event-Evolves (EventMsg.exited_review_mode output) b h = numbered-Evolves _ b
  event-Evolves (EventMsg.item_started tid item) b h = item-Evolves tid item b
  event-Evolves (EventMsg.item_completed tid item) b h = item-Evolves tid item b
  event-Evolves (EventMsg.error p) b h = error-Evolves Q p b
  event-Evolves (EventMsg.thread_rolled_back n) b h = cc
  event-Evolves (EventMsg.turn_aborted o) b h = turn_aborted-Evolves Q o b
  event-Evolves (EventMsg.turn_started tid) b h = turn_started-Evolves Q tid b
  event-Evolves (EventMsg.turn_complete tid) b h = turn_complete-Evolves Q tid b
  event-Evolves (EventMsg.token_count info) b h = Evolves-refl Q b
  event-Evolves EventMsg.web_search_begin b h = Evolves-refl Q b
  event-Evolves EventMsg.undo_completed b h = Evolves-refl Q b
  event-Evolves EventMsg.other b h = Evolves-refl Q b
