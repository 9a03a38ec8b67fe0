-- ===== src/ThreadHistory/Rollouts.antt =====
-- Response items and whole rollouts, by what they do to the list of turns.
use mosaic_desktop.Prelude.{
  ℕ, ◌≡◌, inl, inr, refl, subst, false, ◌&&◌, Option, none, some, List, [], ◌∷◌, concat, map,
  String, str_eq, Bool-cases, All,
}
use mosaic_desktop.Protocol.Items.{Utf8, ContentItem}
use mosaic_desktop.Protocol.Utf8.{is_empty}
use mosaic_desktop.Protocol.TurnItems.{MessagePhase, UserInput}
use mosaic_desktop.Protocol.Events.{
  ResponseItem, RolloutItem, session_meta, event_msg, compacted, turn_context, response_item,
}
use mosaic_desktop.EventMapping.{is_contextual_user_message}
use mosaic_desktop.StreamParser.{◌>>=◌}
use mosaic_desktop.Rollout.Reconstruction.Idle.{is_rollback}
use mosaic_desktop.ThreadHistory.{
  ThreadHistoryBuilder, finish_current_turn, finish, counted, next_item_id,
}
use mosaic_desktop.ThreadHistory.Responses.{
  output_text, dismissed_id, raw_texts, user_inputs, push_user, handle_user, handle_assistant,
  handle_message, handle_reasoning, handle_response_item, handle_rollout_item, handle_all,
}
use mosaic_desktop.ThreadHistory.Evolution.{Evolves, Evolves-refl, on_ensured-Evolves, push-Evolves}
use mosaic_desktop.ThreadHistory.Handlers.{
  dismiss-Evolves, add_reasoning-Evolves, numbered-Evolves, user-Evolves, unless-Evolves,
  event-Evolves,
}

-- A handler that may panic: where it does not, the turns have evolved.
abbrev pub EvolvesTo :
    (String → Type 0) → ThreadHistoryBuilder → Option ThreadHistoryBuilder → Type 0
EvolvesTo Q b none = Unit
EvolvesTo Q b (some b') = Evolves Q b b'

module _ (now_v7 : ℕ → String) (Q : String → Type 0) (fresh : (n : ℕ) → Q (now_v7 n)) where
  inputs-EvolvesTo :
      (o : Option (List UserInput)) (item_id : Utf8) (b : ThreadHistoryBuilder)
      → EvolvesTo Q b (o >>= λ inputs. some (push_user now_v7 item_id inputs (counted b)))
  unfolding finish finish_current_turn
  inputs-EvolvesTo none item_id b = tt
  inputs-EvolvesTo (some inputs) item_id b = user-Evolves now_v7 Q fresh item_id inputs (counted b)

  handle_user-EvolvesTo :
      (content : List ContentItem) (b : ThreadHistoryBuilder)
      → EvolvesTo Q b (handle_user now_v7 content b)
  unfolding handle_user
  handle_user-EvolvesTo content b = elim (Bool-cases (is_contextual_user_message content)) [
    | inl hidden ↦ rw hidden (Evolves-refl Q b)
    | inr shown ↦ rw shown (inputs-EvolvesTo (user_inputs content) (next_item_id b) b)
  ]

  assistant-Evolves :
      (text : Utf8) (phase : Option MessagePhase) (b : ThreadHistoryBuilder)
      → Evolves Q b (handle_assistant now_v7 text phase b)
  unfolding handle_assistant
  assistant-Evolves text phase b =
      unless-Evolves now_v7 Q fresh (is_empty text) b _ (numbered-Evolves now_v7 Q fresh _ b)

  message-EvolvesTo :
      (role : String) (content : List ContentItem) (phase : Option MessagePhase)
      (b : ThreadHistoryBuilder)
      → EvolvesTo Q b (handle_message now_v7 role content phase b)
  unfolding handle_message
  message-EvolvesTo role content phase b = elim (Bool-cases (str_eq role "user")) [
    | inl user ↦ rw user (handle_user-EvolvesTo content b)
    | inr other ↦ elim (Bool-cases (str_eq role "assistant")) [
      | inl assistant ↦
          rw (other, assistant) (assistant-Evolves (concat (map output_text content)) phase b)
      | inr apart ↦ elim (Bool-cases (str_eq role "system")) [
        | inl system ↦ rw (other, apart, system) (dismiss-Evolves Q (dismissed_id content) b)
        | inr unread ↦ rw (other, apart, unread) (Evolves-refl Q b)
      ]
    ]
  ]

  reasoning-Evolves :
      (given : Utf8) (summary raw : List Utf8) (b : ThreadHistoryBuilder)
      → Evolves Q b (handle_reasoning now_v7 given summary raw b)
  unfolding handle_reasoning
  reasoning-Evolves given summary raw b =
      unless-Evolves now_v7 Q fresh (is_empty summary && is_empty raw) b _
        (add_reasoning-Evolves now_v7 Q fresh summary raw given b)

  response-EvolvesTo :
      (ri : ResponseItem) (b : ThreadHistoryBuilder)
      → EvolvesTo Q b (handle_response_item now_v7 ri b)
  unfolding handle_response_item
  response-EvolvesTo (ResponseItem.message i role content phase) b =
      message-EvolvesTo role content phase b
  response-EvolvesTo (ResponseItem.reasoning i summary content) b =
      reasoning-Evolves i summary (raw_texts content) b
  response-EvolvesTo (ResponseItem.web_search_call i action) b = push-Evolves now_v7 Q fresh _ b
  response-EvolvesTo (ResponseItem.function_call name arguments call_id) b = Evolves-refl Q b
  response-EvolvesTo (ResponseItem.function_call_output call_id output) b = Evolves-refl Q b
  response-EvolvesTo ResponseItem.local_shell_call b = Evolves-refl Q b
  response-EvolvesTo ResponseItem.ghost_snapshot b = Evolves-refl Q b
  response-EvolvesTo ResponseItem.custom_tool_call b = Evolves-refl Q b
  response-EvolvesTo (ResponseItem.custom_tool_call_output call_id output) b = Evolves-refl Q b
  response-EvolvesTo ResponseItem.compaction b = Evolves-refl Q b
  response-EvolvesTo ResponseItem.other b = Evolves-refl Q b

  pub rollout_item-EvolvesTo :
      (item : RolloutItem) (b : ThreadHistoryBuilder)
      → is_rollback item ≡ false
      → EvolvesTo Q b (handle_rollout_item now_v7 item b)
  unfolding handle_rollout_item
  rollout_item-EvolvesTo (event_msg ev) b h = event-Evolves now_v7 Q fresh ev b h
  rollout_item-EvolvesTo (compacted c) b h =
      on_ensured-Evolves now_v7 Q fresh _ b b.current_turn (λ t. (refl, refl))
  rollout_item-EvolvesTo (response_item ri) b h = response-EvolvesTo ri b
  rollout_item-EvolvesTo (turn_context ctx) b h = Evolves-refl Q b
  rollout_item-EvolvesTo session_meta b h = Evolves-refl Q b

  -- What every evolution keeps, a rollout without rollbacks keeps.
  pub handle_all-keeps :
      (P : ThreadHistoryBuilder → Type 0)
      → ((b b' : ThreadHistoryBuilder) → Evolves Q b b' → P b → P b')
      → (items : List RolloutItem) (b b' : ThreadHistoryBuilder)
      → All (λ item. is_rollback item ≡ false) items
      → handle_all now_v7 items b ≡ some b'
      → P b
      → P b'
  unfolding handle_all
  handle_all-keeps P keep [] b b' h e p = subst P (cc) p
  handle_all-keeps P keep (item ∷ items) b b' h e p =
      continues (handle_rollout_item now_v7 item b) (rollout_item-EvolvesTo item b h.0) e
        (λ next evolved e'. handle_all-keeps P keep items next b' h.1 e' (keep b next evolved p))
    where
      continues :
          (o : Option ThreadHistoryBuilder)
          → EvolvesTo Q b o
          → (o >>= handle_all now_v7 items) ≡ some b'
          → ((next : ThreadHistoryBuilder)
              → Evolves Q b next
              → handle_all now_v7 items next ≡ some b'
              → P b')
          → P b'
      continues none evolved e k = cc
      continues (some next) evolved e k = k next evolved e
