-- ===== src/Rollout/Reconstruction/Scan.antt =====
-- What the reverse scan has found: the replacement history of the newest checkpoint, and the items
-- to replay behind it.
use mosaic_desktop.Prelude.{
  ◌≡◌, ◌⊎◌, inl, inr, refl, sym, ◌∙◌, subst, false, Option, none, some, List, ◌∷◌,
}
use mosaic_desktop.Protocol.Items.{ResponseInputItem}
use mosaic_desktop.Protocol.Events.{
  to_input_item, CompactedItem, RolloutItem, session_meta, event_msg, compacted, turn_context,
  response_item,
}
use mosaic_desktop.ContextManager.History.{ItemTruncationPolicy, replace}
use mosaic_desktop.Rollout.Reconstruction.{
  ActiveReplaySegment, ScanState, or_else, on_compacted, on_turn_context, on_input, rollout_event,
  on_event, on_item, scan_item, token_info_of,
}
use mosaic_desktop.Rollout.Reconstruction.Forward.{
  replay_compacted, replay_item, replay, ReplayState, replay_start,
}
use mosaic_desktop.Rollout.Reconstruction.Replay.{items_of, replay-items}
use mosaic_desktop.Rollout.Reconstruction.Idle.{
  base_of, found, IsIdle, with_segment, turn_context-IsIdle, input-IsIdle, is_rollback,
  event-IsIdle,
}

-- A step that meets a checkpoint, whose history counts unless a newer one was found.
abbrev IsCheckpoint : List ResponseInputItem → List RolloutItem → ScanState → ScanState → Type 0
IsCheckpoint r behind st st' =
    (st'.pending_rollback_turns ≡ st.pending_rollback_turns)
    × (found st' ≡ or_else (found st) (some r))
    × (st'.rollout_suffix ≡ behind)

or_else_assoc {ℓ} :
    {A : Type ℓ} (a b c : Option A) → or_else a (or_else b c) ≡ or_else (or_else a b) c
or_else_assoc none b c = refl
or_else_assoc (some x) b c = refl

compacted-cases :
    (c : CompactedItem) (behind : List RolloutItem) (st : ScanState)
    (a : Option ActiveReplaySegment) (b o : Option (List ResponseInputItem))
    → base_of a ≡ b
    → c.replacement_history ≡ o
    → IsIdle (with_segment st a) (on_compacted c behind (with_segment st a))
      ⊎ ((r : List ResponseInputItem) × (c.replacement_history ≡ some r)
          × IsCheckpoint r behind (with_segment st a) (on_compacted c behind (with_segment st a)))
unfolding on_compacted
compacted-cases c behind st none b none s e = inl (rw e (refl, refl, refl))
compacted-cases c behind st none b (some r) s e =
    inr (r, e, rw e (refl, or_else_assoc st.base_replacement_history none (some r), refl))
compacted-cases c behind st (some seg) (some b) o s e = inl (rw s (refl, refl, refl))
compacted-cases c behind st (some seg) none none s e = inl (rw (s, e) (refl, refl, refl))
compacted-cases c behind st (some seg) none (some r) s e =
    inr (r, e, rw (s, e) (refl, or_else_assoc st.base_replacement_history none (some r), refl))

module _ (policy : ItemTruncationPolicy) (whole : List RolloutItem) where
  -- Replaying the items that were visited gives, from any state, the history that the scan would
  -- rebuild; or no checkpoint was met, and the whole rollout is still to be replayed.
  abbrev pub Rebuilds :
      List RolloutItem → Option (List ResponseInputItem) → List RolloutItem → Type 0
  Rebuilds behind base suffix =
      ((base ≡ none) × (suffix ≡ whole))
      ⊎ ((r : List ResponseInputItem) × (base ≡ some r)
          × ((h : ReplayState)
              → items_of (replay policy behind h)
                ≡ items_of (replay policy suffix (replay_start (some r)))))

  abbrev pub IsScanned : List RolloutItem → ScanState → Type 0
  IsScanned behind st =
      (st.pending_rollback_turns ≡ 0) × Rebuilds behind (found st) st.rollout_suffix

  Rebuilds-cons :
      (x : RolloutItem) (behind : List RolloutItem) (base : Option (List ResponseInputItem))
      (suffix : List RolloutItem)
      → Rebuilds behind base suffix
      → Rebuilds (x ∷ behind) base suffix
  unfolding replay
  Rebuilds-cons x behind base suffix (inl h) = inl h
  Rebuilds-cons x behind base suffix (inr (r, e, h)) = inr (r, e, λ s. h (replay_item policy x s))

  pub idle-IsScanned :
      (x : RolloutItem) (behind : List RolloutItem) (st st' : ScanState)
      → IsIdle st st'
      → IsScanned behind st
      → IsScanned (x ∷ behind) st'
  idle-IsScanned x behind st st' (pending, same, suffix) (z, h) = (
    pending ∙ z,
    subst (λ b. Rebuilds (x ∷ behind) b st'.rollout_suffix) (sym same)
        (subst (λ s. Rebuilds (x ∷ behind) (found st) s) (sym suffix)
          (Rebuilds-cons x behind (found st) st.rollout_suffix h)),
  )

  -- A checkpoint: the items behind it are replayed from its history, or from that of a newer one.
  checkpoint-Rebuilds :
      (c : CompactedItem) (behind suffix : List RolloutItem)
      (base : Option (List ResponseInputItem)) (r : List ResponseInputItem)
      → c.replacement_history ≡ some r
      → Rebuilds behind base suffix
      → Rebuilds (compacted c ∷ behind) (or_else base (some r)) behind
  unfolding replay replay_item replay_compacted replace
  checkpoint-Rebuilds c behind suffix none r e h =
      inr (r, refl, λ s. replay-items policy behind _ _ (rw e refl))
  checkpoint-Rebuilds c behind suffix (some b) r e (inl (absent, _)) = cc
  checkpoint-Rebuilds c behind suffix (some b) r e (inr (b', same, h)) =
      inr (b, refl, λ s. h _ ∙ sym (h (replay_start (some b))))

  checkpoint-IsScanned :
      (c : CompactedItem) (behind : List RolloutItem) (st st' : ScanState)
      (r : List ResponseInputItem)
      → c.replacement_history ≡ some r
      → IsCheckpoint r behind st st'
      → IsScanned behind st
      → IsScanned (compacted c ∷ behind) st'
  checkpoint-IsScanned c behind st st' r e (pending, same, suffix) (z, h) = (
    pending ∙ z,
    subst (λ b. Rebuilds (compacted c ∷ behind) b st'.rollout_suffix) (sym same)
        (subst (λ s. Rebuilds (compacted c ∷ behind) (or_else (found st) (some r)) s) (sym suffix)
          (checkpoint-Rebuilds c behind st.rollout_suffix (found st) r e h)),
  )

  compacted-IsScanned :
      (c : CompactedItem) (behind : List RolloutItem) (st : ScanState)
      → IsScanned behind st
      → IsScanned (compacted c ∷ behind) (on_compacted c behind st)
  compacted-IsScanned c behind st s =
      elim (compacted-cases c behind st st.active_segment _ _ refl refl) [
        | inl idle ↦ idle-IsScanned (compacted c) behind st (on_compacted c behind st) idle s
        | inr (r, e, h) ↦ checkpoint-IsScanned c behind st (on_compacted c behind st) r e h s
      ]

  item-IsScanned :
      (x : RolloutItem) (behind : List RolloutItem) (st : ScanState)
      → is_rollback x ≡ false
      → IsScanned behind st
      → IsScanned (x ∷ behind) (on_item x behind st)
  unfolding on_item
  item-IsScanned (compacted c) behind st h s = compacted-IsScanned c behind st s
  item-IsScanned (event_msg ev) behind st h s =
      idle-IsScanned (event_msg ev) behind st (on_event (rollout_event ev) st)
        (event-IsIdle (rollout_event ev) st h s.0) s
  item-IsScanned (response_item r) behind st h s =
      idle-IsScanned (response_item r) behind st (on_input (to_input_item r) st)
        (input-IsIdle (to_input_item r) st) s
  item-IsScanned (turn_context ctx) behind st h s =
      idle-IsScanned (turn_context ctx) behind st (on_turn_context ctx st)
        (turn_context-IsIdle ctx st st.active_segment) s
  item-IsScanned session_meta behind st h s =
      idle-IsScanned session_meta behind st st (refl, refl, refl) s

  pub scan_item-IsScanned :
      (x : RolloutItem) (behind : List RolloutItem) (st : ScanState)
      → is_rollback x ≡ false
      → IsScanned behind st
      → IsScanned (x ∷ behind) (scan_item x behind st)
  unfolding scan_item
  scan_item-IsScanned x behind st h s =
      item-IsScanned x behind
        (record st { last_token_info = or_else st.last_token_info (token_info_of x) }) h s
