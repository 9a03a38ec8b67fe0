-- ===== src/Rollout/Reconstruction/Equivalence.antt =====
-- Rebuilding from the newest checkpoint (src-tauri/src/core/rollout/reconstruction.rs), compared with a
-- replay of the whole rollout.
use mosaic_desktop.Prelude.{
  ◌≡◌, inl, inr, refl, sym, ◌∙◌, false, Option, none, some, List, [], ◌∷◌, ◌++◌, append-nil,
  append_assoc, All, Bool-cases, arith, ltb,
}
use mosaic_desktop.Protocol.Items.{ResponseInputItem}
use mosaic_desktop.Protocol.Events.{RolloutItem}
use mosaic_desktop.ContextManager.History.{ItemTruncationPolicy}
use mosaic_desktop.Rollout.Reconstruction.{
  ActiveReplaySegment, ScanState, start, scan, scan_item, is_done, scanned, finalized,
  finalize_active_segment, keep_segment, reverse_onto, reverse,
}
use mosaic_desktop.Rollout.Reconstruction.Forward.{
  replay, replay_start, reconstruct_history_from_rollout,
}
use mosaic_desktop.Rollout.Reconstruction.Replay.{items_of, replay-append}
use mosaic_desktop.Rollout.Reconstruction.Idle.{found, or_else-none, finalized-IsIdle, is_rollback}
use mosaic_desktop.Rollout.Reconstruction.Scan.{Rebuilds, IsScanned, scan_item-IsScanned}

reverse_onto-suffix {ℓ} :
    {A : Type ℓ} (xs ys : List A) → (pre : List A) × (reverse_onto xs ys ≡ pre ++ ys)
reverse_onto-suffix [] ys = ([], refl)
reverse_onto-suffix (x ∷ xs) ys =
    let (pre, e) = reverse_onto-suffix xs (x ∷ ys) in
    (pre ++ (x ∷ []), e ∙ sym (append_assoc pre (x ∷ []) ys))

reverse_onto-reverse_onto {ℓ} :
    {A : Type ℓ} (xs ys zs : List A)
    → reverse_onto (reverse_onto xs ys) zs ≡ reverse_onto ys (xs ++ zs)
reverse_onto-reverse_onto [] ys zs = refl
reverse_onto-reverse_onto (x ∷ xs) ys zs = reverse_onto-reverse_onto xs (x ∷ ys) zs

pub reverse-reverse {ℓ} : {A : Type ℓ} (xs : List A) → reverse_onto (reverse xs) [] ≡ xs
reverse-reverse xs = reverse_onto-reverse_onto xs [] [] ∙ append-nil xs

All-reverse_onto {ℓ κ} :
    {A : Type ℓ} (P : A → Type κ) (xs ys : List A)
    → All P xs
    → All P ys
    → All P (reverse_onto xs ys)
All-reverse_onto P [] ys h k = k
All-reverse_onto P (x ∷ xs) ys h k = All-reverse_onto P xs (x ∷ ys) h.1 (h.0, k)

finalized-found :
    (st : ScanState) (a : Option ActiveReplaySegment)
    → st.pending_rollback_turns ≡ 0
    → (finalized a (record st { active_segment = a })).base_replacement_history
      ≡ found (record st { active_segment = a })
unfolding finalize_active_segment keep_segment
finalized-found st none h = sym (or_else-none st.base_replacement_history)
finalized-found st (some seg) h =
    let none_pending : ltb 0 st.pending_rollback_turns ≡ false = ground arith in
    rw none_pending refl

abbrev IsNoRollback : RolloutItem → Type 0
IsNoRollback item = is_rollback item ≡ false

module _ (policy : ItemTruncationPolicy) (whole : List RolloutItem) where
  -- The scan stops somewhere, with the items that it has visited behind it.
  scan-IsScanned :
      (rest behind : List RolloutItem) (st : ScanState)
      → All IsNoRollback rest
      → reverse_onto rest behind ≡ whole
      → IsScanned policy whole behind st
      → (pre visited : List RolloutItem) × (whole ≡ pre ++ visited)
        × IsScanned policy whole visited (scan rest behind st)
  unfolding scan
  scan-IsScanned [] behind st h e s = ([], behind, sym e, s)
  scan-IsScanned (x ∷ rest) behind st h e s =
      let s' = scan_item-IsScanned policy whole x behind st h.0 s in
      elim (Bool-cases (is_done (scan_item x behind st))) [
        | inl over ↦
            let (pre, split) = reverse_onto-suffix rest (x ∷ behind) in
            (pre, x ∷ behind, sym e ∙ split, rw over s')
        | inr more ↦ rw more (scan-IsScanned rest (x ∷ behind) (scan_item x behind st) h.1 e s')
      ]

  Rebuilds-whole :
      (pre visited suffix : List RolloutItem) (base : Option (List ResponseInputItem))
      → whole ≡ pre ++ visited
      → Rebuilds policy whole visited base suffix
      → items_of (replay policy suffix (replay_start base))
        ≡ items_of (replay policy whole (replay_start none))
  Rebuilds-whole pre visited suffix base e (inl (absent, full)) = rw (absent, full) refl
  Rebuilds-whole pre visited suffix base e (inr (r, is_some, h)) =
      rw (is_some, e, replay-append policy pre visited (replay_start none))
        (sym (h (replay policy pre (replay_start none))))

  scanned-Rebuilds :
      (pre visited : List RolloutItem) (st : ScanState)
      → whole ≡ pre ++ visited
      → IsScanned policy whole visited st
      → items_of (
          replay policy
            (finalized st.active_segment st).rollout_suffix
            (replay_start (finalized st.active_segment st).base_replacement_history))
        ≡ items_of (replay policy whole (replay_start none))
  scanned-Rebuilds pre visited st e (z, h) =
      rw (finalized-found st st.active_segment z, (finalized-IsIdle st st.active_segment z).2)
        (Rebuilds-whole pre visited st.rollout_suffix (found st) e h)

-- Without rollback markers, the reverse scan for a checkpoint loses nothing: the history that
-- `reconstruct_history_from_rollout` rebuilds is that of replaying the whole rollout, oldest item
-- first, from an empty history.
pub reconstruct-replay :
    (items : List RolloutItem) (policy : ItemTruncationPolicy)
    → All (λ item. is_rollback item ≡ false) items
    → (reconstruct_history_from_rollout items policy).rebuilt_history
      ≡ items_of (replay policy items (replay_start none))
unfolding reconstruct_history_from_rollout scanned
reconstruct-replay items policy h =
    let (pre, visited, e, s) =
      scan-IsScanned policy items (reverse items) [] (start items)
        (All-reverse_onto IsNoRollback items [] h tt) (reverse-reverse items)
        (refl, inl (refl, refl)) in
    scanned-Rebuilds policy items pre visited (scan (reverse items) [] (start items)) e s
