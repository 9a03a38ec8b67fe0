-- ===== src/HistoryTruncation/Budget.antt =====
-- The items that `apply_truncation` keeps within a budget of tokens.
use mosaic_desktop.Prelude.{
  ℕ, suc, ◌+◌, ◌-◌, ◌^◌, ◌≤◌, ◌<◌, ◌≡◌, ◌⊎◌, inl, inr, refl, ◌∙◌, List, [], ◌∷◌, length, take, drop,
  ltb, add_usize, Bool-cases, arith, length-append, length-drop,
}
use mosaic_desktop.Protocol.Items.{ResponseInputItem}
use mosaic_desktop.HistoryTruncation.{
  keep_recent_tokens, estimate_tokens, kept_within, reversed, apply_truncation,
}

abbrev pub total : List ResponseInputItem → ℕ
total [] = 0
total (x ∷ xs) = estimate_tokens x + total xs

-- The newest items that are kept are within the budget, and one more would be over it.
IsLongest : ℕ → ℕ → List ResponseInputItem → ℕ → Type 0
IsLongest max_tokens cumulative newest k =
    (k ≤ length newest)
    × (cumulative + total (take k newest) ≤ max_tokens)
    × ((k ≡ length newest) ⊎ (max_tokens < cumulative + total (take (suc k) newest)))

kept_within-IsLongest :
    (max_tokens cumulative : ℕ) (newest : List ResponseInputItem)
    → cumulative ≤ max_tokens
    → cumulative + total newest < 2 ^ 64
    → IsLongest max_tokens cumulative newest (kept_within max_tokens cumulative newest)
unfolding kept_within IsLongest
kept_within-IsLongest m cum [] h fits = (omega arith, omega arith, inl refl)
kept_within-IsLongest m cum (x ∷ xs) h fits =
    let plain : add_usize cum (estimate_tokens x) ≡ cum + estimate_tokens x = omega arith in
    elim (Bool-cases (ltb m (cum + estimate_tokens x))) [
      | inl over ↦ rw (plain, over) (omega arith, omega arith, inr (ground arith))
      | inr under ↦
          let within : cum + estimate_tokens x ≤ m = ground arith in
          let (some_kept, fit, longest) =
            kept_within-IsLongest m (cum + estimate_tokens x) xs within (omega arith) in
          rw (plain, under)
            (
              omega arith,
              omega arith,
              elim longest [ inl all ↦ inl (omega arith) | inr over ↦ inr (omega arith) ],
            )
    ]

length-reversed {ℓ} : {A : Type ℓ} (xs : List A) → length (reversed xs) ≡ length xs
length-reversed [] = refl
length-reversed (x ∷ xs) = omega (arith, length-append (reversed xs) (x ∷ []), length-reversed xs)

-- `KeepRecentTokens` keeps the newest items, as many as the budget of tokens allows: those that it
-- keeps are within it, and one item more is over it. Assumed: the estimates together are below 2^64.
apply_truncation-IsLongest :
    (history : List ResponseInputItem) (max_tokens : ℕ)
    → total (reversed history) < 2 ^ 64
    → (k : ℕ) × (length (apply_truncation history (keep_recent_tokens max_tokens)) ≡ k)
      × (apply_truncation history (keep_recent_tokens max_tokens)
          ≡ drop (length history - k) history)
      × (total (take k (reversed history)) ≤ max_tokens)
      × ((k ≡ length history) ⊎ (max_tokens < total (take (suc k) (reversed history))))
unfolding apply_truncation IsLongest
apply_truncation-IsLongest history m fits =
    let k = kept_within m 0 (reversed history) in
    let (le, fit, longest) =
      kept_within-IsLongest m 0 (reversed history) (omega arith) (omega arith) in
    let same = length-reversed history in
    (
      k,
      omega (arith, length-drop (length history - k) history),
      refl,
      omega arith,
      elim longest [ inl all ↦ inl (all ∙ same) | inr over ↦ inr (omega arith) ],
    )
