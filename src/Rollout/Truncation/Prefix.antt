-- ===== src/Rollout/Truncation/Prefix.antt =====
-- The user-message positions of a rollout that is cut (src-tauri/src/core/rollout/truncation.rs).
use mosaic_desktop.Prelude.{
  ℕ, zero, suc, ◌+◌, ◌-◌, ◌≤◌, ◌<◌, ◌≡◌, ◌≢◌, ◌⊎◌, inl, inr, refl, ap, sym, ◌∙◌, true, false, some,
  List, [], ◌∷◌, ◌++◌, length, take, get_elem?, length-take, leb, ◌==◌, usize_max, arith,
}
use mosaic_desktop.Protocol.Events.{RolloutItem}
use mosaic_desktop.Rollout.Truncation.{
  Boundary, pushes, passes, drops, boundary, step, positions_from, user_message_positions,
  truncate_before_nth_user_message,
}

get_elem?-some {ℓ} :
    {A : Type ℓ} (xs : List A) (n : ℕ) → n < length xs → (a : A) × (get_elem? xs n ≡ some a)
get_elem?-some [] n h = absurd (omega arith)
get_elem?-some (x ∷ xs) zero h = (x, refl)
get_elem?-some (x ∷ xs) (suc n) h = get_elem?-some xs n (omega arith)

take-take_le {ℓ} : {A : Type ℓ} (m n : ℕ) (xs : List A) → n ≤ m → take n (take m xs) ≡ take n xs
take-take_le m zero xs h = refl
take-take_le zero (suc n) xs h = absurd (omega arith)
take-take_le (suc m) (suc n) [] h = refl
take-take_le (suc m) (suc n) (x ∷ xs) h = ap (λ l. x ∷ l) (take-take_le m n xs (omega arith))

get_elem?-take {ℓ} :
    {A : Type ℓ} (m n : ℕ) (xs : List A) → n < m → get_elem? (take m xs) n ≡ get_elem? xs n
get_elem?-take zero n xs h = absurd (omega arith)
get_elem?-take (suc m) n [] h = refl
get_elem?-take (suc m) zero (x ∷ xs) h = refl
get_elem?-take (suc m) (suc n) (x ∷ xs) h = get_elem?-take m n xs (omega arith)

-- An element of a list with one more at its end is the last one, or one of the list.
get_elem?-snoc {ℓ} :
    {A : Type ℓ} (xs : List A) (x : A) (n : ℕ)
    → n < length (xs ++ x ∷ [])
    → ((n < length xs)
        × (get_elem? (xs ++ x ∷ []) n ≡ get_elem? xs n)
        × (take n (xs ++ x ∷ []) ≡ take n xs))
      ⊎ ((get_elem? (xs ++ x ∷ []) n ≡ some x) × (take n (xs ++ x ∷ []) ≡ xs))
get_elem?-snoc [] x zero h = inr (refl, refl)
get_elem?-snoc [] x (suc n) h = absurd (omega arith)
get_elem?-snoc (y ∷ ys) x zero h = inl (omega arith, refl, refl)
get_elem?-snoc (y ∷ ys) x (suc n) h = elim (get_elem?-snoc ys x n (omega arith)) [
  | inl (lt, e, t) ↦ inl (omega arith, e, ap (λ l. y ∷ l) t)
  | inr (e, t) ↦ inr (e, ap (λ l. y ∷ l) t)
]

-- A position of the result was there before, or its item is among those read since, and reading
-- up to it leaves the positions in front of it.
Settled : ℕ → ℕ → ℕ → List ℕ → List ℕ → List RolloutItem → Type 0
Settled n cut idx ps qs items =
    ((n < length ps) × (get_elem? ps n ≡ some cut) × (take n ps ≡ take n qs))
    ⊎ ((j : ℕ) × (cut ≡ idx + j)
        × (j < length items)
        × (positions_from idx ps (take j items) ≡ take n qs))

step-kept :
    (b : Boundary) (idx : ℕ) (ps : List ℕ) (n cut : ℕ)
    → n < length (step b idx ps)
    → get_elem? (step b idx ps) n ≡ some cut
    → ((n < length ps) × (get_elem? ps n ≡ some cut) × (take n ps ≡ take n (step b idx ps)))
      ⊎ ((cut ≡ idx) × (take n (step b idx ps) ≡ ps))
unfolding step
step-kept passes idx ps n cut h e = inl (h, e, refl)
step-kept (drops d) idx ps n cut h e =
    let lt : n < length ps - d = omega (arith, length-take (length ps - d) ps) in
    inl (
      omega arith,
      sym (get_elem?-take (length ps - d) n ps lt) ∙ e,
      sym (take-take_le (length ps - d) n ps (omega arith)),
    )
step-kept pushes idx ps n cut h e = elim (get_elem?-snoc ps idx n h) [
  | inl (lt, same, t) ↦ inl (lt, sym same ∙ e, sym t)
  | inr (last, t) ↦ inr (cc, t)
]

positions-Settled :
    (items : List RolloutItem) (idx : ℕ) (ps : List ℕ) (n cut : ℕ)
    → n < length (positions_from idx ps items)
    → get_elem? (positions_from idx ps items) n ≡ some cut
    → Settled n cut idx ps (positions_from idx ps items) items
unfolding positions_from Settled
positions-Settled [] idx ps n cut h e = inl (h, e, refl)
positions-Settled (x ∷ items) idx ps n cut h e =
    elim (positions-Settled items (suc idx) (step (boundary x) idx ps) n cut h e) [
      | inl (lt, get, t) ↦ elim (step-kept (boundary x) idx ps n cut lt get) [
        | inl (lt', get', t') ↦ inl (lt', get', t' ∙ t)
        | inr (here, t') ↦ inr (0, omega arith, omega arith, sym t' ∙ t)
      ]
      | inr (j, there, lt, same) ↦ inr (suc j, omega arith, omega arith, same)
    ]

-- Where the rollout has more than `n` user messages (`n` not `usize::MAX`), the cut is inside the
-- rollout, so that the slice does not panic, and gives a prefix with exactly the first `n` of its
-- user-message positions: what later rollbacks drop is never in front of the cut.
pub truncate_before-positions :
    (items : List RolloutItem) (n : ℕ)
    → n < length (user_message_positions items)
    → n ≢ usize_max
    → (cut : ℕ) × (get_elem? (user_message_positions items) n ≡ some cut)
      × (truncate_before_nth_user_message items n ≡ some (take cut items))
      × (user_message_positions (take cut items) ≡ take n (user_message_positions items))
unfolding truncate_before_nth_user_message user_message_positions Settled
truncate_before-positions items n h other =
    let (cut, e) = get_elem?-some (user_message_positions items) n h in
    elim (positions-Settled items 0 [] n cut h e) [
      | inl (lt, _, _) ↦ absurd (omega arith)
      | inr (j, there, lt, same) ↦
          let not_max : (n == usize_max) ≡ false = ground arith in
          let more : leb (length (user_message_positions items)) n ≡ false = ground arith in
          let inside : leb cut (length items) ≡ true = ground arith in
          let at_cut : cut ≡ j = omega arith in
          (cut, e, rw (not_max, more, e, inside) refl, rw at_cut same)
    ]
