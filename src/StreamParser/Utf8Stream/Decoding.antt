-- ===== src/StreamParser/Utf8Stream/Decoding.antt =====
-- Decoding the valid bytes of a text alone.
use mosaic_desktop.Prelude.{
  ℕ, zero, suc, ◌+◌, ◌-◌, ◌≤◌, ◌≡◌, inl, inr, refl, ap, subst, List, [], ◌∷◌, length, take,
  Bool-cases, if◌then◌else◌, arith, ◌*◌,
}
use mosaic_desktop.StreamParser.Utf8Stream.{
  Lead, one, two, three, four, no_lead, lead_of, Head, char, bad, cut, within, rest_of, head_of,
  fine, Decoded, width, on_head, run,
}

-- The bytes of a character that is whole, and those of a prefix that holds it.
rest_of-take :
    (ranges : List (ℕ × ℕ)) (value n : ℕ) (s : List ℕ) (c k m : ℕ)
    → rest_of ranges value n s ≡ char c k
    → k ≤ n + m
    → (k ≡ n + length ranges)
      × (length ranges ≤ length s)
      × (rest_of ranges value n (take m s) ≡ char c k)
unfolding rest_of
rest_of-take [] value n s c k m e h = (omega (arith, ap width e), omega arith, e)
rest_of-take (r ∷ ranges) value n [] c k m e h = cc
rest_of-take (r ∷ ranges) value n (d ∷ s) c k zero e h =
    let more = rest_of ranges (value * 64 + (d - 0x80)) (suc n) s in
    elim (Bool-cases (within r.0 r.1 d)) [
      | inl inside ↦
          let e' : more ≡ char c k =
            subst (λ t. (if t then more else bad (suc n)) ≡ char c k) inside e in
          let (all, fits, _) =
            rest_of-take ranges (value * 64 + (d - 0x80)) (suc n) s c k k e' (omega arith) in
          absurd (omega arith)
      | inr outside ↦
          let e' : bad (suc n) ≡ char c k =
            subst (λ t. (if t then more else bad (suc n)) ≡ char c k) outside e in
          cc
    ]
rest_of-take (r ∷ ranges) value n (d ∷ s) c k (suc m) e h =
    let more = rest_of ranges (value * 64 + (d - 0x80)) (suc n) s in
    elim (Bool-cases (within r.0 r.1 d)) [
      | inl inside ↦
          let e' : more ≡ char c k =
            subst (λ t. (if t then more else bad (suc n)) ≡ char c k) inside e in
          let (all, fits, kept) =
            rest_of-take ranges (value * 64 + (d - 0x80)) (suc n) s c k m e' (omega arith) in
          (omega arith, omega arith, rw inside kept)
      | inr outside ↦
          let e' : bad (suc n) ≡ char c k =
            subst (λ t. (if t then more else bad (suc n)) ≡ char c k) outside e in
          cc
    ]

head_of-take :
    (lead : Lead) (b : ℕ) (s : List ℕ) (c k m : ℕ)
    → head_of lead b s ≡ char c k
    → k ≤ m
    → (k ≤ length s) × (head_of lead b (take m s) ≡ char c k)
unfolding head_of
head_of-take one b s c k m e h = (omega (arith, ap width e), e)
head_of-take two b s c k m e h =
    let (all, fits, kept) = rest_of-take _ _ 0 s c k m e (omega arith) in (omega arith, kept)
head_of-take (three lo hi) b s c k m e h =
    let (all, fits, kept) = rest_of-take _ _ 0 s c k m e (omega arith) in (omega arith, kept)
head_of-take (four lo hi) b s c k m e h =
    let (all, fits, kept) = rest_of-take _ _ 0 s c k m e (omega arith) in (omega arith, kept)
head_of-take no_lead b s c k m e h = cc

-- The valid bytes hold the whole of a character that is skipped.
skip-valid_up_to : (skip : ℕ) (s : List ℕ) → skip ≤ length s → skip ≤ (run skip s).valid_up_to
unfolding run
skip-valid_up_to zero s h = omega arith
skip-valid_up_to (suc skip) [] h = absurd (omega arith)
skip-valid_up_to (suc skip) (b ∷ s) h = omega (arith, skip-valid_up_to skip s (omega arith))

-- What decoding the valid bytes alone gives.
abbrev pub prefix_of : Decoded → Decoded
prefix_of r = record r { fault = fine }

pub run-take :
    (skip : ℕ) (s : List ℕ) → run skip (take (run skip s).valid_up_to s) ≡ prefix_of (run skip s)
unfolding run
run-take skip [] = refl
run-take (suc skip) (b ∷ s) =
    ap {A = Decoded} (λ r. record r { valid_up_to = suc r.valid_up_to }) (run-take skip s)
run-take zero (b ∷ s) = at_head (head_of (lead_of b) b s) refl (λ k. run-take k s)
  where
    at_head :
        (h : Head)
        → head_of (lead_of b) b s ≡ h
        → ((k : ℕ) → run k (take (run k s).valid_up_to s) ≡ prefix_of (run k s))
        → run zero (take (on_head h (run (width h) s)).valid_up_to (b ∷ s))
          ≡ prefix_of (on_head h (run (width h) s))
    at_head (bad n) e behind = refl
    at_head cut e behind = refl
    at_head (char c k) e behind =
        let fits = (head_of-take (lead_of b) b s c k k e (omega arith)).0 in
        let kept =
          (head_of-take (lead_of b) b s c k (run k s).valid_up_to e
            (skip-valid_up_to k s fits)).1 in
        rw kept (ap (on_head (char c k)) (behind k))

-- Where there is no fault, all of the bytes are valid.
pub valid_up_to-fine :
    (skip : ℕ) (s : List ℕ) → (run skip s).fault ≡ fine → (run skip s).valid_up_to ≡ length s
unfolding run
valid_up_to-fine skip [] h = refl
valid_up_to-fine (suc skip) (b ∷ s) h = omega (arith, valid_up_to-fine skip s h)
valid_up_to-fine zero (b ∷ s) h = at_head (head_of (lead_of b) b s) h (λ k. valid_up_to-fine k s)
  where
    at_head :
        (h : Head)
        → (on_head h (run (width h) s)).fault ≡ fine
        → ((k : ℕ) → (run k s).fault ≡ fine → (run k s).valid_up_to ≡ length s)
        → (on_head h (run (width h) s)).valid_up_to ≡ suc (length s)
    at_head (bad n) e behind = cc
    at_head cut e behind = cc
    at_head (char c k) e behind = omega (arith, behind k e)
