-- ===== src/ContextManager/History/Turns.antt =====
-- `drop_last_n_user_turns`, against the prefix of a history before its k-th user message.
use mosaic_desktop.Prelude.{
  ℕ, zero, suc, ◌+◌, ◌-◌, ◌≤◌, ◌<◌, ◌≡◌, refl, ap, ◌∙◌, sym, some, List, [], ◌∷◌, length, take,
  get_elem?, leb, leb→le, leb_false→lt, ◌==◌, ==_iff, min, arith, if◌then◌else◌, Bool-cases, inl,
  inr,
}
use mosaic_desktop.Protocol.Items.{ResponseInputItem, is_user_message}
use mosaic_desktop.ContextManager.History.{
  ContextManager, user_positions, truncate_at, drop_turns, drop_turns_of, drop_last_n_user_turns,
}

-- The number of user messages.
pub user_count : List ResponseInputItem → ℕ
user_count [] = 0
user_count (x ∷ xs) = (if is_user_message x then 1 else 0) + user_count xs

-- The items before the user message with the number `k`, counted from 0: all, if there is none.
pub before_user : ℕ → List ResponseInputItem → List ResponseInputItem
before_user k [] = []
before_user zero (x ∷ xs) =
    let rest = before_user zero xs in if is_user_message x then [] else x ∷ rest
before_user (suc k) (x ∷ xs) = x ∷ before_user (if is_user_message x then k else suc k) xs

length-user_positions :
    (i : ℕ) (xs : List ResponseInputItem) → length (user_positions i xs) ≡ user_count xs
unfolding user_positions user_count
length-user_positions i [] = refl
length-user_positions i (x ∷ xs) = ground (arith, length-user_positions (suc i) xs)

before_user_all : (k : ℕ) (xs : List ResponseInputItem) → user_count xs ≤ k → before_user k xs ≡ xs
unfolding before_user user_count
before_user_all zero [] h = refl
before_user_all (suc k) [] h = refl
before_user_all zero (x ∷ xs) h = ground (arith, before_user_all zero xs)
before_user_all (suc k) (x ∷ xs) h = elim (Bool-cases (is_user_message x)) [
  | inl e ↦ rw e (ap (λ l. x ∷ l) (before_user_all k xs (ground arith)))
  | inr e ↦ rw e (ap (λ l. x ∷ l) (before_user_all (suc k) xs (ground arith)))
]

-- The position with the number `k` is where `before_user k` ends.
record Cuts (i k : ℕ) (xs : List ResponseInputItem) (c : ℕ) : Type 0 where
  within : i ≤ c
  prefix : take (c - i) xs ≡ before_user k xs

Cuts-cons :
    (i k k' c : ℕ) (x : ResponseInputItem) (xs : List ResponseInputItem)
    → Cuts (suc i) k xs c
    → before_user k' (x ∷ xs) ≡ x ∷ before_user k xs
    → Cuts i k' (x ∷ xs) c
Cuts-cons i k k' c x xs h e =
    let n : c - i ≡ suc (c - suc i) = omega (arith, h.within) in
    record { within = omega (arith, h.within); prefix = rw (n, e) (ap (λ l. x ∷ l) h.prefix) }

user_positions-Cuts :
    (i k c : ℕ) (xs : List ResponseInputItem)
    → get_elem? (user_positions i xs) k ≡ some c
    → Cuts i k xs c
unfolding user_positions before_user
user_positions-Cuts i k c [] h = cc
user_positions-Cuts i zero c (x ∷ xs) h = elim (Bool-cases (is_user_message x)) [
  | inl e ↦
      let z : i ≡ c = ground arith in
      let n : c - i ≡ 0 = omega arith in record { within = omega arith; prefix = rw (e, n) }
  | inr e ↦
      Cuts-cons i zero zero c x xs (user_positions-Cuts (suc i) zero c xs (ground arith)) (rw e)
]
user_positions-Cuts i (suc k) c (x ∷ xs) h = elim (Bool-cases (is_user_message x)) [
  | inl e ↦ Cuts-cons i k (suc k) c x xs (user_positions-Cuts (suc i) k c xs (ground arith)) (rw e)
  | inr e ↦
      Cuts-cons i (suc k) (suc k) c x xs (user_positions-Cuts (suc i) (suc k) c xs (ground arith))
        (rw e)
]

get_elem?-some {ℓ} :
    {A : Type ℓ} (xs : List A) (k : ℕ) → k < length xs → (a : A) × (get_elem? xs k ≡ some a)
get_elem?-some [] k h = absurd (omega arith)
get_elem?-some (x ∷ xs) zero h = (x, refl)
get_elem?-some (x ∷ xs) (suc k) h = get_elem?-some xs k (omega arith)

take_cut :
    (k c : ℕ) (xs : List ResponseInputItem)
    → get_elem? (user_positions 0 xs) k ≡ some c
    → take c xs ≡ before_user k xs
take_cut k c xs h =
    let n : c ≡ c - 0 = omega arith in
    ap (λ j. take j xs) n ∙ (user_positions-Cuts 0 k c xs h).prefix

drop_turns_lem :
    (ps : List ℕ) (n : ℕ) (xs : List ResponseInputItem)
    → user_positions 0 xs ≡ ps
    → 0 < n
    → drop_turns ps n xs ≡ before_user (user_count xs - n) xs
unfolding drop_turns truncate_at
drop_turns_lem [] n xs e pos = sym (
    before_user_all (user_count xs - n) xs (omega (arith, ap length e, length-user_positions 0 xs)))
drop_turns_lem (p ∷ ps) n xs e pos =
    let count : length (p ∷ ps) ≡ user_count xs = ap length (sym e) ∙ length-user_positions 0 xs in
    elim (Bool-cases (leb (length (p ∷ ps)) n)) [
      | inl all ↦
          let z : user_count xs - n ≡ 0 = omega (arith, count, leb→le _ _ all) in
          rw (all, z) (take_cut 0 p xs (rw e))
      | inr some_left ↦
          let fewer = leb_false→lt _ _ some_left in
          let found = get_elem?-some (p ∷ ps) (length (p ∷ ps) - n) (omega (arith, fewer)) in
          rw (some_left, found.1)
            (take_cut (length (p ∷ ps) - n) found.0 xs (rw e found.1)
              ∙ ap (λ k. before_user (k - n) xs) count)
    ]

drop_turns_of_lem :
    (xs : List ResponseInputItem) (n : ℕ) → drop_turns_of xs n ≡ before_user (user_count xs - n) xs
unfolding drop_turns_of
drop_turns_of_lem xs n = elim (Bool-cases (n == 0)) [
  | inl e ↦
      let z = (==_iff n 0).0 e in rw e (sym (before_user_all (user_count xs - n) xs (omega arith)))
  | inr e ↦ rw e (drop_turns_lem (user_positions 0 xs) n xs refl (ground arith))
]

-- `drop_last_n_user_turns(n)` keeps exactly the items before the n-th user message from the end: all
-- of them if `n` is 0 or there is no user message, and those before the first user message if there
-- are no more than `n`.
pub drop_last_n_user_turns_lem :
    (c : ContextManager) (n : ℕ)
    → (drop_last_n_user_turns c n).items ≡ before_user (user_count c.items - n) c.items
unfolding drop_last_n_user_turns
drop_last_n_user_turns_lem c n = drop_turns_of_lem c.items n

user_count-before_user :
    (k : ℕ) (xs : List ResponseInputItem) → user_count (before_user k xs) ≡ min k (user_count xs)
unfolding user_count before_user
user_count-before_user zero [] = omega arith
user_count-before_user (suc k) [] = omega arith
user_count-before_user zero (x ∷ xs) = ground (arith, user_count-before_user zero xs)
user_count-before_user (suc k) (x ∷ xs) =
    ground (arith, user_count-before_user k xs, user_count-before_user (suc k) xs)

before_user-before_user :
    (j k : ℕ) (xs : List ResponseInputItem)
    → j ≤ k
    → before_user j (before_user k xs) ≡ before_user j xs
unfolding before_user
before_user-before_user zero zero [] h = refl
before_user-before_user zero (suc k) [] h = refl
before_user-before_user (suc j) zero [] h = refl
before_user-before_user (suc j) (suc k) [] h = refl
before_user-before_user zero zero (x ∷ xs) h = ground (arith, before_user-before_user zero zero xs)
before_user-before_user zero (suc k) (x ∷ xs) h =
    ground (arith, before_user-before_user zero k xs, before_user-before_user zero (suc k) xs)
before_user-before_user (suc j) zero (x ∷ xs) h = absurd (omega arith)
before_user-before_user (suc j) (suc k) (x ∷ xs) h =
    ground (arith, before_user-before_user j k xs, before_user-before_user (suc j) (suc k) xs)

drop_turns_of_twice :
    (xs : List ResponseInputItem) (m n : ℕ)
    → drop_turns_of (drop_turns_of xs m) n ≡ drop_turns_of xs (m + n)
drop_turns_of_twice xs m n =
    let k = user_count xs - m in
    let left : user_count (before_user k xs) - n ≡ user_count xs - (m + n) =
      omega (arith, user_count-before_user k xs) in
    let below : user_count xs - (m + n) ≤ k = omega arith in
    rw
      (
        drop_turns_of_lem (drop_turns_of xs m) n,
        drop_turns_of_lem xs m,
        drop_turns_of_lem xs (m + n),
        left,
      )
      (before_user-before_user (user_count xs - (m + n)) k xs below)

-- Two rollbacks in a row drop the turns of one rollback by their sum.
pub drop_last_n_user_turns_twice :
    (c : ContextManager) (m n : ℕ)
    → drop_last_n_user_turns (drop_last_n_user_turns c m) n ≡ drop_last_n_user_turns c (m + n)
unfolding drop_last_n_user_turns
drop_last_n_user_turns_twice c m n =
    ap (λ items. record c { items = items }) (drop_turns_of_twice c.items m n)
