-- ===== src/StreamParser/Inline/Search.antt =====
-- Searching a delimiter in a text that is only partly there: what `find` and the kept suffix say
-- of every longer text.
use mosaic_desktop.Prelude.{
  ℕ, ◌+◌, ◌-◌, ◌≤◌, ◌<◌, ◌≡◌, refl, ap, ap₂, sym, ◌∙◌, inl, inr, true, false, ◌&&◌, Option, none,
  some, [], ◌∷◌, ◌++◌, zero, suc, min, append-nil, Text, text_eq, starts_with, ltb, ==_iff,
  if◌then◌else◌, Bool-cases, length, take, drop, arith, ltb→lt, ltb_false→le, length-append,
}
use mosaic_desktop.StreamParser.Inline.{
  plus, find, ends_with_first, suffix_len_from, longest_suffix_prefix_len,
}

-- The suffix that may begin an occurrence of the delimiter: the first that is a proper prefix of it.
unfoldable pub hold : Text → Text → Text
hold needle [] = []
hold needle (c ∷ s) =
    let rest = hold needle s in
    if starts_with needle (c ∷ s) && ltb (length (c ∷ s)) (length needle) then c ∷ s else rest

-- What stands before it.
unfoldable pub front : Text → Text → Text
front needle [] = []
front needle (c ∷ s) =
    let rest = front needle s in
    if starts_with needle (c ∷ s) && ltb (length (c ∷ s)) (length needle) then [] else c ∷ rest

pub front-hold : (needle s : Text) → front needle s ++ hold needle s ≡ s
unfolding front hold
front-hold needle [] = refl
front-hold needle (c ∷ s) =
    elim (Bool-cases (starts_with needle (c ∷ s) && ltb (length (c ∷ s)) (length needle))) [
      | inl held ↦ rw held refl
      | inr other ↦ rw other (ap (◌∷◌ c) (front-hold needle s))
    ]

starts_with-append : (s t n : Text) → starts_with s n ≡ true → starts_with (s ++ t) n ≡ true
starts_with-append s t [] h = refl
starts_with-append [] t (d ∷ n) h = cc
starts_with-append (c ∷ s) t (d ∷ n) h = ground (arith, starts_with-append s t n)

starts_with_longer :
    (s t n : Text) → starts_with s n ≡ false → length n ≤ length s → starts_with (s ++ t) n ≡ false
starts_with_longer s t [] h len = cc
starts_with_longer [] t (d ∷ n) h len = ground arith
starts_with_longer (c ∷ s) t (d ∷ n) h len = ground (arith, starts_with_longer s t n)

-- A text that neither begins with the delimiter nor begins it does not begin with it when longer.
starts_with_apart :
    (s t n : Text)
    → starts_with s n ≡ false
    → starts_with n s ≡ false
    → starts_with (s ++ t) n ≡ false
starts_with_apart s t [] h g = cc
starts_with_apart [] t (d ∷ n) h g = cc
starts_with_apart (c ∷ s) t (d ∷ n) h g =
    ground (arith, starts_with_apart s t n, ==_iff c d, ==_iff d c)

not_held_apart :
    (s t n : Text)
    → starts_with s n ≡ false
    → (starts_with n s && ltb (length s) (length n)) ≡ false
    → starts_with (s ++ t) n ≡ false
not_held_apart s t n h held = elim (Bool-cases (ltb (length s) (length n))) [
  | inr long ↦ starts_with_longer s t n h (ltb_false→le _ _ long)
  | inl short ↦
      let apart : starts_with n s ≡ false = ground arith in starts_with_apart s t n h apart
]

pub starts_with-length : (s n : Text) → starts_with s n ≡ true → length n ≤ length s
starts_with-length s [] h = omega arith
starts_with-length [] (d ∷ n) h = cc
starts_with-length (c ∷ s) (d ∷ n) h = ground (arith, starts_with-length s n)

plus_zero : (o : Option ℕ) → plus 0 o ≡ o
plus_zero none = refl
plus_zero (some i) = ap some (omega arith)

plus-plus : (m n : ℕ) (o : Option ℕ) → plus m (plus n o) ≡ plus (m + n) o
plus-plus m n none = refl
plus-plus m n (some i) = ap some (omega arith)

plus-some : (o : Option ℕ) (i : ℕ) → plus 1 o ≡ some i → (j : ℕ) × (o ≡ some j) × (i ≡ suc j)
plus-some none i h = cc
plus-some (some j) i h = (j, refl, ground arith)

plus-none : (n : ℕ) (o : Option ℕ) → plus n o ≡ none → o ≡ none
plus-none n none h = refl
plus-none n (some i) h = cc

pub find-length : (s n : Text) (i : ℕ) → find s n ≡ some i → i + length n ≤ length s
unfolding find
find-length [] [] i h = ground arith
find-length [] (d ∷ n) i h = cc
find-length (c ∷ s) n i h = elim (Bool-cases (starts_with (c ∷ s) n)) [
  | inl here ↦ ground (arith, starts_with-length (c ∷ s) n here)
  | inr later ↦
      let (j, found, one) = plus-some (find s n) i (rw later at h) in
      let rest = find-length s n j found in omega (arith, rest, one)
]

pub find-append : (s t n : Text) (i : ℕ) → find s n ≡ some i → find (s ++ t) n ≡ some i
unfolding find
find-append [] [] [] i h = h
find-append [] (d ∷ t) [] i h = h
find-append [] t (d ∷ n) i h = cc
find-append (c ∷ s) t n i h = elim (Bool-cases (starts_with (c ∷ s) n)) [
  | inl here ↦ rw (starts_with-append (c ∷ s) t n here) (rw here at h)
  | inr later ↦
      let (j, found, one) = plus-some (find s n) i (rw later at h) in
      let fits = find-length s n j found in
      let len : length n ≤ suc (length s) = omega (arith, fits) in
      rw (starts_with_longer (c ∷ s) t n later len, find-append s t n j found)
        (ap some (omega (arith, one)))
]

-- Where the delimiter is not found, it is found in a longer text where it is found in what is held
-- and the rest.
pub find-hold :
    (s t n : Text)
    → find s n ≡ none
    → find (s ++ t) n ≡ plus (length (front n s)) (find (hold n s ++ t) n)
unfolding find front hold
find-hold [] t n h = sym (plus_zero (find t n))
find-hold (c ∷ s) t n h =
    elim (Bool-cases (starts_with n (c ∷ s) && ltb (length (c ∷ s)) (length n))) [
      | inl held ↦ rw held (sym (plus_zero _))
      | inr other ↦ elim (Bool-cases (starts_with (c ∷ s) n)) [
        | inl here ↦ ground arith
        | inr later ↦
            let rest = find-hold s t n (plus-none 1 _ (rw later at h)) in
            rw (other, not_held_apart (c ∷ s) t n later other, rest)
              (plus-plus 1 (length (front n s)) (find (hold n s ++ t) n)
                ∙ ap (λ k. plus k (find (hold n s ++ t) n)) (omega arith))
      ]
    ]

text_eq-take : (s n : Text) → text_eq s (take (length s) n) ≡ starts_with n s
unfolding text_eq
text_eq-take [] n = refl
text_eq-take (c ∷ s) [] = refl
text_eq-take (c ∷ s) (d ∷ n) = ground (arith, text_eq-take s n)

suffix_len_from-cons :
    (c : ℕ) (s n : Text) (k : ℕ)
    → k ≤ length s
    → suffix_len_from (c ∷ s) n k ≡ suffix_len_from s n k
unfolding suffix_len_from ends_with_first
suffix_len_from-cons c s n zero h = refl
suffix_len_from-cons c s n (suc k) h =
    let shift : suc (length s) - suc k ≡ suc (length s - suc k) = omega arith in
    rw (shift, suffix_len_from-cons c s n k (omega arith)) refl

suffix_len_from-whole :
    (c : ℕ) (s n : Text)
    → suffix_len_from (c ∷ s) n (suc (length s))
      ≡ (if starts_with n (c ∷ s) then suc (length s) else suffix_len_from s n (length s))
unfolding suffix_len_from ends_with_first
suffix_len_from-whole c s n =
    let start : suc (length s) - suc (length s) ≡ 0 = omega arith in
    rw (start, text_eq-take (c ∷ s) n, suffix_len_from-cons c s n (length s) (omega arith)) refl

-- The suffix that `longest_suffix_prefix_len` measures.
pub longest-hold : (s n : Text) → longest_suffix_prefix_len s n ≡ length (hold n s)
unfolding longest_suffix_prefix_len hold suffix_len_from
longest-hold [] n = let none_left : min 0 (length n - 1) ≡ 0 = omega arith in rw none_left refl
longest-hold (c ∷ s) n = elim (Bool-cases (ltb (length (c ∷ s)) (length n))) [
  | inl short ↦
      let lt : suc (length s) < length n = ltb→lt _ _ short in
      let whole : min (suc (length s)) (length n - 1) ≡ suc (length s) = omega (arith, lt) in
      let rest : min (length s) (length n - 1) ≡ length s = omega (arith, lt) in
      let shorter : suffix_len_from s n (length s) ≡ length (hold n s) =
        ap (suffix_len_from s n) (sym rest) ∙ longest-hold s n in
      ap (suffix_len_from (c ∷ s) n) whole
      ∙ suffix_len_from-whole c s n
      ∙ elim (Bool-cases (starts_with n (c ∷ s))) [
        | inl held ↦ rw (held, short) refl
        | inr other ↦ rw (other, shorter) refl
      ]
  | inr long ↦
      let le : length n ≤ suc (length s) = ltb_false→le _ _ long in
      let same : min (suc (length s)) (length n - 1) ≡ min (length s) (length n - 1) =
        omega (arith, le) in
      let unheld : (starts_with n (c ∷ s) && ltb (suc (length s)) (length n)) ≡ false =
        ground arith in
      rw
        (
          same,
          suffix_len_from-cons c s n (min (length s) (length n - 1)) (omega (arith, le)),
          unheld,
        )
        (longest-hold s n)
]

pub drop-length_add : (a t : Text) (i : ℕ) → drop (length a + i) (a ++ t) ≡ drop i t
drop-length_add [] t i = let e : 0 + i ≡ i = omega arith in rw e refl
drop-length_add (c ∷ a) t i =
    let e : suc (length a) + i ≡ suc (length a + i) = omega arith in rw e (drop-length_add a t i)

pub take-length_add : (a t : Text) (i : ℕ) → take (length a + i) (a ++ t) ≡ a ++ take i t
take-length_add [] t i = let e : 0 + i ≡ i = omega arith in rw e refl
take-length_add (c ∷ a) t i =
    let e : suc (length a) + i ≡ suc (length a + i) = omega arith in
    rw e (ap (◌∷◌ c) (take-length_add a t i))

-- The loop keeps `hold` and drains `front`.
pub drop-front :
    (s n : Text)
    → (drop (length s - longest_suffix_prefix_len s n) s ≡ hold n s)
      × (take (length s - longest_suffix_prefix_len s n) s ≡ front n s)
drop-front s n =
    let len = ap length (front-hold n s) in
    let cut : length s - longest_suffix_prefix_len s n ≡ length (front n s) + 0 =
      omega (arith, longest-hold s n, sym len ∙ length-append (front n s) (hold n s)) in
    (
      ap₂ drop cut (sym (front-hold n s)) ∙ drop-length_add (front n s) (hold n s) 0,
      ap₂ take cut (sym (front-hold n s))
          ∙ take-length_add (front n s) (hold n s) 0
          ∙ append-nil (front n s),
    )

starts_with-prefix : (n s t : Text) → starts_with n (s ++ t) ≡ true → starts_with n s ≡ true
starts_with-prefix n [] t h = refl
starts_with-prefix [] (c ∷ s) t h = cc
starts_with-prefix (d ∷ n) (c ∷ s) t h = ground (arith, starts_with-prefix n s t)

-- What is held of a text, and of a longer one.
pub hold-append :
    (s t n : Text)
    → find s n ≡ none
    → (hold n (s ++ t) ≡ hold n (hold n s ++ t))
      × (front n (s ++ t) ≡ front n s ++ front n (hold n s ++ t))
unfolding hold front find
hold-append [] t n h = (refl, refl)
hold-append (c ∷ s) t n h =
    elim (Bool-cases (starts_with n (c ∷ s) && ltb (length (c ∷ s)) (length n))) [
      | inl held ↦ rw held (refl, refl)
      | inr other ↦ elim (Bool-cases (starts_with (c ∷ s) n)) [
        | inl here ↦ ground arith
        | inr later ↦
            let (holds, fronts) = hold-append s t n (plus-none 1 _ (rw later at h)) in
            let longer : (starts_with n (c ∷ s ++ t) && ltb (length (c ∷ s ++ t)) (length n))
                ≡ false =
              ground (arith, starts_with-prefix n (c ∷ s) t, length-append s t) in
            rw (other, longer) (holds, ap (◌∷◌ c) fronts)
      ]
    ]
