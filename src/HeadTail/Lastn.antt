-- ===== src/HeadTail/Lastn.antt =====
-- The last bytes of a sequence.
use mosaic_desktop.Prelude.{
  ℕ, ◌-◌, ◌+◌, ◌≤◌, ◌≡◌, ap₂, ap, List, ◌++◌, length, drop, arith, length-append, length-drop,
  drop-append, drop-drop, drop_all,
}

module _ {ℓ} {A : Type ℓ} where
  -- The last `n` elements, or all of them.
  abbrev pub lastn : ℕ → List A → List A
  lastn n xs = drop (length xs - n) xs

  pub length-lastn : (n : ℕ) (xs : List A) → length (lastn n xs) ≡ length xs - (length xs - n)
  length-lastn n xs = length-drop (length xs - n) xs

  -- What was cut off earlier is not among the last `n`.
  pub lastn-append : (n : ℕ) (t d : List A) → lastn n (lastn n t ++ d) ≡ lastn n (t ++ d)
  lastn-append n t d =
      let cut = length t - n in
      let kept = length (drop cut t ++ d) - n in
      let len : length (drop cut t ++ d) ≡ length t - cut + length d =
        omega (arith, length-append (drop cut t) d, length-drop cut t) in
      let total : kept + cut ≡ length (t ++ d) - n = omega (arith, len, length-append t d) in
      let over : kept - length (drop cut t) ≡ length (t ++ d) - n - length t =
        omega (arith, len, length-append t d, length-drop cut t) in
      rw (drop-append kept (drop cut t) d, drop-append (length (t ++ d) - n) t d)
        (rw drop-drop (ap₂ (λ i j. drop i t ++ drop j d) total over))

  -- Of a long addition the last `n` are the last `n` of all.
  pub lastn-append_long :
      (n : ℕ) (t d : List A) → n ≤ length d → lastn n (t ++ d) ≡ drop (length d - n) d
  lastn-append_long n t d h =
      let whole : length t ≤ length (t ++ d) - n = omega (arith, length-append t d) in
      let rest : length (t ++ d) - n - length t ≡ length d - n = omega (arith, length-append t d) in
      rw (drop-append (length (t ++ d) - n) t d, drop_all (length (t ++ d) - n) t whole)
        (ap (λ k. drop k d) rest)
