-- ===== src/HeadTail/Contents.antt =====
-- A buffer holds the first half of its budget of the bytes that were pushed to it and, of the
-- others, the last bytes that the rest of the budget has room for.
use mosaic_desktop.Prelude.{
  ℕ, ◌+◌, ◌-◌, ◌/◌, ◌^◌, ◌<◌, ◌≡◌, refl, ap, ◌∙◌, inl, inr, List, [], ◌∷◌, ◌++◌, ◌&&◌, append-nil,
  append_assoc, arith, length, take, drop, concat, leb, ltb, ◌==◌, Bool-cases, leb→le, leb_false→lt,
  ltb→lt, ltb_false→le, length-append, length-take, length-drop, concat-append, min,
}
use mosaic_desktop.HeadTail.{
  Chunk, HeadTailBuffer, new, retained_bytes, append_tail, push_to_tail, push_head_part, push_chunk,
  to_bytes, drain_chunks, push_chunks,
}
use mosaic_desktop.HeadTail.Lastn.{lastn, length-lastn}
use mosaic_desktop.HeadTail.Branches.{
  Holds, new-Holds, drop-Holds, fit-Holds, full-Holds, cut-Holds,
}

-- One push appends to the bytes that the buffer has taken, on every branch.
pub push_chunk-Holds :
    (b : HeadTailBuffer) (s c : Chunk)
    → Holds b s
    → length s + length c < 2 ^ 64
    → Holds (push_chunk b c) (s ++ c)
unfolding push_chunk
push_chunk-Holds b s c h room = elim (Bool-cases (b.head_budget == 0 && b.tail_budget == 0)) [
  | inl none_kept ↦ rw none_kept (drop-Holds b s c h room (ground arith) (ground arith))
  | inr kept ↦ elim (Bool-cases (ltb b.head_bytes b.head_budget)) [
    | inr full ↦ rw (kept, full) (full-Holds b s c h room (ltb_false→le _ _ full))
    | inl below ↦ elim (Bool-cases (leb (length c) (b.head_budget - b.head_bytes))) [
      | inl fits ↦
          rw (kept, below, fits) (fit-Holds b s c h room (ltb→lt _ _ below) (leb→le _ _ fits))
      | inr over ↦
          rw (kept, below, over) (cut-Holds b s c h room (ltb→lt _ _ below) (leb_false→lt _ _ over))
    ]
  ]
]

pub push_chunks-Holds :
    (b : HeadTailBuffer) (s : Chunk) (cs : List Chunk)
    → Holds b s
    → length s + length (concat cs) < 2 ^ 64
    → Holds (push_chunks b cs) (s ++ concat cs)
unfolding push_chunks
push_chunks-Holds b s [] h room = rw (append-nil s) h
push_chunks-Holds b s (c ∷ cs) h room =
    let len = length-append c (concat cs) in
    rw (← append_assoc s c (concat cs)) (
      push_chunks-Holds (push_chunk b c) (s ++ c) cs (push_chunk-Holds b s c h (omega (arith, len)))
        (omega (arith, len, length-append s c)))

SameBudget : HeadTailBuffer → HeadTailBuffer → Type 0
SameBudget b b' = (b'.head_budget ≡ b.head_budget) × (b'.tail_budget ≡ b.tail_budget)

push_head_part-SameBudget : (b : HeadTailBuffer) (c : Chunk) → SameBudget b (push_head_part b c)
unfolding push_head_part SameBudget
push_head_part-SameBudget b [] = (refl, refl)
push_head_part-SameBudget b (x ∷ xs) = (refl, refl)

push_to_tail-SameBudget : (b : HeadTailBuffer) (c : Chunk) → SameBudget b (push_to_tail b c)
unfolding push_to_tail append_tail SameBudget
push_to_tail-SameBudget b c = ground arith

push_chunk-SameBudget : (b : HeadTailBuffer) (c : Chunk) → SameBudget b (push_chunk b c)
unfolding push_chunk SameBudget
push_chunk-SameBudget b c =
    let r = b.head_budget - b.head_bytes in
    ground (
      arith,
      push_to_tail-SameBudget b c,
      push_head_part-SameBudget b (take r c),
      push_to_tail-SameBudget (push_head_part b (take r c)) (drop r c),
    )

push_chunks-SameBudget : (b : HeadTailBuffer) (cs : List Chunk) → SameBudget b (push_chunks b cs)
unfolding push_chunks SameBudget
push_chunks-SameBudget b [] = (refl, refl)
push_chunks-SameBudget b (c ∷ cs) =
    let p = push_chunk-SameBudget b c in
    let q = push_chunks-SameBudget (push_chunk b c) cs in (q.0 ∙ p.0, q.1 ∙ p.1)

module _ (m : ℕ) (cs : List Chunk) (small : m < 2 ^ 63) (room : length (concat cs) < 2 ^ 64) where
  after-Holds : Holds (push_chunks (new m) cs) (concat cs)
  after-Holds = push_chunks-Holds (new m) [] cs (new-Holds m small) (omega arith)

  after_budget : SameBudget (new m) (push_chunks (new m) cs)
  after_budget = push_chunks-SameBudget (new m) cs

  -- Whatever the chunks that a new buffer of `m` bytes is pushed, `to_bytes` returns the first
  -- `m / 2` bytes of their concatenation, followed by the last `m - m / 2` of the bytes behind
  -- those. Assumed: `m` is below 2^63 and the bytes pushed are fewer than 2^64.
  pub to_bytes-push_chunks :
      to_bytes (push_chunks (new m) cs)
      ≡ take (m / 2) (concat cs) ++ lastn (m - m / 2) (drop (m / 2) (concat cs))
  unfolding to_bytes new SameBudget
  to_bytes-push_chunks = rw (after-Holds.head, after-Holds.tail, after_budget.0, after_budget.1)

  -- The counters of a new buffer of `m` bytes are exact after any chunks: `retained_bytes` is the
  -- number of bytes that `to_bytes` returns, which is the smaller of `m` and the number pushed, and
  -- with `omitted_bytes` it makes up the number pushed. Assumed: `m` is below 2^63 and the bytes
  -- pushed are fewer than 2^64.
  pub retained_bytes-push_chunks :
      (let b = push_chunks (new m) cs in
        (retained_bytes b ≡ length (to_bytes b))
        × (retained_bytes b ≡ min m (length (concat cs)))
        × (b.omitted_bytes + retained_bytes b ≡ length (concat cs)))
  unfolding retained_bytes to_bytes new SameBudget
  retained_bytes-push_chunks =
      let b = push_chunks (new m) cs in
      let s = concat cs in
      let h = after-Holds in
      let bytes = length-append (concat b.head) (concat b.tail) in
      let head = ap length h.head ∙ length-take b.head_budget s in
      let tail = ap length h.tail ∙ length-lastn b.tail_budget (drop b.head_budget s) in
      let rest = length-drop b.head_budget s in
      (
        omega (arith, h.head_count, h.tail_count, h.conserved, bytes),
        omega (arith, h.head_count, h.tail_count, h.conserved, head, tail, rest, after_budget),
        omega (arith, h.conserved),
      )

-- `drain_chunks` after any chunks returns chunks that hold the bytes of `to_bytes`, and leaves the
-- buffer as `new` made it, so that its next use starts afresh.
pub drain_chunks-push_chunks :
    (m : ℕ) (cs : List Chunk)
    → (let b = push_chunks (new m) cs in
        (concat (drain_chunks b).0 ≡ to_bytes b) × ((drain_chunks b).1 ≡ new m))
unfolding drain_chunks to_bytes new SameBudget
drain_chunks-push_chunks m cs =
    let b = push_chunks (new m) cs in
    let budget = push_chunks-SameBudget (new m) cs in
    (concat-append b.head b.tail, cc (budget.0, budget.1))
