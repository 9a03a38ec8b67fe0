-- ===== src/HeadTail/Tail.antt =====
-- What `push_to_tail` does to the tail: it keeps the last `tail_budget` bytes that reached it.
use mosaic_desktop.Prelude.{
  ℕ, ◌+◌, ◌-◌, ◌^◌, ◌≤◌, ◌<◌, ◌≡◌, refl, ap, ◌∙◌, sym, inl, inr, List, [], ◌∷◌, ◌++◌, append-nil,
  arith, length, drop, concat, leb, ◌==◌, ==_iff, Bool-cases, leb→le, leb_false→lt, concat-append,
  length-append, length-drop, drop_all, drop-append, sub_usize, add_usize,
}
use mosaic_desktop.HeadTail.{Chunk, HeadTailBuffer, trim_front, append_tail, push_to_tail}
use mosaic_desktop.HeadTail.Lastn.{lastn, lastn-append, lastn-append_long}

-- What trimming `excess` bytes off the chunks `ts` leaves.
pub record Trims (excess : ℕ) (ts : List Chunk) (omitted : ℕ) (r : List Chunk × ℕ × ℕ)
    : Type 0 where
  pub bytes : concat r.0 ≡ drop excess (concat ts)
  pub count : r.1 ≡ length (concat ts) - excess
  pub counted : r.2 ≡ omitted + excess

drop_front :
    (excess : ℕ) (front rest : Chunk)
    → length front ≤ excess
    → drop (excess - length front) rest ≡ drop excess (front ++ rest)
drop_front excess front rest h = rw (drop-append excess front rest, drop_all excess front h)

drop_within :
    (excess : ℕ) (front rest : Chunk)
    → excess ≤ length front
    → drop excess front ++ rest ≡ drop excess (front ++ rest)
drop_within excess front rest h =
    let e : 0 ≡ excess - length front = omega arith in
    rw (drop-append excess front rest) (ap (λ k. drop excess front ++ drop k rest) e)

pub trim_front-Trims :
    (excess : ℕ) (ts : List Chunk) (tail_bytes omitted : ℕ)
    → tail_bytes ≡ length (concat ts)
    → excess ≤ tail_bytes
    → tail_bytes < 2 ^ 64
    → omitted + excess < 2 ^ 64
    → Trims excess ts omitted (trim_front excess ts tail_bytes omitted)
unfolding trim_front
trim_front-Trims excess [] tb om e le small room =
    let z : excess ≡ 0 = omega arith in
    record { bytes = rw z; count = omega arith; counted = omega arith }
trim_front-Trims excess (front ∷ rest) tb om e le small room = elim (Bool-cases (excess == 0)) [
  | inl zero ↦
      let z : excess ≡ 0 = (==_iff excess 0).0 zero in
      rw zero (record { bytes = rw z; count = omega arith; counted = omega arith })
  | inr more ↦ elim (Bool-cases (leb (length front) excess)) [
    | inl whole ↦
        let fits : length front ≤ excess = leb→le _ _ whole in
        let len : length (front ++ concat rest) ≡ length front + length (concat rest) =
          length-append front (concat rest) in
        let ih =
          trim_front-Trims (sub_usize excess (length front)) rest (sub_usize tb (length front))
            (add_usize om (length front)) (omega arith) (omega arith) (omega arith) (omega arith) in
        let cut : sub_usize excess (length front) ≡ excess - length front = omega arith in
        rw (more, whole)
          (record {
            bytes =
                ih.bytes
                ∙ ap (λ k. drop k (concat rest)) cut
                ∙ drop_front excess front (concat rest) fits;
            count = omega (arith, ih.count);
            counted = omega (arith, ih.counted);
          })
    | inr part ↦
        let fits : excess < length front = leb_false→lt _ _ part in
        rw (more, part)
          (record {
            bytes = drop_within excess front (concat rest) (omega arith);
            count = omega arith;
            counted = omega arith;
          })
  ]
]

-- The tail holds the last `tail_budget` bytes of `t`, and counts them.
pub record HoldsTail (b : HeadTailBuffer) (t : Chunk) : Type 0 where
  pub bytes : concat b.tail ≡ lastn b.tail_budget t
  pub count : b.tail_bytes ≡ length (concat b.tail)

-- What a push of `chunk` to the tail of `b`, which `t` has reached before, leads to.
pub record TailPushed (b : HeadTailBuffer) (t chunk : Chunk) (b' : HeadTailBuffer) : Type 0 where
  pub bytes : concat b'.tail ≡ lastn b.tail_budget (t ++ chunk)
  pub count : b'.tail_bytes ≡ length (concat b'.tail)
  pub conserved : b'.omitted_bytes + b'.tail_bytes ≡ b.omitted_bytes + b.tail_bytes + length chunk
  pub head : b'.head ≡ b.head
  pub head_bytes : b'.head_bytes ≡ b.head_bytes
  pub head_budget : b'.head_budget ≡ b.head_budget
  pub tail_budget : b'.tail_budget ≡ b.tail_budget

append_tail-TailPushed :
    (b : HeadTailBuffer) (t chunk : Chunk)
    → HoldsTail b t
    → length chunk < b.tail_budget
    → b.tail_budget < 2 ^ 63
    → b.omitted_bytes + b.tail_bytes + length chunk < 2 ^ 64
    → TailPushed b t chunk (append_tail b chunk)
unfolding append_tail
append_tail-TailPushed b t chunk h short small room = record {
  bytes =
      trimmed.bytes
      ∙ ap (λ k. drop k (concat (b.tail ++ chunk ∷ []))) total
      ∙ ap (lastn b.tail_budget) joined
      ∙ lastn-append b.tail_budget t chunk;
  count = omega (arith, ap length trimmed.bytes, trimmed.count, length-drop excess (concat chunks));
  conserved = omega (arith, trimmed.count, trimmed.counted, sum);
  head = refl;
  head_bytes = refl;
  head_budget = refl;
  tail_budget = refl;
}
  where
    chunks : List Chunk
    chunks = b.tail ++ chunk ∷ []

    tail_bytes : ℕ
    tail_bytes = add_usize b.tail_bytes (length chunk)

    excess : ℕ
    excess = tail_bytes - b.tail_budget

    joined : concat (b.tail ++ chunk ∷ []) ≡ lastn b.tail_budget t ++ chunk
    joined = rw (concat-append b.tail (chunk ∷ []), h.bytes, append-nil chunk)

    whole : concat (b.tail ++ chunk ∷ []) ≡ concat b.tail ++ chunk
    whole = rw (concat-append b.tail (chunk ∷ []), append-nil chunk)

    sum : length (concat (b.tail ++ chunk ∷ [])) ≡ b.tail_bytes + length chunk
    sum = ap length whole ∙ omega (arith, length-append (concat b.tail) chunk, h.count)

    total : excess ≡ length (concat (b.tail ++ chunk ∷ [])) - b.tail_budget
    total = omega (arith, sum)

    trimmed :
        Trims excess chunks b.omitted_bytes (trim_front excess chunks tail_bytes b.omitted_bytes)
    trimmed =
        trim_front-Trims excess chunks tail_bytes b.omitted_bytes (omega (arith, sum)) (omega arith)
          (omega arith) (omega arith)

-- The whole of `push_to_tail`.
pub push_to_tail-TailPushed :
    (b : HeadTailBuffer) (t chunk : Chunk)
    → HoldsTail b t
    → b.tail_budget < 2 ^ 63
    → b.omitted_bytes + b.tail_bytes + length chunk < 2 ^ 64
    → TailPushed b t chunk (push_to_tail b chunk)
unfolding push_to_tail
push_to_tail-TailPushed b t chunk h small room = elim (Bool-cases (b.tail_budget == 0)) [
  | inl zero ↦
      let z : b.tail_budget ≡ 0 = (==_iff b.tail_budget 0).0 zero in
      let none_kept : concat b.tail ≡ [] = h.bytes ∙ drop_all _ t (omega arith) in
      rw zero (record {
        bytes = none_kept ∙ sym (drop_all _ (t ++ chunk) (omega arith));
        count = h.count;
        conserved = omega arith;
        head = refl;
        head_bytes = refl;
        head_budget = refl;
        tail_budget = refl;
      })
  | inr some_kept ↦ elim (Bool-cases (leb b.tail_budget (length chunk))) [
    | inl long ↦
        let fits : b.tail_budget ≤ length chunk = leb→le _ _ long in
        let len = length-drop (length chunk - b.tail_budget) chunk in
        rw (some_kept, long)
          (record {
            bytes = append-nil _ ∙ sym (lastn-append_long b.tail_budget t chunk fits);
            count = ap length (sym (append-nil (drop (length chunk - b.tail_budget) chunk)));
            conserved = omega (arith, len);
            head = refl;
            head_bytes = refl;
            head_budget = refl;
            tail_budget = refl;
          })
    | inr short ↦
        rw (some_kept, short)
          (append_tail-TailPushed b t chunk h (leb_false→lt _ _ short) small room)
  ]
]
