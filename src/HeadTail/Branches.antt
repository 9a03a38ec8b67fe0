-- ===== src/HeadTail/Branches.antt =====
-- What a buffer holds after the bytes pushed to it, and each branch of `push_chunk`.
use mosaic_desktop.Prelude.{
  ℕ, ◌+◌, ◌-◌, ◌/◌, ◌%◌, ◌^◌, ◌≤◌, ◌<◌, ◌≡◌, refl, ap, ◌∙◌, sym, [], ◌∷◌, ◌++◌, append-nil, arith,
  length, take, drop, concat, concat-append, length-append, length-drop, length-take, take_all,
  drop_all, take-append, drop-append, min, usize_max,
}
use mosaic_desktop.HeadTail.{Chunk, HeadTailBuffer, new, push_to_tail, push_head_part}
use mosaic_desktop.HeadTail.Lastn.{lastn}
use mosaic_desktop.HeadTail.Tail.{HoldsTail, TailPushed, push_to_tail-TailPushed}

-- The buffer `b` after the bytes `s`.
pub record Holds (b : HeadTailBuffer) (s : Chunk) : Type 0 where
  pub head : concat b.head ≡ take b.head_budget s
  pub head_count : b.head_bytes ≡ length (concat b.head)
  pub tail : concat b.tail ≡ lastn b.tail_budget (drop b.head_budget s)
  pub tail_count : b.tail_bytes ≡ length (concat b.tail)
  pub conserved : b.omitted_bytes + b.tail_bytes + b.head_bytes ≡ length s
  pub small_head : b.head_budget < 2 ^ 63
  pub small_tail : b.tail_budget < 2 ^ 63

pub new-Holds : (max_bytes : ℕ) → max_bytes < 2 ^ 63 → Holds (new max_bytes) []
unfolding new
new-Holds m h = record {
  head = sym (take_all (m / 2) [] (omega arith));
  head_count = refl;
  tail =
      sym (
        drop_all _ (drop (m / 2) [])
          (omega (arith, length-drop (m / 2) (let e : Chunk = [] in e))));
  tail_count = refl;
  conserved = omega arith;
  small_head = omega arith;
  small_tail = omega arith;
}

-- A push of `back` to the tail of `b`, whose head is that of `s` already.
tail-Holds :
    (b b' : HeadTailBuffer) (s t back : Chunk)
    → TailPushed b t back b'
    → concat b.head ≡ take b.head_budget s
    → b.head_bytes ≡ length (concat b.head)
    → t ++ back ≡ drop b.head_budget s
    → b.omitted_bytes + b.tail_bytes + b.head_bytes + length back ≡ length s
    → b.head_budget < 2 ^ 63
    → b.tail_budget < 2 ^ 63
    → Holds b' s
tail-Holds b b' s t back p head count split sum sh st = record {
  head = rw (p.head, p.head_budget) head;
  head_count = rw (p.head, p.head_bytes) count;
  tail = p.bytes ∙ rw (p.head_budget, p.tail_budget) (ap (lastn b.tail_budget) split);
  tail_count = p.count;
  conserved = omega (arith, p.conserved, p.head_bytes);
  small_head = omega (arith, p.head_budget);
  small_tail = omega (arith, p.tail_budget);
}

-- `push_head_part` appends to the head, also where there is nothing to append.
record HeadPushed (b : HeadTailBuffer) (front : Chunk) (b' : HeadTailBuffer) : Type 0 where
  head : concat b'.head ≡ concat b.head ++ front
  head_bytes : b'.head_bytes ≡ b.head_bytes + length front
  tail : b'.tail ≡ b.tail
  tail_bytes : b'.tail_bytes ≡ b.tail_bytes
  omitted : b'.omitted_bytes ≡ b.omitted_bytes
  head_budget : b'.head_budget ≡ b.head_budget
  tail_budget : b'.tail_budget ≡ b.tail_budget

push_head_part-HeadPushed :
    (b : HeadTailBuffer) (front : Chunk)
    → b.head_bytes + length front < 2 ^ 64
    → HeadPushed b front (push_head_part b front)
unfolding push_head_part
push_head_part-HeadPushed b [] h = record {
  head = sym (append-nil _);
  head_bytes = omega arith;
  tail = refl;
  tail_bytes = refl;
  omitted = refl;
  head_budget = refl;
  tail_budget = refl;
}
push_head_part-HeadPushed b (x ∷ xs) h = record {
  head = rw (concat-append b.head ((x ∷ xs) ∷ []), append-nil xs);
  head_bytes = omega arith;
  tail = refl;
  tail_bytes = refl;
  omitted = refl;
  head_budget = refl;
  tail_budget = refl;
}

module _ (b : HeadTailBuffer) (s c : Chunk) (h : Holds b s)
    (room : length s + length c < 2 ^ 64) where
  pub head_len : b.head_bytes ≡ min b.head_budget (length s)
  head_len = h.head_count ∙ ap length h.head ∙ length-take b.head_budget s

  -- The branch for a buffer without budget.
  pub drop-Holds :
      b.head_budget ≡ 0
      → b.tail_budget ≡ 0
      → Holds (record b { omitted_bytes = min (b.omitted_bytes + length c) usize_max }) (s ++ c)
  drop-Holds zh zt =
      let gone : concat b.tail ≡ [] = h.tail ∙ drop_all _ (drop b.head_budget s) (omega arith) in
      let empty : concat b.head ≡ [] = h.head ∙ rw zh refl in
      record {
        head = empty ∙ rw zh refl;
        head_count = h.head_count;
        tail = gone ∙ sym (drop_all _ (drop b.head_budget (s ++ c)) (omega arith));
        tail_count = h.tail_count;
        conserved = omega (arith, h.conserved, length-append s c);
        small_head = h.small_head;
        small_tail = h.small_tail;
      }

  -- The branch for a chunk that the head has room for.
  pub fit-Holds :
      b.head_bytes < b.head_budget
      → length c ≤ b.head_budget - b.head_bytes
      → Holds
          (record b { head = b.head ++ c ∷ []; head_bytes = (b.head_bytes + length c) % 2 ^ 64 })
          (s ++ c)
  fit-Holds below fits =
      let short : length s < b.head_budget = omega (arith, head_len) in
      let len = length-append s c in
      let joined : concat (b.head ++ c ∷ []) ≡ concat b.head ++ c =
        rw (concat-append b.head (c ∷ []), append-nil c) in
      let whole : concat b.head ≡ s = h.head ∙ take_all b.head_budget s (omega arith) in
      let none_over : drop b.head_budget (s ++ c) ≡ [] =
        drop_all b.head_budget (s ++ c) (omega (arith, len, head_len)) in
      record {
        head =
            joined
            ∙ ap (λ l. l ++ c) whole
            ∙ sym (take_all b.head_budget (s ++ c) (omega (arith, len, head_len)));
        head_count =
            omega (
              arith,
              ap length joined,
              length-append (concat b.head) c,
              h.head_count,
              h.small_head,
            );
        tail =
            h.tail
            ∙ ap (lastn b.tail_budget) (drop_all b.head_budget s (omega arith) ∙ sym none_over);
        tail_count = h.tail_count;
        conserved = omega (arith, h.conserved, len, h.small_head);
        small_head = h.small_head;
        small_tail = h.small_tail;
      }

  tail_before : HoldsTail b (drop b.head_budget s)
  tail_before = record { bytes = h.tail; count = h.tail_count }

  -- The branch for a full head.
  pub full-Holds : b.head_budget ≤ b.head_bytes → Holds (push_to_tail b c) (s ++ c)
  full-Holds full =
      let long : b.head_budget ≤ length s = omega (arith, head_len) in
      let z : b.head_budget - length s ≡ 0 = omega arith in
      tail-Holds b (push_to_tail b c) (s ++ c) (drop b.head_budget s) c
        (push_to_tail-TailPushed b (drop b.head_budget s) c tail_before h.small_tail
          (omega (arith, h.conserved)))
        (h.head ∙ rw (take-append b.head_budget s c, z) (sym (append-nil _))) h.head_count
        (rw (drop-append b.head_budget s c, z)) (omega (arith, h.conserved, length-append s c))
        h.small_head h.small_tail

  -- The branch for a chunk that is cut between the head and the tail.
  pub cut-Holds :
      b.head_bytes < b.head_budget
      → b.head_budget - b.head_bytes < length c
      → (let r = b.head_budget - b.head_bytes in
          Holds (push_to_tail (push_head_part b (take r c)) (drop r c)) (s ++ c))
  cut-Holds below over =
      tail-Holds mid (push_to_tail mid back) (s ++ c) (drop b.head_budget s) back
        (push_to_tail-TailPushed mid (drop b.head_budget s) back before small
          (omega (arith, p.tail_bytes, p.omitted, h.conserved, back_len)))
        (p.head ∙ ap (λ l. l ++ front) whole ∙ sym cut ∙ rw p.head_budget refl)
        (omega (
          arith,
          p.head_bytes,
          h.head_count,
          ap length p.head,
          length-append (concat b.head) front,
        ))
        (rw (p.head_budget, drop-append b.head_budget s c, room_left))
        (omega (
          arith,
          p.tail_bytes,
          p.omitted,
          p.head_bytes,
          h.conserved,
          back_len,
          front_len,
          length-append s c,
        ))
        (omega (arith, p.head_budget, h.small_head)) small
    where
      r : ℕ
      r = b.head_budget - b.head_bytes

      front : Chunk
      front = take r c

      back : Chunk
      back = drop r c

      mid : HeadTailBuffer
      mid = push_head_part b front

      front_len : length front ≡ min r (length c)
      front_len = length-take r c

      back_len : length back ≡ length c - r
      back_len = length-drop r c

      p : HeadPushed b front mid
      p = push_head_part-HeadPushed b front (omega (arith, front_len, h.small_head))

      whole : concat b.head ≡ s
      whole = h.head ∙ take_all b.head_budget s (omega (arith, head_len))

      room_left : b.head_budget - length s ≡ r
      room_left = omega (arith, head_len)

      cut : take b.head_budget (s ++ c) ≡ s ++ front
      cut =
          rw (take-append b.head_budget s c, room_left)
            (ap (λ l. l ++ front) (take_all b.head_budget s (omega (arith, head_len))))

      before : HoldsTail mid (drop b.head_budget s)
      before = record {
        bytes = rw (p.tail, p.tail_budget) h.tail;
        count = rw (p.tail, p.tail_bytes) h.tail_count;
      }

      small : mid.tail_budget < 2 ^ 63
      small = omega (arith, p.tail_budget, h.small_tail)
