-- ===== src/HeadTail.antt =====
-- src-tauri/src/core/unified_exec/head_tail_buffer.rs: a capped buffer that keeps a prefix and a
-- suffix of the bytes pushed to it. A chunk is the list of its bytes; a `VecDeque` is a list, front
-- first. A method returns the new buffer.
pub mod Lastn
pub mod Tail
pub mod Branches
pub mod Contents
mod Tests
use mosaic_desktop.Prelude.{
  ℕ, ◌-◌, ◌+◌, ◌/◌, Bool, ◌&&◌, not, List, [], ◌∷◌, ◌++◌, length, take, drop, concat, ltb, leb,
  ◌==◌, if◌then◌else◌, add_usize, sub_usize, saturating_add,
}

abbrev pub Chunk : Type 0
Chunk = List ℕ

pub record HeadTailBuffer : Type 0 where
  pub head_budget : ℕ
  pub tail_budget : ℕ
  pub head : List Chunk
  pub tail : List Chunk
  pub head_bytes : ℕ
  pub tail_bytes : ℕ
  pub omitted_bytes : ℕ

pub new : ℕ → HeadTailBuffer
new max_bytes = record {
  head_budget = max_bytes / 2;
  tail_budget = max_bytes - max_bytes / 2;
  head = [];
  tail = [];
  head_bytes = 0;
  tail_bytes = 0;
  omitted_bytes = 0;
}

pub retained_bytes : HeadTailBuffer → ℕ
retained_bytes b = saturating_add b.head_bytes b.tail_bytes

-- The `while excess > 0` loop at the end of `push_to_tail`.
pub trim_front : ℕ → List Chunk → ℕ → ℕ → List Chunk × ℕ × ℕ
trim_front excess [] tail_bytes omitted = ([], tail_bytes, omitted)
trim_front excess (front ∷ rest) tail_bytes omitted =
    let popped =
      trim_front (sub_usize excess (length front)) rest (sub_usize tail_bytes (length front))
        (add_usize omitted (length front)) in
    if excess == 0
    then (front ∷ rest, tail_bytes, omitted)
    else if leb (length front) excess
    then popped
    else (drop excess front ∷ rest, sub_usize tail_bytes excess, add_usize omitted excess)

-- The branch of `push_to_tail` for a chunk that fits: append it, then trim the oldest chunks.
pub append_tail : HeadTailBuffer → Chunk → HeadTailBuffer
append_tail b chunk =
    let tail_bytes = add_usize b.tail_bytes (length chunk) in
    let (tail', tail_bytes', omitted') =
      trim_front (tail_bytes - b.tail_budget) (b.tail ++ chunk ∷ []) tail_bytes b.omitted_bytes in
    record b { tail = tail'; tail_bytes = tail_bytes'; omitted_bytes = omitted' }

pub push_to_tail : HeadTailBuffer → Chunk → HeadTailBuffer
push_to_tail b chunk =
    if b.tail_budget == 0
    then record b { omitted_bytes = saturating_add b.omitted_bytes (length chunk) }
    else if leb b.tail_budget (length chunk)
    then (let kept = drop (length chunk - b.tail_budget) chunk in
        record b {
          tail = kept ∷ [];
          tail_bytes = length kept;
          omitted_bytes =
              saturating_add (saturating_add b.omitted_bytes b.tail_bytes)
                (length chunk - length kept);
        })
    else append_tail b chunk

-- `if !head_part.is_empty()`
pub push_head_part : HeadTailBuffer → Chunk → HeadTailBuffer
push_head_part b [] = b
push_head_part b (x ∷ xs) = record b {
  head = b.head ++ (x ∷ xs) ∷ [];
  head_bytes = add_usize b.head_bytes (length (x ∷ xs));
}

pub push_chunk : HeadTailBuffer → Chunk → HeadTailBuffer
push_chunk b chunk =
    let remaining = b.head_budget - b.head_bytes in
    if b.head_budget == 0 && b.tail_budget == 0
    then record b { omitted_bytes = saturating_add b.omitted_bytes (length chunk) }
    else if ltb b.head_bytes b.head_budget
    then (if leb (length chunk) remaining
        then record b {
          head = b.head ++ chunk ∷ [];
          head_bytes = add_usize b.head_bytes (length chunk);
        }
        else push_to_tail (push_head_part b (take remaining chunk)) (drop remaining chunk))
    else push_to_tail b chunk

pub snapshot_chunks : HeadTailBuffer → List Chunk
snapshot_chunks b = b.head ++ b.tail

pub to_bytes : HeadTailBuffer → Chunk
to_bytes b = concat b.head ++ concat b.tail

pub drain_chunks : HeadTailBuffer → List Chunk × HeadTailBuffer
drain_chunks b = (
  b.head ++ b.tail,
  record b { head = []; tail = []; head_bytes = 0; tail_bytes = 0; omitted_bytes = 0 },
)

-- A client's pushes, in order.
pub push_chunks : HeadTailBuffer → List Chunk → HeadTailBuffer
push_chunks b [] = b
push_chunks b (c ∷ cs) = push_chunks (push_chunk b c) cs
