-- ===== src/HeadTail/Tests.antt =====
-- Runs of the buffer, and its theorems at concrete chunks.
use mosaic_desktop.Prelude.{
  ◌+◌, ◌≡◌, refl, List, [], ◌∷◌, ◌++◌, arith, concat, length, take, drop, min,
}
use mosaic_desktop.HeadTail.{
  Chunk, new, retained_bytes, trim_front, append_tail, push_to_tail, push_head_part, push_chunk,
  to_bytes, drain_chunks, push_chunks,
}
use mosaic_desktop.HeadTail.Lastn.{lastn}
use mosaic_desktop.HeadTail.Contents.{
  to_bytes-push_chunks, retained_bytes-push_chunks, drain_chunks-push_chunks,
}

-- The unit test `fills_head_then_tail_across_multiple_chunks`, by the digits' values.
abbrev chunks : List Chunk
chunks = (0 ∷ 1 ∷ []) ∷ (2 ∷ 3 ∷ 4 ∷ []) ∷ (5 ∷ 6 ∷ 7 ∷ []) ∷ (8 ∷ 9 ∷ []) ∷ (10 ∷ []) ∷ []

run_chunks : to_bytes (push_chunks (new 10) chunks) ≡ 0 ∷ 1 ∷ 2 ∷ 3 ∷ 4 ∷ 6 ∷ 7 ∷ 8 ∷ 9 ∷ 10 ∷ []
unfolding to_bytes push_chunks push_chunk push_head_part push_to_tail append_tail trim_front new
run_chunks = refl

no_budget : retained_bytes (push_chunks (new 0) chunks) ≡ 0
unfolding retained_bytes push_chunks push_chunk new
no_budget = refl

to_bytes-push_chunks_example :
    to_bytes (push_chunks (new 10) chunks)
    ≡ take 5 (concat chunks) ++ lastn 5 (drop 5 (concat chunks))
to_bytes-push_chunks_example = to_bytes-push_chunks 10 chunks (omega arith) (omega arith)

retained_bytes-push_chunks_example :
    (let b = push_chunks (new 10) chunks in
      (retained_bytes b ≡ length (to_bytes b))
      × (retained_bytes b ≡ min 10 (length (concat chunks)))
      × (b.omitted_bytes + retained_bytes b ≡ length (concat chunks)))
retained_bytes-push_chunks_example =
    retained_bytes-push_chunks 10 chunks (omega arith) (omega arith)

drain_chunks-push_chunks_example :
    (let b = push_chunks (new 10) chunks in
      (concat (drain_chunks b).0 ≡ to_bytes b) × ((drain_chunks b).1 ≡ new 10))
drain_chunks-push_chunks_example = drain_chunks-push_chunks 10 chunks
