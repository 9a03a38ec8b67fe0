-- ===== src/StreamParser/Utf8Stream/Bytes.antt =====
-- What `push_bytes` does with the bytes of a chunk, on each of its branches.
use mosaic_desktop.Prelude.{
  ℕ, ◌≡◌, ◌⊎◌, inl, inr, refl, ap, sym, List, [], ◌∷◌, ◌++◌, length, take, drop, Bool-cases, arith,
  ◌==◌, ==_iff, Text, drop_all,
}
use mosaic_desktop.Protocol.Items.{Utf8}
use mosaic_desktop.StreamParser.{StreamTextChunk, no_chunk}
use mosaic_desktop.StreamParser.Utf8Stream.{
  Fault, fine, cut_off, invalid, run, from_utf8, invalid_utf8, ok, err, Utf8StreamParser, Step,
  pushed, rejected, push_decoded, push_bytes,
}
use mosaic_desktop.StreamParser.Utf8Stream.Decoding.{prefix_of, run-take, valid_up_to-fine}

take-append_left : (xs ys : List ℕ) → take (length xs) (xs ++ ys) ≡ xs
take-append_left [] ys = refl
take-append_left (x ∷ xs) ys = ap (λ l. x ∷ l) (take-append_left xs ys)

module _ {ℓ κ} {P : Type ℓ} {T : Type κ} (push_str : P → Text → P × StreamTextChunk T)
    (finish_inner : P → P × StreamTextChunk T) where
  -- The outcomes for the bytes that were pending, with those of the chunk behind them.
  abbrev pub Outcome : Utf8StreamParser P → Utf8 → Utf8 → Step push_str finish_inner → Type (ℓ ⊔ κ)
  Outcome st chunk pending step =
      let r = from_utf8 pending in
      ((n : ℕ) × (r.fault ≡ invalid n) × (step ≡ (st, err (invalid_utf8 r.valid_up_to n))))
      ⊎ (((r.fault ≡ cut_off)
            × (r.valid_up_to ≡ 0)
            × (step ≡ (record st { pending_utf8 = pending }, ok no_chunk)))
          ⊎ (((r.fault ≡ fine) ⊎ (r.fault ≡ cut_off))
              × (from_utf8 (take r.valid_up_to pending) ≡ prefix_of r)
              × (step
                  ≡ pushed push_str finish_inner (push_str st.inner r.text)
                      (drop r.valid_up_to pending))))

  -- An error has the pending bytes as they were before the chunk.
  rejected-same :
      (st : Utf8StreamParser P) (chunk : Utf8) (valid n : ℕ)
      → rejected push_str finish_inner st (st.pending_utf8 ++ chunk) valid n
        ≡ (st, err (invalid_utf8 valid n))
  rejected-same st chunk valid n =
      ap (λ l. (record st { pending_utf8 = l }, err (invalid_utf8 valid n)))
        (take-append_left st.pending_utf8 chunk)

  at_fault :
      (st : Utf8StreamParser P) (chunk : Utf8) (f : Fault)
      → (from_utf8 (st.pending_utf8 ++ chunk)).fault ≡ f
      → Outcome st chunk (st.pending_utf8 ++ chunk) (
          push_decoded push_str finish_inner f
            (from_utf8 (st.pending_utf8 ++ chunk))
            (st.pending_utf8 ++ chunk)
            st)
  unfolding from_utf8
  at_fault st chunk (invalid n) e = inl (n, e, rejected-same st chunk _ n)
  at_fault st chunk fine e =
      let pending = st.pending_utf8 ++ chunk in
      let all = valid_up_to-fine 0 pending e in
      inr (
        inr (
          inl e,
          run-take 0 pending,
          ap (pushed push_str finish_inner (push_str st.inner (run 0 pending).text))
              (sym (drop_all (run 0 pending).valid_up_to pending (omega arith))),
        ))
  at_fault st chunk cut_off e =
      let pending = st.pending_utf8 ++ chunk in
      elim (Bool-cases ((run 0 pending).valid_up_to == 0)) [
        | inl nothing ↦
            inr (inl (e, (==_iff (run 0 pending).valid_up_to 0).0 nothing, rw nothing refl))
        | inr some_text ↦
            inr (inr (inr e, run-take 0 pending, rw (some_text, run-take 0 pending) refl))
      ]

-- Whatever the parser that is wrapped: `push_bytes` returns an error exactly where the bytes pending
-- and those of the chunk hold an invalid sequence, and then changes nothing; where they only begin a
-- character, it keeps all of them; and otherwise it pushes the text of the valid bytes, which decode
-- to it without a fault, and keeps the bytes behind them. No byte is lost or pushed twice.
pub push_bytes-Outcome {ℓ κ} :
    {P : Type ℓ} {T : Type κ} (push_str : P → Text → P × StreamTextChunk T)
    (finish_inner : P → P × StreamTextChunk T) (st : Utf8StreamParser P) (chunk : Utf8)
    → Outcome push_str finish_inner st chunk
        (st.pending_utf8 ++ chunk)
        (push_bytes push_str finish_inner st chunk)
unfolding push_bytes
push_bytes-Outcome push_str finish_inner st chunk =
    at_fault push_str finish_inner st chunk (from_utf8 (st.pending_utf8 ++ chunk)).fault refl
