-- ===== src/StreamParser/Inline/Streaming.antt =====
-- A parser of one tag ends its loop, and finds the same text and tags however the stream is cut.
use mosaic_desktop.Prelude.{
  ℕ, ◌+◌, ◌≤◌, ◌<◌, ◌≡◌, refl, ap, ap₂, sym, ◌∙◌, subst, inl, inr, true, false, Option, none, some,
  [], ◌∷◌, ◌++◌, zero, suc, append-nil, append_assoc, Text, length, arith, Bool-cases, length-drop,
  Option-cases, if◌then◌else◌,
}
use mosaic_desktop.StreamParser.{StreamTextChunk, no_chunk, then_chunk}
use mosaic_desktop.StreamParser.Inline.{
  find, InlineTagSpec, ActiveTag, InlineHiddenTagParser, ExtractedInlineTag, Turn, inside_turn,
  outside_turn, turn_of, push_loop, push_str,
}
use mosaic_desktop.StreamParser.Inline.Search.{find-length}
use mosaic_desktop.StreamParser.Inline.Turns.{
  turn, single, more, turn-more, turn-resume, out_tag, with_spec, turn_outside,
}
use mosaic_desktop.StreamParser.Inline.Loop.{push_loop-le, push_loop-then_chunk, turn-specs}

then_chunk-no_chunk {ℓ} : {A : Type ℓ} (c : StreamTextChunk A) → then_chunk c no_chunk ≡ c
unfolding no_chunk
then_chunk-no_chunk c =
    ap₂ (λ v e. record { visible_text = v; extracted = e }) (append-nil c.visible_text)
      (append-nil c.extracted)

module _ {T : Type 0} (spec : InlineTagSpec T) where
  -- A property of the parsers of `spec` alone.
  of_single {κ} :
      (P : InlineHiddenTagParser T → Type κ) (p : InlineHiddenTagParser T)
      → p.specs ≡ spec ∷ []
      → P (single spec p.pending p.active)
      → P p
  of_single P p one h =
      subst (λ specs. P (record { specs = specs; pending = p.pending; active = p.active }))
        (sym one) h

  more_of :
      (t : Text) (p : InlineHiddenTagParser T) (out : StreamTextChunk (ExtractedInlineTag T))
      → p.specs ≡ spec ∷ []
      → (turn spec p out).0 ≡ true
      → turn spec (more spec t p) out ≡ (true, more spec t (turn spec p out).1, (turn spec p out).2)
  more_of t p out one =
      of_single
        (λ q.
          (turn spec q out).0 ≡ true
          → turn spec (more spec t q) out
            ≡ (true, more spec t (turn spec q out).1, (turn spec q out).2))
        p one (turn-more spec p.pending t p.active out)

  resume_of :
      (t : Text) (p : InlineHiddenTagParser T) (out : StreamTextChunk (ExtractedInlineTag T))
      → p.specs ≡ spec ∷ []
      → (turn spec p out).0 ≡ false
      → turn spec (more spec t p) out
        ≡ turn spec (more spec t (turn spec p out).1) (turn spec p out).2
  resume_of t p out one =
      of_single
        (λ q.
          (turn spec q out).0 ≡ false
          → turn spec (more spec t q) out
            ≡ turn spec (more spec t (turn spec q out).1) (turn spec q out).2)
        p one (turn-resume spec p.pending t p.active out)

  -- What the loop does after a turn.
  after : ℕ → Turn T → Option (InlineHiddenTagParser T × StreamTextChunk (ExtractedInlineTag T))
  after n (goes, p, out) = let rest = push_loop n p out in if goes then rest else some (p, out)

  looped :
      ℕ
      → Text
      → Option (InlineHiddenTagParser T × StreamTextChunk (ExtractedInlineTag T))
      → Option (InlineHiddenTagParser T × StreamTextChunk (ExtractedInlineTag T))
  looped n t none = none
  looped n t (some (q, seen)) = push_loop n (more spec t q) seen

  loop-after :
      (n : ℕ) (p : InlineHiddenTagParser T) (out : StreamTextChunk (ExtractedInlineTag T))
      → push_loop (suc n) p out ≡ after n (turn spec p out)
  unfolding push_loop after
  loop-after n p out = refl

  -- A loop that ended can go on with more text.
  loop-resume :
      (n m : ℕ) (t : Text) (p q : InlineHiddenTagParser T)
      (out seen : StreamTextChunk (ExtractedInlineTag T))
      {r : InlineHiddenTagParser T × StreamTextChunk (ExtractedInlineTag T)}
      → p.specs ≡ spec ∷ []
      → push_loop n p out ≡ some (q, seen)
      → push_loop m (more spec t q) seen ≡ some r
      → push_loop (n + m) (more spec t p) out ≡ some r
  unfolding push_loop after looped
  loop-resume zero m t p q out seen one h more_h = cc
  loop-resume (suc n) zero t p q out seen one h more_h = cc
  loop-resume (suc n) (suc m) t p q out seen {r} one h more_h =
      let fuel : suc n + suc m ≡ suc (n + suc m) = omega arith in
      elim (Bool-cases (turn spec p out).0) [
        | inl goes ↦
            let next =
              loop-resume n (suc m) t _ q _ seen (turn-specs p out ∙ one) (rw goes at h) more_h in
            rw fuel (
              loop-after (n + suc m) (more spec t p) out
              ∙ ap (after (n + suc m)) (more_of t p out one goes)
              ∙ next)
        | inr stops ↦
            let ended : some ((turn spec p out).1, (turn spec p out).2) ≡ some (q, seen) =
              rw stops at h in
            let (_, p', out') = turn spec p out in
            let le : suc m ≤ suc (n + suc m) = omega arith in
            rw fuel (
              loop-after (n + suc m) (more spec t p) out
              ∙ ap (after (n + suc m)) (resume_of t p out one stops)
              ∙ sym (loop-after (n + suc m) (more spec t p') out')
              ∙ ap (looped (suc (n + suc m)) t) ended
              ∙ push_loop-le (suc m) (suc (n + suc m)) (more spec t q) seen le more_h)
      ]

  -- The close delimiter of an open tag is not empty.
  abbrev pub Closes : Option (ActiveTag T) → Type 0
  Closes none = Unit
  Closes (some a) = 1 ≤ length a.close_text

  -- A parser of `spec` alone, as `new` builds it and every method keeps it.
  abbrev pub IsOpen : InlineHiddenTagParser T → Type 0
  IsOpen p = (p.specs ≡ spec ∷ []) × Closes p.active

  module _ (has_open : 1 ≤ length spec.open_text) (has_close : 1 ≤ length spec.close_text) where
    steps :
        (s : Text) (active : Option (ActiveTag T)) (out : StreamTextChunk (ExtractedInlineTag T))
        → Closes active
        → Closes (turn spec (single spec s active) out).1.active
          × ((turn spec (single spec s active) out).0 ≡ true
              → length (turn spec (single spec s active) out).1.pending < length s)
    unfolding turn_of inside_turn out_tag outside_turn with_spec
    steps s (some a) out closes = elim (Option-cases (find s a.close_text)) [
      | inl absent ↦ rw absent (closes, λ h. cc)
      | inr (i, found) ↦
          let fits = find-length s a.close_text i found in
          let len = length-drop (i + length a.close_text) s in
          rw found (tt, λ h. omega (arith, fits, closes, len))
    ]
    steps s none out closes = elim (Option-cases (find s spec.open_text)) [
      | inl absent ↦ rw (turn_outside spec s out, absent) (tt, λ h. cc)
      | inr (i, found) ↦
          let fits = find-length s spec.open_text i found in
          let len = length-drop (i + length spec.open_text) s in
          rw (turn_outside spec s out, found) (has_close, λ h. omega (arith, fits, has_open, len))
    ]

    steps_of :
        (p : InlineHiddenTagParser T) (out : StreamTextChunk (ExtractedInlineTag T))
        → IsOpen p
        → IsOpen (turn spec p out).1
          × ((turn spec p out).0 ≡ true → length (turn spec p out).1.pending < length p.pending)
    steps_of p out (one, closes) =
        let (closes', shrinks) =
          of_single
            (λ q.
              Closes q.active
              → Closes (turn spec q out).1.active
                × ((turn spec q out).0 ≡ true
                    → length (turn spec q out).1.pending < length q.pending))
            p one (steps p.pending p.active out) closes in
        ((turn-specs p out ∙ one, closes'), shrinks)

    loop-total :
        (n : ℕ) (p : InlineHiddenTagParser T) (out : StreamTextChunk (ExtractedInlineTag T))
        → IsOpen p
        → length p.pending < n
        → (q : InlineHiddenTagParser T) × (seen : StreamTextChunk (ExtractedInlineTag T))
          × (push_loop n p out ≡ some (q, seen))
          × IsOpen q
    unfolding push_loop
    loop-total zero p out valid fuel = ground arith
    loop-total (suc n) p out valid fuel =
        let (valid', shrinks) = steps_of p out valid in
        elim (Bool-cases (turn spec p out).0) [
          | inl goes ↦
              let lt = shrinks goes in rw goes (loop-total n _ _ valid' (omega (arith, lt, fuel)))
          | inr stops ↦ rw stops (_, _, refl, valid')
        ]

    -- For a parser of one tag with non-empty delimiters, the loop of `push_str` ends on every chunk,
    -- within the fuel of one turn more than the characters pending, and leaves such a parser.
    pub push_str-total :
        (p : InlineHiddenTagParser T) (chunk : Text)
        → IsOpen p
        → (q : InlineHiddenTagParser T) × (seen : StreamTextChunk (ExtractedInlineTag T))
          × (push_str p chunk ≡ some (q, seen))
          × IsOpen q
    unfolding push_str
    push_str-total p chunk valid = loop-total _ _ no_chunk valid (omega arith)

    -- For a parser of one tag with non-empty delimiters, pushing a text in two chunks and pushing
    -- it in one end in the same parser, and the visible text and the tags of the two chunks are, one
    -- after the other, those of the whole.
    pub push_str-append :
        (p q r : InlineHiddenTagParser T) (a b : Text)
        (seen seen' : StreamTextChunk (ExtractedInlineTag T))
        → IsOpen p
        → push_str p a ≡ some (q, seen)
        → push_str q b ≡ some (r, seen')
        → push_str p (a ++ b) ≡ some (r, then_chunk seen seen')
    unfolding push_str no_chunk
    push_str-append p q r a b seen seen' valid first second =
        let n1 = suc (length (p.pending ++ a)) in
        let n2 = suc (length (q.pending ++ b)) in
        let n3 = suc (length (p.pending ++ (a ++ b))) in
        let start = record p { pending = p.pending ++ a } in
        let (s, out, result, _) = push_str-total p (a ++ b) valid in
        let after_first =
          ap (push_loop n2 (more spec b q)) (sym (then_chunk-no_chunk seen))
          ∙ push_loop-then_chunk n2 (more spec b q) r seen no_chunk seen' second in
        let resumed = loop-resume n1 n2 b start q no_chunk seen valid.0 first after_first in
        let le : n3 ≤ n1 + n2 + n3 = omega arith in
        let le' : n1 + n2 ≤ n1 + n2 + n3 = omega arith in
        let whole = record p { pending = p.pending ++ (a ++ b) } in
        let enough = push_loop-le n3 (n1 + n2 + n3) whole no_chunk le result in
        let enough' =
          push_loop-le (n1 + n2) (n1 + n2 + n3) (more spec b start) no_chunk le' resumed in
        let same =
          ap (λ t. push_loop (n1 + n2 + n3) (record p { pending = t }) no_chunk)
            (append_assoc p.pending a b) in
        result ∙ sym enough ∙ sym same ∙ enough'
