-- ===== src/StreamParser/Inline/Loop.antt =====
-- The loop of `push_str`: its fuel, its output and the state it leaves.
use mosaic_desktop.Prelude.{
  ℕ, ◌≤◌, ◌≡◌, refl, ap, inl, inr, true, false, Option, none, some, zero, suc, append_assoc, arith,
  Bool-cases,
}
use mosaic_desktop.StreamParser.{StreamTextChunk, then_chunk}
use mosaic_desktop.StreamParser.Inline.{
  find, InlineTagSpec, ActiveTag, InlineHiddenTagParser, ExtractedInlineTag, inside_turn,
  outside_turn, turn_of, find_next_open, push_visible_prefix, push_loop,
}

Result : Type 0 → Type 0
Result T = Option (InlineHiddenTagParser T × StreamTextChunk (ExtractedInlineTag T))

module _ {T : Type 0} where
  -- More fuel gives the same result.
  pub push_loop-le :
      (m n : ℕ) (p : InlineHiddenTagParser T) (out : StreamTextChunk (ExtractedInlineTag T))
      {r : InlineHiddenTagParser T × StreamTextChunk (ExtractedInlineTag T)}
      → m ≤ n
      → push_loop m p out ≡ some r
      → push_loop n p out ≡ some r
  unfolding push_loop
  push_loop-le zero n p out le h = cc
  push_loop-le (suc m) zero p out le h = ground arith
  push_loop-le (suc m) (suc n) p out le h = elim (Bool-cases (turn_of p out p.active).0) [
    | inl goes ↦ rw goes (push_loop-le m n _ _ (omega (arith, le)) (rw goes at h))
    | inr stops ↦ rw stops (rw stops at h)
  ]

  inside-then_chunk :
      (p : InlineHiddenTagParser T) (o out : StreamTextChunk (ExtractedInlineTag T))
      (a : ActiveTag T) (f : Option ℕ)
      → inside_turn p (then_chunk o out) a f ≡ (
        (inside_turn p out a f).0,
        (inside_turn p out a f).1,
        then_chunk o (inside_turn p out a f).2,
      )
  unfolding inside_turn
  inside-then_chunk p o out a none = refl
  inside-then_chunk p o out a (some i) =
      ap
        (λ e. (true, (inside_turn p out a (some i)).1, record (then_chunk o out) { extracted = e }))
        (append_assoc o.extracted out.extracted _)

  outside-then_chunk :
      (p : InlineHiddenTagParser T) (o out : StreamTextChunk (ExtractedInlineTag T))
      (f : Option (ℕ × InlineTagSpec T))
      → outside_turn p (then_chunk o out) f ≡ (
        (outside_turn p out f).0,
        (outside_turn p out f).1,
        then_chunk o (outside_turn p out f).2,
      )
  unfolding outside_turn push_visible_prefix
  outside-then_chunk p o out none =
      ap (λ v. (false, (outside_turn p out none).1, record (then_chunk o out) { visible_text = v }))
        (append_assoc o.visible_text out.visible_text _)
  outside-then_chunk p o out (some f) =
      ap
        (λ v.
          (true, (outside_turn p out (some f)).1, record (then_chunk o out) { visible_text = v }))
        (append_assoc o.visible_text out.visible_text _)

  turn-then_chunk :
      (p : InlineHiddenTagParser T) (o out : StreamTextChunk (ExtractedInlineTag T))
      (active : Option (ActiveTag T))
      → turn_of p (then_chunk o out) active ≡ (
        (turn_of p out active).0,
        (turn_of p out active).1,
        then_chunk o (turn_of p out active).2,
      )
  unfolding turn_of
  turn-then_chunk p o out (some a) = inside-then_chunk p o out a (find p.pending a.close_text)
  turn-then_chunk p o out none = outside-then_chunk p o out (find_next_open p)

  -- What was output before stands before what the loop outputs.
  pub push_loop-then_chunk :
      (m : ℕ) (p q : InlineHiddenTagParser T) (o out seen : StreamTextChunk (ExtractedInlineTag T))
      → push_loop m p out ≡ some (q, seen)
      → push_loop m p (then_chunk o out) ≡ some (q, then_chunk o seen)
  unfolding push_loop
  push_loop-then_chunk zero p q o out seen h = cc
  push_loop-then_chunk (suc m) p q o out seen h = elim (Bool-cases (turn_of p out p.active).0) [
    | inl goes ↦
        rw (turn-then_chunk p o out p.active, goes)
          (push_loop-then_chunk m _ q o _ seen (rw goes at h))
    | inr stops ↦
        rw (turn-then_chunk p o out p.active, stops)
          (ap (λ r. elim r [ none ↦ none | some (p', s) ↦ some (p', then_chunk o s) ])
            (rw stops at h))
  ]

  -- No turn changes the specs.
  pub turn-specs :
      (p : InlineHiddenTagParser T) (out : StreamTextChunk (ExtractedInlineTag T))
      → (turn_of p out p.active).1.specs ≡ p.specs
  unfolding turn_of inside_turn outside_turn
  turn-specs p out = elim (p.active) as (λ a. (turn_of p out a).1.specs ≡ p.specs) [
    | none ↦ elim (find_next_open p) as (λ f. (outside_turn p out f).1.specs ≡ p.specs) [
      | none ↦ refl
      | some (i, s) ↦ refl
    ]
    | some a ↦
        elim (find p.pending a.close_text) as (λ f. (inside_turn p out a f).1.specs ≡ p.specs) [
          | none ↦ refl
          | some i ↦ refl
        ]
  ]
