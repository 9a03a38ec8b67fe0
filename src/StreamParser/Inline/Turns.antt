-- ===== src/StreamParser/Inline/Turns.antt =====
-- A turn of the loop on a text of which more is to come, for a parser of one tag.
use mosaic_desktop.Prelude.{
  ℕ, ◌+◌, ◌-◌, ◌≤◌, ◌≡◌, refl, ap, ap₂, sym, ◌∙◌, inl, inr, true, false, Option, none, some, [],
  ◌∷◌, ◌++◌, max, append-nil, append_assoc, Text, length, take, drop, arith, take-append,
  drop-append, Option-cases,
}
use mosaic_desktop.StreamParser.{StreamTextChunk}
use mosaic_desktop.StreamParser.Inline.{
  plus, find, longest_suffix_prefix_len, InlineTagSpec, ActiveTag, InlineHiddenTagParser,
  ExtractedInlineTag, Turn, inside_turn, outside_turn, turn_of, find_next_open, candidates,
  earliest?, earliest, max_keep, max_open_prefix_suffix_len, push_visible_prefix,
}
use mosaic_desktop.StreamParser.Inline.Search.{
  hold, front, front-hold, find-length, find-append, find-hold, drop-front, drop-length_add,
  take-length_add, hold-append,
}

drop_within : (n : ℕ) (s t : Text) → n ≤ length s → drop n (s ++ t) ≡ drop n s ++ t
drop_within n s t h =
    let e : n - length s ≡ 0 = omega (arith, h) in
    drop-append n s t ∙ ap (λ k. drop n s ++ drop k t) e

take_within : (n : ℕ) (s t : Text) → n ≤ length s → take n (s ++ t) ≡ take n s
take_within n s t h =
    let e : n - length s ≡ 0 = omega (arith, h) in
    take-append n s t ∙ ap (λ k. take n s ++ take k t) e ∙ append-nil (take n s)

-- Positions in a text and in what is held of it.
whole_text : (s t n : Text) → s ++ t ≡ front n s ++ (hold n s ++ t)
whole_text s t n = ap (λ u. u ++ t) (sym (front-hold n s)) ∙ append_assoc (front n s) (hold n s) t

drop_held : (s t n : Text) (k : ℕ) → drop (length (front n s) + k) (s ++ t) ≡ drop k (hold n s ++ t)
drop_held s t n k =
    ap (drop (length (front n s) + k)) (whole_text s t n) ∙ drop-length_add (front n s) _ k

take_held :
    (s t n : Text) (k : ℕ)
    → take (length (front n s) + k) (s ++ t) ≡ front n s ++ take k (hold n s ++ t)
take_held s t n k =
    ap (take (length (front n s) + k)) (whole_text s t n) ∙ take-length_add (front n s) _ k

module _ {ℓ} {T : Type ℓ} (spec : InlineTagSpec T) where
  -- A parser of the tag of `spec` alone.
  abbrev pub single : Text → Option (ActiveTag T) → InlineHiddenTagParser T
  single pending active = record { specs = spec ∷ []; pending = pending; active = active }

  abbrev pub more : Text → InlineHiddenTagParser T → InlineHiddenTagParser T
  more t p = record p { pending = p.pending ++ t }

  -- The turn of a parser with its output, on its state.
  abbrev pub turn : InlineHiddenTagParser T → StreamTextChunk (ExtractedInlineTag T) → Turn T
  turn p out = turn_of p out p.active

  in_tag : Text → ActiveTag T → StreamTextChunk (ExtractedInlineTag T) → Option ℕ → Turn T
  in_tag s a out o = inside_turn (single s (some a)) out a o

  inside_none :
      (s : Text) (a : ActiveTag T) (out : StreamTextChunk (ExtractedInlineTag T))
      → in_tag s a out none ≡ (
        false,
        single
            (hold a.close_text s)
            (some (record a { content = a.content ++ front a.close_text s })),
        out,
      )
  unfolding in_tag inside_turn
  inside_none s a out =
      let (kept, drained) = drop-front s a.close_text in
      ap₂ (λ k d. (false, single k (some (record a { content = a.content ++ d })), out)) kept
        drained

  inside_more :
      (s t : Text) (a : ActiveTag T) (out : StreamTextChunk (ExtractedInlineTag T)) (i : ℕ)
      → i + length a.close_text ≤ length s
      → in_tag (s ++ t) a out (some i)
        ≡ (true, more t (in_tag s a out (some i)).1, (in_tag s a out (some i)).2)
  unfolding in_tag inside_turn
  inside_more s t a out i h =
      ap₂
        (λ dropped taken. (
          true,
          single dropped none,
          record out {
            extracted = out.extracted ++ record { tag = a.tag; content = a.content ++ taken } ∷ [];
          },
        ))
        (drop_within _ s t h) (take_within i s t (omega (arith, h)))

  -- The tag goes on, from what is held, as from the whole text.
  inside_resume :
      (s t : Text) (a : ActiveTag T) (out : StreamTextChunk (ExtractedInlineTag T)) (o : Option ℕ)
      → find s a.close_text ≡ none
      → in_tag (s ++ t) a out (plus (length (front a.close_text s)) o)
        ≡ in_tag
            (hold a.close_text s ++ t)
            (record a { content = a.content ++ front a.close_text s })
            out
            o
  unfolding in_tag inside_turn
  inside_resume s t a out none h =
      let (kept, drained) = hold-append s t a.close_text h in
      inside_none (s ++ t) a out
      ∙ ap₂ (λ k d. (false, single k (some (record a { content = d })), out)) kept
          (ap (◌++◌ a.content) drained ∙ sym (append_assoc a.content _ _))
      ∙ sym (inside_none (hold a.close_text s ++ t) _ out)
  inside_resume s t a out (some j) h =
      let n = a.close_text in
      let shift : length (front n s) + j + length n ≡ length (front n s) + (j + length n) =
        omega arith in
      ap₂
        (λ dropped taken. (
          true,
          single dropped none,
          record out { extracted = out.extracted ++ record { tag = a.tag; content = taken } ∷ [] },
        ))
        (ap (λ k. drop k (s ++ t)) shift ∙ drop_held s t n (j + length n))
        (ap (◌++◌ a.content) (take_held s t n j) ∙ sym (append_assoc a.content _ _))

  abbrev pub opened_tag : ActiveTag T
  opened_tag = record { tag = spec.tag; close_text = spec.close_text; content = [] }

  unfoldable pub with_spec : Option ℕ → Option (ℕ × InlineTagSpec T)
  with_spec none = none
  with_spec (some i) = some (i, spec)

  find-single : (s : Text) → find_next_open (single s none) ≡ with_spec (find s spec.open_text)
  unfolding find_next_open candidates earliest? earliest with_spec
  find-single s = elim (Option-cases (find s spec.open_text)) [
    | inl absent ↦ rw (absent, candidates) refl
    | inr (i, found) ↦ rw (found, candidates) refl
  ]

  unfoldable pub out_tag : Text → StreamTextChunk (ExtractedInlineTag T) → Option ℕ → Turn T
  out_tag s out o = outside_turn (single s none) out (with_spec o)

  outside_none :
      (s : Text) (out : StreamTextChunk (ExtractedInlineTag T))
      → out_tag s out none ≡ (
        false,
        single (hold spec.open_text s) none,
        push_visible_prefix out (front spec.open_text s),
      )
  unfolding out_tag outside_turn with_spec max_open_prefix_suffix_len max_keep
  outside_none s out =
      let (kept, drained) = drop-front s spec.open_text in
      let len = longest_suffix_prefix_len s spec.open_text in
      let one : length s - max len 0 ≡ length s - len = omega arith in
      ap₂ (λ k d. (false, single k none, push_visible_prefix out d)) (ap (λ k. drop k s) one ∙ kept)
        (ap (λ k. take k s) one ∙ drained)

  outside_more :
      (s t : Text) (out : StreamTextChunk (ExtractedInlineTag T)) (i : ℕ)
      → i + length spec.open_text ≤ length s
      → out_tag (s ++ t) out (some i)
        ≡ (true, more t (out_tag s out (some i)).1, (out_tag s out (some i)).2)
  unfolding out_tag outside_turn with_spec
  outside_more s t out i h =
      ap₂ (λ dropped taken. (true, single dropped (some opened_tag), push_visible_prefix out taken))
        (drop_within _ s t h) (take_within i s t (omega (arith, h)))

  outside_resume :
      (s t : Text) (out : StreamTextChunk (ExtractedInlineTag T)) (o : Option ℕ)
      → find s spec.open_text ≡ none
      → out_tag (s ++ t) out (plus (length (front spec.open_text s)) o)
        ≡ out_tag (hold spec.open_text s ++ t) (push_visible_prefix out (front spec.open_text s)) o
  unfolding push_visible_prefix out_tag outside_turn with_spec
  outside_resume s t out none h =
      let (kept, drained) = hold-append s t spec.open_text h in
      outside_none (s ++ t) out
      ∙ ap₂ (λ k d. (false, single k none, record out { visible_text = d })) kept
          (ap (◌++◌ out.visible_text) drained ∙ sym (append_assoc out.visible_text _ _))
      ∙ sym (outside_none (hold spec.open_text s ++ t) _)
  outside_resume s t out (some j) h =
      let n = spec.open_text in
      let shift : length (front n s) + j + length n ≡ length (front n s) + (j + length n) =
        omega arith in
      ap₂
        (λ dropped taken. (
          true,
          single dropped (some opened_tag),
          record out { visible_text = out.visible_text ++ taken },
        ))
        (ap (λ k. drop k (s ++ t)) shift ∙ drop_held s t n (j + length n)) (take_held s t n j)
      ∙ ap
          (λ v. (
            true,
            single (drop (j + length n) (hold n s ++ t)) (some opened_tag),
            record out { visible_text = v },
          ))
          (sym (append_assoc out.visible_text _ _))

  pub turn_outside :
      (s : Text) (out : StreamTextChunk (ExtractedInlineTag T))
      → turn (single s none) out ≡ out_tag s out (find s spec.open_text)
  unfolding turn_of out_tag
  turn_outside s out = ap (outside_turn (single s none) out) (find-single s)

  -- A turn that goes on does so with more text behind it.
  pub turn-more :
      (s t : Text) (active : Option (ActiveTag T)) (out : StreamTextChunk (ExtractedInlineTag T))
      → (turn (single s active) out).0 ≡ true
      → turn (single (s ++ t) active) out
        ≡ (true, more t (turn (single s active) out).1, (turn (single s active) out).2)
  unfolding turn_of in_tag out_tag inside_turn outside_turn with_spec
  turn-more s t (some a) out h = elim (Option-cases (find s a.close_text)) [
    | inl absent ↦ let absurd : false ≡ true = rw absent at h in cc
    | inr (i, found) ↦
        rw (found, find-append s t a.close_text i found)
          (inside_more s t a out i (find-length s a.close_text i found))
  ]
  turn-more s t none out h = elim (Option-cases (find s spec.open_text)) [
    | inl absent ↦
        let absurd : false ≡ true =
          ap (λ x. (out_tag s out x).0) (sym absent)
          ∙ ap (λ (x : Turn T). x.0) (sym (turn_outside s out))
          ∙ h in
        cc
    | inr (i, found) ↦
        let here = turn_outside s out ∙ ap (out_tag s out) found in
        turn_outside (s ++ t) out
        ∙ ap (out_tag (s ++ t) out) (find-append s t spec.open_text i found)
        ∙ outside_more s t out i (find-length s spec.open_text i found)
        ∙ ap (λ (x : Turn T). (true, more t x.1, x.2)) (sym here)
  ]

  -- A turn that ends the loop leaves a parser that takes more text as if it had not stopped.
  pub turn-resume :
      (s t : Text) (active : Option (ActiveTag T)) (out : StreamTextChunk (ExtractedInlineTag T))
      → (turn (single s active) out).0 ≡ false
      → turn (single (s ++ t) active) out
        ≡ turn (more t (turn (single s active) out).1) (turn (single s active) out).2
  unfolding turn_of in_tag out_tag inside_turn outside_turn with_spec
  turn-resume s t (some a) out h = elim (Option-cases (find s a.close_text)) [
    | inl absent ↦ rw absent (
        ap (in_tag (s ++ t) a out) (find-hold s t a.close_text absent)
        ∙ inside_resume s t a out _ absent
        ∙ ap (λ (x : Turn T). turn (more t x.1) x.2) (sym (inside_none s a out)))
    | inr (i, found) ↦ let absurd : true ≡ false = rw found at h in cc
  ]
  turn-resume s t none out h = elim (Option-cases (find s spec.open_text)) [
    | inl absent ↦
        let here = turn_outside s out ∙ ap (out_tag s out) absent in
        turn_outside (s ++ t) out
        ∙ ap (out_tag (s ++ t) out) (find-hold s t spec.open_text absent)
        ∙ outside_resume s t out _ absent
        ∙ sym (turn_outside _ _)
        ∙ ap (λ (x : Turn T). turn (more t x.1) x.2) (sym (here ∙ outside_none s out))
    | inr (i, found) ↦
        let absurd : true ≡ false =
          ap (λ x. (out_tag s out x).0) (sym found)
          ∙ ap (λ (x : Turn T). x.0) (sym (turn_outside s out))
          ∙ h in
        cc
  ]
