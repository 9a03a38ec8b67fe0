-- ===== src/StreamParser/TaggedLine/Streaming.antt =====
-- The parser of lines gives the same tags and text however the stream is cut into chunks.
use mosaic_desktop.Prelude.{
  ℕ, ◌≡◌, refl, ap, ap₂, sym, ◌∙◌, inl, inr, Bool, true, false, none, some, List, [], ◌∷◌, ◌++◌,
  append-nil, append_assoc, Text, ◌==◌, Bool-cases,
}
use mosaic_desktop.StreamParser.TaggedLine.{
  TaggedLineSegment, TaggedLineParser, text_segment, push_text, detect_char, flush_run, parse_char,
  parse_chars, parse,
}
use mosaic_desktop.StreamParser.TaggedLine.Events.{
  Event, segment_events, events, text_segment-append, events-push_segment, detect_char-Extends,
  Extends,
}

module _ {ℓ} {T : Type ℓ} (eq : T → T → Bool) (eq_sound : (t u : T) → eq t u ≡ true → t ≡ u) where
  -- The events of the segments and of the run that is not pushed yet.
  emitted : TaggedLineParser T → Text → List (TaggedLineSegment T) → List (Event T)
  emitted p run segments = events segments ++ segment_events (text_segment p.active_tag run)

  emitted-nil :
      (p : TaggedLineParser T) (segments : List (TaggedLineSegment T))
      → emitted p [] segments ≡ events segments
  unfolding emitted text_segment segment_events
  emitted-nil p segments =
      elim (p.active_tag)
        as (λ a. events segments ++ segment_events (text_segment a []) ≡ events segments) [
          | none ↦ append-nil (events segments)
          | some t ↦ append-nil (events segments)
        ]

  events-flush_run :
      (p : TaggedLineParser T) (run : Text) (segments : List (TaggedLineSegment T))
      → events (flush_run eq p run segments) ≡ emitted p run segments
  unfolding flush_run push_text emitted
  events-flush_run p [] segments = sym (emitted-nil p segments)
  events-flush_run p (c ∷ run) segments =
      events-push_segment eq eq_sound segments (text_segment p.active_tag (c ∷ run))

  emitted-snoc :
      (p : TaggedLineParser T) (run s : Text) (segments : List (TaggedLineSegment T))
      → emitted p (run ++ s) segments
        ≡ emitted p run segments ++ segment_events (text_segment p.active_tag s)
  unfolding emitted
  emitted-snoc p run s segments =
      ap (◌++◌ (events segments)) (text_segment-append p.active_tag run s)
      ∙ sym (append_assoc (events segments) _ _)

  Turn : TaggedLineParser T → Text → List (TaggedLineSegment T) → ℕ → Type ℓ
  Turn p run segments ch =
      let (p', run', segments') = parse_char eq p run segments ch in
      let (p0, run0, segments0) = parse_char eq p [] [] ch in
      (p' ≡ p0) × (emitted p' run' segments' ≡ emitted p run segments ++ emitted p0 run0 segments0)

  detect_turn :
      (p : TaggedLineParser T) (run : Text) (segments : List (TaggedLineSegment T)) (ch : ℕ)
      → let (q, seen) = detect_char eq p ch (flush_run eq p run segments) in
        let (q0, seen0) = detect_char eq p ch [] in
        (q ≡ q0) × (emitted q [] seen ≡ emitted p run segments ++ emitted q0 [] seen0)
  unfolding Extends
  detect_turn p run segments ch =
      let flushed = flush_run eq p run segments in
      let (same, adds) = detect_char-Extends eq eq_sound p ch flushed in
      (
        same,
        emitted-nil _ _
            ∙ adds
            ∙ ap₂ (λ a b. a ++ b) (events-flush_run p run segments) (sym (emitted-nil _ _)),
      )

  newline_turn :
      (p : TaggedLineParser T) (run : Text) (segments : List (TaggedLineSegment T)) (s : Text)
      → emitted (record p { detect_tag = true }) [] (push_text eq p (run ++ s) segments)
        ≡ emitted p run segments
          ++ emitted (record p { detect_tag = true }) [] (push_text eq p s [])
  unfolding push_text emitted events
  newline_turn p run segments s =
      let pushed : (run segments : _)
          → emitted (record p { detect_tag = true }) [] (push_text eq p run segments)
            ≡ emitted p run segments =
        λ run segments.
          emitted-nil (record p { detect_tag = true }) _
          ∙ events-push_segment eq eq_sound segments (text_segment p.active_tag run) in
      pushed (run ++ s) segments
      ∙ emitted-snoc p run s segments
      ∙ ap (◌++◌ (emitted p run segments)) (sym (pushed s []))

  -- One character adds the same events whatever was parsed before it in the chunk.
  turn :
      (p : TaggedLineParser T) (run : Text) (segments : List (TaggedLineSegment T)) (ch : ℕ)
      → Turn p run segments ch
  unfolding Turn parse_char flush_run emitted segment_events events text_segment
  turn p run segments ch = elim (Bool-cases p.detect_tag) [
    | inl detecting ↦ rw detecting (detect_turn (record p { detect_tag = true }) run segments ch)
    | inr text ↦ elim (Bool-cases (ch == 10)) [
      | inl newline ↦
          rw (text, newline)
            (refl, newline_turn (record p { detect_tag = false }) run segments (ch ∷ []))
      | inr other ↦
          rw (text, other)
            (refl, emitted-snoc (record p { detect_tag = false }) run (ch ∷ []) segments)
    ]
  ]

  -- A loop that starts with a run and segments adds to their events what it adds from none.
  Continues : TaggedLineParser T → Text → List (TaggedLineSegment T) → Text → Type ℓ
  Continues p run segments delta =
      let (q, seen) = parse_chars eq p run segments delta in
      let (q0, seen0) = parse eq p delta in
      (q ≡ q0) × (events seen ≡ emitted p run segments ++ events seen0)

  continues :
      (p : TaggedLineParser T) (run : Text) (segments : List (TaggedLineSegment T)) (delta : Text)
      → Continues p run segments delta
  unfolding Continues Turn parse parse_chars flush_run events
  continues p run segments [] =
      (refl, events-flush_run p run segments ∙ sym (append-nil (emitted p run segments)))
  continues p run segments (ch ∷ delta) =
      let (p1, run1, segments1) = parse_char eq p run segments ch in
      let (p0, run0, segments0) = parse_char eq p [] [] ch in
      let (same, adds) = turn p run segments ch in
      let (to, rest) = continues p1 run1 segments1 delta in
      let (from, rest0) = continues p0 run0 segments0 delta in
      (
        to ∙ ap (λ q. (parse eq q delta).0) same ∙ sym from,
        rest
            ∙ ap₂ (λ a q. a ++ events (parse eq q delta).1) adds same
            ∙ append_assoc (emitted p run segments) _ _
            ∙ ap (◌++◌ (emitted p run segments)) (sym rest0),
      )

  append :
      (p : TaggedLineParser T) (run : Text) (segments : List (TaggedLineSegment T)) (a b : Text)
      → let (q, seen) = parse_chars eq p run segments a in
        let (q', seen') = parse_chars eq p run segments (a ++ b) in
        (q' ≡ (parse eq q b).0) × (events seen' ≡ events seen ++ events (parse eq q b).1)
  unfolding parse_chars Continues
  append p run segments [] b =
      let (to, rest) = continues p run segments b in
      (to, rest ∙ ap (λ es. es ++ events (parse eq p b).1) (sym (events-flush_run p run segments)))
  append p run segments (ch ∷ a) b =
      let (p1, run1, segments1) = parse_char eq p run segments ch in append p1 run1 segments1 a b

  -- With tags that are compared by a sound equality, parsing two chunks one after the other ends in
  -- the same parser as parsing them as one chunk, and the two give the same tags and the same
  -- characters inside and outside of the tags, in the same order.
  pub parse-append :
      (p : TaggedLineParser T) (a b : Text)
      → let (q, seen) = parse eq p a in
        let (q', seen') = parse eq p (a ++ b) in
        (q' ≡ (parse eq q b).0) × (events seen' ≡ events seen ++ events (parse eq q b).1)
  unfolding parse
  parse-append p a b = append p [] [] a b
