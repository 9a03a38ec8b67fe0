-- ===== src/StreamParser/TaggedLine/Brackets.antt =====
-- Tags are opened and closed in turn, and text between them belongs to the open one.
use mosaic_desktop.Prelude.{
  ℕ, ◌≡◌, refl, ap, sym, ◌∙◌, subst, inl, inr, Bool, true, false, ◌||◌, Option, none, some, List,
  [], ◌∷◌, ◌++◌, Text, ◌==◌, Bool-cases, Option-cases, trim_start,
}
use mosaic_desktop.StreamParser.{is_nil}
use mosaic_desktop.StreamParser.TaggedLine.{
  TaggedLineSegment, tag_start, tag_end, TaggedLineParser, slug_of, is_tag_prefix, push_segment,
  text_segment, push_text, closes, try_close_or_text, close_or_text, open_or_close, opens,
  take_line, finish_line, detect_char, flush_run, parse_char, parse_chars, parse, end_active,
  finish, match_close,
}
use mosaic_desktop.StreamParser.TaggedLine.Events.{
  Event, shown, inside, opened, closed, segment_events, events, events-push_segment,
}

-- From the active tag `a`, events that leave `b` active.
pub data Bracketed {ℓ} {T : Type ℓ} : Option T → List (Event T) → Option T → Type ℓ where
  at_end : {a : Option T} → Bracketed a [] a
  text_shown :
      {c : ℕ} {es : List (Event T)} {b : Option T}
      → Bracketed none es b
      → Bracketed none (shown c ∷ es) b
  text_inside :
      {t : T} {c : ℕ} {es : List (Event T)} {b : Option T}
      → Bracketed (some t) es b
      → Bracketed (some t) (inside t c ∷ es) b
  tag_opened :
      {t : T} {es : List (Event T)} {b : Option T}
      → Bracketed (some t) es b
      → Bracketed none (opened t ∷ es) b
  tag_closed :
      {t : T} {es : List (Event T)} {b : Option T}
      → Bracketed none es b
      → Bracketed (some t) (closed t ∷ es) b

Bracketed-append {ℓ} :
    {T : Type ℓ} {a b c : Option T} {es fs : List (Event T)}
    → Bracketed a es b
    → Bracketed b fs c
    → Bracketed a (es ++ fs) c
Bracketed-append at_end q = q
Bracketed-append (text_shown p) q = text_shown (Bracketed-append p q)
Bracketed-append (text_inside p) q = text_inside (Bracketed-append p q)
Bracketed-append (tag_opened p) q = tag_opened (Bracketed-append p q)
Bracketed-append (tag_closed p) q = tag_closed (Bracketed-append p q)

text_segment-Bracketed {ℓ} :
    {T : Type ℓ} (a : Option T) (s : Text) → Bracketed a (segment_events (text_segment a s)) a
unfolding text_segment segment_events
text_segment-Bracketed none [] = at_end
text_segment-Bracketed none (c ∷ s) = text_shown (text_segment-Bracketed none s)
text_segment-Bracketed (some t) [] = at_end
text_segment-Bracketed (some t) (c ∷ s) = text_inside (text_segment-Bracketed (some t) s)

module _ {ℓ} {T : Type ℓ} (eq : T → T → Bool) (eq_sound : (t u : T) → eq t u ≡ true → t ≡ u) where
  -- The segments lead from the tag `a` to the active tag of the parser.
  LeadsTo : Option T → TaggedLineParser T × List (TaggedLineSegment T) → Type ℓ
  LeadsTo a (p, segments) = Bracketed a (events segments) p.active_tag

  push-Bracketed :
      {a b c : Option T} (segments : List (TaggedLineSegment T)) (s : TaggedLineSegment T)
      → Bracketed a (events segments) b
      → Bracketed b (segment_events s) c
      → Bracketed a (events (push_segment eq segments s)) c
  push-Bracketed {a} {b} {c} segments s before step =
      subst (λ es. Bracketed a es c) (sym (events-push_segment eq eq_sound segments s))
        (Bracketed-append before step)

  push_text-Bracketed :
      {a : Option T} (p : TaggedLineParser T) (s : Text) (segments : List (TaggedLineSegment T))
      → Bracketed a (events segments) p.active_tag
      → Bracketed a (events (push_text eq p s segments)) p.active_tag
  unfolding push_text
  push_text-Bracketed p s segments before =
      push-Bracketed segments (text_segment p.active_tag s) before
        (text_segment-Bracketed p.active_tag s)

  closes-active :
      (p : TaggedLineParser T) (slug : Text) (t : T)
      → closes eq p slug ≡ some t
      → p.active_tag ≡ some t
  unfolding closes
  closes-active p slug t h = elim (Option-cases p.active_tag) [
    | inl nothing ↦ let absurd = rw (nothing, closes) at h in cc
    | inr (u, e) ↦ elim (Option-cases (match_close p.specs slug)) [
      | inl absent ↦ let absurd = rw (e, absent, closes) at h in cc
      | inr (v, found) ↦ elim (Bool-cases (eq u v)) [
        | inl same ↦ e ∙ ap some (eq_sound u v same) ∙ (rw (e, found, same, closes) at h)
        | inr other ↦ let absurd = rw (e, found, other, closes) at h in cc
      ]
    ]
  ]

  opens-inactive :
      (p : TaggedLineParser T) (slug : Text) (t : T) → opens p slug ≡ some t → p.active_tag ≡ none
  unfolding opens
  opens-inactive p slug t h = elim (Option-cases p.active_tag) [
    | inl nothing ↦ nothing
    | inr (u, e) ↦ let absurd = rw (e, opens) at h in cc
  ]

  close-LeadsTo :
      {a : Option T} (p : TaggedLineParser T) (line : Text) (segments : List (TaggedLineSegment T))
      (o : Option T)
      → closes eq p (slug_of line) ≡ o
      → Bracketed a (events segments) p.active_tag
      → LeadsTo a (close_or_text eq p line segments o)
  unfolding LeadsTo close_or_text segment_events
  close-LeadsTo p line segments none e before = push_text-Bracketed p line segments before
  close-LeadsTo {a} p line segments (some t) e before =
      push-Bracketed segments (tag_end t)
        (subst (λ b. Bracketed a (events segments) b) (closes-active p (slug_of line) t e) before)
        (tag_closed at_end)

  open-LeadsTo :
      {a : Option T} (p : TaggedLineParser T) (line : Text) (segments : List (TaggedLineSegment T))
      (o : Option T)
      → opens p (slug_of line) ≡ o
      → Bracketed a (events segments) p.active_tag
      → LeadsTo a (open_or_close eq p line segments o)
  unfolding LeadsTo open_or_close try_close_or_text segment_events
  open-LeadsTo p line segments none e before =
      close-LeadsTo p line segments (closes eq p (slug_of line)) refl before
  open-LeadsTo {a} p line segments (some t) e before =
      push-Bracketed segments (tag_start t)
        (subst (λ b. Bracketed a (events segments) b) (opens-inactive p (slug_of line) t e) before)
        (tag_opened at_end)

  detect_char-LeadsTo :
      {a : Option T} (p : TaggedLineParser T) (ch : ℕ) (segments : List (TaggedLineSegment T))
      → Bracketed a (events segments) p.active_tag
      → LeadsTo a (detect_char eq p ch segments)
  unfolding LeadsTo detect_char finish_line take_line
  detect_char-LeadsTo p ch segments before =
      let line = p.line_buffer ++ ch ∷ [] in
      let slug = trim_start line in
      elim (Bool-cases (ch == 10)) [
        | inl newline ↦ rw newline (open-LeadsTo _ line segments _ refl before)
        | inr other ↦ elim (Bool-cases (is_nil slug || is_tag_prefix p.specs slug)) [
          | inl maybe ↦ rw (other, maybe) before
          | inr text ↦ rw (other, text) (push_text-Bracketed p line segments before)
        ]
      ]

  flush_run-Bracketed :
      {a : Option T} (p : TaggedLineParser T) (run : Text) (segments : List (TaggedLineSegment T))
      → Bracketed a (events segments) p.active_tag
      → Bracketed a (events (flush_run eq p run segments)) p.active_tag
  unfolding flush_run
  flush_run-Bracketed p [] segments before = before
  flush_run-Bracketed p (c ∷ run) segments before = push_text-Bracketed p (c ∷ run) segments before

  parse_char-LeadsTo :
      {a : Option T} (ch : ℕ) (p : TaggedLineParser T) (run : Text)
      (segments : List (TaggedLineSegment T))
      → Bracketed a (events segments) p.active_tag
      → let (p', run', segments') = parse_char eq p run segments ch in
        Bracketed a (events segments') p'.active_tag
  unfolding LeadsTo parse_char
  parse_char-LeadsTo ch p run segments before = elim (Bool-cases p.detect_tag) [
    | inl detecting ↦ rw detecting (
        detect_char-LeadsTo (record p { detect_tag = true }) ch _
          (flush_run-Bracketed (record p { detect_tag = true }) run segments before))
    | inr text ↦ elim (Bool-cases (ch == 10)) [
      | inl newline ↦
          rw (text, newline)
            (push_text-Bracketed (record p { detect_tag = false }) (run ++ ch ∷ []) segments before)
      | inr other ↦ rw (text, other) before
    ]
  ]

  parse_chars-LeadsTo :
      {a : Option T} (delta : Text) (p : TaggedLineParser T) (run : Text)
      (segments : List (TaggedLineSegment T))
      → Bracketed a (events segments) p.active_tag
      → LeadsTo a (parse_chars eq p run segments delta)
  unfolding LeadsTo parse_chars
  parse_chars-LeadsTo [] p run segments before = flush_run-Bracketed p run segments before
  parse_chars-LeadsTo (ch ∷ delta) p run segments before =
      let (p', run', segments') = parse_char eq p run segments ch in
      parse_chars-LeadsTo delta p' run' segments' (parse_char-LeadsTo ch p run segments before)

  end_active-Bracketed :
      {a : Option T} (p : TaggedLineParser T) (segments : List (TaggedLineSegment T))
      → Bracketed a (events segments) p.active_tag
      → Bracketed a (events (end_active eq (p, segments)).1) none
  unfolding end_active segment_events
  end_active-Bracketed {a} p segments before = elim (Option-cases p.active_tag) [
    | inl nothing ↦
        rw (nothing, end_active) (subst (λ b. Bracketed a (events segments) b) nothing before)
    | inr (t, e) ↦
        rw (e, end_active)
          (push-Bracketed segments (tag_end t)
            (subst (λ b. Bracketed a (events segments) b) e before) (tag_closed at_end))
  ]

  finish-Bracketed : (p : TaggedLineParser T) → Bracketed p.active_tag (events (finish eq p).1) none
  unfolding finish take_line LeadsTo events
  finish-Bracketed p = elim (Bool-cases (is_nil p.line_buffer)) [
    | inl empty ↦ rw (empty, finish) (end_active-Bracketed p [] at_end)
    | inr line ↦
        rw (line, finish)
          (end_active-Bracketed _ _
            (open-LeadsTo (record p { line_buffer = [] }) p.line_buffer [] _ refl at_end))
  ]

  -- With tags that are compared by a sound equality, in what `parse` and then `finish` return for
  -- any text every tag that starts is ended before the next starts, text inside of a tag names the
  -- tag that is open, other text stands outside of every tag, and a tag that is open at the end is
  -- ended by `finish`.
  pub parse-finish-Bracketed :
      (p : TaggedLineParser T) (delta : Text)
      → let (q, seen) = parse eq p delta in
        Bracketed p.active_tag (events seen ++ events (finish eq q).1) none
  unfolding parse LeadsTo events
  parse-finish-Bracketed p delta =
      Bracketed-append (parse_chars-LeadsTo delta p [] [] at_end)
        (finish-Bracketed (parse eq p delta).0)
