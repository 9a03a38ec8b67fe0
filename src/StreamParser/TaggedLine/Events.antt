-- ===== src/StreamParser/TaggedLine/Events.antt =====
-- The characters and tags that segments stand for, and what each step of the parser adds to them.
use mosaic_desktop.Prelude.{
  ℕ, ◌≡◌, refl, ap, sym, ◌∙◌, inl, inr, Bool, true, ◌||◌, Option, none, some, List, [], ◌∷◌, ◌++◌,
  map, append-nil, append_assoc, Text, ◌==◌, Bool-cases, trim_start,
}
use mosaic_desktop.StreamParser.{is_nil}
use mosaic_desktop.StreamParser.TaggedLine.{
  TaggedLineSegment, normal, tag_start, tag_delta, tag_end, TaggedLineParser, slug_of,
  is_tag_prefix, is_blank, join, push_last, push_segment, text_segment, push_text, closes,
  try_close_or_text, close_or_text, open_or_close, opens, take_line, finish_line, detect_char,
}

-- A character outside every tag, one inside a tag, or the start or end of a tag.
pub data Event {ℓ} (T : Type ℓ) : Type ℓ where
  shown : ℕ → Event T
  inside : T → ℕ → Event T
  opened : T → Event T
  closed : T → Event T

module _ {ℓ} {T : Type ℓ} where
  unfoldable pub segment_events : TaggedLineSegment T → List (Event T)
  segment_events (normal text) = map shown text
  segment_events (tag_start t) = opened t ∷ []
  segment_events (tag_delta t text) = map (inside t) text
  segment_events (tag_end t) = closed t ∷ []

  unfoldable pub events : List (TaggedLineSegment T) → List (Event T)
  events [] = []
  events (s ∷ segments) = segment_events s ++ events segments

map-append {ℓ κ} :
    {A : Type ℓ} {B : Type κ} (f : A → B) (xs ys : List A) → map f (xs ++ ys) ≡ map f xs ++ map f ys
map-append f [] ys = refl
map-append f (x ∷ xs) ys = ap (◌∷◌ (f x)) (map-append f xs ys)

pub text_segment-append {ℓ} :
    {T : Type ℓ} (a : Option T) (s t : Text)
    → segment_events (text_segment a (s ++ t))
      ≡ segment_events (text_segment a s) ++ segment_events (text_segment a t)
unfolding text_segment segment_events
text_segment-append none s t = map-append shown s t
text_segment-append (some u) s t = map-append (inside u) s t

module _ {ℓ} {T : Type ℓ} (eq : T → T → Bool) (eq_sound : (t u : T) → eq t u ≡ true → t ≡ u) where
  events-join :
      (x s : TaggedLineSegment T) → events (join eq x s) ≡ segment_events x ++ segment_events s
  unfolding join events segment_events
  events-join (normal a) (normal b) = append-nil (map shown (a ++ b)) ∙ map-append shown a b
  events-join (normal a) (tag_start u) = refl
  events-join (normal a) (tag_delta u b) = ap (◌++◌ (map shown a)) (append-nil _)
  events-join (normal a) (tag_end u) = refl
  events-join (tag_start t) (normal b) = ap (◌∷◌ (opened t)) (append-nil _)
  events-join (tag_start t) (tag_start u) = refl
  events-join (tag_start t) (tag_delta u b) = ap (◌∷◌ (opened t)) (append-nil _)
  events-join (tag_start t) (tag_end u) = refl
  events-join (tag_end t) (normal b) = ap (◌∷◌ (closed t)) (append-nil _)
  events-join (tag_end t) (tag_start u) = refl
  events-join (tag_end t) (tag_delta u b) = ap (◌∷◌ (closed t)) (append-nil _)
  events-join (tag_end t) (tag_end u) = refl
  events-join (tag_delta t a) (normal b) = ap (◌++◌ (map (inside t) a)) (append-nil _)
  events-join (tag_delta t a) (tag_start u) = refl
  events-join (tag_delta t a) (tag_end u) = refl
  events-join (tag_delta t a) (tag_delta u b) = elim (Bool-cases (eq t u)) [
    | inl same ↦ rw same (
        append-nil _
        ∙ map-append (inside t) a b
        ∙ ap (λ v. map (inside t) a ++ map (inside v) b) (eq_sound t u same))
    | inr other ↦ rw other (ap (◌++◌ (map (inside t) a)) (append-nil _))
  ]

  events-push_last :
      (segments : List (TaggedLineSegment T)) (s : TaggedLineSegment T)
      → events (push_last eq segments s) ≡ events segments ++ segment_events s
  unfolding push_last events
  events-push_last [] s = append-nil (segment_events s)
  events-push_last (x ∷ []) s =
      events-join x s ∙ ap (λ es. es ++ segment_events s) (sym (append-nil (segment_events x)))
  events-push_last (x ∷ y ∷ xs) s =
      ap (◌++◌ (segment_events x)) (events-push_last (y ∷ xs) s)
      ∙ sym (append_assoc (segment_events x) (events (y ∷ xs)) (segment_events s))

  pub events-push_segment :
      (segments : List (TaggedLineSegment T)) (s : TaggedLineSegment T)
      → events (push_segment eq segments s) ≡ events segments ++ segment_events s
  unfolding push_segment is_blank segment_events
  events-push_segment segments (normal []) = sym (append-nil _)
  events-push_segment segments (normal (c ∷ s)) = events-push_last segments (normal (c ∷ s))
  events-push_segment segments (tag_start t) = events-push_last segments (tag_start t)
  events-push_segment segments (tag_delta t []) = sym (append-nil _)
  events-push_segment segments (tag_delta t (c ∷ s)) =
      events-push_last segments (tag_delta t (c ∷ s))
  events-push_segment segments (tag_end t) = events-push_last segments (tag_end t)

  -- What a step appends does not depend on the segments before it.
  unfoldable pub Extends :
      (List (TaggedLineSegment T) → TaggedLineParser T × List (TaggedLineSegment T)) → Type ℓ
  Extends f =
      (segments : List (TaggedLineSegment T))
      → ((f segments).0 ≡ (f []).0) × (events (f segments).1 ≡ events segments ++ events (f []).1)

  push-Extends :
      (p : TaggedLineParser T) (s : TaggedLineSegment T)
      → Extends (λ segments. (p, push_segment eq segments s))
  unfolding Extends events
  push-Extends p s segments = (
    refl,
    events-push_segment segments s ∙ ap (◌++◌ (events segments)) (sym (events-push_segment [] s)),
  )

  none-Extends : (p : TaggedLineParser T) → Extends (λ segments. (p, segments))
  unfolding Extends events
  none-Extends p segments = (refl, sym (append-nil (events segments)))

  close-Extends :
      (p : TaggedLineParser T) (line : Text) (o : Option T)
      → Extends (λ segments. close_or_text eq p line segments o)
  unfolding Extends close_or_text push_text
  close-Extends p line none segments = push-Extends p (text_segment p.active_tag line) segments
  close-Extends p line (some t) segments =
      push-Extends (record p { active_tag = none }) (tag_end t) segments

  open-Extends :
      (p : TaggedLineParser T) (line : Text) (o : Option T)
      → Extends (λ segments. open_or_close eq p line segments o)
  unfolding Extends open_or_close try_close_or_text
  open-Extends p line none segments = close-Extends p line (closes eq p (slug_of line)) segments
  open-Extends p line (some t) segments =
      push-Extends (record p { active_tag = some t }) (tag_start t) segments

  pub detect_char-Extends : (p : TaggedLineParser T) (ch : ℕ) → Extends (detect_char eq p ch)
  unfolding Extends detect_char finish_line take_line push_text
  detect_char-Extends p ch segments =
      let line = p.line_buffer ++ ch ∷ [] in
      let slug = trim_start line in
      elim (Bool-cases (ch == 10)) [
        | inl newline ↦ rw newline (open-Extends _ line (opens _ (slug_of line)) segments)
        | inr other ↦ elim (Bool-cases (is_nil slug || is_tag_prefix p.specs slug)) [
          | inl maybe ↦ rw (other, maybe) (none-Extends _ segments)
          | inr text ↦ rw (other, text) (push-Extends _ (text_segment p.active_tag _) segments)
        ]
      ]
