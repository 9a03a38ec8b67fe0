-- ===== src/StreamParser/TaggedLine.antt =====
-- src-tauri/src/stream_parser/tagged_line_parser.rs: tags that stand alone on a line. `eq` is the
-- equality of the tags, derived in the source.
pub mod Events
pub mod Brackets
pub mod Streaming
use mosaic_desktop.Prelude.{
  ℕ, Bool, true, false, not, ◌&&◌, ◌||◌, Option, none, some, List, [], ◌∷◌, ◌++◌, Text, text_eq,
  starts_with, trim_start, trim_end, ◌==◌, if◌then◌else◌, any,
}
use mosaic_desktop.StreamParser.{is_nil}

pub record TagSpec {ℓ} (T : Type ℓ) : Type ℓ where
  pub open_line : Text
  pub close_line : Text
  pub tag : T

pub data TaggedLineSegment {ℓ} (T : Type ℓ) : Type ℓ where
  normal : Text → TaggedLineSegment T
  tag_start : T → TaggedLineSegment T
  tag_delta : T → Text → TaggedLineSegment T
  tag_end : T → TaggedLineSegment T

pub record TaggedLineParser {ℓ} (T : Type ℓ) : Type ℓ where
  pub specs : List (TagSpec T)
  pub active_tag : Option T
  pub detect_tag : Bool
  pub line_buffer : Text

-- `strip_suffix('\n').unwrap_or(..)`
unfoldable pub strip_newline : Text → Text
strip_newline [] = []
strip_newline (c ∷ []) = if c == 10 then [] else c ∷ []
strip_newline (c ∷ d ∷ s) = c ∷ strip_newline (d ∷ s)

unfoldable pub slug_of : Text → Text
slug_of line = trim_end (trim_start (strip_newline line))

module _ {ℓ} {T : Type ℓ} where
  unfoldable pub new : List (TagSpec T) → TaggedLineParser T
  new specs = record { specs = specs; active_tag = none; detect_tag = true; line_buffer = [] }

  unfoldable pub is_tag_prefix : List (TagSpec T) → Text → Bool
  is_tag_prefix specs slug =
      any
        (λ (spec : TagSpec T).
          starts_with spec.open_line (trim_end slug) || starts_with spec.close_line (trim_end slug))
        specs

  unfoldable pub match_open : List (TagSpec T) → Text → Option T
  match_open [] slug = none
  match_open (spec ∷ specs) slug =
      let rest = match_open specs slug in
      if text_eq spec.open_line slug then some spec.tag else rest

  unfoldable pub match_close : List (TagSpec T) → Text → Option T
  match_close [] slug = none
  match_close (spec ∷ specs) slug =
      let rest = match_close specs slug in
      if text_eq spec.close_line slug then some spec.tag else rest

  -- The early returns of `push_segment` for an empty text.
  unfoldable pub is_blank : TaggedLineSegment T → Bool
  is_blank (normal delta) = is_nil delta
  is_blank (tag_start t) = false
  is_blank (tag_delta t delta) = is_nil delta
  is_blank (tag_end t) = false

  unfoldable pub text_segment : Option T → Text → TaggedLineSegment T
  text_segment none text = normal text
  text_segment (some t) text = tag_delta t text

  -- The open tag that the line is, when no tag is active.
  unfoldable pub opens : TaggedLineParser T → Text → Option T
  opens p slug = elim (p.active_tag) [ none ↦ match_open p.specs slug | some active ↦ none ]

module _ {ℓ} {T : Type ℓ} (eq : T → T → Bool) where
  -- A segment behind the last one, which it extends when both are text of the same kind.
  unfoldable pub join : TaggedLineSegment T → TaggedLineSegment T → List (TaggedLineSegment T)
  join (normal existing) (normal delta) = normal (existing ++ delta) ∷ []
  join (tag_delta t existing) (tag_delta u delta) =
      if eq t u
      then tag_delta t (existing ++ delta) ∷ []
      else tag_delta t existing ∷ tag_delta u delta ∷ []
  join a b = a ∷ b ∷ []

  unfoldable pub push_last :
      List (TaggedLineSegment T) → TaggedLineSegment T → List (TaggedLineSegment T)
  push_last [] s = s ∷ []
  push_last (x ∷ []) s = join x s
  push_last (x ∷ y ∷ xs) s = x ∷ push_last (y ∷ xs) s

  unfoldable pub push_segment :
      List (TaggedLineSegment T) → TaggedLineSegment T → List (TaggedLineSegment T)
  push_segment segments s = if is_blank s then segments else push_last segments s

  unfoldable pub push_text :
      TaggedLineParser T → Text → List (TaggedLineSegment T) → List (TaggedLineSegment T)
  push_text p text segments = push_segment segments (text_segment p.active_tag text)

  -- Whether the line closes the active tag.
  unfoldable pub closes : TaggedLineParser T → Text → Option T
  closes p slug = elim (p.active_tag) [
    | none ↦ none
    | some active ↦ elim (match_close p.specs slug) [
      | none ↦ none
      | some t ↦ if eq active t then some t else none
    ]
  ]

  unfoldable pub close_or_text :
      TaggedLineParser T
      → Text
      → List (TaggedLineSegment T)
      → Option T
      → TaggedLineParser T × List (TaggedLineSegment T)
  close_or_text p buffered segments (some t) =
      (record p { active_tag = none }, push_segment segments (tag_end t))
  close_or_text p buffered segments none = (p, push_text p buffered segments)

  unfoldable pub try_close_or_text :
      TaggedLineParser T
      → Text
      → Text
      → List (TaggedLineSegment T)
      → TaggedLineParser T × List (TaggedLineSegment T)
  try_close_or_text p slug buffered segments = close_or_text p buffered segments (closes p slug)

  unfoldable pub open_or_close :
      TaggedLineParser T
      → Text
      → List (TaggedLineSegment T)
      → Option T
      → TaggedLineParser T × List (TaggedLineSegment T)
  open_or_close p line segments (some t) =
      (record p { active_tag = some t }, push_segment segments (tag_start t))
  open_or_close p line segments none = try_close_or_text p (slug_of line) line segments

  -- The common part of `finish_line` and `finish` for a buffered line, taken out of the buffer.
  unfoldable pub take_line :
      TaggedLineParser T
      → Text
      → List (TaggedLineSegment T)
      → TaggedLineParser T × List (TaggedLineSegment T)
  take_line p line segments = open_or_close p line segments (opens p (slug_of line))

  unfoldable pub finish_line :
      TaggedLineParser T
      → List (TaggedLineSegment T)
      → TaggedLineParser T × List (TaggedLineSegment T)
  finish_line p segments =
      take_line (record p { line_buffer = []; detect_tag = true }) p.line_buffer segments

  -- One character while a tag is still possible, `run` already flushed.
  unfoldable pub detect_char :
      TaggedLineParser T
      → ℕ
      → List (TaggedLineSegment T)
      → TaggedLineParser T × List (TaggedLineSegment T)
  detect_char p ch segments =
      let buffer = p.line_buffer ++ ch ∷ [] in
      let slug = trim_start buffer in
      if ch == 10
      then finish_line (record p { line_buffer = buffer }) segments
      else if is_nil slug || is_tag_prefix p.specs slug
      then (record p { line_buffer = buffer }, segments)
      else (record p { line_buffer = []; detect_tag = false }, push_text p buffer segments)

  unfoldable pub flush_run :
      TaggedLineParser T → Text → List (TaggedLineSegment T) → List (TaggedLineSegment T)
  flush_run p run segments = if is_nil run then segments else push_text p run segments

  -- One turn of the loop of `parse`: the parser, the run and the segments.
  unfoldable pub parse_char :
      TaggedLineParser T
      → Text
      → List (TaggedLineSegment T)
      → ℕ
      → TaggedLineParser T × Text × List (TaggedLineSegment T)
  parse_char p run segments ch =
      let (detected, seen) = detect_char p ch (flush_run p run segments) in
      if p.detect_tag
      then (detected, [], seen)
      else if ch == 10
      then (record p { detect_tag = true }, [], push_text p (run ++ ch ∷ []) segments)
      else (p, run ++ ch ∷ [], segments)

  -- The loop of `parse` and the flush behind it.
  unfoldable pub parse_chars :
      TaggedLineParser T
      → Text
      → List (TaggedLineSegment T)
      → Text
      → TaggedLineParser T × List (TaggedLineSegment T)
  parse_chars p run segments [] = (p, flush_run p run segments)
  parse_chars p run segments (ch ∷ delta) =
      let (p', run', segments') = parse_char p run segments ch in
      parse_chars p' run' segments' delta

  unfoldable pub parse : TaggedLineParser T → Text → TaggedLineParser T × List (TaggedLineSegment T)
  parse p delta = parse_chars p [] [] delta

  -- The close that `finish` emits for a tag still active.
  unfoldable pub end_active :
      TaggedLineParser T × List (TaggedLineSegment T)
      → TaggedLineParser T × List (TaggedLineSegment T)
  end_active (p, segments) = elim (p.active_tag) [
    | none ↦ (record p { detect_tag = true }, segments)
    | some t ↦
        (record p { active_tag = none; detect_tag = true }, push_segment segments (tag_end t))
  ]

  unfoldable pub finish : TaggedLineParser T → TaggedLineParser T × List (TaggedLineSegment T)
  finish p = end_active (
      if is_nil p.line_buffer
      then (p, [])
      else take_line (record p { line_buffer = [] }) p.line_buffer [])
