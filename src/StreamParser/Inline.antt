-- ===== src/StreamParser/Inline.antt =====
-- src-tauri/src/stream_parser/inline_hidden_tag.rs: hidden tags inside a line. `find_next_open`
-- returns the spec that it finds in place of its index. At one position every opener found is a
-- prefix of the same text, and every kept suffix a suffix of it, so that comparing lengths in
-- characters and in bytes is the same.
pub mod Search
pub mod Turns
pub mod Loop
pub mod Streaming
use mosaic_desktop.Prelude.{
  ℕ, ◌+◌, ◌-◌, Bool, true, false, ◌&&◌, not, Option, none, some, List, [], ◌∷◌, ◌++◌, zero, suc,
  min, max, Text, text_eq, starts_with, ltb, ◌==◌, ◌||◌, if◌then◌else◌, length, take, drop, all,
}
use mosaic_desktop.StreamParser.{StreamTextChunk, no_chunk, is_nil}

pub record ExtractedInlineTag {ℓ} (T : Type ℓ) : Type ℓ where
  pub tag : T
  pub content : Text

pub record InlineTagSpec {ℓ} (T : Type ℓ) : Type ℓ where
  pub tag : T
  pub open_text : Text
  pub close_text : Text

pub record ActiveTag {ℓ} (T : Type ℓ) : Type ℓ where
  pub tag : T
  pub close_text : Text
  pub content : Text

pub record InlineHiddenTagParser {ℓ} (T : Type ℓ) : Type ℓ where
  pub specs : List (InlineTagSpec T)
  pub pending : Text
  pub active : Option (ActiveTag T)

-- An offset found behind the first `n` characters.
abbrev pub plus : ℕ → Option ℕ → Option ℕ
plus n none = none
plus n (some i) = some (n + i)

-- `s.find(needle)`, in characters.
unfoldable pub find : Text → Text → Option ℕ
find [] needle = if starts_with [] needle then some 0 else none
find (c ∷ s) needle =
    let rest = plus 1 (find s needle) in if starts_with (c ∷ s) needle then some 0 else rest

-- `s.ends_with(needle[..k])`
unfoldable pub ends_with_first : Text → Text → ℕ → Bool
ends_with_first s needle k = text_eq (drop (length s - k) s) (take k needle)

-- The loop of `longest_suffix_prefix_len`, from `k` down to 1.
unfoldable pub suffix_len_from : Text → Text → ℕ → ℕ
suffix_len_from s needle zero = 0
suffix_len_from s needle (suc k) =
    let rest = suffix_len_from s needle k in
    if ends_with_first s needle (suc k) then suc k else rest

unfoldable pub longest_suffix_prefix_len : Text → Text → ℕ
longest_suffix_prefix_len s needle = suffix_len_from s needle (min (length s) (length needle - 1))

-- One turn of the loop of `push_str`: whether the loop goes on, the parser and the output.
abbrev pub Turn {ℓ} : Type ℓ → Type ℓ
Turn T = Bool × InlineHiddenTagParser T × StreamTextChunk (ExtractedInlineTag T)

module _ {ℓ} {T : Type ℓ} where
  -- `None` where the assertions of `new` fail.
  unfoldable pub new : List (InlineTagSpec T) → Option (InlineHiddenTagParser T)
  new specs =
      if not (is_nil specs)
        && all
            (λ (spec : InlineTagSpec T).
              not (is_nil spec.open_text) && not (is_nil spec.close_text))
            specs
      then some (record { specs = specs; pending = []; active = none })
      else none

  -- The candidates of `find_next_open`, in the order of the specs.
  unfoldable pub candidates : Text → List (InlineTagSpec T) → List (ℕ × InlineTagSpec T)
  candidates pending [] = []
  candidates pending (spec ∷ specs) = elim (find pending spec.open_text) [
    | none ↦ candidates pending specs
    | some pos ↦ (pos, spec) ∷ candidates pending specs
  ]

  -- `min_by`: the first position, there the longest opener, and of these the first spec.
  unfoldable pub precedes : ℕ × InlineTagSpec T → ℕ × InlineTagSpec T → Bool
  precedes (pos_a, a) (pos_b, b) =
      ltb pos_a pos_b || ((pos_a == pos_b) && ltb (length b.open_text) (length a.open_text))

  unfoldable pub earliest : ℕ × InlineTagSpec T → List (ℕ × InlineTagSpec T) → ℕ × InlineTagSpec T
  earliest found [] = found
  earliest found (next ∷ rest) = earliest (if precedes next found then next else found) rest

  unfoldable pub earliest? : List (ℕ × InlineTagSpec T) → Option (ℕ × InlineTagSpec T)
  earliest? [] = none
  earliest? (found ∷ rest) = some (earliest found rest)

  unfoldable pub find_next_open : InlineHiddenTagParser T → Option (ℕ × InlineTagSpec T)
  find_next_open p = earliest? (candidates p.pending p.specs)

  unfoldable pub max_keep : Text → List (InlineTagSpec T) → ℕ
  max_keep pending [] = 0
  max_keep pending (spec ∷ specs) =
      max (longest_suffix_prefix_len pending spec.open_text) (max_keep pending specs)

  unfoldable pub max_open_prefix_suffix_len : InlineHiddenTagParser T → ℕ
  max_open_prefix_suffix_len p = max_keep p.pending p.specs

  -- `out` after `push_visible_prefix`.
  unfoldable pub push_visible_prefix :
      StreamTextChunk (ExtractedInlineTag T) → Text → StreamTextChunk (ExtractedInlineTag T)
  push_visible_prefix out text = record out { visible_text = out.visible_text ++ text }

  -- The turn inside a tag, where `find` has looked for its close.
  unfoldable pub inside_turn :
      InlineHiddenTagParser T
      → StreamTextChunk (ExtractedInlineTag T)
      → ActiveTag T
      → Option ℕ
      → Turn T
  inside_turn p out a (some close_idx) = (
    true,
    record p { pending = drop (close_idx + length a.close_text) p.pending; active = none },
    record out {
      extracted =
          out.extracted
          ++ record { tag = a.tag; content = a.content ++ take close_idx p.pending } ∷ [];
    },
  )
  inside_turn p out a none =
      let taken = length p.pending - longest_suffix_prefix_len p.pending a.close_text in
      (
        false,
        record p {
          pending = drop taken p.pending;
          active = some (record a { content = a.content ++ take taken p.pending });
        },
        out,
      )

  -- The parser and the output after `drain_visible_to_suffix_match`.
  abbrev pub drain_visible_to_suffix_match :
      InlineHiddenTagParser T
      → StreamTextChunk (ExtractedInlineTag T)
      → ℕ
      → InlineHiddenTagParser T × StreamTextChunk (ExtractedInlineTag T)
  drain_visible_to_suffix_match p out keep = (
    record p { pending = drop (length p.pending - keep) p.pending },
    push_visible_prefix out (take (length p.pending - keep) p.pending),
  )

  -- The turn outside of the tags, where `find_next_open` has looked for an opener.
  unfoldable pub outside_turn :
      InlineHiddenTagParser T
      → StreamTextChunk (ExtractedInlineTag T)
      → Option (ℕ × InlineTagSpec T)
      → Turn T
  outside_turn p out (some (open_idx, spec)) = (
    true,
    record p {
      pending = drop (open_idx + length spec.open_text) p.pending;
      active = some (record { tag = spec.tag; close_text = spec.close_text; content = [] });
    },
    push_visible_prefix out (take open_idx p.pending),
  )
  outside_turn p out none =
      let (p', out') = drain_visible_to_suffix_match p out (max_open_prefix_suffix_len p) in
      (false, p', out')

  unfoldable pub turn_of :
      InlineHiddenTagParser T
      → StreamTextChunk (ExtractedInlineTag T)
      → Option (ActiveTag T)
      → Turn T
  turn_of p out (some a) = inside_turn p out a (find p.pending a.close_text)
  turn_of p out none = outside_turn p out (find_next_open p)

  -- The loop of `push_str`; `none` when the fuel runs out before its `break`.
  unfoldable pub push_loop :
      ℕ
      → InlineHiddenTagParser T
      → StreamTextChunk (ExtractedInlineTag T)
      → Option (InlineHiddenTagParser T × StreamTextChunk (ExtractedInlineTag T))
  push_loop zero p out = none
  push_loop (suc fuel) p out =
      let (continues, p', out') = turn_of p out p.active in
      let rest = push_loop fuel p' out' in if continues then rest else some (p', out')

  unfoldable pub push_str :
      InlineHiddenTagParser T
      → Text
      → Option (InlineHiddenTagParser T × StreamTextChunk (ExtractedInlineTag T))
  push_str p chunk =
      let pending = p.pending ++ chunk in
      push_loop (suc (length pending)) (record p { pending = pending }) no_chunk

  unfoldable pub finish_of :
      InlineHiddenTagParser T
      → Option (ActiveTag T)
      → InlineHiddenTagParser T × StreamTextChunk (ExtractedInlineTag T)
  finish_of p (some a) = (
    record p { pending = []; active = none },
    record {
      visible_text = [];
      extracted = record { tag = a.tag; content = a.content ++ p.pending } ∷ [];
    },
  )
  finish_of p none =
      (record p { pending = [] }, record { visible_text = p.pending; extracted = [] })

  unfoldable pub finish :
      InlineHiddenTagParser T → InlineHiddenTagParser T × StreamTextChunk (ExtractedInlineTag T)
  finish p = finish_of p p.active
