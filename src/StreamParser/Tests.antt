-- ===== src/StreamParser/Tests.antt =====
-- Runs of the stream parsers, and the theorems at concrete texts.
use mosaic_desktop.Prelude.{
  ℕ, suc, ◌≡◌, refl, true, none, some, [], ◌∷◌, ◌++◌, Text, codes, arith, text_eq,
}
use mosaic_desktop.StreamParser.{StreamTextChunk, then_chunk, no_chunk}
use mosaic_desktop.StreamParser.TaggedLine.Brackets.{Bracketed, parse-finish-Bracketed}
use mosaic_desktop.StreamParser.TaggedLine.Streaming.{parse-append}
use mosaic_desktop.StreamParser.TaggedLine.Events.{events}
use mosaic_desktop.StreamParser.TaggedLine
use mosaic_desktop.StreamParser.Plan
use mosaic_desktop.StreamParser.Plan.{
  PlanTag, plan_eq, plan_spec, extract_proposed_plan_text, strip_proposed_plan_blocks,
}
use mosaic_desktop.StreamParser.Plan.Streaming.{plan_eq_sound, visible-push_str-append}
use mosaic_desktop.StreamParser.Inline
use mosaic_desktop.StreamParser.Inline.Streaming.{IsOpen, push_str-total, push_str-append}
use mosaic_desktop.StreamParser.Citation
use mosaic_desktop.StreamParser.Citation.{citation_spec, CitationTag, citation, strip_citations}
use mosaic_desktop.StreamParser.Citation.Streaming.{IsCitation, citations-push_str-append}
use mosaic_desktop.StreamParser.Assistant
use mosaic_desktop.StreamParser.Utf8Stream
use mosaic_desktop.StreamParser.Utf8Stream.Bytes.{Outcome, push_bytes-Outcome}
use mosaic_desktop.StreamParser.Assistant.Streaming.{assistant-push_str-append}

-- The text around the citation, and a held prefix of a tag that turns out to be text.
stripped :
    strip_citations (codes "a<oai-mem-citation>x</oai-mem-citation>b<oai")
    ≡ some (codes "ab<oai", codes "x" ∷ [])
unfolding strip_citations Citation.new Inline.new Citation.push_str Citation.pushed Inline.push_str
    Inline.push_loop Inline.turn_of Citation.with_inner Inline.outside_turn Inline.find_next_open
    Inline.earliest? Inline.candidates Inline.find Inline.inside_turn Inline.earliest
    Citation.contents Inline.push_visible_prefix Citation.finish Inline.ends_with_first
    Inline.finish Inline.finish_of Inline.longest_suffix_prefix_len Inline.max_keep
    Inline.max_open_prefix_suffix_len Inline.precedes Inline.suffix_len_from no_chunk text_eq
stripped = refl

abbrev lines : TaggedLine.TaggedLineParser PlanTag
lines = record { specs = plan_spec ∷ []; active_tag = none; detect_tag = true; line_buffer = [] }

-- A tag that the cut splits.
abbrev start_of_tag : Text
start_of_tag = codes "x\n<prop"

abbrev rest_of_tag : Text
rest_of_tag = codes "osed_plan>\ny"

parse-append_example :
    ((TaggedLine.parse plan_eq lines (start_of_tag ++ rest_of_tag)).0
      ≡ (TaggedLine.parse plan_eq (TaggedLine.parse plan_eq lines start_of_tag).0 rest_of_tag).0)
    × (events (TaggedLine.parse plan_eq lines (start_of_tag ++ rest_of_tag)).1
        ≡ events (TaggedLine.parse plan_eq lines start_of_tag).1
          ++ events
              (TaggedLine.parse plan_eq
                (TaggedLine.parse plan_eq lines start_of_tag).0
                rest_of_tag).1)
parse-append_example = parse-append plan_eq plan_eq_sound lines start_of_tag rest_of_tag

abbrev plan_parser : Plan.ProposedPlanParser
plan_parser = record { parser = lines }

visible-push_str-append_example :
    ((Plan.push_str plan_parser (start_of_tag ++ rest_of_tag)).0
      ≡ (Plan.push_str (Plan.push_str plan_parser start_of_tag).0 rest_of_tag).0)
    × ((Plan.push_str plan_parser (start_of_tag ++ rest_of_tag)).1.visible_text
        ≡ (Plan.push_str plan_parser start_of_tag).1.visible_text
          ++ (Plan.push_str (Plan.push_str plan_parser start_of_tag).0 rest_of_tag).1.visible_text)
visible-push_str-append_example = visible-push_str-append plan_parser start_of_tag rest_of_tag

abbrev angle : Inline.InlineTagSpec CitationTag
angle = record { tag = citation; open_text = codes "<"; close_text = codes ">" }

abbrev outside : Inline.InlineHiddenTagParser CitationTag
outside = record { specs = angle ∷ []; pending = []; active = none }

abbrev inside_b : Inline.InlineHiddenTagParser CitationTag
inside_b = record {
  specs = angle ∷ [];
  pending = [];
  active = some (record { tag = citation; close_text = codes ">"; content = codes "b" });
}

abbrev chunk_a : StreamTextChunk (Inline.ExtractedInlineTag CitationTag)
chunk_a = record { visible_text = codes "a"; extracted = [] }

abbrev chunk_d : StreamTextChunk (Inline.ExtractedInlineTag CitationTag)
chunk_d = record {
  visible_text = codes "d";
  extracted = record { tag = citation; content = codes "bc" } ∷ [];
}

first_push : Inline.push_str outside (codes "a<b") ≡ some (inside_b, chunk_a)
unfolding Inline.push_str Inline.push_loop Inline.turn_of Inline.outside_turn Inline.find_next_open
    Inline.earliest? Inline.candidates Inline.find Inline.inside_turn Inline.earliest
    Inline.push_visible_prefix Inline.ends_with_first Inline.longest_suffix_prefix_len
    Inline.max_keep Inline.max_open_prefix_suffix_len Inline.suffix_len_from no_chunk text_eq
first_push = refl

second_push : Inline.push_str inside_b (codes "c>d") ≡ some (outside, chunk_d)
unfolding Inline.push_str Inline.push_loop Inline.turn_of Inline.outside_turn Inline.find_next_open
    Inline.earliest? Inline.candidates Inline.find Inline.inside_turn Inline.earliest
    Inline.push_visible_prefix Inline.ends_with_first Inline.longest_suffix_prefix_len
    Inline.max_keep Inline.max_open_prefix_suffix_len Inline.suffix_len_from no_chunk text_eq
second_push = refl

push_str-append_example :
    Inline.push_str outside (codes "a<b" ++ codes "c>d")
    ≡ some (outside, then_chunk chunk_a chunk_d)
push_str-append_example =
    push_str-append angle (omega arith) (omega arith) outside inside_b outside (codes "a<b")
      (codes "c>d") chunk_a chunk_d (refl, tt) first_push second_push

push_str-total_example :
    (q : Inline.InlineHiddenTagParser CitationTag) × (seen : StreamTextChunk
      (Inline.ExtractedInlineTag CitationTag))
    × (Inline.push_str outside (codes "a<b") ≡ some (q, seen))
    × IsOpen angle q
push_str-total_example =
    push_str-total angle (omega arith) (omega arith) outside (codes "a<b") (refl, tt)

abbrev citation_parser : Citation.CitationStreamParser
citation_parser = record {
  inner = record { specs = citation_spec ∷ []; pending = []; active = none };
}

citations-push_str-append_example :
    (q r : Citation.CitationStreamParser) × (first second : StreamTextChunk Text)
    × (Citation.push_str citation_parser (codes "a<oai-mem") ≡ some (q, first))
    × (Citation.push_str q (codes "ory>") ≡ some (r, second))
    × (Citation.push_str citation_parser (codes "a<oai-mem" ++ codes "ory>")
        ≡ some (r, then_chunk first second))
    × IsCitation r
citations-push_str-append_example =
    citations-push_str-append citation_parser (codes "a<oai-mem") (codes "ory>") (refl, tt)

abbrev assistant : Assistant.AssistantTextStreamParser
assistant = record { plan_mode = true; citations = citation_parser; plan = plan_parser }

assistant-push_str-append_example :
    (q r : Assistant.AssistantTextStreamParser) × (first second
      whole : Assistant.AssistantTextChunk)
    × (Assistant.push_str assistant start_of_tag ≡ some (q, first))
    × (Assistant.push_str q rest_of_tag ≡ some (r, second))
    × (Assistant.push_str assistant (start_of_tag ++ rest_of_tag) ≡ some (r, whole))
    × (whole.visible_text ≡ first.visible_text ++ second.visible_text)
    × (whole.citations ≡ first.citations ++ second.citations)
assistant-push_str-append_example =
    assistant-push_str-append assistant start_of_tag rest_of_tag (refl, tt)

parse-finish-Bracketed_example :
    Bracketed none
      (events (TaggedLine.parse plan_eq lines (codes "<proposed_plan>\na")).1
        ++ events
            (TaggedLine.finish plan_eq
              (TaggedLine.parse plan_eq lines (codes "<proposed_plan>\na")).0).1)
      none
parse-finish-Bracketed_example =
    parse-finish-Bracketed plan_eq plan_eq_sound lines (codes "<proposed_plan>\na")

-- A wrapped parser that shows all of its text and counts the calls.
abbrev count_pushes : ℕ → Text → ℕ × StreamTextChunk ℕ
count_pushes n text = (suc n, record { visible_text = text; extracted = [] })

abbrev count_finish : ℕ → ℕ × StreamTextChunk ℕ
count_finish n = (n, no_chunk)

-- The first two bytes of a character of three.
abbrev two_bytes : Utf8Stream.Utf8StreamParser ℕ
two_bytes = record { inner = 0; pending_utf8 = 0xe4 ∷ 0xbd ∷ [] }

completed : Utf8Stream.push_bytes count_pushes count_finish two_bytes (0xa0 ∷ 0x61 ∷ 0xc3 ∷ []) ≡ (
  record { inner = 1; pending_utf8 = 0xc3 ∷ [] },
  Utf8Stream.ok (record { visible_text = 0x4f60 ∷ 0x61 ∷ []; extracted = [] }),
)
unfolding Utf8Stream.push_bytes Utf8Stream.from_utf8 Utf8Stream.run Utf8Stream.head_of
    Utf8Stream.lead_of Utf8Stream.rest_of
completed = refl

push_bytes-Outcome_example :
    Outcome count_pushes count_finish two_bytes
      (0xff ∷ [])
      (two_bytes.pending_utf8 ++ 0xff ∷ [])
      (Utf8Stream.push_bytes count_pushes count_finish two_bytes (0xff ∷ []))
push_bytes-Outcome_example = push_bytes-Outcome count_pushes count_finish two_bytes (0xff ∷ [])
