-- ===== src/StreamParser/Assistant.antt =====
-- src-tauri/src/stream_parser/assistant_text.rs: citations and, in plan mode, plan blocks.
pub mod Streaming
use mosaic_desktop.Prelude.{
  Bool, true, false, ◌&&◌, not, Option, none, some, List, [], ◌∷◌, ◌++◌, Text, if◌then◌else◌,
}
use mosaic_desktop.StreamParser.{StreamTextChunk, is_nil, ◌>>=◌}
use mosaic_desktop.StreamParser.Citation
use mosaic_desktop.StreamParser.Citation.{CitationStreamParser}
use mosaic_desktop.StreamParser.Plan
use mosaic_desktop.StreamParser.Plan.{ProposedPlanParser, ProposedPlanSegment}

pub record AssistantTextChunk : Type 0 where
  pub visible_text : Text
  pub citations : List Text
  pub plan_segments : List ProposedPlanSegment

unfoldable pub is_empty : AssistantTextChunk → Bool
is_empty c = is_nil c.visible_text && is_nil c.citations && is_nil c.plan_segments

pub record AssistantTextStreamParser : Type 0 where
  pub plan_mode : Bool
  pub citations : CitationStreamParser
  pub plan : ProposedPlanParser

unfoldable pub new : Bool → Option AssistantTextStreamParser
new plan_mode = do
  citations ← Citation.new
  some (record { plan_mode = plan_mode; citations = citations; plan = Plan.new })

unfoldable pub parse_visible_text :
    AssistantTextStreamParser → Text → AssistantTextStreamParser × AssistantTextChunk
parse_visible_text p visible_text =
    let (plan', out) = Plan.push_str p.plan visible_text in
    if not p.plan_mode
    then (p, record { visible_text = visible_text; citations = []; plan_segments = [] })
    else (
      record p { plan = plan' },
      record { visible_text = out.visible_text; citations = []; plan_segments = out.extracted },
    )

-- `push_str` behind the citation parser.
unfoldable pub after_citations :
    AssistantTextStreamParser
    → CitationStreamParser × StreamTextChunk Text
    → AssistantTextStreamParser × AssistantTextChunk
after_citations p (citations', citation_chunk) =
    let (p', out) =
      parse_visible_text (record p { citations = citations' }) citation_chunk.visible_text in
    (p', record out { citations = citation_chunk.extracted })

unfoldable pub push_str :
    AssistantTextStreamParser → Text → Option (AssistantTextStreamParser × AssistantTextChunk)
push_str p chunk = do parsed ← Citation.push_str p.citations chunk; some (after_citations p parsed)

-- The tail of the plan parser that `finish` appends in plan mode.
unfoldable pub append_tail :
    AssistantTextStreamParser → AssistantTextChunk → AssistantTextStreamParser × AssistantTextChunk
append_tail p out =
    let (plan', tail) = Plan.finish p.plan in
    if p.plan_mode
    then (
      record p { plan = plan' },
      record out {
        visible_text = out.visible_text ++ tail.visible_text;
        plan_segments = out.plan_segments ++ tail.extracted;
      },
    )
    else (p, out)

unfoldable pub finish : AssistantTextStreamParser → AssistantTextStreamParser × AssistantTextChunk
finish p =
    let (citations', citation_chunk) = Citation.finish p.citations in
    let (p', out) =
      parse_visible_text (record p { citations = citations' }) citation_chunk.visible_text in
    let (p'', out') = append_tail p' out in
    (p'', record out' { citations = citation_chunk.extracted })
