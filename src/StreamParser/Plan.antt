-- ===== src/StreamParser/Plan.antt =====
-- src-tauri/src/stream_parser/proposed_plan.rs: `<proposed_plan>` blocks on lines of their own.
pub mod Streaming
use mosaic_desktop.Prelude.{
  Bool, true, false, Option, none, some, List, [], ◌∷◌, ◌++◌, map, Text, codes,
}
use mosaic_desktop.StreamParser.{StreamTextChunk, no_chunk}
use mosaic_desktop.StreamParser.TaggedLine
use mosaic_desktop.StreamParser.TaggedLine.{
  TagSpec, TaggedLineSegment, normal, tag_start, tag_delta, tag_end, TaggedLineParser,
}

pub data PlanTag : Type 0 where
  proposed_plan : PlanTag

-- The derived equality of `PlanTag`.
unfoldable pub plan_eq : PlanTag → PlanTag → Bool
plan_eq proposed_plan proposed_plan = true

pub data ProposedPlanSegment : Type 0 where
  normal_text : Text → ProposedPlanSegment
  proposed_plan_start : ProposedPlanSegment
  proposed_plan_delta : Text → ProposedPlanSegment
  proposed_plan_end : ProposedPlanSegment

pub record ProposedPlanParser : Type 0 where
  pub parser : TaggedLineParser PlanTag

-- `OPEN_TAG` and `CLOSE_TAG`
abbrev pub plan_spec : TagSpec PlanTag
plan_spec = record {
  open_line = codes "<proposed_plan>";
  close_line = codes "</proposed_plan>";
  tag = proposed_plan;
}

unfoldable pub new : ProposedPlanParser
new = record { parser = TaggedLine.new (plan_spec ∷ []) }

unfoldable pub mapped : TaggedLineSegment PlanTag → ProposedPlanSegment
mapped (normal text) = normal_text text
mapped (tag_start proposed_plan) = proposed_plan_start
mapped (tag_delta proposed_plan text) = proposed_plan_delta text
mapped (tag_end proposed_plan) = proposed_plan_end

-- The text that a segment adds to the visible text.
unfoldable pub visible_of : ProposedPlanSegment → Text
visible_of (normal_text text) = text
visible_of proposed_plan_start = []
visible_of (proposed_plan_delta text) = []
visible_of proposed_plan_end = []

unfoldable pub map_segments_to :
    StreamTextChunk ProposedPlanSegment
    → List (TaggedLineSegment PlanTag)
    → StreamTextChunk ProposedPlanSegment
map_segments_to out [] = out
map_segments_to out (segment ∷ segments) =
    map_segments_to
      (record {
        visible_text = out.visible_text ++ visible_of (mapped segment);
        extracted = out.extracted ++ mapped segment ∷ [];
      })
      segments

unfoldable pub map_segments : List (TaggedLineSegment PlanTag) → StreamTextChunk ProposedPlanSegment
map_segments segments = map_segments_to no_chunk segments

unfoldable pub push_str :
    ProposedPlanParser → Text → ProposedPlanParser × StreamTextChunk ProposedPlanSegment
push_str p chunk =
    let (parser', segments) = TaggedLine.parse plan_eq p.parser chunk in
    (record { parser = parser' }, map_segments segments)

unfoldable pub finish :
    ProposedPlanParser → ProposedPlanParser × StreamTextChunk ProposedPlanSegment
finish p =
    let (parser', segments) = TaggedLine.finish plan_eq p.parser in
    (record { parser = parser' }, map_segments segments)

unfoldable pub strip_proposed_plan_blocks : Text → Text
strip_proposed_plan_blocks text =
    let (parser', out) = push_str new text in out.visible_text ++ (finish parser').1.visible_text

-- The loop of `extract_proposed_plan_text` over the segments.
unfoldable pub collect_plan : Bool → Text → List ProposedPlanSegment → Option Text
collect_plan true plan_text [] = some plan_text
collect_plan false plan_text [] = none
collect_plan saw plan_text (proposed_plan_start ∷ segments) = collect_plan true [] segments
collect_plan saw plan_text (proposed_plan_delta delta ∷ segments) =
    collect_plan saw (plan_text ++ delta) segments
collect_plan saw plan_text (proposed_plan_end ∷ segments) = collect_plan saw plan_text segments
collect_plan saw plan_text (normal_text text ∷ segments) = collect_plan saw plan_text segments

unfoldable pub extract_proposed_plan_text : Text → Option Text
extract_proposed_plan_text text =
    let (parser', out) = push_str new text in
    collect_plan false [] (out.extracted ++ (finish parser').1.extracted)
