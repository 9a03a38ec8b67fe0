-- ===== src/StreamParser/Plan/Streaming.antt =====
-- The plan parser shows the same text and finds the same plan however the stream is cut.
use mosaic_desktop.Prelude.{
  ◌≡◌, refl, ap, ap₂, sym, ◌∙◌, List, [], ◌∷◌, ◌++◌, append-nil, append_assoc, Text, true,
}
use mosaic_desktop.StreamParser.{StreamTextChunk, no_chunk}
use mosaic_desktop.StreamParser.TaggedLine.{
  TaggedLineSegment, normal, tag_start, tag_delta, tag_end, parse,
}
use mosaic_desktop.StreamParser.TaggedLine.Events.{
  Event, shown, inside, opened, closed, segment_events, events,
}
use mosaic_desktop.StreamParser.TaggedLine.Streaming.{parse-append}
use mosaic_desktop.StreamParser.Plan.{
  PlanTag, proposed_plan, plan_eq, mapped, visible_of, map_segments_to, map_segments, push_str,
  ProposedPlanParser, ProposedPlanSegment,
}

pub plan_eq_sound : (t u : PlanTag) → plan_eq t u ≡ true → t ≡ u
plan_eq_sound proposed_plan proposed_plan h = refl

-- The characters outside of every tag.
shown_text : List (Event PlanTag) → Text
shown_text [] = []
shown_text (shown c ∷ es) = c ∷ shown_text es
shown_text (inside t c ∷ es) = shown_text es
shown_text (opened t ∷ es) = shown_text es
shown_text (closed t ∷ es) = shown_text es

shown_text-append :
    (es fs : List (Event PlanTag)) → shown_text (es ++ fs) ≡ shown_text es ++ shown_text fs
unfolding shown_text
shown_text-append [] fs = refl
shown_text-append (shown c ∷ es) fs = ap (◌∷◌ c) (shown_text-append es fs)
shown_text-append (inside t c ∷ es) fs = shown_text-append es fs
shown_text-append (opened t ∷ es) fs = shown_text-append es fs
shown_text-append (closed t ∷ es) fs = shown_text-append es fs

shown_text-normal : (text : Text) → shown_text (segment_events (normal text)) ≡ text
unfolding shown_text segment_events
shown_text-normal [] = refl
shown_text-normal (c ∷ text) = ap (◌∷◌ c) (shown_text-normal text)

shown_text-delta : (text : Text) → [] ≡ shown_text (segment_events (tag_delta proposed_plan text))
unfolding shown_text segment_events
shown_text-delta [] = refl
shown_text-delta (c ∷ text) = shown_text-delta text

shown_text-segment :
    (s : TaggedLineSegment PlanTag) → visible_of (mapped s) ≡ shown_text (segment_events s)
unfolding shown_text segment_events visible_of mapped
shown_text-segment (normal text) = sym (shown_text-normal text)
shown_text-segment (tag_start proposed_plan) = refl
shown_text-segment (tag_delta proposed_plan text) = shown_text-delta text
shown_text-segment (tag_end proposed_plan) = refl

visible-map_segments_to :
    (segments : List (TaggedLineSegment PlanTag)) (out : StreamTextChunk ProposedPlanSegment)
    → (map_segments_to out segments).visible_text ≡ out.visible_text ++ shown_text (events segments)
unfolding map_segments_to shown_text events
visible-map_segments_to [] out = sym (append-nil out.visible_text)
visible-map_segments_to (s ∷ segments) out =
    visible-map_segments_to segments _
    ∙ append_assoc out.visible_text (visible_of (mapped s)) _
    ∙ ap (◌++◌ out.visible_text) (
        ap (λ v. v ++ shown_text (events segments)) (shown_text-segment s)
        ∙ sym (shown_text-append (segment_events s) (events segments)))

-- Pushing a text in two chunks leaves the plan parser in the same state as pushing it in one, and
-- the visible texts of the two chunks together are the visible text of the whole.
pub visible-push_str-append :
    (p : ProposedPlanParser) (a b : Text)
    → let (q, out) = push_str p a in
      let (q', out') = push_str q b in
      let (whole, all) = push_str p (a ++ b) in
      (whole ≡ q') × (all.visible_text ≡ out.visible_text ++ out'.visible_text)
unfolding push_str map_segments no_chunk
visible-push_str-append p a b =
    let (same, adds) = parse-append plan_eq plan_eq_sound p.parser a b in
    let (q, seen) = parse plan_eq p.parser a in
    (
      ap (λ r. record { parser = r }) same,
      visible-map_segments_to _ no_chunk
          ∙ ap shown_text adds
          ∙ shown_text-append (events seen) _
          ∙ ap₂ (λ x y. x ++ y) (sym (visible-map_segments_to seen no_chunk))
              (sym (visible-map_segments_to _ no_chunk)),
    )
