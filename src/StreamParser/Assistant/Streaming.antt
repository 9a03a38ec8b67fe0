-- ===== src/StreamParser/Assistant/Streaming.antt =====
-- Assistant text: what a user sees does not depend on how the model's text arrives.
use mosaic_desktop.Prelude.{
  ◌≡◌, refl, ap, ◌∙◌, inl, inr, true, Option, some, ◌++◌, Text, Bool-cases,
}
use mosaic_desktop.StreamParser.{StreamTextChunk, then_chunk, ◌>>=◌}
use mosaic_desktop.StreamParser.Citation
use mosaic_desktop.StreamParser.Citation.{CitationStreamParser}
use mosaic_desktop.StreamParser.Citation.Streaming.{IsCitation, citations-push_str-append}
use mosaic_desktop.StreamParser.Plan.Streaming.{visible-push_str-append}
use mosaic_desktop.StreamParser.Assistant.{
  AssistantTextStreamParser, AssistantTextChunk, parse_visible_text, push_str, after_citations,
}

-- The visible texts of two pieces are that of the whole, and the parser is the same.
visible_pieces :
    (p : AssistantTextStreamParser) (c d : CitationStreamParser) (s t : Text)
    → let (q, first) = parse_visible_text (record p { citations = c }) s in
      let (r, second) = parse_visible_text (record q { citations = d }) t in
      let (r', whole) = parse_visible_text (record p { citations = d }) (s ++ t) in
      (r' ≡ r) × (whole.visible_text ≡ first.visible_text ++ second.visible_text)
unfolding parse_visible_text
visible_pieces p c d s t = elim (Bool-cases p.plan_mode) [
  | inl planning ↦
      let (same, visible) = visible-push_str-append p.plan s t in
      rw planning
        (ap (λ plan. record { plan_mode = true; citations = d; plan = plan }) same, visible)
  | inr plain ↦ rw plain (refl, refl)
]

parse_visible_text-citations :
    (p : AssistantTextStreamParser) (s : Text) → (parse_visible_text p s).0.citations ≡ p.citations
unfolding parse_visible_text
parse_visible_text-citations p s = elim (Bool-cases p.plan_mode) [
  | inl planning ↦ rw planning refl
  | inr plain ↦ rw plain refl
]

-- The rest of `push_str` on the result of the citation parser.
abbrev continued :
    AssistantTextStreamParser
    → Option (CitationStreamParser × StreamTextChunk Text)
    → Option (AssistantTextStreamParser × AssistantTextChunk)
continued p o = o >>= λ parsed. some (after_citations p parsed)

-- From a state in which the citation parser is one that `new` and `push_str` reach, in plan mode or
-- not, `push_str` takes every two chunks in the same way as the text that they make together: the
-- parser at the end is the same, and the visible text and the citations of the whole are those of
-- the first chunk, then those of the second.
pub assistant-push_str-append :
    (p : AssistantTextStreamParser) (a b : Text)
    → IsCitation p.citations
    → (q r : AssistantTextStreamParser) × (first second whole : AssistantTextChunk) × (push_str p a
        ≡ some (q, first))
      × (push_str q b ≡ some (r, second))
      × (push_str p (a ++ b) ≡ some (r, whole))
      × (whole.visible_text ≡ first.visible_text ++ second.visible_text)
      × (whole.citations ≡ first.citations ++ second.citations)
unfolding push_str after_citations
assistant-push_str-append p a b valid =
    let (c, d, first, second, e1, e2, e3, _) = citations-push_str-append p.citations a b valid in
    let (same, visible) = visible_pieces p c d first.visible_text second.visible_text in
    let q = (after_citations p (c, first)).0 in
    let kept = parse_visible_text-citations (record p { citations = c }) first.visible_text in
    let whole = (after_citations p (d, then_chunk first second)).1 in
    (
      _,
      _,
      _,
      _,
      whole,
      ap (continued p) e1,
      ap (continued q) (ap (λ x. Citation.push_str x b) kept ∙ e2),
      ap (continued p) e3 ∙ ap (λ r. some (r, whole)) same,
      visible,
      refl,
    )
