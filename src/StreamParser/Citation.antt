-- ===== src/StreamParser/Citation.antt =====
-- src-tauri/src/stream_parser/citation.rs: `<oai-mem-citation>` tags, hidden from the text.
pub mod Streaming
use mosaic_desktop.Prelude.{Option, none, some, List, [], ◌∷◌, ◌++◌, map, Text, codes}
use mosaic_desktop.StreamParser.{StreamTextChunk, ◌>>=◌}
use mosaic_desktop.StreamParser.Inline
use mosaic_desktop.StreamParser.Inline.{InlineTagSpec, InlineHiddenTagParser, ExtractedInlineTag}

pub data CitationTag : Type 0 where
  citation : CitationTag

-- `CITATION_OPEN` and `CITATION_CLOSE`
abbrev pub citation_spec : InlineTagSpec CitationTag
citation_spec = record {
  tag = citation;
  open_text = codes "<oai-mem-citation>";
  close_text = codes "</oai-mem-citation>";
}

pub record CitationStreamParser : Type 0 where
  pub inner : InlineHiddenTagParser CitationTag

unfoldable pub with_inner : InlineHiddenTagParser CitationTag → CitationStreamParser
with_inner inner = record { inner = inner }

-- `None` is a panic, of the assertions of the inner parser.
unfoldable pub new : Option CitationStreamParser
new = do inner ← Inline.new (citation_spec ∷ []); some (with_inner inner)

-- The content of the tags in place of the tags.
unfoldable pub contents : StreamTextChunk (ExtractedInlineTag CitationTag) → StreamTextChunk Text
contents inner = record {
  visible_text = inner.visible_text;
  extracted = map (λ (tag : ExtractedInlineTag CitationTag). tag.content) inner.extracted;
}

unfoldable pub pushed :
    Option (InlineHiddenTagParser CitationTag × StreamTextChunk (ExtractedInlineTag CitationTag))
    → Option (CitationStreamParser × StreamTextChunk Text)
pushed none = none
pushed (some (inner, out)) = some (with_inner inner, contents out)

unfoldable pub push_str :
    CitationStreamParser → Text → Option (CitationStreamParser × StreamTextChunk Text)
push_str p chunk = pushed (Inline.push_str p.inner chunk)

unfoldable pub finish : CitationStreamParser → CitationStreamParser × StreamTextChunk Text
finish p = let (inner, out) = Inline.finish p.inner in (with_inner inner, contents out)

unfoldable pub strip_citations : Text → Option (Text × List Text)
strip_citations text = do
  p ← new
  (p', out) ← push_str p text
  let tail = (finish p').1
  some (out.visible_text ++ tail.visible_text, out.extracted ++ tail.extracted)
