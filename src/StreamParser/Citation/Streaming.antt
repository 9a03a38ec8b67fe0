-- ===== src/StreamParser/Citation/Streaming.antt =====
-- Citations: every chunk is taken, and the stream may be cut anywhere.
use mosaic_desktop.Prelude.{◌≡◌, refl, ap, ◌∙◌, some, List, [], ◌∷◌, ◌++◌, map, Text, arith}
use mosaic_desktop.StreamParser.{StreamTextChunk, then_chunk}
use mosaic_desktop.StreamParser.Inline
use mosaic_desktop.StreamParser.Inline.{ExtractedInlineTag, InlineHiddenTagParser}
use mosaic_desktop.StreamParser.Inline.Streaming.{IsOpen, push_str-total, push_str-append}
use mosaic_desktop.StreamParser.Citation.{
  CitationTag, citation_spec, CitationStreamParser, new, with_inner, contents, pushed, push_str,
}

-- A citation parser as `new` makes it, and as every push leaves it.
abbrev pub IsCitation : CitationStreamParser → Type 0
IsCitation p = IsOpen citation_spec p.inner

map-append {ℓ κ} :
    {A : Type ℓ} {B : Type κ} (f : A → B) (xs ys : List A) → map f (xs ++ ys) ≡ map f xs ++ map f ys
map-append f [] ys = refl
map-append f (x ∷ xs) ys = ap (◌∷◌ (f x)) (map-append f xs ys)

contents-then_chunk :
    (a b : StreamTextChunk (ExtractedInlineTag CitationTag))
    → contents (then_chunk a b) ≡ then_chunk (contents a) (contents b)
unfolding contents
contents-then_chunk a b =
    ap (λ e. record { visible_text = a.visible_text ++ b.visible_text; extracted = e })
      (map-append _ a.extracted b.extracted)

-- A citation parser in a state that `new` and `push_str` reach takes every two chunks, in the same
-- way as the text that they make together: with the same parser at the end, and with the visible
-- text and the citations of the first chunk before those of the second.
pub citations-push_str-append :
    (p : CitationStreamParser) (a b : Text)
    → IsCitation p
    → (q r : CitationStreamParser) × (first second : StreamTextChunk Text) × (push_str p a
        ≡ some (q, first))
      × (push_str q b ≡ some (r, second))
      × (push_str p (a ++ b) ≡ some (r, then_chunk first second))
      × IsCitation r
unfolding push_str pushed with_inner
citations-push_str-append p a b valid =
    let (q, first, e1, valid_q) =
      push_str-total citation_spec (omega arith) (omega arith) p.inner a valid in
    let (r, second, e2, valid_r) =
      push_str-total citation_spec (omega arith) (omega arith) q b valid_q in
    let whole =
      push_str-append citation_spec (omega arith) (omega arith) p.inner q r a b first second valid
        e1 e2 in
    (
      with_inner q,
      with_inner r,
      contents first,
      contents second,
      ap pushed e1,
      ap pushed e2,
      ap pushed whole ∙ ap (λ c. some (with_inner r, c)) (contents-then_chunk first second),
      valid_r,
    )

pub new-IsCitation : (p : CitationStreamParser) × (new ≡ some p) × IsCitation p
unfolding new with_inner Inline.new
new-IsCitation = (_, refl, (refl, tt))
