-- ===== src/StreamParser.antt =====
-- src-tauri/src/stream_parser: parsers of streamed text. Texts are lists of code points: the byte
-- offsets of the source are always at character boundaries, so `find`, `len` and slices count
-- characters here. A method returns the new parser and its result.
pub mod TaggedLine
pub mod Inline
pub mod Plan
pub mod Citation
pub mod Assistant
pub mod Utf8Stream
mod Tests
use mosaic_desktop.Prelude.{Bool, true, false, Option, none, some, List, [], ◌∷◌, ◌++◌, Text}

pub record StreamTextChunk {ℓ} (T : Type ℓ) : Type ℓ where
  pub visible_text : Text
  pub extracted : List T

-- `Default::default()`
unfoldable pub no_chunk {ℓ} : {T : Type ℓ} → StreamTextChunk T
no_chunk = record { visible_text = []; extracted = [] }

abbrev pub is_nil {ℓ} : {A : Type ℓ} → List A → Bool
is_nil [] = true
is_nil (x ∷ xs) = false

-- The outputs of two calls, one after the other.
abbrev pub then_chunk {ℓ} : {T : Type ℓ} → StreamTextChunk T → StreamTextChunk T → StreamTextChunk T
then_chunk a b = record {
  visible_text = a.visible_text ++ b.visible_text;
  extracted = a.extracted ++ b.extracted;
}

-- `?` on an `Option`, and the order of two steps of which the first may stop.
infixl 5 ◌>>=◌
abbrev pub ◌>>=◌ {ℓ κ} : {A : Type ℓ} {B : Type κ} → Option A → (A → Option B) → Option B
none >>= f = none
some a >>= f = f a
