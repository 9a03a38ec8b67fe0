-- ===== src/StreamParser/Utf8Stream.antt =====
-- src-tauri/src/stream_parser/utf8_stream.rs: a stream parser behind a buffer for bytes that do not
-- make a character yet, with `std::str::from_utf8`.
pub mod Decoding
pub mod Bytes
use mosaic_desktop.Prelude.{
  ℕ, zero, suc, ◌+◌, ◌-◌, ◌*◌, Bool, true, false, ◌&&◌, Option, none, some, List, [], ◌∷◌, ◌++◌,
  length, take, drop, leb, ltb, ◌==◌, if◌then◌else◌, Text,
}
use mosaic_desktop.Protocol.Items.{Utf8}
use mosaic_desktop.StreamParser.{StreamTextChunk, then_chunk, no_chunk}

-- What a first byte asks for: how many bytes, and the range of the second.
pub data Lead : Type 0 where
  one two no_lead : Lead
  three four : ℕ → ℕ → Lead

abbrev pub within : ℕ → ℕ → ℕ → Bool
within lo hi b = leb lo b && leb b hi

unfoldable pub lead_of : ℕ → Lead
lead_of b =
    if ltb b 0x80
    then one
    else if within 0xc2 0xdf b
    then two
    else if b == 0xe0
    then three 0xa0 0xbf
    else if b == 0xed
    then three 0x80 0x9f
    else if within 0xe1 0xef b
    then three 0x80 0xbf
    else if b == 0xf0
    then four 0x90 0xbf
    else if b == 0xf4
    then four 0x80 0x8f
    else if within 0xf1 0xf3 b
    then four 0x80 0xbf
    else no_lead

-- A character and the bytes behind its first, the length of an error, or an end inside of one.
pub data Head : Type 0 where
  char : ℕ → ℕ → Head
  bad : ℕ → Head
  cut : Head

-- The bytes behind the first, each with its range, and the value so far: `n` bytes are read.
unfoldable pub rest_of : List (ℕ × ℕ) → ℕ → ℕ → List ℕ → Head
rest_of [] value n s = char value n
rest_of (range ∷ ranges) value n [] = cut
rest_of (range ∷ ranges) value n (c ∷ s) =
    let more = rest_of ranges (value * 64 + (c - 0x80)) (suc n) s in
    if within range.0 range.1 c then more else bad (suc n)

abbrev pub continuation : ℕ × ℕ
continuation = (0x80, 0xbf)

unfoldable pub head_of : Lead → ℕ → List ℕ → Head
head_of one b s = char b 0
head_of two b s = rest_of (continuation ∷ []) (b - 0xc0) 0 s
head_of (three lo hi) b s = rest_of ((lo, hi) ∷ continuation ∷ []) (b - 0xe0) 0 s
head_of (four lo hi) b s = rest_of ((lo, hi) ∷ continuation ∷ continuation ∷ []) (b - 0xf0) 0 s
head_of no_lead b s = bad 1

pub data Fault : Type 0 where
  fine cut_off : Fault
  invalid : ℕ → Fault

pub record Decoded : Type 0 where
  pub text : Text
  pub valid_up_to : ℕ
  pub fault : Fault

abbrev pub width : Head → ℕ
width (char c k) = k
width (bad n) = 0
width cut = 0

abbrev pub on_head : Head → Decoded → Decoded
on_head (char c k) r = record r { text = c ∷ r.text; valid_up_to = suc r.valid_up_to }
on_head (bad n) r = record { text = []; valid_up_to = 0; fault = invalid n }
on_head cut r = record { text = []; valid_up_to = 0; fault = cut_off }

-- Decoding behind the rest of a character of `skip` bytes.
unfoldable pub run : ℕ → List ℕ → Decoded
run skip [] = record { text = []; valid_up_to = 0; fault = fine }
run (suc skip) (b ∷ s) = let r = run skip s in record r { valid_up_to = suc r.valid_up_to }
run zero (b ∷ s) = let h = head_of (lead_of b) b s in on_head h (run (width h) s)

-- `std::str::from_utf8`
unfoldable pub from_utf8 : Utf8 → Decoded
from_utf8 s = run 0 s

pub data Utf8StreamParserError : Type 0 where
  invalid_utf8 : ℕ → ℕ → Utf8StreamParserError
  incomplete_utf8_at_eof : Utf8StreamParserError

pub data Utf8Result {ℓ} (A : Type ℓ) : Type ℓ where
  ok : A → Utf8Result A
  err : Utf8StreamParserError → Utf8Result A

pub record Utf8StreamParser {ℓ} (P : Type ℓ) : Type ℓ where
  pub inner : P
  pub pending_utf8 : Utf8

abbrev pub new {ℓ} : {P : Type ℓ} → P → Utf8StreamParser P
new inner = record { inner = inner; pending_utf8 = [] }

abbrev pub error_len : Fault → ℕ
error_len fine = 0
error_len cut_off = 0
error_len (invalid n) = n

-- The parser that is wrapped: its state, and its methods `push_str` and `finish`.
module _ {ℓ κ} {P : Type ℓ} {T : Type κ} (push_str : P → Text → P × StreamTextChunk T)
    (finish_inner : P → P × StreamTextChunk T) where
  abbrev pub Step : Type (ℓ ⊔ κ)
  Step = Utf8StreamParser P × Utf8Result (StreamTextChunk T)

  abbrev pub pushed : (P × StreamTextChunk T) → Utf8 → Step
  pushed (inner, out) pending = (record { inner = inner; pending_utf8 = pending }, ok out)

  -- `pending_utf8.truncate(old_len)`, and the error.
  abbrev pub rejected : Utf8StreamParser P → Utf8 → ℕ → ℕ → Step
  rejected st pending valid n = (
    record st { pending_utf8 = take (length st.pending_utf8) pending },
    err (invalid_utf8 valid n),
  )

  -- The second call of `from_utf8`, on the valid bytes alone.
  abbrev pub push_prefix : Fault → Decoded → ℕ → Utf8 → Utf8StreamParser P → Step
  push_prefix fine r valid pending st = pushed (push_str st.inner r.text) (drop valid pending)
  push_prefix cut_off r valid pending st = rejected st pending r.valid_up_to (error_len cut_off)
  push_prefix (invalid n) r valid pending st =
      rejected st pending r.valid_up_to (error_len (invalid n))

  abbrev pub push_decoded : Fault → Decoded → Utf8 → Utf8StreamParser P → Step
  push_decoded fine r pending st = pushed (push_str st.inner r.text) []
  push_decoded (invalid n) r pending st = rejected st pending r.valid_up_to n
  push_decoded cut_off r pending st =
      let first = from_utf8 (take r.valid_up_to pending) in
      if r.valid_up_to == 0
      then (record st { pending_utf8 = pending }, ok no_chunk)
      else push_prefix first.fault first r.valid_up_to pending st

  unfoldable pub push_bytes : Utf8StreamParser P → Utf8 → Step
  push_bytes st chunk =
      let pending = st.pending_utf8 ++ chunk in
      let r = from_utf8 pending in push_decoded r.fault r pending st

  -- The inner parser's end, behind what was pending.
  abbrev finished : (P × StreamTextChunk T) → Step
  finished (inner, out) = pushed ((finish_inner inner).0, then_chunk out (finish_inner inner).1) []

  abbrev finish_decoded : Fault → Decoded → Utf8StreamParser P → Step
  finish_decoded fine r st = finished (push_str st.inner r.text)
  finish_decoded (invalid n) r st = (st, err (invalid_utf8 r.valid_up_to n))
  finish_decoded cut_off r st = (st, err incomplete_utf8_at_eof)

  abbrev finish_pending : Utf8 → Utf8StreamParser P → Step
  finish_pending [] st = finished (st.inner, no_chunk)
  finish_pending (b ∷ bs) st = let r = from_utf8 (b ∷ bs) in finish_decoded r.fault r st

  unfoldable pub finish : Utf8StreamParser P → Step
  finish st = finish_pending st.pending_utf8 st

abbrev inner_or_fault {ℓ} : {P : Type ℓ} → P → Decoded → Fault → Utf8Result P
inner_or_fault p r fine = ok p
inner_or_fault p r (invalid n) = err (invalid_utf8 r.valid_up_to n)
inner_or_fault p r cut_off = err incomplete_utf8_at_eof

unfoldable pub into_inner {ℓ} : {P : Type ℓ} → Utf8StreamParser P → Utf8Result P
into_inner st = let r = from_utf8 st.pending_utf8 in inner_or_fault st.inner r r.fault

abbrev pub into_inner_lossy {ℓ} : {P : Type ℓ} → Utf8StreamParser P → P
into_inner_lossy st = st.inner
