-- ===== src/Protocol/Utf8.antt =====
-- `str` methods on the UTF-8 bytes of a text.
use mosaic_desktop.Prelude.{
  ℕ, get_elem?, String, codes, concat, map, ltb, ◌/◌, ◌%◌, ◌++◌, zero, suc, ◌+◌, ◌-◌, Bool, true,
  false, ◌&&◌, ◌||◌, Option, none, some, List, [], ◌∷◌, ◌==◌, leb, if◌then◌else◌, length, drop,
  take, starts_with,
}
use mosaic_desktop.Protocol.Items.{Utf8}

abbrev pub is_empty {ℓ} : {A : Type ℓ} → List A → Bool
is_empty [] = true
is_empty (x ∷ xs) = false

-- White space of two and of three bytes; that of one byte is ASCII.
abbrev pub is_white2 : ℕ → ℕ → Bool
is_white2 b c = (b == 0xc2) && ((c == 0x85) || (c == 0xa0))

abbrev pub is_white3 : ℕ → ℕ → ℕ → Bool
is_white3 b c d =
    ((b == 0xe1) && (c == 0x9a) && (d == 0x80))
    || ((b == 0xe2)
        && (c == 0x80)
        && ((leb 0x80 d && leb d 0x8a) || (d == 0xa8) || (d == 0xa9) || (d == 0xaf)))
    || ((b == 0xe2) && (c == 0x81) && (d == 0x9f))
    || ((b == 0xe3) && (c == 0x80) && (d == 0x80))

abbrev pub is_white1 : ℕ → Bool
is_white1 b = (leb 9 b && leb b 13) || (b == 32)

-- The length of the white space character at the front, or 0.
abbrev pub white_len : Utf8 → ℕ
white_len [] = 0
white_len (b ∷ []) = if is_white1 b then 1 else 0
white_len (b ∷ c ∷ []) = if is_white1 b then 1 else if is_white2 b c then 2 else 0
white_len (b ∷ c ∷ d ∷ s) =
    if is_white1 b then 1 else if is_white2 b c then 2 else if is_white3 b c d then 3 else 0

-- `trim_start`, behind the rest of a white space character.
unfoldable pub trim_from : ℕ → Utf8 → Utf8
trim_from skip [] = []
trim_from (suc skip) (b ∷ s) = trim_from skip s
trim_from zero (b ∷ s) = elim (white_len (b ∷ s)) [ zero ↦ b ∷ s | suc k ↦ trim_from k s ]

unfoldable pub trim_start : Utf8 → Utf8
trim_start s = trim_from 0 s

-- `trim_end`: a suffix is dropped where it is white space alone. No white space begins with a
-- continuation byte, so that no character is cut.
unfoldable pub trim_end : Utf8 → Utf8
trim_end [] = []
trim_end (b ∷ s) = let rest = trim_end s in if is_empty (trim_start (b ∷ s)) then [] else b ∷ rest

unfoldable pub trim : Utf8 → Utf8
trim s = trim_end (trim_start s)

-- `strip_prefix`
unfoldable pub strip_prefix : Utf8 → Utf8 → Option Utf8
strip_prefix s p = if starts_with s p then some (drop (length p) s) else none

-- `find`, in bytes.
abbrev later : Option ℕ → Option ℕ
later none = none
later (some i) = some (1 + i)

unfoldable pub find : Utf8 → Utf8 → Option ℕ
find [] p = if starts_with [] p then some 0 else none
find (b ∷ s) p = let rest = later (find s p) in if starts_with (b ∷ s) p then some 0 else rest

-- `u8::to_ascii_lowercase`, and `eq_ignore_ascii_case`
unfoldable pub ascii_lowercase : ℕ → ℕ
ascii_lowercase b = if leb 65 b && leb b 90 then b + 32 else b

unfoldable pub eq_ignore_ascii_case : Utf8 → Utf8 → Bool
eq_ignore_ascii_case [] [] = true
eq_ignore_ascii_case [] (c ∷ t) = false
eq_ignore_ascii_case (b ∷ s) [] = false
eq_ignore_ascii_case (b ∷ s) (c ∷ t) =
    (ascii_lowercase b == ascii_lowercase c) && eq_ignore_ascii_case s t

-- `trim_end_matches(c)` for an ASCII character.
unfoldable pub trim_end_matches_byte : ℕ → Utf8 → Utf8
trim_end_matches_byte c [] = []
trim_end_matches_byte c (b ∷ s) = keep (trim_end_matches_byte c s)
  where
    keep : Utf8 → Utf8
    keep [] = if b == c then [] else b ∷ []
    keep (d ∷ t) = b ∷ d ∷ t

-- The UTF-8 bytes of a text that is held as a string.
abbrev encode : ℕ → Utf8
encode c =
    if ltb c 0x80
    then c ∷ []
    else if ltb c 0x800
    then (0xc0 + c / 64) ∷ (0x80 + c % 64) ∷ []
    else if ltb c 0x10000
    then (0xe0 + c / 4096) ∷ (0x80 + c / 64 % 64) ∷ (0x80 + c % 64) ∷ []
    else (0xf0 + c / 262144) ∷ (0x80 + c / 4096 % 64) ∷ (0x80 + c / 64 % 64) ∷ (0x80 + c % 64) ∷ []

unfoldable pub utf8 : String → Utf8
utf8 s = concat (map encode (codes s))

-- The decimal digits of a number; `fuel` bounds their count.
unfoldable pub digits : ℕ → ℕ → Utf8
digits zero n = []
digits (suc fuel) n =
    let more = digits fuel (n / 10) in (if ltb n 10 then [] else more) ++ (48 + n % 10) ∷ []

-- `ToString` of an integer below 2^64, which has at most 20 digits.
unfoldable pub decimal : ℕ → Utf8
decimal n = digits 20 n

-- `split.join(sep)`
abbrev pub join : Utf8 → List Utf8 → Utf8
join sep [] = []
join sep (s ∷ []) = s
join sep (s ∷ t ∷ ts) = s ++ sep ++ join sep (t ∷ ts)

-- `Ord` of texts: that of their bytes.
unfoldable pub bytes_le : Utf8 → Utf8 → Bool
bytes_le [] t = true
bytes_le (b ∷ s) [] = false
bytes_le (b ∷ s) (c ∷ t) = ltb b c || (b == c) && bytes_le s t

-- `sort_by`: stable, here by insertion.
module _ {ℓ} {A : Type ℓ} (key : A → Utf8) where
  unfoldable pub insert : A → List A → List A
  insert x [] = x ∷ []
  insert x (y ∷ ys) =
      let rest = insert x ys in if bytes_le (key x) (key y) then x ∷ y ∷ ys else y ∷ rest

  unfoldable pub sort : List A → List A
  sort [] = []
  sort (x ∷ xs) = insert x (sort xs)

-- `&s[a..b]`, which panics out of range and inside a character.
abbrev starts_char : Option ℕ → Bool
starts_char none = true
starts_char (some b) = ltb b 0x80 || leb 0xc0 b

abbrev is_char_boundary : Utf8 → ℕ → Bool
is_char_boundary s i = leb i (length s) && starts_char (get_elem? s i)

unfoldable pub slice : Utf8 → ℕ → ℕ → Option Utf8
slice s a b =
    if leb a b && is_char_boundary s a && is_char_boundary s b
    then some (take (b - a) (drop a s))
    else none
