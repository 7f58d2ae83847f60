-- ===== src/Unicode/Utf8.antt =====
-- libs/Foundation/UnicodeConversion.cpp: one code point of UTF-8, read and written.
pub mod Sequence
pub mod RoundTrip
-- A position in a string is the rest of the string from there.
use librova_inpx_web.Common.{
  ℕ, ◌+◌, ◌≤◌, ◌<◌, Bool, true, false, ◌&&◌, ◌||◌, List, [], ◌∷◌, ◌++◌, Option, none, some, ltb,
  leb, ◌==◌, if◌then◌else◌, Bytes, shr, shl, low_bits,
}

abbrev pub within : ℕ → ℕ → ℕ → Bool
within lo hi b = leb lo b && leb b hi

-- The three-byte form: `isValidSequence`, and the code point.
decode_three : ℕ → ℕ → ℕ → Option (ℕ × ℕ)
decode_three first second third =
    if (first == 0xE0 && (within 0xA0 0xBF second && within 0x80 0xBF third))
      || (within 0xE1 0xEC first && (within 0x80 0xBF second && within 0x80 0xBF third))
      || (first == 0xED && (within 0x80 0x9F second && within 0x80 0xBF third))
      || (within 0xEE 0xEF first && (within 0x80 0xBF second && within 0x80 0xBF third))
    then some (shl (low_bits first 4) 12 + shl (low_bits second 6) 6 + low_bits third 6, 3)
    else none

decode_four : ℕ → ℕ → ℕ → ℕ → Option (ℕ × ℕ)
decode_four first second third fourth =
    if (first == 0xF0
        && (within 0x90 0xBF second && (within 0x80 0xBF third && within 0x80 0xBF fourth)))
      || (within 0xF1 0xF3 first
          && (within 0x80 0xBF second && (within 0x80 0xBF third && within 0x80 0xBF fourth)))
      || (first == 0xF4
          && (within 0x80 0x8F second && (within 0x80 0xBF third && within 0x80 0xBF fourth)))
    then some (
      shl (low_bits first 3) 18
          + shl (low_bits second 6) 12
          + shl (low_bits third 6) 6
          + low_bits fourth 6,
      4,
    )
    else none

decode_two : ℕ → ℕ → Option (ℕ × ℕ)
decode_two first second =
    if ltb first 0xC2 || (ltb 0xDF first || (ltb second 0x80 || ltb 0xBF second))
    then none
    else some (shl (low_bits first 5) 6 + low_bits second 6, 2)

-- The bytes behind the first: `none` where the string ends too early.
two_bytes : ℕ → Bytes → Option (ℕ × ℕ)
two_bytes first (second ∷ _) = decode_two first second
two_bytes first [] = none

three_bytes : ℕ → Bytes → Option (ℕ × ℕ)
three_bytes first (second ∷ third ∷ _) = decode_three first second third
three_bytes first (second ∷ []) = none
three_bytes first [] = none

four_bytes : ℕ → Bytes → Option (ℕ × ℕ)
four_bytes first (second ∷ third ∷ fourth ∷ _) = decode_four first second third fourth
four_bytes first (second ∷ third ∷ []) = none
four_bytes first (second ∷ []) = none
four_bytes first [] = none

-- `TryDecodeUtf8CodePoint`: the code point and the length of its sequence. A mask of high bits,
-- `(firstByte & 0xE0) == 0xC0`, is a test on the shifted byte.
unfoldable pub try_decode : Bytes → Option (ℕ × ℕ)
unfolding two_bytes three_bytes four_bytes decode_two decode_three decode_four
try_decode [] = none
try_decode (first ∷ rest) =
    if ltb first 0x80
    then some (first, 1)
    else if shr first 5 == 0x06
    then two_bytes first rest
    else if shr first 4 == 0x0E
    then three_bytes first rest
    else if shr first 3 == 0x1E
    then four_bytes first rest
    else none

-- `AppendUtf8CodePoint`: the bytes that it appends.
unfoldable pub encode : ℕ → Bytes
encode c =
    if leb c 0x7F
    then c ∷ []
    else if leb c 0x7FF
    then (0xC0 + low_bits (shr c 6) 5) ∷ (0x80 + low_bits c 6) ∷ []
    else if leb c 0xFFFF
    then (0xE0 + low_bits (shr c 12) 4) ∷ (0x80 + low_bits (shr c 6) 6) ∷ (0x80 + low_bits c 6) ∷ []
    else (0xF0 + low_bits (shr c 18) 3)
      ∷ (0x80 + low_bits (shr c 12) 6)
      ∷ (0x80 + low_bits (shr c 6) 6)
      ∷ (0x80 + low_bits c 6)
      ∷ []

-- A Unicode scalar value: a code point that is no surrogate.
abbrev pub is_scalar : ℕ → Bool
is_scalar c = ltb c 0xD800 || (leb 0xE000 c && leb c 0x10FFFF)

abbrev pub encode_all : List ℕ → Bytes
encode_all [] = []
encode_all (c ∷ cs) = encode c ++ encode_all cs
