-- ===== src/Metadata/Key.antt =====
-- libs/Domain/MetadataNormalization.cpp: `NormalizeText`, the key under which texts are compared.
-- Bytes that are no UTF-8 get a key of their own, behind a sentinel; a text that begins with the
-- sentinel gets it twice.
pub mod Separate
use librova_inpx_web.Common.{
  ℕ, Bool, true, false, List, [], ◌∷◌, ◌++◌, Option, none, some, get_or, if◌then◌else◌, Bytes,
  codes, shr, low_bits, starts_with,
}
use librova_inpx_web.Unicode.Normalize.{try_normalize}

-- `InvalidUtf8Sentinel`, U+E000, and `InvalidUtf8Prefix`.
abbrev pub sentinel : Bytes
sentinel = 0xEE ∷ 0x80 ∷ 0x80 ∷ []

abbrev pub invalid_prefix : Bytes
invalid_prefix = codes "invalid-utf8:"

abbrev pub hex_digits : Bytes
hex_digits = codes "0123456789abcdef"

-- `EscapeValidTextForNormalizationKey`.
pub escape_valid : Bytes → Bytes
escape_valid normalized =
    if starts_with normalized sentinel then sentinel ++ normalized else normalized

-- The loop over the bytes: two digits for each, the high one first.
pub hex_bytes : Bytes → Bytes
hex_bytes [] = []
hex_bytes (b ∷ bs) =
    get_or hex_digits (shr b 4) 0 ∷ get_or hex_digits (low_bits b 4) 0 ∷ hex_bytes bs

-- `EncodeInvalidUtf8ForNormalization`.
pub encode_invalid : Bytes → Bytes
encode_invalid value = sentinel ++ (invalid_prefix ++ hex_bytes value)

-- `NormalizeText`.
pub normalize_text : Bytes → Bytes
unfolding escape_valid encode_invalid hex_bytes
normalize_text value = elim (try_normalize value) [
  | some normalized ↦ escape_valid normalized
  | none ↦ encode_invalid value
]
