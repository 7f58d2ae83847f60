-- ===== src/Tests/Text.antt =====
-- libs/Foundation/UnicodeConversion.cpp and libs/Server/BookListCursor.cpp at concrete inputs.
use librova_inpx_web.Common.{
  ◌≡◌, refl, true, [], ◌∷◌, some, arith, Bytes, IsBytes, codes, all_lower, all_lower_sound,
}
use librova_inpx_web.Unicode.Utf8.{try_decode, encode}
use librova_inpx_web.Unicode.Walk.{walk, is_valid_utf8}
use librova_inpx_web.Unicode.Walk.Laws.{is_valid_utf8_iff}
use librova_inpx_web.Unicode.CaseFold.{case_fold, is_whitespace, folded_points}
use librova_inpx_web.Unicode.Normalize.{try_normalize}
use librova_inpx_web.Cursor.Base64
use librova_inpx_web.Cursor.Base64.{max_encoded_bytes}
use librova_inpx_web.Cursor.Base64.RoundTrip.{decode-encode}
use librova_inpx_web.Cursor.Base64.Canonical.{encode-decode}

-- A Cyrillic letter, and the same before an ASCII one.
abbrev letter : Bytes
letter = 0xD0 ∷ 0xBF ∷ []

is_valid_utf8_iff_example : is_valid_utf8 letter ≡ true
unfolding encode
is_valid_utf8_iff_example = (is_valid_utf8_iff letter).1 (0x43F ∷ [], (refl, tt), refl)

title-normal : try_normalize (codes " Ab  c") ≡ some (codes "ab c")
unfolding try_normalize walk try_decode case_fold is_whitespace encode folded_points
title-normal = refl

decode-encode_example : Base64.decode (Base64.encode (codes "ab")) ≡ some (codes "ab")
unfolding all_lower Base64.encode
decode-encode_example =
    decode-encode (codes "ab") (all_lower_sound 256 (codes "ab") refl) (omega arith) (omega arith)

encode-decode_example : IsBytes (codes "ab") × (Base64.encode (codes "ab") ≡ codes "YWI")
unfolding Base64.decode Base64.decode_character
encode-decode_example = encode-decode (codes "YWI") refl
