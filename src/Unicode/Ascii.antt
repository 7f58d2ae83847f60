-- ===== src/Unicode/Ascii.antt =====
-- libs/Foundation/UnicodeConversion.cpp: strings of ASCII characters.
use librova_inpx_web.Common.{◌<◌, ◌≡◌, refl, sym, true, [], ◌∷◌, ◌++◌, arith, All, Bytes}
use mathlib.Core.Path.{ap₂}
use librova_inpx_web.Unicode.Utf8.{encode_all}
use librova_inpx_web.Unicode.Utf8.Sequence.{encode-one}
use librova_inpx_web.Unicode.Walk.{is_valid_utf8}
use librova_inpx_web.Unicode.Walk.Laws.{AreScalar, is_valid_utf8_iff}

pub encode_all_ascii : (s : Bytes) → All (λ b. b < 0x80) s → encode_all s ≡ s
encode_all_ascii [] h = refl
encode_all_ascii (b ∷ s) h = ap₂ ◌++◌ (encode-one b h.0) (encode_all_ascii s h.1)

ascii-AreScalar : (s : Bytes) → All (λ b. b < 0x80) s → AreScalar s
ascii-AreScalar [] h = tt
ascii-AreScalar (b ∷ s) h = (ground arith, ascii-AreScalar s h.1)

pub is_valid_utf8_ascii : (s : Bytes) → All (λ b. b < 0x80) s → is_valid_utf8 s ≡ true
is_valid_utf8_ascii s h =
    (is_valid_utf8_iff s).1 (s, ascii-AreScalar s h, sym (encode_all_ascii s h))
