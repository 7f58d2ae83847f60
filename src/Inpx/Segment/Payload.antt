-- ===== src/Inpx/Segment/Payload.antt =====
-- libs/Inpx/InpxParser.cpp: what `DecodeInpPayloadToUtf8` gives.
use librova_inpx_web.Common.{
  ◌≡◌, sym, subst, ◌∙◌, true, [], ok, ok_inj, ◌⊎◌, inl, inr, Bool-cases, Bytes, IsBytes,
  starts_with, drop,
}
use librova_inpx_web.Unicode.Walk.{is_valid_utf8}
use librova_inpx_web.Unicode.Legacy.{Converter, utf16le, utf16be}
use librova_inpx_web.Unicode.Legacy.Valid.{
  ConvertsToUtf8, decode_legacy-is_valid_utf8, utf16-is_valid_utf8,
}
use librova_inpx_web.Inpx.Text.Find.{copy_text_lem}
use librova_inpx_web.Inpx.Segment.{utf8_mark, utf16_le_mark, utf16_be_mark, decode_payload}

-- Where iconv gives UTF-8, what is decoded from a payload that has no UTF-8 mark is UTF-8. Behind
-- that mark the bytes are taken as they are.
pub decode_payload-is_valid_utf8 :
    (iconv : Converter) (bytes text : Bytes)
    → ConvertsToUtf8 iconv
    → IsBytes bytes
    → decode_payload iconv bytes ≡ ok text
    → (is_valid_utf8 text ≡ true) ⊎ ((starts_with bytes utf8_mark ≡ true) × (text ≡ drop 3 bytes))
unfolding decode_payload
decode_payload-is_valid_utf8 iconv bytes text converts b h =
    elim (Bool-cases (starts_with bytes utf8_mark)) [
      | inl e ↦ inr (e, sym (ok_inj (rw e at h)) ∙ (copy_text_lem (drop 3 bytes) []).0)
      | inr e ↦ elim (Bool-cases (starts_with bytes utf16_le_mark)) [
        | inl f ↦ inl (utf16-is_valid_utf8 iconv converts utf16le 0xFF 0xFE bytes (rw (e, f) at h))
        | inr f ↦ elim (Bool-cases (starts_with bytes utf16_be_mark)) [
          | inl g ↦
              inl (utf16-is_valid_utf8 iconv converts utf16be 0xFE 0xFF bytes (rw (e, f, g) at h))
          | inr g ↦ elim (Bool-cases (is_valid_utf8 bytes)) [
            | inl v ↦ inl (
                subst (λ t. is_valid_utf8 t ≡ true)
                  (sym (copy_text_lem bytes []).0 ∙ ok_inj (rw (e, f, g, v) at h)) v)
            | inr v ↦
                inl (decode_legacy-is_valid_utf8 iconv converts bytes b (rw (e, f, g, v) at h))
          ]
        ]
      ]
    ]
