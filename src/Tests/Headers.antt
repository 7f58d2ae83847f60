-- ===== src/Tests/Headers.antt =====
-- libs/Server/HttpServer.cpp at concrete inputs.
use librova_inpx_web.Common.{
  ◌≡◌, refl, false, [], ◌∷◌, ok, Bytes, IsBytes, All, all_lower, all_lower_sound,
}
use librova_inpx_web.Inpx.Text.{is_nil}
use librova_inpx_web.Server.Headers.{
  percent_encode, decode_segment, ascii_filename_fallback, content_disposition,
}
use librova_inpx_web.Server.Headers.Percent.{decode_segment-percent_encode}
use librova_inpx_web.Server.Headers.Printable.{IsName, IsPrintable, content_disposition-IsPrintable}

-- A quote, a line end and a letter outside ASCII.
abbrev name : Bytes
name = 34 ∷ 10 ∷ 0xD0 ∷ 0x90 ∷ []

name-IsBytes : IsBytes name
unfolding all_lower
name-IsBytes = all_lower_sound 256 name refl

decode_segment-percent_encode_example : decode_segment (percent_encode name) ≡ ok name
decode_segment-percent_encode_example = decode_segment-percent_encode name name-IsBytes

content_disposition-IsPrintable_example :
    All IsPrintable (content_disposition name)
    × All IsName (ascii_filename_fallback name)
    × (is_nil (ascii_filename_fallback name) ≡ false)
content_disposition-IsPrintable_example = content_disposition-IsPrintable name name-IsBytes
