-- ===== src/Server/Headers.antt =====
-- libs/Server/HttpServer.cpp: the header of a download, and percent signs.
pub mod Percent
pub mod Printable
use librova_inpx_web.Common.{
  ℕ, ◌+◌, ◌*◌, ◌-◌, Bool, true, false, not, ◌&&◌, ◌||◌, List, [], ◌∷◌, ◌++◌, Option, none, some,
  Outcome, ok, throw, ◌>>=◌, leb, ◌==◌, if◌then◌else◌, Bytes, codes, get_or, shr, low_bits,
}
use librova_inpx_web.Inpx.Text.{is_nil}

abbrev pub within : ℕ → ℕ → ℕ → Bool
within low high c = leb low c && leb c high

abbrev pub is_alphanumeric : ℕ → Bool
is_alphanumeric c = within b'0' b'9' c || (within b'A' b'Z' c || within b'a' b'z' c)

-- `IsHeaderAttrChar`.
abbrev pub is_header_attr_char : ℕ → Bool
is_header_attr_char c =
    is_alphanumeric c
    || (c == b'!'
        || (c == b'#'
            || (c == b'$'
                || (c == b'&'
                    || (c == b'+'
                        || (c == b'-'
                            || (c == b'.'
                                || (c == b'^'
                                    || (c == b'_'
                                        || (c == 0x60 || (c == b'|' || c == b'~')))))))))))

abbrev pub digits : Bytes
digits = codes "0123456789ABCDEF"

abbrev pub digit : ℕ → ℕ
digit n = get_or digits n 0

-- `PercentEncodeHeaderValue`.
unfoldable pub percent_encode : Bytes → Bytes
percent_encode [] = []
percent_encode (c ∷ cs) =
    let rest = percent_encode cs in
    if is_header_attr_char c
    then c ∷ rest
    else b'%' ∷ digit (low_bits (shr c 4) 4) ∷ digit (low_bits c 4) ∷ rest

abbrev pub is_filename_char : ℕ → Bool
is_filename_char c = is_alphanumeric c || (c == b'.' || (c == b'-' || c == b'_'))

unfoldable pub fallback_characters : Bytes → Bytes
fallback_characters [] = []
fallback_characters (c ∷ cs) = (if is_filename_char c then c else b'_') ∷ fallback_characters cs

-- `BuildAsciiFilenameFallback`.
unfoldable pub ascii_filename_fallback : Bytes → Bytes
unfolding fallback_characters
ascii_filename_fallback value =
    let result = fallback_characters value in if is_nil result then codes "book" else result

-- `BuildContentDisposition`.
unfoldable pub content_disposition : Bytes → Bytes
unfolding ascii_filename_fallback percent_encode
content_disposition name =
    codes "attachment; filename="
    ++ 34
      ∷ (ascii_filename_fallback name ++ 34 ∷ (codes "; filename*=UTF-8''" ++ percent_encode name))

-- `HexValue`, where -1 is `none`.
abbrev pub hex_value : ℕ → Option ℕ
hex_value c =
    if within b'0' b'9' c
    then some (c - b'0')
    else if within b'A' b'F' c
    then some (c - b'A' + 10)
    else if within b'a' b'f' c
    then some (c - b'a' + 10)
    else none

-- `CHttpErrorMapper::BadRequest`.
pub data SegmentError : Type 0 where
  bad_request : SegmentError

abbrev pub decode_pair :
    Option ℕ → Option ℕ → Outcome SegmentError Bytes → Outcome SegmentError Bytes
decode_pair (some high) (some low) rest = rest >>= λ bytes. ok ((high * 16 + low) ∷ bytes)
decode_pair _ _ rest = throw bad_request

-- `DecodeStaticPathSegment`.
unfoldable pub decode_segment : Bytes → Outcome SegmentError Bytes
decode_segment [] = ok []
decode_segment (c ∷ []) = if not (c == b'%') then ok (c ∷ []) else throw bad_request
decode_segment (c ∷ d ∷ []) =
    let rest = decode_segment (d ∷ []) in
    if not (c == b'%') then (rest >>= λ bytes. ok (c ∷ bytes)) else throw bad_request
decode_segment (c ∷ d ∷ e ∷ cs) =
    let rest = decode_segment (d ∷ e ∷ cs) in
    let behind = decode_segment cs in
    if not (c == b'%')
    then (rest >>= λ bytes. ok (c ∷ bytes))
    else decode_pair (hex_value d) (hex_value e) behind
