-- ===== src/Cursor/Base64.antt =====
-- libs/Server/BookListCursor.cpp: `EncodeBase64Url` and `DecodeBase64Url`. The bit buffer is a
-- `std::uint32_t`, whose upper bits are lost as it is shifted.
pub mod Groups
pub mod Characters
pub mod RoundTrip
pub mod Canonical
use librova_inpx_web.Common.{
  ℕ, zero, suc, ◌+◌, ◌-◌, ◌*◌, ◌/◌, ◌%◌, ◌^◌, Bool, true, false, not, ◌&&◌, ◌||◌, List, [], ◌∷◌,
  ◌++◌, Option, none, some, ltb, leb, ◌==◌, length, get_or, if◌then◌else◌, Bytes, codes, shr, shl,
  low_bits,
}
use librova_inpx_web.Unicode.Utf8.{within}

-- `GMaxEncodedCursorBytes`.
abbrev pub max_encoded_bytes : ℕ
max_encoded_bytes = 8192

-- `GBase64UrlAlphabet[index]`.
pub alphabet_at : ℕ → ℕ
alphabet_at index =
    get_or (codes "ABCDEFGHIJKLMNOPQRSTUVWXYZabcdefghijklmnopqrstuvwxyz0123456789-_") index 0

-- `(buffer << count) | bits`, in 32 bits.
abbrev pub push_bits : ℕ → ℕ → ℕ → ℕ
push_bits buffer count bits = shl buffer count % 2 ^ 32 + bits

-- `while (bitCount >= 6)`: the characters that it appends, and the bits left. It takes less
-- rounds than there are bits.
pub drain : ℕ → ℕ → ℕ → Bytes × ℕ
drain zero buffer count = ([], count)
drain (suc fuel) buffer count =
    let (characters, left) = drain fuel buffer (count - 6) in
    if leb 6 count
    then (alphabet_at (low_bits (shr buffer (count - 6)) 6) ∷ characters, left)
    else ([], count)

-- The loop over the bytes, and what is appended behind it.
pub encode_from : ℕ → ℕ → Bytes → Bytes
unfolding drain
encode_from buffer count [] =
    if ltb 0 count then alphabet_at (low_bits (shl buffer (6 - count) % 2 ^ 32) 6) ∷ [] else []
encode_from buffer count (b ∷ bs) =
    let buffer' = push_bits buffer 8 b in
    let (characters, left) = drain (count + 8) buffer' (count + 8) in
    characters ++ encode_from buffer' left bs

-- `EncodeBase64Url`.
unfoldable pub encode : Bytes → Bytes
unfolding encode_from
encode = encode_from 0 0

-- `DecodeBase64UrlCharacter`: `none` stands for -1.
unfoldable pub decode_character : ℕ → Option ℕ
decode_character c =
    if within b'A' b'Z' c
    then some (c - b'A')
    else if within b'a' b'z' c
    then some (c - b'a' + 26)
    else if within b'0' b'9' c
    then some (c - b'0' + 52)
    else if c == b'-'
    then some 62
    else if c == b'_'
    then some 63
    else none

abbrev pub prepend : Bytes → Option Bytes → Option Bytes
prepend bytes none = none
prepend bytes (some later) = some (bytes ++ later)

-- The body of the loop behind the character's value: the byte that it appends, if it does, and
-- the bits left.
pub take_byte : ℕ → ℕ → Bytes × ℕ
take_byte buffer count =
    if leb 8 count then (low_bits (shr buffer (count - 8)) 8 ∷ [], count - 8) else ([], count)

-- The loop over the characters, and the test behind it; `none` is `std::invalid_argument`.
pub decode_from : ℕ → ℕ → Bytes → Option Bytes
unfolding take_byte
decode_from buffer count [] =
    if ltb 0 count && not (low_bits buffer count == 0) then none else some []
decode_from buffer count (c ∷ cs) = elim (decode_character c) [
  | none ↦ none
  | some value ↦
      let buffer' = push_bits buffer 6 value in
      let (bytes, left) = take_byte buffer' (count + 6) in
      prepend bytes (decode_from buffer' left cs)
]

is_nil : Bytes → Bool
is_nil [] = true
is_nil (b ∷ bs) = false

-- `DecodeBase64Url`.
unfoldable pub decode : Bytes → Option Bytes
unfolding decode_from is_nil
decode encoded =
    if is_nil encoded || ltb max_encoded_bytes (length encoded) || (length encoded % 4) == 1
    then none
    else decode_from 0 0 encoded
