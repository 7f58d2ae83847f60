-- ===== src/Cursor/Base64/RoundTrip.antt =====
-- libs/Server/BookListCursor.cpp: what is encoded, decoded again.
use librova_inpx_web.Common.{
  ℕ, ◌+◌, ◌*◌, ◌/◌, ◌%◌, ◌≤◌, ◌<◌, ◌≡◌, refl, ap, ◌∙◌, false, [], ◌∷◌, some, arith, ==_false,
  ltb-false, length, Bytes, IsBytes,
}
use mathlib.Core.Path.{ap₂}
use librova_inpx_web.Cursor.Base64.{
  alphabet_at, encode, decode, decode_character, prepend, decode_from, max_encoded_bytes, is_nil,
}
use librova_inpx_web.Cursor.Base64.Groups.{encode_groups, encode_lem}
use librova_inpx_web.Cursor.Base64.Characters.{
  decode_character-alphabet_at, decode_from_0, decode_from_6, decode_from_4, decode_from_2,
  decode_end_0, decode_end_4, decode_end_2,
}

read_at : (v : ℕ) → v < 64 → decode_character (alphabet_at v) ≡ some v
read_at = decode_character-alphabet_at

decode_from-encode_groups :
    (buffer : ℕ) (s : Bytes) → IsBytes s → decode_from buffer 0 (encode_groups s) ≡ some s
unfolding encode_groups
decode_from-encode_groups buffer [] h = decode_end_0 buffer
decode_from-encode_groups buffer (a ∷ []) h =
    let (buffer1, e1, r1) = decode_from_0 buffer _ (a / 4) _ (read_at (a / 4) (omega arith)) in
    let (buffer2, e2, r2) =
      decode_from_6 buffer1 _ (a % 4 * 16) (a / 4) _ (read_at _ (omega arith)) r1 in
    e1
    ∙ ap (prepend []) (
        e2
        ∙ ap (prepend ((a / 4 * 4 + a % 4 * 16 / 16) ∷ []))
            (decode_end_4 buffer2 0 (r2 ∙ omega arith))
        ∙ ap (λ (x : ℕ). some (x ∷ [])) (omega arith))
decode_from-encode_groups buffer (a ∷ b ∷ []) h =
    let v2 : ℕ = a % 4 * 16 + b / 16 in
    let v3 : ℕ = b % 16 * 4 in
    let (buffer1, e1, r1) = decode_from_0 buffer _ (a / 4) _ (read_at (a / 4) (omega arith)) in
    let (buffer2, e2, r2) = decode_from_6 buffer1 _ v2 (a / 4) _ (read_at v2 (omega arith)) r1 in
    let (buffer3, e3, r3) = decode_from_4 buffer2 _ v3 (v2 % 16) _ (read_at v3 (omega arith)) r2 in
    e1
    ∙ ap (prepend []) (
        e2
        ∙ ap (prepend ((a / 4 * 4 + v2 / 16) ∷ [])) (
            e3
            ∙ ap (prepend ((v2 % 16 * 16 + v3 / 4) ∷ []))
                (decode_end_2 buffer3 0 (r3 ∙ omega arith)))
        ∙ ap₂ (λ (x y : ℕ). some (x ∷ y ∷ [])) (omega arith) (omega arith))
decode_from-encode_groups buffer (a ∷ b ∷ c ∷ rest) h =
    let v2 : ℕ = a % 4 * 16 + b / 16 in
    let v3 : ℕ = b % 16 * 4 + c / 64 in
    let v4 : ℕ = c % 64 in
    let (buffer1, e1, r1) = decode_from_0 buffer _ (a / 4) _ (read_at (a / 4) (omega arith)) in
    let (buffer2, e2, r2) = decode_from_6 buffer1 _ v2 (a / 4) _ (read_at v2 (omega arith)) r1 in
    let (buffer3, e3, r3) = decode_from_4 buffer2 _ v3 (v2 % 16) _ (read_at v3 (omega arith)) r2 in
    let (buffer4, e4) = decode_from_2 buffer3 _ v4 (v3 % 4) _ (read_at v4 (omega arith)) r3 in
    e1
    ∙ ap (prepend []) (
        e2
        ∙ ap (prepend ((a / 4 * 4 + v2 / 16) ∷ [])) (
            e3
            ∙ ap (prepend ((v2 % 16 * 16 + v3 / 4) ∷ [])) (
                e4
                ∙ ap (prepend ((v3 % 4 * 64 + v4) ∷ []))
                    (decode_from-encode_groups buffer4 rest h.1.1.1)))
        ∙ ap some (ap₂ ◌∷◌ (omega arith) (ap₂ ◌∷◌ (omega arith) (ap₂ ◌∷◌ (omega arith) refl))))

is_nil-false : (s : Bytes) → 0 < length s → is_nil s ≡ false
unfolding is_nil
is_nil-false [] h = absurd (omega arith)
is_nil-false (b ∷ s) h = refl

-- The length of an encoding, which `result.reserve` estimates.
length-encode_groups : (s : Bytes) → (length (encode_groups s) ≡ length s + (length s + 2) / 3)
unfolding encode_groups
length-encode_groups [] = refl
length-encode_groups (a ∷ []) = refl
length-encode_groups (a ∷ b ∷ []) = refl
length-encode_groups (a ∷ b ∷ c ∷ s) = omega (arith, length-encode_groups s)

-- What is encoded is decoded to itself, unless it is empty or its encoding is too long.
pub decode-encode :
    (s : Bytes)
    → IsBytes s
    → 0 < length s
    → length (encode s) ≤ max_encoded_bytes
    → decode (encode s) ≡ some s
unfolding decode
decode-encode s h pos fits =
    let same = encode_lem s h in
    let len = ap length same ∙ length-encode_groups s in
    rw
      (
        is_nil-false (encode s) (omega (arith, len)),
        ltb-false max_encoded_bytes (length (encode s)) fits,
        ==_false (length (encode s) % 4) 1 (λ e. omega (arith, len)),
      )
      (ap (decode_from 0 0) same ∙ decode_from-encode_groups 0 s h)
