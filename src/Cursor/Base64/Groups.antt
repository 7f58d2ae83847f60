-- ===== src/Cursor/Base64/Groups.antt =====
-- libs/Server/BookListCursor.cpp: base 64 as RFC 4648 has it, three bytes to four characters with
-- no bit buffer, for a comparison with `EncodeBase64Url`.
use librova_inpx_web.Common.{
  ℕ, ◌+◌, ◌*◌, ◌/◌, ◌%◌, ◌<◌, ◌≡◌, refl, ap, ◌∙◌, [], ◌∷◌, arith, Bytes, IsBytes,
}
use mathlib.Core.Path.{ap₂}
use librova_inpx_web.Cursor.Base64.{alphabet_at, encode_from, encode}

unfoldable pub encode_groups : Bytes → Bytes
encode_groups [] = []
encode_groups (a ∷ []) = alphabet_at (a / 4) ∷ alphabet_at (a % 4 * 16) ∷ []
encode_groups (a ∷ b ∷ []) =
    alphabet_at (a / 4) ∷ alphabet_at (a % 4 * 16 + b / 16) ∷ alphabet_at (b % 16 * 4) ∷ []
encode_groups (a ∷ b ∷ c ∷ rest) =
    alphabet_at (a / 4)
    ∷ alphabet_at (a % 4 * 16 + b / 16)
    ∷ alphabet_at (b % 16 * 4 + c / 64)
    ∷ alphabet_at (c % 64)
    ∷ encode_groups rest

-- One byte, from each number of bits that can be left over. Of the buffer only these bits matter.
abbrev pub pushed : ℕ → ℕ → ℕ → ℕ
pushed buffer factor bits = buffer * factor % 0x100000000 + bits

encode_from_0 :
    (buffer b : ℕ) (bs : Bytes)
    → b < 256
    → (buffer' : ℕ) × (encode_from buffer 0 (b ∷ bs)
        ≡ alphabet_at (b / 4) ∷ encode_from buffer' 2 bs)
      × (buffer' % 4 ≡ b % 4)
unfolding encode_from
encode_from_0 buffer b bs h =
    (pushed buffer 256 b, ap₂ ◌∷◌ (ap alphabet_at (omega arith)) refl, omega arith)

encode_from_2 :
    (buffer b left : ℕ) (bs : Bytes)
    → b < 256
    → buffer % 4 ≡ left
    → (buffer' : ℕ) × (encode_from buffer 2 (b ∷ bs)
        ≡ alphabet_at (left * 16 + b / 16) ∷ encode_from buffer' 4 bs)
      × (buffer' % 16 ≡ b % 16)
unfolding encode_from
encode_from_2 buffer b left bs h e =
    (pushed buffer 256 b, ap₂ ◌∷◌ (ap alphabet_at (omega arith)) refl, omega arith)

encode_from_4 :
    (buffer b left : ℕ) (bs : Bytes)
    → b < 256
    → buffer % 16 ≡ left
    → (buffer' : ℕ) × (encode_from buffer 4 (b ∷ bs)
        ≡ alphabet_at (left * 4 + b / 64) ∷ alphabet_at (b % 64) ∷ encode_from buffer' 0 bs)
unfolding encode_from
encode_from_4 buffer b left bs h e = (
  pushed buffer 256 b,
  ap₂ ◌∷◌ (ap alphabet_at (omega arith)) (ap₂ ◌∷◌ (ap alphabet_at (omega arith)) refl),
)

encode_end_2 :
    (buffer left : ℕ) → buffer % 4 ≡ left → encode_from buffer 2 [] ≡ alphabet_at (left * 16) ∷ []
unfolding encode_from
encode_end_2 buffer left e = ap (λ (x : ℕ). alphabet_at x ∷ []) (omega arith)

encode_end_4 :
    (buffer left : ℕ) → buffer % 16 ≡ left → encode_from buffer 4 [] ≡ alphabet_at (left * 4) ∷ []
unfolding encode_from
encode_end_4 buffer left e = ap (λ (x : ℕ). alphabet_at x ∷ []) (omega arith)

encode_end_0 : (buffer : ℕ) → encode_from buffer 0 [] ≡ []
unfolding encode_from
encode_end_0 buffer = refl

pub encode_from-groups :
    (buffer : ℕ) (s : Bytes) → IsBytes s → encode_from buffer 0 s ≡ encode_groups s
unfolding encode_groups
encode_from-groups buffer [] h = encode_end_0 buffer
encode_from-groups buffer (a ∷ []) h =
    let (buffer1, e1, r1) = encode_from_0 buffer a [] h.0 in
    e1 ∙ ap (◌∷◌ (alphabet_at (a / 4))) (encode_end_2 buffer1 (a % 4) r1)
encode_from-groups buffer (a ∷ b ∷ []) h =
    let (buffer1, e1, r1) = encode_from_0 buffer a (b ∷ []) h.0 in
    let (buffer2, e2, r2) = encode_from_2 buffer1 b (a % 4) [] h.1.0 r1 in
    e1
    ∙ ap (◌∷◌ (alphabet_at (a / 4)))
        (e2 ∙ ap (◌∷◌ (alphabet_at (a % 4 * 16 + b / 16))) (encode_end_4 buffer2 (b % 16) r2))
encode_from-groups buffer (a ∷ b ∷ c ∷ rest) h =
    let (buffer1, e1, r1) = encode_from_0 buffer a (b ∷ c ∷ rest) h.0 in
    let (buffer2, e2, r2) = encode_from_2 buffer1 b (a % 4) (c ∷ rest) h.1.0 r1 in
    let (buffer3, e3) = encode_from_4 buffer2 c (b % 16) rest h.1.1.0 r2 in
    e1
    ∙ ap (◌∷◌ (alphabet_at (a / 4))) (
        e2
        ∙ ap (◌∷◌ (alphabet_at (a % 4 * 16 + b / 16))) (
            e3
            ∙ ap
                (λ (later : Bytes).
                  alphabet_at (b % 16 * 4 + c / 64) ∷ alphabet_at (c % 64) ∷ later)
                (encode_from-groups buffer3 rest h.1.1.1)))

-- The bit buffer of `EncodeBase64Url` computes base 64.
pub encode_lem : (s : Bytes) → IsBytes s → encode s ≡ encode_groups s
unfolding encode
encode_lem s h = encode_from-groups 0 s h
