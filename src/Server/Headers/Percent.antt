-- ===== src/Server/Headers/Percent.antt =====
-- libs/Server/HttpServer.cpp: what is encoded with percent signs is decoded again.
use librova_inpx_web.Common.{
  ℕ, ◌<◌, ◌≡◌, ◌≢◌, refl, ap, sym, ◌∙◌, Bool, true, false, [], ◌∷◌, Option, none, some, ok, ok_inj,
  ◌==◌, Bytes, IsBytes, shr, low_bits, arith, all_below, all_below_sound, Bool-cases, inl, inr,
}
use librova_inpx_web.Server.Headers.{
  is_header_attr_char, digit, percent_encode, hex_value, decode_segment,
}

decode_segment-plain :
    (c : ℕ) (cs : Bytes) {decoded : Bytes}
    → c ≢ b'%'
    → decode_segment cs ≡ ok decoded
    → decode_segment (c ∷ cs) ≡ ok (c ∷ decoded)
unfolding decode_segment
decode_segment-plain c [] p e = elim (Bool-cases (c == b'%')) [
  | inl t ↦ absurd (p (ground arith))
  | inr t ↦ rw t (ap (λ bytes. ok (c ∷ bytes)) (ok_inj e))
]
decode_segment-plain c (d ∷ []) p e = elim (Bool-cases (c == b'%')) [
  | inl t ↦ absurd (p (ground arith))
  | inr t ↦ rw (t, e) refl
]
decode_segment-plain c (d ∷ f ∷ cs) p e = elim (Bool-cases (c == b'%')) [
  | inl t ↦ absurd (p (ground arith))
  | inr t ↦ rw (t, e) refl
]

is_digit_of : ℕ → Option ℕ → Bool
is_digit_of n none = false
is_digit_of n (some m) = m == n

is_digit_of_sound : (n : ℕ) (found : Option ℕ) → is_digit_of n found ≡ true → found ≡ some n
unfolding is_digit_of
is_digit_of_sound n none h = absurd (cc)
is_digit_of_sound n (some m) h = ap some (ground arith)

digit_table : all_below 16 (λ n. is_digit_of n (hex_value (digit n))) ≡ true
unfolding all_below is_digit_of
digit_table = refl

hex_value-digit : (n : ℕ) → n < 16 → hex_value (digit n) ≡ some n
hex_value-digit n h =
    is_digit_of_sound n (hex_value (digit n))
      (all_below_sound 16 (λ m. is_digit_of m (hex_value (digit m))) n digit_table h)

decode_segment-encoded :
    (c : ℕ) (cs : Bytes) {decoded : Bytes}
    → c < 256
    → decode_segment cs ≡ ok decoded
    → decode_segment (b'%' ∷ digit (low_bits (shr c 4) 4) ∷ digit (low_bits c 4) ∷ cs)
      ≡ ok (c ∷ decoded)
unfolding decode_segment
decode_segment-encoded c cs {decoded} small e =
    rw
      (
        hex_value-digit (low_bits (shr c 4) 4) (omega arith),
        hex_value-digit (low_bits c 4) (omega arith),
        e,
      )
      (ap (λ b. ok (b ∷ decoded)) (omega arith))

attr_is_plain : (c : ℕ) → is_header_attr_char c ≡ true → c ≢ b'%'
attr_is_plain c h e = absurd (cc (ap is_header_attr_char (sym e) ∙ h))

-- What `PercentEncodeHeaderValue` writes for any bytes, `DecodeStaticPathSegment` reads as them.
pub decode_segment-percent_encode :
    (value : Bytes) → IsBytes value → decode_segment (percent_encode value) ≡ ok value
unfolding percent_encode decode_segment
decode_segment-percent_encode [] h = refl
decode_segment-percent_encode (c ∷ cs) h =
    let rest = decode_segment-percent_encode cs h.1 in
    elim (Bool-cases (is_header_attr_char c)) [
      | inl t ↦ rw t (decode_segment-plain c (percent_encode cs) (attr_is_plain c t) rest)
      | inr t ↦ rw t (decode_segment-encoded c (percent_encode cs) h.0 rest)
    ]
