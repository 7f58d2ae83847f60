-- ===== src/Unicode/Utf8/Sequence.antt =====
-- libs/Foundation/UnicodeConversion.cpp: the well-formed sequences of the Unicode standard, table
-- 3-7, which the code does not name, for a comparison with both directions of the codec.
use librova_inpx_web.Common.{
  ℕ, ◌+◌, ◌-◌, ◌*◌, ◌≤◌, ◌<◌, ◌≡◌, true, [], ◌∷◌, ◌++◌, Option, some, inl, inr, sym, subst, arith,
  dec_lt, leb-false, ltb→lt, shr, le→leb, length, take, All, ltb, ◌==◌, Bool-cases, Bytes,
}
use librova_inpx_web.Unicode.Utf8.{
  try_decode, two_bytes, three_bytes, four_bytes, decode_two, decode_three, decode_four, encode,
  is_scalar,
}

pub data IsSequence (c : ℕ) : Bytes → Type 0 where
  one : c < 0x80 → IsSequence c (c ∷ [])
  two :
      (a b : ℕ)
      → 0xC2 ≤ a
      → a ≤ 0xDF
      → 0x80 ≤ b
      → b ≤ 0xBF
      → c ≡ (a - 0xC0) * 0x40 + (b - 0x80)
      → IsSequence c (a ∷ b ∷ [])
  three :
      (a b d : ℕ)
      → 0xE0 ≤ a
      → a ≤ 0xEF
      → 0x80 ≤ b
      → b ≤ 0xBF
      → 0x80 ≤ d
      → d ≤ 0xBF
      → (a ≡ 0xE0 → 0xA0 ≤ b)
      → (a ≡ 0xED → b ≤ 0x9F)
      → c ≡ (a - 0xE0) * 0x1000 + (b - 0x80) * 0x40 + (d - 0x80)
      → IsSequence c (a ∷ b ∷ d ∷ [])
  four :
      (a b d e : ℕ)
      → 0xF0 ≤ a
      → a ≤ 0xF4
      → 0x80 ≤ b
      → b ≤ 0xBF
      → 0x80 ≤ d
      → d ≤ 0xBF
      → 0x80 ≤ e
      → e ≤ 0xBF
      → (a ≡ 0xF0 → 0x90 ≤ b)
      → (a ≡ 0xF4 → b ≤ 0x8F)
      → c ≡ (a - 0xF0) * 0x40000 + (b - 0x80) * 0x1000 + (d - 0x80) * 0x40 + (e - 0x80)
      → IsSequence c (a ∷ b ∷ d ∷ e ∷ [])

pub encode-one : (c : ℕ) → c < 0x80 → encode c ≡ c ∷ []
unfolding encode
encode-one c h = ground arith

encode-two : (c : ℕ) → 0x80 ≤ c → c ≤ 0x7FF → IsSequence c (encode c)
unfolding encode
encode-two c lo hi =
    rw (leb-false c 0x7F (omega arith), le→leb c 0x7FF hi)
      (two _ _ (omega arith) (omega arith) (omega arith) (omega arith) (omega arith))

encode-three : (c : ℕ) → 0x800 ≤ c → c ≤ 0xFFFF → is_scalar c ≡ true → IsSequence c (encode c)
unfolding encode
encode-three c lo hi h =
    rw (leb-false c 0x7F (omega arith), leb-false c 0x7FF (omega arith), le→leb c 0xFFFF hi)
      (three _ _ _ (omega arith) (omega arith) (omega arith) (omega arith) (omega arith)
        (omega arith) (λ e. omega arith) (λ e. ground arith) (omega arith))

encode-four : (c : ℕ) → 0x10000 ≤ c → c ≤ 0x10FFFF → IsSequence c (encode c)
unfolding encode
encode-four c lo hi =
    rw
      (
        leb-false c 0x7F (omega arith),
        leb-false c 0x7FF (omega arith),
        leb-false c 0xFFFF (omega arith),
      )
      (four _ _ _ _ (omega arith) (omega arith) (omega arith) (omega arith) (omega arith)
        (omega arith) (omega arith) (omega arith) (λ e. omega arith) (λ e. omega arith)
        (omega arith))

-- What is written for a scalar value is the sequence of that value.
pub encode-IsSequence : (c : ℕ) → is_scalar c ≡ true → IsSequence c (encode c)
encode-IsSequence c h = elim (dec_lt c 0x80) [
  | yes p ↦ subst (IsSequence c) (sym (encode-one c p)) (one p)
  | no p ↦ elim (dec_lt c 0x800) [
    | yes q ↦ encode-two c (omega arith) (omega arith)
    | no q ↦ elim (dec_lt c 0x10000) [
      | yes r ↦ encode-three c (omega arith) (omega arith) h
      | no r ↦ encode-four c (omega arith) (ground arith)
    ]
  ]
]

-- A sequence of the table is that of one scalar value, and is what is written for it.
pub IsSequence-encode : {c : ℕ} {s : Bytes} → IsSequence c s → (is_scalar c ≡ true) × (encode c ≡ s)
unfolding encode
IsSequence-encode (one h) = ground arith
IsSequence-encode (two a b h1 h2 h3 h4 e) = ground arith
IsSequence-encode (three a b d h1 h2 h3 h4 h5 h6 h7 h8 e) = ground arith
IsSequence-encode (four a b d f h1 h2 h3 h4 h5 h6 h7 h8 h9 h10 e) = ground arith

pub try_decode-IsSequence :
    {c : ℕ} {s : Bytes} (rest : Bytes)
    → IsSequence c s
    → try_decode (s ++ rest) ≡ some (c, length s)
unfolding try_decode
try_decode-IsSequence rest (one h) = ground arith
try_decode-IsSequence rest (two a b h1 h2 h3 h4 e) = ground arith
try_decode-IsSequence rest (three a b d h1 h2 h3 h4 h5 h6 h7 h8 e) = ground arith
try_decode-IsSequence rest (four a b d f h1 h2 h3 h4 h5 h6 h7 h8 h9 h10 e) = ground arith

decode_two-bounds :
    (a b : ℕ) {c n : ℕ}
    → decode_two a b ≡ some (c, n)
    → (n ≡ 2)
      × (0xC2 ≤ a)
      × (a ≤ 0xDF)
      × (0x80 ≤ b)
      × (b ≤ 0xBF)
      × (c ≡ (a - 0xC0) * 0x40 + (b - 0x80))
unfolding try_decode
decode_two-bounds a b h = ground arith

decode_three-bounds :
    (a b d : ℕ) {c n : ℕ}
    → decode_three a b d ≡ some (c, n)
    → (n ≡ 3)
      × (0xE0 ≤ a)
      × (a ≤ 0xEF)
      × (0x80 ≤ b)
      × (b ≤ 0xBF)
      × (0x80 ≤ d)
      × (d ≤ 0xBF)
      × (a ≡ 0xE0 → 0xA0 ≤ b)
      × (a ≡ 0xED → b ≤ 0x9F)
      × (c ≡ (a - 0xE0) * 0x1000 + (b - 0x80) * 0x40 + (d - 0x80))
unfolding try_decode
decode_three-bounds a b d h = ground arith

decode_four-bounds :
    (a b d e : ℕ) {c n : ℕ}
    → decode_four a b d e ≡ some (c, n)
    → (n ≡ 4)
      × (0xF0 ≤ a)
      × (a ≤ 0xF4)
      × (0x80 ≤ b)
      × (b ≤ 0xBF)
      × (0x80 ≤ d)
      × (d ≤ 0xBF)
      × (0x80 ≤ e)
      × (e ≤ 0xBF)
      × (a ≡ 0xF0 → 0x90 ≤ b)
      × (a ≡ 0xF4 → b ≤ 0x8F)
      × (c ≡ (a - 0xF0) * 0x40000 + (b - 0x80) * 0x1000 + (d - 0x80) * 0x40 + (e - 0x80))
unfolding try_decode
decode_four-bounds a b d e h = ground arith

two_bytes-IsSequence :
    (a : ℕ) (s : Bytes) {c n : ℕ} → two_bytes a s ≡ some (c, n) → IsSequence c (take n (a ∷ s))
unfolding two_bytes
two_bytes-IsSequence a [] h = absurd (cc)
two_bytes-IsSequence a (b ∷ s) h =
    let r = decode_two-bounds a b h in rw (r.0) (two a b r.1 r.2 r.3 r.4 r.5)

three_bytes-IsSequence :
    (a : ℕ) (s : Bytes) {c n : ℕ} → three_bytes a s ≡ some (c, n) → IsSequence c (take n (a ∷ s))
unfolding three_bytes
three_bytes-IsSequence a [] h = absurd (cc)
three_bytes-IsSequence a (b ∷ []) h = absurd (cc)
three_bytes-IsSequence a (b ∷ d ∷ s) h =
    let r = decode_three-bounds a b d h in
    rw (r.0) (three a b d r.1 r.2 r.3 r.4 r.5 r.6 r.7 r.8 r.9)

four_bytes-IsSequence :
    (a : ℕ) (s : Bytes) {c n : ℕ} → four_bytes a s ≡ some (c, n) → IsSequence c (take n (a ∷ s))
unfolding four_bytes
four_bytes-IsSequence a [] h = absurd (cc)
four_bytes-IsSequence a (b ∷ []) h = absurd (cc)
four_bytes-IsSequence a (b ∷ d ∷ []) h = absurd (cc)
four_bytes-IsSequence a (b ∷ d ∷ e ∷ s) h =
    let r = decode_four-bounds a b d e h in
    rw (r.0) (four a b d e r.1 r.2 r.3 r.4 r.5 r.6 r.7 r.8 r.9 r.10 r.11)

one_byte-IsSequence :
    (a : ℕ) (s : Bytes) {c n : ℕ}
    → a < 0x80
    → ◌≡◌ {A = Option (ℕ × ℕ)} (some (a, 1)) (some (c, n))
    → IsSequence c (take n (a ∷ s))
one_byte-IsSequence a s {c} {n} lt h =
    let e : (c ≡ a) × (n ≡ 1) = ground arith in rw (e.0, e.1) (one lt)

-- Whatever is read at the start of a string is a sequence of the table, of the length that is
-- reported.
pub IsSequence-try_decode :
    (s : Bytes) {c n : ℕ} → try_decode s ≡ some (c, n) → IsSequence c (take n s)
unfolding try_decode
IsSequence-try_decode [] h = absurd (cc)
IsSequence-try_decode (a ∷ s) h = elim (Bool-cases (ltb a 0x80)) [
  | inl p ↦ one_byte-IsSequence a s (ltb→lt a 0x80 p) (rw p at h)
  | inr p ↦ elim (Bool-cases (shr a 5 == 0x06)) [
    | inl q ↦ two_bytes-IsSequence a s (rw (p, q) at h)
    | inr q ↦ elim (Bool-cases (shr a 4 == 0x0E)) [
      | inl r ↦ three_bytes-IsSequence a s (rw (p, q, r) at h)
      | inr r ↦ elim (Bool-cases (shr a 3 == 0x1E)) [
        | inl t ↦ four_bytes-IsSequence a s (rw (p, q, r, t) at h)
        | inr t ↦ absurd (cc (rw (p, q, r, t) at h))
      ]
    ]
  ]
]

-- The bytes of a code point beyond ASCII are all beyond ASCII.
pub encode-high : (c : ℕ) → 0x80 ≤ c → All (λ b. 0x80 ≤ b) (encode c)
unfolding encode
encode-high c h = ground arith
