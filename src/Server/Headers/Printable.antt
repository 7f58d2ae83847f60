-- ===== src/Server/Headers/Printable.antt =====
-- libs/Server/HttpServer.cpp: the header of a download holds no byte that ends it.
use librova_inpx_web.Common.{
  ℕ, ◌<◌, ◌≤◌, ◌≡◌, refl, Bool, true, false, ◌&&◌, [], ◌∷◌, ◌++◌, Bytes, IsBytes, codes, shr,
  low_bits, arith, all_below, all_below_sound, Bool-cases, inl, inr, All, All-append,
}
use librova_inpx_web.Inpx.Text.{is_nil}
use librova_inpx_web.Server.Headers.{
  within, is_filename_char, is_header_attr_char, digit, percent_encode, fallback_characters,
  ascii_filename_fallback, content_disposition,
}

-- A letter, a digit, a point, a dash or a low line; and a byte that can be printed.
abbrev pub IsName : ℕ → Type 0
IsName c = is_filename_char c ≡ true

abbrev pub IsPrintable : ℕ → Type 0
IsPrintable c = (0x20 ≤ c) × (c < 0x7F)

all_printable : Bytes → Bool
all_printable [] = true
all_printable (c ∷ cs) = within 0x20 0x7E c && all_printable cs

all_printable_sound : (cs : Bytes) → all_printable cs ≡ true → All IsPrintable cs
unfolding all_printable
all_printable_sound [] h = tt
all_printable_sound (c ∷ cs) h =
    ((ground arith, ground arith), all_printable_sound cs (ground arith))

digits-table : all_below 16 (λ m. within 0x20 0x7E (digit m)) ≡ true
unfolding all_below
digits-table = refl

digit-IsPrintable : (n : ℕ) → n < 16 → IsPrintable (digit n)
digit-IsPrintable n h =
    let t = all_below_sound 16 (λ m. within 0x20 0x7E (digit m)) n digits-table h in
    (ground arith, ground arith)

percent_encode-IsPrintable :
    (value : Bytes) → IsBytes value → All IsPrintable (percent_encode value)
unfolding percent_encode
percent_encode-IsPrintable [] h = tt
percent_encode-IsPrintable (c ∷ cs) h =
    let rest = percent_encode-IsPrintable cs h.1 in
    elim (Bool-cases (is_header_attr_char c)) [
      | inl t ↦ rw t ((ground arith, ground arith), rest)
      | inr t ↦ rw t (
        (omega arith, omega arith),
        (
          digit-IsPrintable (low_bits (shr c 4) 4) (omega arith),
          (digit-IsPrintable (low_bits c 4) (omega arith), rest),
        ),
      )
    ]

fallback-IsName : (value : Bytes) → All IsName (fallback_characters value)
unfolding fallback_characters
fallback-IsName [] = tt
fallback-IsName (c ∷ cs) = elim (Bool-cases (is_filename_char c)) [
  | inl t ↦ rw t (t, fallback-IsName cs)
  | inr t ↦ rw t (refl, fallback-IsName cs)
]

ascii_filename_fallback-IsName :
    (value : Bytes)
    → All IsName (ascii_filename_fallback value) × (is_nil (ascii_filename_fallback value) ≡ false)
unfolding ascii_filename_fallback
ascii_filename_fallback-IsName value = elim (Bool-cases (is_nil (fallback_characters value))) [
  | inl t ↦ rw t ((refl, (refl, (refl, (refl, tt)))), refl)
  | inr t ↦ rw t (fallback-IsName value, t)
]

names-IsPrintable : (cs : Bytes) → All IsName cs → All IsPrintable cs
names-IsPrintable [] h = tt
names-IsPrintable (c ∷ cs) (n, h) = ((ground arith, ground arith), names-IsPrintable cs h)

-- Whatever bytes a file name has, the header of its download has only bytes that can be printed, so
-- no line end, and the name in quotes is not empty and has only letters, digits, points, dashes and
-- low lines, so no quote.
pub content_disposition-IsPrintable :
    (name : Bytes)
    → IsBytes name
    → All IsPrintable (content_disposition name)
      × All IsName (ascii_filename_fallback name)
      × (is_nil (ascii_filename_fallback name) ≡ false)
unfolding content_disposition all_printable
content_disposition-IsPrintable name h =
    let (names, filled) = ascii_filename_fallback-IsName name in
    let before = all_printable_sound (codes "attachment; filename=") refl in
    let between = all_printable_sound (codes "; filename*=UTF-8''") refl in
    let last : Bytes = 34 ∷ (codes "; filename*=UTF-8''" ++ percent_encode name) in
    let last_printable : All IsPrintable last = (
      (omega arith, omega arith),
      All-append IsPrintable (codes "; filename*=UTF-8''") (percent_encode name) between
          (percent_encode-IsPrintable name h),
    ) in
    let quoted : Bytes = 34 ∷ (ascii_filename_fallback name ++ last) in
    let quoted_printable : All IsPrintable quoted = (
      (omega arith, omega arith),
      All-append IsPrintable (ascii_filename_fallback name) last
          (names-IsPrintable (ascii_filename_fallback name) names) last_printable,
    ) in
    (
      All-append IsPrintable (codes "attachment; filename=") quoted before quoted_printable,
      names,
      filled,
    )
