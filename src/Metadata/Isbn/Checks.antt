-- ===== src/Metadata/Isbn/Checks.antt =====
-- libs/Domain/MetadataNormalization.cpp: what `NormalizeIsbn` returns, against the checksums.
use librova_inpx_web.Common.{
  ℕ, ◌+◌, ◌-◌, ◌*◌, ◌<◌, ◌≡◌, refl, sym, ap, ◌∙◌, ◌⊎◌, inl, inr, true, ◌||◌, [], ◌∷◌, Option, none,
  some, Option-cases, Bool-cases, arith, length, Bytes, All, ◌==◌,
}
use mathlib.Core.Option
use librova_inpx_web.Unicode.Walk.{is_valid_utf8}
use librova_inpx_web.Unicode.Ascii.{is_valid_utf8_ascii}
use librova_inpx_web.Metadata.Isbn.{
  is_digit, isbn10_digit, isbn10_sum, is_valid_isbn10, is_valid_isbn13, kept_characters,
  checked_isbn, normalize_isbn,
}

-- The checksum of a number of ten or of thirteen characters.
abbrev pub IsIsbn : Bytes → Type 0
IsIsbn w =
    ((length w ≡ 10) × (is_valid_isbn10 w ≡ true)) ⊎ ((length w ≡ 13) × (is_valid_isbn13 w ≡ true))

checked_isbn-IsIsbn : (s : Bytes) {w : Bytes} → checked_isbn s ≡ some w → (w ≡ s) × IsIsbn s
unfolding checked_isbn
checked_isbn-IsIsbn s h = ground arith

checked_isbn_valid : (s : Bytes) → IsIsbn s → checked_isbn s ≡ some s
unfolding checked_isbn
checked_isbn_valid s h = ground arith

normalize_isbn-split :
    (value : Bytes) {w : Bytes}
    → normalize_isbn (some value) ≡ some w
    → (w ≡ kept_characters value) × IsIsbn (kept_characters value)
unfolding normalize_isbn
normalize_isbn-split value h = elim (Bool-cases (is_valid_utf8 value)) [
  | inl e ↦ checked_isbn-IsIsbn (kept_characters value) (rw e at h)
  | inr e ↦ absurd (cc (rw e at h))
]

-- The characters of an ISBN.
abbrev IsKept : ℕ → Type 0
IsKept c = (is_digit c ≡ true) ⊎ (c ≡ b'X')

kept_characters-IsKept : (s : Bytes) → All IsKept (kept_characters s)
unfolding kept_characters
kept_characters-IsKept [] = tt
kept_characters-IsKept (b ∷ s) = elim (Bool-cases (is_digit b)) [
  | inl e ↦ rw e (inl e, kept_characters-IsKept s)
  | inr e ↦ elim (Bool-cases (b == b'x' || b == b'X')) [
    | inl f ↦ rw (e, f) (inr refl, kept_characters-IsKept s)
    | inr f ↦ rw (e, f) (kept_characters-IsKept s)
  ]
]

kept_characters_fixed : (s : Bytes) → All IsKept s → kept_characters s ≡ s
unfolding kept_characters
kept_characters_fixed [] h = refl
kept_characters_fixed (c ∷ s) (inl e, h) = rw (e, kept_characters_fixed s h)
kept_characters_fixed (c ∷ s) (inr e, h) = rw (e, kept_characters_fixed s h)

IsKept-ascii : (s : Bytes) → All IsKept s → All (λ b. b < 0x80) s
IsKept-ascii [] h = tt
IsKept-ascii (c ∷ s) (k, h) = (ground arith, IsKept-ascii s h)

-- A normalised ISBN has ten or thirteen characters and passes the checksum of that length, and
-- normalising it again changes nothing.
pub normalize_isbn-IsIsbn :
    (value : Bytes) {w : Bytes}
    → normalize_isbn (some value) ≡ some w
    → IsIsbn w × (normalize_isbn (some w) ≡ some w)
unfolding normalize_isbn
normalize_isbn-IsIsbn value h =
    let (e, valid) = normalize_isbn-split value h in
    let kept = kept_characters-IsKept value in
    rw e (
      valid,
      rw
          (
            is_valid_utf8_ascii (kept_characters value) (IsKept-ascii (kept_characters value) kept),
            kept_characters_fixed (kept_characters value) kept,
          )
          (checked_isbn_valid (kept_characters value) valid),
    )

pub isbn10_sum-start :
    (cs : Bytes) (index sum : ℕ)
    → isbn10_sum index sum cs ≡ Option.map (λ k. sum + k) (isbn10_sum index 0 cs)
unfolding isbn10_sum
isbn10_sum-start [] index sum = ap some (omega arith)
isbn10_sum-start (c ∷ cs) index sum = elim (Option-cases (isbn10_digit index c)) [
  | inl e ↦ rw (e, isbn10_sum)
  | inr (d, e) ↦
      rw (e, isbn10_sum)
        (isbn10_sum-start cs (index + 1) (sum + d * (10 - index))
          ∙ shifted (isbn10_sum (index + 1) 0 cs) (d * (10 - index))
          ∙ ap (Option.map (λ k. sum + k))
              (sym (isbn10_sum-start cs (index + 1) (0 + d * (10 - index)))))
]
  where
    shifted :
        (o : Option ℕ) (x : ℕ)
        → Option.map (λ k. sum + x + k) o
          ≡ Option.map (λ k. sum + k) (Option.map (λ k. 0 + x + k) o)
    shifted none x = refl
    shifted (some k) x = ap some (omega arith)
