-- ===== src/Unicode/CaseFold.antt =====
-- libs/Foundation/UnicodeConversion.cpp: `IsUnicodeWhitespace`, `CaseFoldCodePoint`,
-- `AppendCaseFoldedCodePoint`.
pub mod Stable
use librova_inpx_web.Common.{
  ℕ, ◌+◌, ◌%◌, Bool, true, false, ◌&&◌, ◌||◌, List, [], ◌∷◌, leb, ◌==◌, if◌then◌else◌,
}
use librova_inpx_web.Unicode.Utf8.{within, encode_all}

-- The labels of a `switch`.
abbrev is_any_of : List ℕ → ℕ → Bool
is_any_of [] c = false
is_any_of (x ∷ xs) c = c == x || is_any_of xs c

unfoldable pub is_whitespace : ℕ → Bool
is_whitespace c =
    is_any_of
      (0x0009 ∷ 0x000A ∷ 0x000B ∷ 0x000C ∷ 0x000D ∷ 0x0020 ∷ 0x0085 ∷ 0x00A0 ∷ 0x1680 ∷ 0x2028
        ∷ 0x2029 ∷ 0x202F ∷ 0x205F ∷ 0x3000 ∷ [])
      c
    || within 0x2000 0x200A c

-- `std::tolower` on an ASCII character, in the "C" locale.
abbrev to_lower : ℕ → ℕ
to_lower c = if within b'A' b'Z' c then c + 32 else c

abbrev is_even_in : ℕ → ℕ → ℕ → Bool
is_even_in lo hi c = within lo hi c && (c % 2) == 0

abbrev is_odd_in : ℕ → ℕ → ℕ → Bool
is_odd_in lo hi c = within lo hi c && (c % 2) == 1

-- The two conditions whose code points are followed by their small letters.
is_even_upper : ℕ → Bool
is_even_upper c =
    is_even_in 0x0100 0x012E c
    || is_even_in 0x0132 0x0136 c
    || is_even_in 0x014A 0x0176 c
    || is_even_in 0x01DE 0x01EE c
    || is_even_in 0x01F8 0x021E c
    || is_even_in 0x0222 0x0232 c
    || is_even_in 0x0460 0x04FE c
    || is_even_in 0x0500 0x052E c

is_odd_upper : ℕ → Bool
is_odd_upper c = is_odd_in 0x0139 0x0148 c || is_odd_in 0x0179 0x017E c

-- The `switch` inside the range U+0400 to U+040F.
fold_cyrillic_extension : ℕ → ℕ
fold_cyrillic_extension c =
    if c == 0x0400
    then 0x0450
    else if c == 0x0402
    then 0x0452
    else if c == 0x0403
    then 0x0453
    else if c == 0x0404
    then 0x0454
    else if c == 0x0405
    then 0x0455
    else if c == 0x0406
    then 0x0456
    else if c == 0x0407
    then 0x0457
    else if c == 0x0408
    then 0x0458
    else if c == 0x0409
    then 0x0459
    else if c == 0x040A
    then 0x045A
    else if c == 0x040B
    then 0x045B
    else if c == 0x040C
    then 0x045C
    else if c == 0x040D
    then 0x045D
    else if c == 0x040E
    then 0x045E
    else if c == 0x040F
    then 0x045F
    else c

-- The three ranges behind the first `switch`, and the nested one.
fold_ranges : ℕ → ℕ
fold_ranges c =
    if within 0x0391 0x03A1 c
    then c + 0x20
    else if within 0x03A3 0x03AB c
    then c + 0x20
    else if within 0x0410 0x042F c
    then c + 0x20
    else if within 0x0400 0x040F c
    then fold_cyrillic_extension c
    else c

-- The first `switch`.
fold_singles : ℕ → ℕ
fold_singles c =
    if c == 0x0130
    then b'i'
    else if c == 0x0178
    then 0x00FF
    else if c == 0x01F1 || c == 0x01F2
    then 0x01F3
    else if c == 0x0386
    then 0x03AC
    else if c == 0x0388
    then 0x03AD
    else if c == 0x0389
    then 0x03AE
    else if c == 0x038A
    then 0x03AF
    else if c == 0x038C
    then 0x03CC
    else if c == 0x038E
    then 0x03CD
    else if c == 0x038F
    then 0x03CE
    else if c == 0x03C2
    then 0x03C3
    else if c == 0x0401 || c == 0x0451
    then 0x0435
    else if c == 0x1E9E
    then 0x00DF
    else fold_ranges c

unfoldable pub case_fold : ℕ → ℕ
unfolding is_even_upper is_odd_upper fold_singles fold_ranges fold_cyrillic_extension
case_fold c =
    if leb c 0x7F
    then to_lower c
    else if within 0x00C0 0x00D6 c
    then c + 0x20
    else if within 0x00D8 0x00DE c
    then c + 0x20
    else if is_even_upper c
    then c + 1
    else if is_odd_upper c
    then c + 1
    else fold_singles c

-- The code points that `AppendCaseFoldedCodePoint` appends: U+00DF becomes "ss".
unfoldable pub folded_points : ℕ → List ℕ
unfolding case_fold
folded_points c =
    let folded = case_fold c in if folded == 0x00DF then b's' ∷ b's' ∷ [] else folded ∷ []
