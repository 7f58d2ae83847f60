-- ===== src/Metadata/Isbn.antt =====
-- libs/Domain/MetadataNormalization.cpp: `NormalizeIsbn` and the two checksums.
pub mod Checks
pub mod Detect
use librova_inpx_web.Common.{
  ℕ, zero, suc, ◌+◌, ◌-◌, ◌*◌, ◌%◌, Bool, true, false, not, ◌&&◌, ◌||◌, List, [], ◌∷◌, ◌++◌, Option,
  none, some, ◌==◌, length, get_or, take, if◌then◌else◌, Bytes,
}
use librova_inpx_web.Unicode.Utf8.{within}
use librova_inpx_web.Unicode.Walk.{is_valid_utf8}

-- `std::isdigit`, in the "C" locale.
abbrev pub is_digit : ℕ → Bool
is_digit = within b'0' b'9'

-- The digit at an index, if the character there is allowed: 'X' is one at the last index alone.
pub isbn10_digit : ℕ → ℕ → Option ℕ
isbn10_digit index c =
    if index == 9 && c == b'X' then some 10 else if is_digit c then some (c - b'0') else none

-- The loop of `IsValidIsbn10Checksum` from `index` on; `none` is its `return false`.
pub isbn10_sum : ℕ → ℕ → Bytes → Option ℕ
unfolding isbn10_digit
isbn10_sum index sum [] = some sum
isbn10_sum index sum (c ∷ cs) = elim (isbn10_digit index c) [
  | none ↦ none
  | some digit ↦ isbn10_sum (index + 1) (sum + digit * (10 - index)) cs
]

is_zero_mod_11 : Option ℕ → Bool
is_zero_mod_11 none = false
is_zero_mod_11 (some sum) = (sum % 11) == 0

-- `IsValidIsbn10Checksum`.
unfoldable pub is_valid_isbn10 : Bytes → Bool
unfolding isbn10_sum is_zero_mod_11
is_valid_isbn10 value = if length value == 10 then is_zero_mod_11 (isbn10_sum 0 0 value) else false

all_digits : Bytes → Bool
all_digits [] = true
all_digits (c ∷ cs) = is_digit c && all_digits cs

-- The loop of `IsValidIsbn13Checksum` over the first twelve digits.
isbn13_sum : ℕ → ℕ → Bytes → ℕ
isbn13_sum index sum [] = sum
isbn13_sum index sum (c ∷ cs) =
    isbn13_sum (index + 1) (sum + (c - b'0') * (if (index % 2) == 0 then 1 else 3)) cs

-- `IsValidIsbn13Checksum`.
unfoldable pub is_valid_isbn13 : Bytes → Bool
unfolding all_digits isbn13_sum
is_valid_isbn13 value =
    if not (length value == 13) || not (all_digits value)
    then false
    else ((10 - isbn13_sum 0 0 (take 12 value) % 10) % 10) == get_or value 12 0 - b'0'

-- The loop over the bytes: digits are kept, and 'x' becomes 'X'.
pub kept_characters : Bytes → Bytes
kept_characters [] = []
kept_characters (b ∷ bs) =
    (if is_digit b then b ∷ [] else if b == b'x' || b == b'X' then b'X' ∷ [] else [])
    ++ kept_characters bs

-- The tests on the length.
pub checked_isbn : Bytes → Option Bytes
checked_isbn normalized =
    if length normalized == 10
    then (if is_valid_isbn10 normalized then some normalized else none)
    else if length normalized == 13
    then (if is_valid_isbn13 normalized then some normalized else none)
    else none

-- `NormalizeIsbn`.
unfoldable pub normalize_isbn : Option Bytes → Option Bytes
unfolding kept_characters checked_isbn
normalize_isbn none = none
normalize_isbn (some value) =
    if is_valid_utf8 value then checked_isbn (kept_characters value) else none
