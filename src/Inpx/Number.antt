-- ===== src/Inpx/Number.antt =====
-- libs/Inpx/InpxParser.cpp: `TryParseInteger`, for the two types that the parser uses it at.
use librova_inpx_web.Common.{
  ℕ, zero, suc, ◌+◌, ◌-◌, ◌*◌, ◌^◌, ◌<◌, ◌≡◌, Bool, ◌&&◌, ◌||◌, [], ◌∷◌, Option, none, some, arith,
  ltb, leb, ◌==◌, if◌then◌else◌, inl, inr, Bool-cases, Bytes, length,
}
use librova_inpx_web.Common.Int.{ℤ, pos, negsuc}
use librova_inpx_web.Inpx.Text.{is_nil}

-- `GMaxIntegerFieldBytes`.
abbrev max_integer_bytes : ℕ
max_integer_bytes = 32

-- `std::from_chars` of a decimal number: digits only, to the end of the text.
pub digits : ℕ → Bytes → Option ℕ
digits acc [] = some acc
digits acc (b ∷ bs) = if leb b'0' b && leb b b'9' then digits (acc * 10 + (b - b'0')) bs else none

pub some_digits : Bytes → Option ℕ
unfolding digits
some_digits text = if is_nil text then none else digits 0 text

-- A value that the type has no room for is `std::errc::result_out_of_range`.
pub below : ℕ → Option ℕ → Option ℕ
below limit none = none
below limit (some n) = if ltb n limit then some n else none

abbrev as_natural : Option ℕ → Option ℤ
as_natural none = none
as_natural (some n) = some (pos n)

abbrev as_negative : Option ℕ → Option ℤ
as_negative none = none
as_negative (some zero) = some (pos 0)
as_negative (some (suc n)) = some (negsuc n)

pub signed : Bytes → Option ℤ
unfolding some_digits below
signed [] = none
signed (b ∷ bs) =
    if b == b'-'
    then as_negative (below (2 ^ 31 + 1) (some_digits bs))
    else as_natural (below (2 ^ 31) (some_digits (b ∷ bs)))

abbrev pub has_no_integer_size : Bytes → Bool
has_no_integer_size text = is_nil text || ltb max_integer_bytes (length text)

-- `TryParseInteger<std::uint64_t>`.
unfoldable pub try_parse_unsigned : Bytes → Option ℕ
unfolding some_digits below
try_parse_unsigned text =
    if has_no_integer_size text then none else below (2 ^ 64) (some_digits text)

-- `TryParseInteger<int>`.
unfoldable pub try_parse_int : Bytes → Option ℤ
unfolding signed
try_parse_int text = if has_no_integer_size text then none else signed text

below_bound : (limit : ℕ) (o : Option ℕ) {n : ℕ} → below limit o ≡ some n → n < limit
unfolding below
below_bound limit none h = absurd (cc)
below_bound limit (some m) h = ground arith

pub try_parse_unsigned_bound :
    (text : Bytes) {n : ℕ} → try_parse_unsigned text ≡ some n → n < 2 ^ 64
unfolding try_parse_unsigned
try_parse_unsigned_bound text h = elim (Bool-cases (has_no_integer_size text)) [
  | inl e ↦ absurd (cc (rw e at h))
  | inr e ↦ below_bound (2 ^ 64) (some_digits text) (rw e at h)
]
