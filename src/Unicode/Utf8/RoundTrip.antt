-- ===== src/Unicode/Utf8/RoundTrip.antt =====
-- libs/Foundation/UnicodeConversion.cpp: reading back what was written, and writing back what was
-- read.
use librova_inpx_web.Common.{ℕ, ◌≡◌, true, ◌++◌, some, length, take, Bytes}
use librova_inpx_web.Unicode.Utf8.{try_decode, encode, is_scalar}
use librova_inpx_web.Unicode.Utf8.Sequence.{
  IsSequence-encode, encode-IsSequence, try_decode-IsSequence, IsSequence-try_decode,
}

-- Reading at the start of a written scalar value gives it back, with the length of its sequence.
pub try_decode-encode :
    (c : ℕ) (rest : Bytes)
    → is_scalar c ≡ true
    → try_decode (encode c ++ rest) ≡ some (c, length (encode c))
try_decode-encode c rest h = try_decode-IsSequence rest (encode-IsSequence c h)

-- Whatever is read is a scalar value, and the string begins with what is written for it.
pub encode-try_decode :
    (s : Bytes) {c n : ℕ}
    → try_decode s ≡ some (c, n)
    → (is_scalar c ≡ true) × (encode c ≡ take n s)
encode-try_decode s h = IsSequence-encode (IsSequence-try_decode s h)
