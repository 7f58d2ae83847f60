-- ===== src/Unicode/Trim.antt =====
-- libs/Foundation/UnicodeConversion.cpp: `TryTrimTrailingIncompleteUtf8` and its helpers.
pub mod Laws
use mathlib.Core.Option
use librova_inpx_web.Common.{
  ℕ, zero, suc, ◌+◌, Bool, true, false, not, ◌&&◌, ◌||◌, List, [], ◌∷◌, Option, none, some, ltb,
  leb, ◌==◌, length, take, drop, if◌then◌else◌, Bytes,
}
use librova_inpx_web.Unicode.Utf8.{within, try_decode}

-- `ExpectedUtf8SequenceLength`.
expected_length : ℕ → Option ℕ
expected_length first =
    if ltb first 0x80
    then some 1
    else if within 0xC2 0xDF first
    then some 2
    else if within 0xE0 0xEF first
    then some 3
    else if within 0xF0 0xF4 first
    then some 4
    else none

-- `IsUtf8ContinuationByte`.
abbrev is_continuation : ℕ → Bool
is_continuation = within 0x80 0xBF

-- `CanBeSecondUtf8Byte`.
can_be_second : ℕ → ℕ → Bool
can_be_second first second =
    if first == 0xE0
    then within 0xA0 0xBF second
    else if first == 0xED
    then within 0x80 0x9F second
    else if first == 0xF0
    then within 0x90 0xBF second
    else if first == 0xF4
    then within 0x80 0x8F second
    else is_continuation second

-- The loop over the offsets from 2 on.
are_continuations : Bytes → Bool
are_continuations [] = true
are_continuations (b ∷ bs) = is_continuation b && are_continuations bs

-- `IsTrailingIncompleteUtf8Sequence`, on the rest of the string from `startIndex`.
is_trailing_incomplete : Bytes → ℕ → Bool
unfolding can_be_second are_continuations
is_trailing_incomplete [] expected = false
is_trailing_incomplete (first ∷ []) expected = not (leb expected 1)
is_trailing_incomplete (first ∷ second ∷ rest) expected =
    if leb expected (length (first ∷ second ∷ rest))
    then false
    else if not (can_be_second first second)
    then false
    else are_continuations rest

-- The loop: the index at which the string is cut, if it is.
trim_loop : ℕ → ℕ → Bytes → Option ℕ
unfolding expected_length is_trailing_incomplete
trim_loop fuel index [] = none
trim_loop zero index (b ∷ bs) = none
trim_loop (suc fuel) index (b ∷ bs) = elim (expected_length b) [
  | none ↦ none
  | some expected ↦ elim (is_trailing_incomplete (b ∷ bs) expected) [
    | true ↦ some index
    | false ↦ elim (try_decode (b ∷ bs)) [
      | none ↦ none
      | some (c, n) ↦ trim_loop fuel (index + n) (drop n (b ∷ bs))
    ]
  ]
]

-- `TryTrimTrailingIncompleteUtf8`; the loop takes a round for each byte at most.
pub try_trim : Bytes → Option Bytes
unfolding trim_loop
try_trim value = Option.map (λ i. take i value) (trim_loop (length value) 0 value)
