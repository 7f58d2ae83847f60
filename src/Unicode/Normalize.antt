-- ===== src/Unicode/Normalize.antt =====
-- libs/Foundation/UnicodeConversion.cpp: `TryNormalizeUtf8WhitespaceAndCaseFold`, the text under
-- which titles, authors and queries are compared.
pub mod Points
pub mod Laws
use librova_inpx_web.Common.{
  ℕ, Bool, true, false, List, [], ◌∷◌, ◌++◌, Option, none, some, ◌==◌, length, if◌then◌else◌, Bytes,
}
use librova_inpx_web.Unicode.Utf8.{encode_all}
use librova_inpx_web.Unicode.Walk.{walk}
use librova_inpx_web.Unicode.CaseFold.{is_whitespace, folded_points}

-- The variables of the loop: `normalized` and `previousWasWhitespace`.
abbrev pub Normalizing : Type 0
Normalizing = Bytes × Bool

-- The body of the loop, on the code point that was read.
pub normalize_point : Normalizing → ℕ → Normalizing
normalize_point (normalized, previous) c =
    if is_whitespace c
    then (if previous then normalized else normalized ++ b' ' ∷ [], true)
    else (normalized ++ encode_all (folded_points c), false)

-- `if (!normalized.empty() && normalized.back() == ' ') normalized.pop_back()`.
pub pop_space : List ℕ → List ℕ
pop_space [] = []
pop_space (c ∷ []) = if c == b' ' then [] else c ∷ []
pop_space (c ∷ d ∷ cs) = c ∷ pop_space (d ∷ cs)

finish : Normalizing → Bytes
finish (normalized, _) = pop_space normalized

unfoldable pub try_normalize : Bytes → Option Bytes
unfolding normalize_point pop_space finish
try_normalize value = elim (walk normalize_point (length value) ([], true) value) [
  | none ↦ none
  | some s ↦ some (finish s)
]
