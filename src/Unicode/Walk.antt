-- ===== src/Unicode/Walk.antt =====
-- libs/Foundation/UnicodeConversion.cpp: the loop over the code points of a string that
-- `IsValidUtf8`, `TryNormalizeUtf8WhitespaceAndCaseFold` and `ScoreLegacyCyrillicDecode` share,
--   for (index = 0; index < value.size();) { if (!TryDecode...) return failure; ...; index += length; }
-- with the variables of each loop as its state. A string of n bytes takes n rounds at most.
pub mod Laws
use librova_inpx_web.Common.{
  ℕ, zero, suc, ◌+◌, Bool, true, false, List, [], ◌∷◌, Option, none, some, length, drop, Bytes,
}
use librova_inpx_web.Unicode.Utf8.{try_decode}

module _ {ℓ} {S : Type ℓ} (step : S → ℕ → S) where
  unfoldable pub walk : ℕ → S → Bytes → Option S
  walk fuel s [] = some s
  walk zero s (b ∷ bs) = none
  walk (suc fuel) s (b ∷ bs) = elim (try_decode (b ∷ bs)) [
    | none ↦ none
    | some (c, n) ↦ walk fuel (step s c) (drop n (b ∷ bs))
  ]

  -- The state behind a loop over these code points.
  abbrev pub steps : S → List ℕ → S
  steps s [] = s
  steps s (c ∷ cs) = steps (step s c) cs

abbrev nothing_kept : Unit {0} → ℕ → Unit {0}
nothing_kept s c = tt

abbrev pub is_some {ℓ} : {A : Type ℓ} → Option A → Bool
is_some none = false
is_some (some a) = true

-- `IsValidUtf8`.
unfoldable pub is_valid_utf8 : Bytes → Bool
is_valid_utf8 value = is_some (walk nothing_kept (length value) tt value)
