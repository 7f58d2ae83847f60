-- ===== src/Unicode/CaseFold/Stable.antt =====
-- libs/Foundation/UnicodeConversion.cpp: the results of `CaseFoldCodePoint`, folded again.
use librova_inpx_web.Common.{
  ℕ, ◌≤◌, ◌<◌, ◌≡◌, refl, ◌∙◌, ◌⊎◌, inl, inr, Bool, true, false, not, ◌&&◌, ◌||◌, [], ◌∷◌, arith,
  ◌==◌, ltb, leb-false, dec_lt, all_below, all_below_sound, All,
}
use librova_inpx_web.Unicode.Utf8.{is_scalar, within}
use librova_inpx_web.Unicode.CaseFold.{
  is_even_upper, is_odd_upper, fold_singles, fold_ranges, case_fold, folded_points, is_whitespace,
}

-- A code point that normalisation leaves alone.
abbrev pub IsFolded : ℕ → Type 0
IsFolded c =
    (is_whitespace c ≡ false) × (case_fold c ≡ c) × ((c == 0xDF) ≡ false) × (is_scalar c ≡ true)

folds_well : ℕ → Bool
unfolding case_fold is_whitespace
folds_well c =
    let d = case_fold c in
    is_whitespace c || (d == 0xDF || (not (is_whitespace d) && (case_fold d == d && ltb d 0xD800)))

table : all_below 0x530 folds_well ≡ true
unfolding folds_well all_below
table = refl

within_above : (lo hi c : ℕ) → hi < c → within lo hi c ≡ false
within_above lo hi c h = ground arith

is_even_upper_high : (c : ℕ) → 0x530 ≤ c → is_even_upper c ≡ false
unfolding is_even_upper
is_even_upper_high c h = rw (
  within_above 0x0100 0x012E c (omega arith),
  within_above 0x0132 0x0136 c (omega arith),
  within_above 0x014A 0x0176 c (omega arith),
  within_above 0x01DE 0x01EE c (omega arith),
  within_above 0x01F8 0x021E c (omega arith),
  within_above 0x0222 0x0232 c (omega arith),
  within_above 0x0460 0x04FE c (omega arith),
  within_above 0x0500 0x052E c (omega arith),
)

is_odd_upper_high : (c : ℕ) → 0x530 ≤ c → is_odd_upper c ≡ false
unfolding is_odd_upper
is_odd_upper_high c h = ground arith

fold_ranges_high : (c : ℕ) → 0x530 ≤ c → fold_ranges c ≡ c
unfolding fold_ranges
fold_ranges_high c h = ground arith

fold_singles_high : (c : ℕ) → 0x530 ≤ c → (fold_singles c ≡ c) ⊎ (fold_singles c ≡ 0xDF)
unfolding fold_singles
fold_singles_high c h = ground (arith, fold_ranges_high c h)

case_fold_high : (c : ℕ) → 0x530 ≤ c → case_fold c ≡ fold_singles c
unfolding case_fold
case_fold_high c h = rw (
  leb-false c 0x7F (omega arith),
  within_above 0x00C0 0x00D6 c (omega arith),
  within_above 0x00D8 0x00DE c (omega arith),
  is_even_upper_high c h,
  is_odd_upper_high c h,
)

IsFolded-of_tests :
    (d : ℕ)
    → ((d == 0xDF) || (not (is_whitespace d) && (case_fold d == d && ltb d 0xD800))) ≡ true
    → (d ≡ 0xDF) ⊎ IsFolded d
IsFolded-of_tests d h = ground arith

case_fold_low :
    (c : ℕ)
    → folds_well c ≡ true
    → is_whitespace c ≡ false
    → (case_fold c ≡ 0xDF) ⊎ IsFolded (case_fold c)
unfolding folds_well
case_fold_low c h ws = IsFolded-of_tests (case_fold c) (rw ws at h)

-- A folded letter is folded already, unless it is the one that is written "ss".
pub case_fold-IsFolded :
    (c : ℕ)
    → is_scalar c ≡ true
    → is_whitespace c ≡ false
    → (case_fold c ≡ 0xDF) ⊎ IsFolded (case_fold c)
case_fold-IsFolded c sc ws = elim (dec_lt c 0x530) [
  | yes p ↦ case_fold_low c (all_below_sound 0x530 folds_well c table p) ws
  | no p ↦ elim (fold_singles_high c (omega arith)) [
    | inr e ↦ inl (case_fold_high c (omega arith) ∙ e)
    | inl e ↦
        let fixed = case_fold_high c (omega arith) ∙ e in
        inr (rw fixed (ws, fixed, ground arith, sc))
  ]
]

IsFolded-ss : All IsFolded (b's' ∷ b's' ∷ [])
unfolding case_fold is_whitespace
IsFolded-ss = ((refl, refl, refl, refl), ((refl, refl, refl, refl), tt))

-- What is appended for a code point that is no whitespace is folded.
pub folded_points-IsFolded :
    (c : ℕ) → is_scalar c ≡ true → is_whitespace c ≡ false → All IsFolded (folded_points c)
unfolding folded_points
folded_points-IsFolded c sc ws = elim (case_fold-IsFolded c sc ws) [
  | inl e ↦ rw e IsFolded-ss
  | inr f ↦ rw (f.2) (f, tt)
]

pub folded_points-fixed : (c : ℕ) → IsFolded c → folded_points c ≡ c ∷ []
unfolding folded_points
folded_points-fixed c f = rw (f.1, f.2)
