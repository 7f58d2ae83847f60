-- ===== src/Inpx/Text/Trimmed.antt =====
-- libs/Inpx/InpxParser.cpp: what `TrimAsciiWhitespace` and the splits leave.
use librova_inpx_web.Common.{
  ℕ, ◌≤◌, ◌≡◌, refl, Bool, true, false, ◌&&◌, List, [], ◌∷◌, arith, leb, ◌⊎◌, inl, inr, Bool-cases,
  Bytes, All, length, length-take,
}
use librova_inpx_web.Inpx.Text.{
  is_nil, trim_start, trim_end, trim_ascii, split_views, trim_parts, split_non_empty,
}
use librova_inpx_web.Inpx.Text.Find.{trim_ascii_lem}
use librova_inpx_web.Inpx.Text.Splitting.{fields, capped, split_views_lem}

abbrev pub IsFilled {ℓ} : {A : Type ℓ} → List A → Type 0
IsFilled xs = is_nil xs ≡ false

-- The first byte is no white space.
unfoldable Starts : Bytes → Type 0
Starts [] = true ≡ false
Starts (b ∷ bs) = leb b 0x20 ≡ false

trim_start-Starts : (s : Bytes) → (trim_start s ≡ []) ⊎ Starts (trim_start s)
unfolding trim_start Starts
trim_start-Starts [] = inl refl
trim_start-Starts (b ∷ bs) = elim (Bool-cases (leb b 0x20)) [
  | inl e ↦ rw e (trim_start-Starts bs)
  | inr e ↦ rw e (inr e)
]

trim_end-Starts : (s : Bytes) → Starts s → Starts (trim_end s)
unfolding trim_end Starts
trim_end-Starts [] h = absurd (cc)
trim_end-Starts (b ∷ bs) h = rw (h, and_false (is_nil (trim_end bs))) h
  where
    and_false : (x : Bool) → (x && false) ≡ false
    and_false true = refl
    and_false false = refl

Starts-IsFilled : (s : Bytes) → Starts s → IsFilled s
unfolding Starts
Starts-IsFilled [] h = absurd (cc)
Starts-IsFilled (b ∷ bs) h = refl

Starts-trim_start : (s : Bytes) → Starts s → trim_start s ≡ s
unfolding trim_start Starts
Starts-trim_start [] h = refl
Starts-trim_start (b ∷ bs) h = rw h

trim_ascii-Starts : (s : Bytes) → IsFilled (trim_ascii s) → Starts (trim_ascii s)
unfolding trim_end
trim_ascii-Starts s h = elim (trim_start-Starts s) [
  | inl e ↦ absurd (cc (rw (trim_ascii_lem s, e) at h))
  | inr e ↦ rw (trim_ascii_lem s) (trim_end-Starts (trim_start s) e)
]

-- Text that was trimmed to something is trimmed to something again.
pub trim_ascii_again : (s : Bytes) → IsFilled (trim_ascii s) → IsFilled (trim_ascii (trim_ascii s))
trim_ascii_again s h =
    let t = trim_ascii-Starts s h in
    rw (trim_ascii_lem (trim_ascii s), Starts-trim_start (trim_ascii s) t)
      (Starts-IsFilled (trim_end (trim_ascii s)) (trim_end-Starts (trim_ascii s) t))

-- The parts are no more than there may be.
pub length-split_views :
    (value : Bytes) (separator n : ℕ) → length (split_views value separator n).parts ≤ n
unfolding capped
length-split_views value separator n =
    rw (split_views_lem value separator n) (omega (arith, length-take n (fields separator value)))

pub trim_parts_lem :
    (ps : List Bytes) → All IsFilled (trim_parts ps) × (length (trim_parts ps) ≤ length ps)
unfolding trim_parts
trim_parts_lem [] = (tt, omega arith)
trim_parts_lem (p ∷ ps) =
    let (filled, le) = trim_parts_lem ps in
    elim (Bool-cases (is_nil (trim_ascii p))) [
      | inl e ↦ rw e (filled, omega arith)
      | inr e ↦ rw e ((e, filled), omega arith)
    ]

pub split_non_empty_lem :
    (value : Bytes) (separator n : ℕ)
    → (let s = split_non_empty value separator n in All IsFilled s.parts × (length s.parts ≤ n))
unfolding split_non_empty
split_non_empty_lem value separator n = elim (Bool-cases (split_views value separator n).exceeded) [
  | inl e ↦ rw e (tt, omega arith)
  | inr e ↦
      let (filled, le) = trim_parts_lem (split_views value separator n).parts in
      rw e (filled, omega (arith, length-split_views value separator n))
]
