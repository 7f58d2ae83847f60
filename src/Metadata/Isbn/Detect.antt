-- ===== src/Metadata/Isbn/Detect.antt =====
-- libs/Domain/MetadataNormalization.cpp: a change of one character, and the checksum of ten.
use mathlib.Core.Option
use librova_inpx_web.Common.{
  ℕ, zero, suc, ◌+◌, ◌-◌, ◌*◌, ◌%◌, ◌≤◌, ◌≡◌, sym, subst, ap, ◌∙◌, inl, inr, true, [], ◌∷◌, ◌++◌,
  Option, none, some, Option-cases, arith, length, Bytes, length-append,
}
use librova_inpx_web.Metadata.Isbn.{isbn10_digit, isbn10_sum, is_valid_isbn10}
use librova_inpx_web.Metadata.Isbn.Checks.{isbn10_sum-start}

-- The weights are prime to 11.
prime_to_11 :
    (w s x y k : ℕ)
    → 1 ≤ w
    → w ≤ 10
    → x ≤ 10
    → y ≤ 10
    → (s + x * w + k) % 11 ≡ 0
    → (s + y * w + k) % 11 ≡ 0
    → x ≡ y
prime_to_11 zero s x y k h1 h2 hx hy p q = absurd (omega arith)
prime_to_11 (suc zero) s x y k h1 h2 hx hy p q = omega arith
prime_to_11 (suc (suc zero)) s x y k h1 h2 hx hy p q = omega arith
prime_to_11 (suc (suc (suc zero))) s x y k h1 h2 hx hy p q = omega arith
prime_to_11 (suc (suc (suc (suc zero)))) s x y k h1 h2 hx hy p q = omega arith
prime_to_11 (suc (suc (suc (suc (suc zero))))) s x y k h1 h2 hx hy p q = omega arith
prime_to_11 (suc (suc (suc (suc (suc (suc zero)))))) s x y k h1 h2 hx hy p q = omega arith
prime_to_11 (suc (suc (suc (suc (suc (suc (suc zero))))))) s x y k h1 h2 hx hy p q = omega arith
prime_to_11 (suc (suc (suc (suc (suc (suc (suc (suc zero)))))))) s x y k h1 h2 hx hy p q =
    omega arith
prime_to_11 (suc (suc (suc (suc (suc (suc (suc (suc (suc zero))))))))) s x y k h1 h2 hx hy p q =
    omega arith
prime_to_11 (suc (suc (suc (suc (suc (suc (suc (suc (suc (suc zero)))))))))) s x y k h1 h2 hx hy p
      q =
    omega arith
prime_to_11 (suc (suc (suc (suc (suc (suc (suc (suc (suc (suc (suc w))))))))))) s x y k h1 h2 hx hy
      p q =
    absurd (omega arith)

isbn10_digit_le : (i c : ℕ) {d : ℕ} → isbn10_digit i c ≡ some d → d ≤ 10
unfolding isbn10_digit
isbn10_digit_le i c h = ground arith

isbn10_digit_inj :
    (i a b : ℕ) {d : ℕ} → isbn10_digit i a ≡ some d → isbn10_digit i b ≡ some d → a ≡ b
unfolding isbn10_digit
isbn10_digit_inj i a b p q = ground arith

-- What the loop returns is a multiple of 11.
abbrev Checks : Option ℕ → Type 0
Checks none = ⊥
Checks (some x) = x % 11 ≡ 0

isbn10_sum-cons :
    (i s c : ℕ) (cs : Bytes) {d : ℕ}
    → isbn10_digit i c ≡ some d
    → isbn10_sum i s (c ∷ cs) ≡ isbn10_sum (i + 1) (s + d * (10 - i)) cs
unfolding isbn10_sum
isbn10_sum-cons i s c cs e = rw (e, isbn10_sum)

Checks-digit :
    (i s c : ℕ) (cs : Bytes)
    → Checks (isbn10_sum i s (c ∷ cs))
    → (d : ℕ) × (isbn10_digit i c ≡ some d)
unfolding isbn10_sum
Checks-digit i s c cs h = elim (Option-cases (isbn10_digit i c)) [
  | inl e ↦ absurd (rw (e, isbn10_sum) at h)
  | inr r ↦ r
]

same_here :
    (i s x y : ℕ) (o : Option ℕ)
    → i ≤ 9
    → x ≤ 10
    → y ≤ 10
    → Checks (Option.map (λ k. s + x * (10 - i) + k) o)
    → Checks (Option.map (λ k. s + y * (10 - i) + k) o)
    → x ≡ y
same_here i s x y none h hx hy p q = absurd p
same_here i s x y (some k) h hx hy p q =
    prime_to_11 (10 - i) s x y k (omega arith) (omega arith) hx hy p q

detects_from :
    (i s : ℕ) (before after : Bytes) (a b : ℕ)
    → i + length before ≤ 9
    → Checks (isbn10_sum i s (before ++ (a ∷ after)))
    → Checks (isbn10_sum i s (before ++ (b ∷ after)))
    → a ≡ b
detects_from i s [] after a b h p q =
    let (x, ex) = Checks-digit i s a after p in
    let (y, ey) = Checks-digit i s b after q in
    let same =
      same_here i s x y (isbn10_sum (i + 1) 0 after) (omega arith) (isbn10_digit_le i a ex)
        (isbn10_digit_le i b ey)
        (subst Checks (isbn10_sum-cons i s a after ex ∙ isbn10_sum-start after (i + 1) _) p)
        (subst Checks (isbn10_sum-cons i s b after ey ∙ isbn10_sum-start after (i + 1) _) q) in
    isbn10_digit_inj i a b ex (ey ∙ ap some (sym same))
detects_from i s (c ∷ before) after a b h p q =
    let (x, ex) = Checks-digit i s c _ p in
    detects_from (i + 1) (s + x * (10 - i)) before after a b (omega arith)
      (subst Checks (isbn10_sum-cons i s c _ ex) p) (subst Checks (isbn10_sum-cons i s c _ ex) q)

is_valid_isbn10-Checks :
    (v : Bytes) → is_valid_isbn10 v ≡ true → (length v ≡ 10) × Checks (isbn10_sum 0 0 v)
unfolding is_valid_isbn10
is_valid_isbn10-Checks v h = elim (Option-cases (isbn10_sum 0 0 v)) [
  | inl e ↦ absurd (ground arith)
  | inr (x, e) ↦ (ground arith, rw e (ground arith))
]

-- Two valid ten-character numbers that agree but for one position agree there too.
pub is_valid_isbn10-detects :
    (before after : Bytes) (a b : ℕ)
    → is_valid_isbn10 (before ++ (a ∷ after)) ≡ true
    → is_valid_isbn10 (before ++ (b ∷ after)) ≡ true
    → a ≡ b
is_valid_isbn10-detects before after a b p q =
    let (len, x) = is_valid_isbn10-Checks _ p in
    let (_, y) = is_valid_isbn10-Checks _ q in
    detects_from 0 0 before after a b (omega (arith, length-append before (a ∷ after))) x y
