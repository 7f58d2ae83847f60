-- ===== src/Unicode/Walk/Laws.antt =====
-- libs/Foundation/UnicodeConversion.cpp: the loop over code points, against the encoded strings of
-- scalar values.
use librova_inpx_web.Common.{
  ℕ, zero, suc, ◌≤◌, ◌<◌, ◌≡◌, ◌≢◌, refl, sym, ap, ◌∙◌, ◌↔◌, inl, inr, true, List, [], ◌∷◌, ◌++◌,
  some, arith, length, length-append, drop, drop-append, take-append-drop, All, Option-cases, Bytes,
}
use mathlib.Core.Path.{ap₂}
use librova_inpx_web.Unicode.Utf8.{try_decode, encode, encode_all, is_scalar}
use librova_inpx_web.Unicode.Utf8.RoundTrip.{try_decode-encode, encode-try_decode}
use librova_inpx_web.Unicode.Walk.{walk, steps, nothing_kept, is_valid_utf8}

abbrev pub AreScalar : List ℕ → Type 0
AreScalar = All (λ c. is_scalar c ≡ true)

pub encode-pos : (c : ℕ) → 0 < length (encode c)
unfolding encode
encode-pos c = ground arith

pub try_decode-nil : {r : ℕ × ℕ} → try_decode [] ≢ some r
unfolding try_decode
try_decode-nil e = cc

module _ {ℓ} {S : Type ℓ} (step : S → ℕ → S) where
  walk-some :
      (fuel : ℕ) (s : S) (value : Bytes) {c n : ℕ}
      → try_decode value ≡ some (c, n)
      → walk step (suc fuel) s value ≡ walk step fuel (step s c) (drop n value)
  unfolding walk
  walk-some fuel s [] e = absurd (try_decode-nil e)
  walk-some fuel s (b ∷ bs) e = rw (e, walk)

  walk-encode :
      (fuel : ℕ) (s : S) (c : ℕ) (rest : Bytes)
      → is_scalar c ≡ true
      → walk step (suc fuel) s (encode c ++ rest) ≡ walk step fuel (step s c) rest
  walk-encode fuel s c rest h =
      walk-some fuel s (encode c ++ rest) (try_decode-encode c rest h)
      ∙ ap (walk step fuel (step s c)) (drop-append (encode c) rest)

  pub walk-encode_all :
      (fuel : ℕ) (s : S) (cs : List ℕ)
      → AreScalar cs
      → length (encode_all cs) ≤ fuel
      → walk step fuel s (encode_all cs) ≡ some (steps step s cs)
  unfolding walk
  walk-encode_all fuel s [] h le = refl
  walk-encode_all zero s (c ∷ cs) h le =
      absurd (omega (arith, length-append (encode c) (encode_all cs), encode-pos c))
  walk-encode_all (suc fuel) s (c ∷ cs) h le =
      walk-encode fuel s c (encode_all cs) h.0
      ∙ walk-encode_all fuel (step s c) cs h.1
          (omega (arith, length-append (encode c) (encode_all cs), encode-pos c))

  pub walk_sound :
      (fuel : ℕ) (s : S) (value : Bytes) {r : S}
      → walk step fuel s value ≡ some r
      → (cs : List ℕ) × AreScalar cs × (value ≡ encode_all cs) × (r ≡ steps step s cs)
  unfolding walk
  walk_sound fuel s [] h = ([], tt, refl, ground arith)
  walk_sound zero s (b ∷ bs) h = absurd (cc)
  walk_sound (suc fuel) s (b ∷ bs) h = elim (Option-cases (try_decode (b ∷ bs))) [
    | inl e ↦ absurd (cc (rw (e, walk) at h))
    | inr ((c, n), e) ↦
        let (cs, all, split, last) =
          walk_sound fuel (step s c) (drop n (b ∷ bs)) (rw (e, walk) at h) in
        let (scalar, bytes) = encode-try_decode (b ∷ bs) e in
        (
          c ∷ cs,
          (scalar, all),
          sym (take-append-drop n (b ∷ bs)) ∙ ap₂ ◌++◌ (sym bytes) split,
          last,
        )
  ]

-- `IsValidUtf8` accepts exactly the encoded strings of scalar values.
pub is_valid_utf8_iff :
    (value : Bytes)
    → (is_valid_utf8 value ≡ true) ↔ ((cs : List ℕ) × AreScalar cs × (value ≡ encode_all cs))
unfolding is_valid_utf8
is_valid_utf8_iff value = (valid, encoded)
  where
    valid : is_valid_utf8 value ≡ true → (cs : List ℕ) × AreScalar cs × (value ≡ encode_all cs)
    valid h = elim (Option-cases (walk nothing_kept (length value) tt value)) [
      | inl e ↦ absurd (cc (rw e at h))
      | inr (r, e) ↦
          let (cs, all, split, _) = walk_sound nothing_kept (length value) tt value e in
          (cs, all, split)
    ]

    encoded : ((cs : List ℕ) × AreScalar cs × (value ≡ encode_all cs)) → is_valid_utf8 value ≡ true
    encoded (cs, all, split) =
        rw (split, walk-encode_all nothing_kept (length (encode_all cs)) tt cs all (omega arith))
