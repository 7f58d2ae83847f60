-- ===== src/Unicode/Normalize/Laws.antt =====
-- libs/Foundation/UnicodeConversion.cpp: `TryNormalizeUtf8WhitespaceAndCaseFold`, against the
-- normalisation of code points.
use librova_inpx_web.Common.{
  ℕ, ◌≡◌, sym, ap, ◌∙◌, ◌↔◌, ◌⊎◌, inl, inr, true, false, List, [], none, some, arith, length,
  Option-cases, Bool-cases, Bool-absurd, some_inj, Bytes,
}
use librova_inpx_web.Unicode.Utf8.{encode_all}
use librova_inpx_web.Unicode.Walk.{walk, is_valid_utf8}
use librova_inpx_web.Unicode.Walk.Laws.{AreScalar, walk-encode_all, walk_sound, is_valid_utf8_iff}
use librova_inpx_web.Unicode.Normalize.{try_normalize, normalize_point, pop_space}
use librova_inpx_web.Unicode.Normalize.Points.{
  IsTidy, appended, normal_points, steps-appended, pop_space-encode_all, normal_points-IsTidy,
  normal_points_idem, normal_points_lem, pop_space-normal_points, normal_points-AreScalar,
}

-- On the encoding of scalar values, the normalised text is the encoding of their normal form.
pub try_normalize-encode_all :
    (cs : List ℕ)
    → AreScalar cs
    → try_normalize (encode_all cs) ≡ some (encode_all (normal_points cs))
unfolding try_normalize
try_normalize-encode_all cs h =
    rw
      (
        walk-encode_all normalize_point (length (encode_all cs)) ([], true) cs h (omega arith),
        try_normalize,
      )
      (ap some (
        ap pop_space (steps-appended cs [] true)
        ∙ pop_space-encode_all (appended true cs)
        ∙ ap encode_all (sym (normal_points_lem cs))))

is_valid_utf8-cases :
    (value : Bytes)
    → (is_valid_utf8 value ≡ false) ⊎ ((cs : List ℕ) × AreScalar cs × (value ≡ encode_all cs))
is_valid_utf8-cases value = elim (Bool-cases (is_valid_utf8 value)) [
  | inl e ↦ inr ((is_valid_utf8_iff value).0 e)
  | inr e ↦ inl e
]

try_normalize-none : (value : Bytes) → is_valid_utf8 value ≡ false → try_normalize value ≡ none
unfolding try_normalize
try_normalize-none value h =
    elim (Option-cases (walk normalize_point (length value) ([], true) value)) [
      | inl e ↦ rw (e, try_normalize)
      | inr (s, e) ↦
          let (cs, scalar, split, _) =
            walk_sound normalize_point (length value) ([], true) value e in
          Bool-absurd (is_valid_utf8 value) ((is_valid_utf8_iff value).1 (cs, scalar, split)) h
    ]

-- Text that is normalised at all encodes scalar values, and becomes the encoding of their normal
-- form.
pub try_normalize_sound :
    (value : Bytes) {w : Bytes}
    → try_normalize value ≡ some w
    → (cs : List ℕ) × AreScalar cs × (value ≡ encode_all cs) × (w ≡ encode_all (normal_points cs))
try_normalize_sound value h = elim (is_valid_utf8-cases value) [
  | inl e ↦ absurd (cc (try_normalize-none value e))
  | inr (cs, scalar, e) ↦
      (cs, scalar, e, some_inj (sym h ∙ ap try_normalize e ∙ try_normalize-encode_all cs scalar))
]

-- Normalising fails exactly on the strings that `IsValidUtf8` refuses.
pub try_normalize-none_iff :
    (value : Bytes) → (try_normalize value ≡ none) ↔ (is_valid_utf8 value ≡ false)
try_normalize-none_iff value = (
  (λ h. elim (is_valid_utf8-cases value) [
    | inl e ↦ e
    | inr (cs, scalar, e) ↦
        absurd (cc (sym h ∙ ap try_normalize e ∙ try_normalize-encode_all cs scalar))
  ]),
  try_normalize-none value,
)

-- Normalised text is normalised to itself.
pub try_normalize_idem :
    (value : Bytes) {w : Bytes} → try_normalize value ≡ some w → try_normalize w ≡ some w
try_normalize_idem value h =
    let (cs, scalar, _, e) = try_normalize_sound value h in
    rw e (
      try_normalize-encode_all (normal_points cs) (normal_points-AreScalar cs scalar)
      ∙ ap (λ (x : List ℕ). some (encode_all x)) (normal_points_idem cs scalar))

-- Normalised text encodes folded letters with single spaces between the words, and begins with none.
pub try_normalize-IsTidy :
    (value : Bytes) {w : Bytes}
    → try_normalize value ≡ some w
    → (cs : List ℕ) × (w ≡ encode_all cs) × IsTidy true cs × (pop_space cs ≡ cs)
try_normalize-IsTidy value h =
    let (cs, scalar, _, e) = try_normalize_sound value h in
    (normal_points cs, e, normal_points-IsTidy cs scalar, pop_space-normal_points cs scalar)
