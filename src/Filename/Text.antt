-- ===== src/Filename/Text.antt =====
-- libs/Foundation/FilenamePolicy.cpp: a name as text in UTF-8.
use librova_inpx_web.Common.{
  ℕ, ◌≤◌, ◌<◌, ◌≡◌, refl, sym, subst, ap, ◌∙◌, inl, inr, true, false, ◌&&◌, List, [], ◌∷◌, ◌++◌,
  map, Option, ltb, ◌==◌, dec_lt, Bool-cases, arith, length, take, append-nil, All, Bytes,
}
use librova_inpx_web.Unicode.Utf8.{encode, encode_all, is_scalar}
use mathlib.Core.Path.{ap₂}
use librova_inpx_web.Unicode.Utf8.Sequence.{encode-one, encode-high}
use librova_inpx_web.Filename.Safe.{trim_spaces-All}
use librova_inpx_web.Unicode.Walk.{is_valid_utf8}
use librova_inpx_web.Unicode.Walk.Laws.{AreScalar, is_valid_utf8_iff}
use librova_inpx_web.Unicode.Trim.{try_trim}
use librova_inpx_web.Unicode.Trim.Laws.{try_trim_cut, try_trim_whole, take-IsCut, IsCut}
use librova_inpx_web.Filename.{
  is_unsafe, replace_unsafe, trim_spaces, shorten, sanitize, is_empty, value_or, or_fallback,
}

-- Text, as the code points that it encodes.
abbrev IsText : Bytes → Type 0
IsText s = (cs : List ℕ) × AreScalar cs × (s ≡ encode_all cs)

map-append_bytes : (f : ℕ → ℕ) (xs ys : Bytes) → map f (xs ++ ys) ≡ map f xs ++ map f ys
map-append_bytes f [] ys = refl
map-append_bytes f (x ∷ xs) ys = ap (◌∷◌ (f x)) (map-append_bytes f xs ys)

replace_unsafe_high : (b : ℕ) → 0x80 ≤ b → replace_unsafe b ≡ b
unfolding replace_unsafe
replace_unsafe_high b h = ground arith

replace_unsafe_low : (b : ℕ) → b < 0x80 → replace_unsafe b < 0x80
unfolding replace_unsafe
replace_unsafe_low b h = elim (Bool-cases (is_unsafe b)) [
  | inl e ↦ rw e (omega arith)
  | inr e ↦ rw e h
]

map-replace_unsafe_high : (s : Bytes) → All (λ b. 0x80 ≤ b) s → map replace_unsafe s ≡ s
map-replace_unsafe_high [] h = refl
map-replace_unsafe_high (b ∷ s) h = rw (replace_unsafe_high b h.0, map-replace_unsafe_high s h.1)

-- The unsafe characters are ASCII, so replacing bytes is replacing characters.
map-encode : (c : ℕ) → map replace_unsafe (encode c) ≡ encode (replace_unsafe c)
map-encode c = elim (dec_lt c 0x80) [
  | yes lt ↦
      ap (map replace_unsafe) (encode-one c lt)
      ∙ sym (encode-one (replace_unsafe c) (replace_unsafe_low c lt))
  | no ge ↦
      map-replace_unsafe_high (encode c) (encode-high c (omega arith))
      ∙ ap encode (sym (replace_unsafe_high c (omega arith)))
]

replace_unsafe-is_scalar : (c : ℕ) → is_scalar c ≡ true → is_scalar (replace_unsafe c) ≡ true
unfolding replace_unsafe
replace_unsafe-is_scalar c h = elim (Bool-cases (is_unsafe c)) [
  | inl e ↦ rw e refl
  | inr e ↦ rw e h
]

map-encode_all :
    (cs : List ℕ) → map replace_unsafe (encode_all cs) ≡ encode_all (map replace_unsafe cs)
map-encode_all [] = refl
map-encode_all (c ∷ cs) =
    map-append_bytes replace_unsafe (encode c) (encode_all cs)
    ∙ ap₂ ◌++◌ (map-encode c) (map-encode_all cs)

map-AreScalar : (cs : List ℕ) → AreScalar cs → AreScalar (map replace_unsafe cs)
map-AreScalar [] h = tt
map-AreScalar (c ∷ cs) h = (replace_unsafe-is_scalar c h.0, map-AreScalar cs h.1)

is_empty-encode : (c : ℕ) (s : Bytes) → is_empty (encode c ++ s) ≡ false
unfolding encode
is_empty-encode c s = ground arith

is_empty-encode_all : (cs : List ℕ) → is_empty (encode_all cs) ≡ is_empty cs
is_empty-encode_all [] = refl
is_empty-encode_all (c ∷ cs) = is_empty-encode c (encode_all cs)

trim_spaces_high :
    (xs s : Bytes) → All (λ b. 0x80 ≤ b) xs → trim_spaces (xs ++ s) ≡ xs ++ trim_spaces s
unfolding trim_spaces
trim_spaces_high [] s h = refl
trim_spaces_high (x ∷ xs) s h = ground (arith, trim_spaces_high xs s h.1)

trim_spaces-cons_low :
    (c : ℕ) (cs : List ℕ)
    → c < 0x80
    → trim_spaces (encode_all cs) ≡ encode_all (trim_spaces cs)
    → trim_spaces (c ∷ encode_all cs) ≡ encode_all (trim_spaces (c ∷ cs))
unfolding trim_spaces
trim_spaces-cons_low c cs lt ih =
    rw (ih, is_empty-encode_all (trim_spaces cs))
      (elim (Bool-cases (is_empty (trim_spaces cs) && c == b' ')) [
        | inl e ↦ rw e
        | inr e ↦
            rw e (ap (λ (x : Bytes). x ++ encode_all (trim_spaces cs)) (sym (encode-one c lt)))
      ])

trim_spaces-cons_high : (c : ℕ) (cs : List ℕ) → 0x80 ≤ c → trim_spaces (c ∷ cs) ≡ c ∷ trim_spaces cs
unfolding trim_spaces
trim_spaces-cons_high c cs ge = elim (Bool-cases (is_empty (trim_spaces cs) && c == b' ')) [
  | inl e ↦ absurd (ground arith)
  | inr e ↦ rw e
]

trim_spaces-encode_all : (cs : List ℕ) → trim_spaces (encode_all cs) ≡ encode_all (trim_spaces cs)
trim_spaces-encode_all [] = unfold trim_spaces in refl
trim_spaces-encode_all (c ∷ cs) = elim (dec_lt c 0x80) [
  | yes lt ↦
      ap (λ (x : Bytes). trim_spaces (x ++ encode_all cs)) (encode-one c lt)
      ∙ trim_spaces-cons_low c cs lt (trim_spaces-encode_all cs)
  | no ge ↦
      trim_spaces_high (encode c) (encode_all cs) (encode-high c (omega arith))
      ∙ ap (◌++◌ (encode c)) (trim_spaces-encode_all cs)
      ∙ ap encode_all (sym (trim_spaces-cons_high c cs (omega arith)))
]

trim_spaces-IsText : (s : Bytes) → IsText s → IsText (trim_spaces s)
trim_spaces-IsText s (cs, h, e) =
    (trim_spaces cs, trim_spaces-All _ cs h, ap trim_spaces e ∙ trim_spaces-encode_all cs)

map-IsText : (s : Bytes) → IsText s → IsText (map replace_unsafe s)
map-IsText s (cs, h, e) =
    (map replace_unsafe cs, map-AreScalar cs h, ap (map replace_unsafe) e ∙ map-encode_all cs)

-- Cutting to a limit keeps whole characters.
chosen-points : (s : Bytes) (cut : IsCut s) → value_or (try_trim s) s ≡ encode_all cut.points
chosen-points s cut = elim cut.partial [
  | inl none_left ↦
      let whole = cut.split ∙ ap (◌++◌ (encode_all cut.points)) none_left ∙ append-nil _ in
      ap₂ value_or (ap try_trim whole ∙ try_trim_whole cut.points cut.scalars) whole
  | inr partial ↦
      ap (λ (o : Option Bytes). value_or o s)
        (ap try_trim cut.split ∙ try_trim_cut cut.points cut.scalars partial)
]

shorten-IsText : (limit : ℕ) (s : Bytes) → IsText s → IsText (shorten limit s)
unfolding shorten
shorten-IsText limit s (cs, h, e) = elim (Bool-cases (ltb 0 limit && ltb limit (length s))) [
  | inl long ↦ rw long (
      let cut = subst (λ (x : Bytes). IsCut (take limit x)) (sym e) (take-IsCut limit cs h) in
      trim_spaces-IsText _ (cut.points, cut.scalars, chosen-points (take limit s) cut))
  | inr short ↦ rw short (cs, h, e)
]

or_fallback-IsText :
    (s fallback : Bytes) → IsText s → IsText fallback → IsText (or_fallback s fallback)
or_fallback-IsText [] fallback h f = f
or_fallback-IsText (b ∷ s) fallback h f = h

sanitize-IsText :
    (value : Bytes) (limit : ℕ) (fallback : Bytes)
    → IsText value
    → IsText fallback
    → IsText (sanitize value limit fallback)
unfolding sanitize
sanitize-IsText value limit fallback v f =
    elim (Bool-cases (is_empty (trim_spaces (map replace_unsafe value)))) [
      | inl e ↦ rw e f
      | inr e ↦ rw e (
          or_fallback-IsText _ fallback
            (shorten-IsText limit _ (trim_spaces-IsText _ (map-IsText value v))) f)
    ]

-- From a text, and a fallback that is text, the name is text: no character is cut in two.
pub sanitize-is_valid_utf8 :
    (value : Bytes) (limit : ℕ) (fallback : Bytes)
    → is_valid_utf8 value ≡ true
    → is_valid_utf8 fallback ≡ true
    → is_valid_utf8 (sanitize value limit fallback) ≡ true
sanitize-is_valid_utf8 value limit fallback v f = (is_valid_utf8_iff _).1 (
    sanitize-IsText value limit fallback ((is_valid_utf8_iff value).0 v)
      ((is_valid_utf8_iff fallback).0 f))
