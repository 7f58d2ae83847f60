-- ===== src/Unicode/Legacy/Valid.antt =====
-- libs/Foundation/UnicodeConversion.cpp: the legacy decoders and the validity of what they give.
use librova_inpx_web.Common.{
  ℕ, ◌≡◌, refl, sym, ap, subst, Bool, true, false, not, ◌&&◌, [], ◌∷◌, map, Option, none, some,
  Outcome, ok, throw, ok_inj, ◌⊎◌, inl, inr, Bytes, IsBytes, all_below, all_below_sound,
  if◌then◌else◌, bytes_eq,
}
use librova_inpx_web.Unicode.Utf8.{encode_all, is_scalar}
use librova_inpx_web.Unicode.Walk.{is_valid_utf8}
use librova_inpx_web.Unicode.Walk.Laws.{AreScalar, is_valid_utf8_iff}
use librova_inpx_web.Unicode.Legacy.{
  Encoding, Converter, windows1251_point, windows1251_lossy, choose_decoding, DecodeError, or_else,
  code_page_1251, code_page_866, or_lossy, decode_legacy, or_throw, utf16, windows1251, cp1251,
  cp866, ibm866, score_legacy, same_score, higher_score,
}

points_are_scalar : all_below 256 (λ b. is_scalar (windows1251_point b)) ≡ true
unfolding windows1251_point all_below
points_are_scalar = refl

lossy-points : (s : Bytes) → windows1251_lossy s ≡ encode_all (map windows1251_point s)
unfolding windows1251_lossy
lossy-points [] = refl
lossy-points (b ∷ s) = rw (lossy-points s)

points-AreScalar : (s : Bytes) → IsBytes s → AreScalar (map windows1251_point s)
points-AreScalar [] h = tt
points-AreScalar (b ∷ s) h = (
  all_below_sound 256 (λ b. is_scalar (windows1251_point b)) b points_are_scalar h.0,
  points-AreScalar s h.1,
)

-- Any bytes at all, read as Windows-1251 without iconv, give text in UTF-8.
pub windows1251_lossy-is_valid_utf8 :
    (s : Bytes) → IsBytes s → is_valid_utf8 (windows1251_lossy s) ≡ true
windows1251_lossy-is_valid_utf8 s h =
    (is_valid_utf8_iff (windows1251_lossy s)).1
      (map windows1251_point s, points-AreScalar s h, lossy-points s)

-- What the code relies on in iconv: a conversion to UTF-8 gives UTF-8.
abbrev pub ConvertsToUtf8 : Converter → Type 0
ConvertsToUtf8 iconv =
    (e : Encoding) (value text : Bytes)
    → iconv.convert e value ≡ some text
    → is_valid_utf8 text ≡ true

or_else-cases :
    (o p : Option Bytes) {text : Bytes}
    → or_else o p ≡ some text
    → (o ≡ some text) ⊎ (p ≡ some text)
or_else-cases none p h = inr h
or_else-cases (some a) p h = inl h

choose_decoding-cases :
    (text1251 : Bytes) (o : Option Bytes) {text : Bytes}
    → choose_decoding text1251 o ≡ ok text
    → (text ≡ text1251) ⊎ (o ≡ some text)
unfolding choose_decoding
choose_decoding-cases text1251 none h = inl (sym (ok_inj h))
choose_decoding-cases text1251 (some text866) {text} h =
    behind_test
      (same_score (score_legacy text866) (score_legacy text1251) && not (bytes_eq text866 text1251))
      (higher_score (score_legacy text866) (score_legacy text1251)) h
  where
    behind_test :
        (a b : Bool)
        → ◌≡◌ {A = Outcome DecodeError Bytes}
            (if a then throw DecodeError.ambiguous else ok (if b then text866 else text1251))
            (ok text)
        → (text ≡ text1251) ⊎ (◌≡◌ {A = Option Bytes} (some text866) (some text))
    behind_test true b h = absurd (cc)
    behind_test false true h = inr (ap some (ok_inj h))
    behind_test false false h = inl (sym (ok_inj h))

module _ (iconv : Converter) (converts : ConvertsToUtf8 iconv) where
  or_lossy-valid :
      (value : Bytes) (o : Option Bytes)
      → IsBytes value
      → ((text : Bytes) → o ≡ some text → is_valid_utf8 text ≡ true)
      → is_valid_utf8 (or_lossy iconv value o) ≡ true
  or_lossy-valid value none b h = windows1251_lossy-is_valid_utf8 value b
  or_lossy-valid value (some text) b h = h text refl

  code_page_1251-valid :
      (value text : Bytes) → code_page_1251 iconv value ≡ some text → is_valid_utf8 text ≡ true
  unfolding code_page_1251
  code_page_1251-valid value text h =
      elim (or_else-cases (iconv.convert windows1251 value) (iconv.convert cp1251 value) h) [
        | inl e ↦ converts windows1251 value text e
        | inr e ↦ converts cp1251 value text e
      ]

  code_page_866-valid :
      (value text : Bytes) → code_page_866 iconv value ≡ some text → is_valid_utf8 text ≡ true
  unfolding code_page_866
  code_page_866-valid value text h =
      elim (or_else-cases (iconv.convert cp866 value) (iconv.convert ibm866 value) h) [
        | inl e ↦ converts cp866 value text e
        | inr e ↦ converts ibm866 value text e
      ]

  pub decode_legacy-is_valid_utf8 :
      (value : Bytes) {text : Bytes}
      → IsBytes value
      → decode_legacy iconv value ≡ ok text
      → is_valid_utf8 text ≡ true
  unfolding decode_legacy
  decode_legacy-is_valid_utf8 value {text} b h =
      elim (choose_decoding-cases (or_lossy iconv value (code_page_1251 iconv value))
        (code_page_866 iconv value) h) [
          | inl e ↦
              subst (λ t. is_valid_utf8 t ≡ true) (sym e)
                (or_lossy-valid value (code_page_1251 iconv value) b (code_page_1251-valid value))
          | inr e ↦ code_page_866-valid value text e
        ]

  or_throw-valid :
      (e : Encoding) (value : Bytes) {text : Bytes}
      → or_throw iconv (iconv.convert e value) ≡ ok text
      → is_valid_utf8 text ≡ true
  or_throw-valid e value {text} h = converts e value text (some_of (iconv.convert e value) h)
    where
      some_of : (o : Option Bytes) → or_throw iconv o ≡ ok text → o ≡ some text
      some_of none h = absurd (cc)
      some_of (some t) h = ap some (ok_inj h)

  pub utf16-is_valid_utf8 :
      (e : Encoding) (m n : ℕ) (value : Bytes) {text : Bytes}
      → utf16 iconv e m n value ≡ ok text
      → is_valid_utf8 text ≡ true
  unfolding utf16
  utf16-is_valid_utf8 e m n value h = behind_guard _ _ h
    where
      behind_guard :
          (t : Bool) (rest : Bytes) {text : Bytes}
          → ◌≡◌ {A = Outcome DecodeError Bytes}
              (if t
                then throw DecodeError.odd_byte_count
                else or_throw iconv (iconv.convert e rest))
              (ok text)
          → is_valid_utf8 text ≡ true
      behind_guard true rest h = absurd (cc)
      behind_guard false rest h = or_throw-valid e rest h
