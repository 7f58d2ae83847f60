-- ===== src/Unicode/Legacy.antt =====
-- libs/Foundation/UnicodeConversion.cpp: text in another encoding than UTF-8. iconv is a library,
-- so `ConvertText`, the loop that feeds it, stands here as a converter that gives the text in
-- UTF-8 or throws.
pub mod Valid
use librova_inpx_web.Common.{
  ℕ, suc, ◌+◌, ◌-◌, ◌*◌, ◌%◌, Bool, true, false, not, ◌&&◌, ◌||◌, List, [], ◌∷◌, ◌++◌, Option, none,
  some, Outcome, ok, throw, ltb, leb, ◌==◌, if◌then◌else◌, Bytes, length, drop, get_or, bytes_eq,
}
use librova_inpx_web.Unicode.Utf8.{encode, within}
use librova_inpx_web.Unicode.Walk.{walk}

-- The encodings that the code asks iconv for.
pub data Encoding : Type 0 where
  cp866 ibm866 windows1251 cp1251 utf16le utf16be : Encoding

pub record Converter : Type 0 where
  pub convert : Encoding → Bytes → Option Bytes

-- `Windows1251HighControlBlock`.
abbrev pub high_control_block : List ℕ
high_control_block =
    0x0402 ∷ 0x0403 ∷ 0x201A ∷ 0x0453 ∷ 0x201E ∷ 0x2026 ∷ 0x2020 ∷ 0x2021 ∷ 0x20AC ∷ 0x2030 ∷ 0x0409
    ∷ 0x2039 ∷ 0x040A ∷ 0x040C ∷ 0x040B ∷ 0x040F ∷ 0x0452 ∷ 0x2018 ∷ 0x2019 ∷ 0x201C ∷ 0x201D
    ∷ 0x2022 ∷ 0x2013 ∷ 0x2014 ∷ 0xFFFD ∷ 0x2122 ∷ 0x0459 ∷ 0x203A ∷ 0x045A ∷ 0x045C ∷ 0x045B
    ∷ 0x045F ∷ 0x00A0 ∷ 0x040E ∷ 0x045E ∷ 0x0408 ∷ 0x00A4 ∷ 0x0490 ∷ 0x00A6 ∷ 0x00A7 ∷ 0x0401
    ∷ 0x00A9 ∷ 0x0404 ∷ 0x00AB ∷ 0x00AC ∷ 0x00AD ∷ 0x00AE ∷ 0x0407 ∷ 0x00B0 ∷ 0x00B1 ∷ 0x0406
    ∷ 0x0456 ∷ 0x0491 ∷ 0x00B5 ∷ 0x00B6 ∷ 0x00B7 ∷ 0x0451 ∷ 0x2116 ∷ 0x0454 ∷ 0x00BB ∷ 0x0458
    ∷ 0x0405 ∷ 0x0455 ∷ 0x0457 ∷ []

-- The code point of a byte in `Windows1251ToUtf8Lossy`.
pub windows1251_point : ℕ → ℕ
windows1251_point b =
    if ltb b 0x80
    then b
    else if leb 0xC0 b
    then 0x0410 + (b - 0xC0)
    else get_or high_control_block (b - 0x80) 0

-- `Windows1251ToUtf8Lossy`.
pub windows1251_lossy : Bytes → Bytes
windows1251_lossy [] = []
windows1251_lossy (b ∷ bs) = encode (windows1251_point b) ++ windows1251_lossy bs

-- The variables of `ScoreLegacyCyrillicDecode`; the score is `gain - loss`. It stays far within
-- a `long long`: no code point moves it by more than 14.
pub record Score : Type 0 where
  pub gain : ℕ
  pub loss : ℕ
  pub word_length : ℕ
  pub vowel_count : ℕ

-- `finishCyrillicWord`.
unfoldable finish_word : Score → Score
finish_word s = record {
  gain =
      if leb 3 s.word_length
        && (not (s.vowel_count == 0)
            && (leb 5 s.word_length && leb s.word_length (s.vowel_count * 5)))
      then s.gain + 2
      else s.gain;
  loss = if leb 3 s.word_length && s.vowel_count == 0 then s.loss + 5 else s.loss;
  word_length = 0;
  vowel_count = 0;
}

-- The cases of the `switch`.
abbrev is_vowel : ℕ → Bool
is_vowel c =
    c == 0x410
    || c == 0x430
    || c == 0x415
    || c == 0x435
    || c == 0x401
    || c == 0x451
    || c == 0x418
    || c == 0x438
    || c == 0x41E
    || c == 0x43E
    || c == 0x423
    || c == 0x443
    || c == 0x42B
    || c == 0x44B
    || c == 0x42D
    || c == 0x44D
    || c == 0x42E
    || c == 0x44E
    || c == 0x42F
    || c == 0x44F

-- The body of the loop.
unfoldable score_point : Score → ℕ → Score
score_point s c =
    let done = finish_word s in
    if within 0x410 0x44F c || (c == 0x401 || c == 0x451)
    then record s {
      gain = s.gain + 4;
      word_length = suc s.word_length;
      vowel_count = if is_vowel c then suc s.vowel_count else s.vowel_count;
    }
    else if within 0x400 0x52F c
    then record done { gain = done.gain + 1 }
    else if within 0x2500 0x259F c
    then record done { loss = done.loss + 9 }
    else if c == 0xFFFD || within 0x80 0x9F c
    then record done { loss = done.loss + 6 }
    else done

abbrev no_score : Score
no_score = record { gain = 0; loss = 0; word_length = 0; vowel_count = 0 }

abbrev finished : Option Score → Option Score
finished none = none
finished (some s) = some (finish_word s)

-- `ScoreLegacyCyrillicDecode`; `none` is the least `long long`.
pub score_legacy : Bytes → Option Score
unfolding finish_word score_point
score_legacy value = finished (walk score_point (length value) no_score value)

-- `==` and `>` on scores.
pub same_score : Option Score → Option Score → Bool
same_score none none = true
same_score (some s) (some t) = (s.gain + t.loss) == (t.gain + s.loss)
same_score _ _ = false

pub higher_score : Option Score → Option Score → Bool
higher_score none t = false
higher_score (some s) none = true
higher_score (some s) (some t) = ltb (t.gain + s.loss) (s.gain + t.loss)

pub data DecodeError : Type 0 where
  odd_byte_count conversion ambiguous : DecodeError

-- The end of `DecodeLegacyCyrillicToUtf8`: the 1251 text is always there.
pub choose_decoding : Bytes → Option Bytes → Outcome DecodeError Bytes
unfolding same_score higher_score
choose_decoding text1251 none = ok text1251
choose_decoding text1251 (some text866) =
    let score866 = score_legacy text866 in
    let score1251 = score_legacy text1251 in
    if same_score score866 score1251 && not (bytes_eq text866 text1251)
    then throw ambiguous
    else ok (if higher_score score866 score1251 then text866 else text1251)

abbrev pub or_else : Option Bytes → Option Bytes → Option Bytes
or_else (some a) o = some a
or_else none o = o

module _ (iconv : Converter) where
  -- `CodePageToUtf8` over the names in `CodePageToIconvEncodings`, for 1251 and for 866.
  pub code_page_1251 : Bytes → Option Bytes
  code_page_1251 value = or_else (iconv.convert windows1251 value) (iconv.convert cp1251 value)

  pub code_page_866 : Bytes → Option Bytes
  code_page_866 value = or_else (iconv.convert cp866 value) (iconv.convert ibm866 value)

  abbrev pub or_lossy : Bytes → Option Bytes → Bytes
  or_lossy value none = windows1251_lossy value
  or_lossy value (some text) = text

  -- `DecodeLegacyCyrillicToUtf8`.
  pub decode_legacy : Bytes → Outcome DecodeError Bytes
  unfolding code_page_1251 code_page_866 choose_decoding
  decode_legacy value =
      choose_decoding (or_lossy value (code_page_1251 value)) (code_page_866 value)

  abbrev pub or_throw : Option Bytes → Outcome DecodeError Bytes
  or_throw none = throw conversion
  or_throw (some text) = ok text

  -- What `Utf16LeToUtf8` and `Utf16BeToUtf8` share: the mark goes, the rest has to be even.
  unfoldable pub utf16 : Encoding → ℕ → ℕ → Bytes → Outcome DecodeError Bytes
  utf16 encoding mark0 mark1 value =
      let offset = if get_or value 0 0 == mark0 && get_or value 1 0 == mark1 then 2 else 0 in
      if not ((length value - offset) % 2 == 0)
      then throw odd_byte_count
      else or_throw (iconv.convert encoding (drop offset value))

  abbrev pub utf16_le : Bytes → Outcome DecodeError Bytes
  utf16_le = utf16 utf16le 0xFF 0xFE

  abbrev pub utf16_be : Bytes → Outcome DecodeError Bytes
  utf16_be = utf16 utf16be 0xFE 0xFF
