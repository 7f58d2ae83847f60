-- ===== src/Metadata/Key/Separate.antt =====
-- libs/Domain/MetadataNormalization.cpp: which strings share a key.
use librova_inpx_web.Common.{
  ℕ, ◌-◌, ◌/◌, ◌%◌, ◌<◌, ◌≡◌, ◌≢◌, refl, sym, ap, ◌∙◌, ◌↔◌, inl, inr, true, [], ◌∷◌, ◌++◌, none,
  some, Option-cases, Bool-cases, Bool-absurd, ltb, if◌then◌else◌, arith, get_or, Bytes, IsBytes,
  starts_with, starts_with_iff, ◌==◌, ==_iff, all_below, all_below_sound,
}
use mathlib.Core.Path.{ap₂}
use librova_inpx_web.Unicode.Normalize.{try_normalize}
use librova_inpx_web.Metadata.Key.{
  sentinel, invalid_prefix, hex_digits, escape_valid, hex_bytes, encode_invalid, normalize_text,
}

append_sentinel_inj : (v w : Bytes) → sentinel ++ v ≡ sentinel ++ w → v ≡ w
append_sentinel_inj v w h = cc

-- The byte behind the sentinel tells an escaped text from other bytes.
escape_valid-ne : (w value : Bytes) → escape_valid w ≢ encode_invalid value
unfolding escape_valid encode_invalid
escape_valid-ne w value h = elim (Bool-cases (starts_with w sentinel)) [
  | inl e ↦
      let (rest, split) = (starts_with_iff w sentinel).0 e in
      let same = append_sentinel_inj w (invalid_prefix ++ hex_bytes value) (rw e at h) in
      differ rest (hex_bytes value) (sym split ∙ same)
  | inr e ↦
      Bool-absurd (starts_with w sentinel)
        ((starts_with_iff w sentinel).1 (invalid_prefix ++ hex_bytes value, rw e at h)) e
]
  where
    differ : (u v : Bytes) → sentinel ++ u ≡ invalid_prefix ++ v → ⊥
    differ u v h = ground arith

escape_valid_inj : (v w : Bytes) → escape_valid v ≡ escape_valid w → v ≡ w
unfolding escape_valid
escape_valid_inj v w h = elim (Bool-cases (starts_with v sentinel)) [
  | inl e ↦ elim (Bool-cases (starts_with w sentinel)) [
    | inl f ↦ append_sentinel_inj v w (rw (e, f) at h)
    | inr f ↦
        Bool-absurd (starts_with w sentinel)
          ((starts_with_iff w sentinel).1 (v, sym (rw (e, f) at h))) f
  ]
  | inr e ↦ elim (Bool-cases (starts_with w sentinel)) [
    | inl f ↦
        Bool-absurd (starts_with v sentinel) ((starts_with_iff v sentinel).1 (w, rw (e, f) at h)) e
    | inr f ↦ rw (e, f) at h
  ]
]

unhex : ℕ → ℕ
unhex d = if ltb d b'a' then d - b'0' else d - 87

unhex_table : all_below 16 (λ n. unhex (get_or hex_digits n 0) == n) ≡ true
unfolding all_below unhex
unhex_table = refl

unhex_lem : (n : ℕ) → n < 16 → unhex (get_or hex_digits n 0) ≡ n
unhex_lem n h = (==_iff _ n).0 (all_below_sound 16 _ n unhex_table h)

digit_inj : (m n : ℕ) → m < 16 → n < 16 → get_or hex_digits m 0 ≡ get_or hex_digits n 0 → m ≡ n
digit_inj m n hm hn h = sym (unhex_lem m hm) ∙ ap unhex h ∙ unhex_lem n hn

cons_inj : {b c : ℕ} {v w : Bytes} → ◌≡◌ {A = Bytes} (b ∷ v) (c ∷ w) → (b ≡ c) × (v ≡ w)
cons_inj h = (cc, cc)

hex_bytes_inj : (v w : Bytes) → IsBytes v → IsBytes w → hex_bytes v ≡ hex_bytes w → v ≡ w
unfolding hex_bytes
hex_bytes_inj [] [] hv hw h = refl
hex_bytes_inj [] (c ∷ w) hv hw h = absurd (cc)
hex_bytes_inj (b ∷ v) [] hv hw h = absurd (cc)
hex_bytes_inj (b ∷ v) (c ∷ w) hv hw h =
    let (first, later) = cons_inj h in
    let (second, rest) = cons_inj later in
    let high = digit_inj (b / 16) (c / 16) (omega arith) (omega arith) first in
    let low = digit_inj (b % 16) (c % 16) (omega arith) (omega arith) second in
    ap₂ ◌∷◌ (omega arith) (hex_bytes_inj v w hv.1 hw.1 rest)

append_prefix_inj : (v w : Bytes) → invalid_prefix ++ v ≡ invalid_prefix ++ w → v ≡ w
append_prefix_inj v w h = cc

encode_invalid_inj :
    (v w : Bytes) → IsBytes v → IsBytes w → encode_invalid v ≡ encode_invalid w → v ≡ w
unfolding encode_invalid
encode_invalid_inj v w hv hw h =
    hex_bytes_inj v w hv hw (append_prefix_inj _ _ (append_sentinel_inj _ _ h))

-- What two texts, or two other strings, have in common if their keys agree.
pub data SameKey (v w : Bytes) : Type 0 where
  texts : (n : Bytes) → try_normalize v ≡ some n → try_normalize w ≡ some n → SameKey v w
  others : try_normalize v ≡ none → v ≡ w → SameKey v w

normalize_text_valid :
    (v : Bytes) {n : Bytes} → try_normalize v ≡ some n → normalize_text v ≡ escape_valid n
unfolding normalize_text
normalize_text_valid v e = rw (e, normalize_text)

normalize_text_invalid : (v : Bytes) → try_normalize v ≡ none → normalize_text v ≡ encode_invalid v
unfolding normalize_text
normalize_text_invalid v e = rw (e, normalize_text)

normalize_text-SameKey :
    (v w : Bytes) → IsBytes v → IsBytes w → normalize_text v ≡ normalize_text w → SameKey v w
normalize_text-SameKey v w hv hw h = elim (Option-cases (try_normalize v)) [
  | inl e ↦ elim (Option-cases (try_normalize w)) [
    | inl f ↦ others e (
        encode_invalid_inj v w hv hw
          (sym (normalize_text_invalid v e) ∙ h ∙ normalize_text_invalid w f))
    | inr (n, f) ↦
        absurd (
          escape_valid-ne n v (sym (normalize_text_valid w f) ∙ sym h ∙ normalize_text_invalid v e))
  ]
  | inr (m, e) ↦ elim (Option-cases (try_normalize w)) [
    | inl f ↦
        absurd
          (escape_valid-ne m w (sym (normalize_text_valid v e) ∙ h ∙ normalize_text_invalid w f))
    | inr (n, f) ↦
        texts n
          (e
            ∙ ap some (
                escape_valid_inj m n
                  (sym (normalize_text_valid v e) ∙ h ∙ normalize_text_valid w f)))
          f
  ]
]

SameKey-normalize_text : {v w : Bytes} → SameKey v w → normalize_text v ≡ normalize_text w
SameKey-normalize_text {v} {w} (texts n e f) =
    normalize_text_valid v e ∙ sym (normalize_text_valid w f)
SameKey-normalize_text (others e f) = ap normalize_text f

-- Two strings of bytes have one key exactly if both are texts with one normal form, or if they
-- are the same string and no text.
pub normalize_text_iff :
    (v w : Bytes) → IsBytes v → IsBytes w → (normalize_text v ≡ normalize_text w) ↔ SameKey v w
normalize_text_iff v w hv hw = (normalize_text-SameKey v w hv hw, SameKey-normalize_text)
