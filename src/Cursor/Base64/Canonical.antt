-- ===== src/Cursor/Base64/Canonical.antt =====
-- libs/Server/BookListCursor.cpp: which strings `DecodeBase64Url` accepts, against the encoder.
use librova_inpx_web.Common.{
  ℕ, ◌+◌, ◌*◌, ◌/◌, ◌%◌, ◌<◌, ◌≡◌, ◌≢◌, refl, sym, ap, ◌∙◌, inl, inr, false, ◌||◌, [], ◌∷◌, ◌++◌,
  Option, none, some, some_inj, Bool-cases, arith, ◌==◌, ltb, length, if◌then◌else◌, Bytes, IsBytes,
}
use mathlib.Core.Path.{ap₂}
use librova_inpx_web.Cursor.Base64.{
  alphabet_at, encode, decode, decode_from, max_encoded_bytes, is_nil,
}
use librova_inpx_web.Cursor.Base64.Groups.{encode_groups, encode_lem}
use librova_inpx_web.Cursor.Base64.Characters.{
  decode_character-bounds, alphabet_at-decode_character, decode_from_0, decode_from_6,
  decode_from_4, decode_from_2, decode_end_0, decode_end_4, decode_end_2, decode_from_read,
  prepend-eq-some,
}

-- A character that was accepted, its value, the buffer behind it, and what was decoded there.
record Read (c left factor : ℕ) (rest : Bytes) (count : ℕ) (emitted : ℕ → Bytes) (s : Bytes)
    : Type 0 where
  value : ℕ
  is_value : value < 64
  written : alphabet_at value ≡ c
  buffer : ℕ
  left_over : buffer % factor ≡ value % factor
  later : Bytes
  goes_on : decode_from buffer count rest ≡ some later
  split : s ≡ emitted value ++ later

module _ (buffer c : ℕ) (cs : Bytes) {s : Bytes} where
  Read-0 : decode_from buffer 0 (c ∷ cs) ≡ some s → Read c 0 64 cs 6 (λ _. []) s
  Read-0 h =
      let (v, d) = decode_from_read buffer 0 c cs h in
      let (buffer', e, r) = decode_from_0 buffer c v cs d in
      let (later, o, split) = prepend-eq-some [] (decode_from buffer' 6 cs) (sym e ∙ h) in
      record {
        value = v;
        is_value = (decode_character-bounds c d).1;
        written = alphabet_at-decode_character c d;
        buffer = buffer';
        left_over = omega (arith, r, (decode_character-bounds c d).1);
        later = later;
        goes_on = o;
        split = split;
      }

  Read-6 :
      (left : ℕ)
      → buffer % 64 ≡ left
      → decode_from buffer 6 (c ∷ cs) ≡ some s
      → Read c left 16 cs 4 (λ v. (left * 4 + v / 16) ∷ []) s
  Read-6 left eq h =
      let (v, d) = decode_from_read buffer 6 c cs h in
      let (buffer', e, r) = decode_from_6 buffer c v left cs d eq in
      let (later, o, split) =
        prepend-eq-some ((left * 4 + v / 16) ∷ []) (decode_from buffer' 4 cs) (sym e ∙ h) in
      record {
        value = v;
        is_value = (decode_character-bounds c d).1;
        written = alphabet_at-decode_character c d;
        buffer = buffer';
        left_over = r;
        later = later;
        goes_on = o;
        split = split;
      }

  Read-4 :
      (left : ℕ)
      → buffer % 16 ≡ left
      → decode_from buffer 4 (c ∷ cs) ≡ some s
      → Read c left 4 cs 2 (λ v. (left * 16 + v / 4) ∷ []) s
  Read-4 left eq h =
      let (v, d) = decode_from_read buffer 4 c cs h in
      let (buffer', e, r) = decode_from_4 buffer c v left cs d eq in
      let (later, o, split) =
        prepend-eq-some ((left * 16 + v / 4) ∷ []) (decode_from buffer' 2 cs) (sym e ∙ h) in
      record {
        value = v;
        is_value = (decode_character-bounds c d).1;
        written = alphabet_at-decode_character c d;
        buffer = buffer';
        left_over = r;
        later = later;
        goes_on = o;
        split = split;
      }

  Read-2 :
      (left : ℕ)
      → buffer % 4 ≡ left
      → decode_from buffer 2 (c ∷ cs) ≡ some s
      → Read c left 1 cs 0 (λ v. (left * 64 + v) ∷ []) s
  Read-2 left eq h =
      let (v, d) = decode_from_read buffer 2 c cs h in
      let (buffer', e) = decode_from_2 buffer c v left cs d eq in
      let (later, o, split) =
        prepend-eq-some ((left * 64 + v) ∷ []) (decode_from buffer' 0 cs) (sym e ∙ h) in
      record {
        value = v;
        is_value = (decode_character-bounds c d).1;
        written = alphabet_at-decode_character c d;
        buffer = buffer';
        left_over = omega arith;
        later = later;
        goes_on = o;
        split = split;
      }

end_nil :
    (left : ℕ) (o : Option Bytes) {s : Bytes}
    → o ≡ (if left == 0 then some [] else none)
    → o ≡ some s
    → (left ≡ 0) × (s ≡ [])
end_nil left o e h = ground arith

decode_from-canonical :
    (buffer : ℕ) (e : Bytes) {s : Bytes}
    → length e % 4 ≢ 1
    → decode_from buffer 0 e ≡ some s
    → IsBytes s × (encode_groups s ≡ e)
unfolding encode_groups
decode_from-canonical buffer [] len h = rw (some_inj (sym h ∙ decode_end_0 buffer)) (tt, refl)
decode_from-canonical buffer (c1 ∷ []) len h = absurd (len (omega arith))
decode_from-canonical buffer (c1 ∷ c2 ∷ []) len h =
    let r1 = Read-0 buffer c1 (c2 ∷ []) h in
    let r2 =
      Read-6 r1.buffer c2 [] r1.value (omega (arith, r1.left_over, r1.is_value)) r1.goes_on in
    let (zero_left, last) =
      end_nil (r2.value % 16) _ (decode_end_4 r2.buffer _ r2.left_over) r2.goes_on in
    rw (r1.split, r2.split, last)
      (
        (omega (arith, r1.is_value, r2.is_value), tt),
        ap₂ (λ (x y : ℕ). x ∷ y ∷ []) (ap alphabet_at (omega (arith, r2.is_value)) ∙ r1.written)
            (ap alphabet_at (omega (arith, zero_left, r2.is_value)) ∙ r2.written),
      )
decode_from-canonical buffer (c1 ∷ c2 ∷ c3 ∷ []) len h =
    let r1 = Read-0 buffer c1 (c2 ∷ c3 ∷ []) h in
    let r2 =
      Read-6 r1.buffer c2 (c3 ∷ []) r1.value (omega (arith, r1.left_over, r1.is_value))
        r1.goes_on in
    let r3 = Read-4 r2.buffer c3 [] (r2.value % 16) r2.left_over r2.goes_on in
    let (zero_left, last) =
      end_nil (r3.value % 4) _ (decode_end_2 r3.buffer _ r3.left_over) r3.goes_on in
    rw (r1.split, r2.split, r3.split, last)
      (
        (omega (arith, r1.is_value, r2.is_value), (omega (arith, r3.is_value), tt)),
        ap₂ ◌∷◌ (ap alphabet_at (omega (arith, r2.is_value)) ∙ r1.written) (
            ap₂ (λ (x y : ℕ). x ∷ y ∷ [])
              (ap alphabet_at (omega (arith, r2.is_value, r3.is_value)) ∙ r2.written)
              (ap alphabet_at (omega (arith, zero_left, r3.is_value)) ∙ r3.written)),
      )
decode_from-canonical buffer (c1 ∷ c2 ∷ c3 ∷ c4 ∷ e) len h =
    let r1 = Read-0 buffer c1 (c2 ∷ c3 ∷ c4 ∷ e) h in
    let r2 =
      Read-6 r1.buffer c2 (c3 ∷ c4 ∷ e) r1.value (omega (arith, r1.left_over, r1.is_value))
        r1.goes_on in
    let r3 = Read-4 r2.buffer c3 (c4 ∷ e) (r2.value % 16) r2.left_over r2.goes_on in
    let r4 = Read-2 r3.buffer c4 e (r3.value % 4) r3.left_over r3.goes_on in
    let (bytes, same) = decode_from-canonical r4.buffer e (λ x. len (omega arith)) r4.goes_on in
    rw (r1.split, r2.split, r3.split, r4.split)
      (
        (
          omega (arith, r1.is_value, r2.is_value),
          (omega (arith, r3.is_value), (omega (arith, r4.is_value), bytes)),
        ),
        ap₂ ◌∷◌ (ap alphabet_at (omega (arith, r2.is_value)) ∙ r1.written) (
            ap₂ ◌∷◌ (ap alphabet_at (omega (arith, r2.is_value, r3.is_value)) ∙ r2.written) (
              ap₂ ◌∷◌ (ap alphabet_at (omega (arith, r3.is_value, r4.is_value)) ∙ r3.written)
                (ap₂ ◌∷◌ (ap alphabet_at (omega (arith, r4.is_value)) ∙ r4.written) same))),
      )

decode_split :
    (e : Bytes) {s : Bytes} → decode e ≡ some s → (length e % 4 ≢ 1) × (decode_from 0 0 e ≡ some s)
unfolding decode
decode_split e h =
    elim (Bool-cases (is_nil e || ltb max_encoded_bytes (length e) || (length e % 4) == 1)) [
      | inl f ↦ absurd (cc (rw f at h))
      | inr f ↦ ((λ x. not_one x f), rw f at h)
    ]
  where
    not_one :
        length e % 4 ≡ 1
        → (is_nil e || ltb max_encoded_bytes (length e) || (length e % 4) == 1) ≡ false
        → ⊥
    not_one x f = ground arith

-- Whatever is decoded are bytes whose encoding is the string that was read.
pub encode-decode : (e : Bytes) {s : Bytes} → decode e ≡ some s → IsBytes s × (encode s ≡ e)
encode-decode e h =
    let (len, read) = decode_split e h in
    let (bytes, same) = decode_from-canonical 0 e len read in (bytes, encode_lem _ bytes ∙ same)
