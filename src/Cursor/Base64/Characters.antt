-- ===== src/Cursor/Base64/Characters.antt =====
-- libs/Server/BookListCursor.cpp: one character decoded, and the end of the string, from each
-- number of bits that can be left.
use librova_inpx_web.Common.{
  ℕ, ◌+◌, ◌*◌, ◌/◌, ◌%◌, ◌<◌, ◌≡◌, refl, sym, ap, inl, inr, Bool, true, false, [], ◌∷◌, ◌++◌,
  Option, none, some, some_inj, Option-cases, arith, ◌==◌, ==_iff, all_below, all_below_sound,
  if◌then◌else◌, Bytes,
}
use librova_inpx_web.Cursor.Base64.{alphabet_at, decode_character, prepend, decode_from}
use librova_inpx_web.Cursor.Base64.Groups.{pushed}

is_value : ℕ → Option ℕ → Bool
is_value n none = false
is_value n (some m) = m == n

is_value_iff : (n : ℕ) (o : Option ℕ) → is_value n o ≡ true → o ≡ some n
unfolding is_value
is_value_iff n none h = absurd (cc)
is_value_iff n (some m) h = ground arith

alphabet_table : all_below 64 (λ v. is_value v (decode_character (alphabet_at v))) ≡ true
unfolding all_below is_value decode_character alphabet_at
alphabet_table = refl

pub decode_character-alphabet_at : (v : ℕ) → v < 64 → decode_character (alphabet_at v) ≡ some v
decode_character-alphabet_at v h =
    is_value_iff v _
      (all_below_sound 64 (λ v. is_value v (decode_character (alphabet_at v))) v alphabet_table h)

is_encoded_by : ℕ → Option ℕ → Bool
is_encoded_by c none = true
is_encoded_by c (some v) = alphabet_at v == c

character_table : all_below 128 (λ c. is_encoded_by c (decode_character c)) ≡ true
unfolding all_below is_encoded_by decode_character alphabet_at
character_table = refl

pub decode_character-bounds : (c : ℕ) {v : ℕ} → decode_character c ≡ some v → (c < 128) × (v < 64)
unfolding decode_character
decode_character-bounds c h = ground arith

pub alphabet_at-decode_character : (c : ℕ) {v : ℕ} → decode_character c ≡ some v → alphabet_at v ≡ c
unfolding is_encoded_by
alphabet_at-decode_character c {v} h =
    let t =
      all_below_sound 128 (λ c. is_encoded_by c (decode_character c)) c character_table
        (decode_character-bounds c h).0 in
    (==_iff (alphabet_at v) c).0 (rw h at t)

-- One character, from each number of bits that can be left over.
pub decode_from_0 :
    (buffer c v : ℕ) (cs : Bytes)
    → decode_character c ≡ some v
    → (buffer' : ℕ) × (decode_from buffer 0 (c ∷ cs) ≡ prepend [] (decode_from buffer' 6 cs))
      × (buffer' % 64 ≡ v)
unfolding decode_from
decode_from_0 buffer c v cs d =
    (pushed buffer 64 v, rw (d, decode_from), omega (arith, (decode_character-bounds c d).1))

pub decode_from_6 :
    (buffer c v left : ℕ) (cs : Bytes)
    → decode_character c ≡ some v
    → buffer % 64 ≡ left
    → (buffer' : ℕ) × (decode_from buffer 6 (c ∷ cs)
        ≡ prepend ((left * 4 + v / 16) ∷ []) (decode_from buffer' 4 cs))
      × (buffer' % 16 ≡ v % 16)
unfolding decode_from
decode_from_6 buffer c v left cs d e =
    let bound = (decode_character-bounds c d).1 in
    (
      pushed buffer 64 v,
      rw (d, decode_from)
          (ap (λ (x : ℕ). prepend (x ∷ []) (decode_from (pushed buffer 64 v) 4 cs))
            (omega (arith, bound))),
      omega (arith, bound),
    )

pub decode_from_4 :
    (buffer c v left : ℕ) (cs : Bytes)
    → decode_character c ≡ some v
    → buffer % 16 ≡ left
    → (buffer' : ℕ) × (decode_from buffer 4 (c ∷ cs)
        ≡ prepend ((left * 16 + v / 4) ∷ []) (decode_from buffer' 2 cs))
      × (buffer' % 4 ≡ v % 4)
unfolding decode_from
decode_from_4 buffer c v left cs d e =
    let bound = (decode_character-bounds c d).1 in
    (
      pushed buffer 64 v,
      rw (d, decode_from)
          (ap (λ (x : ℕ). prepend (x ∷ []) (decode_from (pushed buffer 64 v) 2 cs))
            (omega (arith, bound))),
      omega (arith, bound),
    )

pub decode_from_2 :
    (buffer c v left : ℕ) (cs : Bytes)
    → decode_character c ≡ some v
    → buffer % 4 ≡ left
    → (buffer' : ℕ) × (decode_from buffer 2 (c ∷ cs)
        ≡ prepend ((left * 64 + v) ∷ []) (decode_from buffer' 0 cs))
unfolding decode_from
decode_from_2 buffer c v left cs d e =
    let bound = (decode_character-bounds c d).1 in
    (
      pushed buffer 64 v,
      rw (d, decode_from)
          (ap (λ (x : ℕ). prepend (x ∷ []) (decode_from (pushed buffer 64 v) 0 cs))
            (omega (arith, bound))),
    )

pub decode_end_0 : (buffer : ℕ) → decode_from buffer 0 [] ≡ some []
unfolding decode_from
decode_end_0 buffer = refl

pub decode_end_4 :
    (buffer left : ℕ)
    → buffer % 16 ≡ left
    → decode_from buffer 4 [] ≡ (if left == 0 then some [] else none)
unfolding decode_from
decode_end_4 buffer left e = rw (← e) (ground arith)

pub decode_end_2 :
    (buffer left : ℕ)
    → buffer % 4 ≡ left
    → decode_from buffer 2 [] ≡ (if left == 0 then some [] else none)
unfolding decode_from
decode_end_2 buffer left e = rw (← e) (ground arith)

pub decode_from_read :
    (buffer count c : ℕ) (cs : Bytes) {s : Bytes}
    → decode_from buffer count (c ∷ cs) ≡ some s
    → (v : ℕ) × (decode_character c ≡ some v)
unfolding decode_from
decode_from_read buffer count c cs h = elim (Option-cases (decode_character c)) [
  | inl e ↦ absurd (cc (rw (e, decode_from) at h))
  | inr r ↦ r
]

pub prepend-eq-some :
    (bytes : Bytes) (o : Option Bytes) {s : Bytes}
    → prepend bytes o ≡ some s
    → (later : Bytes) × (o ≡ some later) × (s ≡ bytes ++ later)
prepend-eq-some bytes none h = absurd (cc)
prepend-eq-some bytes (some later) h = (later, refl, sym (some_inj h))
