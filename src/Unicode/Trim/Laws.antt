-- ===== src/Unicode/Trim/Laws.antt =====
-- libs/Foundation/UnicodeConversion.cpp: `TryTrimTrailingIncompleteUtf8` on text that was cut.
use mathlib.Core.Option
use native.Mathlib.Nat.{zero-add}
use librova_inpx_web.Common.{
  ℕ, zero, suc, ◌+◌, ◌-◌, ◌≤◌, ◌<◌, ◌≡◌, refl, sym, ap, ◌∙◌, true, false, List, [], ◌∷◌, ◌++◌, none,
  some, arith, length, length-append, length-take, take, drop, drop-append, take-append,
  take-append_le, take-append_ge, append_assoc, dec_lt, ◌⊎◌, inl, inr, Option-cases, some_inj,
  Bytes,
}
use librova_inpx_web.Unicode.Utf8.{try_decode, encode, encode_all, is_scalar}
use librova_inpx_web.Unicode.Utf8.RoundTrip.{try_decode-encode}
use librova_inpx_web.Unicode.Utf8.Sequence.{IsSequence, one, two, three, four, encode-IsSequence}
use librova_inpx_web.Unicode.Walk.Laws.{AreScalar, encode-pos, try_decode-nil}
use librova_inpx_web.Unicode.Trim.{expected_length, is_trailing_incomplete, trim_loop, try_trim}

-- The first bytes of a sequence, at least one and not all.
pub record IsPartial (p : Bytes) : Type 0 where
  pub point : ℕ
  pub scalar : is_scalar point ≡ true
  pub kept : ℕ
  pub some_kept : 0 < kept
  pub some_lost : kept < length (encode point)
  pub split : p ≡ take kept (encode point)

abbrev head_or : Bytes → ℕ
head_or [] = 0
head_or (b ∷ bs) = b

expected_length-IsSequence :
    {c : ℕ} {s : Bytes} → IsSequence c s → expected_length (head_or s) ≡ some (length s)
unfolding expected_length
expected_length-IsSequence (one h) = ground arith
expected_length-IsSequence (two a b h1 h2 h3 h4 e) = ground arith
expected_length-IsSequence (three a b d h1 h2 h3 h4 h5 h6 h7 h8 e) = ground arith
expected_length-IsSequence (four a b d f h1 h2 h3 h4 h5 h6 h7 h8 h9 h10 e) = ground arith

partial-IsSequence :
    {c : ℕ} {s : Bytes} (k : ℕ)
    → IsSequence c s
    → 0 < k
    → k < length s
    → is_trailing_incomplete (take k s) (length s) ≡ true
unfolding is_trailing_incomplete
partial-IsSequence k (one h) p q = absurd (omega arith)
partial-IsSequence zero s p q = absurd (omega arith)
partial-IsSequence (suc zero) (two a b h1 h2 h3 h4 e) p q = refl
partial-IsSequence (suc zero) (three a b d h1 h2 h3 h4 h5 h6 h7 h8 e) p q = refl
partial-IsSequence (suc (suc zero)) (three a b d h1 h2 h3 h4 h5 h6 h7 h8 e) p q = ground arith
partial-IsSequence (suc zero) (four a b d f h1 h2 h3 h4 h5 h6 h7 h8 h9 h10 e) p q = refl
partial-IsSequence (suc (suc zero)) (four a b d f h1 h2 h3 h4 h5 h6 h7 h8 h9 h10 e) p q =
    ground arith
partial-IsSequence (suc (suc (suc zero))) (four a b d f h1 h2 h3 h4 h5 h6 h7 h8 h9 h10 e) p q =
    ground arith
partial-IsSequence (suc (suc k)) s p q = absurd (omega arith)

head_or-append : (s rest : Bytes) → 0 < length s → head_or (s ++ rest) ≡ head_or s
head_or-append [] rest h = absurd (omega arith)
head_or-append (b ∷ bs) rest h = refl

long_enough : (s : Bytes) (n : ℕ) → n ≤ length s → is_trailing_incomplete s n ≡ false
unfolding is_trailing_incomplete
long_enough [] n h = refl
long_enough (a ∷ []) n h = ground arith
long_enough (a ∷ b ∷ s) n h = ground arith

trim_loop_read :
    (fuel index : ℕ) (s : Bytes) {c n m : ℕ}
    → expected_length (head_or s) ≡ some m
    → m ≤ length s
    → try_decode s ≡ some (c, n)
    → trim_loop (suc fuel) index s ≡ trim_loop fuel (index + n) (drop n s)
unfolding trim_loop
trim_loop_read fuel index [] e h d = absurd (try_decode-nil d)
trim_loop_read fuel index (b ∷ bs) {m = m} e h d = rw (e, long_enough (b ∷ bs) m h, d, trim_loop)

trim_loop-encode :
    (fuel index c : ℕ) (rest : Bytes)
    → is_scalar c ≡ true
    → trim_loop (suc fuel) index (encode c ++ rest)
      ≡ trim_loop fuel (index + length (encode c)) rest
trim_loop-encode fuel index c rest h =
    trim_loop_read fuel index (encode c ++ rest)
      (ap expected_length (head_or-append (encode c) rest (encode-pos c))
        ∙ expected_length-IsSequence (encode-IsSequence c h))
      (omega (arith, length-append (encode c) rest)) (try_decode-encode c rest h)
    ∙ ap (trim_loop fuel (index + length (encode c))) (drop-append (encode c) rest)

trim_loop_cut :
    (fuel index : ℕ) (s : Bytes) {n : ℕ}
    → 0 < length s
    → expected_length (head_or s) ≡ some n
    → is_trailing_incomplete s n ≡ true
    → trim_loop (suc fuel) index s ≡ some index
unfolding trim_loop
trim_loop_cut fuel index [] pos e t = absurd (omega arith)
trim_loop_cut fuel index (b ∷ bs) pos e t = rw (e, t, trim_loop)

head_or-take : (k : ℕ) (s : Bytes) → 0 < k → head_or (take k s) ≡ head_or s
head_or-take zero s h = absurd (omega arith)
head_or-take (suc k) [] h = refl
head_or-take (suc k) (b ∷ bs) h = refl

trim_loop-IsPartial :
    (fuel index : ℕ) {p : Bytes} → IsPartial p → trim_loop (suc fuel) index p ≡ some index
trim_loop-IsPartial fuel index h =
    let s = encode-IsSequence h.point h.scalar in
    rw (h.split) (
      trim_loop_cut fuel index (take h.kept (encode h.point))
        (omega (arith, length-take h.kept (encode h.point), h.some_kept, h.some_lost))
        (ap expected_length (head_or-take h.kept (encode h.point) h.some_kept)
          ∙ expected_length-IsSequence s)
        (partial-IsSequence h.kept s h.some_kept h.some_lost))

trim_loop-cut_text :
    (fuel index : ℕ) (cs : List ℕ) {p : Bytes}
    → AreScalar cs
    → IsPartial p
    → length (encode_all cs) < fuel
    → trim_loop fuel index (encode_all cs ++ p) ≡ some (index + length (encode_all cs))
trim_loop-cut_text zero index cs h q le = absurd (omega arith)
trim_loop-cut_text (suc fuel) index [] h q le =
    trim_loop-IsPartial fuel index q ∙ ap some (omega arith)
trim_loop-cut_text (suc fuel) index (c ∷ cs) {p} h q le =
    let joined = length-append (encode c) (encode_all cs) in
    ap (trim_loop (suc fuel) index) (append_assoc (encode c) (encode_all cs) p)
    ∙ trim_loop-encode fuel index c (encode_all cs ++ p) h.0
    ∙ trim_loop-cut_text fuel (index + length (encode c)) cs h.1 q
        (omega (arith, joined, encode-pos c))
    ∙ ap some (omega (arith, joined))

trim_loop-whole_text :
    (fuel index : ℕ) (cs : List ℕ) → AreScalar cs → trim_loop fuel index (encode_all cs) ≡ none
unfolding trim_loop
trim_loop-whole_text fuel index [] h = refl
trim_loop-whole_text zero index (c ∷ cs) h = out_of_fuel index (encode_all (c ∷ cs))
  where
    out_of_fuel : (index : ℕ) (s : Bytes) → trim_loop zero index s ≡ none
    out_of_fuel index [] = refl
    out_of_fuel index (b ∷ bs) = refl
trim_loop-whole_text (suc fuel) index (c ∷ cs) h =
    trim_loop-encode fuel index c (encode_all cs) h.0
    ∙ trim_loop-whole_text fuel (index + length (encode c)) cs h.1

-- Text that ends inside a character is cut at the start of that character.
pub try_trim_cut :
    (cs : List ℕ) {p : Bytes}
    → AreScalar cs
    → IsPartial p
    → try_trim (encode_all cs ++ p) ≡ some (encode_all cs)
unfolding try_trim
try_trim_cut cs {p} h q =
    ap (Option.map (λ i. take i (encode_all cs ++ p))) (
      trim_loop-cut_text (length (encode_all cs ++ p)) 0 cs h q (
        omega (
          arith,
          length-append (encode_all cs) p,
          ap length q.split,
          length-take q.kept (encode q.point),
          q.some_kept,
          q.some_lost,
        )))
    ∙ ap some
        (ap (λ (n : ℕ). take n (encode_all cs ++ p)) (zero-add _) ∙ take-append (encode_all cs) p)

-- Text that ends between two characters is left as it is.
pub try_trim_whole : (cs : List ℕ) → AreScalar cs → try_trim (encode_all cs) ≡ none
unfolding try_trim
try_trim_whole cs h =
    ap (Option.map (λ i. take i (encode_all cs)))
      (trim_loop-whole_text (length (encode_all cs)) 0 cs h)

-- Any prefix of a text is whole characters, and then at most one that is cut.
pub record IsCut (s : Bytes) : Type 0 where
  pub points : List ℕ
  pub rest : Bytes
  pub scalars : AreScalar points
  pub split : s ≡ encode_all points ++ rest
  pub partial : (rest ≡ []) ⊎ IsPartial rest

pub take-IsCut : (n : ℕ) (cs : List ℕ) → AreScalar cs → IsCut (take n (encode_all cs))
take-IsCut n [] h = record {
  points = [];
  rest = [];
  scalars = tt;
  split = take_nil n;
  partial = inl refl;
}
  where
    take_nil : (n : ℕ) → take n (encode_all []) ≡ []
    take_nil zero = refl
    take_nil (suc n) = refl
take-IsCut zero (c ∷ cs) h = record {
  points = [];
  rest = [];
  scalars = tt;
  split = refl;
  partial = inl refl;
}
take-IsCut (suc n) (c ∷ cs) h = elim (dec_lt (suc n) (length (encode c))) [
  | yes lt ↦ record {
    points = [];
    rest = take (suc n) (encode c);
    scalars = tt;
    split = take-append_le (suc n) (encode c) (encode_all cs) (omega arith);
    partial = inr (record {
      point = c;
      scalar = h.0;
      kept = suc n;
      some_kept = omega arith;
      some_lost = lt;
      split = refl;
    });
  }
  | no ge ↦
      let later = take-IsCut (suc n - length (encode c)) cs h.1 in
      record {
        points = c ∷ later.points;
        rest = later.rest;
        scalars = (h.0, later.scalars);
        split =
            take-append_ge (suc n) (encode c) (encode_all cs) (omega arith)
            ∙ ap (◌++◌ (encode c)) later.split
            ∙ sym (append_assoc (encode c) _ _);
        partial = later.partial;
      }
]

-- What is returned is the string's beginning, whatever the string is.
pub try_trim-take :
    (value : Bytes) {w : Bytes} → try_trim value ≡ some w → (n : ℕ) × (w ≡ take n value)
unfolding try_trim
try_trim-take value h = elim (Option-cases (trim_loop (length value) 0 value)) [
  | inl e ↦ absurd (cc (rw (e, Option.map) at h))
  | inr (n, e) ↦ (n, sym (some_inj (rw (e, Option.map) at h)))
]
