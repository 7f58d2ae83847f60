-- ===== src/Inpx/Text/Find.antt =====
-- libs/Inpx/InpxParser.cpp: the routines that work in chunks, against their plain forms.
use mathlib.Core.Option
use librova_inpx_web.Common.{
  ℕ, zero, suc, ◌+◌, ◌-◌, ◌≤◌, ◌≡◌, refl, sym, ap, ◌∙◌, [], ◌∷◌, ◌++◌, append-nil, append_assoc,
  Option, none, some, arith, ltb, leb, ◌==◌, inl, inr, Bool-cases, Option-cases, Bytes, length,
  take, drop, take-append-drop, length-take, length-drop, drop-ge, drop-drop, ltb→lt, leb→le,
}
use librova_inpx_web.Inpx.Text.{
  interval, find_in, chunk_size, find_chunks, find_byte, copy_chunks, append_text, copy_text,
  trim_start, trim_end, trim_ascii,
}

abbrev pub shift : ℕ → Option ℕ → Option ℕ
shift n = Option.map (λ r. n + r)

shift-shift : (m n : ℕ) (o : Option ℕ) → shift m (shift n o) ≡ shift (m + n) o
shift-shift m n none = refl
shift-shift m n (some r) = ap some (omega arith)

shift-zero : (o : Option ℕ) → shift 0 o ≡ o
shift-zero none = refl
shift-zero (some r) = ap some (omega arith)

abbrev or_find : Option ℕ → ℕ → Option ℕ → Option ℕ
or_find none n o = shift n o
or_find (some r) n o = some r

or_find-suc :
    (o p : Option ℕ) (n : ℕ) → Option.map suc (or_find o n p) ≡ or_find (Option.map suc o) (suc n) p
or_find-suc (some r) p n = refl
or_find-suc none none n = refl
or_find-suc none (some r) n = ap some (omega arith)

find_in-append :
    (b : ℕ) (xs ys : Bytes)
    → find_in b (xs ++ ys) ≡ or_find (find_in b xs) (length xs) (find_in b ys)
unfolding find_in
find_in-append b [] ys = sym (shift-zero (find_in b ys))
find_in-append b (x ∷ xs) ys = elim (Bool-cases (x == b)) [
  | inl e ↦ rw e refl
  | inr e ↦ rw (e, find_in-append b xs ys) (or_find-suc (find_in b xs) (find_in b ys) (length xs))
]

-- A chunk and what follows it.
at_chunk :
    (value : Bytes) (offset n : ℕ)
    → take n (drop offset value) ++ drop (offset + n) value ≡ drop offset value
at_chunk value offset n =
    ap (λ t. take n (drop offset value) ++ t) (sym (drop-drop n offset value))
    ∙ take-append-drop n (drop offset value)

length-chunk :
    (value : Bytes) (offset : ℕ)
    → length (take (chunk_size value offset) (drop offset value)) ≡ chunk_size value offset
length-chunk value offset =
    length-take (chunk_size value offset) (drop offset value)
    ∙ omega (arith, length-drop offset value)

in_chunk :
    (fuel : ℕ) (value : Bytes) (b offset : ℕ)
    → (let end = offset + chunk_size value offset in
        find_chunks fuel value b end ≡ shift end (find_in b (drop end value)))
    → elim (find_in b (take (chunk_size value offset) (drop offset value))) [
      | some relative ↦ some (offset + relative)
      | none ↦ find_chunks fuel value b (offset + chunk_size value offset)
    ]
      ≡ shift offset (find_in b (drop offset value))
in_chunk fuel value b offset ih =
    let n = chunk_size value offset in
    let whole =
      ap (find_in b) (sym (at_chunk value offset n))
      ∙ find_in-append b (take n (drop offset value)) (drop (offset + n) value) in
    elim (Option-cases (find_in b (take n (drop offset value)))) [
      | inr (r, e) ↦ rw (e, whole, e)
      | inl e ↦
          rw (e, whole, e, ih, length-chunk value offset)
            (sym (shift-shift offset n (find_in b (drop (offset + n) value))))
    ]

find_chunks_lem :
    (fuel : ℕ) (value : Bytes) (b offset : ℕ)
    → length value - offset ≤ fuel
    → find_chunks fuel value b offset ≡ shift offset (find_in b (drop offset value))
unfolding find_chunks find_in
find_chunks_lem zero value b offset h = rw (drop-ge offset value (omega arith))
find_chunks_lem (suc fuel) value b offset h = elim (Bool-cases (ltb offset (length value))) [
  | inr e ↦ rw (e, find_chunks, drop-ge offset value (ground arith))
  | inl e ↦
      let lt = ltb→lt offset (length value) e in
      rw (e, find_chunks)
        (in_chunk fuel value b offset
          (find_chunks_lem fuel value b (offset + chunk_size value offset) (omega arith)))
]

-- The search in chunks of 64 KiB finds what one search over the whole rest finds: a byte on the
-- border of two chunks is neither missed nor found twice.
pub find_byte_lem :
    (value : Bytes) (b start : ℕ)
    → find_byte value b start ≡ shift start (find_in b (drop start value))
unfolding find_byte find_in
find_byte_lem value b start = elim (Bool-cases (leb (length value) start)) [
  | inl e ↦ rw (e, drop-ge start value (leb→le (length value) start e))
  | inr e ↦ elim (Bool-cases (leb (length value - start) interval)) [
    | inl f ↦ rw (e, f)
    | inr f ↦ rw (e, f) (find_chunks_lem (length value) value b start (omega arith))
  ]
]

copy_chunks_lem :
    (fuel : ℕ) (value : Bytes) (offset : ℕ) (result : Bytes)
    → length value - offset ≤ fuel
    → copy_chunks fuel value offset result ≡ result ++ drop offset value
unfolding copy_chunks
copy_chunks_lem zero value offset result h =
    rw (drop-ge offset value (omega arith)) (sym (append-nil result))
copy_chunks_lem (suc fuel) value offset result h = elim (Bool-cases (ltb offset (length value))) [
  | inr e ↦ rw (e, copy_chunks, drop-ge offset value (ground arith)) (sym (append-nil result))
  | inl e ↦
      let n = chunk_size value offset in
      rw (e, copy_chunks)
        (copy_chunks_lem fuel value (offset + n) (result ++ take n (drop offset value))
            (omega (arith, ltb→lt offset (length value) e))
          ∙ append_assoc result (take n (drop offset value)) (drop (offset + n) value)
          ∙ ap (λ t. result ++ t) (at_chunk value offset n))
]

-- A copy or an append in chunks keeps every byte, once and in order.
pub copy_text_lem :
    (value destination : Bytes)
    → (copy_text value ≡ value) × (append_text destination value ≡ destination ++ value)
unfolding copy_text append_text
copy_text_lem value destination = elim (Bool-cases (leb (length value) interval)) [
  | inl e ↦ rw (e, copy_text, append_text) (refl, refl)
  | inr e ↦
      rw (e, copy_text, append_text)
        (
          copy_chunks_lem (length value) value 0 [] (omega arith),
          copy_chunks_lem (length value) value 0 destination (omega arith),
        )
]

pub trim_ascii_lem : (value : Bytes) → trim_ascii value ≡ trim_end (trim_start value)
unfolding trim_ascii
trim_ascii_lem value = elim (Bool-cases (leb (length value) interval)) [
  | inl e ↦ rw e
  | inr e ↦ rw e (copy_text_lem (trim_end (trim_start value)) []).0
]
