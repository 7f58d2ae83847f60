-- ===== src/Inpx/Archive/Limit.antt =====
-- libs/Inpx/InpxParser.cpp: the limits that `ReadSegments` keeps to.
use librova_inpx_web.Common.{
  ℕ, suc, ◌+◌, ◌-◌, ◌≤◌, ◌≡◌, refl, sym, ap, subst, Bool, true, false, List, [], ◌∷◌, Option, none,
  some, ok, >>=-eq-ok, ok_inj, arith, ltb, leb, ◌==◌, if◌then◌else◌, leb→le, inl, inr, Bool-cases,
  Bytes, length, All,
}
use librova_inpx_web.Inpx.Text.{ends_with_insensitive}
use librova_inpx_web.Inpx.Segment.{Segment}
use librova_inpx_web.Inpx.Archive.{
  Entry, ArchiveError, inp_suffix, max_payload_bytes, or_fail, no_name, no_size, unreadable,
  entry_size, check_total, read_entry, read_from, read_segments,
}

abbrev pub total_bytes : List Segment → ℕ
total_bytes [] = 0
total_bytes (s ∷ ss) = length s.bytes + total_bytes ss

-- The entries that are segments; an entry with no name is none.
abbrev pub is_segment : Entry → Bool
is_segment entry = elim entry.name [
  | none ↦ false
  | some name ↦ ends_with_insensitive name inp_suffix
]

abbrev pub count_segments : List Entry → ℕ
count_segments [] = 0
count_segments (e ∷ es) = let rest = count_segments es in if is_segment e then suc rest else rest

-- What reading promises: so many segments, each within its limit, all within theirs.
pub record IsWithin (limit total : ℕ) (entries : List Entry) (segments : List Segment)
    : Type 0 where
  pub counted : length segments ≡ count_segments entries
  pub small : All (λ (s : Segment). length s.bytes ≤ max_payload_bytes) segments
  pub limited : total + total_bytes segments ≤ limit

or_fail-ok {ℓ} :
    {A : Type ℓ} (e : ArchiveError) (o : Option A) {a : A} → or_fail e o ≡ ok a → o ≡ some a
or_fail-ok e none h = absurd (cc)
or_fail-ok e (some a) h = ap some (ok_inj h)

entry_size-ok : (entry : Entry) {size : ℕ} → entry_size entry ≡ ok size → size ≤ max_payload_bytes
unfolding entry_size
entry_size-ok entry {size} h =
    let (n, e, f) = >>=-eq-ok (or_fail no_size entry.size) _ h in
    elim (Bool-cases (leb n max_payload_bytes)) [
      | inl g ↦
          subst (λ (k : ℕ). k ≤ max_payload_bytes) (ok_inj (rw g at f))
            (leb→le n max_payload_bytes g)
      | inr g ↦ absurd (cc (rw g at f))
    ]

check_total-ok :
    (limit total size total' : ℕ)
    → check_total limit total size ≡ ok total'
    → total ≤ limit
    → (total' ≡ total + size) × (total' ≤ limit)
unfolding check_total
check_total-ok limit total size total' h le = elim (Bool-cases (ltb (limit - total) size)) [
  | inl g ↦ absurd (cc (rw g at h))
  | inr g ↦ let e = ok_inj (rw g at h) in (sym e, ground arith)
]

read_entry-ok :
    (entry : Entry) (size : ℕ) {bytes : Bytes}
    → read_entry entry size ≡ ok bytes
    → length bytes ≡ size
unfolding read_entry
read_entry-ok entry size h =
    let (bytes, e, f) = >>=-eq-ok (or_fail unreadable entry.content) _ h in
    elim (Bool-cases (length bytes == size)) [
      | inl g ↦ subst (λ (b : Bytes). length b ≡ size) (ok_inj (rw g at f)) (ground arith)
      | inr g ↦ absurd (cc (rw g at f))
    ]

count-segment :
    (entry : Entry) (entries : List Entry) {name : Bytes}
    → entry.name ≡ some name
    → ends_with_insensitive name inp_suffix ≡ true
    → count_segments (entry ∷ entries) ≡ suc (count_segments entries)
count-segment entry entries named g = rw (named, g)

count-other :
    (entry : Entry) (entries : List Entry) {name : Bytes}
    → entry.name ≡ some name
    → ends_with_insensitive name inp_suffix ≡ false
    → count_segments (entry ∷ entries) ≡ count_segments entries
count-other entry entries named g = rw (named, g)

module _ (limit : ℕ) where
  read_from-IsWithin :
      (entries : List Entry) (total : ℕ) (segments : List Segment)
      → total ≤ limit
      → read_from limit total entries ≡ ok segments
      → IsWithin limit total entries segments
  unfolding read_from
  read_from-IsWithin [] total segments le h =
      subst (IsWithin limit total []) (ok_inj h)
        (record { counted = refl; small = tt; limited = omega arith })
  read_from-IsWithin (entry ∷ entries) total segments le h =
      let (name, e, f) = >>=-eq-ok (or_fail no_name entry.name) _ h in
      let named = or_fail-ok no_name entry.name e in
      elim (Bool-cases (ends_with_insensitive name inp_suffix)) [
        | inl g ↦
            let (size, e1, h1) = >>=-eq-ok (entry_size entry) _ (rw g at f) in
            let (total', e2, h2) = >>=-eq-ok (check_total limit total size) _ h1 in
            let (bytes, e3, h3) = >>=-eq-ok (read_entry entry size) _ h2 in
            let (rest, e4, h4) = >>=-eq-ok (read_from limit total' entries) _ h3 in
            let (t, le') = check_total-ok limit total size total' e2 le in
            let w = read_from-IsWithin entries total' rest le' e4 in
            subst (IsWithin limit total (entry ∷ entries)) (ok_inj h4) (record {
              counted = omega (arith, w.counted, count-segment entry entries named g);
              small = (omega (arith, entry_size-ok entry e1, read_entry-ok entry size e3), w.small);
              limited = omega (arith, w.limited, read_entry-ok entry size e3, t);
            })
        | inr g ↦
            let w = read_from-IsWithin entries total segments le (rw g at f) in
            record {
              counted = omega (arith, w.counted, count-other entry entries named g);
              small = w.small;
              limited = w.limited;
            }
      ]

  -- Where an archive is read, it gives a segment for each of its `.inp` entries, none above
  -- 128 MiB, and all together within the limit that the caller set.
  pub read_segments-IsWithin :
      (entries : List Entry) (segments : List Segment)
      → read_segments limit entries ≡ ok segments
      → IsWithin limit 0 entries segments
  unfolding read_segments
  read_segments-IsWithin entries segments h = read_from-IsWithin entries 0 segments (omega arith) h
