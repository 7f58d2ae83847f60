-- ===== src/Inpx/Segment/Total.antt =====
-- libs/Inpx/InpxParser.cpp: when `ParseSegment` and `ParseAll` give a result.
use librova_inpx_web.Common.{
  ℕ, suc, ◌+◌, ◌≤◌, ◌≡◌, refl, sym, ap, subst, ◌∙◌, ◌↔◌, true, List, [], ◌∷◌, Outcome, ok, ◌>>=◌,
  >>=-eq-ok, ok_inj, arith, ltb, ltb-false, inl, inr, Bool-cases, Bytes, length, length-append, All,
}
use librova_inpx_web.Unicode.Legacy.{Converter}
use librova_inpx_web.Inpx.Text.{is_nil}
use librova_inpx_web.Inpx.Text.Splitting.{fields}
use librova_inpx_web.Inpx.Segment.{
  Result, Segment, ParseError, max_line_bytes, strip_return, parse_line, parse_text, start_result,
  decode_payload, parse_segment, parse_from, parse_all, no_segment, add_segment, or_undecodable,
}
use librova_inpx_web.Inpx.Segment.Lines.{each_line, parse_text_lem}
use librova_inpx_web.Inpx.Segment.Counts.{IsCounted, parse_text-IsCounted}

-- Without its carriage return.
abbrev pub IsShort : Bytes → Type 0
IsShort line = length (strip_return line) ≤ max_line_bytes

Parses : Outcome ParseError Result → Type 0
Parses o = (r : Result) × (o ≡ ok r)

parse_line-ok :
    (segment : Segment) (n : ℕ) (raw : Bytes) (r : Result)
    → IsShort raw
    → Parses (parse_line segment n raw r)
unfolding Parses parse_line
parse_line-ok segment n raw r h = elim (Bool-cases (is_nil (strip_return raw))) [
  | inl e ↦ rw e (r, refl)
  | inr e ↦ rw (e, ltb-false max_line_bytes (length (strip_return raw)) h) (_, refl)
]

parse_line-IsShort :
    (segment : Segment) (n : ℕ) (raw : Bytes) (r : Result)
    → Parses (parse_line segment n raw r)
    → IsShort raw
unfolding Parses parse_line
parse_line-IsShort segment n raw r (r', h) = elim (Bool-cases (is_nil (strip_return raw))) [
  | inl e ↦ empty_short (strip_return raw) e
  | inr e ↦ elim (Bool-cases (ltb max_line_bytes (length (strip_return raw)))) [
    | inl g ↦ absurd (cc (rw (e, g) at h))
    | inr g ↦ ground arith
  ]
]
  where
    empty_short : (s : Bytes) → is_nil s ≡ true → length s ≤ max_line_bytes
    empty_short [] e = omega arith
    empty_short (b ∷ bs) e = absurd (cc)

each_line-ok :
    (segment : Segment) (n : ℕ) (lines : List Bytes) (r : Result)
    → All IsShort lines
    → Parses (each_line segment n lines r)
unfolding Parses each_line
each_line-ok segment n [] r h = (r, refl)
each_line-ok segment n (line ∷ lines) r h =
    let (r1, e1) = parse_line-ok segment (suc n) line r h.0 in
    let (r2, e2) = each_line-ok segment (suc n) lines r1 h.1 in
    (r2, ap (λ m. m >>= each_line segment (suc n) lines) e1 ∙ e2)

each_line-IsShort :
    (segment : Segment) (n : ℕ) (lines : List Bytes) (r : Result)
    → Parses (each_line segment n lines r)
    → All IsShort lines
unfolding Parses each_line
each_line-IsShort segment n [] r h = tt
each_line-IsShort segment n (line ∷ lines) r (r', h) =
    let (r1, e1, e2) =
      >>=-eq-ok (parse_line segment (suc n) line r) (each_line segment (suc n) lines) h in
    (
      parse_line-IsShort segment (suc n) line r (r1, e1),
      each_line-IsShort segment (suc n) lines r1 (r', e2),
    )

-- The text of a segment is parsed to its end exactly where each of its lines, without its
-- carriage return, keeps to 1 MiB. A line that is no record does not stop it.
pub parse_text_iff :
    (segment : Segment) (text : Bytes)
    → ((r : Result) × (parse_text segment text ≡ ok r)) ↔ All IsShort (fields b'\n' text)
unfolding Parses
parse_text_iff segment text =
    let e = parse_text_lem segment text in
    (
      (λ (r, h). each_line-IsShort segment 0 (fields b'\n' text) start_result (r, sym e ∙ h)),
      λ h. let (r, g) = each_line-ok segment 0 (fields b'\n' text) start_result h in (r, e ∙ g),
    )

-- The counts that add up over segments.
pub record IsSummed (r : Result) : Type 0 where
  pub totalled :
      (r.summary).total_records ≡ (r.summary).parsed_records + (r.summary).skipped_records
  pub parsed : (r.summary).parsed_records ≡ length r.records
  pub warned : (r.summary).warning_count ≡ length r.warnings

add_segment-IsSummed :
    (iconv : Converter) (segment : Segment) (all r : Result)
    → IsSummed all
    → IsCounted segment r
    → IsSummed (add_segment iconv all r)
add_segment-IsSummed iconv segment all r h g = record {
  totalled = omega (arith, h.totalled, g.totalled);
  parsed = omega (arith, h.parsed, g.parsed, length-append all.records r.records);
  warned = omega (arith, h.warned, g.warned, length-append all.warnings r.warnings);
}

pub parse_segment-IsCounted :
    (iconv : Converter) (segment : Segment) {r : Result}
    → parse_segment iconv segment ≡ ok r
    → IsCounted segment r
unfolding parse_segment
parse_segment-IsCounted iconv segment {r} e =
    let (text, e1, e2) =
      >>=-eq-ok (or_undecodable (decode_payload iconv segment.bytes)) (parse_text segment) e in
    parse_text-IsCounted segment text r e2

parse_from-IsSummed :
    (iconv : Converter) (all : Result) (segments : List Segment) (r : Result)
    → IsSummed all
    → parse_from iconv all segments ≡ ok r
    → IsSummed r × ((r.summary).inp_entry_count ≡ (all.summary).inp_entry_count + length segments)
unfolding parse_from
parse_from-IsSummed iconv all [] r h e =
    subst
      (λ (x : Result).
        IsSummed x × ((x.summary).inp_entry_count ≡ (all.summary).inp_entry_count + 0))
      (ok_inj e) (h, omega arith)
parse_from-IsSummed iconv all (segment ∷ segments) r h e =
    let (one, e1, e2) =
      >>=-eq-ok (parse_segment iconv segment)
        (λ (x : Result). parse_from iconv (add_segment iconv all x) segments) e in
    let counted = parse_segment-IsCounted iconv segment e1 in
    let (summed, n) =
      parse_from-IsSummed iconv (add_segment iconv all one) segments r
        (add_segment-IsSummed iconv segment all one h counted) e2 in
    (summed, omega (arith, n))

-- Where a whole catalog is parsed, each of its segments was counted, the records in all are
-- those parsed and those skipped, and the records and warnings kept are as many as counted.
pub parse_all-IsSummed :
    (iconv : Converter) (segments : List Segment) (r : Result)
    → parse_all iconv segments ≡ ok r
    → IsSummed r × ((r.summary).inp_entry_count ≡ length segments)
unfolding parse_all
parse_all-IsSummed iconv segments r e =
    let (summed, n) =
      parse_from-IsSummed iconv (no_segment iconv) segments r
        (record { totalled = refl; parsed = refl; warned = refl }) e in
    (summed, omega (arith, n))
