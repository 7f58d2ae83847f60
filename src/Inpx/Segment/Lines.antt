-- ===== src/Inpx/Segment/Lines.antt =====
-- libs/Inpx/InpxParser.cpp: the loop of `ParseSegment` against the lines of the text.
use librova_inpx_web.Common.{
  ℕ, zero, suc, ◌+◌, ◌-◌, ◌≤◌, ◌<◌, ◌≡◌, refl, sym, List, [], ◌∷◌, Option, none, some, Outcome, ok,
  throw, ◌>>=◌, arith, Bytes, length, take, drop, drop-drop, length-drop, le→leb,
}
use librova_inpx_web.Inpx.Text.{find_in}
use librova_inpx_web.Inpx.Text.Find.{shift, find_byte_lem}
use librova_inpx_web.Inpx.Text.Splitting.{fields, IsCutAt, fields-cut}
use librova_inpx_web.Inpx.Segment.{
  Segment, Result, ParseError, parse_line, parse_lines, parse_text, start_result,
}

-- The lines one after another, the first with the number behind `line_number`.
unfoldable pub each_line : Segment → ℕ → List Bytes → Result → Outcome ParseError Result
each_line segment line_number [] r = ok r
each_line segment line_number (line ∷ lines) r =
    parse_line segment (suc line_number) line r >>= each_line segment (suc line_number) lines

>>=-ok : (m : Outcome ParseError Result) → (m >>= λ r. ok r) ≡ m
>>=-ok (ok r) = refl
>>=-ok (throw e) = refl

>>=-agree :
    (m : Outcome ParseError Result) (f g : Result → Outcome ParseError Result)
    → ((r : Result) → f r ≡ g r)
    → (m >>= f) ≡ (m >>= g)
>>=-agree (ok r) f g h = h r
>>=-agree (throw e) f g h = refl

at_line :
    (fuel : ℕ) (segment : Segment) (text : Bytes) (n start : ℕ) (r : Result) (o : Option ℕ)
    → start ≤ length text
    → length text - start ≤ fuel
    → IsCutAt b'\n' (drop start text) o
    → ((start' : ℕ) (r' : Result)
        → start' ≤ length text
        → length text - start' < fuel
        → parse_lines fuel segment text (suc n) start' r'
          ≡ each_line segment (suc n) (fields b'\n' (drop start' text)) r')
    → elim (shift start o) [
      | none ↦ parse_line segment (suc n) (drop start text) r
      | some end ↦
          parse_line segment (suc n) (take (end - start) (drop start text)) r
          >>= parse_lines fuel segment text (suc n) (end + 1)
    ]
      ≡ each_line segment n (fields b'\n' (drop start text)) r
unfolding IsCutAt each_line
at_line fuel segment text n start r none le enough h rest =
    rw h (sym (>>=-ok (parse_line segment (suc n) (drop start text) r)))
at_line fuel segment text n start r (some i) le enough h rest =
    let e : start + i - start ≡ i = omega arith in
    let e' : start + i + 1 ≡ start + suc i = omega arith in
    rw (h.0, drop-drop (suc i) start text, e, e')
      (>>=-agree (parse_line segment (suc n) (take i (drop start text)) r)
        (parse_lines fuel segment text (suc n) (start + suc i))
        (each_line segment (suc n) (fields b'\n' (drop (start + suc i) text)))
        (λ r'.
          rest (start + suc i) r' (omega (arith, h.1, length-drop start text))
            (omega (arith, h.1, length-drop start text))))

parse_lines_lem :
    (fuel : ℕ) (segment : Segment) (text : Bytes) (n start : ℕ) (r : Result)
    → start ≤ length text
    → length text - start < fuel
    → parse_lines fuel segment text n start r
      ≡ each_line segment n (fields b'\n' (drop start text)) r
unfolding parse_lines
parse_lines_lem zero segment text n start r le enough = absurd (omega arith)
parse_lines_lem (suc fuel) segment text n start r le enough =
    rw (le→leb start (length text) le, parse_lines, find_byte_lem text b'\n' start)
      (at_line fuel segment text n start r (find_in b'\n' (drop start text)) le (omega arith)
        (fields-cut b'\n' (drop start text))
        (λ start' r'. parse_lines_lem fuel segment text (suc n) start' r'))

-- The loop of `ParseSegment`, which searches for line ends and stops by position, treats each
-- line of the text once, in order and with its number from 1, up to the first line that throws.
pub parse_text_lem :
    (segment : Segment) (text : Bytes)
    → parse_text segment text ≡ each_line segment 0 (fields b'\n' text) start_result
unfolding parse_text
parse_text_lem segment text =
    parse_lines_lem (suc (length text)) segment text 0 0 start_result (omega arith) (omega arith)
