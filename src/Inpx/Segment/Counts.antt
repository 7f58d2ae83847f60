-- ===== src/Inpx/Segment/Counts.antt =====
-- libs/Inpx/InpxParser.cpp: the summary of a segment, against what the callbacks are given.
use librova_inpx_web.Common.{
  ℕ, suc, ◌+◌, ◌≡◌, refl, sym, ap, subst, ◌∙◌, Bool, true, false, List, [], ◌∷◌, ◌++◌, Outcome, ok,
  throw, >>=-eq-ok, ok_inj, arith, ltb, if◌then◌else◌, inl, inr, Bool-cases, Bytes, length,
  length-append, All, All-append,
}
use librova_inpx_web.Inpx.Text.{is_nil}
use librova_inpx_web.Inpx.Text.Splitting.{fields}
use librova_inpx_web.Inpx.Record.{Record, Message, read_record}
use librova_inpx_web.Inpx.Record.Shape.{IsRecord, read_record-IsRecord}
use librova_inpx_web.Inpx.Segment.{
  Warning, Result, Segment, max_line_bytes, emit_warning, on_record, on_skipped, on_line, note_line,
  strip_return, parse_line, parse_text, start_result,
}
use librova_inpx_web.Inpx.Segment.Lines.{each_line, parse_text_lem}

abbrev pub count {ℓ} : {A : Type ℓ} → (A → Bool) → List A → ℕ
count p [] = 0
count p (x ∷ xs) = let rest = count p xs in if p x then suc rest else rest

count-snoc {ℓ} :
    {A : Type ℓ} (p : A → Bool) (xs : List A) (x : A)
    → count p (xs ++ x ∷ []) ≡ (if p x then suc (count p xs) else count p xs)
count-snoc p [] x = refl
count-snoc p (y ∷ xs) x = elim (Bool-cases (p y)) [
  | inl e ↦ rw (e, count-snoc p xs x) (both_suc (p x) (count p xs))
  | inr e ↦ rw (e, count-snoc p xs x)
]
  where
    both_suc :
        (b : Bool) (n : ℕ) → suc (if b then suc n else n) ≡ (if b then suc (suc n) else suc n)
    both_suc true n = refl
    both_suc false n = refl

abbrev pub is_deleted : Record → Bool
is_deleted r = r.deleted

abbrev pub is_skip : Warning → Bool
is_skip w = w.record_skipped

-- The summary agrees with the records and the warnings, and every record is well formed.
pub record IsCounted (segment : Segment) (r : Result) : Type 0 where
  pub totalled :
      (r.summary).total_records ≡ (r.summary).parsed_records + (r.summary).skipped_records
  pub parsed : (r.summary).parsed_records ≡ length r.records
  pub deleted_counted : (r.summary).deleted_records ≡ count is_deleted r.records
  pub skipped : (r.summary).skipped_records ≡ count is_skip r.warnings
  pub warned : (r.summary).warning_count ≡ length r.warnings
  pub formed : All (IsRecord segment.archive_name segment.inp_entry_name) r.records

length-snoc {ℓ} : {A : Type ℓ} (xs : List A) (x : A) → length (xs ++ x ∷ []) ≡ suc (length xs)
length-snoc xs x = omega (arith, length-append xs (x ∷ []))

module _ (segment : Segment) where
  -- Between the count of a line and its record or its warning, the total is one ahead.
  skipped-IsCounted :
      (n : ℕ) (m : Message) (r : Result)
      → IsCounted segment r
      → IsCounted segment (on_skipped (emit_warning segment.inp_entry_name n m true (on_line r)))
  skipped-IsCounted n m r h = record {
    totalled = omega (arith, h.totalled);
    parsed = h.parsed;
    deleted_counted = h.deleted_counted;
    skipped = ap suc h.skipped ∙ sym (count-snoc is_skip r.warnings _);
    warned = ap suc h.warned ∙ sym (length-snoc r.warnings _);
    formed = h.formed;
  }

  recorded-IsCounted :
      (rec : Record) (r : Result)
      → IsRecord segment.archive_name segment.inp_entry_name rec
      → IsCounted segment r
      → IsCounted segment (on_record rec (on_line r))
  recorded-IsCounted rec r w h = record {
    totalled = omega (arith, h.totalled);
    parsed = ap suc h.parsed ∙ sym (length-snoc r.records rec);
    deleted_counted =
        ap (λ n. if rec.deleted then suc n else n) h.deleted_counted
        ∙ sym (count-snoc is_deleted r.records rec);
    skipped = h.skipped;
    warned = h.warned;
    formed =
        All-append (IsRecord segment.archive_name segment.inp_entry_name) r.records (rec ∷ [])
          h.formed (w, tt);
  }

  warned-IsCounted :
      (n : ℕ) (m : Message) (r : Result)
      → IsCounted segment r
      → IsCounted segment (emit_warning segment.inp_entry_name n m false r)
  warned-IsCounted n m r h = record {
    totalled = h.totalled;
    parsed = h.parsed;
    deleted_counted = h.deleted_counted;
    skipped = h.skipped ∙ sym (count-snoc is_skip r.warnings _);
    warned = ap suc h.warned ∙ sym (length-snoc r.warnings _);
    formed = h.formed;
  }

  note_line-IsCounted :
      (n : ℕ) (o : Outcome Message (Record × Bool)) (r : Result)
      → ((rec : Record) (ignored : Bool)
          → o ≡ ok (rec, ignored)
          → IsRecord segment.archive_name segment.inp_entry_name rec)
      → IsCounted segment r
      → IsCounted segment (note_line segment.inp_entry_name n o (on_line r))
  unfolding note_line
  note_line-IsCounted n (throw m) r w h = skipped-IsCounted n m r h
  note_line-IsCounted n (ok (rec, true)) r w h =
      recorded-IsCounted rec
        (emit_warning segment.inp_entry_name n Message.invalid_series_number false r)
        (w rec true refl) (warned-IsCounted n Message.invalid_series_number r h)
  note_line-IsCounted n (ok (rec, false)) r w h = recorded-IsCounted rec r (w rec false refl) h

  parse_line-IsCounted :
      (n : ℕ) (raw : Bytes) (r : Result) {r' : Result}
      → IsCounted segment r
      → parse_line segment n raw r ≡ ok r'
      → IsCounted segment r'
  unfolding parse_line
  parse_line-IsCounted n raw r h e = elim (Bool-cases (is_nil (strip_return raw))) [
    | inl f ↦ subst (IsCounted segment) (ok_inj (rw f at e)) h
    | inr f ↦ elim (Bool-cases (ltb max_line_bytes (length (strip_return raw)))) [
      | inl g ↦ absurd (cc (rw (f, g) at e))
      | inr g ↦ subst (IsCounted segment) (ok_inj (rw (f, g) at e)) (
          note_line-IsCounted n
            (read_record segment.archive_name segment.inp_entry_name (strip_return raw)) r
            (read_record-IsRecord segment.archive_name segment.inp_entry_name (strip_return raw)) h)
    ]
  ]

  each_line-IsCounted :
      (n : ℕ) (lines : List Bytes) (r : Result) {r' : Result}
      → IsCounted segment r
      → each_line segment n lines r ≡ ok r'
      → IsCounted segment r'
  unfolding each_line
  each_line-IsCounted n [] r h e = subst (IsCounted segment) (ok_inj e) h
  each_line-IsCounted n (line ∷ lines) r h e =
      let (r1, e1, e2) =
        >>=-eq-ok (parse_line segment (suc n) line r) (each_line segment (suc n) lines) e in
      each_line-IsCounted (suc n) lines r1 (parse_line-IsCounted (suc n) line r h e1) e2

  -- Where the text of a segment is parsed without an exception, the records in all are those
  -- parsed and those skipped, the counts of the summary are the numbers of records, of deleted
  -- records, of warnings and of warnings that skip a record, and every record is well formed.
  pub parse_text-IsCounted :
      (text : Bytes) (r : Result) → parse_text segment text ≡ ok r → IsCounted segment r
  parse_text-IsCounted text r e =
      each_line-IsCounted 0 (fields b'\n' text) start_result
        (record {
          totalled = refl;
          parsed = refl;
          deleted_counted = refl;
          skipped = refl;
          warned = refl;
          formed = tt;
        })
        (sym (parse_text_lem segment text) ∙ e)
