-- ===== src/Scan/Plan/Totals.antt =====
-- libs/App/InpxScanJobService.cpp: the totals of the plans, and what of them the snapshot of the
-- job shows before a record is read.
use librova_inpx_web.Common.{
  ℕ, suc, ◌+◌, ◌-◌, ◌≤◌, ◌≡◌, refl, subst, ◌∙◌, Bool, true, false, List, [], ◌∷◌, Outcome, ok,
  throw, ◌>>=◌, >>=-eq-ok, ok_inj, ltb, if◌then◌else◌, length, arith, Bool-cases, inl, inr,
}
use librova_inpx_web.Scan.Budget.{percent}
use librova_inpx_web.Scan.Plan.{
  SegmentChange, unchanged, added, changed, removed, Plan, PlanError, too_many_records,
}

-- The counters of `SInpxScanJobSnapshot` that the planning sets.
pub record Progress : Type 0 where
  pub total_records : ℕ
  pub scanned_records : ℕ
  pub reused_records : ℕ
  pub segments_total : ℕ
  pub segments_unchanged : ℕ
  pub segments_added : ℕ
  pub segments_changed : ℕ
  pub segments_removed : ℕ
  pub archives_skipped : ℕ
  pub archives_opened : ℕ
  pub percent_done : ℕ

abbrev pub no_progress : Progress
no_progress = record {
  total_records = 0;
  scanned_records = 0;
  reused_records = 0;
  segments_total = 0;
  segments_unchanged = 0;
  segments_added = 0;
  segments_changed = 0;
  segments_removed = 0;
  archives_skipped = 0;
  archives_opened = 0;
  percent_done = 0;
}

abbrev pub records_of : Plan → ℕ
records_of p = (p.summary).total_records

-- The loop that adds up `totalRecords`.
abbrev pub add_total : ℕ → SegmentChange → ℕ → ℕ → Outcome PlanError ℕ
add_total max removed n total = ok total
add_total max _ n total = if ltb (max - total) n then throw too_many_records else ok (total + n)

unfoldable pub total_of : ℕ → List Plan → ℕ → Outcome PlanError ℕ
total_of max [] total = ok total
total_of max (p ∷ ps) total = add_total max p.change (records_of p) total >>= total_of max ps

-- The body of the loop over the plans in `PublishSnapshot`.
abbrev pub note_opened : Bool → Progress → Progress
note_opened opened s = if opened then record s { archives_opened = suc s.archives_opened } else s

abbrev pub note_change : SegmentChange → Bool → ℕ → Progress → Progress
note_change unchanged needs_archive n s = record s {
  segments_unchanged = suc s.segments_unchanged;
  archives_skipped = if needs_archive then suc s.archives_skipped else s.archives_skipped;
  scanned_records = s.scanned_records + n;
  reused_records = s.reused_records + n;
}
note_change added needs_archive n s = record s { segments_added = suc s.segments_added }
note_change changed needs_archive n s = record s { segments_changed = suc s.segments_changed }
note_change removed needs_archive n s = record s { segments_removed = suc s.segments_removed }

unfoldable pub note_plans : List Plan → Progress → Progress
note_plans [] s = s
note_plans (p ∷ ps) s =
    note_plans ps
      (note_change p.change p.requires_archive (records_of p) (note_opened p.archive_opened s))

-- The snapshot that the planning publishes.
unfoldable pub plan_progress : ℕ → List Plan → Outcome PlanError Progress
unfolding total_of note_plans
plan_progress max plans = total_of max plans 0 >>= λ total.
    let s =
      note_plans plans
        (record no_progress { total_records = total; segments_total = length plans }) in
    ok (record s { percent_done = percent s.scanned_records s.total_records })

-- The records that are taken over, and those that are still to be read.
abbrev pub taken_over_of : SegmentChange → ℕ → ℕ
taken_over_of unchanged n = n
taken_over_of _ n = 0

abbrev pub unread_of : SegmentChange → ℕ → ℕ
unread_of added n = n
unread_of changed n = n
unread_of _ n = 0

unfoldable pub taken_over : List Plan → ℕ
taken_over [] = 0
taken_over (p ∷ ps) = taken_over_of p.change (records_of p) + taken_over ps

unfoldable pub unread : List Plan → ℕ
unread [] = 0
unread (p ∷ ps) = unread_of p.change (records_of p) + unread ps

add_total_lem :
    (max : ℕ) (c : SegmentChange) (n total : ℕ) {m : ℕ}
    → total ≤ max
    → add_total max c n total ≡ ok m
    → (m ≡ total + taken_over_of c n + unread_of c n) × (m ≤ max)
add_total_lem max removed n total h x = let e = ok_inj x in (omega (arith, e), omega (arith, e))
add_total_lem max unchanged n total h x = elim (Bool-cases (ltb (max - total) n)) [
  | inl t ↦ absurd (cc (rw t at x))
  | inr t ↦ let e = ok_inj (rw t at x) in (omega (arith, e), ground arith)
]
add_total_lem max added n total h x = elim (Bool-cases (ltb (max - total) n)) [
  | inl t ↦ absurd (cc (rw t at x))
  | inr t ↦ let e = ok_inj (rw t at x) in (omega (arith, e), ground arith)
]
add_total_lem max changed n total h x = elim (Bool-cases (ltb (max - total) n)) [
  | inl t ↦ absurd (cc (rw t at x))
  | inr t ↦ let e = ok_inj (rw t at x) in (omega (arith, e), ground arith)
]

total_of_lem :
    (max : ℕ) (plans : List Plan) (total : ℕ) {m : ℕ}
    → total ≤ max
    → total_of max plans total ≡ ok m
    → (m ≡ total + taken_over plans + unread plans) × (m ≤ max)
unfolding total_of taken_over unread
total_of_lem max [] total h x = let e = ok_inj x in (omega (arith, e), omega (arith, e))
total_of_lem max (p ∷ ps) total h x =
    let (n, y, z) = >>=-eq-ok (add_total max p.change (records_of p) total) (total_of max ps) x in
    let (a, b) = add_total_lem max p.change (records_of p) total h y in
    let (c, d) = total_of_lem max ps n b z in (omega (arith, a, c), d)

-- How the counters move over some plans.
record Moves (n taken : ℕ) (s s' : Progress) : Type 0 where
  segments :
      s'.segments_unchanged + s'.segments_added + s'.segments_changed + s'.segments_removed
      ≡ s.segments_unchanged + s.segments_added + s.segments_changed + s.segments_removed + n
  scanned : s'.scanned_records ≡ s.scanned_records + taken
  reused : s'.reused_records ≡ s.reused_records + taken
  skipped : s'.archives_skipped + s.segments_unchanged ≤ s'.segments_unchanged + s.archives_skipped
  total : s'.total_records ≡ s.total_records
  in_all : s'.segments_total ≡ s.segments_total

note_opened-Moves : (b : Bool) (s : Progress) → Moves 0 0 s (note_opened b s)
note_opened-Moves true s = record {
  segments = omega arith;
  scanned = omega arith;
  reused = omega arith;
  skipped = omega arith;
  total = refl;
  in_all = refl;
}
note_opened-Moves false s = record {
  segments = omega arith;
  scanned = omega arith;
  reused = omega arith;
  skipped = omega arith;
  total = refl;
  in_all = refl;
}

note_change-Moves :
    (c : SegmentChange) (b : Bool) (n : ℕ) (s : Progress)
    → Moves 1 (taken_over_of c n) s (note_change c b n s)
note_change-Moves unchanged true n s = record {
  segments = omega arith;
  scanned = omega arith;
  reused = omega arith;
  skipped = omega arith;
  total = refl;
  in_all = refl;
}
note_change-Moves unchanged false n s = record {
  segments = omega arith;
  scanned = omega arith;
  reused = omega arith;
  skipped = omega arith;
  total = refl;
  in_all = refl;
}
note_change-Moves added b n s = record {
  segments = omega arith;
  scanned = omega arith;
  reused = omega arith;
  skipped = omega arith;
  total = refl;
  in_all = refl;
}
note_change-Moves changed b n s = record {
  segments = omega arith;
  scanned = omega arith;
  reused = omega arith;
  skipped = omega arith;
  total = refl;
  in_all = refl;
}
note_change-Moves removed b n s = record {
  segments = omega arith;
  scanned = omega arith;
  reused = omega arith;
  skipped = omega arith;
  total = refl;
  in_all = refl;
}

Moves-trans :
    (n m a b : ℕ) {s t u : Progress} → Moves n a s t → Moves m b t u → Moves (n + m) (a + b) s u
Moves-trans n m a b h k = record {
  segments = omega (arith, h.segments, k.segments);
  scanned = omega (arith, h.scanned, k.scanned);
  reused = omega (arith, h.reused, k.reused);
  skipped = omega (arith, h.skipped, k.skipped);
  total = k.total ∙ h.total;
  in_all = k.in_all ∙ h.in_all;
}

note_plans-Moves :
    (plans : List Plan) (s : Progress)
    → Moves (length plans) (taken_over plans) s (note_plans plans s)
unfolding note_plans taken_over
note_plans-Moves [] s = note_opened-Moves false s
note_plans-Moves (p ∷ ps) s =
    let t = note_opened p.archive_opened s in
    let n = taken_over_of p.change (records_of p) in
    let k =
      Moves-trans (0 + 1) (length ps) (0 + n) (taken_over ps)
        (Moves-trans 0 1 0 n (note_opened-Moves p.archive_opened s)
          (note_change-Moves p.change p.requires_archive (records_of p) t))
        (note_plans-Moves ps (note_change p.change p.requires_archive (records_of p) t)) in
    record {
      segments = omega (arith, k.segments);
      scanned = omega (arith, k.scanned);
      reused = omega (arith, k.reused);
      skipped = k.skipped;
      total = k.total;
      in_all = k.in_all;
    }

-- Where the totals do not exceed the limit on records, the snapshot that is published before a record
-- is read is sound: each segment is counted under one of the four changes, the records counted as
-- scanned are those that are taken over, with those that are still to be read they are all records,
-- which are within the limit, no more archives are skipped than segments are unchanged, and the
-- percentage is below 100.
pub plan_progress_lem :
    (max : ℕ) (plans : List Plan) {s : Progress}
    → plan_progress max plans ≡ ok s
    → (s.segments_unchanged + s.segments_added + s.segments_changed + s.segments_removed
        ≡ s.segments_total)
      × (s.segments_total ≡ length plans)
      × (s.reused_records ≡ s.scanned_records)
      × (s.scanned_records + unread plans ≡ s.total_records)
      × (s.total_records ≤ max)
      × (s.archives_skipped ≤ s.segments_unchanged)
      × (s.percent_done ≤ 99)
unfolding plan_progress percent
plan_progress_lem max plans {s} x =
    let (total, y, z) = >>=-eq-ok (total_of max plans 0) _ x in
    let (a, b) = total_of_lem max plans 0 (omega arith) y in
    let start : Progress = record no_progress {
      total_records = total;
      segments_total = length plans;
    } in
    let k = note_plans-Moves plans start in
    subst
      (λ (t : Progress).
        (t.segments_unchanged + t.segments_added + t.segments_changed + t.segments_removed
          ≡ t.segments_total)
        × (t.segments_total ≡ length plans)
        × (t.reused_records ≡ t.scanned_records)
        × (t.scanned_records + unread plans ≡ t.total_records)
        × (t.total_records ≤ max)
        × (t.archives_skipped ≤ t.segments_unchanged)
        × (t.percent_done ≤ 99))
      (ok_inj z)
      (
        omega (arith, k.segments, k.in_all),
        k.in_all,
        omega (arith, k.scanned, k.reused),
        omega (arith, k.scanned, k.total, a),
        omega (arith, k.total, b),
        omega (arith, k.skipped),
        ground arith,
      )
