-- ===== src/Scan/Complete.antt =====
-- libs/App/InpxScanJobService.cpp: what the planning counts, and what the execution behind it does.
use librova_inpx_web.Common.{
  ◌<◌, ◌≡◌, refl, ap, sym, subst, ◌∙◌, false, List, [], ◌∷◌, ◌++◌, Option, ok, arith, length, All,
  All-append, Bool-cases, inl, inr, if◌then◌else◌,
}
use librova_inpx_web.Unicode.Legacy.{Converter}
use librova_inpx_web.Inpx.Segment.{Warning}
use librova_inpx_web.Inpx.Segment.Counts.{count, is_skip}
use librova_inpx_web.Inpx.Segment.Total.{parse_segment-IsCounted}
use librova_inpx_web.Scan.Budget.{PlanningLimits}
use librova_inpx_web.Scan.Plan.{
  ScanMode, SegmentChange, unchanged, added, changed, removed, Existing, Payload, Plan, Planner,
  find_existing, has_name,
}
use librova_inpx_web.Scan.Plan.Archives.{Disk}
use librova_inpx_web.Scan.Plan.Segments.{any_skipped, plan_all}
use librova_inpx_web.Scan.Plan.Segments.Rests.{IsParsed, Rests}
use librova_inpx_web.Scan.Plan.Segments.Aligned.{Aligned, removed_of, plan_all_lem}
use librova_inpx_web.Scan.Plan.Totals.{
  Progress, records_of, plan_progress, unread, unread_of, plan_progress_lem,
}
use librova_inpx_web.Scan.Flight.{Flight, FlightLimits, Payloads, is_executed, execute}
use librova_inpx_web.Scan.Flight.Lists.{executed, record_count, DistinctIds}
use librova_inpx_web.Scan.Flight.Written.{execute_lem}

count-is_skip : (ws : List Warning) → any_skipped ws ≡ false → count is_skip ws ≡ 0
unfolding any_skipped
count-is_skip [] h = refl
count-is_skip (w ∷ ws) h = elim (Bool-cases w.record_skipped) [
  | inl t ↦ absurd (cc (rw t at h))
  | inr t ↦ rw t (count-is_skip ws (rw t at h))
]

-- The records of a plan that is executed are as many as its summary says.
abbrev IsFull : Plan → Type 0
IsFull p =
    unread_of p.change (records_of p) ≡ (if is_executed p.change then length p.records else 0)

unread_lem : (plans : List Plan) → All IsFull plans → unread plans ≡ record_count (executed plans)
unfolding unread record_count
unread_lem [] h = refl
unread_lem (p ∷ ps) (here, there) = elim (Bool-cases (is_executed p.change)) [
  | inl t ↦ rw t (omega (arith, (rw t at here), unread_lem ps there))
  | inr t ↦ rw t (omega (arith, (rw t at here), unread_lem ps there))
]

module _ (iconv : Converter) (disk : Disk) (mode : ScanMode) (limits : PlanningLimits) where
  parsed-total :
      (payload : Payload) (p : Plan)
      → IsParsed iconv disk mode limits payload p
      → records_of p ≡ length p.records
  parsed-total payload p (r, parsed, whole, records, summary) =
      let h = parse_segment-IsCounted iconv payload.segment parsed in
      let none_skipped = count-is_skip r.warnings whole in
      ap (λ s. s.total_records) summary
      ∙ omega (arith, h.totalled, h.parsed, h.skipped, none_skipped)
      ∙ sym (ap length records)

  Rests-IsFull :
      (payload : Payload) (found : Option Existing) (p : Plan) (c : SegmentChange)
      → Rests iconv disk mode limits payload found p c
      → unread_of c (records_of p) ≡ (if is_executed c then length p.records else 0)
  Rests-IsFull payload found p unchanged rests = refl
  Rests-IsFull payload found p added (absent, parsed) = parsed-total payload p parsed
  Rests-IsFull payload found p changed (e, there, why, parsed) = parsed-total payload p parsed
  Rests-IsFull payload found p removed rests = absurd rests

  Aligned-IsFull :
      (existing : List Existing) (before : List Plan) (payloads : List Payload) (plans : List Plan)
      → Aligned iconv disk mode limits existing before payloads plans
      → All IsFull plans
  Aligned-IsFull existing before [] [] h = tt
  Aligned-IsFull existing before [] (p ∷ ps) h = absurd h
  Aligned-IsFull existing before (payload ∷ payloads) [] h = absurd h
  Aligned-IsFull existing before (payload ∷ payloads) (p ∷ ps) (l, once, rests, h) = (
    Rests-IsFull payload (find_existing (payload.segment).inp_entry_name existing) p p.change rests,
    Aligned-IsFull existing (before ++ p ∷ []) payloads ps h,
  )

  removed-IsFull :
      (current : List Plan) (es : List Existing)
      → All IsFull (removed_of iconv disk mode limits current es)
  removed-IsFull current [] = tt
  removed-IsFull current (e ∷ es) = elim (Bool-cases (has_name e.inp_entry_name current)) [
    | inl t ↦ rw t (removed-IsFull current es)
    | inr t ↦ rw t (refl, removed-IsFull current es)
  ]

  -- Where the planning and the execution of its plans return, the records that were taken over and
  -- those that were read are together all records that the planning had counted: a scan that
  -- succeeds ends with as many records scanned as there are in all.
  pub scanned_in_all :
      (existing : List Existing) (payloads : List Payload) (world : Payloads)
      (flight_limits : FlightLimits) (f : Flight) {s : Planner} {shown : Progress} {f' : Flight}
      → 0 < flight_limits.max_payloads
      → f.tasks ≡ []
      → f.written ≡ []
      → DistinctIds f.active_ids
      → plan_all iconv disk mode limits existing payloads ≡ ok s
      → plan_progress limits.max_records s.plans ≡ ok shown
      → f.scanned_records ≡ shown.scanned_records
      → execute world flight_limits s.plans f ≡ ok f'
      → f'.scanned_records ≡ shown.total_records
  scanned_in_all existing payloads world flight_limits f {s} some_room no_tasks nothing d x y same
        z =
      let (plans, e, aligned, filled) = plan_all_lem iconv disk mode limits existing payloads x in
      let full : All IsFull s.plans = subst (All IsFull) (sym e) (
        All-append IsFull plans (removed_of iconv disk mode limits plans existing)
          (Aligned-IsFull existing [] payloads plans aligned) (removed-IsFull plans existing)) in
      let planned = plan_progress_lem limits.max_records s.plans y in
      let done = execute_lem world flight_limits s.plans f some_room no_tasks nothing d z in
      omega (arith, done.4, planned.3, unread_lem s.plans full, same)
