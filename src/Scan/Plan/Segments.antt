-- ===== src/Scan/Plan/Segments.antt =====
-- libs/App/InpxScanJobService.cpp: the plan of one segment, of all segments, and what of it is
-- shown in the snapshot of the job.
pub mod Rests
pub mod Aligned
use librova_inpx_web.Common.{
  ℕ, zero, suc, ◌+◌, ◌-◌, Bool, true, false, not, ◌&&◌, ◌||◌, List, [], ◌∷◌, ◌++◌, Option, none,
  some, Outcome, ok, throw, ◌>>=◌, ltb, ◌==◌, if◌then◌else◌, Bytes, codes, bytes_eq, length, take,
}
use librova_inpx_web.Unicode.Legacy.{Converter}
use librova_inpx_web.Inpx.Text.{to_lower_ascii}
use librova_inpx_web.Inpx.Record.{Record}
use librova_inpx_web.Inpx.Segment.{Segment, Warning, Summary, Result, ParseError, parse_segment}
use librova_inpx_web.Scan.Budget.{PlanningLimits, percent}
use librova_inpx_web.Scan.Plan.{
  ScanMode, initial_scan, rescan, SegmentChange, unchanged, added, changed, removed, FileState,
  same_state, Payload, Existing, Plan, Guard, Planner, PlanError, too_many_segments, duplicate_name,
  guard_missing, invalid_record, too_many_records, no_segments, unparsed, find_existing, has_name,
}
use librova_inpx_web.Scan.Plan.Archives.{
  Disk, read_archive_state, read_archive_manifest, validate_archive_payloads,
}

-- `GMaxRetainedPlanningWarnings`.
abbrev pub max_retained_warnings : ℕ
max_retained_warnings = 1000

abbrev pub is_fb2 : Record → Bool
is_fb2 r = not r.deleted && bytes_eq (to_lower_ascii r.file_extension) (codes "fb2")

unfoldable pub any_fb2 : List Record → Bool
any_fb2 [] = false
any_fb2 (r ∷ rs) = is_fb2 r || any_fb2 rs

unfoldable pub any_skipped : List Warning → Bool
any_skipped [] = false
any_skipped (w ∷ ws) = w.record_skipped || any_skipped ws

unfoldable pub contains : Bytes → List Bytes → Bool
contains x [] = false
contains x (y ∷ ys) = bytes_eq y x || contains x ys

-- `InsertOwnedString(plan.DeletedLibIds, ...)` for each deleted record.
unfoldable pub deleted_ids : List Record → List Bytes
unfolding contains
deleted_ids [] = []
deleted_ids (r ∷ rs) =
    let rest = deleted_ids rs in
    if r.deleted && not (contains r.lib_id rest) then r.lib_id ∷ rest else rest

abbrev or_unparsed : Outcome ParseError Result → Outcome PlanError Result
or_unparsed (ok r) = ok r
or_unparsed (throw e) = throw (unparsed e)

-- A plan behind the parse of its segment, with the counters.
abbrev pub parsed_plan : Plan → Result → List Warning → Plan
parsed_plan p r warnings = record p {
  summary = r.summary;
  records = r.records;
  warnings = warnings;
  deleted_lib_ids = deleted_ids r.records;
  requires_archive = p.requires_archive || any_fb2 r.records;
}

abbrev pub fresh_plan : Payload → ℕ → Option Existing → Plan
fresh_plan payload order found = record {
  change = added;
  inp_entry_name = (payload.segment).inp_entry_name;
  archive_name = (payload.segment).archive_name;
  fingerprint = payload.fingerprint;
  summary = record {
    inp_entry_count = 0;
    total_records = 0;
    parsed_records = 0;
    skipped_records = 0;
    deleted_records = 0;
    warning_count = 0;
  };
  records = [];
  warnings = [];
  deleted_lib_ids = [];
  segment_order = order;
  requires_archive = false;
  resolved_archive_path = [];
  archive_file_state = record { file_size_bytes = 0; mtime_ticks = 0 };
  archive_manifest_fingerprint = [];
  existing_id = elim found [ none ↦ none | some e ↦ some e.id ];
  archive_opened = false;
}

abbrev pub is_rescan : ScanMode → Bool
is_rescan rescan = true
is_rescan initial_scan = false

-- `canReuseExisting` where there is an existing segment.
abbrev pub can_reuse : ScanMode → Payload → Existing → Bool
can_reuse mode payload e =
    is_rescan mode && (bytes_eq e.inp_fingerprint payload.fingerprint && e.is_available)

abbrev pub reused : Existing → Plan → Plan
reused e p = record p { change = unchanged; summary = e.summary }

module _ (iconv : Converter) (disk : Disk) (mode : ScanMode) (limits : PlanningLimits) where
  -- `parseSegment`. Which of the two refusals of records comes first depends on the lines.
  abbrev pub keep_parsed : Plan → Planner → Result → Outcome PlanError (Plan × Planner)
  keep_parsed p s r =
      let warnings = take (max_retained_warnings - s.retained_warning_count) r.warnings in
      if any_skipped r.warnings
      then throw invalid_record
      else if ltb limits.max_records (s.planned_record_count + length r.records)
      then throw too_many_records
      else ok (
        parsed_plan p r warnings,
        record s {
          planned_record_count = s.planned_record_count + length r.records;
          retained_warning_count = s.retained_warning_count + length warnings;
        },
      )

  unfoldable pub parse_planned : Payload → Plan → Planner → Outcome PlanError (Plan × Planner)
  unfolding any_skipped any_fb2 deleted_ids
  parse_planned payload p s = or_unparsed (parse_segment iconv payload.segment) >>= keep_parsed p s

  -- The last branch: an added segment, or one that is read again.
  abbrev pub with_archive : Bool → Plan → Planner → Outcome PlanError (Plan × Planner)
  with_archive false p s = ok (p, s)
  with_archive true p s = read_archive_state disk limits.max_segments p s >>= λ a.
      read_archive_manifest disk limits.max_segments a.0 a.1

  unfoldable pub plan_anew :
      SegmentChange → Payload → Plan → Planner → Outcome PlanError (Plan × Planner)
  unfolding parse_planned
  plan_anew change payload p s = parse_planned payload (record p { change = change }) s >>= λ a.
      with_archive (a.0).requires_archive a.0 a.1

  abbrev pub has_path : Existing → Plan → Bool
  has_path e p = elim e.resolved_archive_path [
    | none ↦ false
    | some path ↦ bytes_eq path p.resolved_archive_path
  ]

  abbrev pub has_manifest : Existing → Plan → Bool
  has_manifest e p = elim e.archive_manifest_fingerprint [
    | none ↦ false
    | some m ↦ bytes_eq m p.archive_manifest_fingerprint
  ]

  abbrev pub is_cached : Existing → Bool
  is_cached e =
      elim e.resolved_archive_path [ none ↦ false | some path ↦ true ]
      && elim e.archive_manifest_fingerprint [ none ↦ false | some m ↦ true ]

  abbrev pub manifest_or_nil : Existing → Bytes
  manifest_or_nil e = elim e.archive_manifest_fingerprint [ none ↦ [] | some m ↦ m ]

  -- The archive has another size or time than at the last scan.
  unfoldable pub compare_manifest :
      Existing → Payload → Plan → Planner → Outcome PlanError (Plan × Planner)
  unfolding parse_planned
  compare_manifest e payload p s = read_archive_manifest disk limits.max_segments p s >>= λ a.
      if has_manifest e a.0
      then (validate_archive_payloads disk limits.max_segments a.0 a.1 >>= λ s'.
          ok (reused e a.0, s'))
      else parse_planned payload (record (a.0) { change = changed }) a.1

  abbrev pub compare_state :
      Existing → Payload → Plan → Planner → Outcome PlanError (Plan × Planner)
  compare_state e payload p s =
      if has_path e p && same_state e.archive_file_state p.archive_file_state
      then ok (record (reused e p) { archive_manifest_fingerprint = manifest_or_nil e }, s)
      else compare_manifest e payload p s

  abbrev pub reuse_if :
      Bool → Existing → Payload → Plan → Planner → Outcome PlanError (Plan × Planner)
  reuse_if false e payload p s = ok (reused e p, s)
  reuse_if true e payload p s =
      if not (is_cached e)
      then throw guard_missing
      else (read_archive_state disk limits.max_segments (record p { requires_archive = true }) s
          >>= λ a. compare_state e payload a.0 a.1)

  unfoldable pub plan_reused :
      Existing → Payload → Plan → Planner → Outcome PlanError (Plan × Planner)
  unfolding compare_manifest
  plan_reused e payload p s = reuse_if e.requires_archive e payload p s

  unfoldable pub plan_found :
      Payload → Plan → Planner → Option Existing → Outcome PlanError (Plan × Planner)
  unfolding plan_anew plan_reused
  plan_found payload p s none = plan_anew added payload p s
  plan_found payload p s (some e) =
      if can_reuse mode payload e then plan_reused e payload p s else plan_anew changed payload p s

  -- The callback of `ReadSegments`.
  unfoldable pub plan_segment : List Existing → Payload → Planner → Outcome PlanError Planner
  unfolding plan_found find_existing has_name
  plan_segment existing payload s =
      let name = (payload.segment).inp_entry_name in
      let found = find_existing name existing in
      if not (ltb (length s.plans) limits.max_segments)
      then throw too_many_segments
      else if has_name name s.plans
      then throw duplicate_name
      else plan_found payload (fresh_plan payload (length s.plans) found) s found >>= λ a.
          ok (record (a.1) { plans = (a.1).plans ++ a.0 ∷ [] })

  unfoldable pub plan_segments : List Existing → List Payload → Planner → Outcome PlanError Planner
  unfolding plan_segment
  plan_segments existing [] s = ok s
  plan_segments existing (payload ∷ payloads) s =
      plan_segment existing payload s >>= plan_segments existing payloads

  abbrev pub removed_plan : Existing → Plan
  removed_plan e = record {
    change = removed;
    inp_entry_name = e.inp_entry_name;
    archive_name = e.archive_name;
    fingerprint = e.inp_fingerprint;
    summary = e.summary;
    records = [];
    warnings = [];
    deleted_lib_ids = [];
    segment_order = e.segment_order;
    requires_archive = e.requires_archive;
    resolved_archive_path = elim e.resolved_archive_path [ none ↦ [] | some path ↦ path ];
    archive_file_state = e.archive_file_state;
    archive_manifest_fingerprint = manifest_or_nil e;
    existing_id = some e.id;
    archive_opened = false;
  }

  -- The loop over the existing segments that are in the catalogue no more.
  unfoldable pub plan_removed :
      List Plan → List Existing → List Plan → Outcome PlanError (List Plan)
  unfolding has_name
  plan_removed current [] plans = ok plans
  plan_removed current (e ∷ es) plans =
      if has_name e.inp_entry_name current
      then plan_removed current es plans
      else if not (ltb (length plans) limits.max_segments)
      then throw too_many_segments
      else plan_removed current es (plans ++ removed_plan e ∷ [])

  abbrev pub start_planner : Planner
  start_planner = record {
    plans = [];
    guards = [];
    planned_record_count = 0;
    retained_warning_count = 0;
    archive_bytes_read = 0;
  }

  -- The planning of `RunScan`, up to the totals.
  unfoldable pub plan_all : List Existing → List Payload → Outcome PlanError Planner
  unfolding plan_segments plan_removed
  plan_all existing payloads = plan_segments existing payloads start_planner >>= λ s.
      if length payloads == 0
      then throw no_segments
      else plan_removed s.plans existing s.plans >>= λ plans. ok (record s { plans = plans })
