-- ===== src/Scan/Flight.antt =====
-- libs/App/InpxScanJobService.cpp, the execution in `RunScan`: the payloads of the records that
-- are read, parsed by workers and written one by one.
pub mod Loop
pub mod Bounded
pub mod Lists
pub mod Holds
pub mod Notes
pub mod Written
use librova_inpx_web.Common.{
  ℕ, zero, suc, ◌+◌, ◌-◌, Bool, true, false, not, ◌&&◌, ◌||◌, List, [], ◌∷◌, ◌++◌, Option, none,
  some, Outcome, ok, throw, ◌>>=◌, ltb, leb, ◌==◌, if◌then◌else◌, Bytes, codes, bytes_eq, length,
}
use librova_inpx_web.Inpx.Text.{to_lower_ascii}
use librova_inpx_web.Inpx.Record.{Record}
use librova_inpx_web.Scan.Plan.{SegmentChange, unchanged, added, changed, removed, Plan}
use librova_inpx_web.Scan.Plan.Segments.{contains}

-- `SInFlightParsedRecord`.
pub record Task : Type 0 where
  pub inpx_record : Record
  pub reserved_payload_bytes : ℕ

-- The variables of the loop over the records: `inFlightParsedRecords`, `inFlightPayloadBytes`,
-- `processedActiveIds`, `currentArchivePathUtf8`, `ScannedRecords` and `SkippedRecords` of the
-- snapshot, and the records that were written, in the order of the writes.
pub record Flight : Type 0 where
  pub tasks : List Task
  pub payload_bytes : ℕ
  pub active_ids : List Bytes
  pub current_archive : Bytes
  pub scanned_records : ℕ
  pub skipped_records : ℕ
  pub written : List Record

-- `maxInFlightPayloads`, `maxInFlightPayloadBytes` and `MaxRecords`.
pub record FlightLimits : Type 0 where
  pub max_payloads : ℕ
  pub max_payload_bytes : ℕ
  pub max_records : ℕ

-- What the loop asks of the archives and of the workers: `ComputeManifestFingerprint`,
-- `ReadEntrySize` and `ReadEntryBytes` of `CInpxArchiveReader`, which may throw; whether a payload
-- is parsed and written without an exception; and which task is found ready at each turn.
pub record Payloads : Type 0 where
  pub manifest : Bytes → Option Bytes
  pub entry_size : Bytes → Bytes → Option ℕ
  pub is_readable : Bytes → Bytes → Bool
  pub is_written : Record → Bool
  pub ready : ℕ → ℕ

pub data FlightError : Type 0 where
  duplicate_lib_id too_many_records archive_changed unreadable_archive : FlightError
  size_mismatch too_large_payload payload_failed : FlightError

-- The task at a position, or the first one, and the others: `takeParsedRecord`.
unfoldable pub take_at : ℕ → Task → List Task → Task × List Task
take_at zero t ts = (t, ts)
take_at (suc i) t [] = (t, [])
take_at (suc i) t (u ∷ us) = let (v, vs) = take_at i u us in (v, t ∷ vs)

abbrev pub take_parsed : ℕ → Task → List Task → Task × List Task
take_parsed i t ts = if ltb i (suc (length ts)) then take_at i t ts else (t, ts)

-- `plan.Change` of `executionPlanIndices`.
abbrev pub is_executed : SegmentChange → Bool
is_executed added = true
is_executed changed = true
is_executed _ = false

-- The order of paths, by bytes.
unfoldable pub is_before : Bytes → Bytes → Bool
is_before [] [] = false
is_before [] (y ∷ ys) = true
is_before (x ∷ xs) [] = false
is_before (x ∷ xs) (y ∷ ys) = ltb x y || x == y && is_before xs ys

-- The sort of the indices, which is by path and then by index: plans of one path keep their order.
unfoldable pub insert_plan : Plan → List Plan → List Plan
unfolding is_before
insert_plan p [] = p ∷ []
insert_plan p (q ∷ qs) =
    let rest = insert_plan p qs in
    if is_before q.resolved_archive_path p.resolved_archive_path then q ∷ rest else p ∷ q ∷ qs

unfoldable pub execution_plans : List Plan → List Plan
unfolding insert_plan
execution_plans [] = []
execution_plans (p ∷ ps) =
    let rest = execution_plans ps in if is_executed p.change then insert_plan p rest else rest

abbrev pub is_fb2_name : Bytes → Bool
is_fb2_name extension = bytes_eq (to_lower_ascii extension) (codes "fb2")

abbrev pub scanned : Flight → Flight
scanned f = record f { scanned_records = suc f.scanned_records }

abbrev pub skipped : Flight → Flight
skipped f = record f { skipped_records = suc f.skipped_records }

module _ (world : Payloads) (limits : FlightLimits) where
  -- `drainParsedRecord`, with a task that was taken.
  abbrev pub finish_task : Flight → Task × List Task → Outcome FlightError Flight
  finish_task f (t, ts) =
      if world.is_written t.inpx_record
      then ok (record f {
        tasks = ts;
        payload_bytes = f.payload_bytes - t.reserved_payload_bytes;
        written = f.written ++ t.inpx_record ∷ [];
      })
      else throw payload_failed

  abbrev pub drain_first :
      List Task → Flight → (Flight → Outcome FlightError Flight) → Outcome FlightError Flight
  drain_first [] f next = ok f
  drain_first (t ∷ ts) f next =
      finish_task f (take_parsed (world.ready (length f.written)) t ts) >>= next

  -- One of the loops that drain while a test holds. A round takes a task, so there are as many
  -- rounds as tasks.
  unfoldable pub drain_while : ℕ → (Flight → Bool) → Flight → Outcome FlightError Flight
  unfolding take_at
  drain_while zero test f = ok f
  drain_while (suc n) test f = elim (test f) [
    | false ↦ ok f
    | true ↦ drain_first f.tasks f (drain_while n test)
  ]

  abbrev pub always : Flight → Bool
  always f = true

  abbrev pub is_full : Flight → Bool
  is_full f = leb limits.max_payloads (length f.tasks)

  abbrev pub has_no_bytes : ℕ → Flight → Bool
  has_no_bytes size f = ltb (limits.max_payload_bytes - size) f.payload_bytes

  abbrev pub drain : (Flight → Bool) → Flight → Outcome FlightError Flight
  drain test f = drain_while (length f.tasks) test f

  -- The switch to another archive, which no task in flight is of.
  abbrev pub check_manifest : Plan → Flight → Option Bytes → Outcome FlightError Flight
  check_manifest p f none = throw unreadable_archive
  check_manifest p f (some m) =
      if bytes_eq m p.archive_manifest_fingerprint
      then ok (record f { current_archive = p.resolved_archive_path })
      else throw archive_changed

  unfoldable pub open_archive : Plan → Flight → Outcome FlightError Flight
  unfolding drain_while
  open_archive p f =
      if bytes_eq f.current_archive p.resolved_archive_path
      then ok f
      else (drain always f >>= λ f'. check_manifest p f' (world.manifest p.resolved_archive_path))

  -- The submission behind the checks of the size.
  abbrev pub push : Record → ℕ → Flight → Flight
  push r size f = record f {
    tasks =
        f.tasks
        ++ record {
          inpx_record = record r { file_size_bytes = size };
          reserved_payload_bytes = size;
        }
          ∷ [];
    payload_bytes = f.payload_bytes + size;
  }

  abbrev pub read_entry : Plan → Record → ℕ → Flight → Outcome FlightError Flight
  read_entry p r size f =
      if world.is_readable p.resolved_archive_path r.entry_name
      then ok (push r size f)
      else throw unreadable_archive

  abbrev pub submit_sized : Plan → Record → Option ℕ → Flight → Outcome FlightError Flight
  submit_sized p r none f = throw unreadable_archive
  submit_sized p r (some size) f =
      if not (r.file_size_bytes == 0) && not (size == r.file_size_bytes)
      then throw size_mismatch
      else if ltb limits.max_payload_bytes size
      then throw too_large_payload
      else (drain (has_no_bytes size) f >>= read_entry p r size)

  -- `InsertActiveLibId`.
  abbrev pub note_id : Bytes → Flight → Outcome FlightError Flight
  note_id lib_id f =
      if contains lib_id f.active_ids
      then throw duplicate_lib_id
      else if not (ltb (length f.active_ids) limits.max_records)
      then throw too_many_records
      else ok (record f { active_ids = lib_id ∷ f.active_ids })

  unfoldable pub submit : Plan → Record → Flight → Outcome FlightError Flight
  unfolding drain_while open_archive
  submit p r f = note_id r.lib_id f >>= λ f1. drain is_full f1 >>= λ f2.
      open_archive p f2 >>= submit_sized p r (world.entry_size p.resolved_archive_path r.entry_name)

  -- The body of the loop over the records of a plan, by whether the record is deleted and whether
  -- its format is FB2.
  unfoldable pub process_if : Bool → Bool → Plan → Record → Flight → Outcome FlightError Flight
  unfolding submit
  process_if true fb2 p r f = ok f
  process_if false false p r f = ok (skipped f)
  process_if false true p r f = submit p r f

  unfoldable pub process_record : Plan → Record → Flight → Outcome FlightError Flight
  unfolding process_if
  process_record p r f = process_if r.deleted (is_fb2_name r.file_extension) p r (scanned f)

  unfoldable pub process_records : Plan → List Record → Flight → Outcome FlightError Flight
  unfolding process_record
  process_records p [] f = ok f
  process_records p (r ∷ rs) f = process_record p r f >>= process_records p rs

  unfoldable pub process_plans : List Plan → Flight → Outcome FlightError Flight
  unfolding process_records
  process_plans [] f = ok f
  process_plans (p ∷ ps) f = process_records p p.records f >>= process_plans ps

  -- The execution, with the drain behind the loops.
  unfoldable pub execute : List Plan → Flight → Outcome FlightError Flight
  unfolding process_plans drain_while execution_plans
  execute plans f = process_plans (execution_plans plans) f >>= drain always
