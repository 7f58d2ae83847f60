-- ===== src/Scan/Jobs.antt =====
-- libs/App/InpxScanJobService.cpp: the jobs of `CInpxScanJobService`. Each event below is one
-- section under `m_jobsMutex` or under the mutex of a record, so that the calls of clients and the
-- work of the job threads come in any order.
pub mod Rules
pub mod Invariant
pub mod Results
use librova_inpx_web.Common.{
  ℕ, suc, ◌+◌, ◌%◌, ◌^◌, Bool, true, false, not, ◌&&◌, List, [], ◌∷◌, Option, none, some, Outcome,
  ok, throw, ◌==◌, if◌then◌else◌, Bytes, codes,
}
use librova_inpx_web.Scan.Coordinator.{
  JobStatus, pending, running, completed, failed, cancelled, cancelling, is_terminal,
}

-- `SInpxScanJobSnapshot`, with one number for the counts of records, segments and archives, which
-- only the worker sets; the percentage and the names that it shows are left out.
pub record Snapshot : Type 0 where
  pub job_id : ℕ
  pub status : JobStatus
  pub message : Bytes
  pub counters : ℕ

-- `EDomainErrorCode`, as far as jobs use it.
pub data ErrorCode : Type 0 where
  cancellation parser_failure : ErrorCode

-- `SInpxScanJobResult`; the `SInpxScanResult` of a scan that completed is one number too.
pub record JobResult : Type 0 where
  pub snapshot : Snapshot
  pub scan_result : Option ℕ
  pub error : Option (ErrorCode × Bytes)

-- How `RunScan` ends: it returns, it throws `CInpxScanCancelled`, or it throws something else, a
-- `std::exception` or not.
pub data Ending : Type 0 where
  returns : Bytes → ℕ → Ending
  cancels : Ending
  throws : Bytes → Ending
  throws_other : Ending

-- Where the job's thread is: not started, in `RunScan`, with a result of its own that is not
-- stored yet, or at its end.
pub data Phase : Type 0 where
  unstarted working ended : Phase
  holding : JobResult → Phase

-- `SJobRecord`, with the stop flag of its thread.
pub record Job : Type 0 where
  pub snapshot : Snapshot
  pub result : Option JobResult
  pub phase : Phase
  pub stop_requested : Bool

-- `m_jobs` and `m_nextJobId`.
pub record Service : Type 0 where
  pub jobs : List Job
  pub next_job_id : ℕ

abbrev pub fresh : Service
fresh = record { jobs = []; next_job_id = 1 }

abbrev pub id : Job → ℕ
id job = (job.snapshot).job_id

abbrev pub is_done : Job → Bool
is_done job = is_terminal (job.snapshot).status

abbrev pub is_unstarted : Phase → Bool
is_unstarted unstarted = true
is_unstarted _ = false

abbrev pub is_working : Phase → Bool
is_working working = true
is_working _ = false

-- `TryGetRecord`.
unfoldable pub find : ℕ → List Job → Option Job
find j [] = none
find j (job ∷ jobs) = if id job == j then some job else find j jobs

-- A section under the mutex of one record.
unfoldable pub change : ℕ → (Job → Job) → List Job → List Job
change j f [] = []
change j f (job ∷ jobs) = (if id job == j then f job else job) ∷ change j f jobs

pub erase : ℕ → List Job → List Job
erase j [] = []
erase j (job ∷ jobs) = if id job == j then erase j jobs else job ∷ erase j jobs

unfoldable pub all_done : List Job → Bool
all_done [] = true
all_done (job ∷ jobs) = is_done job && all_done jobs

abbrev pub fresh_job : ℕ → Job
fresh_job j = record {
  snapshot = record { job_id = j; status = pending; message = []; counters = 0 };
  result = none;
  phase = unstarted;
  stop_requested = false;
}

pub data StartError : Type 0 where
  already_running : StartError

-- The first section of `Start`. Where the directory or the thread cannot be made, `abandon_start`
-- takes the record away again; else `launch_worker` follows.
unfoldable pub begin_start : Service → Outcome StartError ℕ × Service
unfolding all_done
begin_start s =
    if all_done s.jobs
    then (
      ok s.next_job_id,
      record { jobs = fresh_job s.next_job_id ∷ s.jobs; next_job_id = suc s.next_job_id % 2 ^ 64 },
    )
    else (throw already_running, s)

abbrev pub launch : Job → Job
launch job = if is_unstarted job.phase then record job { phase = working } else job

-- What the worker publishes on its way: `Running` at first, `Cancelling` from a checkpoint behind
-- a stop, and otherwise a message or counters.
pub data Update : Type 0 where
  run : Bytes → Update
  note_stop : Bytes → Update
  say : Bytes → Update
  count : ℕ → Update

abbrev pub update : Update → Snapshot → Snapshot
update (run text) p = record p { status = running; message = text }
update (note_stop text) p = record p { status = cancelling; message = text }
update (say text) p = record p { message = text }
update (count n) p = record p { counters = n }

-- `PublishSnapshot`.
abbrev pub publish : Update → Job → Job
publish u job =
    if is_working job.phase then record job { snapshot = update u job.snapshot } else job

abbrev pub cancelled_text : Bytes
cancelled_text = codes "INPX scan cancelled."

abbrev pub other_text : Bytes
other_text = codes "INPX scan failed with a non-standard exception."

-- The result that the worker makes of a copy of its snapshot.
abbrev pub result_of : Ending → Snapshot → JobResult
result_of (returns text r) p = record {
  snapshot = record p { status = completed; message = text };
  scan_result = some r;
  error = none;
}
result_of cancels p = record {
  snapshot = record p { status = cancelled; message = cancelled_text };
  scan_result = none;
  error = some (cancellation, cancelled_text);
}
result_of (throws text) p = record {
  snapshot = record p { status = failed; message = text };
  scan_result = none;
  error = some (parser_failure, text);
}
result_of throws_other p = record {
  snapshot = record p { status = failed; message = other_text };
  scan_result = none;
  error = some (parser_failure, other_text);
}

abbrev pub capture : Ending → Job → Job
capture e job =
    if is_working job.phase then record job { phase = holding (result_of e job.snapshot) } else job

-- The last section of the thread.
abbrev pub store_held : Phase → Job → Job
store_held (holding r) job = record job { snapshot = r.snapshot; result = some r; phase = ended }
store_held _ job = job

abbrev pub store : Job → Job
store job = store_held job.phase job

abbrev pub cancelling_text : Bytes
cancelling_text = codes "Cancelling INPX scan."

-- `request_stop` on a thread that is not there yet does nothing.
abbrev pub ask_stop : Job → Job
ask_stop job = if is_done job then job else record job {
  snapshot = record (job.snapshot) { status = cancelling; message = cancelling_text };
  stop_requested = not (is_unstarted job.phase);
}

abbrev pub is_not_done : Option Job → Bool
is_not_done none = false
is_not_done (some job) = not (is_done job)

-- `Cancel`.
pub cancel : ℕ → Service → Bool × Service
unfolding find change
cancel j s = (is_not_done (find j s.jobs), record s { jobs = change j ask_stop s.jobs })

abbrev pub has_result : Option Job → Bool
has_result none = false
has_result (some job) = elim job.result [ none ↦ false | some r ↦ true ]

-- `Remove`.
pub remove : ℕ → Service → Bool × Service
unfolding find erase
remove j s =
    if has_result (find j s.jobs) then (true, record s { jobs = erase j s.jobs }) else (false, s)

-- `TryGetResult`, and `TryGetSnapshot`.
unfoldable pub try_get_result : ℕ → Service → Option JobResult
unfolding find
try_get_result j s = elim (find j s.jobs) [ none ↦ none | some job ↦ job.result ]

pub try_get_snapshot : ℕ → Service → Option Snapshot
unfolding find
try_get_snapshot j s = elim (find j s.jobs) [ none ↦ none | some job ↦ some job.snapshot ]

-- The failure path of `Start`, which has its record from the first section.
abbrev pub is_new : Option Job → Bool
is_new none = false
is_new (some job) = is_unstarted job.phase

pub abandon_start : ℕ → Service → Service
unfolding find erase
abandon_start j s = if is_new (find j s.jobs) then record s { jobs = erase j s.jobs } else s

pub data Event : Type 0 where
  starts : Event
  abandons : ℕ → Event
  launches : ℕ → Event
  publishes : ℕ → Update → Event
  captures : ℕ → Ending → Event
  stores : ℕ → Event
  asks_stop : ℕ → Event
  removes : ℕ → Event

unfoldable pub happen : Event → Service → Service
unfolding begin_start abandon_start change cancel remove
happen starts s = (begin_start s).1
happen (abandons j) s = abandon_start j s
happen (launches j) s = record s { jobs = change j launch s.jobs }
happen (publishes j u) s = record s { jobs = change j (publish u) s.jobs }
happen (captures j e) s = record s { jobs = change j (capture e) s.jobs }
happen (stores j) s = record s { jobs = change j store s.jobs }
happen (asks_stop j) s = (cancel j s).1
happen (removes j) s = (remove j s).1

unfoldable pub all_happen : List Event → Service → Service
unfolding happen
all_happen [] s = s
all_happen (e ∷ events) s = all_happen events (happen e s)
