-- ===== src/Scan/Coordinator.antt =====
-- libs/Server/ServerScanCoordinator.cpp: at most one scan job, over the application host. Each
-- operation holds the mutex from its first line to its last, so operations run one by one.
pub mod Status
pub mod Protocol
use librova_inpx_web.Common.{
  ℕ, Bool, true, false, not, ◌&&◌, ◌||◌, List, [], ◌∷◌, Option, none, some, Outcome, ok, throw,
  if◌then◌else◌,
}

-- `EInpxScanJobStatus`.
pub data JobStatus : Type 0 where
  pending running completed failed cancelled cancelling : JobStatus

-- `SInpxScanJobSnapshot::IsTerminal`, on its `Status`.
abbrev pub is_terminal : JobStatus → Bool
is_terminal completed = true
is_terminal failed = true
is_terminal cancelled = true
is_terminal _ = false

-- The calls that the coordinator makes on the host, for the record. `polled` says whether there
-- was a snapshot. `missed` is a call for a job, and `missed_start` one for a start, that threw.
pub data Call : Type 0 where
  started : ℕ → Call
  polled : ℕ → Bool → Call
  fetched : ℕ → Call
  removed : ℕ → Call
  cancel_asked : ℕ → Call
  missed : ℕ → Call
  missed_start : Call

-- `IServerApplicationHost`, as far as the coordinator calls it. The jobs run in threads of their
-- own, so any call may find the host changed. Each may throw, as `SubmitWithOpenApplication` does
-- where the executor is full, and a call that throws may have changed the host too.
pub record Host : Type 1 where
  pub Machine : Type 0
  pub Request : Type 0
  pub Snapshot : Type 0
  pub Result : Type 0
  pub Exception : Type 0
  pub status : Snapshot → JobStatus
  pub start : Request → Machine → Machine × Outcome Exception ℕ
  pub snapshot : ℕ → Machine → Machine × Outcome Exception (Option Snapshot)
  pub result : ℕ → Machine → Machine × Outcome Exception (Option Result)
  pub remove : ℕ → Machine → Machine × Outcome Exception Bool
  pub cancel : ℕ → Machine → Machine × Outcome Exception Bool

-- What the operations throw: `CHttpErrorMapper::Conflict` and `NotFound`, or what the host threw.
pub data ScanError (E : Type 0) : Type 0 where
  conflict not_found : ScanError E
  host_threw : E → ScanError E

module _ (h : Host) where
  -- `m_activeJobId`, `m_lastProgress`, the host, and the calls made so far, the newest first.
  pub record Coordinator : Type 0 where
    pub active : Option ℕ
    pub last_snapshot : Option h.Snapshot
    pub last_result : Option h.Result
    pub machine : h.Machine
    pub calls : List Call

  abbrev pub initial : h.Machine → Coordinator
  initial m = record {
    active = none;
    last_snapshot = none;
    last_result = none;
    machine = m;
    calls = [];
  }

  -- `!m_lastProgress.Snapshot.has_value() || !m_lastProgress.Snapshot->IsTerminal()`.
  abbrev pub is_unfinished : Option h.Snapshot → Bool
  is_unfinished none = true
  is_unfinished (some s) = not (is_terminal (h.status s))

  abbrev pub is_held : Option ℕ → Bool
  is_held none = false
  is_held (some j) = true

  -- `HasActiveScanLocked`.
  abbrev pub has_active_scan : Coordinator → Bool
  has_active_scan c = is_held c.active && is_unfinished c.last_snapshot

  -- `SServerScanProgress`, which is `m_lastProgress`.
  abbrev pub Progress : Type 0
  Progress = Option h.Snapshot × Option h.Result

  abbrev pub progress : Coordinator → Progress
  progress c = (c.last_snapshot, c.last_result)

  -- What an operation returns or throws, with the state that it leaves.
  abbrev pub Answer : Type 0 → Type 0
  Answer A = Outcome (ScanError h.Exception) A × Coordinator

  -- A call that threw ends the operation, and what was stored before it stays.
  abbrev pub give_up : {A : Type 0} → h.Exception → Call → h.Machine → Coordinator → Answer A
  give_up e call m c = (throw (host_threw e), record c { machine = m; calls = call ∷ c.calls })

  abbrev pub returned : Coordinator → Answer Progress
  returned c = (ok (progress c), c)

  -- The end of `PollProgressLocked`: the job is over, its result is fetched, and it is removed.
  pub remove_job : ℕ → Coordinator → Answer Progress
  remove_job j c =
      let (m, outcome) = h.remove j c.machine in
      elim outcome [
        | throw e ↦ give_up e (missed j) m c
        | ok _ ↦ returned (record c { active = none; machine = m; calls = removed j ∷ c.calls })
      ]

  pub finish_job : ℕ → Coordinator → Answer Progress
  unfolding remove_job
  finish_job j c =
      let (m, outcome) = h.result j c.machine in
      elim outcome [
        | throw e ↦ give_up e (missed j) m c
        | ok r ↦
            remove_job j (record c { last_result = r; machine = m; calls = fetched j ∷ c.calls })
      ]

  -- `PollProgressLocked` behind the call for the snapshot.
  pub read_snapshot : ℕ → Option h.Snapshot → Coordinator → Answer Progress
  unfolding finish_job
  read_snapshot j none c =
      returned (record c { active = none; last_snapshot = none; last_result = none })
  read_snapshot j (some s) c =
      if not (is_terminal (h.status s))
      then returned (record c { last_snapshot = some s; last_result = none })
      else finish_job j (record c { last_snapshot = some s })

  abbrev pub is_found : Option h.Snapshot → Bool
  is_found none = false
  is_found (some s) = true

  pub poll_job : ℕ → Coordinator → Answer Progress
  unfolding read_snapshot
  poll_job j c =
      let (m, outcome) = h.snapshot j c.machine in
      elim outcome [
        | throw e ↦ give_up e (missed j) m c
        | ok s ↦
            read_snapshot j s (record c { machine = m; calls = polled j (is_found s) ∷ c.calls })
      ]

  -- `PollProgressLocked`. `PollProgress` is the same under the lock.
  pub poll_progress : Coordinator → Answer Progress
  unfolding poll_job
  poll_progress c = elim c.active [ none ↦ returned c | some j ↦ poll_job j c ]

  -- An operation goes on behind one that returned.
  abbrev pub behind : {A B : Type 0} → Answer A → (A → Coordinator → Answer B) → Answer B
  behind (throw e, c) next = (throw e, c)
  behind (ok a, c) next = next a c

  -- `m_activeJobId = jobId`, behind the call that started the job; the progress stays.
  abbrev pub hold : ℕ → h.Machine → Coordinator → Coordinator
  hold j m c = record c { active = some j; machine = m; calls = started j ∷ c.calls }

  -- The result of `StartScan`: `JobId` and `Progress`.
  abbrev pub as_started : ℕ → Progress → Coordinator → Answer (ℕ × Progress)
  as_started j p c = (ok (j, p), c)

  -- `StartScan` behind its guard.
  pub launch : h.Request → Coordinator → Answer (ℕ × Progress)
  unfolding poll_progress
  launch request c =
      let (m, outcome) = h.start request c.machine in
      elim outcome [
        | throw e ↦ give_up e missed_start m c
        | ok j ↦ behind (poll_progress (hold j m c)) (as_started j)
      ]

  pub launch_if_idle : h.Request → Progress → Coordinator → Answer (ℕ × Progress)
  unfolding launch
  launch_if_idle request _ c = if has_active_scan c then (throw conflict, c) else launch request c

  pub start_scan : h.Request → Coordinator → Answer (ℕ × Progress)
  unfolding launch_if_idle
  start_scan request c = elim c.active [
    | none ↦ launch request c
    | some j ↦ behind (poll_progress c) (launch_if_idle request)
  ]

  -- `CancelActiveScan` behind the call that asks for the job's end, and the poll; it returns
  -- `Accepted` and `Progress`.
  pub after_cancel : Bool → Progress → Coordinator → Answer (Bool × Progress)
  after_cancel accepted p c =
      if not accepted && not (has_active_scan c)
      then (throw not_found, c)
      else (ok (accepted, p), c)

  pub cancel_job : ℕ → Coordinator → Answer (Bool × Progress)
  unfolding after_cancel poll_progress
  cancel_job j c =
      let (m, outcome) = h.cancel j c.machine in
      elim outcome [
        | throw e ↦ give_up e (missed j) m c
        | ok accepted ↦
            behind (poll_progress (record c { machine = m; calls = cancel_asked j ∷ c.calls }))
              (after_cancel accepted)
      ]

  pub cancel_active_scan : Coordinator → Answer (Bool × Progress)
  unfolding cancel_job
  cancel_active_scan c = elim c.active [ none ↦ (throw not_found, c) | some j ↦ cancel_job j c ]

  -- `GetRuntimeStatus`: `Active`, `ActiveJobs`, `MaxConcurrentJobs`, `ActiveWorkers`, `MaxWorkers`.
  pub runtime_status : ℕ → Coordinator → Bool × ℕ × ℕ × ℕ × ℕ
  runtime_status max_workers c =
      let busy = has_active_scan c in
      (busy, if busy then 1 else 0, 1, if busy then max_workers else 0, max_workers)

  -- What clients ask for, one request after another, and what they get.
  pub data Ask : Type 0 where
    to_start : h.Request → Ask
    to_poll : Ask
    to_cancel : Ask

  abbrev pub Reply : Ask → Type 0
  Reply (to_start request) = ℕ × Progress
  Reply to_poll = Progress
  Reply to_cancel = Bool × Progress

  pub answer : (a : Ask) → Coordinator → Answer (Reply a)
  unfolding start_scan cancel_active_scan
  answer (to_start request) c = start_scan request c
  answer to_poll c = poll_progress c
  answer to_cancel c = cancel_active_scan c

  pub serve : List Ask → Coordinator → Coordinator
  unfolding answer
  serve [] c = c
  serve (a ∷ asks) c = serve asks (answer a c).1
