-- ===== src/Scan/Coordinator/Status.antt =====
-- libs/Server/ServerScanCoordinator.cpp: what the coordinator knows of its job behind an operation.
use librova_inpx_web.Common.{
  ℕ, Bool, false, not, ◌&&◌, Option, none, some, Outcome, ok, throw, ◌≡◌, refl, ◌⊎◌, Bool-cases,
  Option-cases, inl, inr,
}
use librova_inpx_web.Scan.Coordinator.{
  is_terminal, Host, host_threw, Coordinator, has_active_scan, is_held, Progress, Answer,
  remove_job, finish_job, read_snapshot, poll_job, poll_progress, behind, as_started, hold, launch,
  launch_if_idle, start_scan, after_cancel, cancel_job, cancel_active_scan, runtime_status, Ask,
  to_start, to_poll, to_cancel, answer,
}

pub Outcome-cases {ℓ κ} :
    {E : Type κ} {A : Type ℓ} (o : Outcome E A) → ((e : E) × (o ≡ throw e)) ⊎ ((a : A) × (o ≡ ok a))
Outcome-cases (throw e) = inl (e, refl)
Outcome-cases (ok a) = inr (a, refl)

module _ (h : Host) where
  pub data IsSettled (c : Coordinator h) : Type 0 where
    idle : c.active ≡ none → IsSettled c
    busy :
        (j : ℕ) (s : h.Snapshot)
        → c.active ≡ some j
        → c.last_snapshot ≡ some s
        → is_terminal (h.status s) ≡ false
        → c.last_result ≡ none
        → IsSettled c

  -- An operation that the host did not end by a throw leaves a settled coordinator.
  abbrev pub Settles : {A : Type 0} → Answer h A → Type 0
  Settles r = ((e : h.Exception) × (r.0 ≡ throw (host_threw e))) ⊎ IsSettled r.1

  remove_job-Settles : (j : ℕ) (c : Coordinator h) → Settles (remove_job h j c)
  unfolding remove_job
  remove_job-Settles j c = elim (Outcome-cases (h.remove j c.machine).1) [
    | inl (e, q) ↦ rw (q, remove_job) (inl (e, refl))
    | inr (b, q) ↦ rw (q, remove_job) (inr (idle refl))
  ]

  finish_job-Settles : (j : ℕ) (c : Coordinator h) → Settles (finish_job h j c)
  unfolding finish_job
  finish_job-Settles j c = elim (Outcome-cases (h.result j c.machine).1) [
    | inl (e, q) ↦ rw (q, finish_job) (inl (e, refl))
    | inr (r, q) ↦ rw (q, finish_job) (remove_job-Settles j _)
  ]

  read_snapshot-Settles :
      (j : ℕ) (s : Option h.Snapshot) (c : Coordinator h)
      → c.active ≡ some j
      → Settles (read_snapshot h j s c)
  unfolding read_snapshot
  read_snapshot-Settles j none c a = inr (idle refl)
  read_snapshot-Settles j (some s) c a = elim (Bool-cases (is_terminal (h.status s))) [
    | inl t ↦ rw t (finish_job-Settles j _)
    | inr t ↦ rw t (inr (busy j s a refl t refl))
  ]

  poll_job-Settles : (j : ℕ) (c : Coordinator h) → c.active ≡ some j → Settles (poll_job h j c)
  unfolding poll_job
  poll_job-Settles j c a = elim (Outcome-cases (h.snapshot j c.machine).1) [
    | inl (e, q) ↦ rw (q, poll_job) (inl (e, refl))
    | inr (s, q) ↦ rw (q, poll_job) (read_snapshot-Settles j s _ a)
  ]

  pub poll_progress-Settles : (c : Coordinator h) → Settles (poll_progress h c)
  unfolding poll_progress
  poll_progress-Settles c = elim (Option-cases c.active) [
    | inl e ↦ rw (e, poll_progress) (inr (idle e))
    | inr (j, e) ↦ rw (e, poll_progress) (poll_job-Settles j c e)
  ]

  behind-Settles :
      {A B : Type 0} (r : Answer h A) (next : A → Coordinator h → Answer h B)
      → Settles r
      → ((a : A) (c : Coordinator h) → IsSettled c → Settles (next a c))
      → Settles (behind h r next)
  behind-Settles (throw e, c) next (inl (e', q)) s = inl (e', cc)
  behind-Settles (throw e, c) next (inr i) s = inr i
  behind-Settles (ok a, c) next (inl (e', q)) s = absurd cc
  behind-Settles (ok a, c) next (inr i) s = s a c i

  launch-Settles : (request : h.Request) (c : Coordinator h) → Settles (launch h request c)
  unfolding launch
  launch-Settles request c = elim (Outcome-cases (h.start request c.machine).1) [
    | inl (e, q) ↦ rw (q, launch) (inl (e, refl))
    | inr (j, q) ↦
        rw (q, launch)
          (behind-Settles _ (as_started h j)
            (poll_progress-Settles (hold h j (h.start request c.machine).0 c)) (λ p c' i. inr i))
  ]

  launch_if_idle-Settles :
      (request : h.Request) (p : Progress h) (c : Coordinator h)
      → IsSettled c
      → Settles (launch_if_idle h request p c)
  unfolding launch_if_idle
  launch_if_idle-Settles request p c i = elim (Bool-cases (has_active_scan h c)) [
    | inl a ↦ rw a (inr i)
    | inr a ↦ rw a (launch-Settles request c)
  ]

  start_scan-Settles : (request : h.Request) (c : Coordinator h) → Settles (start_scan h request c)
  unfolding start_scan
  start_scan-Settles request c = elim (Option-cases c.active) [
    | inl e ↦ rw (e, start_scan) (launch-Settles request c)
    | inr (j, e) ↦
        rw (e, start_scan)
          (behind-Settles _ (launch_if_idle h request) (poll_progress-Settles c)
            (launch_if_idle-Settles request))
  ]

  pub after_cancel-state :
      (accepted : Bool) (p : Progress h) (c : Coordinator h) → (after_cancel h accepted p c).1 ≡ c
  unfolding after_cancel
  after_cancel-state accepted p c = elim (Bool-cases (not accepted && not (has_active_scan h c))) [
    | inl e ↦ rw e
    | inr e ↦ rw e
  ]

  cancel_job-Settles : (j : ℕ) (c : Coordinator h) → Settles (cancel_job h j c)
  unfolding cancel_job
  cancel_job-Settles j c = elim (Outcome-cases (h.cancel j c.machine).1) [
    | inl (e, q) ↦ rw (q, cancel_job) (inl (e, refl))
    | inr (b, q) ↦
        rw (q, cancel_job)
          (behind-Settles _ (after_cancel h b) (poll_progress-Settles _)
            (λ p c' i. inr (rw (after_cancel-state b p c') i)))
  ]

  cancel_active_scan-Settles : (c : Coordinator h) → Settles (cancel_active_scan h c)
  unfolding cancel_active_scan
  cancel_active_scan-Settles c = elim (Option-cases c.active) [
    | inl e ↦ rw (e, cancel_active_scan) (inr (idle e))
    | inr (j, e) ↦ rw (e, cancel_active_scan) (cancel_job-Settles j c)
  ]

  answer-Settles : (a : Ask h) (c : Coordinator h) → Settles (answer h a c)
  unfolding answer
  answer-Settles (to_start request) c = start_scan-Settles request c
  answer-Settles to_poll c = poll_progress-Settles c
  answer-Settles to_cancel c = cancel_active_scan-Settles c

  -- A settled coordinator is busy exactly while it holds a job.
  has_active_scan-IsSettled :
      (c : Coordinator h) → IsSettled c → has_active_scan h c ≡ is_held h c.active
  has_active_scan-IsSettled c (idle e) = rw e
  has_active_scan-IsSettled c (busy j s e f t r) = rw (e, f, t)

  pub inactive_of_settled :
      (c : Coordinator h) → IsSettled c → has_active_scan h c ≡ false → c.active ≡ none
  inactive_of_settled c (idle e) n = e
  inactive_of_settled c (busy j s e f t r) n = absurd (cc (rw (e, f, t) at n))

  -- Whatever state the coordinator is in, a request either ends with an exception of the host, or,
  -- refused or not, leaves a state where the status reports a scan exactly if a job is held, and
  -- where a job that is held was last seen unfinished and has no result.
  pub answer_status :
      (a : Ask h) (c : Coordinator h) (workers : ℕ)
      → ((e : h.Exception) × ((answer h a c).0 ≡ throw (host_threw e)))
        ⊎ (((runtime_status h workers (answer h a c).1).0 ≡ is_held h (answer h a c).1.active)
            × IsSettled (answer h a c).1)
  unfolding runtime_status
  answer_status a c workers = elim (answer-Settles a c) [
    | inl threw ↦ inl threw
    | inr s ↦ inr (has_active_scan-IsSettled _ s, s)
  ]
