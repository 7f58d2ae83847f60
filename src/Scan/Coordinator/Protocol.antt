-- ===== src/Scan/Coordinator/Protocol.antt =====
-- libs/Server/ServerScanCoordinator.cpp: the calls on the host, against the protocol that it
-- wants.
use librova_inpx_web.Common.{
  ℕ, true, false, List, [], ◌∷◌, Option, none, some, ok, throw, ◌≡◌, refl, subst, sym, Bool-cases,
  Option-cases, inl, inr,
}
use librova_inpx_web.Scan.Coordinator.{
  is_terminal, Call, started, polled, fetched, removed, cancel_asked, missed, missed_start, Host,
  Coordinator, initial, has_active_scan, is_found, Progress, Answer, remove_job, finish_job,
  read_snapshot, poll_job, poll_progress, behind, as_started, hold, launch, launch_if_idle,
  start_scan, after_cancel, cancel_job, cancel_active_scan, Ask, to_start, to_poll, to_cancel,
  answer, serve,
}
use librova_inpx_web.Scan.Coordinator.Status.{
  Outcome-cases, IsSettled, Settles, poll_progress-Settles, inactive_of_settled, after_cancel-state,
}

-- The job that the host holds for the coordinator, by the calls so far. A start wants that there
-- is none, and all other calls want that it is theirs, also those that throw. A removal wants that
-- the result was fetched just before.
pub data Owns : Option ℕ → List Call → Type 0 where
  nothing : Owns none []
  start : {calls : List Call} (j : ℕ) → Owns none calls → Owns (some j) (started j ∷ calls)
  poll : {calls : List Call} (j : ℕ) → Owns (some j) calls → Owns (some j) (polled j true ∷ calls)
  lost : {calls : List Call} (j : ℕ) → Owns (some j) calls → Owns none (polled j false ∷ calls)
  fetch : {calls : List Call} (j : ℕ) → Owns (some j) calls → Owns (some j) (fetched j ∷ calls)
  ask : {calls : List Call} (j : ℕ) → Owns (some j) calls → Owns (some j) (cancel_asked j ∷ calls)
  remove :
      {calls : List Call} (j : ℕ) → Owns (some j) calls → Owns none (removed j ∷ fetched j ∷ calls)
  miss : {calls : List Call} (j : ℕ) → Owns (some j) calls → Owns (some j) (missed j ∷ calls)
  miss_start : {calls : List Call} → Owns none calls → Owns none (missed_start ∷ calls)

owns_at : {calls : List Call} (a b : Option ℕ) → a ≡ b → Owns a calls → Owns b calls
owns_at {calls} a b e o = subst (λ (x : Option ℕ). Owns x calls) e o

module _ (h : Host) where
  abbrev pub IsConsistent : Coordinator h → Type 0
  IsConsistent c = Owns c.active c.calls

  remove_job-IsConsistent :
      (j : ℕ) (c : Coordinator h) (calls : List Call)
      → c.active ≡ some j
      → c.calls ≡ fetched j ∷ calls
      → Owns (some j) calls
      → IsConsistent (remove_job h j c).1
  unfolding remove_job
  remove_job-IsConsistent j c calls a e o = elim (Outcome-cases (h.remove j c.machine).1) [
    | inl (x, q) ↦ rw (q, remove_job, a, e) (miss j (fetch j o))
    | inr (b, q) ↦ rw (q, remove_job, e) (remove j o)
  ]

  finish_job-IsConsistent :
      (j : ℕ) (c : Coordinator h)
      → c.active ≡ some j
      → Owns (some j) c.calls
      → IsConsistent (finish_job h j c).1
  unfolding finish_job
  finish_job-IsConsistent j c a o = elim (Outcome-cases (h.result j c.machine).1) [
    | inl (x, q) ↦ rw (q, finish_job, a) (miss j o)
    | inr (r, q) ↦ rw (q, finish_job) (remove_job-IsConsistent j _ c.calls a refl o)
  ]

  read_snapshot-IsConsistent :
      (j : ℕ) (s : Option h.Snapshot) (c : Coordinator h) (calls : List Call)
      → c.calls ≡ polled j (is_found h s) ∷ calls
      → c.active ≡ some j
      → Owns (some j) calls
      → IsConsistent (read_snapshot h j s c).1
  unfolding read_snapshot
  read_snapshot-IsConsistent j none c calls e a o = rw e (lost j o)
  read_snapshot-IsConsistent j (some s) c calls e a o =
      elim (Bool-cases (is_terminal (h.status s))) [
        | inl t ↦ rw t (finish_job-IsConsistent j _ a (rw e (poll j o)))
        | inr t ↦ rw (t, e, a) (poll j o)
      ]

  poll_job-IsConsistent :
      (j : ℕ) (c : Coordinator h)
      → c.active ≡ some j
      → Owns (some j) c.calls
      → IsConsistent (poll_job h j c).1
  unfolding poll_job
  poll_job-IsConsistent j c a o = elim (Outcome-cases (h.snapshot j c.machine).1) [
    | inl (x, q) ↦ rw (q, poll_job, a) (miss j o)
    | inr (s, q) ↦ rw (q, poll_job) (read_snapshot-IsConsistent j s _ c.calls refl a o)
  ]

  poll_progress-IsConsistent :
      (c : Coordinator h) → IsConsistent c → IsConsistent (poll_progress h c).1
  unfolding poll_progress
  poll_progress-IsConsistent c o = elim (Option-cases c.active) [
    | inl e ↦ rw (e, poll_progress) o
    | inr (j, e) ↦ rw (e, poll_progress) (poll_job-IsConsistent j c e (owns_at _ _ e o))
  ]

  -- Behind an operation that returned, the coordinator is settled.
  behind-IsConsistent :
      {A B : Type 0} (r : Answer h A) (next : A → Coordinator h → Answer h B)
      → Settles h r
      → IsConsistent r.1
      → ((a : A) (c : Coordinator h) → IsSettled h c → IsConsistent c → IsConsistent (next a c).1)
      → IsConsistent (behind h r next).1
  behind-IsConsistent (throw e, c) next s o k = o
  behind-IsConsistent (ok a, c) next (inl (e, q)) o k = absurd cc
  behind-IsConsistent (ok a, c) next (inr i) o k = k a c i o

  launch-IsConsistent :
      (request : h.Request) (c : Coordinator h)
      → Owns none c.calls
      → c.active ≡ none
      → IsConsistent (launch h request c).1
  unfolding launch
  launch-IsConsistent request c o e = elim (Outcome-cases (h.start request c.machine).1) [
    | inl (x, q) ↦ rw (q, launch, e) (miss_start o)
    | inr (j, q) ↦
        let held = hold h j (h.start request c.machine).0 c in
        rw (q, launch)
          (behind-IsConsistent _ (as_started h j) (poll_progress-Settles h held)
            (poll_progress-IsConsistent held (start j o)) (λ p c' i o'. o'))
  ]

  launch_if_idle-IsConsistent :
      (request : h.Request) (p : Progress h) (c : Coordinator h)
      → IsSettled h c
      → IsConsistent c
      → IsConsistent (launch_if_idle h request p c).1
  unfolding launch_if_idle
  launch_if_idle-IsConsistent request p c i o = elim (Bool-cases (has_active_scan h c)) [
    | inl a ↦ rw a o
    | inr a ↦
        let free = inactive_of_settled h c i a in
        rw a (launch-IsConsistent request c (owns_at _ _ free o) free)
  ]

  start_scan-IsConsistent :
      (request : h.Request) (c : Coordinator h)
      → IsConsistent c
      → IsConsistent (start_scan h request c).1
  unfolding start_scan
  start_scan-IsConsistent request c o = elim (Option-cases c.active) [
    | inl e ↦ rw (e, start_scan) (launch-IsConsistent request c (owns_at _ _ e o) e)
    | inr (j, e) ↦
        rw (e, start_scan)
          (behind-IsConsistent _ (launch_if_idle h request) (poll_progress-Settles h c)
            (poll_progress-IsConsistent c o) (launch_if_idle-IsConsistent request))
  ]

  cancel_job-IsConsistent :
      (j : ℕ) (c : Coordinator h)
      → c.active ≡ some j
      → Owns (some j) c.calls
      → IsConsistent (cancel_job h j c).1
  unfolding cancel_job
  cancel_job-IsConsistent j c a o = elim (Outcome-cases (h.cancel j c.machine).1) [
    | inl (x, q) ↦ rw (q, cancel_job, a) (miss j o)
    | inr (b, q) ↦
        let asked = record c {
          machine = (h.cancel j c.machine).0;
          calls = cancel_asked j ∷ c.calls;
        } in
        rw (q, cancel_job)
          (behind-IsConsistent _ (after_cancel h b) (poll_progress-Settles h asked)
            (poll_progress-IsConsistent asked (owns_at _ _ (sym a) (ask j o)))
            (λ p c' i o'. rw (after_cancel-state h b p c') o'))
  ]

  cancel_active_scan-IsConsistent :
      (c : Coordinator h) → IsConsistent c → IsConsistent (cancel_active_scan h c).1
  unfolding cancel_active_scan
  cancel_active_scan-IsConsistent c o = elim (Option-cases c.active) [
    | inl e ↦ rw (e, cancel_active_scan) o
    | inr (j, e) ↦ rw (e, cancel_active_scan) (cancel_job-IsConsistent j c e (owns_at _ _ e o))
  ]

  answer-IsConsistent :
      (a : Ask h) (c : Coordinator h) → IsConsistent c → IsConsistent (answer h a c).1
  unfolding answer
  answer-IsConsistent (to_start request) c o = start_scan-IsConsistent request c o
  answer-IsConsistent to_poll c o = poll_progress-IsConsistent c o
  answer-IsConsistent to_cancel c o = cancel_active_scan-IsConsistent c o

  serve_from :
      (asks : List (Ask h)) (c : Coordinator h) → IsConsistent c → IsConsistent (serve h asks c)
  unfolding serve
  serve_from [] c o = o
  serve_from (a ∷ asks) c o = serve_from asks (answer h a c).1 (answer-IsConsistent a c o)

  -- Whatever is asked, and whatever the host answers or throws, the calls on the host follow the
  -- protocol, those that throw too, and the job that it is left with by the calls that returned is
  -- the one that the coordinator holds.
  pub serve-Owns :
      (asks : List (Ask h)) (m : h.Machine)
      → let c = serve h asks (initial h m) in Owns c.active c.calls
  serve-Owns asks m = serve_from asks (initial h m) nothing
