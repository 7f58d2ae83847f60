-- ===== src/Scan/Jobs/Rules.antt =====
-- libs/App/InpxScanJobService.cpp: what each section under the mutex of a record keeps.
use librova_inpx_web.Common.{
  ◌≡◌, refl, Bool, true, false, Option, none, some, inl, inr, Bool-cases, Bool-absurd, not,
}
use librova_inpx_web.Scan.Coordinator.{is_terminal, cancelling}
use librova_inpx_web.Scan.Jobs.{
  Snapshot, JobResult, Phase, unstarted, working, ended, holding, Job, Ending, Update, id, is_done,
  run, note_stop, say, count, returns, cancels, throws, throws_other, update, result_of,
  is_unstarted, cancelling_text, launch, publish, capture, store, ask_stop,
}

-- How the snapshot, the stored result and the thread of a job fit together: a result is there
-- exactly from the end of the thread on, with the snapshot that is shown, and it is terminal.
abbrev pub Agrees : Snapshot → Option JobResult → Phase → Type 0
Agrees p none unstarted = is_terminal p.status ≡ false
Agrees p none working = is_terminal p.status ≡ false
Agrees p none (holding r) =
    (is_terminal p.status ≡ false)
    × (is_terminal (r.snapshot).status ≡ true)
    × ((r.snapshot).job_id ≡ p.job_id)
Agrees p none ended = ⊥
Agrees p (some r) ended = (r.snapshot ≡ p) × (is_terminal p.status ≡ true)
Agrees p (some r) _ = ⊥

abbrev pub IsJob : Job → Type 0
IsJob job = Agrees job.snapshot job.result job.phase

abbrev pub as_job : Snapshot → Option JobResult → Phase → Bool → Job
as_job p r phase b = record { snapshot = p; result = r; phase = phase; stop_requested = b }

-- A section keeps the id and the agreement, and leaves a job that is over alone.
abbrev pub Kept : (Job → Job) → Job → Type 0
Kept f job = (id (f job) ≡ id job) × IsJob (f job) × (is_done job ≡ true → f job ≡ job)

abbrev pub Keeps : (Job → Job) → Type 0
Keeps f = (job : Job) → IsJob job → Kept f job

-- The four forms that a job can have.
keeps_of :
    (f : Job → Job) (p : Snapshot) (r : Option JobResult) (phase : Phase) (b : Bool)
    → ((Agrees p none unstarted) → Kept f (as_job p none unstarted b))
    → ((Agrees p none working) → Kept f (as_job p none working b))
    → ((q : JobResult) → Agrees p none (holding q) → Kept f (as_job p none (holding q) b))
    → ((q : JobResult) → Agrees p (some q) ended → Kept f (as_job p (some q) ended b))
    → Agrees p r phase
    → Kept f (as_job p r phase b)
keeps_of f p none unstarted b h1 h2 h3 h4 a = h1 a
keeps_of f p none working b h1 h2 h3 h4 a = h2 a
keeps_of f p none (holding q) b h1 h2 h3 h4 a = h3 q a
keeps_of f p none ended b h1 h2 h3 h4 a = absurd a
keeps_of f p (some q) ended b h1 h2 h3 h4 a = h4 q a
keeps_of f p (some q) unstarted b h1 h2 h3 h4 a = absurd a
keeps_of f p (some q) working b h1 h2 h3 h4 a = absurd a
keeps_of f p (some q) (holding r) b h1 h2 h3 h4 a = absurd a

pub launch-Keeps : Keeps launch
launch-Keeps job a =
    keeps_of launch job.snapshot job.result job.phase job.stop_requested
      (λ x. (refl, x, λ d. Bool-absurd _ d x)) (λ x. (refl, x, λ d. refl))
      (λ q x. (refl, x, λ d. refl)) (λ q x. (refl, x, λ d. refl)) a

update_lem :
    (u : Update) (p : Snapshot)
    → is_terminal p.status ≡ false
    → (is_terminal (update u p).status ≡ false) × ((update u p).job_id ≡ p.job_id)
update_lem (run text) p x = (refl, refl)
update_lem (note_stop text) p x = (refl, refl)
update_lem (say text) p x = (x, refl)
update_lem (count n) p x = (x, refl)

pub publish-Keeps : (u : Update) → Keeps (publish u)
publish-Keeps u job a =
    keeps_of (publish u) job.snapshot job.result job.phase job.stop_requested
      (λ x. (refl, x, λ d. refl))
      (λ x. let h = update_lem u job.snapshot x in (h.1, h.0, λ d. Bool-absurd _ d x))
      (λ q x. (refl, x, λ d. refl)) (λ q x. (refl, x, λ d. refl)) a

result_of_lem :
    (e : Ending) (p : Snapshot)
    → (is_terminal ((result_of e p).snapshot).status ≡ true)
      × (((result_of e p).snapshot).job_id ≡ p.job_id)
result_of_lem (returns text r) p = (refl, refl)
result_of_lem cancels p = (refl, refl)
result_of_lem (throws text) p = (refl, refl)
result_of_lem throws_other p = (refl, refl)

pub capture-Keeps : (e : Ending) → Keeps (capture e)
capture-Keeps e job a =
    keeps_of (capture e) job.snapshot job.result job.phase job.stop_requested
      (λ x. (refl, x, λ d. refl))
      (λ x. let h = result_of_lem e job.snapshot in (refl, (x, h.0, h.1), λ d. Bool-absurd _ d x))
      (λ q x. (refl, x, λ d. refl)) (λ q x. (refl, x, λ d. refl)) a

pub store-Keeps : Keeps store
store-Keeps job a =
    keeps_of store job.snapshot job.result job.phase job.stop_requested (λ x. (refl, x, λ d. refl))
      (λ x. (refl, x, λ d. refl)) (λ q x. (x.2, (refl, x.1), λ d. Bool-absurd _ d x.0))
      (λ q x. (refl, x, λ d. refl)) a

ask_stop_done : (job : Job) → is_done job ≡ true → ask_stop job ≡ job
ask_stop_done job d = rw d refl

ask_stop_going :
    (job : Job)
    → is_done job ≡ false
    → ask_stop job ≡ record job {
      snapshot = record (job.snapshot) { status = cancelling; message = cancelling_text };
      stop_requested = not (is_unstarted job.phase);
    }
ask_stop_going job d = rw d refl

stopping-Agrees :
    (p : Snapshot) (r : Option JobResult) (phase : Phase)
    → Agrees p r phase
    → is_terminal p.status ≡ false
    → Agrees (record p { status = cancelling; message = cancelling_text }) r phase
stopping-Agrees p none unstarted a d = refl
stopping-Agrees p none working a d = refl
stopping-Agrees p none (holding q) a d = (refl, a.1, a.2)
stopping-Agrees p none ended a d = absurd a
stopping-Agrees p (some q) ended a d = Bool-absurd _ a.1 d
stopping-Agrees p (some q) unstarted a d = absurd a
stopping-Agrees p (some q) working a d = absurd a
stopping-Agrees p (some q) (holding r) a d = absurd a

ask_stop_kept :
    (job : Job)
    → IsJob job
    → is_done job ≡ false
    → IsJob (record job {
      snapshot = record (job.snapshot) { status = cancelling; message = cancelling_text };
      stop_requested = not (is_unstarted job.phase);
    })
ask_stop_kept job a d = stopping-Agrees job.snapshot job.result job.phase a d

pub ask_stop-Keeps : Keeps ask_stop
ask_stop-Keeps job a = elim (Bool-cases (is_done job)) [
  | inl d ↦ rw (ask_stop_done job d) (refl, a, λ _. refl)
  | inr d ↦ rw (ask_stop_going job d) (refl, ask_stop_kept job a d, λ t. Bool-absurd _ t d)
]
