-- ===== src/Scan/Jobs/Results.antt =====
-- libs/App/InpxScanJobService.cpp: the end of a job, and what becomes of its result.
use librova_inpx_web.Common.{
  ℕ, suc, ◌+◌, ◌-◌, ◌^◌, ◌≤◌, ◌<◌, ◌≡◌, ◌≢◌, refl, ap, sym, subst, ◌∙◌, Bool, true, false, List, [],
  ◌∷◌, Option, none, some, ok, ◌==◌, if◌then◌else◌, inl, inr, Bool-cases, Bool-absurd, arith, All,
  length, some_inj, ==_iff, ==_false,
}
use librova_inpx_web.Scan.Coordinator.{is_terminal}
use librova_inpx_web.Scan.Jobs.{
  Snapshot, JobResult, Phase, unstarted, working, ended, holding, Job, Service, id, is_done, find,
  change, erase, all_done, begin_start, is_unstarted, launch, publish, capture, store, ask_stop,
  cancel, has_result, remove, try_get_result, try_get_snapshot, fresh, is_new, abandon_start, Event,
  starts, abandons, launches, publishes, captures, stores, asks_stop, removes, happen, all_happen,
}
use librova_inpx_web.Scan.Jobs.Rules.{
  Agrees, as_job, IsJob, Keeps, launch-Keeps, publish-Keeps, capture-Keeps, store-Keeps,
  ask_stop-Keeps,
}
use librova_inpx_web.Scan.Jobs.Invariant.{
  going, IsService, all_happen-IsService, change-going, happen-IsService, happen-next,
}

module _ (j : ℕ) where
  find_sound :
      (P : Job → Type 0) (jobs : List Job) {job : Job}
      → All P jobs
      → find j jobs ≡ some job
      → P job × (id job ≡ j)
  unfolding find
  find_sound P [] h e = absurd (cc)
  find_sound P (k ∷ jobs) h e = elim (Bool-cases (id k == j)) [
    | inl t ↦
        let same = some_inj (rw t at e) in
        (subst P same h.0, ap id (sym same) ∙ (==_iff (id k) j).0 t)
    | inr t ↦ find_sound P jobs h.1 (rw t at e)
  ]

  find-change_self :
      (f : Job → Job) (jobs : List Job) {job : Job}
      → (id (f job) ≡ id job)
      → find j jobs ≡ some job
      → find j (change j f jobs) ≡ some (f job)
  unfolding find change
  find-change_self f [] kept e = absurd (cc)
  find-change_self f (k ∷ jobs) {job} kept e = elim (Bool-cases (id k == j)) [
    | inl t ↦
        let same : k ≡ job = some_inj (rw t at e) in
        rw (t, same) (rw kept (rw (ap (λ (x : Job). id x == j) (sym same) ∙ t) refl))
    | inr t ↦ rw (t, t) (find-change_self f jobs kept (rw t at e))
  ]

  find-change_ne :
      (i : ℕ) (f : Job → Job) (jobs : List Job)
      → i ≢ j
      → All (λ job. id (f job) ≡ id job) jobs
      → find j (change i f jobs) ≡ find j jobs
  unfolding find change
  find-change_ne i f [] ne kept = refl
  find-change_ne i f (k ∷ jobs) ne kept = elim (Bool-cases (id k == i)) [
    | inl t ↦
        let other : (id k == j) ≡ false = ground arith in
        rw (t, kept.0, other) (find-change_ne i f jobs ne kept.1)
    | inr t ↦ rw t (ap (λ o. if id k == j then some k else o) (find-change_ne i f jobs ne kept.1))
  ]

  find-erase_ne : (i : ℕ) (jobs : List Job) → i ≢ j → find j (erase i jobs) ≡ find j jobs
  unfolding find erase
  find-erase_ne i [] ne = refl
  find-erase_ne i (k ∷ jobs) ne = elim (Bool-cases (id k == i)) [
    | inl t ↦
        let other : (id k == j) ≡ false = ground arith in rw (t, other) (find-erase_ne i jobs ne)
    | inr t ↦ rw t (ap (λ o. if id k == j then some k else o) (find-erase_ne i jobs ne))
  ]

All-kept :
    (f : Job → Job) (keeps : Keeps f) (jobs : List Job)
    → All IsJob jobs
    → All (λ job. id (f job) ≡ id job) jobs
All-kept f keeps [] h = tt
All-kept f keeps (job ∷ jobs) h = ((keeps job h.0).0, All-kept f keeps jobs h.1)

ended_job :
    (p : Snapshot) (o : Option JobResult) (phase : Phase) {r : JobResult}
    → o ≡ some r
    → Agrees p o phase
    → is_unstarted phase ≡ false
ended_job p none phase e a = absurd (cc)
ended_job p (some q) ended e a = refl
ended_job p (some q) unstarted e a = absurd a
ended_job p (some q) working e a = absurd a
ended_job p (some q) (holding r) e a = absurd a

over_of :
    (p : Snapshot) (o : Option JobResult) (phase : Phase) {r : JobResult}
    → o ≡ some r
    → Agrees p o phase
    → (is_terminal p.status ≡ true) × (r.snapshot ≡ p)
over_of p none phase e a = absurd (cc)
over_of p (some q) ended e a = (a.1, ap (λ (x : JobResult). x.snapshot) (sym (some_inj e)) ∙ a.0)
over_of p (some q) unstarted e a = absurd a
over_of p (some q) working e a = absurd a
over_of p (some q) (holding r) e a = absurd a

-- A job that is over is found as it was, behind whatever happens but its removal.
abbrev Stays : ℕ → Job → Service → Type 0
Stays j job s = find j s.jobs ≡ some job

module _ (j : ℕ) (job : Job) (s : Service) (h : IsService s) (here : Stays j job s) where
  is_sound : IsJob job × (id job ≡ j)
  is_sound = find_sound j IsJob s.jobs h.sound here

  change-Stays :
      (f : Job → Job)
      → Keeps f
      → is_done job ≡ true
      → (i : ℕ) → find j (change i f s.jobs) ≡ some job
  change-Stays f keeps d i = elim (Bool-cases (i == j)) [
    | inl e ↦
        let k = keeps job is_sound.0 in
        rw ((==_iff i j).0 e) (find-change_self j f s.jobs k.0 here ∙ ap some (k.2 d))
    | inr e ↦
        find-change_ne j i f s.jobs (λ p. Bool-absurd _ ((==_iff i j).1 p) e)
          (All-kept f keeps s.jobs h.sound)
        ∙ here
  ]

  over : {r : JobResult} → job.result ≡ some r → is_done job ≡ true
  over e = (over_of job.snapshot job.result job.phase e is_sound.0).0

  is_old : (i : ℕ) {r : JobResult} → job.result ≡ some r → i ≡ j → is_new (find i s.jobs) ≡ false
  is_old i {r} e same = rw (same, here) (ended_job job.snapshot job.result job.phase e is_sound.0)

  still_found :
      (i : ℕ) {r : JobResult} → job.result ≡ some r → find j (abandon_start i s).jobs ≡ some job
  unfolding abandon_start
  still_found i e = elim (Bool-cases (i == j)) [
    | inl t ↦ rw (is_old i e ((==_iff i j).0 t)) here
    | inr t ↦ elim (Bool-cases (is_new (find i s.jobs))) [
      | inl n ↦ rw n (find-erase_ne j i s.jobs (λ p. Bool-absurd _ ((==_iff i j).1 p) t) ∙ here)
      | inr n ↦ rw n here
    ]
  ]

  still_there : (i : ℕ) → i ≢ j → find j (remove i s).1.jobs ≡ some job
  unfolding remove
  still_there i ne = elim (Bool-cases (has_result (find i s.jobs))) [
    | inl n ↦ rw n (find-erase_ne j i s.jobs ne ∙ here)
    | inr n ↦ rw n here
  ]

  started_beside : find j (begin_start s).1.jobs ≡ some job
  unfolding begin_start find
  started_beside =
      let small : id job < s.next_job_id =
        (find_sound j (λ k. id k < s.next_job_id) s.jobs h.below here).0 in
      let other : (s.next_job_id == j) ≡ false =
        ==_false s.next_job_id j (λ e. absurd (omega (arith, small, is_sound.1, e))) in
      elim (Bool-cases (all_done s.jobs)) [ inl d ↦ rw (d, other) here | inr d ↦ rw d here ]

  happen-Stays :
      (e : Event) {r : JobResult} → job.result ≡ some r → e ≢ removes j → Stays j job (happen e s)
  unfolding happen cancel
  happen-Stays starts found ne = started_beside
  happen-Stays (abandons i) found ne = still_found i found
  happen-Stays (launches i) found ne = change-Stays launch launch-Keeps (over found) i
  happen-Stays (publishes i u) found ne = change-Stays (publish u) (publish-Keeps u) (over found) i
  happen-Stays (captures i e) found ne = change-Stays (capture e) (capture-Keeps e) (over found) i
  happen-Stays (stores i) found ne = change-Stays store store-Keeps (over found) i
  happen-Stays (asks_stop i) found ne = change-Stays ask_stop ask_stop-Keeps (over found) i
  happen-Stays (removes i) found ne = still_there i (λ e. ne (ap removes e))

found_result :
    (o : Option Job) {r : JobResult}
    → elim o [ none ↦ none | some job ↦ job.result ] ≡ some r
    → (job : Job) × (o ≡ some job) × (job.result ≡ some r)
found_result none e = absurd (cc)
found_result (some job) e = (job, refl, e)

all_happen-Stays :
    (events : List Event) (j : ℕ) (job : Job) (s : Service) {r : JobResult}
    → IsService s
    → s.next_job_id + length events < 2 ^ 64
    → Stays j job s
    → job.result ≡ some r
    → All (λ e. e ≢ removes j) events
    → Stays j job (all_happen events s) × IsService (all_happen events s)
unfolding all_happen
all_happen-Stays [] j job s h small here e kept = (here, h)
all_happen-Stays (x ∷ events) j job s h small here e kept =
    all_happen-Stays events j job (happen x s) (happen-IsService x s (omega arith) h)
      (omega (arith, happen-next x s)) (happen-Stays j job s h here x e kept.0) e kept.1

all_happen-next :
    (events : List Event) (s : Service)
    → (all_happen events s).next_job_id ≤ s.next_job_id + length events
unfolding all_happen
all_happen-next [] s = omega arith
all_happen-next (e ∷ events) s = omega (arith, all_happen-next events (happen e s), happen-next e s)

-- Once a result can be read, it can be read, and its snapshot is the one that is shown, until the
-- job is removed, whatever else happens to this job and to the others; ids that run out aside.
pub all_happen-try_get_result :
    (before after : List Event) (j : ℕ) (r : JobResult)
    → length before + length after < 2 ^ 64 - 1
    → try_get_result j (all_happen before fresh) ≡ some r
    → All (λ e. e ≢ removes j) after
    → let s = all_happen after (all_happen before fresh) in
      (try_get_result j s ≡ some r) × (try_get_snapshot j s ≡ some r.snapshot)
unfolding try_get_result try_get_snapshot
all_happen-try_get_result before after j r few e kept =
    let s : Service = all_happen before fresh in
    let (job, here, got) = found_result (find j s.jobs) e in
    let (stays, h) =
      all_happen-Stays after j job s (all_happen-IsService before (omega arith))
        (omega (arith, all_happen-next before fresh)) here got kept in
    let a = find_sound j IsJob (all_happen after s).jobs h.sound stays in
    rw (stays, try_get_result, try_get_snapshot)
      (got, ap some (sym (over_of job.snapshot job.result job.phase got a.0).1))

-- The last section of a job's thread ends the only job that was not over.
store-going :
    (j : ℕ) (jobs : List Job) {job : Job}
    → All IsJob jobs
    → find j jobs ≡ some job
    → is_done job ≡ false
    → is_done (store job) ≡ true
    → suc (going (change j store jobs)) ≤ going jobs
unfolding find change going
store-going j [] h e d d' = absurd (cc)
store-going j (k ∷ jobs) {job} h e d d' = elim (Bool-cases (id k == j)) [
  | inl t ↦
      let same : k ≡ job = some_inj (rw t at e) in
      rw (t, same, d, d') (omega (arith, change-going store store-Keeps j jobs h.1))
  | inr t ↦ rw t (omega (arith, store-going j jobs h.1 (rw t at e) d d'))
]

all_done_of_going : (jobs : List Job) → going jobs ≡ 0 → all_done jobs ≡ true
unfolding going all_done
all_done_of_going [] e = refl
all_done_of_going (job ∷ jobs) e = ground (arith, all_done_of_going jobs)

holding_inj : {q r : JobResult} → ◌≡◌ {A = Phase} (holding q) (holding r) → q ≡ r
holding_inj e = cc

held_job :
    (p : Snapshot) (o : Option JobResult) (phase : Phase) (b : Bool) {r : JobResult}
    → phase ≡ holding r
    → Agrees p o phase
    → let job : Job = as_job p o phase b in
      (is_done job ≡ false) × (is_done (store job) ≡ true) × ((store job).result ≡ some r)
held_job p none (holding q) b e a = (a.0, a.1, ap some (holding_inj e))
held_job p none unstarted b e a = absurd (cc)
held_job p none working b e a = absurd (cc)
held_job p none ended b e a = absurd a
held_job p (some q) ended b e a = absurd (cc)
held_job p (some q) unstarted b e a = absurd a
held_job p (some q) working b e a = absurd a
held_job p (some q) (holding r) b e a = absurd a

-- Once the thread of a job has stored what its scan came to, that is the result that clients read,
-- and the next start is not refused.
pub stores-begin_start :
    (before : List Event) (j : ℕ) (job : Job) (r : JobResult)
    → length before < 2 ^ 64 - 1
    → find j (all_happen before fresh).jobs ≡ some job
    → job.phase ≡ holding r
    → let s = happen (stores j) (all_happen before fresh) in
      (try_get_result j s ≡ some r) × ((begin_start s).0 ≡ ok s.next_job_id)
unfolding happen try_get_result begin_start
stores-begin_start before j job r few here e =
    let s : Service = all_happen before fresh in
    let h : IsService s = all_happen-IsService before few in
    let a = find_sound j IsJob s.jobs h.sound here in
    let b = held_job job.snapshot job.result job.phase job.stop_requested e a.0 in
    let d : all_done (change j store s.jobs) ≡ true =
      all_done_of_going (change j store s.jobs)
        (omega (arith, store-going j s.jobs h.sound here b.0 b.1, h.one)) in
    (
      rw (find-change_self j store s.jobs (store-Keeps job a.0).0 here, try_get_result) b.2,
      rw (d, begin_start) refl,
    )
