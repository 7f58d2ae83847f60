-- ===== src/Scan/Jobs/Invariant.antt =====
-- libs/App/InpxScanJobService.cpp: what holds of the jobs whatever happens, and what a client that
-- waits for a result may rely on.
use librova_inpx_web.Common.{
  ℕ, suc, ◌+◌, ◌-◌, ◌%◌, ◌^◌, ◌≤◌, ◌<◌, ◌≡◌, ◌≢◌, refl, sym, subst, true, List, [], ◌∷◌, ◌==◌,
  if◌then◌else◌, inl, inr, Bool-cases, arith, All, length,
}
use librova_inpx_web.Scan.Jobs.{
  Job, Service, fresh, id, is_done, find, change, erase, all_done, fresh_job, begin_start, launch,
  publish, capture, store, ask_stop, cancel, has_result, remove, is_new, abandon_start, Event,
  starts, abandons, launches, publishes, captures, stores, asks_stop, removes, happen, all_happen,
}
use librova_inpx_web.Scan.Jobs.Rules.{
  IsJob, Keeps, launch-Keeps, publish-Keeps, capture-Keeps, store-Keeps, ask_stop-Keeps,
}

-- How many jobs are not over.
unfoldable pub going : List Job → ℕ
going [] = 0
going (job ∷ jobs) = (if is_done job then 0 else 1) + going jobs

abbrev pub Lacks : ℕ → List Job → Type 0
Lacks j = All (λ job. id job ≢ j)

abbrev pub Distinct : List Job → Type 0
Distinct [] = Unit
Distinct (job ∷ jobs) = Lacks (id job) jobs × Distinct jobs

-- At most one job is not over, no two jobs have one id, each id is below the next one, and each job
-- has a result exactly from the moment on that it is over.
pub record IsService (s : Service) : Type 0 where
  pub one : going s.jobs ≤ 1
  pub distinct : Distinct s.jobs
  pub below : All (λ job. id job < s.next_job_id) s.jobs
  pub sound : All IsJob s.jobs

module _ (f : Job → Job) (keeps : Keeps f) (j : ℕ) where
  change_sound : (jobs : List Job) → All IsJob jobs → All IsJob (change j f jobs)
  unfolding change
  change_sound [] h = tt
  change_sound (job ∷ jobs) h = elim (Bool-cases (id job == j)) [
    | inl e ↦ rw e ((keeps job h.0).1, change_sound jobs h.1)
    | inr e ↦ rw e (h.0, change_sound jobs h.1)
  ]

  pub change-going : (jobs : List Job) → All IsJob jobs → going (change j f jobs) ≤ going jobs
  unfolding change going
  change-going [] h = omega arith
  change-going (job ∷ jobs) h =
      let rest = change-going jobs h.1 in
      elim (Bool-cases (id job == j)) [
        | inl e ↦ elim (Bool-cases (is_done job)) [
          | inl d ↦ rw (e, (keeps job h.0).2 d, d) (omega (arith, rest))
          | inr d ↦ rw (e, d) (ground arith)
        ]
        | inr e ↦ rw e (omega (arith, rest))
      ]

  change-All_id :
      (P : ℕ → Type 0) (jobs : List Job)
      → All IsJob jobs
      → All (λ job. P (id job)) jobs
      → All (λ job. P (id job)) (change j f jobs)
  unfolding change
  change-All_id P [] s h = tt
  change-All_id P (job ∷ jobs) s h = elim (Bool-cases (id job == j)) [
    | inl e ↦ rw e (subst P (sym (keeps job s.0).0) h.0, change-All_id P jobs s.1 h.1)
    | inr e ↦ rw e (h.0, change-All_id P jobs s.1 h.1)
  ]

  change-Distinct : (jobs : List Job) → All IsJob jobs → Distinct jobs → Distinct (change j f jobs)
  unfolding change
  change-Distinct [] s h = tt
  change-Distinct (job ∷ jobs) s h =
      let rest = change-All_id (λ i. i ≢ id job) jobs s.1 h.0 in
      let tail = change-Distinct jobs s.1 h.1 in
      elim (Bool-cases (id job == j)) [
        | inl e ↦
            rw e (subst (λ (i : ℕ). Lacks i (change j f jobs)) (sym (keeps job s.0).0) rest, tail)
        | inr e ↦ rw e (rest, tail)
      ]

  change-IsService : (s : Service) → IsService s → IsService (record s { jobs = change j f s.jobs })
  change-IsService s h = record {
    one = omega (arith, change-going s.jobs h.sound, h.one);
    distinct = change-Distinct s.jobs h.sound h.distinct;
    below = change-All_id (λ i. i < s.next_job_id) s.jobs h.sound h.below;
    sound = change_sound s.jobs h.sound;
  }

module _ (j : ℕ) where
  erase-All : (P : Job → Type 0) (jobs : List Job) → All P jobs → All P (erase j jobs)
  unfolding erase
  erase-All P [] h = tt
  erase-All P (job ∷ jobs) h = elim (Bool-cases (id job == j)) [
    | inl e ↦ rw e (erase-All P jobs h.1)
    | inr e ↦ rw e (h.0, erase-All P jobs h.1)
  ]

  erase-Distinct : (jobs : List Job) → Distinct jobs → Distinct (erase j jobs)
  unfolding erase
  erase-Distinct [] h = tt
  erase-Distinct (job ∷ jobs) h = elim (Bool-cases (id job == j)) [
    | inl e ↦ rw e (erase-Distinct jobs h.1)
    | inr e ↦ rw e (erase-All (λ k. id k ≢ id job) jobs h.0, erase-Distinct jobs h.1)
  ]

  erase-going : (jobs : List Job) → going (erase j jobs) ≤ going jobs
  unfolding erase going
  erase-going [] = omega arith
  erase-going (job ∷ jobs) = ground (arith, erase-going jobs)

  erase-IsService : (s : Service) → IsService s → IsService (record s { jobs = erase j s.jobs })
  erase-IsService s h = record {
    one = omega (arith, erase-going s.jobs, h.one);
    distinct = erase-Distinct s.jobs h.distinct;
    below = erase-All (λ job. id job < s.next_job_id) s.jobs h.below;
    sound = erase-All IsJob s.jobs h.sound;
  }

pub going-all_done : (jobs : List Job) → all_done jobs ≡ true → going jobs ≡ 0
unfolding going all_done
going-all_done [] h = refl
going-all_done (job ∷ jobs) h = ground (arith, going-all_done jobs)

below-weaken :
    (n : ℕ) (jobs : List Job)
    → All (λ job. id job < n) jobs
    → All (λ job. id job < suc n) jobs × Lacks n jobs
below-weaken n [] h = (tt, tt)
below-weaken n (job ∷ jobs) h =
    let r = below-weaken n jobs h.1 in
    ((omega (arith, h.0), r.0), (λ e. absurd (omega (arith, h.0, e)), r.1))

added-IsService :
    (s : Service) (next : ℕ)
    → next ≡ suc s.next_job_id
    → all_done s.jobs ≡ true
    → IsService s
    → IsService (record { jobs = fresh_job s.next_job_id ∷ s.jobs; next_job_id = next })
unfolding going
added-IsService s next e d h =
    let r = below-weaken s.next_job_id s.jobs h.below in
    record {
      one = omega (arith, going-all_done s.jobs d);
      distinct = (r.1, h.distinct);
      below = (omega arith, subst (λ (n : ℕ). All (λ job. id job < n) s.jobs) (sym e) r.0);
      sound = (refl, h.sound);
    }

begin_start-IsService :
    (s : Service) → suc s.next_job_id < 2 ^ 64 → IsService s → IsService (begin_start s).1
unfolding begin_start
begin_start-IsService s small h = elim (Bool-cases (all_done s.jobs)) [
  | inl d ↦ rw d (added-IsService s (suc s.next_job_id % 2 ^ 64) (omega arith) d h)
  | inr d ↦ rw d h
]

abandon_start-IsService : (j : ℕ) (s : Service) → IsService s → IsService (abandon_start j s)
unfolding abandon_start
abandon_start-IsService j s h = elim (Bool-cases (is_new (find j s.jobs))) [
  | inl e ↦ rw e (erase-IsService j s h)
  | inr e ↦ rw e h
]

remove-IsService : (j : ℕ) (s : Service) → IsService s → IsService (remove j s).1
unfolding remove
remove-IsService j s h = elim (Bool-cases (has_result (find j s.jobs))) [
  | inl e ↦ rw e (erase-IsService j s h)
  | inr e ↦ rw e h
]

pub happen-IsService :
    (e : Event) (s : Service) → suc s.next_job_id < 2 ^ 64 → IsService s → IsService (happen e s)
unfolding happen cancel
happen-IsService starts s small h = begin_start-IsService s small h
happen-IsService (abandons j) s small h = abandon_start-IsService j s h
happen-IsService (launches j) s small h = change-IsService launch launch-Keeps j s h
happen-IsService (publishes j u) s small h = change-IsService (publish u) (publish-Keeps u) j s h
happen-IsService (captures j e) s small h = change-IsService (capture e) (capture-Keeps e) j s h
happen-IsService (stores j) s small h = change-IsService store store-Keeps j s h
happen-IsService (asks_stop j) s small h = change-IsService ask_stop ask_stop-Keeps j s h
happen-IsService (removes j) s small h = remove-IsService j s h

pub happen-next : (e : Event) (s : Service) → (happen e s).next_job_id ≤ suc s.next_job_id
unfolding happen cancel remove abandon_start begin_start
happen-next starts s = ground arith
happen-next (abandons j) s = ground arith
happen-next (launches j) s = omega arith
happen-next (publishes j u) s = omega arith
happen-next (captures j e) s = omega arith
happen-next (stores j) s = omega arith
happen-next (asks_stop j) s = omega arith
happen-next (removes j) s = ground arith

all_happen_from :
    (events : List Event) (s : Service)
    → s.next_job_id + length events < 2 ^ 64
    → IsService s
    → IsService (all_happen events s)
unfolding all_happen
all_happen_from [] s small h = h
all_happen_from (e ∷ events) s small h =
    all_happen_from events (happen e s) (omega (arith, happen-next e s))
      (happen-IsService e s (omega arith) h)

-- Whatever clients and job threads do in whatever order, as long as the ids do not run out, at most
-- one job is not over, no two jobs have one id, and each job has a result exactly from the moment
-- on that its status is terminal, with the snapshot that is shown.
pub all_happen-IsService :
    (events : List Event) → length events < 2 ^ 64 - 1 → IsService (all_happen events fresh)
unfolding going
all_happen-IsService events few =
    all_happen_from events fresh (omega arith)
      (record { one = omega arith; distinct = tt; below = tt; sound = tt })
