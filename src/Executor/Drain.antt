-- ===== src/Executor/Drain.antt =====
-- libs/Server/BackendExecutor.cpp: the destructor's join.
use librova_inpx_web.Common.{
  ℕ, zero, suc, ◌+◌, ◌-◌, ◌*◌, ◌≤◌, ◌≡◌, refl, sym, ◌∙◌, Bool, true, false, List, [], ◌∷◌, ◌++◌,
  append-nil, Option, none, some, arith, inl, inr, Bool-cases, length,
}
use mathlib.Core.Path.{ap₂}
use librova_inpx_web.Executor.{
  Executor, fresh, take_task, finish_task, work, Event, stops, happen, all_happen, work_times,
}
use librova_inpx_web.Executor.Order.{
  in_hand, count_in_hand, IsOrdered, happen-IsOrdered, work-IsOrdered, all_happen-IsOrdered,
}

module _ (Task : Type 0) where
  -- The sections of the worker until it returns, if it is stopped.
  abbrev pub sections_left : Executor Task → ℕ
  sections_left e = elim e.returned [
    | true ↦ 0
    | false ↦ suc (count_in_hand Task e.running + 2 * length e.tasks)
  ]

  IsStep : Executor Task → Executor Task → Type 0
  IsStep e e' =
      (sections_left e' ≤ sections_left e - 1)
      × (e'.stopping ≡ e.stopping)
      × (e'.taken_on ≡ e.taken_on)

  take_task-IsStep :
      (ts : List Task) (e : Executor Task)
      → e.stopping ≡ true
      → e.returned ≡ false
      → e.running ≡ none
      → e.tasks ≡ ts
      → IsStep e (take_task Task ts e)
  unfolding take_task IsStep
  take_task-IsStep [] e s d r q = rw s (omega arith, refl, refl)
  take_task-IsStep (task ∷ later) e s d r q = rw (d, r, q) (omega arith, refl, refl)

  finish_task-IsStep :
      (task : Task) (e : Executor Task)
      → e.returned ≡ false
      → e.running ≡ some task
      → IsStep e (finish_task Task task e)
  unfolding finish_task IsStep
  finish_task-IsStep task e d r = rw (d, r) (omega arith, refl, refl)

  same-IsStep : (e : Executor Task) → e.returned ≡ true → IsStep e e
  unfolding IsStep
  same-IsStep e d = rw d (omega arith, refl, refl)

  work-IsStep : (e : Executor Task) → e.stopping ≡ true → IsStep e (work Task e)
  unfolding work
  work-IsStep e s = at_section e.returned e.running refl refl
    where
      at_section :
          (b : Bool) (o : Option Task)
          → e.returned ≡ b
          → e.running ≡ o
          → IsStep e (elim b [
            | true ↦ e
            | false ↦ elim o [
              | none ↦ take_task Task e.tasks e
              | some task ↦ finish_task Task task e
            ]
          ])
      at_section true o d p = same-IsStep e d
      at_section false none d p = take_task-IsStep e.tasks e s d p refl
      at_section false (some task) d p = finish_task-IsStep task e d p

  none_left : (e : Executor Task) → sections_left e ≤ 0 → e.returned ≡ true
  none_left e h = elim (Bool-cases e.returned) [
    | inl d ↦ d
    | inr d ↦ absurd (omega (arith, rw d at h))
  ]

  work_times_returns :
      (n : ℕ) (e : Executor Task)
      → e.stopping ≡ true
      → sections_left e ≤ n
      → ((work_times Task n e).returned ≡ true) × ((work_times Task n e).taken_on ≡ e.taken_on)
  unfolding work_times IsStep
  work_times_returns zero e s h = (none_left e h, refl)
  work_times_returns (suc n) e s h =
      let (less, stop, same) = work-IsStep e s in
      let (d, t) = work_times_returns n (work Task e) (stop ∙ s) (omega (arith, less, h)) in
      (d, t ∙ same)

  work_times-IsOrdered :
      (depth n : ℕ) (e : Executor Task)
      → IsOrdered Task depth e
      → IsOrdered Task depth (work_times Task n e)
  unfolding work_times
  work_times-IsOrdered depth zero e h = h
  work_times-IsOrdered depth (suc n) e h =
      work_times-IsOrdered depth n (work Task e) (work-IsOrdered Task depth e h)

  enough : (e : Executor Task) → sections_left e ≤ 2 * length e.tasks + 2
  enough e = at_state e.returned e.running
    where
      at_state :
          (b : Bool) (o : Option Task)
          → elim b [ true ↦ 0 | false ↦ suc (count_in_hand Task o + 2 * length e.tasks) ]
            ≤ 2 * length e.tasks + 2
      at_state true o = omega arith
      at_state false none = omega arith
      at_state false (some task) = omega arith

  -- Whatever happened before, once the destructor has stopped the executor the worker returns,
  -- after two sections for each queued task and two more at most, and by then every task that was
  -- taken on was run, in order.
  pub work_times_drain :
      (depth : ℕ) (events : List (Event Task))
      → let e = happen Task depth stops (all_happen Task depth events (fresh Task)) in
        let e' = work_times Task (2 * length e.tasks + 2) e in
        (e'.returned ≡ true) × (e'.done ≡ e.taken_on)
  unfolding happen
  work_times_drain depth events =
      let before = all_happen Task depth events (fresh Task) in
      let e = happen Task depth stops before in
      let n = 2 * length e.tasks + 2 in
      let (d, t) = work_times_returns n e refl (enough e) in
      let h =
        work_times-IsOrdered depth n e
          (happen-IsOrdered Task depth stops before (all_happen-IsOrdered Task depth events)) in
      let (no_tasks, no_running, _) = h.drained d in
      (
        d,
        sym (append-nil (work_times Task n e).done)
            ∙ sym (
                ap₂
                  (λ (o : Option Task) (ts : List Task).
                    (work_times Task n e).done ++ (in_hand Task o ++ ts))
                  no_running no_tasks)
            ∙ sym h.ordered
            ∙ t,
      )
