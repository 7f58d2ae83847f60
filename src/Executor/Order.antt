-- ===== src/Executor/Order.antt =====
-- libs/Server/BackendExecutor.cpp: the order of the tasks and the bound of the queue.
use librova_inpx_web.Common.{
  ℕ, suc, ◌-◌, ◌≤◌, ◌<◌, ◌≡◌, refl, sym, ap, ◌∙◌, Bool, true, false, List, [], ◌∷◌, ◌++◌,
  append_assoc, Option, none, some, ok, throw, arith, leb, ltb, if◌then◌else◌, Bool-absurd, length,
  length-append,
}
use mathlib.Core.Path.{ap₂}
use librova_inpx_web.Executor.{
  stopped, overloaded, Executor, fresh, submit, take_task, finish_task, work, Event, submits, works,
  stops, happen, all_happen, kept,
}

leb_false→lt : (m n : ℕ) → leb m n ≡ false → n < m
leb_false→lt m n h = ground arith

module _ (Task : Type 0) where
  abbrev pub in_hand : Option Task → List Task
  in_hand none = []
  in_hand (some task) = task ∷ []

  abbrev pub count_in_hand : Option Task → ℕ
  count_in_hand none = 0
  count_in_hand (some task) = 1

  pub record IsOrdered (max_queue_depth : ℕ) (e : Executor Task) : Type 0 where
    pub ordered : e.taken_on ≡ e.done ++ (in_hand e.running ++ e.tasks)
    pub bounded : length e.tasks ≤ max_queue_depth
    pub counted : e.active_operations ≡ count_in_hand e.running
    pub drained : e.returned ≡ true → (e.tasks ≡ []) × (e.running ≡ none) × (e.stopping ≡ true)

  -- A call that throws leaves the executor as it was.
  behind_tests :
      (depth : ℕ) (stopping is_full : Bool) (e e' : Executor Task)
      → IsOrdered depth e
      → (stopping ≡ false → is_full ≡ false → IsOrdered depth e')
      → IsOrdered depth (
          kept Task e
            (if stopping then throw stopped else if is_full then throw overloaded else ok e'))
  behind_tests depth true is_full e e' h step = h
  behind_tests depth false true e e' h step = h
  behind_tests depth false false e e' h step = step refl refl

  submit-IsOrdered :
      (depth : ℕ) (task : Task) (e : Executor Task)
      → IsOrdered depth e
      → IsOrdered depth (kept Task e (submit Task depth task e))
  unfolding submit
  submit-IsOrdered depth task e h =
      behind_tests depth e.stopping (leb depth (length e.tasks)) e
        (record e { tasks = e.tasks ++ task ∷ []; taken_on = e.taken_on ++ task ∷ [] }) h
        (λ s b. record {
          ordered =
              ap (λ ts. ts ++ task ∷ []) h.ordered
              ∙ append_assoc e.done (in_hand e.running ++ e.tasks) (task ∷ [])
              ∙ ap (λ ts. e.done ++ ts) (append_assoc (in_hand e.running) e.tasks (task ∷ []));
          bounded =
              omega
                (arith, length-append e.tasks (task ∷ []), leb_false→lt depth (length e.tasks) b);
          counted = h.counted;
          drained = λ r. Bool-absurd e.stopping (h.drained r).2 s;
        })

  take_task-IsOrdered :
      (depth : ℕ) (ts : List Task) (e : Executor Task)
      → IsOrdered depth e
      → e.tasks ≡ ts
      → e.running ≡ none
      → IsOrdered depth (take_task Task ts e)
  unfolding take_task
  take_task-IsOrdered depth [] e h q r = settle e.stopping refl
    where
      settle :
          (b : Bool)
          → b ≡ e.stopping
          → IsOrdered depth (if b then record e { returned = true } else e)
      settle false p = h
      settle true p = record {
        ordered = h.ordered;
        bounded = h.bounded;
        counted = h.counted;
        drained = λ _. (q, r, sym p);
      }
  take_task-IsOrdered depth (task ∷ later) e h q r = record {
    ordered =
        h.ordered
        ∙ ap (λ ts. e.done ++ ts) (ap₂ (λ (o : Option Task) (ts : List Task). in_hand o ++ ts) r q);
    bounded = omega (arith, h.bounded, ap (λ (xs : List Task). length xs) q);
    counted = ap suc (h.counted ∙ ap count_in_hand r);
    drained = λ d. absurd (cc (q, (h.drained d).0));
  }

  finish_task-IsOrdered :
      (depth : ℕ) (task : Task) (e : Executor Task)
      → IsOrdered depth e
      → e.running ≡ some task
      → IsOrdered depth (finish_task Task task e)
  unfolding finish_task
  finish_task-IsOrdered depth task e h r = record {
    ordered =
        h.ordered
        ∙ ap (λ (o : Option Task). e.done ++ (in_hand o ++ e.tasks)) r
        ∙ sym (append_assoc e.done (task ∷ []) e.tasks);
    bounded = h.bounded;
    counted = one_less e.active_operations (h.counted ∙ ap count_in_hand r);
    drained = λ d. absurd (cc (r, (h.drained d).1));
  }
    where
      one_less : (n : ℕ) → n ≡ 1 → (if ltb 0 n then n - 1 else n) ≡ 0
      one_less n p = rw p refl

  pub work-IsOrdered :
      (depth : ℕ) (e : Executor Task) → IsOrdered depth e → IsOrdered depth (work Task e)
  unfolding work
  work-IsOrdered depth e h = at_section e.returned e.running refl
    where
      at_section :
          (b : Bool) (o : Option Task)
          → e.running ≡ o
          → IsOrdered depth (elim b [
            | true ↦ e
            | false ↦ elim o [
              | none ↦ take_task Task e.tasks e
              | some task ↦ finish_task Task task e
            ]
          ])
      at_section true o p = h
      at_section false none p = take_task-IsOrdered depth e.tasks e h refl p
      at_section false (some task) p = finish_task-IsOrdered depth task e h p

  pub happen-IsOrdered :
      (depth : ℕ) (event : Event Task) (e : Executor Task)
      → IsOrdered depth e
      → IsOrdered depth (happen Task depth event e)
  unfolding happen
  happen-IsOrdered depth (submits task) e h = submit-IsOrdered depth task e h
  happen-IsOrdered depth works e h = work-IsOrdered depth e h
  happen-IsOrdered depth stops e h = record {
    ordered = h.ordered;
    bounded = h.bounded;
    counted = h.counted;
    drained = λ d. let (t, r, s) = h.drained d in (t, r, refl);
  }

  pub all_happen_keeps :
      (depth : ℕ) (events : List (Event Task)) (e : Executor Task)
      → IsOrdered depth e
      → IsOrdered depth (all_happen Task depth events e)
  unfolding all_happen
  all_happen_keeps depth [] e h = h
  all_happen_keeps depth (event ∷ events) e h =
      all_happen_keeps depth events (happen Task depth event e) (happen-IsOrdered depth event e h)

  -- Whatever calls, stops and sections of the worker come in whatever order, the tasks that were
  -- taken on are those run, then the one in hand, then those queued, each once and in the order in
  -- which they came; the queue keeps to its bound; one operation is active exactly while a task is
  -- in hand; and the worker returns only behind a stop, with no task left.
  pub all_happen-IsOrdered :
      (depth : ℕ) (events : List (Event Task))
      → IsOrdered depth (all_happen Task depth events (fresh Task))
  all_happen-IsOrdered depth events =
      all_happen_keeps depth events (fresh Task) (record {
        ordered = refl;
        bounded = omega arith;
        counted = refl;
        drained = λ d. absurd (cc);
      })
