-- ===== src/Executor.antt =====
-- libs/Server/BackendExecutor.cpp and libs/Server/BackendExecutor.hpp: a bounded queue of tasks and
-- the one thread that runs them. Each section under the mutex is one step, so the calls of other
-- threads and the sections of the worker come in any order.
pub mod Order
pub mod Drain
use librova_inpx_web.Common.{
  ℕ, zero, suc, ◌+◌, ◌-◌, Bool, true, false, ◌&&◌, List, [], ◌∷◌, ◌++◌, Option, none, some, Outcome,
  ok, throw, ltb, leb, if◌then◌else◌, length,
}

-- What `Submit` throws.
pub data SubmitError : Type 0 where
  stopped overloaded : SubmitError

module _ (Task : Type 0) where
  -- `m_tasks`, `m_stopping` and `m_activeOperations`; the task that the worker runs, whether the
  -- worker has returned; and, for the record, the tasks taken on and those run, in order.
  pub record Executor : Type 0 where
    pub tasks : List Task
    pub stopping : Bool
    pub active_operations : ℕ
    pub running : Option Task
    pub returned : Bool
    pub taken_on : List Task
    pub done : List Task

  abbrev pub fresh : Executor
  fresh = record {
    tasks = [];
    stopping = false;
    active_operations = 0;
    running = none;
    returned = false;
    taken_on = [];
    done = [];
  }

  -- `Submit`, with `m_maxQueueDepth`.
  pub submit : ℕ → Task → Executor → Outcome SubmitError Executor
  submit max_queue_depth task e =
      if e.stopping
      then throw stopped
      else if leb max_queue_depth (length e.tasks)
      then throw overloaded
      else ok (record e { tasks = e.tasks ++ task ∷ []; taken_on = e.taken_on ++ task ∷ [] })

  -- The first section of `Run`: the worker returns, waits or takes a task.
  pub take_task : List Task → Executor → Executor
  take_task [] e = if e.stopping then record e { returned = true } else e
  take_task (task ∷ later) e = record e {
    tasks = later;
    active_operations = suc e.active_operations;
    running = some task;
  }

  -- The second section of `Run`, behind the task.
  pub finish_task : Task → Executor → Executor
  finish_task task e = record e {
    active_operations =
        if ltb 0 e.active_operations then e.active_operations - 1 else e.active_operations;
    running = none;
    done = e.done ++ task ∷ [];
  }

  -- The next section of the worker.
  pub work : Executor → Executor
  unfolding take_task finish_task
  work e = elim e.returned [
    | true ↦ e
    | false ↦ elim e.running [ none ↦ take_task e.tasks e | some task ↦ finish_task task e ]
  ]

  -- What can happen: a call of `Submit`, a section of the worker, and the destructor's stop.
  pub data Event : Type 0 where
    submits : Task → Event
    works : Event
    stops : Event

  abbrev pub kept : Executor → Outcome SubmitError Executor → Executor
  kept e (ok e') = e'
  kept e (throw x) = e

  pub happen : ℕ → Event → Executor → Executor
  unfolding submit work
  happen max_queue_depth (submits task) e = kept e (submit max_queue_depth task e)
  happen max_queue_depth works e = work e
  happen max_queue_depth stops e = record e { stopping = true }

  pub all_happen : ℕ → List Event → Executor → Executor
  unfolding happen
  all_happen max_queue_depth [] e = e
  all_happen max_queue_depth (event ∷ events) e =
      all_happen max_queue_depth events (happen max_queue_depth event e)

  pub work_times : ℕ → Executor → Executor
  unfolding work
  work_times zero e = e
  work_times (suc n) e = work_times n (work e)
