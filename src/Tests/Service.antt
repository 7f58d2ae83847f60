-- ===== src/Tests/Service.antt =====
-- libs/Server/ServerScanCoordinator.cpp, libs/Server/BackendExecutor.cpp,
-- libs/Server/AuthMiddleware.cpp and libs/App/FileReplacement.cpp at concrete inputs.
use librova_inpx_web.Common.{
  inr, ◌⊎◌, false, Outcome, ok, ℕ, ◌+◌, ◌*◌, length, ◌≡◌, refl, true, false, List, [], ◌∷◌, Option,
  none, some, throw, codes,
}
use librova_inpx_web.Scan.Coordinator.{
  JobStatus, running, completed, Host, host_threw, Coordinator, initial, serve, runtime_status,
  is_held, Ask, to_start, to_poll, to_cancel, answer,
}
use librova_inpx_web.Scan.Coordinator.Status.{IsSettled, answer_status}
use librova_inpx_web.Scan.Coordinator.Protocol.{Owns, serve-Owns}
use librova_inpx_web.Auth.{authorized, authorize}
use librova_inpx_web.Auth.Equality.{authorize_iff}
use librova_inpx_web.Executor.{Event, submits, works, stops, fresh, happen, all_happen, work_times}
use librova_inpx_web.Executor.Order.{IsOrdered, all_happen-IsOrdered}
use librova_inpx_web.Executor.Drain.{work_times_drain}
use librova_inpx_web.Store.Replacement.{Files, Faults, replace}
use librova_inpx_web.Store.Replacement.Safe.{IsSafe, replace-IsSafe}

-- A host that shows the statuses of a list, one after another, for whatever job, and then throws.
abbrev next_status : List JobStatus → List JobStatus × Outcome (Unit {0}) (Option JobStatus)
next_status [] = ([], throw tt)
next_status (s ∷ ss) = (ss, ok (some s))

abbrev host : Host
host = record {
  Machine = List JobStatus;
  Request = Unit {0};
  Snapshot = JobStatus;
  Result = Unit {0};
  Exception = Unit {0};
  status = λ s. s;
  start = λ r m. (m, ok 7);
  snapshot = λ j m. next_status m;
  result = λ j m. (m, ok (some tt));
  remove = λ j m. (m, ok true);
  cancel = λ j m. (m, ok true);
}

abbrev asks : List (Ask host)
asks = to_start tt ∷ to_poll ∷ to_cancel ∷ to_start tt ∷ []

-- The second scan goes on, or its first poll throws.
abbrev statuses : List JobStatus
statuses = running ∷ completed ∷ running ∷ []

abbrev short_statuses : List JobStatus
short_statuses = running ∷ completed ∷ []

abbrev served : List JobStatus → Coordinator host
served m = serve host asks (initial host m)

serve-Owns_example : let c = serve host asks (initial host short_statuses) in Owns c.active c.calls
serve-Owns_example = serve-Owns host asks short_statuses

answer_status_example :
    ((e : Unit {0}) × ((answer host to_cancel (served statuses)).0 ≡ throw (host_threw e)))
    ⊎ (((runtime_status host 4 (answer host to_cancel (served statuses)).1).0
          ≡ is_held host (answer host to_cancel (served statuses)).1.active)
        × IsSettled host (answer host to_cancel (served statuses)).1)
answer_status_example = answer_status host to_cancel (served statuses) 4

abbrev files : Files
files = record {
  at_prepared = some (codes "new");
  at_destination = some (codes "old");
  at_backup = none;
}

-- The new file is refused, and then the old one cannot be moved back.
abbrev faults : Faults
faults = record {
  first_check = false;
  backing_up = false;
  publishing = false;
  validation = true;
  cleaning_up = false;
  removal = false;
  backup_check = false;
  destination_check = false;
  restoring = true;
}

replace-IsSafe_example : IsSafe files (replace faults files)
replace-IsSafe_example = replace-IsSafe faults files refl

-- Two tasks on a queue for one, around a section of the worker.
abbrev events : List (Event ℕ)
events = submits 1 ∷ submits 2 ∷ works ∷ submits 3 ∷ []

all_happen-IsOrdered_example : IsOrdered ℕ 1 (all_happen ℕ 1 events (fresh ℕ))
all_happen-IsOrdered_example = all_happen-IsOrdered ℕ 1 events

work_times_drain_example :
    let e = happen ℕ 1 stops (all_happen ℕ 1 events (fresh ℕ)) in
    let e' = work_times ℕ (2 * length e.tasks + 2) e in
    (e'.returned ≡ true) × (e'.done ≡ e.taken_on)
work_times_drain_example = work_times_drain ℕ 1 events

authorize_iff_example : authorize (codes "key") (some (codes "Bearer key")) ≡ authorized
authorize_iff_example = (authorize_iff (codes "key") (some (codes "Bearer key"))).1 (inr refl)
