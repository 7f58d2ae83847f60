-- ===== src/Tests/Jobs.antt =====
-- libs/App/InpxScanJobService.cpp and libs/Database/CatalogStatisticsMaintenance.cpp at concrete
-- inputs: the jobs of scans, their memory, and the catalog behind them.
use librova_inpx_web.Common.{
  ◌⊎◌, ℕ, ◌+◌, ◌*◌, ◌≤◌, ◌≡◌, refl, ap, true, false, List, [], ◌∷◌, ◌++◌, none, some, ok, Bytes,
  codes, map, arith,
}
use librova_inpx_web.Common.Int.{pos}
use librova_inpx_web.Scan.Budget.{
  worker_window, in_flight_budget, manifest_budget, planning_budget, cover_budget, budgets_fit,
}
use librova_inpx_web.Scan.Coordinator.{running, completed}
use librova_inpx_web.Scan.Jobs.{
  Job, JobResult, Event, starts, launches, publishes, captures, stores, asks_stop, removes, returns,
  run, fresh, find, change, all_done, begin_start, happen, all_happen, try_get_result,
  try_get_snapshot, holding,
}
use librova_inpx_web.Scan.Jobs.Invariant.{IsService, all_happen-IsService}
use librova_inpx_web.Scan.Jobs.Results.{all_happen-try_get_result, stores-begin_start}
use librova_inpx_web.Catalog.Locations.{
  Availability, available, missing_from_index, Location, Tables, finish,
}
use librova_inpx_web.Catalog.Locations.Listed.{view, view_after, finish_lem}
use librova_inpx_web.Catalog.Locations.Statistics.{missing, finish-missing}
use librova_inpx_web.Catalog.Covers.{Cache, Covers, Write, write_books}
use librova_inpx_web.Catalog.Covers.Files.{total}
use librova_inpx_web.Catalog.Covers.Balance.{IsCounted}
use librova_inpx_web.Catalog.Covers.Counted.{IsNormal, IsOnDisk}
use librova_inpx_web.Catalog.Covers.Budget.{empty, ExceedsBudget, write_books-IsCounted}

budgets_fit_example :
    let workers = worker_window 16 0 in
    (1 ≤ workers)
    × (workers ≤ 8)
    × (in_flight_budget 1000000
          + manifest_budget 1000000
          + planning_budget 1000000
          + workers * cover_budget 1000000 workers
        ≤ 1000000)
budgets_fit_example = budgets_fit 1000000 16 0 (omega arith) (omega arith)

-- A scan that is over when its thread has stored its result.
abbrev to_hold : List Event
to_hold =
    starts
    ∷ launches 1
    ∷ publishes 1 (run (codes "Scanning"))
    ∷ captures 1 (returns (codes "Done") 5)
    ∷ []

abbrev to_store : List Event
to_store = to_hold ++ stores 1 ∷ []

all_happen-IsService_example : IsService (all_happen to_store fresh)
all_happen-IsService_example = all_happen-IsService to_store (omega arith)

abbrev scan_result : JobResult
scan_result = record {
  snapshot = record { job_id = 1; status = completed; message = codes "Done"; counters = 0 };
  scan_result = some 5;
  error = none;
}

to_store-result : try_get_result 1 (all_happen to_store fresh) ≡ some scan_result
unfolding try_get_result all_happen happen begin_start all_done change find
to_store-result = refl

-- Another scan, and a stop that comes too late.
abbrev later : List Event
later = asks_stop 1 ∷ starts ∷ removes 2 ∷ []

removed_id : Event → ℕ
removed_id (removes i) = i
removed_id _ = 0

all_happen-try_get_result_example :
    let s = all_happen later (all_happen to_store fresh) in
    (try_get_result 1 s ≡ some scan_result) × (try_get_snapshot 1 s ≡ some scan_result.snapshot)
unfolding removed_id
all_happen-try_get_result_example =
    all_happen-try_get_result to_store later 1 scan_result (omega arith) to_store-result (
      (λ e. absurd (cc)),
      ((λ e. absurd (cc)), ((λ e. absurd (omega (arith, ap removed_id e))), tt)),
    )

abbrev held_job : Job
held_job = record {
  snapshot = record { job_id = 1; status = running; message = codes "Scanning"; counters = 0 };
  result = none;
  phase = holding scan_result;
  stop_requested = false;
}

to_hold-find : find 1 (all_happen to_hold fresh).jobs ≡ some held_job
unfolding all_happen happen begin_start all_done change find
to_hold-find = refl

stores-begin_start_example :
    let s = happen (stores 1) (all_happen to_hold fresh) in
    (try_get_result 1 s ≡ some scan_result) × ((begin_start s).0 ≡ ok s.next_job_id)
stores-begin_start_example =
    stores-begin_start to_hold 1 held_job scan_result (omega arith) to_hold-find refl

-- One book that the scan of segment 4 saw, and one that it did not see.
abbrev location : ℕ → Availability → Bytes → Location
location id a seen = record {
  book_id = id;
  source_id = 1;
  segment_id = 4;
  lib_id = codes "7";
  availability = a;
  present_in_segment = true;
  last_seen_scan_id = some seen;
}

abbrev tables : Tables
tables = record {
  locations = location 1 missing_from_index (codes "new") ∷ location 2 available (codes "old") ∷ [];
  segments = record { id = 4; source_id = 1; segment_order = 0; availability = available } ∷ [];
  deletions = [];
  unavailable_book_count = pos 1;
}

finish_lem_example :
    map view (finish (codes "new") 1 (4 ∷ []) tables).0.locations
    ≡ map (view_after (codes "new") 1 (4 ∷ []) tables) tables.locations
finish_lem_example = finish_lem (codes "new") 1 (4 ∷ []) tables

finish-missing_example :
    let after = (finish (codes "new") 1 (4 ∷ []) tables).0 in
    after.unavailable_book_count ≡ pos (missing after.locations)
unfolding missing
finish-missing_example = finish-missing (codes "new") 1 (4 ∷ []) tables refl

-- A cache where each path stands for itself, and each file has three bytes; two are too much.
abbrev cache : Cache
cache = record {
  try_normalize = λ p. some p;
  is_file = λ p. true;
  file_size = λ p. 3;
  max_cover_cache_bytes = 5;
}

-- A cover that two books show, until one of them gets another.
abbrev writes : List Write
writes =
    (1, some (codes "a"), none) ∷ (2, some (codes "a"), some 3) ∷ (1, some (codes "b"), none) ∷ []

stored : IsNormal cache (some (codes "a")) × IsOnDisk cache (some (codes "a")) none
stored = ((refl, refl), (3, refl, omega arith))

write_books-IsCounted_example :
    ((c : Covers) × (write_books cache writes (empty cache) ≡ ok c)
      × IsCounted c
      × (total c.files ≤ 5))
    ⊎ ExceedsBudget cache (empty cache) writes
write_books-IsCounted_example =
    write_books-IsCounted cache writes (
      stored,
      (((refl, refl), (3, refl, omega arith)), (((refl, refl), (3, refl, omega arith)), tt)),
    )
