-- ===== src/Scan/Budget.antt =====
-- libs/App/InpxScanJobService.cpp and libs/ScanSupport/ScanConcurrency.hpp: how a scan's total is
-- split into budgets and limits, and how many workers parse.
use librova_inpx_web.Common.{
  ℕ, ◌+◌, ◌-◌, ◌*◌, ◌/◌, ◌%◌, ◌^◌, ◌≤◌, ◌<◌, ◌≡◌, min, max, Bool, true, false, ◌&&◌, arith, ltb,
  ◌==◌, if◌then◌else◌,
}

-- The difference of two `std::uint64_t`.
abbrev pub sub64 : ℕ → ℕ → ℕ
sub64 a b = (a + 2 ^ 64 - b) % 2 ^ 64

abbrev pub max_scan_worker_count : ℕ
max_scan_worker_count = 8

-- `EScanWorkerPolicy`.
pub data WorkerPolicy : Type 0 where
  leave_one_thread_free use_all_available : WorkerPolicy

abbrev is_sparing : WorkerPolicy → Bool
is_sparing leave_one_thread_free = true
is_sparing use_all_available = false

-- `ResolveScanWorkerCountForHardware`.
pub worker_count : ℕ → WorkerPolicy → ℕ → ℕ
worker_count hardware policy fallback =
    let observed = if hardware == 0 then fallback else hardware in
    let usable = if is_sparing policy && ltb 1 observed then observed - 1 else observed in
    max 1 (min max_scan_worker_count usable)

-- `ResolveInpxPayloadWorkerWindow` on a machine with so many threads.
pub worker_window : ℕ → ℕ → ℕ
unfolding worker_count
worker_window hardware max_workers =
    if ltb 0 max_workers
    then min max_workers max_scan_worker_count
    else worker_count hardware use_all_available 2

-- `ResolveInFlightPayloadBudget`, `ResolveArchiveManifestBudget`, `ResolvePlanningStateBudget`.
unfoldable pub in_flight_budget : ℕ → ℕ
in_flight_budget total = max 1 (total / 16)

pub manifest_budget : ℕ → ℕ
manifest_budget total = min (total / 2) (max 1 (total / 16))

pub planning_budget : ℕ → ℕ
unfolding manifest_budget
planning_budget total = sub64 (total / 2) (manifest_budget total)

-- `ResolveCoverDecodeBudget`.
pub cover_budget : ℕ → ℕ → ℕ
unfolding in_flight_budget
cover_budget total workers =
    let shared = sub64 (sub64 total (total / 2)) (in_flight_budget total) in
    min (64 * 1024 * 1024) (shared / max 1 workers)

-- `SScanPlanningLimits`.
pub record PlanningLimits : Type 0 where
  pub max_inp_source_bytes : ℕ
  pub max_records : ℕ
  pub max_segments : ℕ
  pub max_filesystem_entries : ℕ

-- `ResolveCoarseCountLimit`.
pub count_limit : ℕ → ℕ → ℕ → ℕ
count_limit budget allowance absolute = min (max 1 (budget / allowance)) absolute

-- `ResolveScanPlanningLimits`.
pub planning_limits : ℕ → PlanningLimits
unfolding count_limit
planning_limits budget = record {
  max_inp_source_bytes = max 1 (budget / 2);
  max_records = count_limit budget 512 (2 ^ 64 - 1);
  max_segments = count_limit budget 4096 (2 ^ 64 - 1);
  max_filesystem_entries = count_limit budget 256 1000000;
}

-- `RequireCollectionRoom`.
abbrev pub has_room : ℕ → ℕ → Bool
has_room size limit = ltb size limit

-- `ComputePercent`. The quotient fits in an `int`: no more is scanned than there is in all.
unfoldable pub percent : ℕ → ℕ → ℕ
percent scanned total = if total == 0 then 0 else min 99 (scanned * 100 % 2 ^ 64 / total)

worker_window_bounds :
    (hardware max_workers : ℕ)
    → (1 ≤ worker_window hardware max_workers)
      × (worker_window hardware max_workers ≤ max_scan_worker_count)
unfolding worker_window
worker_window_bounds hardware max_workers = ground arith

share_bound : (shared workers : ℕ) → workers * (shared / max 1 workers) ≤ shared
share_bound shared workers = grind arith

covers_within :
    (total workers : ℕ)
    → 0 < total
    → total < 2 ^ 64
    → workers * cover_budget total workers + total / 2 + in_flight_budget total ≤ total
unfolding cover_budget in_flight_budget
covers_within total workers positive small =
    let shared : ℕ = sub64 (sub64 total (total / 2)) (max 1 (total / 16)) in
    let e : shared ≡ total - total / 2 - max 1 (total / 16) = omega arith in
    let m : workers * min (64 * 1024 * 1024) (shared / max 1 workers)
        ≤ workers * (shared / max 1 workers) =
      grind arith in
    let h : workers * (shared / max 1 workers) ≤ shared = share_bound shared workers in omega arith

plans_within :
    (total : ℕ) → total < 2 ^ 64 → manifest_budget total + planning_budget total ≡ total / 2
unfolding planning_budget manifest_budget
plans_within total small = omega arith

budgets_within :
    (total workers : ℕ)
    → 0 < total
    → total < 2 ^ 64
    → in_flight_budget total
        + manifest_budget total
        + planning_budget total
        + workers * cover_budget total workers
      ≤ total
budgets_within total workers positive small =
    omega (arith, covers_within total workers positive small, plans_within total small)

-- For a total of at least one and below 2 ^ 64, whatever the machine and the number of workers that
-- is asked for: the number of workers is one to eight, and these four numbers add up to no more than
-- the total, the budgets for payloads in flight, for an archive's manifest and for the planning
-- state, and the budget for the decoding of a cover times the number of workers.
pub budgets_fit :
    (total hardware max_workers : ℕ)
    → 0 < total
    → total < 2 ^ 64
    → let workers = worker_window hardware max_workers in
      (1 ≤ workers)
      × (workers ≤ 8)
      × (in_flight_budget total
            + manifest_budget total
            + planning_budget total
            + workers * cover_budget total workers
          ≤ total)
budgets_fit total hardware max_workers positive small =
    let b = worker_window_bounds hardware max_workers in
    (b.0, b.1, budgets_within total (worker_window hardware max_workers) positive small)
