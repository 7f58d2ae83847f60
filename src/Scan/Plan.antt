-- ===== src/Scan/Plan.antt =====
-- libs/App/InpxScanJobService.cpp, the planning in `RunScan`: which segments of the catalogue are
-- read again and which are taken over from the last scan, with the archives that are looked at.
pub mod Archives
pub mod Segments
pub mod Totals
use librova_inpx_web.Common.{
  ℕ, ◌+◌, Bool, true, false, not, ◌&&◌, ◌||◌, List, [], ◌∷◌, ◌++◌, Option, none, some, ltb, ◌==◌,
  if◌then◌else◌, Bytes, bytes_eq,
}
use librova_inpx_web.Inpx.Record.{Record}
use librova_inpx_web.Inpx.Segment.{Segment, Warning, Summary, ParseError}

-- `EInpxScanMode`, `EInpxSegmentChange`, `EInpxArchiveGuardPhase`.
pub data ScanMode : Type 0 where
  initial_scan rescan : ScanMode

pub data SegmentChange : Type 0 where
  unchanged added changed removed : SegmentChange

pub data GuardPhase : Type 0 where
  file_state_read manifest_read payloads_validated : GuardPhase

-- `SInpxArchiveFileState`; the time is only compared.
pub record FileState : Type 0 where
  pub file_size_bytes : ℕ
  pub mtime_ticks : ℕ

abbrev pub same_state : FileState → FileState → Bool
same_state a b = a.file_size_bytes == b.file_size_bytes && a.mtime_ticks == b.mtime_ticks

-- `SInpxSegmentPayload` with its fingerprint.
pub record Payload : Type 0 where
  pub segment : Segment
  pub fingerprint : Bytes

-- `SExistingInpxSegment`.
pub record Existing : Type 0 where
  pub id : ℕ
  pub inp_entry_name : Bytes
  pub archive_name : Bytes
  pub inp_fingerprint : Bytes
  pub segment_order : ℕ
  pub summary : Summary
  pub is_available : Bool
  pub requires_archive : Bool
  pub resolved_archive_path : Option Bytes
  pub archive_file_state : FileState
  pub archive_manifest_fingerprint : Option Bytes

-- `SInpxSegmentPlan`.
pub record Plan : Type 0 where
  pub change : SegmentChange
  pub inp_entry_name : Bytes
  pub archive_name : Bytes
  pub fingerprint : Bytes
  pub summary : Summary
  pub records : List Record
  pub warnings : List Warning
  pub deleted_lib_ids : List Bytes
  pub segment_order : ℕ
  pub requires_archive : Bool
  pub resolved_archive_path : Bytes
  pub archive_file_state : FileState
  pub archive_manifest_fingerprint : Bytes
  pub existing_id : Option ℕ
  pub archive_opened : Bool

-- `SInpxArchiveScanGuard`.
pub record Guard : Type 0 where
  pub archive_name : Bytes
  pub resolved_archive_path : Bytes
  pub file_state : FileState
  pub manifest_fingerprint : Bytes
  pub phase : GuardPhase

-- What the planning keeps: `plans`, `archiveGuards`, `plannedRecordCount`, `retainedWarningCount`
-- and `ArchiveBytesRead` of the snapshot.
pub record Planner : Type 0 where
  pub plans : List Plan
  pub guards : List Guard
  pub planned_record_count : ℕ
  pub retained_warning_count : ℕ
  pub archive_bytes_read : ℕ

-- What the planning throws.
pub data PlanError : Type 0 where
  too_many_segments duplicate_name guard_missing invalid_record too_many_records : PlanError
  archive_inaccessible archive_damaged no_segments : PlanError
  unparsed : ParseError → PlanError

-- `archiveGuards.find`, and the assignment to what it finds.
unfoldable pub find_guard : Bytes → List Guard → Option Guard
find_guard path [] = none
find_guard path (g ∷ gs) =
    if bytes_eq g.resolved_archive_path path then some g else find_guard path gs

unfoldable pub set_guard : Bytes → Guard → List Guard → List Guard
set_guard path new [] = []
set_guard path new (g ∷ gs) =
    (if bytes_eq g.resolved_archive_path path then new else g) ∷ set_guard path new gs

-- `existingSegments.find`, and `currentSegmentNamesUtf8.contains`.
unfoldable pub find_existing : Bytes → List Existing → Option Existing
find_existing name [] = none
find_existing name (e ∷ es) =
    if bytes_eq e.inp_entry_name name then some e else find_existing name es

unfoldable pub has_name : Bytes → List Plan → Bool
has_name name [] = false
has_name name (p ∷ ps) = bytes_eq p.inp_entry_name name || has_name name ps
