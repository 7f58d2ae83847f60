-- ===== src/Scan/Guards.antt =====
-- libs/App/InpxScanJobService.cpp, `ValidateArchiveGuards`: the test of the archives before what a
-- scan wrote is committed.
pub mod Kept
use librova_inpx_web.Common.{
  Bool, true, false, not, ◌&&◌, ◌||◌, List, [], ◌∷◌, Option, none, some, Outcome, ok, throw, ◌>>=◌,
  if◌then◌else◌, Bytes, bytes_eq,
}
use librova_inpx_web.Inpx.Text.{is_nil}
use librova_inpx_web.Scan.Plan.{
  SegmentChange, removed, GuardPhase, file_state_read, FileState, same_state, Plan, Guard,
  find_guard,
}
use librova_inpx_web.Scan.Plan.Archives.{Disk}

pub data GuardError : Type 0 where
  guard_missing conflicting_guard conflicting_manifest conflicting_manifests : GuardError
  archive_unreadable archive_changed : GuardError

abbrev pub is_removed : SegmentChange → Bool
is_removed removed = true
is_removed _ = false

abbrev pub needs_guard : Plan → Bool
needs_guard p = not (is_removed p.change || not p.requires_archive)

-- `guard.Phase != FileStateRead`.
abbrev pub is_opened : GuardPhase → Bool
is_opened file_state_read = false
is_opened _ = true

-- `stateOnlyManifestExpectations.find`.
unfoldable pub find_expected : Bytes → List (Bytes × Bytes) → Option Bytes
find_expected path [] = none
find_expected path ((key, manifest) ∷ es) =
    if bytes_eq key path then some manifest else find_expected path es

abbrev pub check_expected :
    Plan → List (Bytes × Bytes) → Option Bytes → Outcome GuardError (List (Bytes × Bytes))
check_expected p es none = ok ((p.resolved_archive_path, p.archive_manifest_fingerprint) ∷ es)
check_expected p es (some manifest) =
    if not (bytes_eq manifest p.archive_manifest_fingerprint)
    then throw conflicting_manifests
    else ok es

abbrev pub check_found :
    Plan → List (Bytes × Bytes) → Option Guard → Outcome GuardError (List (Bytes × Bytes))
check_found p es none = throw guard_missing
check_found p es (some g) =
    if not (same_state p.archive_file_state g.file_state) || is_nil p.archive_manifest_fingerprint
    then throw conflicting_guard
    else if is_opened g.phase
    then (if not (bytes_eq p.archive_manifest_fingerprint g.manifest_fingerprint)
        then throw conflicting_manifest
        else ok es)
    else check_expected p es (find_expected p.resolved_archive_path es)

-- The loop over the plans.
unfoldable pub check_plans :
    List Guard → List Plan → List (Bytes × Bytes) → Outcome GuardError (List (Bytes × Bytes))
unfolding find_expected find_guard
check_plans guards [] es = ok es
check_plans guards (p ∷ ps) es =
    (if needs_guard p then check_found p es (find_guard p.resolved_archive_path guards) else ok es)
    >>= check_plans guards ps

module _ (disk : Disk) where
  abbrev pub check_manifest : Guard → Option Bytes → Outcome GuardError (Unit {0})
  check_manifest g none = throw archive_unreadable
  check_manifest g (some manifest) =
      if not (bytes_eq manifest g.manifest_fingerprint) then throw archive_changed else ok tt

  abbrev pub check_state : Guard → Option FileState → Outcome GuardError (Unit {0})
  check_state g none = throw archive_unreadable
  check_state g (some state) =
      if not (same_state state g.file_state)
      then throw archive_changed
      else if is_opened g.phase
      then check_manifest g (disk.manifest g.resolved_archive_path)
      else ok tt

  -- The loop over the guards, with the archives as they are on the disk then.
  unfoldable pub check_guards : List Guard → Outcome GuardError (Unit {0})
  check_guards [] = ok tt
  check_guards (g ∷ gs) =
      check_state g (disk.file_state g.resolved_archive_path) >>= λ done. check_guards gs

  unfoldable pub validate_archive_guards : List Plan → List Guard → Outcome GuardError (Unit {0})
  unfolding check_plans check_guards
  validate_archive_guards plans guards = check_plans guards plans [] >>= λ es. check_guards guards
