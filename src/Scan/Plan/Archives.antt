-- ===== src/Scan/Plan/Archives.antt =====
-- libs/App/InpxScanJobService.cpp: `readArchiveState`, `readArchiveManifest` and
-- `validateArchivePayloads` of the planning.
pub mod Guards
use librova_inpx_web.Common.{
  ℕ, ◌+◌, Bool, true, false, not, List, [], ◌∷◌, ◌++◌, Option, none, some, Outcome, ok, throw,
  ◌>>=◌, ltb, if◌then◌else◌, Bytes, bytes_eq, length,
}
use librova_inpx_web.Scan.Plan.{
  GuardPhase, file_state_read, manifest_read, payloads_validated, FileState, Plan, Guard, Planner,
  PlanError, archive_inaccessible, archive_damaged, find_guard, set_guard,
}

-- The archives on the disk: `ResolvePortableInpxArchivePath`, `ReadInpxArchiveFileState`, and
-- `ComputeManifestFingerprint` and `ReadValidatedManifest` of `CInpxArchiveReader`, which all may
-- throw. The planning asks each of them once for a path at most.
pub record Disk : Type 0 where
  pub resolve : Bytes → Option Bytes
  pub file_state : Bytes → Option FileState
  pub manifest : Bytes → Option Bytes
  pub validated_manifest : Bytes → Option (Bytes × ℕ)

abbrev pub or_throw {ℓ} : {A : Type ℓ} → PlanError → Option A → Outcome PlanError A
or_throw e none = throw e
or_throw e (some a) = ok a

abbrev pub with_guard : Bytes → Guard → Planner → Planner
with_guard path g s = record s { guards = set_guard path g s.guards }

module _ (disk : Disk) (max_segments : ℕ) where
  -- A new guard in `readArchiveState`.
  abbrev pub add_guard : Bytes → Bytes → FileState → Planner → Planner
  add_guard name path state s = record s {
    guards =
        s.guards
        ++ record {
          archive_name = name;
          resolved_archive_path = path;
          file_state = state;
          manifest_fingerprint = [];
          phase = file_state_read;
        }
          ∷ [];
  }

  abbrev pub at_state : Bytes → FileState → Plan → Plan
  at_state path state p = record p { resolved_archive_path = path; archive_file_state = state }

  abbrev pub read_state_at :
      Bytes → Plan → Planner → Option Guard → Outcome PlanError (Plan × Planner)
  read_state_at path p s (some g) = ok (at_state path g.file_state p, s)
  read_state_at path p s none =
      if not (ltb (length s.guards) max_segments)
      then throw archive_inaccessible
      else or_throw archive_inaccessible (disk.file_state path) >>= λ state.
          ok (at_state path state p, add_guard p.archive_name path state s)

  unfoldable pub read_archive_state : Plan → Planner → Outcome PlanError (Plan × Planner)
  unfolding find_guard
  read_archive_state p s = or_throw archive_inaccessible (disk.resolve p.archive_name) >>= λ path.
      read_state_at path p s (find_guard path s.guards)

  -- `guard.Phase == FileStateRead` in `readArchiveManifest`.
  abbrev pub read_manifest_of :
      Plan → Planner → Guard → GuardPhase → Outcome PlanError (Plan × Planner)
  read_manifest_of p s g file_state_read =
      or_throw archive_damaged (disk.manifest p.resolved_archive_path) >>= λ m. ok (
        record p { archive_opened = true; archive_manifest_fingerprint = m },
        with_guard p.resolved_archive_path
            (record g { manifest_fingerprint = m; phase = manifest_read }) s,
      )
  read_manifest_of p s g _ =
      ok (record p { archive_manifest_fingerprint = g.manifest_fingerprint }, s)

  abbrev pub read_manifest_at : Plan → Planner → Option Guard → Outcome PlanError (Plan × Planner)
  read_manifest_at p s none = throw archive_damaged
  read_manifest_at p s (some g) = read_manifest_of p s g g.phase

  unfoldable pub read_archive_manifest : Plan → Planner → Outcome PlanError (Plan × Planner)
  unfolding find_guard set_guard
  read_archive_manifest p s = read_manifest_at p s (find_guard p.resolved_archive_path s.guards)

  abbrev pub validate_of : Plan → Planner → Guard → GuardPhase → Outcome PlanError Planner
  validate_of p s g payloads_validated = ok s
  validate_of p s g file_state_read = throw archive_damaged
  validate_of p s g manifest_read =
      or_throw archive_damaged (disk.validated_manifest p.resolved_archive_path) >>= λ read.
      if not (bytes_eq read.0 g.manifest_fingerprint)
      then throw archive_damaged
      else ok
          (record (with_guard p.resolved_archive_path (record g { phase = payloads_validated }) s) {
            archive_bytes_read = s.archive_bytes_read + read.1;
          })

  abbrev pub validate_at : Plan → Planner → Option Guard → Outcome PlanError Planner
  validate_at p s none = throw archive_damaged
  validate_at p s (some g) = validate_of p s g g.phase

  unfoldable pub validate_archive_payloads : Plan → Planner → Outcome PlanError Planner
  unfolding find_guard set_guard
  validate_archive_payloads p s = validate_at p s (find_guard p.resolved_archive_path s.guards)
