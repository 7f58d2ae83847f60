-- ===== src/Store/Replacement.antt =====
-- libs/App/FileReplacement.cpp: a prepared file takes the place of another. Only three paths are
-- touched, which differ, and each call on the file system is made once at most, so a fault of its
-- own says whether it fails; a rename or a removal that fails leaves the files as they were.
pub mod Safe
use librova_inpx_web.Common.{Bool, true, false, Option, none, some, if◌then◌else◌, Bytes}

-- `preparedPath`, `destinationPath` and `backupPath`.
pub data Place : Type 0 where
  prepared destination backup : Place

-- The contents at these paths.
pub record Files : Type 0 where
  pub at_prepared : Option Bytes
  pub at_destination : Option Bytes
  pub at_backup : Option Bytes

abbrev pub get : Place → Files → Option Bytes
get prepared f = f.at_prepared
get destination f = f.at_destination
get backup f = f.at_backup

abbrev pub put : Place → Option Bytes → Files → Files
put prepared v f = record f { at_prepared = v }
put destination v f = record f { at_destination = v }
put backup v f = record f { at_backup = v }

-- Which calls fail, or, for `validation`, throws.
pub record Faults : Type 0 where
  pub first_check : Bool
  pub backing_up : Bool
  pub publishing : Bool
  pub validation : Bool
  pub cleaning_up : Bool
  pub removal : Bool
  pub backup_check : Bool
  pub destination_check : Bool
  pub restoring : Bool

-- How `ReplaceDestinationWithPreparedFile` ends: it returns; it throws on what was thrown inside;
-- it throws `CFileReplacementRestoreException`; a check for a file throws in the rollback; the
-- first check throws.
pub data Ending : Type 0 where
  replaced rethrown restore_failed rollback_check_failed check_failed : Ending

-- `PathExists`; `none` where it throws.
abbrev pub exists : Place → Bool → Files → Option Bool
exists p true f = none
exists p false f = elim (get p f) [ none ↦ some false | some c ↦ some true ]

-- `RenamePath`, and `RenamePathNoThrow` with an error code.
abbrev pub rename : Place → Place → Bool → Files → Option Files
rename source target true f = none
rename source target false f = elim (get source f) [
  | none ↦ none
  | some c ↦ some (put source none (put target (some c) f))
]

-- `RemovePathNoThrow`; no file is no error.
abbrev pub remove : Place → Bool → Files → Option Files
remove p true f = none
remove p false f = some (put p none f)

module _ (faults : Faults) where
  -- `RestoreBackupOrThrow`.
  pub restore_backup : Files → Ending × Files
  restore_backup f = elim (exists backup faults.backup_check f) [
    | none ↦ (rollback_check_failed, f)
    | some false ↦ (rethrown, f)
    | some true ↦ elim (exists destination faults.destination_check f) [
      | none ↦ (rollback_check_failed, f)
      | some true ↦ (rethrown, f)
      | some false ↦ elim (rename backup destination faults.restoring f) [
        | none ↦ (restore_failed, f)
        | some f' ↦ (rethrown, f')
      ]
    ]
  ]

  pub restore_if : Bool → Files → Ending × Files
  unfolding restore_backup
  restore_if backed_up f = if backed_up then restore_backup f else (rethrown, f)

  -- `RollbackPublishedFileOrThrow`, with `destinationWasBackedUp` and `preparedFileWasPublished`.
  pub roll_back : Bool → Bool → Files → Ending × Files
  unfolding restore_if
  roll_back backed_up false f = restore_if backed_up f
  roll_back backed_up true f = elim (remove destination faults.removal f) [
    | none ↦ (restore_failed, f)
    | some f' ↦ restore_if backed_up f'
  ]

  -- The backup's removal; its failure is logged only.
  pub clean_up : Bool → Files → Ending × Files
  clean_up false f = (replaced, f)
  clean_up true f = elim (remove backup faults.cleaning_up f) [
    | none ↦ (replaced, f)
    | some f' ↦ (replaced, f')
  ]

  -- From the publication to the end of the `try` block, with its handler.
  pub publish : Bool → Files → Ending × Files
  unfolding roll_back clean_up
  publish backed_up f = elim (rename prepared destination faults.publishing f) [
    | none ↦ roll_back backed_up false f
    | some f' ↦ if faults.validation then roll_back backed_up true f' else clean_up backed_up f'
  ]

  -- `ReplaceDestinationWithPreparedFile` behind its check for the destination.
  pub replace_checked : Option Bool → Files → Ending × Files
  unfolding publish roll_back
  replace_checked none f = (check_failed, f)
  replace_checked (some false) f = publish false f
  replace_checked (some true) f = elim (rename destination backup faults.backing_up f) [
    | none ↦ roll_back false false f
    | some f' ↦ publish true f'
  ]

  -- `ReplaceDestinationWithPreparedFile` where the two paths differ.
  pub replace : Files → Ending × Files
  unfolding replace_checked
  replace f = replace_checked (exists destination faults.first_check f) f
