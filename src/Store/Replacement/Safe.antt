-- ===== src/Store/Replacement/Safe.antt =====
-- libs/App/FileReplacement.cpp: where the contents are behind each ending.
use librova_inpx_web.Common.{
  ◌≡◌, refl, sym, ap, subst, ◌∙◌, Bool, true, false, Option, none, some, inl, inr, Bool-cases,
  Option-cases, Bytes,
}
use librova_inpx_web.Store.Replacement.{
  Files, Faults, Ending, replaced, rethrown, restore_failed, rollback_check_failed, check_failed,
  restore_backup, restore_if, roll_back, clean_up, publish, replace, replace_checked, exists,
  destination, backup, rename,
}

-- What an ending promises.
pub IsSafe : Files → Ending × Files → Type 0
IsSafe old (replaced, new) =
    (new.at_destination ≡ old.at_prepared)
    × (new.at_prepared ≡ none)
    × ((c : Bytes) × (old.at_prepared ≡ some c))
IsSafe old (rethrown, new) = new.at_destination ≡ old.at_destination
IsSafe old (restore_failed, new) = new.at_backup ≡ old.at_destination
IsSafe old (rollback_check_failed, new) = new.at_backup ≡ old.at_destination
IsSafe old (check_failed, new) = new ≡ old

module _ (faults : Faults) where
  restore_backup-IsSafe :
      (old f : Files) {c : Bytes}
      → old.at_destination ≡ some c
      → f.at_backup ≡ some c
      → f.at_destination ≡ none
      → IsSafe old (restore_backup faults f)
  unfolding restore_backup IsSafe
  restore_backup-IsSafe old f e1 e2 e3 = elim (Bool-cases faults.backup_check) [
    | inl b ↦ rw b (e2 ∙ sym e1)
    | inr b ↦ elim (Bool-cases faults.destination_check) [
      | inl d ↦ rw (b, e2, d) (sym e1)
      | inr d ↦ elim (Bool-cases faults.restoring) [
        | inl r ↦ rw (b, e2, d, e3, r) (sym e1)
        | inr r ↦ rw (b, e2, d, e3, r) (sym e1)
      ]
    ]
  ]

  -- Where the rollback begins: the file was moved away, or there was none.
  IsAway : Files → Bool → Files → Type 0
  IsAway old true f =
      (c : Bytes) × (old.at_destination ≡ some c)
      × (f.at_backup ≡ some c)
      × (f.at_destination ≡ none)
  IsAway old false f =
      (old.at_destination ≡ none) × (f.at_backup ≡ none) × (f.at_destination ≡ none)

  restore_if-IsSafe :
      (old : Files) (backed_up : Bool) (f : Files)
      → IsAway old backed_up f
      → IsSafe old (restore_if faults backed_up f)
  unfolding restore_if IsAway IsSafe
  restore_if-IsSafe old true f (c, e1, e2, e3) = restore_backup-IsSafe old f e1 e2 e3
  restore_if-IsSafe old false f (e1, e2, e3) = e3 ∙ sym e1

  backup_kept :
      (old : Files) (backed_up : Bool) (f : Files)
      → IsAway old backed_up f
      → f.at_backup ≡ old.at_destination
  unfolding IsAway
  backup_kept old true f (c, e1, e2, e3) = e2 ∙ sym e1
  backup_kept old false f (e1, e2, e3) = e2 ∙ sym e1

  still-IsAway :
      (old : Files) (backed_up : Bool) (f : Files)
      → IsAway old backed_up f
      → IsAway old backed_up (record f { at_destination = none; at_prepared = none })
  unfolding IsAway
  still-IsAway old true f (c, e1, e2, e3) = (c, e1, e2, refl)
  still-IsAway old false f (e1, e2, e3) = (e1, e2, refl)

  -- The file that was published goes first.
  published-IsSafe :
      (old : Files) (backed_up : Bool) (f : Files) (v : Option Bytes)
      → IsAway old backed_up f
      → IsSafe old
          (roll_back faults backed_up true (record f { at_destination = v; at_prepared = none }))
  unfolding roll_back IsSafe
  published-IsSafe old backed_up f v away = elim (Bool-cases faults.removal) [
    | inl r ↦ rw r (backup_kept old backed_up f away)
    | inr r ↦ rw r (
        restore_if-IsSafe old backed_up (record f { at_destination = none; at_prepared = none })
          (still-IsAway old backed_up f away))
  ]

  clean_up-IsSafe :
      (old : Files) (backed_up : Bool) (f : Files) {c : Bytes}
      → old.at_prepared ≡ some c
      → IsSafe old
          (clean_up faults backed_up (record f { at_destination = some c; at_prepared = none }))
  unfolding clean_up IsSafe
  clean_up-IsSafe old false f {c} e = (sym e, refl, (c, e))
  clean_up-IsSafe old true f {c} e = elim (Bool-cases faults.cleaning_up) [
    | inl r ↦ rw r (sym e, refl, (c, e))
    | inr r ↦ rw r (sym e, refl, (c, e))
  ]

  publish-IsSafe :
      (old : Files) (backed_up : Bool) (f : Files)
      → IsAway old backed_up f
      → f.at_prepared ≡ old.at_prepared
      → IsSafe old (publish faults backed_up f)
  unfolding publish roll_back
  publish-IsSafe old backed_up f away same = elim (Bool-cases faults.publishing) [
    | inl p ↦ rw (p, publish) (restore_if-IsSafe old backed_up f away)
    | inr p ↦ elim (Option-cases f.at_prepared) [
      | inl e ↦ rw (p, e, publish) (restore_if-IsSafe old backed_up f away)
      | inr (c, e) ↦ elim (Bool-cases faults.validation) [
        | inl v ↦ rw (p, e, v, publish) (published-IsSafe old backed_up f (some c) away)
        | inr v ↦ rw (p, e, v, publish) (clean_up-IsSafe old backed_up f (sym same ∙ e))
      ]
    ]
  ]

  absent :
      (old : Files)
      → faults.first_check ≡ false
      → old.at_destination ≡ none
      → exists destination faults.first_check old ≡ some false
  absent old e d = rw (e, d) refl

  replace_absent :
      (old : Files)
      → faults.first_check ≡ false
      → old.at_destination ≡ none
      → replace faults old ≡ publish faults false old
  unfolding replace replace_checked
  replace_absent old e d = ap (λ o. replace_checked faults o old) (absent old e d)

  present :
      (old : Files) {c : Bytes}
      → faults.first_check ≡ false
      → old.at_destination ≡ some c
      → exists destination faults.first_check old ≡ some true
  present old e d = rw (e, d) refl

  moved :
      (old : Files) {c : Bytes}
      → faults.backing_up ≡ false
      → old.at_destination ≡ some c
      → rename destination backup faults.backing_up old
        ≡ some (record old { at_destination = none; at_backup = some c })
  moved old b d = rw (b, d) refl

  replace_present :
      (old : Files) {c : Bytes}
      → faults.first_check ≡ false
      → old.at_destination ≡ some c
      → faults.backing_up ≡ false
      → replace faults old
        ≡ publish faults true (record old { at_destination = none; at_backup = some c })
  unfolding replace replace_checked
  replace_present old e d b = rw (present old e d, replace_checked, moved old b d) refl

  -- Where no file stands at the backup's path, and whatever calls fail: if the replacement
  -- returns, there was a prepared file, the destination holds it, and it is gone from where it
  -- was; if it throws what was thrown inside, the destination is as it was; if the rollback fails,
  -- also on a check of its own, the backup holds what was at the destination; and if the first
  -- check throws, nothing was changed.
  pub replace-IsSafe : (old : Files) → old.at_backup ≡ none → IsSafe old (replace faults old)
  unfolding replace replace_checked IsSafe IsAway roll_back restore_if
  replace-IsSafe old fresh = elim (Bool-cases faults.first_check) [
    | inl e ↦ rw (e, replace, replace_checked) refl
    | inr e ↦ elim (Option-cases old.at_destination) [
      | inl d ↦
          subst (IsSafe old) (sym (replace_absent old e d))
            (publish-IsSafe old false old (d, fresh, d) refl)
      | inr (c, d) ↦ elim (Bool-cases faults.backing_up) [
        | inl b ↦ rw (e, d, b, replace, replace_checked) refl
        | inr b ↦ subst (IsSafe old) (sym (replace_present old e d b)) (
            publish-IsSafe old true (record old { at_destination = none; at_backup = some c })
              (c, d, refl, refl) refl)
      ]
    ]
  ]
