-- ===== src/Scan/Plan/Archives/Guards.antt =====
-- libs/App/InpxScanJobService.cpp: what the guards of the planning say of the archives.
use librova_inpx_web.Common.{
  ℕ, ◌+◌, ◌≡◌, refl, ap, sym, subst, ◌∙◌, not, List, [], ◌∷◌, Option, none, some, ok, throw,
  >>=-eq-ok, ok_inj, ltb, if◌then◌else◌, Bytes, bytes_eq, bytes_eq_iff, length, All, All-append,
  Bool-cases, some_inj, inl, inr,
}
use librova_inpx_web.Scan.Plan.{
  GuardPhase, file_state_read, manifest_read, payloads_validated, Plan, Guard, Planner, PlanError,
  archive_inaccessible, archive_damaged, find_guard, set_guard,
}
use librova_inpx_web.Scan.Plan.Archives.{
  Disk, or_throw, with_guard, at_state, read_state_at, read_archive_state, read_manifest_of,
  read_manifest_at, read_archive_manifest, validate_of, validate_at, validate_archive_payloads,
}

or_throw-eq-ok {ℓ} :
    {A : Type ℓ} (e : PlanError) (o : Option A) {a : A} → or_throw e o ≡ ok a → o ≡ some a
or_throw-eq-ok e none h = absurd (cc)
or_throw-eq-ok e (some b) h = ap some (ok_inj h)

module _ (disk : Disk) where
  -- The manifest of an archive, as far as a guard is.
  abbrev pub IsRead : Bytes → Bytes → GuardPhase → Type 0
  IsRead path m file_state_read = Unit
  IsRead path m manifest_read = disk.manifest path ≡ some m
  IsRead path m payloads_validated =
      (disk.manifest path ≡ some m) × (n : ℕ) × (disk.validated_manifest path ≡ some (m, n))

  -- The payloads of an archive were read, and its manifest was the one that was read before.
  abbrev pub IsValidated : Bytes → Type 0
  IsValidated path =
      (m : Bytes) × (n : ℕ) × (disk.manifest path ≡ some m)
      × (disk.validated_manifest path ≡ some (m, n))

  abbrev pub IsGuard : Guard → Type 0
  IsGuard g =
      (disk.file_state g.resolved_archive_path ≡ some g.file_state)
      × IsRead g.resolved_archive_path g.manifest_fingerprint g.phase

  find_guard_sound :
      (path : Bytes) (gs : List Guard) {g : Guard}
      → All IsGuard gs
      → find_guard path gs ≡ some g
      → IsGuard g × (g.resolved_archive_path ≡ path)
  unfolding find_guard
  find_guard_sound path [] h e = absurd (cc)
  find_guard_sound path (k ∷ gs) h e = elim (Bool-cases (bytes_eq k.resolved_archive_path path)) [
    | inl t ↦
        let same = some_inj (rw t at e) in
        (
          subst IsGuard same h.0,
          ap (λ (x : Guard). x.resolved_archive_path) (sym same) ∙ (bytes_eq_iff _ path).0 t,
        )
    | inr t ↦ find_guard_sound path gs h.1 (rw t at e)
  ]

  set_guard_sound :
      (path : Bytes) (new : Guard) (gs : List Guard)
      → IsGuard new
      → All IsGuard gs
      → All IsGuard (set_guard path new gs)
  unfolding set_guard
  set_guard_sound path new [] n h = tt
  set_guard_sound path new (g ∷ gs) n h =
      let r = set_guard_sound path new gs n h.1 in
      elim (Bool-cases (bytes_eq g.resolved_archive_path path)) [
        | inl t ↦ rw t (n, r)
        | inr t ↦ rw t (h.0, r)
      ]

  module _ (max_segments : ℕ) where
    -- What is known behind a call of `readArchiveState`.
    abbrev pub HasState : Plan → Planner → Plan × Planner → Type 0
    HasState p s (p', s') =
        (s'.plans ≡ s.plans)
        × (disk.resolve p.archive_name ≡ some p'.resolved_archive_path)
        × (disk.file_state p'.resolved_archive_path ≡ some p'.archive_file_state)
        × (p' ≡ at_state disk max_segments p'.resolved_archive_path p'.archive_file_state p)
        × All IsGuard s'.guards

    read_state_at_lem :
        (path : Bytes) (p : Plan) (s : Planner) (o : Option Guard) {a : Plan × Planner}
        → find_guard path s.guards ≡ o
        → disk.resolve p.archive_name ≡ some path
        → All IsGuard s.guards
        → read_state_at disk max_segments path p s o ≡ ok a
        → HasState p s a
    read_state_at_lem path p s (some g) f r h e =
        let (k, same) = find_guard_sound path s.guards h f in
        subst (HasState p s) (ok_inj e)
          (refl, r, subst (λ (x : Bytes). disk.file_state x ≡ some g.file_state) same k.0, refl, h)
    read_state_at_lem path p s none f r h e =
        elim (Bool-cases (ltb (length s.guards) max_segments)) [
          | inr full ↦ absurd (cc (rw full at e))
          | inl room ↦
              let (state, found, rest) =
                >>=-eq-ok (or_throw archive_inaccessible (disk.file_state path)) _ (rw room at e) in
              let known = or_throw-eq-ok archive_inaccessible (disk.file_state path) found in
              subst (HasState p s) (ok_inj rest)
                (refl, r, known, refl, All-append IsGuard s.guards _ h ((known, tt), tt))
        ]

    pub read_archive_state_lem :
        (p : Plan) (s : Planner) {a : Plan × Planner}
        → All IsGuard s.guards
        → read_archive_state disk max_segments p s ≡ ok a
        → HasState p s a
    unfolding read_archive_state
    read_archive_state_lem p s h e =
        let (path, r, rest) =
          >>=-eq-ok (or_throw archive_inaccessible (disk.resolve p.archive_name)) _ e in
        read_state_at_lem path p s (find_guard path s.guards) refl
          (or_throw-eq-ok archive_inaccessible (disk.resolve p.archive_name) r) h rest

    -- What is known behind a call of `readArchiveManifest`.
    abbrev pub HasManifest : Plan → Planner → Plan × Planner → Type 0
    HasManifest p s (p', s') =
        (s'.plans ≡ s.plans)
        × (disk.manifest p.resolved_archive_path ≡ some p'.archive_manifest_fingerprint)
        × (p' ≡ record p {
          archive_opened = p'.archive_opened;
          archive_manifest_fingerprint = p'.archive_manifest_fingerprint;
        })
        × All IsGuard s'.guards

    read_manifest_of_lem :
        (p : Plan) (s : Planner) (g : Guard) (phase : GuardPhase) {a : Plan × Planner}
        → g.resolved_archive_path ≡ p.resolved_archive_path
        → disk.file_state g.resolved_archive_path ≡ some g.file_state
        → IsRead g.resolved_archive_path g.manifest_fingerprint phase
        → All IsGuard s.guards
        → read_manifest_of disk max_segments p s g phase ≡ ok a
        → HasManifest p s a
    read_manifest_of_lem p s g file_state_read same f i h e =
        let (m, found, rest) =
          >>=-eq-ok (or_throw archive_damaged (disk.manifest p.resolved_archive_path)) _ e in
        let known = or_throw-eq-ok archive_damaged (disk.manifest p.resolved_archive_path) found in
        subst (HasManifest p s) (ok_inj rest) (
          refl,
          known,
          refl,
          set_guard_sound p.resolved_archive_path _ s.guards
              (f, subst (λ (x : Bytes). disk.manifest x ≡ some m) (sym same) known) h,
        )
    read_manifest_of_lem p s g manifest_read same f i h e =
        subst (HasManifest p s) (ok_inj e) (
          refl,
          subst (λ (x : Bytes). disk.manifest x ≡ some g.manifest_fingerprint) same i,
          refl,
          h,
        )
    read_manifest_of_lem p s g payloads_validated same f i h e =
        subst (HasManifest p s) (ok_inj e) (
          refl,
          subst (λ (x : Bytes). disk.manifest x ≡ some g.manifest_fingerprint) same i.0,
          refl,
          h,
        )

    read_manifest_at_lem :
        (p : Plan) (s : Planner) (o : Option Guard) {a : Plan × Planner}
        → find_guard p.resolved_archive_path s.guards ≡ o
        → All IsGuard s.guards
        → read_manifest_at disk max_segments p s o ≡ ok a
        → HasManifest p s a
    read_manifest_at_lem p s none f h e = absurd (cc)
    read_manifest_at_lem p s (some g) f h e =
        let (k, same) = find_guard_sound p.resolved_archive_path s.guards h f in
        read_manifest_of_lem p s g g.phase same k.0 k.1 h e

    pub read_archive_manifest_lem :
        (p : Plan) (s : Planner) {a : Plan × Planner}
        → All IsGuard s.guards
        → read_archive_manifest disk max_segments p s ≡ ok a
        → HasManifest p s a
    unfolding read_archive_manifest
    read_archive_manifest_lem p s h e =
        read_manifest_at_lem p s (find_guard p.resolved_archive_path s.guards) refl h e

    -- What is known behind a call of `validateArchivePayloads`.
    abbrev pub HasPayloads : Plan → Planner → Planner → Type 0
    HasPayloads p s s' =
        (s'.plans ≡ s.plans) × IsValidated p.resolved_archive_path × All IsGuard s'.guards

    validate_of_lem :
        (p : Plan) (s : Planner) (g : Guard) (phase : GuardPhase) {s' : Planner}
        → g.resolved_archive_path ≡ p.resolved_archive_path
        → disk.file_state g.resolved_archive_path ≡ some g.file_state
        → IsRead g.resolved_archive_path g.manifest_fingerprint phase
        → All IsGuard s.guards
        → validate_of disk max_segments p s g phase ≡ ok s'
        → HasPayloads p s s'
    validate_of_lem p s g file_state_read same f i h e = absurd (cc)
    validate_of_lem p s g payloads_validated same f i h e =
        subst (HasPayloads p s) (ok_inj e) (
          refl,
          subst (λ (x : Bytes). IsValidated x) same (g.manifest_fingerprint, i.1, i.0, i.2),
          h,
        )
    validate_of_lem p s g manifest_read {s'} same f i h e =
        let (read, found, rest) =
          >>=-eq-ok (or_throw archive_damaged (disk.validated_manifest p.resolved_archive_path)) _
            e in
        let known =
          or_throw-eq-ok archive_damaged (disk.validated_manifest p.resolved_archive_path) found in
        validated_lem read known rest
      where
        here : disk.manifest p.resolved_archive_path ≡ some g.manifest_fingerprint
        here = subst (λ (x : Bytes). disk.manifest x ≡ some g.manifest_fingerprint) same i

        validated_lem :
            (read : Bytes × ℕ)
            → disk.validated_manifest p.resolved_archive_path ≡ some read
            → (if not (bytes_eq read.0 g.manifest_fingerprint)
                then throw archive_damaged
                else ok
                    (record (with_guard p.resolved_archive_path
                      (record g { phase = payloads_validated })
                      s) { archive_bytes_read = s.archive_bytes_read + read.1 }))
              ≡ ok s'
            → HasPayloads p s s'
        validated_lem read known r = elim (Bool-cases (bytes_eq read.0 g.manifest_fingerprint)) [
          | inr t ↦ absurd (cc (rw t at r))
          | inl t ↦
              let m = (bytes_eq_iff read.0 g.manifest_fingerprint).0 t in
              let v : disk.validated_manifest p.resolved_archive_path
                  ≡ some (g.manifest_fingerprint, read.1) =
                known ∙ ap (λ (x : Bytes). some (x, read.1)) m in
              subst (HasPayloads p s) (ok_inj (rw t at r)) (
                refl,
                (g.manifest_fingerprint, read.1, here, v),
                set_guard_sound p.resolved_archive_path _ s.guards
                    (
                      f,
                      subst (λ (x : Bytes). IsRead x g.manifest_fingerprint payloads_validated)
                          (sym same) (here, read.1, v),
                    )
                    h,
              )
        ]

    validate_at_lem :
        (p : Plan) (s : Planner) (o : Option Guard) {s' : Planner}
        → find_guard p.resolved_archive_path s.guards ≡ o
        → All IsGuard s.guards
        → validate_at disk max_segments p s o ≡ ok s'
        → HasPayloads p s s'
    validate_at_lem p s none f h e = absurd (cc)
    validate_at_lem p s (some g) f h e =
        let (k, same) = find_guard_sound p.resolved_archive_path s.guards h f in
        validate_of_lem p s g g.phase same k.0 k.1 h e

    pub validate_archive_payloads_lem :
        (p : Plan) (s : Planner) {s' : Planner}
        → All IsGuard s.guards
        → validate_archive_payloads disk max_segments p s ≡ ok s'
        → HasPayloads p s s'
    unfolding validate_archive_payloads
    validate_archive_payloads_lem p s h e =
        validate_at_lem p s (find_guard p.resolved_archive_path s.guards) refl h e
