-- ===== src/Scan/Guards/Kept.antt =====
-- libs/App/InpxScanJobService.cpp: what `ValidateArchiveGuards` says of the archives.
use librova_inpx_web.Common.{
  ◌≡◌, ◌≢◌, ◌⊎◌, refl, ap, sym, subst, ◌∙◌, true, false, not, ◌||◌, List, [], ◌∷◌, Option, none,
  some, some_inj, ok, >>=-eq-ok, ok_inj, if◌then◌else◌, Bytes, bytes_eq, bytes_eq_iff, All,
  Bool-cases, inl, inr, arith,
}
use librova_inpx_web.Inpx.Text.{is_nil}
use librova_inpx_web.Scan.Plan.{
  SegmentChange, unchanged, added, changed, removed, GuardPhase, file_state_read, manifest_read,
  payloads_validated, FileState, same_state, Plan, Guard, find_guard,
}
use librova_inpx_web.Scan.Plan.Archives.{Disk}
use librova_inpx_web.Scan.Guards.{
  is_removed, needs_guard, is_opened, find_expected, check_expected, check_found, check_plans,
  check_manifest, check_state, check_guards, validate_archive_guards,
}

same_state_sound : (a b : FileState) → same_state a b ≡ true → a ≡ b
same_state_sound a b h =
    let s : a.file_size_bytes ≡ b.file_size_bytes = ground arith in
    let t : a.mtime_ticks ≡ b.mtime_ticks = ground arith in
    ap (λ n. record { file_size_bytes = n; mtime_ticks = a.mtime_ticks }) s
    ∙ ap (λ n. record { file_size_bytes = b.file_size_bytes; mtime_ticks = n }) t

is_opened_lem : (phase : GuardPhase) → (phase ≡ file_state_read) ⊎ (is_opened phase ≡ true)
is_opened_lem file_state_read = inl refl
is_opened_lem manifest_read = inr refl
is_opened_lem payloads_validated = inr refl

is_removed_lem : (c : SegmentChange) → (c ≡ removed) ⊎ (is_removed c ≡ false)
is_removed_lem removed = inl refl
is_removed_lem unchanged = inr refl
is_removed_lem added = inr refl
is_removed_lem changed = inr refl

-- What was expected of an archive is still expected.
Extends : List (Bytes × Bytes) → List (Bytes × Bytes) → Type 0
Extends es es' =
    (path manifest : Bytes)
    → find_expected path es ≡ some manifest
    → find_expected path es' ≡ some manifest

check_expected_lem :
    (p : Plan) (es : List (Bytes × Bytes)) (found : Option Bytes) {es' : List (Bytes × Bytes)}
    → find_expected p.resolved_archive_path es ≡ found
    → check_expected p es found ≡ ok es'
    → Extends es es'
      × (find_expected p.resolved_archive_path es' ≡ some p.archive_manifest_fingerprint)
unfolding Extends find_expected
check_expected_lem p es none {es'} absent e =
    subst
      (λ (x : List (Bytes × Bytes)).
        Extends es x
        × (find_expected p.resolved_archive_path x ≡ some p.archive_manifest_fingerprint))
      (ok_inj e)
      (
        λ path manifest there. elim (Bool-cases (bytes_eq p.resolved_archive_path path)) [
          | inl t ↦ absurd (cc ((bytes_eq_iff p.resolved_archive_path path).0 t, there, absent))
          | inr t ↦ rw t there
        ],
        rw ((bytes_eq_iff p.resolved_archive_path p.resolved_archive_path).1 refl) refl,
      )
check_expected_lem p es (some m) {es'} there e =
    elim (Bool-cases (bytes_eq m p.archive_manifest_fingerprint)) [
      | inr t ↦ absurd (cc (rw t at e))
      | inl t ↦
          subst
            (λ (x : List (Bytes × Bytes)).
              Extends es x
              × (find_expected p.resolved_archive_path x ≡ some p.archive_manifest_fingerprint))
            (ok_inj (rw t at e)) (λ path manifest h. h, there ∙ ap some ((bytes_eq_iff m _).0 t))
    ]

-- The manifest that is asked of an archive: what its guard has, or what the plans expect.
abbrev asked_of : List (Bytes × Bytes) → Bytes → Option Guard → Option Bytes
asked_of es path none = none
asked_of es path (some g) =
    if is_opened g.phase then some g.manifest_fingerprint else find_expected path es

abbrev asked : List Guard → List (Bytes × Bytes) → Bytes → Option Bytes
asked guards es path = asked_of es path (find_guard path guards)

-- A plan agrees with its guard.
abbrev Agrees : List Guard → List (Bytes × Bytes) → Plan → Type 0
Agrees guards es p =
    (g : Guard) × (find_guard p.resolved_archive_path guards ≡ some g)
    × (p.archive_file_state ≡ g.file_state)
    × (is_nil p.archive_manifest_fingerprint ≡ false)
    × (asked_of es p.resolved_archive_path (some g) ≡ some p.archive_manifest_fingerprint)

extended :
    (guards : List Guard) (es es' : List (Bytes × Bytes)) (p : Plan)
    → Extends es es'
    → Agrees guards es p
    → Agrees guards es' p
unfolding Extends
extended guards es es' p more (g, there, state, filled, m) = (
  g,
  there,
  state,
  filled,
  elim (Bool-cases (is_opened g.phase)) [
    | inl t ↦ rw t (rw t at m)
    | inr t ↦ rw t (more p.resolved_archive_path p.archive_manifest_fingerprint (rw t at m))
  ],
)

check_found_lem :
    (guards : List Guard) (p : Plan) (es : List (Bytes × Bytes)) (found : Option Guard)
    {es' : List (Bytes × Bytes)}
    → find_guard p.resolved_archive_path guards ≡ found
    → check_found p es found ≡ ok es'
    → Extends es es' × Agrees guards es' p
unfolding Extends
check_found_lem guards p es none there e = absurd (cc)
check_found_lem guards p es (some g) {es'} there e =
    elim (Bool-cases (
      not (same_state p.archive_file_state g.file_state)
      || is_nil p.archive_manifest_fingerprint)) [
        | inl t ↦ absurd (cc (rw t at e))
        | inr t ↦
            let s : same_state p.archive_file_state g.file_state ≡ true = ground arith in
            let n : is_nil p.archive_manifest_fingerprint ≡ false = ground arith in
            let q = same_state_sound p.archive_file_state g.file_state s in
            elim (Bool-cases (is_opened g.phase)) [
              | inr o ↦
                  let (more, m) =
                    check_expected_lem p es (find_expected p.resolved_archive_path es) refl
                      (rw (t, o) at e) in
                  (more, (g, there, q, n, rw o m))
              | inl o ↦
                  elim (Bool-cases
                    (bytes_eq p.archive_manifest_fingerprint g.manifest_fingerprint)) [
                      | inr b ↦ absurd (cc (rw (t, o, b) at e))
                      | inl b ↦
                          let same = (bytes_eq_iff p.archive_manifest_fingerprint _).0 b in
                          subst (λ (x : List (Bytes × Bytes)). Extends es x × Agrees guards x p)
                            (ok_inj (rw (t, o, b) at e))
                            (λ path manifest h. h, (g, there, q, n, rw o (ap some (sym same))))
                    ]
            ]
      ]

abbrev Covered : List Guard → List (Bytes × Bytes) → Plan → Type 0
Covered guards es p = (needs_guard p ≡ false) ⊎ Agrees guards es p

check_plans_lem :
    (guards : List Guard) (plans : List Plan) (es : List (Bytes × Bytes))
    {es' : List (Bytes × Bytes)}
    → check_plans guards plans es ≡ ok es'
    → Extends es es' × All (Covered guards es') plans
unfolding Extends check_plans
check_plans_lem guards [] es {es'} e = (
  (λ path manifest h.
      subst (λ (x : List (Bytes × Bytes)). find_expected path x ≡ some manifest) (ok_inj e) h),
  tt,
)
check_plans_lem guards (p ∷ ps) es {es'} e = elim (Bool-cases (needs_guard p)) [
  | inr t ↦ let (more, h) = check_plans_lem guards ps es (rw t at e) in (more, (inl t, h))
  | inl t ↦
      let (m, x, y) =
        >>=-eq-ok (check_found p es (find_guard p.resolved_archive_path guards)) _ (rw t at e) in
      let (more, a) =
        check_found_lem guards p es (find_guard p.resolved_archive_path guards) refl x in
      let (more', h) = check_plans_lem guards ps m y in
      (
        (λ path manifest k. more' path manifest (more path manifest k)),
        (inr (extended guards m es' p more' a), h),
      )
]

module _ (disk : Disk) where
  -- An archive on the disk is as its guard says.
  abbrev pub IsUnchanged : Guard → Type 0
  IsUnchanged g =
      (disk.file_state g.resolved_archive_path ≡ some g.file_state)
      × ((g.phase ≡ file_state_read)
          ⊎ (disk.manifest g.resolved_archive_path ≡ some g.manifest_fingerprint))

  -- The archive of a plan is on the disk as it was when it was planned: its size and time, and,
  -- where it was opened, its manifest. `manifests` is what all plans have for an archive.
  abbrev pub IsAsPlanned : List Guard → (Bytes → Option Bytes) → Plan → Type 0
  IsAsPlanned guards manifests p =
      (disk.file_state p.resolved_archive_path ≡ some p.archive_file_state)
      × (p.archive_manifest_fingerprint ≢ [])
      × (manifests p.resolved_archive_path ≡ some p.archive_manifest_fingerprint)
      × (g : Guard) × (find_guard p.resolved_archive_path guards ≡ some g)
      × ((g.phase ≡ file_state_read)
          ⊎ (disk.manifest p.resolved_archive_path ≡ some p.archive_manifest_fingerprint))

  check_state_lem :
      (g : Guard) (found : Option FileState)
      → disk.file_state g.resolved_archive_path ≡ found
      → check_state disk g found ≡ ok tt
      → IsUnchanged g
  check_state_lem g none there e = absurd (cc)
  check_state_lem g (some state) there e = elim (Bool-cases (same_state state g.file_state)) [
    | inr t ↦ absurd (cc (rw t at e))
    | inl t ↦
        let s = there ∙ ap some (same_state_sound state g.file_state t) in
        elim (is_opened_lem g.phase) [
          | inl o ↦ (s, inl o)
          | inr o ↦
              (s, inr (manifest_of (disk.manifest g.resolved_archive_path) refl (rw (t, o) at e)))
        ]
  ]
    where
      manifest_of :
          (found : Option Bytes)
          → disk.manifest g.resolved_archive_path ≡ found
          → check_manifest disk g found ≡ ok tt
          → disk.manifest g.resolved_archive_path ≡ some g.manifest_fingerprint
      manifest_of none there h = absurd (cc)
      manifest_of (some m) there h = elim (Bool-cases (bytes_eq m g.manifest_fingerprint)) [
        | inr t ↦ absurd (cc (rw t at h))
        | inl t ↦ there ∙ ap some ((bytes_eq_iff m g.manifest_fingerprint).0 t)
      ]

  check_guards_lem : (gs : List Guard) → check_guards disk gs ≡ ok tt → All IsUnchanged gs
  unfolding check_guards
  check_guards_lem [] e = tt
  check_guards_lem (g ∷ gs) e =
      let (done, x, y) =
        >>=-eq-ok (check_state disk g (disk.file_state g.resolved_archive_path))
          (λ done. check_guards disk gs) e in
      (check_state_lem g (disk.file_state g.resolved_archive_path) refl x, check_guards_lem gs y)

  find_guard-IsUnchanged :
      (path : Bytes) (gs : List Guard) {g : Guard}
      → All IsUnchanged gs
      → find_guard path gs ≡ some g
      → IsUnchanged g × (g.resolved_archive_path ≡ path)
  unfolding find_guard
  find_guard-IsUnchanged path [] h e = absurd (cc)
  find_guard-IsUnchanged path (k ∷ gs) h e =
      elim (Bool-cases (bytes_eq k.resolved_archive_path path)) [
        | inl t ↦
            let same = some_inj (rw t at e) in
            (
              subst IsUnchanged same h.0,
              ap (λ (x : Guard). x.resolved_archive_path) (sym same)
                  ∙ (bytes_eq_iff k.resolved_archive_path path).0 t,
            )
        | inr t ↦ find_guard-IsUnchanged path gs h.1 (rw t at e)
      ]

  opened_manifest :
      (g : Guard) (es : List (Bytes × Bytes)) (path m : Bytes)
      → IsUnchanged g
      → g.resolved_archive_path ≡ path
      → asked_of es path (some g) ≡ some m
      → (g.phase ≡ file_state_read) ⊎ (disk.manifest path ≡ some m)
  opened_manifest g es path m (state, inl o) same e = inl o
  opened_manifest g es path m (state, inr d) same e = elim (is_opened_lem g.phase) [
    | inl o ↦ inl o
    | inr o ↦ inr (ap disk.manifest (sym same) ∙ d ∙ (rw o at e))
  ]

  planned_lem :
      (guards : List Guard) (es : List (Bytes × Bytes)) (p : Plan)
      → All IsUnchanged guards
      → Agrees guards es p
      → IsAsPlanned guards (asked guards es) p
  planned_lem guards es p h (g, there, state, filled, m) =
      let (fits, same) = find_guard-IsUnchanged p.resolved_archive_path guards h there in
      (
        ap disk.file_state (sym same) ∙ fits.0 ∙ ap some (sym state),
        (λ e. absurd (cc (ap is_nil e, filled))),
        rw there m,
        g,
        there,
        opened_manifest g es p.resolved_archive_path p.archive_manifest_fingerprint fits same m,
      )

  covered_lem :
      (guards : List Guard) (es : List (Bytes × Bytes)) (p : Plan)
      → All IsUnchanged guards
      → Covered guards es p
      → (p.change ≡ removed) ⊎ (p.requires_archive ≡ false) ⊎ IsAsPlanned guards (asked guards es) p
  covered_lem guards es p h (inr a) = inr (inr (planned_lem guards es p h a))
  covered_lem guards es p h (inl a) = elim (is_removed_lem p.change) [
    | inl r ↦ inl r
    | inr r ↦ inr (inl (ground arith))
  ]

  all-Covered :
      (guards : List Guard) (es : List (Bytes × Bytes)) (plans : List Plan)
      → All IsUnchanged guards
      → All (Covered guards es) plans
      → All
          (λ p.
            (p.change ≡ removed)
            ⊎ (p.requires_archive ≡ false)
            ⊎ IsAsPlanned guards (asked guards es) p)
          plans
  all-Covered guards es [] h c = tt
  all-Covered guards es (p ∷ ps) h c =
      (covered_lem guards es p h c.0, all-Covered guards es ps h c.1)

  -- Where the test before the commit does not throw, each archive that a plan rests on is on the
  -- disk with the size and time that the plan has, also with its manifest if the scan opened it,
  -- and all plans that rest on one archive have one manifest for it, which is not empty. The
  -- archives of all guards are as the guards say.
  pub validate_archive_guards_lem :
      (plans : List Plan) (guards : List Guard)
      → validate_archive_guards disk plans guards ≡ ok tt
      → All IsUnchanged guards
        × (manifests : Bytes → Option Bytes) × All
            (λ p.
              (p.change ≡ removed) ⊎ (p.requires_archive ≡ false) ⊎ IsAsPlanned guards manifests p)
            plans
  unfolding validate_archive_guards
  validate_archive_guards_lem plans guards e =
      let (es, x, y) = >>=-eq-ok (check_plans guards plans []) (λ es. check_guards disk guards) e in
      let h = check_guards_lem guards y in
      let (more, c) = check_plans_lem guards plans [] x in
      (h, asked guards es, all-Covered guards es plans h c)
