-- ===== src/Scan/Plan/Segments/Rests.antt =====
-- libs/App/InpxScanJobService.cpp: what the plan of a segment rests on.
use librova_inpx_web.Common.{
  ℕ, ◌+◌, ◌≡◌, refl, ap, sym, subst, ◌∙◌, ◌⊎◌, ◌≢◌, some_inj, inl, inr, Bool, true, false, ◌&&◌, [],
  Option, none, some, Outcome, ok, throw, ◌>>=◌, >>=-eq-ok, ok_inj, ltb, Bytes, bytes_eq,
  bytes_eq_iff, length, All, Bool-cases, arith,
}
use librova_inpx_web.Unicode.Legacy.{Converter}
use librova_inpx_web.Inpx.Segment.{Result, parse_segment}
use librova_inpx_web.Scan.Budget.{PlanningLimits}
use librova_inpx_web.Scan.Plan.{
  ScanMode, initial_scan, rescan, FileState, SegmentChange, unchanged, added, changed, removed,
  same_state, Payload, Existing, Plan, Planner,
}
use librova_inpx_web.Scan.Plan.Archives.{
  Disk, read_archive_state, read_archive_manifest, validate_archive_payloads,
}
use librova_inpx_web.Scan.Plan.Archives.Guards.{
  IsGuard, IsValidated, read_archive_state_lem, read_archive_manifest_lem,
  validate_archive_payloads_lem,
}
use librova_inpx_web.Scan.Plan.Segments.{
  any_skipped, or_unparsed, is_rescan, can_reuse, reused, keep_parsed, parse_planned, with_archive,
  plan_anew, has_path, has_manifest, is_cached, reuse_if, compare_manifest, compare_state,
  plan_reused, plan_found,
}

-- What a plan takes from its segment and its place.
abbrev pub labels : Plan → Bytes × Bytes × Bytes × ℕ
labels p = (p.inp_entry_name, p.archive_name, p.fingerprint, p.segment_order)

or_unparsed-eq-ok : (o : Outcome _ Result) {r : Result} → or_unparsed o ≡ ok r → o ≡ ok r
or_unparsed-eq-ok (ok r) h = ap ok (ok_inj h)
or_unparsed-eq-ok (throw e) h = absurd (cc)

has_manifest_lem :
    (o : Option Bytes) (m : Bytes)
    → elim o [ none ↦ false | some x ↦ bytes_eq x m ] ≡ true
    → o ≡ some m
has_manifest_lem none m t = absurd (cc)
has_manifest_lem (some x) m t = ap some ((bytes_eq_iff x m).0 t)

is_rescan_lem : (m : ScanMode) → is_rescan m ≡ true → m ≡ rescan
is_rescan_lem rescan h = refl
is_rescan_lem initial_scan h = absurd (cc)

has_manifest_of_eq :
    (o : Option Bytes) (m : Bytes)
    → o ≡ some m
    → elim o [ none ↦ false | some x ↦ bytes_eq x m ] ≡ true
has_manifest_of_eq none m e = absurd (cc)
has_manifest_of_eq (some x) m e = (bytes_eq_iff x m).1 (some_inj e)

module _ (iconv : Converter) (disk : Disk) (mode : ScanMode) (limits : PlanningLimits) where
  -- The segment was read, and none of its lines was skipped.
  abbrev pub IsParsed : Payload → Plan → Type 0
  IsParsed payload p =
      (r : Result) × (parse_segment iconv payload.segment ≡ ok r)
      × (any_skipped r.warnings ≡ false)
      × (p.records ≡ r.records)
      × (p.summary ≡ r.summary)

  -- The scan is a rescan, and the last one read the same segment, which is still available.
  abbrev pub IsSameSegment : Payload → Existing → Type 0
  IsSameSegment payload e =
      (mode ≡ rescan) × (e.inp_fingerprint ≡ payload.fingerprint) × (e.is_available ≡ true)

  abbrev pub HasState : Existing → FileState → Type 0
  HasState e state =
      ((e.archive_file_state).file_size_bytes ≡ state.file_size_bytes)
      × ((e.archive_file_state).mtime_ticks ≡ state.mtime_ticks)

  -- The archive is the one of the last scan: its path, size and time are the same, or its manifest
  -- is, and then its payloads were read too.
  abbrev pub IsSameArchive : Existing → Plan → Type 0
  IsSameArchive e p =
      (p.requires_archive ≡ true)
      × (disk.resolve p.archive_name ≡ some p.resolved_archive_path)
      × (disk.file_state p.resolved_archive_path ≡ some p.archive_file_state)
      × (((e.resolved_archive_path ≡ some p.resolved_archive_path)
            × HasState e p.archive_file_state)
          ⊎ ((disk.manifest p.resolved_archive_path ≡ e.archive_manifest_fingerprint)
              × IsValidated disk p.resolved_archive_path))

  abbrev pub IsReused : Payload → Existing → Plan → Type 0
  IsReused payload e p =
      IsSameSegment payload e
      × (p.summary ≡ e.summary)
      × (p.records ≡ [])
      × ((e.requires_archive ≡ false) ⊎ IsSameArchive e p)

  -- The segment is another one than at the last scan, or its archive has another manifest.
  abbrev pub HasChanged : Payload → Existing → Plan → Type 0
  HasChanged payload e p =
      ¬ IsSameSegment payload e
      ⊎ ((e.requires_archive ≡ true)
          × (path : Bytes) × (disk.resolve p.archive_name ≡ some path)
          × (disk.manifest path ≢ e.archive_manifest_fingerprint))

  can_reuse-IsSameSegment :
      (payload : Payload) (e : Existing) → can_reuse mode payload e ≡ true → IsSameSegment payload e
  can_reuse-IsSameSegment payload e h =
      let m : is_rescan mode ≡ true = ground arith in
      let f : bytes_eq e.inp_fingerprint payload.fingerprint ≡ true = ground arith in
      (is_rescan_lem mode m, (bytes_eq_iff e.inp_fingerprint payload.fingerprint).0 f, ground arith)

  IsSameSegment-can_reuse :
      (payload : Payload) (e : Existing) → IsSameSegment payload e → can_reuse mode payload e ≡ true
  IsSameSegment-can_reuse payload e (m, f, a) =
      rw (m, (bytes_eq_iff e.inp_fingerprint payload.fingerprint).1 f, a) refl

  same_state-HasState :
      (e : Existing) (state : FileState)
      → same_state e.archive_file_state state ≡ true
      → HasState e state
  same_state-HasState e state h = (ground arith, ground arith)

  abbrev pub Rests : Payload → Option Existing → Plan → SegmentChange → Type 0
  Rests payload found p unchanged = (e : Existing) × (found ≡ some e) × IsReused payload e p
  Rests payload found p added = (found ≡ none) × IsParsed payload p
  Rests payload found p changed =
      (e : Existing) × (found ≡ some e) × HasChanged payload e p × IsParsed payload p
  Rests payload found p removed = ⊥

  -- What a step of the planning leaves: the labels, the plans before, what the plan rests on, and
  -- guards that agree with the disk.
  abbrev pub Leaves : Payload → Option Existing → Plan → Planner → Plan × Planner → Type 0
  Leaves payload found p s a =
      (labels a.0 ≡ labels p)
      × (a.1.plans ≡ s.plans)
      × Rests payload found a.0 a.0.change
      × All (IsGuard disk) a.1.guards

  abbrev ParsedFrom : Payload → Plan → Planner → Plan × Planner → Type 0
  ParsedFrom payload p s a =
      (labels a.0 ≡ labels p)
      × (a.1.plans ≡ s.plans)
      × (a.0.change ≡ p.change)
      × IsParsed payload a.0
      × All (IsGuard disk) a.1.guards

  keep_parsed_lem :
      (payload : Payload) (p : Plan) (s : Planner) (r : Result) {a : Plan × Planner}
      → All (IsGuard disk) s.guards
      → parse_segment iconv payload.segment ≡ ok r
      → keep_parsed iconv disk mode limits p s r ≡ ok a
      → ParsedFrom payload p s a
  keep_parsed_lem payload p s r h parsed e = elim (Bool-cases (any_skipped r.warnings)) [
    | inl t ↦ absurd (cc (rw t at e))
    | inr t ↦
        elim (Bool-cases (ltb limits.max_records (s.planned_record_count + length r.records))) [
          | inl u ↦ absurd (cc (rw (t, u) at e))
          | inr u ↦
              subst (ParsedFrom payload p s) (ok_inj (rw (t, u) at e))
                (refl, refl, refl, (r, parsed, t, refl, refl), h)
        ]
  ]

  parse_planned_lem :
      (payload : Payload) (p : Plan) (s : Planner) {a : Plan × Planner}
      → All (IsGuard disk) s.guards
      → parse_planned iconv disk mode limits payload p s ≡ ok a
      → ParsedFrom payload p s a
  unfolding parse_planned
  parse_planned_lem payload p s h e =
      let (r, parsed, rest) = >>=-eq-ok (or_unparsed (parse_segment iconv payload.segment)) _ e in
      keep_parsed_lem payload p s r h (or_unparsed-eq-ok _ parsed) rest

  abbrev Same : Plan → Planner → Plan × Planner → Type 0
  Same p s a =
      (labels a.0 ≡ labels p)
      × (a.1.plans ≡ s.plans)
      × (a.0.change ≡ p.change)
      × (a.0.records ≡ p.records)
      × (a.0.summary ≡ p.summary)
      × All (IsGuard disk) a.1.guards

  with_archive_lem :
      (needed : Bool) (p : Plan) (s : Planner) {a : Plan × Planner}
      → All (IsGuard disk) s.guards
      → with_archive iconv disk mode limits needed p s ≡ ok a
      → Same p s a
  with_archive_lem false p s h e = subst (Same p s) (ok_inj e) (refl, refl, refl, refl, refl, h)
  with_archive_lem true p s h e =
      let (b, first, second) =
        >>=-eq-ok (read_archive_state disk limits.max_segments p s)
          (λ b. read_archive_manifest disk limits.max_segments b.0 b.1) e in
      let (kept, r, f, same, h1) = read_archive_state_lem disk limits.max_segments p s h first in
      let (kept', m, same', h2) =
        read_archive_manifest_lem disk limits.max_segments b.0 b.1 h1 second in
      (
        ap labels same' ∙ ap labels same,
        kept' ∙ kept,
        ap (λ (x : Plan). x.change) same' ∙ ap (λ (x : Plan). x.change) same,
        ap (λ (x : Plan). x.records) same' ∙ ap (λ (x : Plan). x.records) same,
        ap (λ (x : Plan). x.summary) same' ∙ ap (λ (x : Plan). x.summary) same,
        h2,
      )

  plan_anew_lem :
      (change : SegmentChange) (payload : Payload) (p : Plan) (s : Planner) {a : Plan × Planner}
      → All (IsGuard disk) s.guards
      → plan_anew iconv disk mode limits change payload p s ≡ ok a
      → ParsedFrom payload (record p { change = change }) s a
  unfolding plan_anew
  plan_anew_lem change payload p s h e =
      let (b, first, second) =
        >>=-eq-ok (parse_planned iconv disk mode limits payload (record p { change = change }) s) _
          e in
      let (l, k, c, (r, parsed, t, x, y), h1) =
        parse_planned_lem payload (record p { change = change }) s h first in
      let (l', k', c', x', y', h2) = with_archive_lem b.0.requires_archive b.0 b.1 h1 second in
      (l' ∙ l, k' ∙ k, c' ∙ c, (r, parsed, t, x' ∙ x, y' ∙ y), h2)

  with_change :
      (payload : Payload) (found : Option Existing) (p : Plan) (c : SegmentChange)
      → p.change ≡ c
      → Rests payload found p c
      → Rests payload found p p.change
  with_change payload found p c e = subst (Rests payload found p) (sym e)

  -- What a plan has when its archive has been looked up.
  abbrev Fits : Plan → Type 0
  Fits p =
      (p.records ≡ [])
      × (p.requires_archive ≡ true)
      × (disk.resolve p.archive_name ≡ some p.resolved_archive_path)
      × (disk.file_state p.resolved_archive_path ≡ some p.archive_file_state)

  compare_manifest_lem :
      (e : Existing) (payload : Payload) (p : Plan) (s : Planner) {a : Plan × Planner}
      → IsSameSegment payload e
      → e.requires_archive ≡ true
      → p.requires_archive ≡ true
      → p.records ≡ []
      → disk.resolve p.archive_name ≡ some p.resolved_archive_path
      → disk.file_state p.resolved_archive_path ≡ some p.archive_file_state
      → All (IsGuard disk) s.guards
      → compare_manifest iconv disk mode limits e payload p s ≡ ok a
      → Leaves payload (some e) p s a
  unfolding compare_manifest
  compare_manifest_lem e payload p s {a} can need req none_yet r f h x =
      let (b, first, second) = >>=-eq-ok (read_archive_manifest disk limits.max_segments p s) _ x in
      let (kept, m, same, h1) = read_archive_manifest_lem disk limits.max_segments p s h first in
      elim (Bool-cases (has_manifest iconv disk mode limits e b.0)) [
        | inl t ↦ taken_over b kept m same h1 (rw t at second) t
        | inr t ↦
            let (l, k, c, parsed, h2) =
              parse_planned_lem payload (record (b.0) { change = changed }) b.1 h1
                (rw t at second) in
            (
              l ∙ ap labels same,
              k ∙ kept,
              with_change payload (some e) a.0 changed c
                  (e, refl, other b.0 a.0 m t (ap (λ y. y.1) (l ∙ ap labels same)), parsed),
              h2,
            )
      ]
    where
      other :
          (b q : Plan)
          → disk.manifest p.resolved_archive_path ≡ some b.archive_manifest_fingerprint
          → has_manifest iconv disk mode limits e b ≡ false
          → q.archive_name ≡ p.archive_name
          → HasChanged payload e q
      other b q m t n = inr (
        need,
        p.resolved_archive_path,
        ap disk.resolve n ∙ r,
        λ same. absurd (
            cc (
              has_manifest_of_eq e.archive_manifest_fingerprint b.archive_manifest_fingerprint
                  (sym same ∙ m),
              t,
            )),
      )

      taken_over :
          (b : Plan × Planner)
          → b.1.plans ≡ s.plans
          → disk.manifest p.resolved_archive_path ≡ some b.0.archive_manifest_fingerprint
          → b.0 ≡ record p {
            archive_opened = b.0.archive_opened;
            archive_manifest_fingerprint = b.0.archive_manifest_fingerprint;
          }
          → All (IsGuard disk) b.1.guards
          → (validate_archive_payloads disk limits.max_segments b.0 b.1 >>= λ s'.
              ok (reused e b.0, s'))
            ≡ ok a
          → has_manifest iconv disk mode limits e b.0 ≡ true
          → Leaves payload (some e) p s a
      taken_over b kept m same h1 y t =
          let (s', v, rest) =
            >>=-eq-ok (validate_archive_payloads disk limits.max_segments b.0 b.1)
              (λ s'. ok (reused e b.0, s')) y in
          let (kept', valid, h2) =
            validate_archive_payloads_lem disk limits.max_segments b.0 b.1 h1 v in
          let fits = subst Fits (sym same) (none_yet, req, r, f) in
          let path : p.resolved_archive_path ≡ b.0.resolved_archive_path =
            sym (ap (λ (x : Plan). x.resolved_archive_path) same) in
          let e' : disk.manifest b.0.resolved_archive_path ≡ e.archive_manifest_fingerprint =
            subst (λ (x : Bytes). disk.manifest x ≡ some b.0.archive_manifest_fingerprint) path m
            ∙ sym (
                has_manifest_lem e.archive_manifest_fingerprint b.0.archive_manifest_fingerprint
                  t) in
          subst (Leaves payload (some e) p s) (ok_inj rest) (
            ap labels same,
            kept' ∙ kept,
            (e, refl, (can, refl, fits.0, inr (fits.1, fits.2, fits.3, inr (e', valid)))),
            h2,
          )

  compare_state_lem :
      (e : Existing) (payload : Payload) (p : Plan) (s : Planner) {a : Plan × Planner}
      → IsSameSegment payload e
      → e.requires_archive ≡ true
      → Fits p
      → All (IsGuard disk) s.guards
      → compare_state iconv disk mode limits e payload p s ≡ ok a
      → Leaves payload (some e) p s a
  compare_state_lem e payload p s can need fits h x =
      elim (Bool-cases (
        has_path iconv disk mode limits e p
        && same_state e.archive_file_state p.archive_file_state)) [
          | inl t ↦
              let path : has_path iconv disk mode limits e p ≡ true = ground arith in
              let state : same_state e.archive_file_state p.archive_file_state ≡ true =
                ground arith in
              subst (Leaves payload (some e) p s) (ok_inj (rw t at x)) (
                refl,
                refl,
                (
                  e,
                  refl,
                  (
                    can,
                    refl,
                    fits.0,
                    inr (
                      fits.1,
                      fits.2,
                      fits.3,
                      inl (
                        has_manifest_lem e.resolved_archive_path p.resolved_archive_path path,
                        same_state-HasState e p.archive_file_state state,
                      ),
                    ),
                  ),
                ),
                h,
              )
          | inr t ↦
              compare_manifest_lem e payload p s can need fits.1 fits.0 fits.2 fits.3 h (rw t at x)
        ]

  reuse_if_lem :
      (needed : Bool) (e : Existing) (payload : Payload) (p : Plan) (s : Planner)
      {a : Plan × Planner}
      → e.requires_archive ≡ needed
      → IsSameSegment payload e
      → p.records ≡ []
      → All (IsGuard disk) s.guards
      → reuse_if iconv disk mode limits needed e payload p s ≡ ok a
      → Leaves payload (some e) p s a
  reuse_if_lem false e payload p s q can none_yet h x =
      subst (Leaves payload (some e) p s) (ok_inj x)
        (refl, refl, (e, refl, (can, refl, none_yet, inl q)), h)
  reuse_if_lem true e payload p s {a} q can none_yet h x =
      elim (Bool-cases (is_cached iconv disk mode limits e)) [
        | inr t ↦ absurd (cc (rw t at x))
        | inl t ↦
            let (b, first, second) =
              >>=-eq-ok
                (read_archive_state disk limits.max_segments (record p { requires_archive = true })
                  s)
                (λ b. compare_state iconv disk mode limits e payload b.0 b.1) (rw t at x) in
            let (kept, r, f, same, h1) =
              read_archive_state_lem disk limits.max_segments (record p { requires_archive = true })
                s h first in
            let fits : Fits b.0 = (
              ap (λ (y : Plan). y.records) same ∙ none_yet,
              ap (λ (y : Plan). y.requires_archive) same,
              ap (λ (y : Plan). disk.resolve y.archive_name) same ∙ r,
              f,
            ) in
            let (l, k, rests, h2) = compare_state_lem e payload b.0 b.1 can q fits h1 second in
            (l ∙ ap labels same, k ∙ kept, rests, h2)
      ]

  pub plan_found_lem :
      (payload : Payload) (p : Plan) (s : Planner) (found : Option Existing) {a : Plan × Planner}
      → p.records ≡ []
      → All (IsGuard disk) s.guards
      → plan_found iconv disk mode limits payload p s found ≡ ok a
      → Leaves payload found p s a
  unfolding plan_found plan_reused
  plan_found_lem payload p s none {a} none_yet h x =
      let (l, k, c, parsed, h1) = plan_anew_lem added payload p s h x in
      (l, k, with_change payload none a.0 added c (refl, parsed), h1)
  plan_found_lem payload p s (some e) {a} none_yet h x =
      elim (Bool-cases (can_reuse mode payload e)) [
        | inl t ↦
            reuse_if_lem e.requires_archive e payload p s refl (can_reuse-IsSameSegment payload e t)
              none_yet h (rw t at x)
        | inr t ↦
            let (l, k, c, parsed, h1) = plan_anew_lem changed payload p s h (rw t at x) in
            (
              l,
              k,
              with_change payload (some e) a.0 changed c (
                e,
                refl,
                inl (λ same. absurd (cc (IsSameSegment-can_reuse payload e same, t))),
                parsed,
              ),
              h1,
            )
      ]
