-- ===== src/Scan/Plan/Segments/Aligned.antt =====
-- libs/App/InpxScanJobService.cpp: the plans of all segments.
use librova_inpx_web.Common.{
  ◌≡◌, refl, ap, sym, subst, ◌∙◌, ◌≢◌, inl, inr, false, List, [], ◌∷◌, ◌++◌, ok, >>=-eq-ok, ok_inj,
  ltb, ◌==◌, if◌then◌else◌, length, All, Bool-cases, append_assoc, append-nil,
}
use librova_inpx_web.Unicode.Legacy.{Converter}
use librova_inpx_web.Scan.Budget.{PlanningLimits}
use librova_inpx_web.Scan.Plan.{ScanMode, Payload, Existing, Plan, Planner, find_existing, has_name}
use librova_inpx_web.Scan.Plan.Archives.{Disk}
use librova_inpx_web.Scan.Plan.Archives.Guards.{IsGuard}
use librova_inpx_web.Scan.Plan.Segments.{
  fresh_plan, plan_found, plan_segment, plan_segments, removed_plan, plan_removed, start_planner,
  plan_all,
}
use librova_inpx_web.Scan.Plan.Segments.Rests.{labels, Rests, plan_found_lem}

module _ (iconv : Converter) (disk : Disk) (mode : ScanMode) (limits : PlanningLimits) where
  -- The plans stand in the order of the segments, each named and numbered as its segment is, under
  -- a name that no plan before it has, and rests on what was found.
  abbrev pub Aligned : List Existing → List Plan → List Payload → List Plan → Type 0
  Aligned existing before [] [] = Unit
  Aligned existing before (payload ∷ payloads) (p ∷ ps) =
      let name = (payload.segment).inp_entry_name in
      (labels p ≡ (name, (payload.segment).archive_name, payload.fingerprint, length before))
      × (has_name name before ≡ false)
      × Rests iconv disk mode limits payload (find_existing name existing) p p.change
      × Aligned existing (before ++ p ∷ []) payloads ps
  Aligned existing before _ _ = ⊥

  plan_segment_lem :
      (existing : List Existing) (payload : Payload) (s : Planner) {s' : Planner}
      → All (IsGuard disk) s.guards
      → plan_segment iconv disk mode limits existing payload s ≡ ok s'
      → (p : Plan) × (s'.plans ≡ s.plans ++ p ∷ [])
        × (labels p ≡ (
          (payload.segment).inp_entry_name,
          (payload.segment).archive_name,
          payload.fingerprint,
          length s.plans,
        ))
        × (has_name (payload.segment).inp_entry_name s.plans ≡ false)
        × Rests iconv disk mode limits payload
            (find_existing (payload.segment).inp_entry_name existing)
            p
            p.change
        × All (IsGuard disk) s'.guards
  unfolding plan_segment
  plan_segment_lem existing payload s h x =
      let found = find_existing (payload.segment).inp_entry_name existing in
      elim (Bool-cases (ltb (length s.plans) limits.max_segments)) [
        | inr full ↦ absurd (cc (rw full at x))
        | inl room ↦ elim (Bool-cases (has_name (payload.segment).inp_entry_name s.plans)) [
          | inl twice ↦ absurd (cc (rw (room, twice) at x))
          | inr once ↦
              let (a, y, z) =
                >>=-eq-ok
                  (plan_found iconv disk mode limits payload
                    (fresh_plan payload (length s.plans) found) s found)
                  (λ a. ok (record (a.1) { plans = (a.1).plans ++ a.0 ∷ [] }))
                  (rw (room, once) at x) in
              let (l, k, rests, g) =
                plan_found_lem iconv disk mode limits payload
                  (fresh_plan payload (length s.plans) found) s found refl h y in
              let out = ok_inj z in
              (
                a.0,
                ap (λ (t : Planner). t.plans) (sym out) ∙ ap (λ (ps : List Plan). ps ++ a.0 ∷ []) k,
                l,
                once,
                rests,
                subst (λ (t : Planner). All (IsGuard disk) t.guards) out g,
              )
        ]
      ]

  plan_segments_lem :
      (existing : List Existing) (payloads : List Payload) (s : Planner) {s' : Planner}
      → All (IsGuard disk) s.guards
      → plan_segments iconv disk mode limits existing payloads s ≡ ok s'
      → (plans : List Plan) × (s'.plans ≡ s.plans ++ plans)
        × Aligned existing s.plans payloads plans
        × All (IsGuard disk) s'.guards
  unfolding plan_segments
  plan_segments_lem existing [] s h x =
      let same = ok_inj x in
      (
        [],
        ap (λ (t : Planner). t.plans) (sym same) ∙ sym (append-nil s.plans),
        tt,
        subst (λ (t : Planner). All (IsGuard disk) t.guards) same h,
      )
  plan_segments_lem existing (payload ∷ payloads) s h x =
      let (m, y, z) = >>=-eq-ok (plan_segment iconv disk mode limits existing payload s) _ x in
      let (p, added_last, l, once, rests, g) = plan_segment_lem existing payload s h y in
      let (ps, all, aligned, g') = plan_segments_lem existing payloads m g z in
      (
        p ∷ ps,
        all ∙ ap (λ (qs : List Plan). qs ++ ps) added_last ∙ append_assoc s.plans (p ∷ []) ps,
        (
          l,
          once,
          rests,
          subst (λ (qs : List Plan). Aligned existing qs payloads ps) added_last aligned,
        ),
        g',
      )

  -- The plans of what was removed from the catalogue.
  abbrev pub removed_of : List Plan → List Existing → List Plan
  removed_of current [] = []
  removed_of current (e ∷ es) =
      if has_name e.inp_entry_name current
      then removed_of current es
      else removed_plan iconv disk mode limits e ∷ removed_of current es

  plan_removed_lem :
      (current : List Plan) (es : List Existing) (plans : List Plan) {out : List Plan}
      → plan_removed iconv disk mode limits current es plans ≡ ok out
      → out ≡ plans ++ removed_of current es
  unfolding plan_removed
  plan_removed_lem current [] plans x = sym (ok_inj x) ∙ sym (append-nil plans)
  plan_removed_lem current (e ∷ es) plans x =
      elim (Bool-cases (has_name e.inp_entry_name current)) [
        | inl t ↦ rw t (plan_removed_lem current es plans (rw t at x))
        | inr t ↦ elim (Bool-cases (ltb (length plans) limits.max_segments)) [
          | inr full ↦ absurd (cc (rw (t, full) at x))
          | inl room ↦ rw t (
              plan_removed_lem current es (plans ++ removed_plan iconv disk mode limits e ∷ [])
                (rw (t, room) at x)
              ∙ append_assoc plans (removed_plan iconv disk mode limits e ∷ [])
                  (removed_of current es))
        ]
      ]

  -- Where the planning returns, there is a segment at least, and the plans are those of the
  -- segments in their order, then those of the segments of the last scan that are gone. Each
  -- segment has a name of its own and its place as its order. It is planned as added where the last
  -- scan had none of its name; as unchanged only on a rescan where the last scan had it with the
  -- same fingerprint and available, and it needs no archive or the archive on the disk has the path,
  -- size and time of the last scan or, with its payloads read again, its manifest; and as changed
  -- only where the last scan had one of its name, but the scan is no rescan, the segment is another
  -- or was not available, or its archive has another manifest. Added and changed segments carry the
  -- records of their parse, of which no line was skipped; an unchanged one carries no record and the
  -- summary of the last scan.
  pub plan_all_lem :
      (existing : List Existing) (payloads : List Payload) {s : Planner}
      → plan_all iconv disk mode limits existing payloads ≡ ok s
      → (plans : List Plan) × (s.plans ≡ plans ++ removed_of plans existing)
        × Aligned existing [] payloads plans
        × (payloads ≢ [])
  unfolding plan_all
  plan_all_lem existing payloads x =
      let (m, y, z) =
        >>=-eq-ok
          (plan_segments iconv disk mode limits existing payloads
            (start_planner iconv disk mode limits))
          _ x in
      let (plans, same, aligned, g) =
        plan_segments_lem existing payloads (start_planner iconv disk mode limits) tt y in
      elim (Bool-cases (length payloads == 0)) [
        | inl t ↦ absurd (cc (rw t at z))
        | inr t ↦
            let (out, u, v) =
              >>=-eq-ok (plan_removed iconv disk mode limits m.plans existing m.plans)
                (λ ps. ok (record m { plans = ps })) (rw t at z) in
            (
              plans,
              ap (λ (q : Planner). q.plans) (sym (ok_inj v))
                  ∙ plan_removed_lem m.plans existing m.plans u
                  ∙ ap (λ (ps : List Plan). ps ++ removed_of ps existing) same,
              aligned,
              λ e. absurd (cc (ap (λ (ps : List Payload). length ps == 0) e)),
            )
      ]
