-- ===== src/Scan/Flight/Written.antt =====
-- libs/App/InpxScanJobService.cpp: each record is written once.
use librova_inpx_web.Common.{
  ◌+◌, ◌<◌, ◌≡◌, refl, ap, sym, subst, ◌∙◌, inl, inr, List, [], ◌∷◌, ◌++◌, ok, >>=-eq-ok, Bytes,
  length, Bool-cases, arith, append-nil, append_assoc,
}
use mathlib.Core.List.{Perm}
use mathlib.Core.List.Perm
use librova_inpx_web.Scan.Plan.{Plan}
use librova_inpx_web.Scan.Flight.{
  Task, Flight, FlightLimits, Payloads, is_executed, is_before, insert_plan, always, process_plans,
  execution_plans, execute,
}
use librova_inpx_web.Scan.Flight.Loop.{Drained, drain_inv}
use librova_inpx_web.Scan.Flight.Lists.{
  ids, task_ids, to_write, all_to_write, record_count, executed, DistinctIds, swapped,
}
use librova_inpx_web.Scan.Flight.Holds.{Holds, finished-Holds, process_plans-Holds}
use librova_inpx_web.Scan.Flight.Notes.{Notes, process_plans-Notes}

insert_plan-perm :
    (p : Plan) (ps : List Plan)
    → Perm (all_to_write (insert_plan p ps)) (to_write p.records ++ all_to_write ps)
      × (record_count (insert_plan p ps) ≡ length p.records + record_count ps)
unfolding insert_plan all_to_write record_count
insert_plan-perm p [] = (Perm.refl _, refl)
insert_plan-perm p (q ∷ qs) =
    elim (Bool-cases (is_before q.resolved_archive_path p.resolved_archive_path)) [
      | inr t ↦ rw t (Perm.refl _, refl)
      | inl t ↦
          let h = insert_plan-perm p qs in
          rw t (
            Perm.trans (Perm.append_left (to_write q.records) h.0) (
                subst
                  (λ (l : List Bytes).
                    Perm (to_write q.records ++ (to_write p.records ++ all_to_write qs)) l)
                  (append_assoc (to_write p.records) (to_write q.records) (all_to_write qs))
                  (swapped (to_write q.records) (to_write p.records) (all_to_write qs))),
            omega (arith, h.1),
          )
    ]

execution_plans-perm :
    (ps : List Plan)
    → Perm (all_to_write (execution_plans ps)) (all_to_write (executed ps))
      × (record_count (execution_plans ps) ≡ record_count (executed ps))
unfolding execution_plans all_to_write record_count
execution_plans-perm [] = (Perm.refl _, refl)
execution_plans-perm (p ∷ ps) =
    let h = execution_plans-perm ps in
    elim (Bool-cases (is_executed p.change)) [
      | inr t ↦ rw t h
      | inl t ↦
          let k = insert_plan-perm p (execution_plans ps) in
          rw t (Perm.trans k.0 (Perm.append_left (to_write p.records) h.0), omega (arith, k.1, h.1))
    ]

-- Where the execution of the plans returns, nothing is in flight, and the books that were written
-- are those of the added and changed segments that are not deleted and in FB2, each once and no
-- two with one LibId, also not with one of a segment that was taken over; and each record of these
-- segments was counted as scanned. This holds whichever tasks are ready first.
pub execute_lem :
    (world : Payloads) (limits : FlightLimits) (plans : List Plan) (f : Flight) {f' : Flight}
    → 0 < limits.max_payloads
    → f.tasks ≡ []
    → f.written ≡ []
    → DistinctIds f.active_ids
    → execute world limits plans f ≡ ok f'
    → (f'.tasks ≡ [])
      × Perm (ids f'.written) (all_to_write (executed plans))
      × DistinctIds f'.active_ids
      × Perm (all_to_write (executed plans) ++ f.active_ids) f'.active_ids
      × (f'.scanned_records ≡ f.scanned_records + record_count (executed plans))
unfolding execute
execute_lem world limits plans f {f'} some_room no_tasks nothing d x =
    let (g, y, z) = >>=-eq-ok (process_plans world limits (execution_plans plans) f) _ x in
    let sorted = execution_plans-perm plans in
    let start : Holds world limits [] f = rw (no_tasks, nothing) (Perm.refl []) in
    let k = process_plans-Holds world limits (execution_plans plans) [] f some_room start y in
    let (b, m, e, q) =
      process_plans-Notes world limits (execution_plans plans) f.active_ids f.scanned_records f
        some_room (refl, refl) d y in
    let base = all_to_write (execution_plans plans) ++ [] in
    let n = f.scanned_records + record_count (execution_plans plans) in
    let (last, ends) =
      drain_inv world limits (λ h. Holds world limits base h × Notes world limits b n h)
        (λ h i t ts e k. (finished-Holds world limits base h i t ts e k.0, k.1))
        (always world limits) g (k, m) z in
    let empty = nothing_left f' ends in
    let all : Perm (ids f'.written) base =
      subst (λ (l : List Bytes). Perm l base)
        (ap (λ (l : List Task). ids f'.written ++ task_ids l) empty ∙ append-nil (ids f'.written))
        last.0 in
    (
      empty,
      Perm.trans all (
          subst (λ (l : List Bytes). Perm l (all_to_write (executed plans)))
            (sym (append-nil (all_to_write (execution_plans plans)))) sorted.0),
      subst DistinctIds (sym last.1.0) e,
      subst (Perm (all_to_write (executed plans) ++ f.active_ids)) (sym last.1.0)
          (Perm.trans (Perm.append_right f.active_ids (Perm.symm sorted.0)) q),
      omega (arith, last.1.1, sorted.1),
    )
  where
    nothing_left : (h : Flight) → Drained world limits (always world limits) h → h.tasks ≡ []
    nothing_left h (inl t) = absurd (cc)
    nothing_left h (inr e) = e
