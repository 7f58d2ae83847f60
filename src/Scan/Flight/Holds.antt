-- ===== src/Scan/Flight/Holds.antt =====
-- libs/App/InpxScanJobService.cpp: what is written and in flight, against what was read.
use librova_inpx_web.Common.{
  ◌<◌, ◌≡◌, ap, sym, subst, ◌∙◌, Bool, true, false, List, [], ◌∷◌, ◌++◌, ok, >>=-eq-ok, ok_inj,
  Bytes, append_assoc,
}
use mathlib.Core.List.{Perm, perm_append_singleton, map-append}
use mathlib.Core.List.Perm
use librova_inpx_web.Inpx.Record.{Record}
use librova_inpx_web.Scan.Plan.{Plan}
use librova_inpx_web.Scan.Flight.{
  Task, Flight, FlightLimits, Payloads, take_parsed, is_fb2_name, scanned, process_if,
  process_record, process_records, process_plans,
}
use librova_inpx_web.Scan.Flight.Loop.{IsKept, HasRoom, submit_inv}
use librova_inpx_web.Scan.Flight.Lists.{
  ids, task_ids, to_write, all_to_write, swapped, take_parsed-perm, one, to_write-cons,
}

module _ (world : Payloads) (limits : FlightLimits) where
  -- What was written and what is in flight.
  abbrev pub Holds : List Bytes → Flight → Type 0
  Holds base f = Perm (ids f.written ++ task_ids f.tasks) base

  pub finished-Holds : (base : List Bytes) → IsKept world limits (Holds base)
  finished-Holds base f i t ts e h =
      let v = (take_parsed i t ts).0 in
      let vs = (take_parsed i t ts).1 in
      let shape : ids (f.written ++ v.inpx_record ∷ []) ++ task_ids vs
          ≡ ids f.written ++ task_ids (v ∷ vs) =
        ap (λ (l : List Bytes). l ++ task_ids vs)
          (map-append (λ (r : Record). r.lib_id) f.written (v.inpx_record ∷ []))
        ∙ append_assoc (ids f.written) ((v.inpx_record).lib_id ∷ []) (task_ids vs) in
      subst (λ (l : List Bytes). Perm l base) (sym shape)
        (Perm.trans (Perm.append_left (ids f.written) (take_parsed-perm i t ts))
          (subst (λ (l : List Task). Perm (ids f.written ++ task_ids l) base) e h))

  push-Holds :
      (base : List Bytes) (r : Record) (f' : Flight)
      → HasRoom world limits (Holds base) r f'
      → Holds (r.lib_id ∷ base) f'
  push-Holds base r f' (f, size, h, room, small, d, same) =
      let task : Task = record {
        inpx_record = record r { file_size_bytes = size };
        reserved_payload_bytes = size;
      } in
      let shape : ids f.written ++ task_ids (f.tasks ++ task ∷ [])
          ≡ (ids f.written ++ task_ids f.tasks) ++ r.lib_id ∷ [] =
        ap (◌++◌ (ids f.written))
          (map-append (λ (t : Task). (t.inpx_record).lib_id) f.tasks (task ∷ []))
        ∙ sym (append_assoc (ids f.written) (task_ids f.tasks) (r.lib_id ∷ [])) in
      subst (Holds (r.lib_id ∷ base)) (sym same) (
        subst (λ (l : List Bytes). Perm l (r.lib_id ∷ base)) (sym shape)
          (Perm.trans (perm_append_singleton r.lib_id (ids f.written ++ task_ids f.tasks))
            (Perm.cons r.lib_id h)))

  process_if-Holds :
      (deleted fb2 : Bool) (p : Plan) (r : Record) (base : List Bytes) (f : Flight) {f' : Flight}
      → 0 < limits.max_payloads
      → Holds base f
      → process_if world limits deleted fb2 p r f ≡ ok f'
      → Holds (one deleted fb2 r ++ base) f'
  unfolding process_if
  process_if-Holds true fb2 p r base f some_room h x = subst (Holds base) (ok_inj x) h
  process_if-Holds false false p r base f some_room h x = subst (Holds base) (ok_inj x) h
  process_if-Holds false true p r base f {f'} some_room h x =
      push-Holds base r f'
        (submit_inv world limits (Holds base) (finished-Holds base) (λ f path k. k) p r f some_room
          h x).0

  process_records-Holds :
      (p : Plan) (rs : List Record) (base : List Bytes) (f : Flight) {f' : Flight}
      → 0 < limits.max_payloads
      → Holds base f
      → process_records world limits p rs f ≡ ok f'
      → Holds (to_write rs ++ base) f'
  unfolding process_records process_record to_write
  process_records-Holds p [] base f some_room h x = subst (Holds base) (ok_inj x) h
  process_records-Holds p (r ∷ rs) base f some_room h x =
      let (g, y, z) = >>=-eq-ok (process_record world limits p r f) _ x in
      let first = one r.deleted (is_fb2_name r.file_extension) r in
      let k =
        process_if-Holds r.deleted (is_fb2_name r.file_extension) p r base (scanned f) some_room h
          y in
      Perm.trans (process_records-Holds p rs (first ++ base) g some_room k z) (
        subst (λ (l : List Bytes). Perm (to_write rs ++ (first ++ base)) (l ++ base))
          (sym (to_write-cons r rs)) (swapped (to_write rs) first base))

  pub process_plans-Holds :
      (ps : List Plan) (base : List Bytes) (f : Flight) {f' : Flight}
      → 0 < limits.max_payloads
      → Holds base f
      → process_plans world limits ps f ≡ ok f'
      → Holds (all_to_write ps ++ base) f'
  unfolding process_plans all_to_write
  process_plans-Holds [] base f some_room h x = subst (Holds base) (ok_inj x) h
  process_plans-Holds (p ∷ ps) base f some_room h x =
      let (g, y, z) = >>=-eq-ok (process_records world limits p p.records f) _ x in
      let k = process_records-Holds p p.records base f some_room h y in
      Perm.trans (process_plans-Holds ps (to_write p.records ++ base) g some_room k z)
        (swapped (all_to_write ps) (to_write p.records) base)
