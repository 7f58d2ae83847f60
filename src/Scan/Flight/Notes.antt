-- ===== src/Scan/Flight/Notes.antt =====
-- libs/App/InpxScanJobService.cpp: the LibIds that were met, and the count of the records.
use librova_inpx_web.Common.{
  ℕ, suc, ◌+◌, ◌<◌, ◌≡◌, ap, sym, subst, Bool, true, false, List, [], ◌∷◌, ◌++◌, ok, >>=-eq-ok,
  ok_inj, Bytes, length, arith,
}
use mathlib.Core.List.{Perm}
use mathlib.Core.List.Perm
use librova_inpx_web.Inpx.Record.{Record}
use librova_inpx_web.Scan.Plan.{Plan}
use librova_inpx_web.Scan.Plan.Segments.{contains}
use librova_inpx_web.Scan.Flight.{
  Flight, FlightLimits, Payloads, is_fb2_name, scanned, process_if, process_record, process_records,
  process_plans,
}
use librova_inpx_web.Scan.Flight.Loop.{submit_inv}
use librova_inpx_web.Scan.Flight.Lists.{
  to_write, all_to_write, record_count, DistinctIds, swapped, one, to_write-cons,
}

module _ (world : Payloads) (limits : FlightLimits) where
  -- The ids that were met, and the records that were counted, which drains leave alone.
  abbrev pub Notes : List Bytes → ℕ → Flight → Type 0
  Notes a n f = (f.active_ids ≡ a) × (f.scanned_records ≡ n)

  process_if-Notes :
      (deleted fb2 : Bool) (p : Plan) (r : Record) (a : List Bytes) (n : ℕ) (f : Flight)
      {f' : Flight}
      → 0 < limits.max_payloads
      → Notes a n f
      → DistinctIds a
      → process_if world limits deleted fb2 p r f ≡ ok f'
      → Notes (one deleted fb2 r ++ a) n f' × DistinctIds (one deleted fb2 r ++ a)
  unfolding process_if
  process_if-Notes true fb2 p r a n f some_room h d x = (subst (Notes a n) (ok_inj x) h, d)
  process_if-Notes false false p r a n f some_room h d x = (subst (Notes a n) (ok_inj x) h, d)
  process_if-Notes false true p r a n f {f'} some_room h d x =
      let ((g, size, k, l, small, e, same), fresh) =
        submit_inv world limits (Notes (r.lib_id ∷ a) n) (λ f i t ts e k. k) (λ f path k. k) p r f
          some_room (ap (◌∷◌ r.lib_id) h.0, h.1) x in
      (
        subst (Notes (r.lib_id ∷ a) n) (sym same) k,
        (subst (λ (l : List Bytes). contains r.lib_id l ≡ false) h.0 fresh, d),
      )

  process_records-Notes :
      (p : Plan) (rs : List Record) (a : List Bytes) (n : ℕ) (f : Flight) {f' : Flight}
      → 0 < limits.max_payloads
      → Notes a n f
      → DistinctIds a
      → process_records world limits p rs f ≡ ok f'
      → (b : List Bytes) × Notes b (n + length rs) f' × DistinctIds b × Perm (to_write rs ++ a) b
  unfolding process_records process_record to_write
  process_records-Notes p [] a n f some_room h d x =
      (a, subst (Notes a (n + 0)) (ok_inj x) (h.0, omega (arith, h.1)), d, Perm.refl a)
  process_records-Notes p (r ∷ rs) a n f some_room h d x =
      let (g, y, z) = >>=-eq-ok (process_record world limits p r f) _ x in
      let first = one r.deleted (is_fb2_name r.file_extension) r in
      let (k, d') =
        process_if-Notes r.deleted (is_fb2_name r.file_extension) p r a (suc n) (scanned f)
          some_room (h.0, ap suc h.1) d y in
      let (b, m, e, q) = process_records-Notes p rs (first ++ a) (suc n) g some_room k d' z in
      (
        b,
        (m.0, omega (arith, m.1)),
        e,
        subst (λ (l : List Bytes). Perm (l ++ a) b) (sym (to_write-cons r rs))
            (Perm.trans (Perm.symm (swapped (to_write rs) first a)) q),
      )

  pub process_plans-Notes :
      (ps : List Plan) (a : List Bytes) (n : ℕ) (f : Flight) {f' : Flight}
      → 0 < limits.max_payloads
      → Notes a n f
      → DistinctIds a
      → process_plans world limits ps f ≡ ok f'
      → (b : List Bytes) × Notes b (n + record_count ps) f'
        × DistinctIds b
        × Perm (all_to_write ps ++ a) b
  unfolding process_plans all_to_write record_count
  process_plans-Notes [] a n f some_room h d x =
      (a, subst (Notes a (n + 0)) (ok_inj x) (h.0, omega (arith, h.1)), d, Perm.refl a)
  process_plans-Notes (p ∷ ps) a n f some_room h d x =
      let (g, y, z) = >>=-eq-ok (process_records world limits p p.records f) _ x in
      let (c, k, d', q) = process_records-Notes p p.records a n f some_room h d y in
      let (b, m, e, q') = process_plans-Notes ps c (n + length p.records) g some_room k d' z in
      (
        b,
        (m.0, omega (arith, m.1)),
        e,
        Perm.trans (Perm.symm (swapped (all_to_write ps) (to_write p.records) a))
            (Perm.trans (Perm.append_left (all_to_write ps) q) q'),
      )
