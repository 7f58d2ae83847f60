-- ===== src/Scan/Flight/Bounded.antt =====
-- libs/App/InpxScanJobService.cpp: the payloads in flight, by number and by bytes.
use librova_inpx_web.Common.{
  ℕ, zero, suc, ◌+◌, ◌≤◌, ◌<◌, ◌≡◌, refl, ap, sym, subst, inl, inr, Bool, true, false, List, [],
  ◌∷◌, ◌++◌, ok, >>=-eq-ok, ok_inj, ltb, length, length-append, Bool-cases, arith,
}
use librova_inpx_web.Inpx.Record.{Record}
use librova_inpx_web.Scan.Plan.{Plan}
use librova_inpx_web.Scan.Flight.Loop.{Drained, IsKept, HasRoom, submit_inv}
use librova_inpx_web.Scan.Flight.{
  Task, Flight, FlightLimits, Payloads, take_at, take_parsed, has_no_bytes, is_fb2_name, scanned,
  process_if, process_record, process_records, process_plans,
}

-- The bytes that the tasks in flight hold.
unfoldable pub held_bytes : List Task → ℕ
held_bytes [] = 0
held_bytes (t ∷ ts) = t.reserved_payload_bytes + held_bytes ts

take_at_lem :
    (i : ℕ) (t : Task) (ts : List Task)
    → let (v, vs) = take_at i t ts in
      (v.reserved_payload_bytes + held_bytes vs ≡ t.reserved_payload_bytes + held_bytes ts)
      × (length vs ≡ length ts)
unfolding take_at held_bytes
take_at_lem zero t ts = (refl, refl)
take_at_lem (suc i) t [] = (refl, refl)
take_at_lem (suc i) t (u ∷ us) =
    let h = take_at_lem i u us in (omega (arith, h.0), omega (arith, h.1))

pub take_parsed_lem :
    (i : ℕ) (t : Task) (ts : List Task)
    → let (v, vs) = take_parsed i t ts in
      (v.reserved_payload_bytes + held_bytes vs ≡ t.reserved_payload_bytes + held_bytes ts)
      × (length vs ≡ length ts)
take_parsed_lem i t ts = elim (Bool-cases (ltb i (suc (length ts)))) [
  | inl e ↦ rw e (take_at_lem i t ts)
  | inr e ↦ rw e (refl, refl)
]

held_bytes-snoc :
    (ts : List Task) (t : Task)
    → held_bytes (ts ++ t ∷ []) ≡ held_bytes ts + t.reserved_payload_bytes
unfolding held_bytes
held_bytes-snoc [] t = omega arith
held_bytes-snoc (u ∷ ts) t = omega (arith, held_bytes-snoc ts t)

module _ (world : Payloads) (limits : FlightLimits) where
  -- At most so many payloads are in flight, the count of their bytes is right, and it is within its
  -- limit.
  pub record IsBounded (f : Flight) : Type 0 where
    pub few : length f.tasks ≤ limits.max_payloads
    pub reserved : f.payload_bytes ≡ held_bytes f.tasks
    pub within : f.payload_bytes ≤ limits.max_payload_bytes

  finished-IsBounded : IsKept world limits IsBounded
  unfolding held_bytes
  finished-IsBounded f i t ts e h =
      let (sums, sizes) = take_parsed_lem i t ts in
      let n : length f.tasks ≡ suc (length ts) = ap (λ (l : List Task). length l) e in
      let m : held_bytes f.tasks ≡ t.reserved_payload_bytes + held_bytes ts = ap held_bytes e in
      record {
        few = omega (arith, h.few);
        reserved = omega (arith, h.reserved);
        within = omega (arith, h.within);
      }

  push-IsBounded : (r : Record) (f' : Flight) → HasRoom world limits IsBounded r f' → IsBounded f'
  unfolding held_bytes
  push-IsBounded r f' (f, size, h, room, small, d, same) =
      let fits : f.payload_bytes + size ≤ limits.max_payload_bytes = enough f size h small d in
      subst IsBounded (sym same) (record {
        few = omega (arith, length-append f.tasks (task r size ∷ []));
        reserved = omega (arith, held_bytes-snoc f.tasks (task r size), h.reserved);
        within = fits;
      })
    where
      task : Record → ℕ → Task
      task r size = record {
        inpx_record = record r { file_size_bytes = size };
        reserved_payload_bytes = size;
      }

      enough :
          (f : Flight) (size : ℕ)
          → IsBounded f
          → size ≤ limits.max_payload_bytes
          → Drained world limits (has_no_bytes world limits size) f
          → f.payload_bytes + size ≤ limits.max_payload_bytes
      enough f size h small (inl t) = ground arith
      enough f size h small (inr e) =
          let n : held_bytes f.tasks ≡ 0 = ap held_bytes e in omega (arith, h.reserved)

  process_if-IsBounded :
      (deleted fb2 : Bool) (p : Plan) (r : Record) (f : Flight) {f' : Flight}
      → 0 < limits.max_payloads
      → IsBounded f
      → process_if world limits deleted fb2 p r f ≡ ok f'
      → IsBounded f'
  unfolding process_if
  process_if-IsBounded true fb2 p r f some_room h x = subst IsBounded (ok_inj x) h
  process_if-IsBounded false false p r f some_room h x =
      subst IsBounded (ok_inj x) (record { few = h.few; reserved = h.reserved; within = h.within })
  process_if-IsBounded false true p r f {f'} some_room h x =
      push-IsBounded r f'
        (submit_inv world limits IsBounded finished-IsBounded
          (λ f path k. record { few = k.few; reserved = k.reserved; within = k.within }) p r f
          some_room (record { few = h.few; reserved = h.reserved; within = h.within }) x).0

  process_records-IsBounded :
      (p : Plan) (rs : List Record) (f : Flight) {f' : Flight}
      → 0 < limits.max_payloads
      → IsBounded f
      → process_records world limits p rs f ≡ ok f'
      → IsBounded f'
  unfolding process_records process_record
  process_records-IsBounded p [] f some_room h x = subst IsBounded (ok_inj x) h
  process_records-IsBounded p (r ∷ rs) f some_room h x =
      let (g, y, z) = >>=-eq-ok (process_record world limits p r f) _ x in
      process_records-IsBounded p rs g some_room
        (process_if-IsBounded r.deleted (is_fb2_name r.file_extension) p r (scanned f) some_room
          (record { few = h.few; reserved = h.reserved; within = h.within }) y)
        z

  -- Whatever plans and records are processed, so also those up to any moment of a scan: no more
  -- payloads are in flight than the limit says, and together they hold no more bytes than their
  -- limit, whichever tasks are ready first; and the bytes counted are those of the tasks in flight.
  pub process_plans-IsBounded :
      (plans : List Plan) (f : Flight) {f' : Flight}
      → 0 < limits.max_payloads
      → IsBounded f
      → process_plans world limits plans f ≡ ok f'
      → IsBounded f'
  unfolding process_plans
  process_plans-IsBounded [] f some_room h x = subst IsBounded (ok_inj x) h
  process_plans-IsBounded (p ∷ ps) f some_room h x =
      let (g, y, z) = >>=-eq-ok (process_records world limits p p.records f) _ x in
      process_plans-IsBounded ps g some_room (process_records-IsBounded p p.records f some_room h y)
        z
