-- ===== src/Scan/Flight/Loop.antt =====
-- libs/App/InpxScanJobService.cpp: the loops that drain, with one rule for what they keep.
use librova_inpx_web.Common.{
  ℕ, zero, suc, ◌-◌, ◌≤◌, ◌<◌, ◌≡◌, refl, ap, sym, subst, ◌⊎◌, inl, inr, Bool, false, not, ◌&&◌,
  List, [], ◌∷◌, ◌++◌, Option, none, some, Outcome, ok, ◌>>=◌, >>=-eq-ok, ok_inj, ltb, ◌==◌, Bytes,
  bytes_eq, length, Bool-cases, arith,
}
use librova_inpx_web.Inpx.Record.{Record}
use librova_inpx_web.Scan.Plan.{Plan}
use librova_inpx_web.Scan.Plan.Segments.{contains}
use librova_inpx_web.Scan.Flight.{
  Task, Flight, FlightLimits, Payloads, FlightError, take_at, take_parsed, finish_task, drain_first,
  drain_while, always, is_full, has_no_bytes, drain, check_manifest, open_archive, push, read_entry,
  submit_sized, note_id, submit,
}

take_at-length : (i : ℕ) (t : Task) (ts : List Task) → length (take_at i t ts).1 ≡ length ts
unfolding take_at
take_at-length zero t ts = refl
take_at-length (suc i) t [] = refl
take_at-length (suc i) t (u ∷ us) = ap suc (take_at-length i u us)

take_parsed-length : (i : ℕ) (t : Task) (ts : List Task) → length (take_parsed i t ts).1 ≡ length ts
take_parsed-length i t ts = elim (Bool-cases (ltb i (suc (length ts)))) [
  | inl e ↦ rw e (take_at-length i t ts)
  | inr e ↦ rw e refl
]

module _ (world : Payloads) (limits : FlightLimits) where
  abbrev pub finished : Flight → Task → List Task → Flight
  finished f t ts = record f {
    tasks = ts;
    payload_bytes = f.payload_bytes - t.reserved_payload_bytes;
    written = f.written ++ t.inpx_record ∷ [];
  }

  -- Behind a loop that drains, its test fails or nothing is left.
  abbrev pub Drained : (Flight → Bool) → Flight → Type 0
  Drained test f = (test f ≡ false) ⊎ (f.tasks ≡ [])

  -- A predicate that a finished task keeps, whichever task it was.
  abbrev pub IsKept : (Flight → Type 0) → Type 0
  IsKept P =
      (f : Flight) (i : ℕ) (t : Task) (ts : List Task)
      → f.tasks ≡ t ∷ ts
      → P f
      → P (finished f (take_parsed i t ts).0 (take_parsed i t ts).1)

  module _ (P : Flight → Type 0) (keeps : IsKept P) where
    finish_task_inv :
        (f : Flight) (i : ℕ) (t : Task) (ts : List Task) {f' : Flight}
        → f.tasks ≡ t ∷ ts
        → P f
        → finish_task world limits f (take_parsed i t ts) ≡ ok f'
        → P f' × (length f'.tasks ≡ length ts)
    finish_task_inv f i t ts e h x =
        elim (Bool-cases (world.is_written (take_parsed i t ts).0.inpx_record)) [
          | inr bad ↦ absurd (cc (rw bad at x))
          | inl good ↦
              subst (λ (g : Flight). P g × (length g.tasks ≡ length ts)) (ok_inj (rw good at x))
                (keeps f i t ts e h, take_parsed-length i t ts)
        ]

    drain_first_inv :
        (n : ℕ) (test : Flight → Bool) (next : Flight → Outcome FlightError Flight) {f' : Flight}
        → ((g : Flight) → length g.tasks ≤ n → P g → next g ≡ ok f' → P f' × Drained test f')
        → (f : Flight) (ts : List Task) → f.tasks ≡ ts
        → length ts ≤ suc n
        → P f
        → drain_first world limits ts f next ≡ ok f'
        → P f' × Drained test f'
    drain_first_inv n test next ih f [] e enough h x =
        subst (λ (g : Flight). P g × Drained test g) (ok_inj x) (h, inr e)
    drain_first_inv n test next ih f (t ∷ ts) e enough h x =
        let (g, y, z) =
          >>=-eq-ok (finish_task world limits f (take_parsed (world.ready (length f.written)) t ts))
            next x in
        let (kept, shorter) = finish_task_inv f (world.ready (length f.written)) t ts e h y in
        ih g (omega (arith, shorter)) kept z

    pub drain_while_inv :
        (n : ℕ) (test : Flight → Bool) (f : Flight) {f' : Flight}
        → length f.tasks ≤ n
        → P f
        → drain_while world limits n test f ≡ ok f'
        → P f' × Drained test f'
    unfolding drain_while
    drain_while_inv zero test f enough h x =
        subst (λ (g : Flight). P g × Drained test g) (ok_inj x) (h, inr (nothing f.tasks enough))
      where
        nothing : (ts : List Task) → length ts ≤ 0 → ts ≡ []
        nothing [] l = refl
        nothing (t ∷ ts) l = absurd (omega arith)
    drain_while_inv (suc n) test f {f'} enough h x = elim (Bool-cases (test f)) [
      | inr t ↦
          subst (λ (g : Flight). P g × Drained test g) (ok_inj (rw (t, drain_while) at x))
            (h, inl t)
      | inl t ↦
          drain_first_inv n test (drain_while world limits n test)
            (λ g l p y. drain_while_inv n test g l p y) f f.tasks refl enough h
            (rw (t, drain_while) at x)
    ]

    pub drain_inv :
        (test : Flight → Bool) (f : Flight) {f' : Flight}
        → P f
        → drain world limits test f ≡ ok f'
        → P f' × Drained test f'
    drain_inv test f h x = drain_while_inv (length f.tasks) test f (omega arith) h x

-- A task that finishes leaves one task less.
finished-few :
    (world : Payloads) (limits : FlightLimits) (max : ℕ)
    → IsKept world limits (λ f. length f.tasks < max)
finished-few world limits max f i t ts e h =
    let n : length f.tasks ≡ suc (length ts) = ap (λ (l : List Task). length l) e in
    omega (arith, take_parsed-length i t ts)

module _ (world : Payloads) (limits : FlightLimits) where
  open_archive_inv :
      (P : Flight → Type 0)
      → IsKept world limits P
      → ((f : Flight) (path : Bytes) → P f → P (record f { current_archive = path }))
      → (p : Plan) (f : Flight) {f' : Flight} → P f
      → open_archive world limits p f ≡ ok f'
      → P f'
  unfolding open_archive
  open_archive_inv P keeps anywhere p f {f'} h x =
      elim (Bool-cases (bytes_eq f.current_archive p.resolved_archive_path)) [
        | inl t ↦ subst P (ok_inj (rw t at x)) h
        | inr t ↦
            let (g, y, z) =
              >>=-eq-ok (drain world limits (always world limits) f)
                (λ g. check_manifest world limits p g (world.manifest p.resolved_archive_path))
                (rw t at x) in
            checked (world.manifest p.resolved_archive_path) g
              (drain_inv world limits P keeps (always world limits) f h y).0 z
      ]
    where
      checked :
          (o : Option Bytes) (g : Flight) → P g → check_manifest world limits p g o ≡ ok f' → P f'
      checked none g k y = absurd (cc)
      checked (some m) g k y = elim (Bool-cases (bytes_eq m p.archive_manifest_fingerprint)) [
        | inl t ↦ subst P (ok_inj (rw t at y)) (anywhere g p.resolved_archive_path k)
        | inr t ↦ absurd (cc (rw t at y))
      ]

  -- Where a record is submitted: the state just before, in which there is room for it.
  abbrev pub HasRoom : (Flight → Type 0) → Record → Flight → Type 0
  HasRoom P r f' =
      (f : Flight) × (size : ℕ) × P f
      × (length f.tasks < limits.max_payloads)
      × (size ≤ limits.max_payload_bytes)
      × Drained world limits (has_no_bytes world limits size) f
      × (f' ≡ push world limits r size f)

  submit_sized_inv :
      (P : Flight → Type 0)
      → IsKept world limits P
      → (p : Plan) (r : Record) (o : Option ℕ) (f : Flight) {f' : Flight} → P f
      → length f.tasks < limits.max_payloads
      → submit_sized world limits p r o f ≡ ok f'
      → HasRoom P r f'
  submit_sized_inv P keeps p r none f h room x = absurd (cc)
  submit_sized_inv P keeps p r (some size) f {f'} h room x =
      elim (Bool-cases (not (r.file_size_bytes == 0) && not (size == r.file_size_bytes))) [
        | inl t ↦ absurd (cc (rw t at x))
        | inr t ↦ elim (Bool-cases (ltb limits.max_payload_bytes size)) [
          | inl u ↦ absurd (cc (rw (t, u) at x))
          | inr u ↦
              let (g, y, z) =
                >>=-eq-ok (drain world limits (has_no_bytes world limits size) f)
                  (read_entry world limits p r size) (rw (t, u) at x) in
              let (k, d) =
                drain_inv world limits (λ f. P f × (length f.tasks < limits.max_payloads))
                  (λ f i a rest e k. (
                    keeps f i a rest e k.0,
                    finished-few world limits limits.max_payloads f i a rest e k.1,
                  ))
                  (has_no_bytes world limits size) f (h, room) y in
              read size g k.0 k.1 (ground arith) d z
        ]
      ]
    where
      read :
          (size : ℕ) (g : Flight)
          → P g
          → length g.tasks < limits.max_payloads
          → size ≤ limits.max_payload_bytes
          → Drained world limits (has_no_bytes world limits size) g
          → read_entry world limits p r size g ≡ ok f'
          → HasRoom P r f'
      read size g k l small d y =
          elim (Bool-cases (world.is_readable p.resolved_archive_path r.entry_name)) [
            | inl t ↦ (g, size, k, l, small, d, sym (ok_inj (rw t at y)))
            | inr t ↦ absurd (cc (rw t at y))
          ]

  pub submit_inv :
      (P : Flight → Type 0)
      → IsKept world limits P
      → ((f : Flight) (path : Bytes) → P f → P (record f { current_archive = path }))
      → (p : Plan) (r : Record) (f : Flight) {f' : Flight} → 0 < limits.max_payloads
      → P (record f { active_ids = r.lib_id ∷ f.active_ids })
      → submit world limits p r f ≡ ok f'
      → HasRoom P r f' × (contains r.lib_id f.active_ids ≡ false)
  unfolding submit
  submit_inv P keeps anywhere p r f {f'} some_room h x =
      let (f1, y1, z1) = >>=-eq-ok (note_id world limits r.lib_id f) _ x in noted f1 y1 z1
    where
      fits :
          (f2 : Flight)
          → Drained world limits (is_full world limits) f2
          → length f2.tasks < limits.max_payloads
      fits f2 (inl t) = ground arith
      fits f2 (inr e) =
          let n : length f2.tasks ≡ 0 = ap (λ (l : List Task). length l) e in omega arith

      behind :
          (f2 : Flight)
          → P f2
          → Drained world limits (is_full world limits) f2
          → (open_archive world limits p f2
              >>= submit_sized world limits p r
                  (world.entry_size p.resolved_archive_path r.entry_name))
            ≡ ok f'
          → HasRoom P r f'
      behind f2 k d z =
          let (f3, y3, z3) = >>=-eq-ok (open_archive world limits p f2) _ z in
          let room : length f2.tasks < limits.max_payloads = fits f2 d in
          let both =
            open_archive_inv (λ f. P f × (length f.tasks < limits.max_payloads))
              (λ f i a rest e k. (
                keeps f i a rest e k.0,
                finished-few world limits limits.max_payloads f i a rest e k.1,
              ))
              (λ f path k. (anywhere f path k.0, k.1)) p f2 (k, room) y3 in
          submit_sized_inv P keeps p r (world.entry_size p.resolved_archive_path r.entry_name) f3
            both.0 both.1 z3

      noted :
          (f1 : Flight)
          → note_id world limits r.lib_id f ≡ ok f1
          → (drain world limits (is_full world limits) f1 >>= λ f2.
              open_archive world limits p f2
              >>= submit_sized world limits p r
                  (world.entry_size p.resolved_archive_path r.entry_name))
            ≡ ok f'
          → HasRoom P r f' × (contains r.lib_id f.active_ids ≡ false)
      noted f1 y z = elim (Bool-cases (contains r.lib_id f.active_ids)) [
        | inl t ↦ absurd (cc (rw t at y))
        | inr t ↦ elim (Bool-cases (ltb (length f.active_ids) limits.max_records)) [
          | inr u ↦ absurd (cc (rw (t, u) at y))
          | inl u ↦
              let k : P f1 = subst P (ok_inj (rw (t, u) at y)) h in
              let (f2, y2, z2) = >>=-eq-ok (drain world limits (is_full world limits) f1) _ z in
              let (k2, d2) = drain_inv world limits P keeps (is_full world limits) f1 k y2 in
              (behind f2 k2 d2 z2, t)
        ]
      ]
