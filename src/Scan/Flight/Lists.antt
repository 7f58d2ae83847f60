-- ===== src/Scan/Flight/Lists.antt =====
-- libs/App/InpxScanJobService.cpp: the books that a scan has to write, as lists.
use librova_inpx_web.Common.{
  ℕ, zero, suc, ◌+◌, ◌≡◌, refl, subst, inl, inr, Bool, false, not, ◌&&◌, List, [], ◌∷◌, ◌++◌, map,
  ltb, if◌then◌else◌, Bytes, length, Bool-cases, append_assoc,
}
use mathlib.Core.List.{Perm, perm_append_comm}
use mathlib.Core.List.Perm
use librova_inpx_web.Inpx.Record.{Record}
use librova_inpx_web.Scan.Plan.{Plan}
use librova_inpx_web.Scan.Plan.Segments.{contains}
use librova_inpx_web.Scan.Flight.{Task, take_at, take_parsed, is_executed, is_fb2_name}

abbrev pub ids : List Record → List Bytes
ids = map (λ r. r.lib_id)

abbrev pub task_ids : List Task → List Bytes
task_ids = map (λ t. (t.inpx_record).lib_id)

-- The books of the records that a scan has to write: those that are not deleted and in FB2.
unfoldable pub to_write : List Record → List Bytes
to_write [] = []
to_write (r ∷ rs) =
    let rest = to_write rs in
    if not r.deleted && is_fb2_name r.file_extension then r.lib_id ∷ rest else rest

-- The same of several plans, and the number of their records.
unfoldable pub all_to_write : List Plan → List Bytes
all_to_write [] = []
all_to_write (p ∷ ps) = to_write p.records ++ all_to_write ps

unfoldable pub record_count : List Plan → ℕ
record_count [] = 0
record_count (p ∷ ps) = length p.records + record_count ps

abbrev pub executed : List Plan → List Plan
executed [] = []
executed (p ∷ ps) = let rest = executed ps in if is_executed p.change then p ∷ rest else rest

abbrev pub DistinctIds : List Bytes → Type 0
DistinctIds [] = Unit
DistinctIds (x ∷ xs) = (contains x xs ≡ false) × DistinctIds xs

pub swapped : (a b c : List Bytes) → Perm (a ++ (b ++ c)) ((b ++ a) ++ c)
swapped a b c =
    subst (λ (l : List Bytes). Perm l ((b ++ a) ++ c)) (append_assoc a b c)
      (Perm.append_right c (perm_append_comm a b))

take_at-perm :
    (i : ℕ) (t : Task) (ts : List Task)
    → let (v, vs) = take_at i t ts in Perm (task_ids (v ∷ vs)) (task_ids (t ∷ ts))
unfolding take_at
take_at-perm zero t ts = Perm.refl _
take_at-perm (suc i) t [] = Perm.refl _
take_at-perm (suc i) t (u ∷ us) = Perm.trans (Perm.swap _ _ _) (Perm.cons _ (take_at-perm i u us))

pub take_parsed-perm :
    (i : ℕ) (t : Task) (ts : List Task)
    → let (v, vs) = take_parsed i t ts in Perm (task_ids (v ∷ vs)) (task_ids (t ∷ ts))
take_parsed-perm i t ts = elim (Bool-cases (ltb i (suc (length ts)))) [
  | inl e ↦ rw e (take_at-perm i t ts)
  | inr e ↦ rw e (Perm.refl _)
]

-- The books to write of one record, in front.
abbrev pub one : Bool → Bool → Record → List Bytes
one deleted fb2 r = if not deleted && fb2 then r.lib_id ∷ [] else []

pub to_write-cons :
    (r : Record) (rs : List Record)
    → to_write (r ∷ rs) ≡ one r.deleted (is_fb2_name r.file_extension) r ++ to_write rs
unfolding to_write
to_write-cons r rs = elim (Bool-cases (not r.deleted && is_fb2_name r.file_extension)) [
  | inl e ↦ rw e refl
  | inr e ↦ rw e refl
]
