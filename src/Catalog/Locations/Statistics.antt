-- ===== src/Catalog/Locations/Statistics.antt =====
-- libs/App/InpxScanJobService.cpp, `CInpxCatalogStreamWriter::Finish`: the count of the books
-- that cannot be had.
use librova_inpx_web.Common.{
  ℕ, ◌+◌, ◌≡◌, refl, ap, ◌∙◌, true, false, List, [], ◌∷◌, if◌then◌else◌, Bytes, Bool-cases, inl,
  inr, arith,
}
use librova_inpx_web.Common.Int.{ℤ, pos, ◌+ℤ◌, ◌-ℤ◌}
use librova_inpx_web.Catalog.Locations.{
  available, missing_from_index, is_available, Location, Tables, update, changes, is_gone, set_gone,
  clear_gone, is_to_mark, is_to_restore, set_availability, add_unavailable, remove_unavailable,
  finish,
}

-- How many books cannot be had.
unfoldable pub missing : List Location → ℕ
missing [] = 0
missing (l ∷ ls) = (if is_available l.availability then 0 else 1) + missing ls

missing-gone :
    (scan : Bytes) (segment : ℕ) (ls : List Location)
    → missing (update (is_gone scan segment) (set_gone scan) ls) ≡ missing ls
unfolding missing update
missing-gone scan segment [] = refl
missing-gone scan segment (l ∷ ls) = elim (Bool-cases (is_gone scan segment l)) [
  | inl e ↦ rw (e, missing-gone scan segment ls) refl
  | inr e ↦ rw (e, missing-gone scan segment ls) refl
]

missing-clear_gone :
    (scan : Bytes) (changed : List ℕ) (ls : List Location)
    → missing (clear_gone scan changed ls) ≡ missing ls
unfolding clear_gone
missing-clear_gone scan [] ls = refl
missing-clear_gone scan (segment ∷ changed) ls =
    missing-clear_gone scan changed (update (is_gone scan segment) (set_gone scan) ls)
    ∙ missing-gone scan segment ls

module _ (scan : Bytes) (source : ℕ) (t : Tables) where
  missing-mark :
      (ls : List Location)
      → missing (update (is_to_mark t source) (set_availability missing_from_index scan) ls)
        ≡ missing ls + changes (is_to_mark t source) ls
  unfolding missing update changes
  missing-mark [] = refl
  missing-mark (l ∷ ls) = elim (Bool-cases (is_to_mark t source l)) [
    | inl e ↦
        let a : is_available l.availability ≡ true = ground arith in
        rw (e, a) (omega (arith, missing-mark ls))
    | inr e ↦ rw e (omega (arith, missing-mark ls))
  ]

  missing-restore :
      (ls : List Location)
      → missing (update (is_to_restore t source) (set_availability available scan) ls)
          + changes (is_to_restore t source) ls
        ≡ missing ls
  unfolding missing update changes
  missing-restore [] = refl
  missing-restore (l ∷ ls) = elim (Bool-cases (is_to_restore t source l)) [
    | inl e ↦
        let a : is_available l.availability ≡ false = ground arith in
        rw (e, a) (omega (arith, missing-restore ls))
    | inr e ↦ rw e (omega (arith, missing-restore ls))
  ]

add_unavailable_lem : (n m : ℕ) → add_unavailable n (pos m) ≡ pos (m + n)
unfolding ◌+ℤ◌
add_unavailable_lem n m = ground arith

remove_unavailable_lem : (n m : ℕ) → remove_unavailable n (pos (m + n)) ≡ pos m
unfolding ◌-ℤ◌
remove_unavailable_lem n m = ground arith

-- If the statistics counted the books that cannot be had before a scan is published, they count
-- them after it.
pub finish-missing :
    (scan : Bytes) (source : ℕ) (changed : List ℕ) (t : Tables)
    → t.unavailable_book_count ≡ pos (missing t.locations)
    → let after = (finish scan source changed t).0 in
      after.unavailable_book_count ≡ pos (missing after.locations)
unfolding finish
finish-missing scan source changed t counted =
    let kept = clear_gone scan changed t.locations in
    let marked = update (is_to_mark t source) (set_availability missing_from_index scan) kept in
    let n = changes (is_to_restore t source) marked in
    let e : missing t.locations + changes (is_to_mark t source) kept
        ≡ missing (update (is_to_restore t source) (set_availability available scan) marked) + n =
      omega (
        arith,
        missing-restore scan source t marked,
        missing-mark scan source t kept,
        missing-clear_gone scan changed t.locations,
      ) in
    let m = changes (is_to_mark t source) kept in
    ap (λ (c : ℤ). remove_unavailable n (add_unavailable m c)) counted
    ∙ ap (remove_unavailable n) (add_unavailable_lem m (missing t.locations))
    ∙ ap (λ (k : ℕ). remove_unavailable n (pos k)) e
    ∙ remove_unavailable_lem n _
