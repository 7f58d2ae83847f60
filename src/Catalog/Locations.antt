-- ===== src/Catalog/Locations.antt =====
-- libs/App/InpxScanJobService.cpp, `CInpxCatalogStreamWriter::Finish`: which books can be had
-- after a scan, as the updates of the table `inpx_book_locations` in their order, with
-- `AddUnavailableBooks` and `RemoveUnavailableBooks` of
-- libs/Database/CatalogStatisticsMaintenance.cpp.
pub mod Listed
pub mod Statistics
use librova_inpx_web.Common.{
  ℕ, suc, ◌+◌, Bool, true, false, not, ◌&&◌, ◌||◌, List, [], ◌∷◌, Option, none, some, map, ltb,
  ◌==◌, if◌then◌else◌, Bytes, bytes_eq,
}
use librova_inpx_web.Common.Int.{ℤ, pos, negsuc, ◌+ℤ◌, ◌-ℤ◌}

-- `EInpxBookAvailability`.
pub data Availability : Type 0 where
  available missing_from_index : Availability

abbrev pub is_available : Availability → Bool
is_available available = true
is_available missing_from_index = false

-- The rows of `inpx_book_locations`, `inpx_segments` and `inpx_deletions`, as far as they are
-- read here.
pub record Location : Type 0 where
  pub book_id : ℕ
  pub source_id : ℕ
  pub segment_id : ℕ
  pub lib_id : Bytes
  pub availability : Availability
  pub present_in_segment : Bool
  pub last_seen_scan_id : Option Bytes

pub record SegmentRow : Type 0 where
  pub id : ℕ
  pub source_id : ℕ
  pub segment_order : ℕ
  pub availability : Availability

pub record Deletion : Type 0 where
  pub segment_id : ℕ
  pub lib_id : Bytes

-- The tables, with `unavailable_book_count` of `catalog_statistics`.
pub record Tables : Type 0 where
  pub locations : List Location
  pub segments : List SegmentRow
  pub deletions : List Deletion
  pub unavailable_book_count : ℤ

pub any {ℓ} : {A : Type ℓ} → (A → Bool) → List A → Bool
any holds [] = false
any holds (x ∷ xs) = holds x || any holds xs

-- `last_seen_scan_id IS NULL OR last_seen_scan_id <> ?`.
abbrev pub was_not_seen : Bytes → Option Bytes → Bool
was_not_seen scan none = true
was_not_seen scan (some seen) = not (bytes_eq seen scan)

-- An `UPDATE` with its `WHERE`, row by row; no condition reads the column that it sets elsewhere.
pub update : (Location → Bool) → (Location → Location) → List Location → List Location
update selected assign [] = []
update selected assign (l ∷ ls) = (if selected l then assign l else l) ∷ update selected assign ls

-- `SELECT changes()` behind it.
pub changes : (Location → Bool) → List Location → ℕ
changes selected [] = 0
changes selected (l ∷ ls) = (if selected l then 1 else 0) + changes selected ls

-- The first loop: a book of a changed segment that the scan did not write is no longer in it.
abbrev pub is_gone : Bytes → ℕ → Location → Bool
is_gone scan segment l =
    l.segment_id == segment && l.present_in_segment && was_not_seen scan l.last_seen_scan_id

abbrev pub set_gone : Bytes → Location → Location
set_gone scan l = record l { present_in_segment = false; last_seen_scan_id = some scan }

pub clear_gone : Bytes → List ℕ → List Location → List Location
unfolding update
clear_gone scan [] ls = ls
clear_gone scan (segment ∷ segments) ls =
    clear_gone scan segments (update (is_gone scan segment) (set_gone scan) ls)

module _ (t : Tables) where
  -- The subqueries of the two updates that follow.
  pub has_active_segment : Location → Bool
  unfolding any
  has_active_segment l = any (λ s. s.id == l.segment_id && is_available s.availability) t.segments

  pub is_deleted_later : Location → Bool
  unfolding any
  is_deleted_later l =
      any
        (λ d.
          any
            (λ deletion_segment.
              any
                (λ active_segment.
                  bytes_eq d.lib_id l.lib_id
                  && (deletion_segment.id == d.segment_id
                      && (active_segment.id == l.segment_id
                          && (deletion_segment.source_id == l.source_id
                              && (is_available deletion_segment.availability
                                  && ltb active_segment.segment_order
                                      deletion_segment.segment_order)))))
                t.segments)
            t.segments)
        t.deletions

  -- `markUnavailableStatement`.
  abbrev pub is_to_mark : ℕ → Location → Bool
  is_to_mark source l =
      l.source_id == source
      && (is_available l.availability
          && (not l.present_in_segment || (not (has_active_segment l) || is_deleted_later l)))

  -- `restoreAvailableStatement`.
  abbrev pub is_to_restore : ℕ → Location → Bool
  is_to_restore source l =
      l.source_id == source
      && (not (is_available l.availability)
          && (l.present_in_segment && (has_active_segment l && not (is_deleted_later l))))

abbrev pub set_availability : Availability → Bytes → Location → Location
set_availability a scan l = record l { availability = a; last_seen_scan_id = some scan }

-- `AddUnavailableBooks`, `RemoveUnavailableBooks`.
abbrev pub add_unavailable : ℕ → ℤ → ℤ
add_unavailable n count = if n == 0 then count else count +ℤ pos n

abbrev pub remove_unavailable : ℕ → ℤ → ℤ
remove_unavailable n count = if n == 0 then count else count -ℤ pos n

-- `Finish`, up to the statistics, with `MarkedUnavailableRecords` of its result.
pub finish : Bytes → ℕ → List ℕ → Tables → Tables × ℕ
unfolding clear_gone changes update
finish scan source changed t =
    let kept = clear_gone scan changed t.locations in
    let marked = changes (is_to_mark t source) kept in
    let after = update (is_to_mark t source) (set_availability missing_from_index scan) kept in
    let restored = changes (is_to_restore t source) after in
    (
      record t {
        locations = update (is_to_restore t source) (set_availability available scan) after;
        unavailable_book_count =
            remove_unavailable restored (add_unavailable marked t.unavailable_book_count);
      },
      marked,
    )
