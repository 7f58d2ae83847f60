-- ===== src/Tests/Scan.antt =====
-- The planning and the execution of a scan in libs/App/InpxScanJobService.cpp at concrete inputs.
use librova_inpx_web.Common.{
  ℕ, ◌+◌, ◌≡◌, ◌≢◌, ◌≤◌, ◌⊎◌, All, refl, Bool, true, false, List, [], ◌∷◌, ◌++◌, Option, none, some,
  ok, Bytes, codes, bytes_eq, starts_with, length, arith,
}
use mathlib.Core.List.{Perm}
use librova_inpx_web.Unicode.Legacy.{Converter}
use librova_inpx_web.Unicode.Utf8.{try_decode}
use librova_inpx_web.Unicode.Walk.{walk, is_valid_utf8}
use librova_inpx_web.Inpx.Number.{try_parse_unsigned, try_parse_int}
use librova_inpx_web.Inpx.Text.{
  trim_ascii, trim_end, trim_start, split_non_empty, trim_parts, find_in, append_text, split_views,
  split_from, to_lower_ascii, find_byte, copy_text,
}
use librova_inpx_web.Inpx.Record.{Record, read_record}
use librova_inpx_web.Inpx.Segment.{Segment, Summary, parse_lines, parse_segment}
use librova_inpx_web.Scan.Budget.{PlanningLimits, percent}
use librova_inpx_web.Scan.Plan.{
  rescan, SegmentChange, added, unchanged, removed, FileState, Payload, Existing, Plan, Planner,
  manifest_read, find_guard, set_guard, find_existing, has_name,
}
use librova_inpx_web.Scan.Plan.Archives.{Disk, read_archive_state, read_archive_manifest}
use librova_inpx_web.Scan.Plan.Segments.{
  any_fb2, any_skipped, contains, deleted_ids, parse_planned, plan_anew, compare_manifest,
  plan_reused, plan_found, plan_segment, plan_segments, plan_removed, plan_all,
}
use librova_inpx_web.Scan.Plan.Segments.Aligned.{Aligned, removed_of, plan_all_lem}
use librova_inpx_web.Scan.Plan.Totals.{
  Progress, total_of, note_plans, plan_progress, unread, plan_progress_lem,
}
use librova_inpx_web.Scan.Guards.{find_expected, check_plans, check_guards, validate_archive_guards}
use librova_inpx_web.Scan.Guards.Kept.{IsUnchanged, IsAsPlanned, validate_archive_guards_lem}
use librova_inpx_web.Scan.Complete.{scanned_in_all}
use librova_inpx_web.Scan.Flight.{
  Task, Flight, FlightLimits, Payloads, take_at, is_before, insert_plan, execution_plans,
  drain_while, open_archive, submit, process_if, process_record, process_records, process_plans,
  execute,
}
use librova_inpx_web.Scan.Flight.Bounded.{held_bytes, IsBounded, process_plans-IsBounded}
use librova_inpx_web.Scan.Flight.Lists.{ids, all_to_write, executed, record_count, DistinctIds}
use librova_inpx_web.Scan.Flight.Written.{execute_lem}

abbrev columns : List Bytes
columns =
    codes "Lem,Stanislaw:"
    ∷ codes "sf:"
    ∷ codes "Solaris"
    ∷ []
    ∷ []
    ∷ codes "101"
    ∷ codes "2048"
    ∷ codes "7"
    ∷ codes "0"
    ∷ codes "FB2"
    ∷ []
    ∷ codes "ru"
    ∷ []
    ∷ []
    ∷ []
    ∷ []

abbrev joined : List Bytes → Bytes
joined [] = []
joined (p ∷ []) = p
joined (p ∷ q ∷ ps) = p ++ 4 ∷ joined (q ∷ ps)

abbrev line : Bytes
line = joined columns

abbrev converter : Converter
converter = record { convert = λ e value. none }

-- Of a segment of two records.
abbrev last_summary : Summary
last_summary = record {
  inp_entry_count = 1;
  total_records = 2;
  parsed_records = 2;
  skipped_records = 0;
  deleted_records = 0;
  warning_count = 0;
}

abbrev state : FileState
state = record { file_size_bytes = 9; mtime_ticks = 4 }

-- A disk where each archive has its own name as its path.
abbrev disk : Disk
disk = record {
  resolve = λ name. some name;
  file_state = λ path. some state;
  manifest = λ path. some (codes "m");
  validated_manifest = λ path. some (codes "m", 9);
}

abbrev limits : PlanningLimits
limits = record {
  max_inp_source_bytes = 100;
  max_records = 10;
  max_segments = 10;
  max_filesystem_entries = 10;
}

-- What the last scan left of a segment, whose archive has the state above.
abbrev existing : Bytes → Existing
existing name = record {
  id = 1;
  inp_entry_name = name;
  archive_name = codes "z";
  inp_fingerprint = codes "f";
  segment_order = 0;
  summary = last_summary;
  is_available = true;
  requires_archive = true;
  resolved_archive_path = some (codes "z");
  archive_file_state = state;
  archive_manifest_fingerprint = some (codes "m");
}

abbrev payload : Bytes → Payload
payload name = record {
  segment = record { inp_entry_name = name; archive_name = codes "z"; bytes = [] };
  fingerprint = codes "f";
}

abbrev last_scan : List Existing
last_scan = existing (codes "a") ∷ existing (codes "gone") ∷ []

abbrev new_segment : Segment
new_segment = record { inp_entry_name = codes "new"; archive_name = codes "z"; bytes = line }

abbrev payloads : List Payload
payloads = payload (codes "a") ∷ record { segment = new_segment; fingerprint = codes "f" } ∷ []

abbrev plan : SegmentChange → Bytes → ℕ → Option ℕ → Bool → Bytes → FileState → Bytes → Plan
plan change name order id archive path found manifest = record {
  change = change;
  inp_entry_name = name;
  archive_name = codes "z";
  fingerprint = codes "f";
  summary = last_summary;
  records = [];
  warnings = [];
  deleted_lib_ids = [];
  segment_order = order;
  requires_archive = archive;
  resolved_archive_path = path;
  archive_file_state = found;
  archive_manifest_fingerprint = manifest;
  existing_id = id;
  archive_opened = false;
}

abbrev new_book : Record
new_book = record {
  authors =
      record {
        display_name = codes "Stanislaw Lem";
        last_name = codes "Lem";
        first_name = codes "Stanislaw";
        middle_name = [];
      }
      ∷ [];
  genres = codes "sf" ∷ [];
  keywords = [];
  title = codes "Solaris";
  series = none;
  series_number = none;
  file_name = codes "101";
  file_size_bytes = 2048;
  lib_id = codes "7";
  deleted = false;
  file_extension = codes "fb2";
  date_added = none;
  language = codes "ru";
  inp_entry_name = codes "new";
  archive_name = codes "z";
  entry_name = codes "101.fb2";
}

abbrev new_summary : Summary
new_summary = record {
  inp_entry_count = 1;
  total_records = 1;
  parsed_records = 1;
  skipped_records = 0;
  deleted_records = 0;
  warning_count = 0;
}

abbrev planned : Planner
planned = record {
  plans =
      plan unchanged (codes "a") 0 (some 1) true (codes "z") state (codes "m")
      ∷ record (plan added (codes "new") 1 none true (codes "z") state (codes "m")) {
        summary = new_summary;
        records = new_book ∷ [];
        archive_opened = true;
      }
      ∷ plan removed (codes "gone") 0 (some 1) true (codes "z") state (codes "m")
      ∷ [];
  guards =
      record {
        archive_name = codes "z";
        resolved_archive_path = codes "z";
        file_state = state;
        manifest_fingerprint = codes "m";
        phase = manifest_read;
      }
      ∷ [];
  planned_record_count = 1;
  retained_warning_count = 0;
  archive_bytes_read = 0;
}

planned-plan_all : plan_all converter disk rescan limits last_scan payloads ≡ ok planned
unfolding plan_all plan_segments plan_segment plan_found plan_reused plan_anew parse_planned
    compare_manifest plan_removed any_skipped any_fb2 deleted_ids contains find_existing has_name
    read_archive_state read_archive_manifest find_guard set_guard bytes_eq starts_with is_valid_utf8
    walk try_decode parse_segment parse_lines copy_text find_byte find_in read_record split_views
    split_from trim_ascii trim_end trim_start try_parse_unsigned try_parse_int split_non_empty
    to_lower_ascii append_text trim_parts
planned-plan_all = refl

plan_all_lem_example :
    (plans : List Plan) × (planned.plans
      ≡ plans ++ removed_of converter disk rescan limits plans last_scan)
    × Aligned converter disk rescan limits last_scan [] payloads plans
    × (payloads ≢ [])
plan_all_lem_example = plan_all_lem converter disk rescan limits last_scan payloads planned-plan_all

abbrev book : Bytes → Record
book lib_id = record {
  authors = [];
  genres = [];
  keywords = [];
  title = lib_id;
  series = none;
  series_number = none;
  file_name = lib_id;
  file_size_bytes = 5;
  lib_id = lib_id;
  deleted = false;
  file_extension = codes "FB2";
  date_added = none;
  language = codes "ru";
  inp_entry_name = codes "a";
  archive_name = codes "z";
  entry_name = lib_id;
}

-- Three books, of which two are in flight at once, and the second is ready first.
abbrev books : List Record
books = book (codes "1") ∷ book (codes "2") ∷ book (codes "3") ∷ []

abbrev to_read : List Plan
to_read =
    record (plan added (codes "a") 0 none true (codes "z") state (codes "m")) { records = books }
    ∷ []

abbrev world : ℕ → Payloads
world size = record {
  manifest = λ path. some (codes "m");
  entry_size = λ path entry. some size;
  is_readable = λ path entry. true;
  is_written = λ r. true;
  ready = λ n. 1;
}

abbrev flight_limits : FlightLimits
flight_limits = record { max_payloads = 2; max_payload_bytes = 12; max_records = 10 }

abbrev flight : List Task → ℕ → List Bytes → Bytes → ℕ → List Record → Flight
flight tasks bytes ids path scanned written = record {
  tasks = tasks;
  payload_bytes = bytes;
  active_ids = ids;
  current_archive = path;
  scanned_records = scanned;
  skipped_records = 0;
  written = written;
}

abbrev start : Flight
start = flight [] 0 [] [] 0 []

abbrev task : Bytes → Task
task lib_id = record { inpx_record = book lib_id; reserved_payload_bytes = 5 }

abbrev all_ids : List Bytes
all_ids = codes "3" ∷ codes "2" ∷ codes "1" ∷ []

abbrev under_way : Flight
under_way =
    flight (task (codes "1") ∷ task (codes "3") ∷ []) 10 all_ids (codes "z") 3
      (book (codes "2") ∷ [])

start-under_way : process_plans (world 5) flight_limits to_read start ≡ ok under_way
unfolding process_plans process_records process_record process_if submit open_archive drain_while
    take_at contains bytes_eq to_lower_ascii
start-under_way = refl

process_plans-IsBounded_example : IsBounded (world 5) flight_limits under_way
unfolding held_bytes
process_plans-IsBounded_example =
    process_plans-IsBounded (world 5) flight_limits to_read start (omega arith)
      (record { few = omega arith; reserved = refl; within = omega arith }) start-under_way

abbrev at_end : Flight
at_end =
    flight [] 0 all_ids (codes "z") 3 (book (codes "2") ∷ book (codes "3") ∷ book (codes "1") ∷ [])

start-at_end : execute (world 5) flight_limits to_read start ≡ ok at_end
unfolding execute execution_plans insert_plan is_before process_plans process_records process_record
    process_if submit open_archive drain_while take_at contains bytes_eq to_lower_ascii
start-at_end = refl

execute_lem_example :
    (at_end.tasks ≡ [])
    × Perm (ids at_end.written) (all_to_write (executed to_read))
    × DistinctIds at_end.active_ids
    × Perm (all_to_write (executed to_read) ++ start.active_ids) at_end.active_ids
    × (at_end.scanned_records ≡ start.scanned_records + record_count (executed to_read))
execute_lem_example =
    execute_lem (world 5) flight_limits to_read start (omega arith) refl refl tt start-at_end

abbrev shown : Progress
shown = record {
  total_records = 3;
  scanned_records = 2;
  reused_records = 2;
  segments_total = 3;
  segments_unchanged = 1;
  segments_added = 1;
  segments_changed = 0;
  segments_removed = 1;
  archives_skipped = 1;
  archives_opened = 1;
  percent_done = 66;
}

planned-shown : plan_progress 10 planned.plans ≡ ok shown
unfolding plan_progress total_of note_plans percent
planned-shown = refl

plan_progress_lem_example :
    (shown.segments_unchanged + shown.segments_added + shown.segments_changed
        + shown.segments_removed
      ≡ shown.segments_total)
    × (shown.segments_total ≡ length planned.plans)
    × (shown.reused_records ≡ shown.scanned_records)
    × (shown.scanned_records + unread planned.plans ≡ shown.total_records)
    × (shown.total_records ≤ 10)
    × (shown.archives_skipped ≤ shown.segments_unchanged)
    × (shown.percent_done ≤ 99)
plan_progress_lem_example = plan_progress_lem 10 planned.plans planned-shown

abbrev large_limits : FlightLimits
large_limits = record { max_payloads = 2; max_payload_bytes = 4096; max_records = 10 }

abbrev all_scanned : Flight
all_scanned = flight [] 0 (codes "7" ∷ []) (codes "z") 3 (new_book ∷ [])

planned-all_scanned :
    execute (world 2048) large_limits planned.plans (flight [] 0 [] [] 2 []) ≡ ok all_scanned
unfolding execute execution_plans insert_plan is_before process_plans process_records process_record
    process_if submit open_archive drain_while take_at contains bytes_eq to_lower_ascii
planned-all_scanned = refl

scanned_in_all_example : all_scanned.scanned_records ≡ shown.total_records
scanned_in_all_example =
    scanned_in_all converter disk rescan limits last_scan payloads (world 2048) large_limits
      (flight [] 0 [] [] 2 []) (omega arith) refl refl tt planned-plan_all planned-shown refl
      planned-all_scanned

planned-validate : validate_archive_guards disk planned.plans planned.guards ≡ ok tt
unfolding validate_archive_guards check_plans check_guards find_expected find_guard bytes_eq
planned-validate = refl

validate_archive_guards_lem_example :
    All (IsUnchanged disk) planned.guards
    × (manifests : Bytes → Option Bytes) × All
        (λ p.
          (p.change ≡ removed)
          ⊎ (p.requires_archive ≡ false)
          ⊎ IsAsPlanned disk planned.guards manifests p)
        planned.plans
validate_archive_guards_lem_example =
    validate_archive_guards_lem disk planned.plans planned.guards planned-validate
