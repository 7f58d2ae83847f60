-- ===== src/Inpx/Record.antt =====
-- libs/Inpx/InpxParser.cpp and libs/Inpx/InpxRecord.hpp: one line of a segment, read as a record.
pub mod Shape
use librova_inpx_web.Common.{
  ℕ, zero, suc, ◌+◌, Bool, true, false, not, ◌&&◌, ◌||◌, List, [], ◌∷◌, ◌++◌, Option, none, some,
  Outcome, ok, throw, ◌>>=◌, ltb, ◌==◌, if◌then◌else◌, Bytes, codes, length, get_or,
}
use librova_inpx_web.Inpx.Text.{
  is_nil, append_text, copy_text, trim_ascii, Split, split_views, split_non_empty, to_lower_ascii,
}
use librova_inpx_web.Common.Int.{ℤ, pos, negsuc}
use librova_inpx_web.Inpx.Number.{try_parse_unsigned, try_parse_int}

-- `GFieldSeparator`, `GExpectedFieldCount` and the other limits.
abbrev pub field_separator : ℕ
field_separator = 4

abbrev pub expected_field_count : ℕ
expected_field_count = 15

abbrev pub max_authors : ℕ
max_authors = 256

abbrev pub max_author_name_parts : ℕ
max_author_name_parts = 3

abbrev pub max_genres : ℕ
max_genres = 512

abbrev pub max_keywords : ℕ
max_keywords = 512

abbrev pub max_file_extension_bytes : ℕ
max_file_extension_bytes = 32

-- `SInpxAuthor`.
pub record Author : Type 0 where
  pub display_name : Bytes
  pub last_name : Bytes
  pub first_name : Bytes
  pub middle_name : Bytes

-- `SInpxRecord`.
pub record Record : Type 0 where
  pub authors : List Author
  pub genres : List Bytes
  pub keywords : List Bytes
  pub title : Bytes
  pub series : Option Bytes
  pub series_number : Option ℤ
  pub file_name : Bytes
  pub file_size_bytes : ℕ
  pub lib_id : Bytes
  pub deleted : Bool
  pub file_extension : Bytes
  pub date_added : Option Bytes
  pub language : Bytes
  pub inp_entry_name : Bytes
  pub archive_name : Bytes
  pub entry_name : Bytes

-- The texts that `EmitWarning` is given.
pub data Message : Type 0 where
  expected_fields empty_name_or_id invalid_file_size invalid_deleted long_file_extension : Message
  many_authors many_name_parts many_genres many_keywords invalid_series_number : Message

-- A part of the display name, behind a space where something stands before it.
abbrev pub add_name : Bytes → Bytes → Bytes
add_name name part =
    if is_nil part then name else append_text (if is_nil name then name else name ++ b' ' ∷ []) part

-- The first part goes in without the test for a space; nothing stands before it.
abbrev pub display : Bytes → Bytes → Bytes → Bytes
display last first middle =
    add_name (add_name (if is_nil first then [] else append_text [] first) middle) last

abbrev pub part_or_empty : List Bytes → ℕ → Bytes
part_or_empty parts i = if ltb i (length parts) then trim_ascii (get_or parts i []) else []

abbrev pub or_raw : Bytes → Bytes → Bytes
or_raw name raw = if is_nil name then trim_ascii raw else name

abbrev pub author_of : Bytes → List Bytes → Author
author_of raw parts =
    let last = part_or_empty parts 0 in
    let first = part_or_empty parts 1 in
    let middle = part_or_empty parts 2 in
    record {
      display_name = or_raw (display last first middle) raw;
      last_name = last;
      first_name = first;
      middle_name = middle;
    }

-- `ParseAuthor`.
pub parse_author : Bytes → Option Author
parse_author raw =
    let split = split_views raw b',' max_author_name_parts in
    if split.exceeded then none else some (author_of raw split.parts)

abbrev pub add_author :
    Option Author → Outcome Message (List Author) → Outcome Message (List Author)
add_author none rest = throw many_name_parts
add_author (some a) rest = rest >>= λ authors. ok (a ∷ authors)

-- The loop over the authors in `ParseRecordLine`.
pub parse_authors : List Bytes → Outcome Message (List Author)
unfolding parse_author
parse_authors [] = ok []
parse_authors (raw ∷ raws) =
    let trimmed = trim_ascii raw in
    let rest = parse_authors raws in
    if is_nil trimmed then rest else add_author (parse_author trimmed) rest

-- The checks of `ParseRecordLine` in their order; each throws the text of its warning.
pub check_fields : Bytes → Outcome Message (List Bytes)
check_fields line =
    let split = split_views line field_separator expected_field_count in
    if split.exceeded || not (length split.parts == expected_field_count)
    then throw expected_fields
    else ok split.parts

pub check_names : Bytes → Bytes → Outcome Message (Bytes × Bytes)
check_names file_name lib_id =
    if is_nil file_name || is_nil lib_id then throw empty_name_or_id else ok (file_name, lib_id)

abbrev pub or_warn {ℓ} : {A : Type ℓ} → Message → Option A → Outcome Message A
or_warn m none = throw m
or_warn m (some a) = ok a

abbrev pub deleted_value : Bytes → Option ℤ
deleted_value raw = if is_nil raw then some (pos 0) else try_parse_int raw

pub check_extension : Bytes → Outcome Message Bytes
check_extension extension =
    if ltb max_file_extension_bytes (length extension)
    then throw long_file_extension
    else ok extension

pub check_split : Message → Split → Outcome Message (List Bytes)
check_split m split = if split.exceeded then throw m else ok split.parts

abbrev pub is_not_zero : ℤ → Bool
is_not_zero (pos zero) = false
is_not_zero (pos (suc n)) = true
is_not_zero (negsuc n) = true

-- `ToLowerAscii`, and `fb2` where there is no extension.
pub extension_or_fb2 : Bytes → Bytes
extension_or_fb2 extension =
    let lower = to_lower_ascii extension in if is_nil lower then codes "fb2" else lower

pub title_or_name : Bytes → Bytes → Bytes
title_or_name title file_name = if is_nil title then copy_text file_name else title

abbrev pub unless_empty : Bytes → Option Bytes
unless_empty text = if is_nil text then none else some text

-- The series number, and whether it is a text that is no number: that is a warning of its own.
abbrev pub series_number_of : Bytes → Option ℤ
series_number_of raw = if is_nil raw then none else try_parse_int raw

abbrev pub is_bad_number : Bytes → Bool
is_bad_number raw = elim (try_parse_int raw) [ none ↦ not (is_nil raw) | some n ↦ false ]

-- `fields[i]`.
abbrev pub field : List Bytes → ℕ → Bytes
field fields i = get_or fields i []

-- The fields that are checked first, and the lists that are checked behind them.
pub record Scalars : Type 0 where
  pub names : Bytes × Bytes
  pub size : ℕ
  pub flag : ℤ
  pub extension : Bytes

pub record Lists : Type 0 where
  pub people : List Author
  pub genre_list : List Bytes
  pub keyword_list : List Bytes

pub check_scalars : List Bytes → Outcome Message Scalars
unfolding check_names check_extension
check_scalars fields = do
  names ← check_names (trim_ascii (field fields 5)) (trim_ascii (field fields 7))
  size ← or_warn invalid_file_size (try_parse_unsigned (trim_ascii (field fields 6)))
  flag ← or_warn invalid_deleted (deleted_value (trim_ascii (field fields 8)))
  extension ← check_extension (trim_ascii (field fields 9))
  ok (record { names = names; size = size; flag = flag; extension = extension })

pub check_lists : List Bytes → Outcome Message Lists
unfolding check_split parse_authors
check_lists fields = do
  raws ← check_split many_authors (split_views (field fields 0) b':' max_authors)
  people ← parse_authors raws
  genres ← check_split many_genres (split_non_empty (field fields 1) b':' max_genres)
  keywords ← check_split many_keywords (split_non_empty (field fields 13) b':' max_keywords)
  ok (record { people = people; genre_list = genres; keyword_list = keywords })

-- The record that `ParseRecordLine` fills in behind its checks.
pub build_record : Bytes → Bytes → List Bytes → Scalars → Lists → Record
unfolding extension_or_fb2 title_or_name
build_record archive_name entry_name fields s l =
    let extension = extension_or_fb2 s.extension in
    record {
      authors = l.people;
      genres = l.genre_list;
      keywords = l.keyword_list;
      title = title_or_name (trim_ascii (field fields 2)) s.names.0;
      series = unless_empty (trim_ascii (field fields 3));
      series_number = series_number_of (trim_ascii (field fields 4));
      file_name = s.names.0;
      file_size_bytes = s.size;
      lib_id = s.names.1;
      deleted = is_not_zero s.flag;
      file_extension = extension;
      date_added = unless_empty (trim_ascii (field fields 10));
      language = trim_ascii (field fields 11);
      inp_entry_name = copy_text entry_name;
      archive_name = copy_text archive_name;
      entry_name = append_text [] s.names.0 ++ b'.' ∷ extension;
    }

-- `ParseRecordLine` up to its call of `onRecord`: the record, and whether its series number was
-- ignored with a warning; or the warning with which the line is skipped.
unfoldable pub read_record : Bytes → Bytes → Bytes → Outcome Message (Record × Bool)
unfolding check_fields check_scalars check_lists build_record
read_record archive_name entry_name line = do
  fields ← check_fields line
  scalars ← check_scalars fields
  lists ← check_lists fields
  ok (
    build_record archive_name entry_name fields scalars lists,
    is_bad_number (trim_ascii (field fields 4)),
  )
