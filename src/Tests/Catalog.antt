-- ===== src/Tests/Catalog.antt =====
-- libs/Inpx/InpxParser.cpp at concrete inputs.
use librova_inpx_web.Common.{
  ◌≡◌, refl, ◌↔◌, ◌⊎◌, true, List, [], ◌∷◌, ◌++◌, none, some, some_inj, subst, ok, length, drop,
  Bytes, codes, All, starts_with, all_lower, all_lower_sound,
}
use librova_inpx_web.Unicode.Ascii.{is_valid_utf8_ascii}
use librova_inpx_web.Unicode.Walk.{walk, is_valid_utf8}
use librova_inpx_web.Unicode.Legacy.{Converter, utf16}
use librova_inpx_web.Unicode.Legacy.Valid.{ConvertsToUtf8}
use librova_inpx_web.Inpx.Number.{try_parse_unsigned, try_parse_int}
use librova_inpx_web.Inpx.Text.{
  trim_ascii, trim_end, trim_start, split_non_empty, trim_parts, to_lower_ascii,
  ends_with_insensitive, same_letters, find_in, find_byte, copy_text, append_text, split_views,
  split_from,
}
use librova_inpx_web.Inpx.Text.Splitting.{fields, capped, split_views_lem}
use librova_inpx_web.Inpx.Record.{Record, Message, read_record}
use librova_inpx_web.Inpx.Record.Shape.{IsRecord, read_record-IsRecord}
use librova_inpx_web.Inpx.Segment.{
  Result, Segment, parse_text, parse_lines, start_result, utf8_mark, decode_payload, parse_all,
}
use librova_inpx_web.Inpx.Segment.Lines.{each_line, parse_text_lem}
use librova_inpx_web.Inpx.Segment.Counts.{IsCounted, parse_text-IsCounted}
use librova_inpx_web.Inpx.Segment.Payload.{decode_payload-is_valid_utf8}
use librova_inpx_web.Inpx.Segment.Total.{IsShort, IsSummed, parse_text_iff, parse_all-IsSummed}
use librova_inpx_web.Inpx.Archive.{Entry, read_segments}
use librova_inpx_web.Inpx.Archive.Limit.{IsWithin, read_segments-IsWithin}

split_views_lem_example : split_views (codes "a:b:c") 58 2 ≡ capped 2 (fields 58 (codes "a:b:c"))
split_views_lem_example = split_views_lem (codes "a:b:c") 58 2

-- Authors, genres, title, series, number, file, size, id, deleted, extension, date, language, two
-- fields that are not kept around the keywords.
abbrev columns : List Bytes
columns =
    codes "Lem,Stanislaw:"
    ∷ codes "sf:"
    ∷ codes "Solaris"
    ∷ []
    ∷ codes "x"
    ∷ codes "101"
    ∷ codes "2048"
    ∷ codes "7"
    ∷ codes "1"
    ∷ codes "FB2"
    ∷ []
    ∷ codes "ru"
    ∷ []
    ∷ []
    ∷ []
    ∷ []

abbrev joined : List Bytes → Bytes
joined [] = []
joined (p ∷ []) = p
joined (p ∷ q ∷ ps) = p ++ 4 ∷ joined (q ∷ ps)

abbrev line : Bytes
line = joined columns

line-fields : (split_views line 4 15).parts ≡ columns
unfolding split_views split_from find_byte find_in
line-fields = refl

abbrev segment : Segment
segment = record { inp_entry_name = codes "fb2-1.inp"; archive_name = codes "fb2-1"; bytes = [] }

abbrev solaris : Record
solaris = record {
  authors =
      record {
        display_name = codes "Stanislaw Lem";
        last_name = codes "Lem";
        first_name = codes "Stanislaw";
        middle_name = [];
      }
      ∷ [];
  genres = codes "sf" ∷ [];
  keywords = [];
  title = codes "Solaris";
  series = none;
  series_number = none;
  file_name = codes "101";
  file_size_bytes = 2048;
  lib_id = codes "7";
  deleted = true;
  file_extension = codes "fb2";
  date_added = none;
  language = codes "ru";
  inp_entry_name = codes "fb2-1.inp";
  archive_name = codes "fb2-1";
  entry_name = codes "101.fb2";
}

line-record : read_record (codes "fb2-1") (codes "fb2-1.inp") line ≡ ok (solaris, true)
unfolding read_record split_views split_from find_byte find_in trim_ascii trim_end trim_start
    try_parse_unsigned try_parse_int split_non_empty append_text trim_parts to_lower_ascii copy_text
line-record = refl

read_record-IsRecord_example : IsRecord (codes "fb2-1") (codes "fb2-1.inp") solaris
read_record-IsRecord_example =
    read_record-IsRecord (codes "fb2-1") (codes "fb2-1.inp") line solaris true line-record

-- A line of white space is no record, and an empty line is none either.
abbrev text : Bytes
text = codes " \n\r\n"

abbrev text_result : Result
text_result = record {
  records = [];
  warnings =
      record {
        message = Message.expected_fields;
        inp_entry_name = codes "fb2-1.inp";
        line_number = 1;
        record_skipped = true;
      }
      ∷ [];
  summary = record {
    inp_entry_count = 1;
    total_records = 1;
    parsed_records = 0;
    skipped_records = 1;
    deleted_records = 0;
    warning_count = 1;
  };
}

text-result : parse_text segment text ≡ ok text_result
unfolding parse_text read_record split_views split_from find_byte find_in parse_lines
text-result = refl

parse_text-IsCounted_example : IsCounted segment text_result
parse_text-IsCounted_example = parse_text-IsCounted segment text text_result text-result

parse_text_lem_example : parse_text segment text ≡ each_line segment 0 (fields 10 text) start_result
parse_text_lem_example = parse_text_lem segment text

parse_text_iff_example :
    ((r : Result) × (parse_text segment text ≡ ok r)) ↔ All IsShort (fields 10 text)
parse_text_iff_example = parse_text_iff segment text

-- A converter that gives one text in UTF-8 whatever it is asked.
abbrev converter : Converter
converter = record { convert = λ e value. some (codes "a") }

converter-ConvertsToUtf8 : ConvertsToUtf8 converter
unfolding all_lower
converter-ConvertsToUtf8 e value t0 h =
    subst (λ t. is_valid_utf8 t ≡ true) (some_inj h)
      (is_valid_utf8_ascii (codes "a") (all_lower_sound 0x80 (codes "a") refl))

decode_payload-is_valid_utf8_example :
    (is_valid_utf8 (codes "a") ≡ true)
    ⊎ ((starts_with (0xFF ∷ 0xFE ∷ 0x61 ∷ 0 ∷ []) utf8_mark ≡ true)
        × (codes "a" ≡ drop 3 (0xFF ∷ 0xFE ∷ 0x61 ∷ 0 ∷ [])))
unfolding decode_payload all_lower starts_with utf16
decode_payload-is_valid_utf8_example =
    decode_payload-is_valid_utf8 converter (0xFF ∷ 0xFE ∷ 0x61 ∷ 0 ∷ []) (codes "a")
      converter-ConvertsToUtf8 (all_lower_sound 256 (0xFF ∷ 0xFE ∷ 0x61 ∷ 0 ∷ []) refl) refl

abbrev catalog : List Segment
catalog = record { inp_entry_name = codes "a.inp"; archive_name = codes "a"; bytes = [] } ∷ []

abbrev catalog_result : Result
catalog_result = record {
  records = [];
  warnings = [];
  summary = record {
    inp_entry_count = 1;
    total_records = 0;
    parsed_records = 0;
    skipped_records = 0;
    deleted_records = 0;
    warning_count = 0;
  };
}

catalog-result : parse_all converter catalog ≡ ok catalog_result
unfolding parse_all starts_with is_valid_utf8 walk parse_lines copy_text find_byte
catalog-result = refl

parse_all-IsSummed_example :
    IsSummed catalog_result × ((catalog_result.summary).inp_entry_count ≡ length catalog)
parse_all-IsSummed_example = parse_all-IsSummed converter catalog catalog_result catalog-result

abbrev entries : List Entry
entries =
    record { name = some (codes "version.info"); size = some 3; content = none }
    ∷ record { name = some (codes "a.INP"); size = some 2; content = some (codes "ab") }
    ∷ []

abbrev segments : List Segment
segments =
    record { inp_entry_name = codes "a.INP"; archive_name = codes "a"; bytes = codes "ab" } ∷ []

entries-segments : read_segments 10 entries ≡ ok segments
unfolding read_segments ends_with_insensitive same_letters
entries-segments = refl

read_segments-IsWithin_example : IsWithin 10 0 entries segments
read_segments-IsWithin_example = read_segments-IsWithin 10 entries segments entries-segments
