-- ===== src/Inpx/Segment.antt =====
-- libs/Inpx/InpxParser.cpp: `ParseSegment` over the lines of a segment, with the callbacks of
-- `ParseAll`, which keep what they are given in order.
pub mod Lines
pub mod Counts
pub mod Payload
pub mod Total
use librova_inpx_web.Common.{
  ℕ, zero, suc, ◌+◌, ◌-◌, ◌*◌, Bool, true, false, not, ◌&&◌, List, [], ◌∷◌, ◌++◌, Option, none,
  some, Outcome, ok, throw, ◌>>=◌, ltb, leb, ◌==◌, if◌then◌else◌, Bytes, length, take, drop,
  starts_with,
}
use librova_inpx_web.Unicode.Walk.{is_valid_utf8}
use librova_inpx_web.Unicode.Legacy.{Converter, DecodeError, decode_legacy, utf16_le, utf16_be}
use librova_inpx_web.Inpx.Text.{is_nil, find_byte, copy_text}
use librova_inpx_web.Inpx.Record.{Record, Message, invalid_series_number, read_record}

-- `SInpxWarning`.
pub record Warning : Type 0 where
  pub message : Message
  pub inp_entry_name : Bytes
  pub line_number : ℕ
  pub record_skipped : Bool

-- `SInpxParseSummary`; `SInpxParseResult` with what the callbacks kept.
pub record Summary : Type 0 where
  pub inp_entry_count : ℕ
  pub total_records : ℕ
  pub parsed_records : ℕ
  pub skipped_records : ℕ
  pub deleted_records : ℕ
  pub warning_count : ℕ

pub record Result : Type 0 where
  pub records : List Record
  pub warnings : List Warning
  pub summary : Summary

-- `SInpxSegmentPayload`, without the fingerprint, which the parser does not read.
pub record Segment : Type 0 where
  pub inp_entry_name : Bytes
  pub archive_name : Bytes
  pub bytes : Bytes

pub data ParseError : Type 0 where
  long_line : ℕ → ParseError
  undecodable : DecodeError → ParseError

-- `GMaxInpRecordLineBytes`.
abbrev pub max_line_bytes : ℕ
max_line_bytes = 1024 * 1024

-- `EmitWarning`.
abbrev pub emit_warning : Bytes → ℕ → Message → Bool → Result → Result
emit_warning entry_name line_number m skipped r = record r {
  warnings =
      r.warnings
      ++ record {
        message = m;
        inp_entry_name = entry_name;
        line_number = line_number;
        record_skipped = skipped;
      }
        ∷ [];
  summary = record (r.summary) { warning_count = suc (r.summary).warning_count };
}

-- The callback that `ParseSegment` passes for a record.
abbrev pub on_record : Record → Result → Result
on_record rec r = record r {
  records = r.records ++ rec ∷ [];
  summary = record (r.summary) {
    parsed_records = suc (r.summary).parsed_records;
    deleted_records =
        if rec.deleted then suc (r.summary).deleted_records else (r.summary).deleted_records;
  };
}

abbrev pub on_skipped : Result → Result
on_skipped r = record r {
  summary = record (r.summary) { skipped_records = suc (r.summary).skipped_records };
}

abbrev pub on_line : Result → Result
on_line r = record r {
  summary = record (r.summary) { total_records = suc (r.summary).total_records };
}

-- What a line does to the result.
pub note_line : Bytes → ℕ → Outcome Message (Record × Bool) → Result → Result
note_line entry_name line_number (throw m) r =
    on_skipped (emit_warning entry_name line_number m true r)
note_line entry_name line_number (ok (rec, true)) r =
    on_record rec (emit_warning entry_name line_number invalid_series_number false r)
note_line entry_name line_number (ok (rec, false)) r = on_record rec r

-- `line.remove_suffix(1)` behind a carriage return.
pub strip_return : Bytes → Bytes
strip_return [] = []
strip_return (b ∷ []) = if b == b'\r' then [] else b ∷ []
strip_return (b ∷ c ∷ bs) = b ∷ strip_return (c ∷ bs)

-- The body of the loop over the lines, behind the search for the end of the line.
pub parse_line : Segment → ℕ → Bytes → Result → Outcome ParseError Result
unfolding note_line strip_return
parse_line segment line_number raw r =
    let line = strip_return raw in
    if is_nil line
    then ok r
    else if ltb max_line_bytes (length line)
    then throw (long_line line_number)
    else ok (
        note_line segment.inp_entry_name line_number
          (read_record segment.archive_name segment.inp_entry_name line) (on_line r))

-- The loop of `ParseSegment`. A round moves `start`, so one round more than there are bytes is
-- enough fuel.
unfoldable pub parse_lines : ℕ → Segment → Bytes → ℕ → ℕ → Result → Outcome ParseError Result
unfolding parse_line
parse_lines zero segment text line_number start r = ok r
parse_lines (suc fuel) segment text line_number start r = elim (leb start (length text)) [
  | false ↦ ok r
  | true ↦ elim (find_byte text b'\n' start) [
    | none ↦ parse_line segment (suc line_number) (drop start text) r
    | some end ↦
        parse_line segment (suc line_number) (take (end - start) (drop start text)) r
        >>= parse_lines fuel segment text (suc line_number) (end + 1)
  ]
]

abbrev pub start_result : Result
start_result = record {
  records = [];
  warnings = [];
  summary = record {
    inp_entry_count = 1;
    total_records = 0;
    parsed_records = 0;
    skipped_records = 0;
    deleted_records = 0;
    warning_count = 0;
  };
}

-- `ParseSegment` behind the decoding.
unfoldable pub parse_text : Segment → Bytes → Outcome ParseError Result
parse_text segment text = parse_lines (suc (length text)) segment text 0 0 start_result

abbrev pub utf8_mark : Bytes
utf8_mark = 0xEF ∷ 0xBB ∷ 0xBF ∷ []

abbrev pub utf16_le_mark : Bytes
utf16_le_mark = 0xFF ∷ 0xFE ∷ []

abbrev pub utf16_be_mark : Bytes
utf16_be_mark = 0xFE ∷ 0xFF ∷ []

abbrev pub or_undecodable : Outcome DecodeError Bytes → Outcome ParseError Bytes
or_undecodable (ok text) = ok text
or_undecodable (throw e) = throw (undecodable e)

module _ (iconv : Converter) where
  -- `DecodeInpPayloadToUtf8`.
  unfoldable pub decode_payload : Bytes → Outcome DecodeError Bytes
  decode_payload bytes =
      if starts_with bytes utf8_mark
      then ok (copy_text (drop 3 bytes))
      else if starts_with bytes utf16_le_mark
      then utf16_le iconv bytes
      else if starts_with bytes utf16_be_mark
      then utf16_be iconv bytes
      else if is_valid_utf8 bytes
      then ok (copy_text bytes)
      else decode_legacy iconv bytes

  -- `ParseSegment`.
  unfoldable pub parse_segment : Segment → Outcome ParseError Result
  unfolding parse_text decode_payload
  parse_segment segment = or_undecodable (decode_payload segment.bytes) >>= parse_text segment

  abbrev pub add_segment : Result → Result → Result
  add_segment all r = record {
    records = all.records ++ r.records;
    warnings = all.warnings ++ r.warnings;
    summary = record {
      inp_entry_count = suc (all.summary).inp_entry_count;
      total_records = (all.summary).total_records + (r.summary).total_records;
      parsed_records = (all.summary).parsed_records + (r.summary).parsed_records;
      skipped_records = (all.summary).skipped_records + (r.summary).skipped_records;
      deleted_records = (all.summary).deleted_records + (r.summary).deleted_records;
      warning_count = (all.summary).warning_count + (r.summary).warning_count;
    };
  }

  -- `Parse` and `ParseAll` over the segments that `ReadSegments` hands them.
  pub parse_from : Result → List Segment → Outcome ParseError Result
  unfolding parse_segment
  parse_from all [] = ok all
  parse_from all (segment ∷ segments) =
      parse_segment segment >>= λ r. parse_from (add_segment all r) segments

  abbrev pub no_segment : Result
  no_segment = record {
    records = [];
    warnings = [];
    summary = record {
      inp_entry_count = 0;
      total_records = 0;
      parsed_records = 0;
      skipped_records = 0;
      deleted_records = 0;
      warning_count = 0;
    };
  }

  unfoldable pub parse_all : List Segment → Outcome ParseError Result
  unfolding parse_from
  parse_all = parse_from no_segment
