-- ===== src/Inpx/Archive.antt =====
-- libs/Inpx/InpxParser.cpp: which entries of an INPX archive are segments. libzip is a library, so
-- an archive is what it says of its entries, in their order.
pub mod Names
pub mod Limit
pub mod Samples
use mathlib.Core.Option
use librova_inpx_web.Common.{
  ℕ, zero, suc, ◌+◌, ◌-◌, ◌*◌, Bool, true, false, not, ◌&&◌, ◌||◌, List, [], ◌∷◌, ◌++◌, Option,
  none, some, Outcome, ok, throw, ◌>>=◌, ltb, leb, ◌==◌, if◌then◌else◌, Bytes, codes, length, take,
  drop, bytes_eq,
}
use librova_inpx_web.Inpx.Text.{ends_with_insensitive}
use librova_inpx_web.Inpx.Segment.{Segment}

-- `zip_stat_index` with its name and its size, and what reading the entry gives.
pub record Entry : Type 0 where
  pub name : Option Bytes
  pub size : Option ℕ
  pub content : Option Bytes

pub data ArchiveError : Type 0 where
  no_name no_size too_large over_limit unreadable : ArchiveError

abbrev pub inp_suffix : Bytes
inp_suffix = codes ".inp"

abbrev pub is_separator : ℕ → Bool
is_separator b = b == b'/' || b == b'\\'

-- `find_last_of("/\\")`.
pub find_last_separator : Bytes → Option ℕ
find_last_separator [] = none
find_last_separator (b ∷ bs) = elim (find_last_separator bs) [
  | some i ↦ some (suc i)
  | none ↦ if is_separator b then some 0 else none
]

pub base_name : Bytes → Bytes
unfolding find_last_separator
base_name name = elim (find_last_separator name) [
  | none ↦ name
  | some separator ↦ drop (separator + 1) name
]

-- `BuildArchiveName`.
pub build_archive_name : Bytes → Bytes
unfolding base_name
build_archive_name entry_name =
    let file_name = base_name entry_name in
    if ends_with_insensitive file_name inp_suffix
    then take (length file_name - 4) file_name
    else file_name

-- `GMaxInpEntryPayloadBytes`, and `IsInpEntryPayloadSizeAllowed`.
abbrev pub max_payload_bytes : ℕ
max_payload_bytes = 128 * 1024 * 1024

abbrev pub or_fail {ℓ} : {A : Type ℓ} → ArchiveError → Option A → Outcome ArchiveError A
or_fail e none = throw e
or_fail e (some a) = ok a

-- `EntrySize`.
pub entry_size : Entry → Outcome ArchiveError ℕ
entry_size entry = or_fail no_size entry.size >>= λ size.
    if leb size max_payload_bytes then ok size else throw too_large

pub check_total : ℕ → ℕ → ℕ → Outcome ArchiveError ℕ
check_total limit total size =
    if ltb (limit - total) size then throw over_limit else ok (total + size)

-- `ReadTextEntry`: reading fails unless it gives just `size` bytes.
pub read_entry : Entry → ℕ → Outcome ArchiveError Bytes
read_entry entry size = or_fail unreadable entry.content >>= λ bytes.
    if length bytes == size then ok bytes else throw unreadable

-- The loop of `ReadSegments`; the segments go to `onSegment` in this order.
pub read_from : ℕ → ℕ → List Entry → Outcome ArchiveError (List Segment)
unfolding build_archive_name entry_size check_total read_entry
read_from limit total [] = ok []
read_from limit total (entry ∷ entries) = or_fail no_name entry.name >>= λ name.
    elim (ends_with_insensitive name inp_suffix) [
      | false ↦ read_from limit total entries
      | true ↦ entry_size entry >>= λ size. check_total limit total size >>= λ total'.
          read_entry entry size >>= λ bytes. read_from limit total' entries >>= λ rest. ok (
            record { inp_entry_name = name; archive_name = build_archive_name name; bytes = bytes }
            ∷ rest)
    ]

-- `ReadSegments`, with `maxTotalInputBytes`.
unfoldable pub read_segments : ℕ → List Entry → Outcome ArchiveError (List Segment)
unfolding read_from
read_segments limit entries = read_from limit 0 entries

-- Whether a name was observed already.
pub contains : List Bytes → Bytes → Bool
contains [] name = false
contains (x ∷ xs) name = bytes_eq x name || contains xs name

-- The loop of `ReadArchiveNameSamples`; what it has observed is what it has kept.
pub sample_from : ℕ → List Bytes → List Entry → Outcome ArchiveError (List Bytes)
unfolding build_archive_name contains
sample_from max_samples seen [] = ok seen
sample_from max_samples seen (entry ∷ entries) = elim (ltb (length seen) max_samples) [
  | false ↦ ok seen
  | true ↦ or_fail no_name entry.name >>= λ name.
      elim (ends_with_insensitive name inp_suffix
        && not (contains seen (build_archive_name name))) [
          | false ↦ sample_from max_samples seen entries
          | true ↦ sample_from max_samples (seen ++ build_archive_name name ∷ []) entries
        ]
]

-- `ReadArchiveNameSamples`.
unfoldable pub read_samples : ℕ → List Entry → Outcome ArchiveError (List Bytes)
unfolding sample_from
read_samples max_samples = sample_from max_samples []
