-- ===== src/Inpx/Text.antt =====
-- libs/Inpx/InpxParser.cpp and libs/Foundation/StringUtils.cpp: the text routines. The checkpoint
-- callback is empty here, so a routine keeps its chunks and makes no call between them.
pub mod Find
pub mod Splitting
pub mod Trimmed
use mathlib.Core.Option
use librova_inpx_web.Common.{
  ℕ, zero, suc, ◌+◌, ◌-◌, ◌*◌, ◌^◌, min, Bool, true, false, not, ◌&&◌, ◌||◌, List, [], ◌∷◌, ◌++◌,
  Option, none, some, ltb, leb, ◌==◌, if◌then◌else◌, Bytes, length, take, drop,
}

-- `GCancellationCheckpointIntervalBytes`.
abbrev pub interval : ℕ
interval = 65536

-- `std::string_view::find` of one byte.
unfoldable pub find_in : ℕ → Bytes → Option ℕ
find_in b [] = none
find_in b (x ∷ xs) = if x == b then some 0 else Option.map suc (find_in b xs)

abbrev pub chunk_size : Bytes → ℕ → ℕ
chunk_size value offset = min interval (length value - offset)

-- The loop of `FindByteWithCheckpoints`; each round moves the offset, so the length is enough fuel.
pub find_chunks : ℕ → Bytes → ℕ → ℕ → Option ℕ
find_chunks zero value b offset = none
find_chunks (suc fuel) value b offset = elim (ltb offset (length value)) [
  | false ↦ none
  | true ↦ elim (find_in b (take (chunk_size value offset) (drop offset value))) [
    | some relative ↦ some (offset + relative)
    | none ↦ find_chunks fuel value b (offset + chunk_size value offset)
  ]
]

-- `FindByteWithCheckpoints`.
unfoldable pub find_byte : Bytes → ℕ → ℕ → Option ℕ
find_byte value b start =
    if leb (length value) start
    then none
    else if leb (length value - start) interval
    then Option.map (λ r. start + r) (find_in b (drop start value))
    else find_chunks (length value) value b start

pub copy_chunks : ℕ → Bytes → ℕ → Bytes → Bytes
copy_chunks zero value offset result = result
copy_chunks (suc fuel) value offset result = elim (ltb offset (length value)) [
  | false ↦ result
  | true ↦
      copy_chunks fuel value (offset + chunk_size value offset)
        (result ++ take (chunk_size value offset) (drop offset value))
]

-- `AppendTextWithCheckpoints`: the new destination.
unfoldable pub append_text : Bytes → Bytes → Bytes
append_text destination value =
    if leb (length value) interval
    then destination ++ value
    else copy_chunks (length value) value 0 destination

-- `CopyTextWithCheckpoints`.
unfoldable pub copy_text : Bytes → Bytes
copy_text value =
    if leb (length value) interval then value else copy_chunks (length value) value 0 []

-- The two loops of `TrimAsciiWhitespace`.
unfoldable pub trim_start : Bytes → Bytes
trim_start [] = []
trim_start (b ∷ bs) = let rest = trim_start bs in if leb b 0x20 then rest else b ∷ bs

abbrev pub is_nil {ℓ} : {A : Type ℓ} → List A → Bool
is_nil [] = true
is_nil (x ∷ xs) = false

unfoldable pub trim_end : Bytes → Bytes
trim_end [] = []
trim_end (b ∷ bs) = let rest = trim_end bs in if is_nil rest && leb b 0x20 then [] else b ∷ rest

-- `TrimAsciiWhitespace`.
unfoldable pub trim_ascii : Bytes → Bytes
trim_ascii value =
    let trimmed = trim_end (trim_start value) in
    if leb (length value) interval then trimmed else copy_text trimmed

-- `SSplitViewsResult` and `SSplitUtf8Result`.
pub record Split : Type 0 where
  pub parts : List Bytes
  pub exceeded : Bool

abbrev pub push_part : Bytes → Split → Split
push_part p s = record s { parts = p ∷ s.parts }

-- The loop of `SplitViews`, with room for so many more parts.
unfoldable pub split_from : ℕ → Bytes → ℕ → ℕ → Split
split_from zero value separator start =
    if leb start (length value)
    then record { parts = []; exceeded = true }
    else record { parts = []; exceeded = false }
split_from (suc room) value separator start = elim (leb start (length value)) [
  | false ↦ record { parts = []; exceeded = false }
  | true ↦ elim (find_byte value separator start) [
    | none ↦ record { parts = drop start value ∷ []; exceeded = false }
    | some end ↦
        push_part (take (end - start) (drop start value))
          (split_from room value separator (end + 1))
  ]
]

-- `SplitViews`.
unfoldable pub split_views : Bytes → ℕ → ℕ → Split
split_views value separator max_parts = split_from max_parts value separator 0

-- The loop of `SplitNonEmptyUtf8`.
unfoldable pub trim_parts : List Bytes → List Bytes
trim_parts [] = []
trim_parts (p ∷ ps) =
    let trimmed = trim_ascii p in
    let rest = trim_parts ps in if is_nil trimmed then rest else trimmed ∷ rest

-- `SplitNonEmptyUtf8`.
unfoldable pub split_non_empty : Bytes → ℕ → ℕ → Split
split_non_empty value separator max_parts =
    let split = split_views value separator max_parts in
    if split.exceeded
    then record { parts = []; exceeded = true }
    else record { parts = trim_parts split.parts; exceeded = false }

-- `ToLowerAsciiCharacter`.
abbrev pub to_lower_character : ℕ → ℕ
to_lower_character c = if leb b'A' c && leb c b'Z' then c + 32 else c

-- `ToLowerAscii`.
unfoldable pub to_lower_ascii : Bytes → Bytes
to_lower_ascii [] = []
to_lower_ascii (b ∷ bs) = to_lower_character b ∷ to_lower_ascii bs

-- The loop of `EndsWithAsciiInsensitive`.
unfoldable pub same_letters : Bytes → Bytes → Bool
same_letters (x ∷ xs) (y ∷ ys) = to_lower_character x == to_lower_character y && same_letters xs ys
same_letters _ _ = true

-- `EndsWithAsciiInsensitive`.
unfoldable pub ends_with_insensitive : Bytes → Bytes → Bool
ends_with_insensitive value suffix =
    if ltb (length value) (length suffix)
    then false
    else same_letters (drop (length value - length suffix) value) suffix
