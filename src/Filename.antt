-- ===== src/Filename.antt =====
-- libs/Foundation/FilenamePolicy.cpp: the name under which a book is offered for download.
pub mod Safe
pub mod Text
use mathlib.Core.Option
use librova_inpx_web.Common.{
  ℕ, Bool, true, false, ◌&&◌, ◌||◌, List, [], ◌∷◌, map, Option, none, some, ltb, ◌==◌, length, take,
  if◌then◌else◌, Bytes,
}
use librova_inpx_web.Unicode.Trim.{try_trim}

unfoldable pub is_unsafe : ℕ → Bool
is_unsafe b =
    b == b'\\'
    || b == b'/'
    || b == b':'
    || b == b'*'
    || b == b'?'
    || b == b'"'
    || b == b'<'
    || b == b'>'
    || b == b'|'
    || ltb b 0x20

-- The body of the loop over the characters.
pub replace_unsafe : ℕ → ℕ
unfolding is_unsafe
replace_unsafe b = if is_unsafe b then b'_' else b

abbrev pub is_empty : Bytes → Bool
is_empty [] = true
is_empty (b ∷ bs) = false

-- `TrimTrailingFilenameWhitespace`: the spaces at the end go.
pub trim_spaces : Bytes → Bytes
trim_spaces [] = []
trim_spaces (b ∷ bs) =
    let rest = trim_spaces bs in if is_empty rest && b == b' ' then [] else b ∷ rest

abbrev pub value_or {ℓ} : {A : Type ℓ} → Option A → A → A
value_or none d = d
value_or (some a) d = a

-- The block under `maxBaseNameBytes > 0 && valueUtf8.size() > maxBaseNameBytes`.
pub shorten : ℕ → Bytes → Bytes
unfolding trim_spaces
shorten limit value =
    if ltb 0 limit && ltb limit (length value)
    then (let resized = take limit value in trim_spaces (value_or (try_trim resized) resized))
    else value

-- `if (valueUtf8.empty()) return fallbackUtf8`.
abbrev pub or_fallback : Bytes → Bytes → Bytes
or_fallback value fallback = if is_empty value then fallback else value

-- `SanitizeDownloadFilenameBaseUtf8`.
pub sanitize : Bytes → ℕ → Bytes → Bytes
unfolding replace_unsafe trim_spaces shorten
sanitize value limit fallback =
    let trimmed = trim_spaces (map replace_unsafe value) in
    if is_empty trimmed then fallback else or_fallback (shorten limit trimmed) fallback
