-- ===== src/Tests/Names.antt =====
-- libs/Foundation/FilenamePolicy.cpp and libs/Domain/MetadataNormalization.cpp at concrete inputs.
use librova_inpx_web.Common.{
  ℕ, ◌≡◌, refl, ◌↔◌, ◌⊎◌, true, [], ◌∷◌, arith, Bytes, codes, all_lower, all_lower_sound,
}
use librova_inpx_web.Unicode.Walk.{is_valid_utf8}
use librova_inpx_web.Unicode.Ascii.{is_valid_utf8_ascii}
use librova_inpx_web.Filename.{sanitize, is_unsafe}
use librova_inpx_web.Filename.Safe.{IsSafeName, sanitize-IsSafeName}
use librova_inpx_web.Filename.Text.{sanitize-is_valid_utf8}
use librova_inpx_web.Metadata.Key.{normalize_text}
use librova_inpx_web.Metadata.Key.Separate.{SameKey, normalize_text_iff}
use librova_inpx_web.Metadata.Isbn.{is_valid_isbn10}
use librova_inpx_web.Metadata.Isbn.Detect.{is_valid_isbn10-detects}

ascii_text : (s : Bytes) → all_lower 0x80 s ≡ true → is_valid_utf8 s ≡ true
ascii_text s h = is_valid_utf8_ascii s (all_lower_sound 0x80 s h)

sanitize-is_valid_utf8_example : is_valid_utf8 (sanitize (codes "a/b") 2 (codes "book")) ≡ true
unfolding all_lower
sanitize-is_valid_utf8_example =
    sanitize-is_valid_utf8 (codes "a/b") 2 (codes "book") (ascii_text (codes "a/b") refl)
      (ascii_text (codes "book") refl)

sanitize-IsSafeName_example :
    (sanitize (codes "a/b ") 2 (codes "book") ≡ codes "book")
    ⊎ IsSafeName 2 (sanitize (codes "a/b ") 2 (codes "book"))
sanitize-IsSafeName_example = sanitize-IsSafeName (codes "a/b ") 2 (codes "book")

short-IsSafeName : IsSafeName 4 (codes "a b")
unfolding is_unsafe
short-IsSafeName = record {
  not_empty = omega arith;
  safe = (refl, (refl, (refl, tt)));
  ends_well = refl;
  fits = λ h. omega arith;
}

normalize_text_iff_example :
    (normalize_text (codes "Ab") ≡ normalize_text (0xFF ∷ [])) ↔ SameKey (codes "Ab") (0xFF ∷ [])
unfolding all_lower
normalize_text_iff_example =
    normalize_text_iff (codes "Ab") (0xFF ∷ []) (all_lower_sound 256 (codes "Ab") refl)
      (all_lower_sound 256 (0xFF ∷ []) refl)

is_valid_isbn10-detects_example : ◌≡◌ {A = ℕ} 0x37 0x37
unfolding is_valid_isbn10
is_valid_isbn10-detects_example =
    is_valid_isbn10-detects (codes "08044295") (codes "X") 0x37 0x37 refl refl
