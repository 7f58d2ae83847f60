-- ===== src/Tests/Paths.antt =====
-- libs/Storage/PathSafety.cpp at concrete inputs.
use librova_inpx_web.Common.{
  ◌≡◌, refl, Bool, true, false, List, [], ◌∷◌, ◌++◌, Option, some, ok, Bytes, codes, bytes_eq,
}
use librova_inpx_web.Store.Paths.{
  FileSystem, has_parent, begins_with, is_safe_relative_path, build_candidate, is_path_within_root,
  try_resolve_within_canonical, try_resolve_within,
}
use librova_inpx_web.Store.Paths.Within.{try_resolve_within_lem}

abbrev is_nil : List Bytes → Bool
is_nil [] = true
is_nil (p ∷ ps) = false

-- Paths without dots and links: whether they are absolute, and their names.
abbrev disk : FileSystem
disk = record {
  FilePath = Bool × List Bytes;
  parts = λ p. p.1;
  is_empty = λ p. is_nil p.1;
  is_absolute = λ p. p.0;
  has_root_name = λ p. false;
  has_root_directory = λ p. p.0;
  lexically_normal = λ p. p;
  join = λ p q. (p.0, p.1 ++ q.1);
  weakly_canonical = λ p. some p;
  exists = λ p. true;
}

abbrev root : Bool × List Bytes
root = (true, codes "/" ∷ codes "covers" ∷ [])

abbrev cover : Bool × List Bytes
cover = (true, codes "/" ∷ codes "covers" ∷ codes "a" ∷ [])

root-cover : try_resolve_within disk root (false, codes "a" ∷ []) ≡ ok (some cover)
unfolding try_resolve_within try_resolve_within_canonical build_candidate is_safe_relative_path
    is_path_within_root begins_with has_parent bytes_eq
root-cover = refl

try_resolve_within_lem_example :
    (real_root candidate real : Bool × List Bytes) × (◌≡◌ {A = Option (Bool × List Bytes)}
      (some root)
      (some real_root))
    × (true ≡ true)
    × (◌≡◌ {A = Option (Bool × List Bytes)} (some candidate) (some real))
    × (cover ≡ real)
    × (rest : List Bytes) × (cover.1 ≡ real_root.1 ++ rest)
try_resolve_within_lem_example = try_resolve_within_lem disk root (false, codes "a" ∷ []) root-cover
