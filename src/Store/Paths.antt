-- ===== src/Store/Paths.antt =====
-- libs/Storage/PathSafety.cpp, with `IsSafeRelativePath` of libs/Foundation/FileSystemUtils.cpp:
-- paths that must stay below a root.
pub mod Within
use librova_inpx_web.Common.{
  Bool, true, false, not, ◌&&◌, ◌||◌, List, [], ◌∷◌, Option, none, some, Outcome, ok, throw, ◌>>=◌,
  if◌then◌else◌, Bytes, codes, bytes_eq,
}

-- `std::filesystem`: its paths, with the names that a loop over one gives, and what it says of the
-- disk, where `weakly_canonical` may fail.
pub record FileSystem : Type 1 where
  pub FilePath : Type 0
  pub parts : FilePath → List Bytes
  pub is_empty : FilePath → Bool
  pub is_absolute : FilePath → Bool
  pub has_root_name : FilePath → Bool
  pub has_root_directory : FilePath → Bool
  pub lexically_normal : FilePath → FilePath
  pub join : FilePath → FilePath → FilePath
  pub weakly_canonical : FilePath → Option FilePath
  pub exists : FilePath → Bool

pub data PathError : Type 0 where
  unsafe_path not_canonicalized : PathError

unfoldable pub has_parent : List Bytes → Bool
has_parent [] = false
has_parent (p ∷ ps) = bytes_eq p (codes "..") || has_parent ps

-- The loop of `IsPathWithinRoot`.
unfoldable pub begins_with : List Bytes → List Bytes → Bool
begins_with [] candidate = true
begins_with (r ∷ rs) [] = false
begins_with (r ∷ rs) (c ∷ cs) = bytes_eq r c && begins_with rs cs

module _ (fs : FileSystem) where
  -- `IsSafeRelativePath`.
  unfoldable pub is_safe_relative_path : fs.FilePath → Bool
  unfolding has_parent
  is_safe_relative_path path =
      let normalized = fs.lexically_normal path in
      not (
        fs.is_empty path
        || fs.is_absolute path
        || fs.has_root_name path
        || fs.has_root_directory path)
      && (not (fs.is_empty normalized || fs.is_absolute normalized)
          && not (has_parent (fs.parts normalized)))

  abbrev pub normal_or_throw : Option fs.FilePath → Outcome PathError fs.FilePath
  normal_or_throw none = throw not_canonicalized
  normal_or_throw (some path) = ok (fs.lexically_normal path)

  -- `CanonicalizeExistingPath`.
  abbrev pub canonicalize : fs.FilePath → Outcome PathError fs.FilePath
  canonicalize path = normal_or_throw (fs.weakly_canonical path)

  -- `BuildValidatedCandidatePath`.
  unfoldable pub build_candidate : fs.FilePath → fs.FilePath → Outcome PathError fs.FilePath
  unfolding is_safe_relative_path
  build_candidate root path =
      let normalized = fs.lexically_normal path in
      if fs.is_absolute normalized
      then ok normalized
      else if not (is_safe_relative_path normalized)
      then throw unsafe_path
      else ok (fs.lexically_normal (fs.join root normalized))

  -- `IsPathWithinRoot`.
  unfoldable pub is_path_within_root : fs.FilePath → fs.FilePath → Bool
  unfolding begins_with
  is_path_within_root root candidate =
      begins_with (fs.parts (fs.lexically_normal root)) (fs.parts (fs.lexically_normal candidate))

  -- `TryResolvePathWithinCanonicalRoot`, and `TryResolvePathWithinRoot`.
  unfoldable pub try_resolve_within_canonical :
      fs.FilePath → fs.FilePath → Outcome PathError (Option fs.FilePath)
  unfolding build_candidate is_path_within_root
  try_resolve_within_canonical root path = build_candidate root path >>= λ candidate.
      canonicalize candidate >>= λ canonical.
      if not (is_path_within_root root canonical)
      then throw unsafe_path
      else if not (fs.exists candidate)
      then ok none
      else ok (some canonical)

  unfoldable pub try_resolve_within :
      fs.FilePath → fs.FilePath → Outcome PathError (Option fs.FilePath)
  unfolding try_resolve_within_canonical
  try_resolve_within root path =
      canonicalize root >>= λ canonical. try_resolve_within_canonical canonical path
