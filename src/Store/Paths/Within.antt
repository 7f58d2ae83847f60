-- ===== src/Store/Paths/Within.antt =====
-- libs/Storage/PathSafety.cpp: a path that is resolved lies below its root.
use librova_inpx_web.Common.{
  ◌≡◌, refl, ap, sym, ◌∙◌, Bool, true, false, not, List, [], ◌∷◌, ◌++◌, Option, none, some,
  some_inj, ok, ok_inj, throw, >>=-eq-ok, if◌then◌else◌, Bytes, bytes_eq, bytes_eq_iff, arith,
}
use librova_inpx_web.Store.Paths.{
  FileSystem, unsafe_path, begins_with, normal_or_throw, canonicalize, build_candidate,
  is_path_within_root, try_resolve_within_canonical, try_resolve_within,
}

begins_with_sound :
    (root candidate : List Bytes)
    → begins_with root candidate ≡ true
    → (rest : List Bytes) × (candidate ≡ root ++ rest)
unfolding begins_with
begins_with_sound [] candidate h = (candidate, refl)
begins_with_sound (r ∷ rs) [] h = absurd (cc)
begins_with_sound (r ∷ rs) (c ∷ cs) h =
    let (rest, e) = begins_with_sound rs cs (ground arith) in
    let same : bytes_eq r c ≡ true = ground arith in
    (rest, rw (sym ((bytes_eq_iff r c).0 same)) (ap (λ x. r ∷ x) e))

module _ (fs : FileSystem) where
  canonicalize_sound :
      (path : fs.FilePath) (found : Option fs.FilePath) {c : fs.FilePath}
      → fs.weakly_canonical path ≡ found
      → normal_or_throw fs found ≡ ok c
      → (real : fs.FilePath) × (fs.weakly_canonical path ≡ some real)
        × (c ≡ fs.lexically_normal real)
  canonicalize_sound path none e h = absurd (cc)
  canonicalize_sound path (some real) e h = (real, e, sym (ok_inj h))

  checked_lem :
      (within there : Bool) (canonical : fs.FilePath) {resolved : fs.FilePath}
      → (if not within
          then throw unsafe_path
          else if not there
          then ok none
          else ok (some canonical))
        ≡ ok (some resolved)
      → (within ≡ true) × (there ≡ true) × (canonical ≡ resolved)
  checked_lem false there canonical h = absurd (cc)
  checked_lem true false canonical h = absurd (cc (ok_inj h))
  checked_lem true true canonical h = (refl, refl, some_inj (ok_inj h))

  -- Where a path is resolved under a root, the path that is handed out is the real one of a path
  -- that exists, and its names begin with those of the real root, whatever links are on the way.
  pub try_resolve_within_lem :
      (root path : fs.FilePath) {resolved : fs.FilePath}
      → try_resolve_within fs root path ≡ ok (some resolved)
      → (real_root candidate real : fs.FilePath) × (fs.weakly_canonical root ≡ some real_root)
        × (fs.exists candidate ≡ true)
        × (fs.weakly_canonical candidate ≡ some real)
        × (resolved ≡ fs.lexically_normal real)
        × (rest : List Bytes) × (fs.parts (fs.lexically_normal resolved)
            ≡ fs.parts (fs.lexically_normal (fs.lexically_normal real_root)) ++ rest)
  unfolding try_resolve_within try_resolve_within_canonical is_path_within_root
  try_resolve_within_lem root path {resolved} x =
      let (c, x1, x2) =
        >>=-eq-ok (canonicalize fs root) (λ c. try_resolve_within_canonical fs c path) x in
      let (candidate, x3, x4) = >>=-eq-ok (build_candidate fs c path) _ x2 in
      let (canonical, x5, x6) = >>=-eq-ok (canonicalize fs candidate) _ x4 in
      let (real_root, r1, r2) = canonicalize_sound root (fs.weakly_canonical root) refl x1 in
      let (real, q1, q2) = canonicalize_sound candidate (fs.weakly_canonical candidate) refl x5 in
      let (within, there, same) =
        checked_lem (is_path_within_root fs c canonical) (fs.exists candidate) canonical x6 in
      let (rest, e) =
        begins_with_sound (fs.parts (fs.lexically_normal c))
          (fs.parts (fs.lexically_normal canonical)) within in
      (
        real_root,
        candidate,
        real,
        r1,
        there,
        q1,
        sym same ∙ q2,
        rest,
        ap (λ p. fs.parts (fs.lexically_normal p)) (sym same)
            ∙ e
            ∙ ap (λ p. fs.parts (fs.lexically_normal p) ++ rest) r2,
      )
