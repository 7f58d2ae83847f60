-- ===== src/Inpx/Archive/Names.antt =====
-- libs/Inpx/InpxParser.cpp: the archive name that `BuildArchiveName` reads off an entry.
use librova_inpx_web.Common.{
  ℕ, suc, ◌+◌, ◌-◌, ◌≡◌, refl, subst, true, false, [], ◌∷◌, ◌++◌, Option, none, some, arith,
  if◌then◌else◌, ltb-false, inl, inr, Bool-cases, Bytes, length, length-append, drop, drop-append,
  take-append, All, All-take,
}
use librova_inpx_web.Inpx.Text.{ends_with_insensitive, same_letters}
use librova_inpx_web.Inpx.Archive.{
  inp_suffix, is_separator, find_last_separator, base_name, build_archive_name,
}

abbrev pub IsPlain : Bytes → Type 0
IsPlain = All (λ b. is_separator b ≡ false)

IsLast : Bytes → Option ℕ → Type 0
IsLast name none = IsPlain name
IsLast name (some i) = IsPlain (drop (i + 1) name)

IsLast-suc :
    (b : ℕ) (bs : Bytes) (o : Option ℕ)
    → IsLast bs o
    → IsLast
        (b ∷ bs)
        (elim o [ some i ↦ some (suc i) | none ↦ if is_separator b then some 0 else none ])
unfolding IsLast
IsLast-suc b bs (some i) h = subst (λ (k : ℕ). IsPlain (drop k (b ∷ bs))) (shifted i) h
  where
    shifted : (i : ℕ) → suc (i + 1) ≡ suc i + 1
    shifted i = omega arith
IsLast-suc b bs none h = elim (Bool-cases (is_separator b)) [ inl e ↦ rw e h | inr e ↦ rw e (e, h) ]

find_last_separator-IsLast : (name : Bytes) → IsLast name (find_last_separator name)
unfolding IsLast find_last_separator
find_last_separator-IsLast [] = tt
find_last_separator-IsLast (b ∷ bs) =
    IsLast-suc b bs (find_last_separator bs) (find_last_separator-IsLast bs)

base_name-IsPlain : (name : Bytes) → IsPlain (base_name name)
unfolding base_name IsLast
base_name-IsPlain name = at_last (find_last_separator name) (find_last_separator-IsLast name)
  where
    at_last :
        (o : Option ℕ)
        → IsLast name o
        → IsPlain (elim o [ none ↦ name | some separator ↦ drop (separator + 1) name ])
    at_last none h = h
    at_last (some i) h = h

-- An archive name has no path separator, whatever the name of its entry.
pub build_archive_name-IsPlain : (name : Bytes) → IsPlain (build_archive_name name)
unfolding build_archive_name
build_archive_name-IsPlain name =
    elim (Bool-cases (ends_with_insensitive (base_name name) inp_suffix)) [
      | inl e ↦ rw e (
          All-take (λ b. is_separator b ≡ false) (length (base_name name) - 4) (base_name name)
            (base_name-IsPlain name))
      | inr e ↦ rw e (base_name-IsPlain name)
    ]

plain_last : (name : Bytes) → IsPlain name → find_last_separator name ≡ none
unfolding find_last_separator
plain_last [] h = refl
plain_last (b ∷ bs) h = rw (plain_last bs h.1, h.0)

find_last-append :
    (directory name : Bytes)
    → IsPlain name
    → find_last_separator (directory ++ b'/' ∷ name) ≡ some (length directory)
unfolding find_last_separator
find_last-append [] name h = rw (plain_last name h)
find_last-append (b ∷ bs) name h = rw (find_last-append bs name h)

base_name-append :
    (directory name : Bytes) → IsPlain name → base_name (directory ++ b'/' ∷ name) ≡ name
unfolding base_name
base_name-append directory name h =
    rw (find_last-append directory name h, base_name) (dropped directory)
  where
    dropped : (d : Bytes) → drop (length d + 1) (d ++ b'/' ∷ name) ≡ name
    dropped [] = refl
    dropped (b ∷ bs) =
        let e : suc (length bs) + 1 ≡ suc (length bs + 1) = omega arith in rw e (dropped bs)

ends_with_suffix : (base : Bytes) → ends_with_insensitive (base ++ inp_suffix) inp_suffix ≡ true
unfolding ends_with_insensitive same_letters
ends_with_suffix base =
    let n = length-append base inp_suffix in
    let e : length (base ++ inp_suffix) - 4 ≡ length base = omega (arith, n) in
    rw
      (ltb-false (length (base ++ inp_suffix)) 4 (omega (arith, n)), e, drop-append base inp_suffix)

IsPlain-append : (xs ys : Bytes) → IsPlain xs → IsPlain ys → IsPlain (xs ++ ys)
IsPlain-append [] ys h g = g
IsPlain-append (x ∷ xs) ys h g = (h.0, IsPlain-append xs ys h.1 g)

-- The entry `directory/base.inp` is the segment of the archive `base`, where `base` has no path
-- separator; an extension that `base` has of its own stays.
pub build_archive_name_lem :
    (directory base : Bytes)
    → IsPlain base
    → build_archive_name (directory ++ b'/' ∷ (base ++ inp_suffix)) ≡ base
unfolding build_archive_name
build_archive_name_lem directory base h =
    let n = length-append base inp_suffix in
    let e : length (base ++ inp_suffix) - 4 ≡ length base = omega (arith, n) in
    rw
      (
        base_name-append directory (base ++ inp_suffix)
            (IsPlain-append base inp_suffix h (refl, (refl, (refl, (refl, tt))))),
        build_archive_name,
        ends_with_suffix base,
        e,
      )
      (take-append base inp_suffix)
