-- ===== src/Inpx/Archive/Samples.antt =====
-- libs/Inpx/InpxParser.cpp: the names that `ReadArchiveNameSamples` gives.
use librova_inpx_web.Common.{
  ℕ, ◌≤◌, ◌≡◌, refl, sym, subst, Bool, true, false, not, ◌&&◌, List, [], ◌∷◌, ◌++◌, ok, >>=-eq-ok,
  ok_inj, arith, ltb, ltb→lt, inl, inr, Bool-cases, Bytes, bytes_eq, bytes_eq_iff, length,
  length-append, All, All-append,
}
use librova_inpx_web.Inpx.Text.{ends_with_insensitive}
use librova_inpx_web.Inpx.Archive.{
  Entry, inp_suffix, or_fail, no_name, build_archive_name, contains, sample_from, read_samples,
}
use librova_inpx_web.Inpx.Archive.Names.{IsPlain, build_archive_name-IsPlain}

abbrev pub AreDistinct : List Bytes → Type 0
AreDistinct [] = Unit
AreDistinct (x ∷ xs) = (contains xs x ≡ false) × AreDistinct xs

-- What a list of samples promises.
pub record IsSample (max_samples : ℕ) (names : List Bytes) : Type 0 where
  pub few : length names ≤ max_samples
  pub distinct : AreDistinct names
  pub plain : All IsPlain names

bytes_eq_sym : (x y : Bytes) → bytes_eq x y ≡ false → bytes_eq y x ≡ false
bytes_eq_sym x y h = elim (Bool-cases (bytes_eq y x)) [
  | inr e ↦ e
  | inl e ↦ absurd (cc (h, (bytes_eq_iff x y).1 (sym ((bytes_eq_iff y x).0 e))))
]

contains-append :
    (xs : List Bytes) (a x : Bytes)
    → contains xs x ≡ false
    → bytes_eq a x ≡ false
    → contains (xs ++ a ∷ []) x ≡ false
unfolding contains
contains-append [] a x h e = rw e refl
contains-append (y ∷ ys) a x h e = ground (arith, contains-append ys a x)

AreDistinct-append :
    (xs : List Bytes) (a : Bytes)
    → AreDistinct xs
    → contains xs a ≡ false
    → AreDistinct (xs ++ a ∷ [])
unfolding contains
AreDistinct-append [] a h e = (refl, tt)
AreDistinct-append (x ∷ xs) a h e = elim (Bool-cases (bytes_eq x a)) [
  | inl f ↦ absurd (cc (rw f at e))
  | inr f ↦
      (contains-append xs a x h.0 (bytes_eq_sym x a f), AreDistinct-append xs a h.1 (rw f at e))
]

sample_from-IsSample :
    (max_samples : ℕ) (seen : List Bytes) (entries : List Entry) (names : List Bytes)
    → IsSample max_samples seen
    → sample_from max_samples seen entries ≡ ok names
    → IsSample max_samples names
unfolding sample_from
sample_from-IsSample max_samples seen [] names h e = subst (IsSample max_samples) (ok_inj e) h
sample_from-IsSample max_samples seen (entry ∷ entries) names h e =
    elim (Bool-cases (ltb (length seen) max_samples)) [
      | inr f ↦ subst (IsSample max_samples) (ok_inj (rw (f, sample_from) at e)) h
      | inl f ↦
          let (name, e0, e1) =
            >>=-eq-ok (or_fail no_name entry.name) _ (rw (f, sample_from) at e) in
          let fresh =
            ends_with_insensitive name inp_suffix
            && not (contains seen (build_archive_name name)) in
          elim (Bool-cases fresh) [
            | inr g ↦ sample_from-IsSample max_samples seen entries names h (rw g at e1)
            | inl g ↦
                sample_from-IsSample max_samples (seen ++ build_archive_name name ∷ []) entries
                  names
                  (record {
                    few = omega (
                      arith,
                      length-append seen (build_archive_name name ∷ []),
                      ltb→lt (length seen) max_samples f,
                    );
                    distinct = AreDistinct-append seen (build_archive_name name) h.distinct (
                        unseen (ends_with_insensitive name inp_suffix)
                          (contains seen (build_archive_name name)) g);
                    plain =
                        All-append IsPlain seen (build_archive_name name ∷ []) h.plain
                          (build_archive_name-IsPlain name, tt);
                  })
                  (rw g at e1)
          ]
    ]
  where
    unseen : (a b : Bool) → (a && not b) ≡ true → b ≡ false
    unseen true false p = refl
    unseen true true p = absurd (cc)
    unseen false b p = absurd (cc)

-- Where the names are read, they are as many as asked for at most, each given once, and none has
-- a path separator.
pub read_samples-IsSample :
    (max_samples : ℕ) (entries : List Entry) (names : List Bytes)
    → read_samples max_samples entries ≡ ok names
    → IsSample max_samples names
unfolding read_samples
read_samples-IsSample max_samples entries names e =
    sample_from-IsSample max_samples [] entries names
      (record { few = omega arith; distinct = tt; plain = tt }) e
