-- ===== src/Catalog/Covers/Balance.antt =====
-- libs/Database/CatalogStatisticsMaintenance.cpp: one reference more, or one less.
use librova_inpx_web.Common.{
  ℕ, suc, ◌+◌, ◌<◌, ◌≡◌, ◌≢◌, refl, ap, sym, subst, ◌∙◌, false, List, none, some, ltb,
  if◌then◌else◌, Bytes, bytes_eq, bytes_eq_iff, Bool-cases, Bool-absurd, inl, inr, arith,
  Option-cases,
}
use librova_inpx_web.Common.Int.{ℤ, pos, ◌+ℤ◌, ◌-ℤ◌, int_laws}
use librova_inpx_web.Catalog.Covers.{
  CoverFile, Covers, find, change, delete, count_references, insert_sized, one_more, one_less,
  decrement_at, resize,
}
use librova_inpx_web.Catalog.Covers.Files.{
  references, total, DistinctPaths, one_if, bytes_eq_refl, references-none, references-some,
  references-change_ne, references-change_self, references-delete, total-change, total-delete,
  total-resize, change-DistinctPaths, delete-DistinctPaths, find-none_lacks,
}

-- The counts, where some references are still to be added and some to be taken away.
pub record IsOff (up down : Bytes → ℕ) (c : Covers) : Type 0 where
  pub counted : (p : Bytes) → references p c.files + up p ≡ count_references p c.books + down p
  pub summed : c.cover_cache_size_bytes ≡ pos (total c.files)
  pub distinct : DistinctPaths c.files

abbrev pub no_path : Bytes → ℕ
no_path p = 0

abbrev pub plus_path : Bytes → (Bytes → ℕ) → Bytes → ℕ
plus_path path f p = one_if (bytes_eq path p) + f p

-- Every path has as many references as there are books that show it, and the size of the cache is
-- the size of the files, each counted once.
abbrev pub IsCounted : Covers → Type 0
IsCounted = IsOff no_path no_path

pub pos_add : (n m : ℕ) → pos n +ℤ pos m ≡ pos (m + n)
unfolding ◌+ℤ◌
pos_add n m = ground arith

pub pos_sub : (n m : ℕ) → pos (m + n) -ℤ pos m ≡ pos n
unfolding ◌-ℤ◌
pos_sub n m = ground arith

pos_resize : (a n m b : ℕ) → b + m ≡ n + a → pos a +ℤ (pos n -ℤ pos m) ≡ pos b
pos_resize a n m b e = omega int_laws

module _ (u d : Bytes → ℕ) (path : Bytes) (c : Covers) where
  pub one_more-IsOff :
      (f : CoverFile)
      → find path c.files ≡ some f
      → IsOff (plus_path path u) d c
      → IsOff u d (record c { files = change path one_more c.files })
  unfolding total
  one_more-IsOff f e h = record {
    counted = more;
    summed = h.summed ∙ ap pos (sym (total-change path one_more (λ g. refl) c.files));
    distinct = change-DistinctPaths path one_more (λ g. refl) c.files h.distinct;
  }
    where
      more :
          (p : Bytes)
          → references p (change path one_more c.files) + u p ≡ count_references p c.books + d p
      more p = elim (Bool-cases (bytes_eq path p)) [
        | inl t ↦
            let same : path ≡ p = (bytes_eq_iff path p).0 t in
            let n : references p (change path one_more c.files) ≡ suc f.reference_count =
              subst
                (λ (q : Bytes). references q (change path one_more c.files) ≡ suc f.reference_count)
                same (references-change_self path one_more (λ g. refl) c.files e) in
            let m : references p c.files ≡ f.reference_count =
              subst (λ (q : Bytes). references q c.files ≡ f.reference_count) same
                (references-some path c.files e) in
            let k : references p c.files + (1 + u p) ≡ count_references p c.books + d p =
              rw t at (h.counted p) in
            omega arith
        | inr t ↦
            let n =
              references-change_ne path one_more (λ g. refl) p
                (λ same. Bool-absurd _ ((bytes_eq_iff path p).1 same) t) c.files in
            let k : references p c.files + (0 + u p) ≡ count_references p c.books + d p =
              rw t at (h.counted p) in
            omega arith
      ]

  pub inserted-IsOff :
      (n : ℕ)
      → find path c.files ≡ none
      → IsOff (plus_path path u) d c
      → IsOff u d (insert_sized path 1 c n)
  unfolding total references
  inserted-IsOff n e h = record {
    counted = more;
    summed = ap (λ (z : ℤ). z +ℤ pos n) h.summed ∙ pos_add (total c.files) n;
    distinct = (find-none_lacks path c.files e, h.distinct);
  }
    where
      more :
          (p : Bytes)
          → (if bytes_eq path p then 1 else references p c.files) + u p
            ≡ count_references p c.books + d p
      more p = elim (Bool-cases (bytes_eq path p)) [
        | inl t ↦
            let same : path ≡ p = (bytes_eq_iff path p).0 t in
            let m : references p c.files ≡ 0 =
              subst (λ (q : Bytes). references q c.files ≡ 0) same
                (references-none path c.files e) in
            let k : references p c.files + (1 + u p) ≡ count_references p c.books + d p =
              rw t at (h.counted p) in
            rw t (omega arith)
        | inr t ↦
            let k : references p c.files + (0 + u p) ≡ count_references p c.books + d p =
              rw t at (h.counted p) in
            rw t (omega arith)
      ]

  -- A file that gives up one reference has one.
  pub held :
      u path ≡ 0
      → IsOff u (plus_path path d) c
      → (f : CoverFile) × (find path c.files ≡ some f) × (0 < f.reference_count)
  held none_up h = elim (Option-cases (find path c.files)) [
    | inl e ↦
        let k : references path c.files + u path ≡ count_references path c.books + (1 + d path) =
          rw (bytes_eq_refl path) at (h.counted path) in
        absurd (omega (arith, references-none path c.files e))
    | inr (f, e) ↦
        let k : references path c.files + u path ≡ count_references path c.books + (1 + d path) =
          rw (bytes_eq_refl path) at (h.counted path) in
        (f, e, omega (arith, references-some path c.files e))
  ]

  fewer :
      (fs : List CoverFile) (f : CoverFile)
      → find path c.files ≡ some f
      → references path fs + 1 ≡ f.reference_count
      → ((p : Bytes) → path ≢ p → references p fs ≡ references p c.files)
      → IsOff u (plus_path path d) c
      → (p : Bytes) → references p fs + u p ≡ count_references p c.books + d p
  fewer fs f e here others h p = elim (Bool-cases (bytes_eq path p)) [
    | inl t ↦
        let same : path ≡ p = (bytes_eq_iff path p).0 t in
        let n : references p fs + 1 ≡ f.reference_count =
          subst (λ (q : Bytes). references q fs + 1 ≡ f.reference_count) same here in
        let m : references p c.files ≡ f.reference_count =
          subst (λ (q : Bytes). references q c.files ≡ f.reference_count) same
            (references-some path c.files e) in
        let k : references p c.files + u p ≡ count_references p c.books + (1 + d p) =
          rw t at (h.counted p) in
        omega arith
    | inr t ↦
        let n = others p (λ same. Bool-absurd _ ((bytes_eq_iff path p).1 same) t) in
        let k : references p c.files + u p ≡ count_references p c.books + (0 + d p) =
          rw t at (h.counted p) in
        omega arith
  ]

  pub decrement_at-IsOff :
      (f : CoverFile)
      → find path c.files ≡ some f
      → 0 < f.reference_count
      → IsOff u (plus_path path d) c
      → IsOff u d (decrement_at path (some f) c)
  decrement_at-IsOff f e positive h = elim (Bool-cases (ltb 1 f.reference_count)) [
    | inl many ↦ rw many (record {
      counted =
          fewer (change path one_less c.files) f e
            (rw (references-change_self path one_less (λ g. refl) c.files e) (ground arith))
            (λ p ne. references-change_ne path one_less (λ g. refl) p ne c.files) h;
      summed = h.summed ∙ ap pos (sym (total-change path one_less (λ g. refl) c.files));
      distinct = change-DistinctPaths path one_less (λ g. refl) c.files h.distinct;
    })
    | inr one ↦ rw one (record {
      counted = fewer (delete path c.files) f e (gone one positive) others h;
      summed =
          ap (λ (z : ℤ). z -ℤ pos f.size_bytes) h.summed
          ∙ ap (λ (n : ℕ). pos n -ℤ pos f.size_bytes) (total-delete path c.files h.distinct e)
          ∙ pos_sub (total (delete path c.files)) f.size_bytes;
      distinct = delete-DistinctPaths path c.files h.distinct;
    })
  ]
    where
      gone :
          ltb 1 f.reference_count ≡ false
          → 0 < f.reference_count
          → references path (delete path c.files) + 1 ≡ f.reference_count
      gone one positive =
          rw (references-delete path path c.files, bytes_eq_refl path) (ground arith)

      others : (p : Bytes) → path ≢ p → references p (delete path c.files) ≡ references p c.files
      others p ne = elim (Bool-cases (bytes_eq path p)) [
        | inl t ↦ absurd (ne ((bytes_eq_iff path p).0 t))
        | inr t ↦ references-delete path p c.files ∙ rw t refl
      ]

pub resize-IsCounted :
    (path : Bytes) (n : ℕ) (f : CoverFile) (c : Covers)
    → find path c.files ≡ some f
    → IsCounted c
    → IsCounted (record c {
      files = change path (resize n) c.files;
      cover_cache_size_bytes = c.cover_cache_size_bytes +ℤ (pos n -ℤ pos f.size_bytes);
    })
resize-IsCounted path n f c e h = record {
  counted = same;
  summed =
      ap (λ (z : ℤ). z +ℤ (pos n -ℤ pos f.size_bytes)) h.summed
      ∙ pos_resize (total c.files) n f.size_bytes _ (total-resize path n c.files h.distinct e);
  distinct = change-DistinctPaths path (resize n) (λ g. refl) c.files h.distinct;
}
  where
    same :
        (p : Bytes)
        → references p (change path (resize n) c.files) + 0 ≡ count_references p c.books + 0
    same p = elim (Bool-cases (bytes_eq path p)) [
      | inl t ↦
          let q : path ≡ p = (bytes_eq_iff path p).0 t in
          let m : references p (change path (resize n) c.files) ≡ references p c.files =
            subst
              (λ (x : Bytes). references x (change path (resize n) c.files) ≡ references x c.files)
              q
              (references-change_self path (resize n) (λ g. refl) c.files e
                ∙ sym (references-some path c.files e)) in
          omega (arith, h.counted p)
      | inr t ↦
          let m =
            references-change_ne path (resize n) (λ g. refl) p
              (λ q. Bool-absurd _ ((bytes_eq_iff path p).1 q) t) c.files in
          omega (arith, h.counted p)
    ]
