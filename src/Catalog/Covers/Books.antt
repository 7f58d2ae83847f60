-- ===== src/Catalog/Covers/Books.antt =====
-- libs/App/InpxScanJobService.cpp, `UpdateBookCoverPath`: what the books show before and after.
use librova_inpx_web.Common.{
  ℕ, ◌+◌, ◌<◌, ◌≡◌, refl, ap, subst, ◌∙◌, true, List, [], ◌∷◌, Option, none, some, ◌==◌, Bytes,
  Bool-cases, inl, inr, arith, All, some_inj, ==_iff,
}
use librova_inpx_web.Catalog.Covers.{Book, shows, count_references, set_cover_path, cover_of}
use librova_inpx_web.Catalog.Covers.Files.{one_if}

-- What a book that is written shows, before and after.
module _ (i : ℕ) (new : Option Bytes) where
  pub set_cover_path-lacking :
      (bs : List Book) → cover_of i bs ≡ none → set_cover_path i new bs ≡ bs
  unfolding cover_of set_cover_path
  set_cover_path-lacking [] e = refl
  set_cover_path-lacking (b ∷ bs) e = elim (Bool-cases (b.id == i)) [
    | inl t ↦ absurd (cc (rw t at e))
    | inr t ↦ rw t (ap (◌∷◌ b) (set_cover_path-lacking bs (rw t at e)))
  ]

abbrev pub DistinctBooks : List Book → Type 0
DistinctBooks [] = Unit
DistinctBooks (b ∷ bs) = (cover_of b.id bs ≡ none) × DistinctBooks bs

pub count-set_cover_path :
    (i : ℕ) (new old : Option Bytes) (p : Bytes) (bs : List Book)
    → DistinctBooks bs
    → cover_of i bs ≡ some old
    → count_references p (set_cover_path i new bs) + one_if (shows p old)
      ≡ count_references p bs + one_if (shows p new)
unfolding cover_of set_cover_path count_references
count-set_cover_path i new old p [] d e = absurd (cc)
count-set_cover_path i new old p (b ∷ bs) d e = elim (Bool-cases (b.id == i)) [
  | inl t ↦
      let same : b.cover_path ≡ old = some_inj (rw t at e) in
      let k : b.id ≡ i = (==_iff b.id i).0 t in
      rw (t, set_cover_path-lacking i new bs (subst (λ (n : ℕ). cover_of n bs ≡ none) k d.0), same)
        (omega arith)
  | inr t ↦ rw t (omega (arith, count-set_cover_path i new old p bs d.1 (rw t at e)))
]

pub count_references-pos :
    (i : ℕ) (p : Bytes) (bs : List Book) {old : Option Bytes}
    → cover_of i bs ≡ some old
    → shows p old ≡ true
    → 0 < count_references p bs
unfolding cover_of count_references
count_references-pos i p [] e t = absurd (cc)
count_references-pos i p (b ∷ bs) e t = elim (Bool-cases (b.id == i)) [
  | inl s ↦
      let shown : shows p b.cover_path ≡ true = ap (shows p) (some_inj (rw s at e)) ∙ t in
      rw shown (omega arith)
  | inr s ↦ omega (arith, count_references-pos i p bs (rw s at e) t)
]

-- A predicate on the paths that are shown.
pub cover_of-All :
    (P : Option Bytes → Type 0) (i : ℕ) (bs : List Book) {old : Option Bytes}
    → All (λ b. P b.cover_path) bs
    → cover_of i bs ≡ some old
    → P old
unfolding cover_of
cover_of-All P i [] h e = absurd (cc)
cover_of-All P i (b ∷ bs) h e = elim (Bool-cases (b.id == i)) [
  | inl s ↦ subst P (some_inj (rw s at e)) h.0
  | inr s ↦ cover_of-All P i bs h.1 (rw s at e)
]

pub set_cover_path-All :
    (P : Option Bytes → Type 0) (i : ℕ) (new : Option Bytes) (bs : List Book)
    → All (λ b. P b.cover_path) bs
    → P new
    → All (λ b. P b.cover_path) (set_cover_path i new bs)
unfolding set_cover_path
set_cover_path-All P i new [] h n = tt
set_cover_path-All P i new (b ∷ bs) h n =
    let r = set_cover_path-All P i new bs h.1 n in
    elim (Bool-cases (b.id == i)) [ inl s ↦ rw s (n, r) | inr s ↦ rw s (h.0, r) ]

pub cover_of-set_cover_path :
    (j i : ℕ) (new : Option Bytes) (bs : List Book)
    → cover_of j bs ≡ none
    → cover_of j (set_cover_path i new bs) ≡ none
unfolding cover_of set_cover_path
cover_of-set_cover_path j i new [] e = refl
cover_of-set_cover_path j i new (b ∷ bs) e = elim (Bool-cases (b.id == j)) [
  | inl t ↦ absurd (cc (rw t at e))
  | inr t ↦ elim (Bool-cases (b.id == i)) [
    | inl s ↦ rw (s, t) (cover_of-set_cover_path j i new bs (rw t at e))
    | inr s ↦ rw (s, t) (cover_of-set_cover_path j i new bs (rw t at e))
  ]
]

pub set_cover_path-DistinctBooks :
    (i : ℕ) (new : Option Bytes) (bs : List Book)
    → DistinctBooks bs
    → DistinctBooks (set_cover_path i new bs)
unfolding set_cover_path
set_cover_path-DistinctBooks i new [] d = tt
set_cover_path-DistinctBooks i new (b ∷ bs) d =
    let l = cover_of-set_cover_path b.id i new bs d.0 in
    let r = set_cover_path-DistinctBooks i new bs d.1 in
    elim (Bool-cases (b.id == i)) [ inl t ↦ rw t (l, r) | inr t ↦ rw t (l, r) ]
