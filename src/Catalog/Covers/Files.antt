-- ===== src/Catalog/Covers/Files.antt =====
-- libs/Database/CatalogStatisticsMaintenance.cpp: the table of the cover files.
use librova_inpx_web.Common.{
  ℕ, ◌+◌, ◌≡◌, ◌≢◌, refl, ap, sym, subst, ◌∙◌, Bool, true, false, List, [], ◌∷◌, none, some,
  if◌then◌else◌, Bytes, bytes_eq, bytes_eq_iff, Bool-cases, inl, inr, arith, All, some_inj,
}
use librova_inpx_web.Catalog.Covers.{CoverFile, find, change, delete, resize}

-- The references that a path is said to have, and the size of all files.
unfoldable pub references : Bytes → List CoverFile → ℕ
references path [] = 0
references path (f ∷ fs) =
    if bytes_eq f.cover_path path then f.reference_count else references path fs

unfoldable pub total : List CoverFile → ℕ
total [] = 0
total (f ∷ fs) = f.size_bytes + total fs

abbrev pub LacksPath : Bytes → List CoverFile → Type 0
LacksPath path = All (λ f. bytes_eq f.cover_path path ≡ false)

abbrev pub DistinctPaths : List CoverFile → Type 0
DistinctPaths [] = Unit
DistinctPaths (f ∷ fs) = LacksPath f.cover_path fs × DistinctPaths fs

abbrev pub one_if : Bool → ℕ
one_if b = if b then 1 else 0

pub bytes_eq_refl : (p : Bytes) → bytes_eq p p ≡ true
bytes_eq_refl p = (bytes_eq_iff p p).1 refl

module _ (path : Bytes) where
  pub references-none : (fs : List CoverFile) → find path fs ≡ none → references path fs ≡ 0
  unfolding find references
  references-none [] e = refl
  references-none (f ∷ fs) e = ground (arith, references-none fs)

  pub references-some :
      (fs : List CoverFile) {f : CoverFile}
      → find path fs ≡ some f
      → references path fs ≡ f.reference_count
  unfolding find references
  references-some [] e = absurd (cc)
  references-some (g ∷ fs) e = elim (Bool-cases (bytes_eq g.cover_path path)) [
    | inl t ↦ rw t (ap (λ (x : CoverFile). x.reference_count) (some_inj (rw t at e)))
    | inr t ↦ rw t (references-some fs (rw t at e))
  ]

  pub references-change_ne :
      (f : CoverFile → CoverFile)
      → ((g : CoverFile) → (f g).cover_path ≡ g.cover_path)
      → (p : Bytes) → path ≢ p
      → (fs : List CoverFile) → references p (change path f fs) ≡ references p fs
  unfolding references change
  references-change_ne f keeps p ne [] = refl
  references-change_ne f keeps p ne (g ∷ fs) = elim (Bool-cases (bytes_eq g.cover_path path)) [
    | inl t ↦
        let same : g.cover_path ≡ path = (bytes_eq_iff _ _).0 t in
        let other : bytes_eq g.cover_path p ≡ false = differs same in
        rw (t, keeps g, other) (references-change_ne f keeps p ne fs)
    | inr t ↦ rw t (
        ap (λ (n : ℕ). if bytes_eq g.cover_path p then g.reference_count else n)
          (references-change_ne f keeps p ne fs))
  ]
    where
      differs : {k : Bytes} → k ≡ path → bytes_eq k p ≡ false
      differs {k} e = elim (Bool-cases (bytes_eq k p)) [
        | inl t ↦ absurd (ne (sym e ∙ (bytes_eq_iff k p).0 t))
        | inr t ↦ t
      ]

  pub references-change_self :
      (f : CoverFile → CoverFile)
      → ((g : CoverFile) → (f g).cover_path ≡ g.cover_path)
      → (fs : List CoverFile) {g : CoverFile} → find path fs ≡ some g
      → references path (change path f fs) ≡ (f g).reference_count
  unfolding find references change
  references-change_self f keeps [] e = absurd (cc)
  references-change_self f keeps (h ∷ fs) e = elim (Bool-cases (bytes_eq h.cover_path path)) [
    | inl t ↦
        rw (t, keeps h, t) (ap (λ (x : CoverFile). (f x).reference_count) (some_inj (rw t at e)))
    | inr t ↦ rw (t, t) (references-change_self f keeps fs (rw t at e))
  ]

  pub references-delete :
      (p : Bytes) (fs : List CoverFile)
      → references p (delete path fs) ≡ (if bytes_eq path p then 0 else references p fs)
  unfolding references delete
  references-delete p [] = elim (Bool-cases (bytes_eq path p)) [
    | inl e ↦ rw e refl
    | inr e ↦ rw e refl
  ]
  references-delete p (g ∷ fs) = elim (Bool-cases (bytes_eq g.cover_path path)) [
    | inl t ↦
        let same : g.cover_path ≡ path = (bytes_eq_iff _ _).0 t in
        rw (t, references-delete p fs, same)
          (both (bytes_eq path p) g.reference_count (references p fs))
    | inr t ↦ rw (t, references-delete p fs) (apart g.cover_path (references p fs) t)
  ]
    where
      both : (b : Bool) (n m : ℕ) → (if b then 0 else m) ≡ (if b then 0 else if b then n else m)
      both true n m = refl
      both false n m = refl

      apart :
          (k : Bytes) (m : ℕ)
          → bytes_eq k path ≡ false
          → (if bytes_eq k p then g.reference_count else if bytes_eq path p then 0 else m)
            ≡ (if bytes_eq path p then 0 else if bytes_eq k p then g.reference_count else m)
      apart k m t = ground (arith, bytes_eq_iff k p, bytes_eq_iff path p, bytes_eq_iff k path)

  -- The sizes and the keys.
  pub total-change :
      (f : CoverFile → CoverFile)
      → ((g : CoverFile) → (f g).size_bytes ≡ g.size_bytes)
      → (fs : List CoverFile) → total (change path f fs) ≡ total fs
  unfolding total change
  total-change f keeps [] = refl
  total-change f keeps (g ∷ fs) = elim (Bool-cases (bytes_eq g.cover_path path)) [
    | inl t ↦ rw (t, keeps g, total-change f keeps fs) refl
    | inr t ↦ rw (t, total-change f keeps fs) refl
  ]

  change-lacking :
      (f : CoverFile → CoverFile) (fs : List CoverFile) → LacksPath path fs → change path f fs ≡ fs
  unfolding change
  change-lacking f [] h = refl
  change-lacking f (g ∷ fs) h = rw h.0 (ap (◌∷◌ g) (change-lacking f fs h.1))

  delete-lacking : (fs : List CoverFile) → LacksPath path fs → delete path fs ≡ fs
  unfolding delete
  delete-lacking [] h = refl
  delete-lacking (g ∷ fs) h = rw h.0 (ap (◌∷◌ g) (delete-lacking fs h.1))

  pub total-delete :
      (fs : List CoverFile) {g : CoverFile}
      → DistinctPaths fs
      → find path fs ≡ some g
      → total fs ≡ g.size_bytes + total (delete path fs)
  unfolding find total delete
  total-delete [] d e = absurd (cc)
  total-delete (h ∷ fs) {g} d e = elim (Bool-cases (bytes_eq h.cover_path path)) [
    | inl t ↦
        let same : h.cover_path ≡ path = (bytes_eq_iff _ _).0 t in
        let size : h.size_bytes ≡ g.size_bytes =
          ap (λ (x : CoverFile). x.size_bytes) (some_inj (rw t at e)) in
        rw (t, delete-lacking fs (subst (λ (k : Bytes). LacksPath k fs) same d.0)) (omega arith)
    | inr t ↦ let rest = total-delete fs d.1 (rw t at e) in rw t (omega arith)
  ]

  pub total-resize :
      (n : ℕ) (fs : List CoverFile) {g : CoverFile}
      → DistinctPaths fs
      → find path fs ≡ some g
      → total (change path (resize n) fs) + g.size_bytes ≡ n + total fs
  unfolding find total change
  total-resize n [] d e = absurd (cc)
  total-resize n (h ∷ fs) {g} d e = elim (Bool-cases (bytes_eq h.cover_path path)) [
    | inl t ↦
        let same : h.cover_path ≡ path = (bytes_eq_iff _ _).0 t in
        let size : h.size_bytes ≡ g.size_bytes =
          ap (λ (x : CoverFile). x.size_bytes) (some_inj (rw t at e)) in
        rw (t, change-lacking (resize n) fs (subst (λ (k : Bytes). LacksPath k fs) same d.0))
          (omega arith)
    | inr t ↦ let rest = total-resize n fs d.1 (rw t at e) in rw t (omega arith)
  ]

  change-LacksPath :
      (p : Bytes) (f : CoverFile → CoverFile)
      → ((g : CoverFile) → (f g).cover_path ≡ g.cover_path)
      → (fs : List CoverFile) → LacksPath p fs
      → LacksPath p (change path f fs)
  unfolding change
  change-LacksPath p f keeps [] h = tt
  change-LacksPath p f keeps (g ∷ fs) h = elim (Bool-cases (bytes_eq g.cover_path path)) [
    | inl t ↦ rw (t, keeps g) (h.0, change-LacksPath p f keeps fs h.1)
    | inr t ↦ rw t (h.0, change-LacksPath p f keeps fs h.1)
  ]

  pub change-DistinctPaths :
      (f : CoverFile → CoverFile)
      → ((g : CoverFile) → (f g).cover_path ≡ g.cover_path)
      → (fs : List CoverFile) → DistinctPaths fs
      → DistinctPaths (change path f fs)
  unfolding change
  change-DistinctPaths f keeps [] d = tt
  change-DistinctPaths f keeps (g ∷ fs) d =
      let r = change-DistinctPaths f keeps fs d.1 in
      let l = change-LacksPath g.cover_path f keeps fs d.0 in
      elim (Bool-cases (bytes_eq g.cover_path path)) [
        | inl t ↦ rw (t, keeps g) (l, r)
        | inr t ↦ rw t (l, r)
      ]

  delete-LacksPath :
      (p : Bytes) (fs : List CoverFile) → LacksPath p fs → LacksPath p (delete path fs)
  unfolding delete
  delete-LacksPath p [] h = tt
  delete-LacksPath p (g ∷ fs) h = elim (Bool-cases (bytes_eq g.cover_path path)) [
    | inl t ↦ rw t (delete-LacksPath p fs h.1)
    | inr t ↦ rw t (h.0, delete-LacksPath p fs h.1)
  ]

  pub delete-DistinctPaths :
      (fs : List CoverFile) → DistinctPaths fs → DistinctPaths (delete path fs)
  unfolding delete
  delete-DistinctPaths [] d = tt
  delete-DistinctPaths (g ∷ fs) d = elim (Bool-cases (bytes_eq g.cover_path path)) [
    | inl t ↦ rw t (delete-DistinctPaths fs d.1)
    | inr t ↦ rw t (delete-LacksPath g.cover_path fs d.0, delete-DistinctPaths fs d.1)
  ]

  pub find-none_lacks : (fs : List CoverFile) → find path fs ≡ none → LacksPath path fs
  unfolding find
  find-none_lacks [] e = tt
  find-none_lacks (g ∷ fs) e = elim (Bool-cases (bytes_eq g.cover_path path)) [
    | inl t ↦ absurd (cc (rw t at e))
    | inr t ↦ (t, find-none_lacks fs (rw t at e))
  ]
