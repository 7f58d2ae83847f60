-- ===== src/Catalog/Covers/Counted.antt =====
-- libs/Database/CatalogStatisticsMaintenance.cpp: the reference counts and the size of the cover
-- cache, against the books.
use librova_inpx_web.Common.{
  ℕ, ◌+◌, ◌^◌, ◌<◌, ◌≡◌, refl, ap, sym, subst, ◌∙◌, true, false, List, [], ◌∷◌, Option, none, some,
  Outcome, ok, ◌==◌, Bytes, bytes_eq, bytes_eq_iff, Bool-cases, inl, inr, arith, All, ==_iff,
  lt→ltb, Option-cases,
}
use librova_inpx_web.Common.Int.{pos, ◌+ℤ◌}
use librova_inpx_web.Catalog.Covers.{
  Book, Covers, StatisticsError, find, change, shows, count_references, set_cover_path, is_nil,
  Cache, cover_size, insert_sized, insert_file, one_more, increment, decrement, refresh,
  record_changed, insert_book, update_book, cover_of, store_book, Write,
}
use librova_inpx_web.Catalog.Covers.Files.{references, one_if, bytes_eq_refl, references-none}
use librova_inpx_web.Catalog.Covers.Balance.{
  IsOff, no_path, IsCounted, plus_path, one_more-IsOff, inserted-IsOff, held, decrement_at-IsOff,
  resize-IsCounted,
}
use librova_inpx_web.Catalog.Covers.Books.{
  set_cover_path-lacking, DistinctBooks, count-set_cover_path, set_cover_path-DistinctBooks,
  count_references-pos, cover_of-All, set_cover_path-All,
}

module _ (cache : Cache) where
  -- A path as `CacheInpxCover` makes it, which is in normal form.
  abbrev pub IsNormal : Option Bytes → Type 0
  IsNormal none = Unit
  IsNormal (some path) = (cache.try_normalize path ≡ some path) × (is_nil path ≡ false)

  -- The file that was stored at it.
  abbrev pub IsOnDisk : Option Bytes → Option ℕ → Type 0
  IsOnDisk none known = Unit
  IsOnDisk (some path) known = (n : ℕ) × (cover_size cache path known ≡ some n) × (n < 2 ^ 63)

  -- The result of a write that is good.
  abbrev pub Good : (Covers → Type 0) → Outcome StatisticsError Covers → Type 0
  Good P o = (c : Covers) × (o ≡ ok c) × P c

  abbrev Keeps : (Bytes → ℕ) → (Bytes → ℕ) → List Book → Covers → Type 0
  Keeps u d books c = IsOff u d c × (c.books ≡ books)

  inserted_ok :
      (path : Bytes) (references n : ℕ) (c : Covers)
      → n < 2 ^ 63
      → insert_file path references (some n) c ≡ ok (insert_sized path references c n)
  inserted_ok path references n c small = rw (lt→ltb n (2 ^ 63) small) refl

  increment_lem :
      (u d : Bytes → ℕ) (path : Bytes) (known : Option ℕ) (c : Covers)
      → IsNormal (some path)
      → IsOnDisk (some path) known
      → IsOff (plus_path path u) d c
      → Good (Keeps u d c.books) (increment cache (some path) known c)
  unfolding increment
  increment_lem u d path known c (normal, filled) (n, size, small) h =
      elim (Option-cases (find path c.files)) [
        | inl e ↦ (
          insert_sized path 1 c n,
          rw (filled, normal, increment, e, size) (inserted_ok path 1 n c small),
          (inserted-IsOff u d path c n e h, refl),
        )
        | inr (f, e) ↦ (
          record c { files = change path one_more c.files },
          rw (filled, normal, increment, e) refl,
          (one_more-IsOff u d path c f e h, refl),
        )
      ]

  decrement_lem :
      (u d : Bytes → ℕ) (path : Bytes) (c : Covers)
      → IsNormal (some path)
      → u path ≡ 0
      → IsOff u (plus_path path d) c
      → Keeps u d c.books (decrement cache (some path) c)
  unfolding decrement
  decrement_lem u d path c (normal, filled) none_up h =
      let (f, e, positive) = held u d path c none_up h in
      rw (filled, normal, decrement, e) (decrement_at-IsOff u d path c f e positive h, ground arith)

  refresh_lem :
      (path : Bytes) (known : Option ℕ) (c : Covers)
      → IsNormal (some path)
      → IsOnDisk (some path) known
      → 0 < count_references path c.books
      → IsCounted c
      → Good (Keeps no_path no_path c.books) (refresh cache (some path) known c)
  unfolding refresh
  refresh_lem path known c (normal, filled) (n, size, small) shown h =
      elim (Option-cases (find path c.files)) [
        | inl e ↦ absurd (omega (arith, h.counted path, references-none path c.files e))
        | inr (f, e) ↦ elim (Bool-cases (f.size_bytes == n)) [
          | inl s ↦
              (c, rw (filled, normal, refresh, size, e, lt→ltb n (2 ^ 63) small, s) refl, (h, refl))
          | inr s ↦ (
            _,
            rw (filled, normal, refresh, size, e, lt→ltb n (2 ^ 63) small, s) refl,
            (resize-IsCounted path n f c e h, refl),
          )
        ]
      ]

  -- What is to be added and to be taken away for a book.
  abbrev off_by : Option Bytes → Bytes → ℕ
  off_by none = no_path
  off_by (some path) = plus_path path no_path

  off_by_lem : (path : Option Bytes) (p : Bytes) → off_by path p ≡ one_if (shows p path)
  off_by_lem none p = refl
  off_by_lem (some path) p = omega arith

  cancelled :
      (path : Bytes) (c : Covers) → IsOff (off_by (some path)) (off_by (some path)) c → IsCounted c
  cancelled path c h = record {
    counted = λ p. omega (arith, h.counted p);
    summed = h.summed;
    distinct = h.distinct;
  }

  moved_on :
      (p q : Bytes) (known : Option ℕ) (c : Covers)
      → IsNormal (some p)
      → IsNormal (some q)
      → IsOnDisk (some q) known
      → bytes_eq p q ≡ false
      → IsOff (off_by (some q)) (off_by (some p)) c
      → Good
          (Keeps no_path no_path c.books)
          (increment cache (some q) known (decrement cache (some p) c))
  moved_on p q known c a b s t h =
      let apart : off_by (some q) p ≡ 0 = ground (arith, bytes_eq_iff p q, bytes_eq_iff q p) in
      let r = decrement_lem (off_by (some q)) no_path p c a apart h in
      let (c', e, i) = increment_lem no_path no_path q known (decrement cache (some p) c) b s r.0 in
      (c', e, (i.0, i.1 ∙ r.1))

  moved :
      (old new : Option Bytes) (known : Option ℕ) (c : Covers)
      → IsNormal old
      → IsNormal new
      → IsOnDisk new known
      → ((path : Bytes) → old ≡ some path → new ≡ some path → 0 < count_references path c.books)
      → IsOff (off_by new) (off_by old) c
      → Good (Keeps no_path no_path c.books) (record_changed cache old new known c)
  unfolding record_changed increment decrement refresh
  moved none none known c a b s k h = (c, refl, (h, refl))
  moved none (some q) known c a b s k h =
      rw (b.0, record_changed) (increment_lem no_path no_path q known c b s h)
  moved (some p) none known c a b s k h =
      let r = decrement_lem no_path no_path p c a refl h in
      (decrement cache (some p) c, rw (a.0, record_changed) (rw a.0 refl), r)
  moved (some p) (some q) known c a b s k h = elim (Bool-cases (bytes_eq p q)) [
    | inl t ↦
        let same : p ≡ q = (bytes_eq_iff p q).0 t in
        rw (a.0, b.0, record_changed, t)
          (refresh_lem q known c b s (k q (ap some same) refl) (
            cancelled q c
              (subst (λ (x : Bytes). IsOff (off_by (some q)) (off_by (some x)) c) same h)))
    | inr t ↦ rw (a.0, b.0, record_changed, t) (moved_on p q known c a b s t h)
  ]

  abbrev pub AreNormal : List Book → Type 0
  AreNormal = All (λ b. IsNormal b.cover_path)

  -- What the books and the counts keep.
  pub record IsKept (c : Covers) : Type 0 where
    pub is_counted : IsCounted c
    pub distinct_books : DistinctBooks c.books
    pub normal : AreNormal c.books

  kept_of :
      (books : List Book) {o : Outcome StatisticsError Covers}
      → DistinctBooks books
      → AreNormal books
      → Good (Keeps no_path no_path books) o
      → Good IsKept o
  kept_of books d n (c, e, (h, same)) = (
    c,
    e,
    record {
      is_counted = h;
      distinct_books = subst DistinctBooks (sym same) d;
      normal = subst AreNormal (sym same) n;
    },
  )

  still_shown :
      (i : ℕ) (old new : Option Bytes) (c : Covers)
      → IsKept c
      → cover_of i c.books ≡ some old
      → (path : Bytes) → old ≡ some path
      → new ≡ some path
      → 0 < count_references path (set_cover_path i new c.books)
  still_shown i old new c k e path a b =
      let shown : (o : Option Bytes) → o ≡ some path → shows path o ≡ true =
        λ o x. ap (shows path) x ∙ bytes_eq_refl path in
      let h = count-set_cover_path i new old path c.books k.distinct_books e in
      let h' : count_references path (set_cover_path i new c.books) + 1
          ≡ count_references path c.books + 1 =
        rw (shown old a, shown new b) at h in
      omega (arith, count_references-pos i path c.books e (shown old a))

  set-IsOff :
      (i : ℕ) (old new : Option Bytes) (c : Covers)
      → IsKept c
      → cover_of i c.books ≡ some old
      → IsOff (off_by new) (off_by old) (record c { books = set_cover_path i new c.books })
  set-IsOff i old new c k e = record {
    counted = λ p. omega (
      arith,
      (k.is_counted).counted p,
      off_by_lem old p,
      off_by_lem new p,
      count-set_cover_path i new old p c.books k.distinct_books e,
    );
    summed = (k.is_counted).summed;
    distinct = (k.is_counted).distinct;
  }

  update_book-IsKept :
      (i : ℕ) (old new : Option Bytes) (known : Option ℕ) (c : Covers)
      → IsKept c
      → cover_of i c.books ≡ some old
      → IsNormal new
      → IsOnDisk new known
      → Good IsKept (update_book cache i old new known c)
  unfolding update_book
  update_book-IsKept i old new known c k e n s =
      let books = set_cover_path i new c.books in
      let c' = record c { books = books } in
      kept_of books (set_cover_path-DistinctBooks i new c.books k.distinct_books)
        (set_cover_path-All IsNormal i new c.books k.normal n)
        (moved old new known c' (cover_of-All IsNormal i c.books k.normal e) n s
          (still_shown i old new c k e) (set-IsOff i old new c k e))

  added_first :
      (i : ℕ) (new : Option Bytes) (bs : List Book)
      → cover_of i bs ≡ none
      → set_cover_path i new (record { id = i; cover_path = none } ∷ bs)
        ≡ record { id = i; cover_path = new } ∷ bs
  unfolding set_cover_path
  added_first i new bs e = rw ((==_iff i i).1 refl, set_cover_path-lacking i new bs e) refl

  added-IsOff :
      (i : ℕ) (new : Option Bytes) (c : Covers)
      → IsKept c
      → IsOff (off_by new) no_path (record c {
        books = record { id = i; cover_path = new } ∷ c.books;
        book_count = c.book_count +ℤ pos 1;
      })
  unfolding count_references
  added-IsOff i new c k = record {
    counted = λ p. omega (arith, (k.is_counted).counted p, off_by_lem new p);
    summed = (k.is_counted).summed;
    distinct = (k.is_counted).distinct;
  }

  added :
      (new : Option Bytes) (known : Option ℕ) (c : Covers)
      → IsNormal new
      → IsOnDisk new known
      → IsOff (off_by new) no_path c
      → Good (Keeps no_path no_path c.books) (increment cache new known c)
  unfolding increment
  added none known c n s h = (c, refl, (h, refl))
  added (some q) known c n s h = increment_lem no_path no_path q known c n s h

  insert_book-IsKept :
      (i : ℕ) (new : Option Bytes) (known : Option ℕ) (c : Covers)
      → IsKept c
      → cover_of i c.books ≡ none
      → IsNormal new
      → IsOnDisk new known
      → Good IsKept (insert_book cache i new known c)
  unfolding insert_book
  insert_book-IsKept i new known c k e n s = rw (added_first i new c.books e) (
      kept_of (record { id = i; cover_path = new } ∷ c.books) (e, k.distinct_books) (n, k.normal)
        (added new known c'' n s (added-IsOff i new c k)))
    where
      c'' : Covers
      c'' = record c {
        books = record { id = i; cover_path = new } ∷ c.books;
        book_count = c.book_count +ℤ pos 1;
      }

  pub store_book-IsKept :
      (i : ℕ) (new : Option Bytes) (known : Option ℕ) (c : Covers)
      → IsKept c
      → IsNormal new
      → IsOnDisk new known
      → Good IsKept (store_book cache i new known c)
  unfolding store_book
  store_book-IsKept i new known c k n s = elim (Option-cases (cover_of i c.books)) [
    | inl e ↦ rw (e, store_book) (insert_book-IsKept i new known c k e n s)
    | inr (old, e) ↦ rw (e, store_book) (update_book-IsKept i old new known c k e n s)
  ]

  abbrev pub AreStored : List Write → Type 0
  AreStored [] = Unit
  AreStored ((i, path, known) ∷ rest) = (IsNormal path × IsOnDisk path known) × AreStored rest
