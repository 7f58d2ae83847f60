-- ===== src/Catalog/Covers/Budget.antt =====
-- libs/App/InpxScanJobService.cpp: the books of a scan, under the limit on the cover cache.
use librova_inpx_web.Common.{
  ℕ, ◌<◌, ◌≤◌, ◌≡◌, refl, ap, Bool, true, false, List, [], ◌∷◌, ◌++◌, Option, ok, throw, ltb,
  if◌then◌else◌, Bytes, Bool-cases, inl, inr, ◌⊎◌, arith,
}
use librova_inpx_web.Common.Int.{pos}
use librova_inpx_web.Catalog.Covers.{
  Covers, cache_budget_exceeded, count_references, Cache, store_book, is_over_budget,
  validate_cover_cache_budget, write_book, Write, write_books,
}
use librova_inpx_web.Catalog.Covers.Files.{references, total}
use librova_inpx_web.Catalog.Covers.Balance.{IsCounted}
use librova_inpx_web.Catalog.Covers.Counted.{IsKept, store_book-IsKept, AreStored}

module _ (cache : Cache) where
  validate_lem :
      (c : Covers) (b : Bool)
      → IsCounted c
      → ltb cache.max_cover_cache_bytes (total c.files) ≡ b
      → validate_cover_cache_budget cache c ≡ (if b then throw cache_budget_exceeded else ok c)
  unfolding validate_cover_cache_budget
  validate_lem c b h e = rw (ap (is_over_budget cache) h.summed, e) refl

  write_book_lem :
      (i : ℕ) (path : Option Bytes) (known : Option ℕ) (c c' : Covers) (b : Bool)
      → store_book cache i path known c ≡ ok c'
      → IsCounted c'
      → ltb cache.max_cover_cache_bytes (total c'.files) ≡ b
      → write_book cache i path known c ≡ (if b then throw cache_budget_exceeded else ok c')
  unfolding write_book
  write_book_lem i path known c c' b s h e = rw s (validate_lem c' b h e)

  -- The writes end at a book whose cover is too much.
  pub record ExceedsBudget (start : Covers) (writes : List Write) : Type 0 where
    pub stored : List Write
    pub id : ℕ
    pub cover_path : Option Bytes
    pub cover_size : Option ℕ
    pub rest : List Write
    pub before : Covers
    pub after : Covers
    pub split : writes ≡ stored ++ (id, cover_path, cover_size) ∷ rest
    pub were_stored : write_books cache stored start ≡ ok before
    pub adds_up : store_book cache id cover_path cover_size before ≡ ok after
    pub is_counted : IsCounted after
    pub is_over : cache.max_cover_cache_bytes < total after.files
    pub is_refused : write_books cache writes start ≡ throw cache_budget_exceeded

  abbrev pub Written : Covers → List Write → Type 0
  Written start writes =
      ((c : Covers) × (write_books cache writes start ≡ ok c)
        × IsCounted c
        × (total c.files ≤ cache.max_cover_cache_bytes))
      ⊎ ExceedsBudget start writes

  refused_first :
      (i : ℕ) (path : Option Bytes) (known : Option ℕ) (rest : List Write) (c c' : Covers)
      → store_book cache i path known c ≡ ok c'
      → IsCounted c'
      → ltb cache.max_cover_cache_bytes (total c'.files) ≡ true
      → ExceedsBudget c ((i, path, known) ∷ rest)
  unfolding write_books
  refused_first i path known rest c c' s h e = record {
    stored = [];
    id = i;
    cover_path = path;
    cover_size = known;
    rest = rest;
    before = c;
    after = c';
    split = refl;
    were_stored = refl;
    adds_up = s;
    is_counted = h;
    is_over = ground arith;
    is_refused = rw (write_book_lem i path known c c' true s h e) refl;
  }

  extended :
      (i : ℕ) (path : Option Bytes) (known : Option ℕ) (rest : List Write) (c c' : Covers)
      → write_book cache i path known c ≡ ok c'
      → Written c' rest
      → Written c ((i, path, known) ∷ rest)
  unfolding write_books
  extended i path known rest c c' w (inl (end, e, h, le)) = inl (end, rw w e, h, le)
  extended i path known rest c c' w (inr x) = inr (record {
    stored = (i, path, known) ∷ x.stored;
    id = x.id;
    cover_path = x.cover_path;
    cover_size = x.cover_size;
    rest = x.rest;
    before = x.before;
    after = x.after;
    split = ap (λ (ws : List Write). (i, path, known) ∷ ws) x.split;
    were_stored = rw w x.were_stored;
    adds_up = x.adds_up;
    is_counted = x.is_counted;
    is_over = x.is_over;
    is_refused = rw w x.is_refused;
  })

  write_books_from :
      (writes : List Write) (c : Covers)
      → IsKept cache c
      → total c.files ≤ cache.max_cover_cache_bytes
      → AreStored cache writes
      → Written c writes
  unfolding write_books
  write_books_from [] c k le s = inl (c, refl, k.is_counted, le)
  write_books_from ((i, path, known) ∷ rest) c k le s =
      let (c', e, k') = store_book-IsKept cache i path known c k (s.0).0 (s.0).1 in
      elim (Bool-cases (ltb cache.max_cover_cache_bytes (total c'.files))) [
        | inl t ↦ inr (refused_first i path known rest c c' e k'.is_counted t)
        | inr f ↦
            extended i path known rest c c'
              (write_book_lem i path known c c' false e k'.is_counted f)
              (write_books_from rest c' k' (ground arith) s.1)
      ]

  abbrev pub empty : Covers
  empty = record { files = []; books = []; book_count = pos 0; cover_cache_size_bytes = pos 0 }

  -- From an empty catalogue, whatever books are written, in whatever order and however often each,
  -- with covers that are in normal form and on the disk, one of two things is so. Either the writes
  -- succeed, each cover file has as many references as there are books that show it, and the size
  -- of the cache is the sum of the sizes of the files in the table, where each stands once, within
  -- the limit. Or they fail because of the limit, at a book before which all was written, and with
  -- which the files, counted in the same way, have more bytes than the limit.
  pub write_books-IsCounted : (writes : List Write) → AreStored cache writes → Written empty writes
  unfolding references total count_references
  write_books-IsCounted writes s =
      write_books_from writes empty
        (record {
          is_counted = record { counted = λ p. refl; summed = refl; distinct = tt };
          distinct_books = tt;
          normal = tt;
        })
        (omega arith) s
