-- ===== src/Catalog/Covers.antt =====
-- libs/Database/CatalogStatisticsMaintenance.cpp: how many books show each cover file, and the
-- size of the cover cache, behind the writes of libs/App/InpxScanJobService.cpp.
pub mod Files
pub mod Balance
pub mod Books
pub mod Counted
pub mod Budget
use librova_inpx_web.Common.{
  ℕ, suc, ◌+◌, ◌-◌, ◌^◌, Bool, true, false, not, ◌&&◌, List, [], ◌∷◌, Option, none, some, Outcome,
  ok, throw, ◌>>=◌, ltb, ◌==◌, if◌then◌else◌, Bytes, bytes_eq,
}
use librova_inpx_web.Common.Int.{ℤ, pos, negsuc, ◌+ℤ◌, ◌-ℤ◌}

-- A row of `catalog_stat_cover_files`, and one of `inpx_books`.
pub record CoverFile : Type 0 where
  pub cover_path : Bytes
  pub reference_count : ℕ
  pub size_bytes : ℕ

pub record Book : Type 0 where
  pub id : ℕ
  pub cover_path : Option Bytes

-- The two tables, with `book_count` and `cover_cache_size_bytes` of `catalog_statistics`.
pub record Covers : Type 0 where
  pub files : List CoverFile
  pub books : List Book
  pub book_count : ℤ
  pub cover_cache_size_bytes : ℤ

-- `std::overflow_error` of `ToSqliteInt64`, and what `ValidateCoverCacheBudget` throws.
pub data StatisticsError : Type 0 where
  size_overflow cache_budget_exceeded : StatisticsError

-- `ToSqliteInt64`.
abbrev pub to_sqlite_int64 : ℕ → Outcome StatisticsError ℕ
to_sqlite_int64 n = if ltb n (2 ^ 63) then ok n else throw size_overflow

-- `SELECT ... FROM catalog_stat_cover_files WHERE cover_path = ?`; the column is the key.
pub find : Bytes → List CoverFile → Option CoverFile
find path [] = none
find path (f ∷ fs) = if bytes_eq f.cover_path path then some f else find path fs

-- An `UPDATE` and a `DELETE` with that condition.
pub change : Bytes → (CoverFile → CoverFile) → List CoverFile → List CoverFile
change path f [] = []
change path f (c ∷ cs) = (if bytes_eq c.cover_path path then f c else c) ∷ change path f cs

pub delete : Bytes → List CoverFile → List CoverFile
delete path [] = []
delete path (c ∷ cs) = if bytes_eq c.cover_path path then delete path cs else c ∷ delete path cs

-- `CountStoredCoverReferences`, and `UpdateBookCoverPath`.
abbrev pub shows : Bytes → Option Bytes → Bool
shows path none = false
shows path (some p) = bytes_eq p path

pub count_references : Bytes → List Book → ℕ
count_references path [] = 0
count_references path (b ∷ bs) =
    (if shows path b.cover_path then 1 else 0) + count_references path bs

pub set_cover_path : ℕ → Option Bytes → List Book → List Book
set_cover_path i path [] = []
set_cover_path i path (b ∷ bs) =
    (if b.id == i then record b { cover_path = path } else b) ∷ set_cover_path i path bs

-- `ReadExistingInpxBook`, where a book is named by what its LibId leads to.
pub cover_of : ℕ → List Book → Option (Option Bytes)
cover_of i [] = none
cover_of i (b ∷ bs) = if b.id == i then some b.cover_path else cover_of i bs

abbrev pub is_nil : Bytes → Bool
is_nil [] = true
is_nil (x ∷ xs) = false

-- The file system, and the paths of the standard library: `TryNormalizeCoverPath`, and
-- `GetCoverSize` of a file whose size is not known. `m_maxCoverCacheBytes` is the writer's limit.
pub record Cache : Type 0 where
  pub try_normalize : Bytes → Option Bytes
  pub is_file : Bytes → Bool
  pub file_size : Bytes → ℕ
  pub max_cover_cache_bytes : ℕ

-- A new row with its size in the statistics: the end of `IncrementCoverReference` and of
-- `RefreshCoverReferenceSize`.
abbrev pub insert_sized : Bytes → ℕ → Covers → ℕ → Covers
insert_sized path references c size = record c {
  files = record { cover_path = path; reference_count = references; size_bytes = size } ∷ c.files;
  cover_cache_size_bytes = c.cover_cache_size_bytes +ℤ pos size;
}

abbrev pub insert_file : Bytes → ℕ → Option ℕ → Covers → Outcome StatisticsError Covers
insert_file path references none c = ok c
insert_file path references (some size) c =
    to_sqlite_int64 size >>= λ n. ok (insert_sized path references c n)

-- `IncrementCoverReference`.
abbrev pub one_more : CoverFile → CoverFile
one_more f = record f { reference_count = suc f.reference_count }

-- `DecrementCoverReference`.
abbrev pub one_less : CoverFile → CoverFile
one_less f = record f { reference_count = f.reference_count - 1 }

abbrev pub decrement_at : Bytes → Option CoverFile → Covers → Covers
decrement_at path none c = c
decrement_at path (some f) c =
    if ltb 1 f.reference_count
    then record c { files = change path one_less c.files }
    else record c {
      files = delete path c.files;
      cover_cache_size_bytes = c.cover_cache_size_bytes -ℤ pos f.size_bytes;
    }

-- `RefreshCoverReferenceSize`.
abbrev pub resize : ℕ → CoverFile → CoverFile
resize n f = record f { size_bytes = n }

abbrev pub refresh_at : Bytes → ℕ → Option CoverFile → Covers → Outcome StatisticsError Covers
refresh_at path size (some f) c = to_sqlite_int64 size >>= λ n.
    if f.size_bytes == n
    then ok c
    else ok (record c {
      files = change path (resize n) c.files;
      cover_cache_size_bytes = c.cover_cache_size_bytes +ℤ (pos n -ℤ pos f.size_bytes);
    })
refresh_at path size none c =
    let references = count_references path c.books in
    if references == 0 then ok c else insert_file path references (some size) c

abbrev pub same_path : Option Bytes → Option Bytes → Bool
same_path none none = true
same_path (some p) (some q) = bytes_eq p q
same_path _ _ = false

-- A book, with its cover and the size of that where it is known.
abbrev pub Write : Type 0
Write = ℕ × Option Bytes × Option ℕ

module _ (cache : Cache) where
  -- `GetCoverSize`.
  abbrev pub cover_size : Bytes → Option ℕ → Option ℕ
  cover_size path none = if cache.is_file path then some (cache.file_size path) else none
  cover_size path (some n) = if cache.is_file path then some n else none

  abbrev pub normalized : Option Bytes → Option Bytes
  normalized none = none
  normalized (some path) = if is_nil path then none else cache.try_normalize path

  abbrev pub increment_at :
      Bytes → Option ℕ → Option CoverFile → Covers → Outcome StatisticsError Covers
  increment_at path known (some f) c = ok (record c { files = change path one_more c.files })
  increment_at path known none c = insert_file path 1 (cover_size path known) c

  abbrev pub increment_normal : Option Bytes → Option ℕ → Covers → Outcome StatisticsError Covers
  increment_normal none known c = ok c
  increment_normal (some path) known c = increment_at path known (find path c.files) c

  pub increment : Option Bytes → Option ℕ → Covers → Outcome StatisticsError Covers
  unfolding find change
  increment path known c = increment_normal (normalized path) known c

  abbrev pub decrement_normal : Option Bytes → Covers → Covers
  decrement_normal none c = c
  decrement_normal (some path) c = decrement_at path (find path c.files) c

  pub decrement : Option Bytes → Covers → Covers
  unfolding find change delete
  decrement path c = decrement_normal (normalized path) c

  abbrev pub refresh_sized : Bytes → Option ℕ → Covers → Outcome StatisticsError Covers
  refresh_sized path none c = ok c
  refresh_sized path (some size) c = refresh_at path size (find path c.files) c

  abbrev pub refresh_normal : Option Bytes → Option ℕ → Covers → Outcome StatisticsError Covers
  refresh_normal none known c = ok c
  refresh_normal (some path) known c = refresh_sized path (cover_size path known) c

  pub refresh : Option Bytes → Option ℕ → Covers → Outcome StatisticsError Covers
  unfolding find change count_references
  refresh path known c = refresh_normal (normalized path) known c

  -- `TryNormalizeCoverPath` where there is a path.
  abbrev pub try_normal : Option Bytes → Option Bytes
  try_normal none = none
  try_normal (some path) = cache.try_normalize path

  -- `RecordCoverPathChanged`.
  pub record_changed :
      Option Bytes → Option Bytes → Option ℕ → Covers → Outcome StatisticsError Covers
  unfolding increment decrement refresh
  record_changed old new known c =
      if same_path (try_normal old) (try_normal new)
      then refresh (try_normal new) known c
      else increment (try_normal new) known (decrement (try_normal old) c)

  -- `WriteParsedRecord`, as far as covers go: for a new book, and for one that is there.
  pub insert_book : ℕ → Option Bytes → Option ℕ → Covers → Outcome StatisticsError Covers
  unfolding increment set_cover_path
  insert_book i path known c = increment path known (record c {
    books = set_cover_path i path (record { id = i; cover_path = none } ∷ c.books);
    book_count = c.book_count +ℤ pos 1;
  })

  pub update_book :
      ℕ → Option Bytes → Option Bytes → Option ℕ → Covers → Outcome StatisticsError Covers
  unfolding record_changed set_cover_path
  update_book i old new known c =
      record_changed old new known (record c { books = set_cover_path i new c.books })

  abbrev pub write_found :
      ℕ → Option Bytes → Option ℕ → Option (Option Bytes) → Covers → Outcome StatisticsError Covers
  write_found i path known none c = insert_book i path known c
  write_found i path known (some old) c = update_book i old path known c

  pub store_book : ℕ → Option Bytes → Option ℕ → Covers → Outcome StatisticsError Covers
  unfolding insert_book update_book cover_of
  store_book i path known c = write_found i path known (cover_of i c.books) c

  -- `ValidateCoverCacheBudget`, at the end of both.
  abbrev pub is_over_budget : ℤ → Bool
  is_over_budget (pos n) = ltb cache.max_cover_cache_bytes n
  is_over_budget (negsuc n) = true

  pub validate_cover_cache_budget : Covers → Outcome StatisticsError Covers
  validate_cover_cache_budget c =
      if is_over_budget c.cover_cache_size_bytes then throw cache_budget_exceeded else ok c

  pub write_book : ℕ → Option Bytes → Option ℕ → Covers → Outcome StatisticsError Covers
  unfolding store_book validate_cover_cache_budget
  write_book i path known c = store_book i path known c >>= validate_cover_cache_budget

  -- The books of a scan, each with its cover and the size of that.
  pub write_books : List Write → Covers → Outcome StatisticsError Covers
  unfolding write_book
  write_books [] c = ok c
  write_books ((i, path, known) ∷ rest) c = write_book i path known c >>= write_books rest
