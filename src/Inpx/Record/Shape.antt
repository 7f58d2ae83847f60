-- ===== src/Inpx/Record/Shape.antt =====
-- libs/Inpx/InpxParser.cpp: the shape of the records that lines give.
use librova_inpx_web.Common.{
  ℕ, suc, ◌^◌, ◌≤◌, ◌<◌, ◌≡◌, refl, sym, ap, subst, Bool, List, [], ◌∷◌, ◌++◌, Option, none, some,
  some_inj, Outcome, ok, throw, >>=-eq-ok, ok_inj, arith, inl, inr, Bool-cases, Bytes, length, All,
}
use librova_inpx_web.Inpx.Text.{
  is_nil, trim_ascii, Split, split_views, split_non_empty, to_lower_ascii,
}
use librova_inpx_web.Inpx.Text.Find.{copy_text_lem}
use librova_inpx_web.Inpx.Text.Trimmed.{
  IsFilled, trim_ascii_again, length-split_views, split_non_empty_lem,
}
use librova_inpx_web.Inpx.Number.{try_parse_unsigned, try_parse_unsigned_bound}
use librova_inpx_web.Inpx.Record.{
  Author, Record, Message, many_authors, many_genres, many_keywords, invalid_file_size,
  invalid_deleted, max_authors, max_author_name_parts, max_genres, max_keywords, or_raw, display,
  part_or_empty, author_of, parse_author, add_author, parse_authors, check_fields, check_names,
  or_warn, deleted_value, check_extension, check_split, extension_or_fb2, title_or_name,
  read_record, field, Scalars, Lists, check_scalars, check_lists, build_record,
}

or_raw-IsFilled : (name raw : Bytes) → IsFilled (trim_ascii raw) → IsFilled (or_raw name raw)
or_raw-IsFilled [] raw h = h
or_raw-IsFilled (b ∷ bs) raw h = refl

author_of-IsFilled :
    (raw : Bytes) (parts : List Bytes)
    → IsFilled (trim_ascii raw)
    → IsFilled (author_of raw parts).display_name
author_of-IsFilled raw parts h =
    or_raw-IsFilled
      (display (part_or_empty parts 0) (part_or_empty parts 1) (part_or_empty parts 2)) raw h

parse_author-IsFilled :
    (raw : Bytes) {a : Author}
    → IsFilled (trim_ascii raw)
    → parse_author raw ≡ some a
    → IsFilled a.display_name
unfolding parse_author
parse_author-IsFilled raw {a} h e =
    elim (Bool-cases (split_views raw b',' max_author_name_parts).exceeded) [
      | inl f ↦ absurd (cc (rw f at e))
      | inr f ↦
          subst (λ x. IsFilled x.display_name) (some_inj (rw f at e))
            (author_of-IsFilled raw (split_views raw b',' max_author_name_parts).parts h)
    ]

pub AreAuthors : ℕ → List Author → Type 0
AreAuthors n authors = All (λ a. IsFilled a.display_name) authors × (length authors ≤ n)

add_author-AreAuthors :
    (o : Option Author) (rest : Outcome Message (List Author)) (n : ℕ) {authors : List Author}
    → ((a : Author) → o ≡ some a → IsFilled a.display_name)
    → ((found : List Author) → rest ≡ ok found → AreAuthors n found)
    → add_author o rest ≡ ok authors
    → AreAuthors (suc n) authors
unfolding AreAuthors
add_author-AreAuthors none rest n ha hr h = absurd (cc)
add_author-AreAuthors (some a) (throw m) n ha hr h = absurd (cc)
add_author-AreAuthors (some a) (ok found) n {authors} ha hr h =
    let (filled, le) = hr found refl in
    subst (AreAuthors (suc n)) (ok_inj h) ((ha a refl, filled), omega arith)

parse_authors-AreAuthors :
    (raws : List Bytes) (authors : List Author)
    → parse_authors raws ≡ ok authors
    → AreAuthors (length raws) authors
unfolding parse_authors AreAuthors
parse_authors-AreAuthors [] authors h = subst (AreAuthors 0) (ok_inj h) (tt, omega arith)
parse_authors-AreAuthors (raw ∷ raws) authors h = elim (Bool-cases (is_nil (trim_ascii raw))) [
  | inl e ↦
      let (filled, le) = parse_authors-AreAuthors raws authors (rw e at h) in (filled, omega arith)
  | inr e ↦
      add_author-AreAuthors (parse_author (trim_ascii raw)) (parse_authors raws) (length raws)
        (λ a. parse_author-IsFilled (trim_ascii raw) (trim_ascii_again raw e))
        (parse_authors-AreAuthors raws) (rw e at h)
]

-- What a record promises to the catalog.
pub record IsRecord (archive_name entry_name : Bytes) (r : Record) : Type 0 where
  pub named : IsFilled r.file_name
  pub identified : IsFilled r.lib_id
  pub titled : IsFilled r.title
  pub sized : r.file_size_bytes < 2 ^ 64
  pub extended : IsFilled r.file_extension
  pub addressed : r.entry_name ≡ r.file_name ++ b'.' ∷ r.file_extension
  pub placed : (r.archive_name ≡ archive_name) × (r.inp_entry_name ≡ entry_name)
  pub written : AreAuthors max_authors r.authors
  pub grouped : All IsFilled r.genres × (length r.genres ≤ max_genres)
  pub tagged : All IsFilled r.keywords × (length r.keywords ≤ max_keywords)

check_names-IsFilled :
    (file_name lib_id : Bytes) {names : Bytes × Bytes}
    → check_names file_name lib_id ≡ ok names
    → IsFilled names.0 × IsFilled names.1
unfolding check_names
check_names-IsFilled [] lib_id h = absurd (cc)
check_names-IsFilled (b ∷ bs) [] h = absurd (cc)
check_names-IsFilled (b ∷ bs) (c ∷ cs) h =
    (ap (λ n. is_nil n.0) (sym (ok_inj h)), ap (λ n. is_nil n.1) (sym (ok_inj h)))

or_warn-ok {ℓ} : {A : Type ℓ} (m : Message) (o : Option A) {a : A} → or_warn m o ≡ ok a → o ≡ some a
or_warn-ok m none h = absurd (cc)
or_warn-ok m (some a) h = ap some (ok_inj h)

check_split-ok :
    (m : Message) (s : Split) {parts : List Bytes} → check_split m s ≡ ok parts → s.parts ≡ parts
unfolding check_split
check_split-ok m s h = elim (Bool-cases s.exceeded) [
  | inl e ↦ absurd (cc (rw e at h))
  | inr e ↦ ok_inj (rw e at h)
]

extension_or_fb2-IsFilled : (extension : Bytes) → IsFilled (extension_or_fb2 extension)
unfolding extension_or_fb2
extension_or_fb2-IsFilled extension = elim (Bool-cases (is_nil (to_lower_ascii extension))) [
  | inl e ↦ rw e refl
  | inr e ↦ rw e e
]

title_or_name-IsFilled :
    (title file_name : Bytes) → IsFilled file_name → IsFilled (title_or_name title file_name)
unfolding title_or_name
title_or_name-IsFilled [] file_name h = rw (copy_text_lem file_name []).0 h
title_or_name-IsFilled (b ∷ bs) file_name h = refl

written_lem :
    (field : Bytes) (raws : List Bytes) (authors : List Author)
    → check_split many_authors (split_views field b':' max_authors) ≡ ok raws
    → parse_authors raws ≡ ok authors
    → AreAuthors max_authors authors
unfolding AreAuthors
written_lem field raws authors e f =
    let (filled, le) = parse_authors-AreAuthors raws authors f in
    let g =
      ap (λ (ps : List Bytes). length ps)
        (check_split-ok many_authors (split_views field b':' max_authors) e) in
    (filled, omega (arith, le, g, length-split_views field b':' max_authors))

listed_lem :
    (m : Message) (field : Bytes) (n : ℕ) (parts : List Bytes)
    → check_split m (split_non_empty field b':' n) ≡ ok parts
    → All IsFilled parts × (length parts ≤ n)
listed_lem m field n parts e =
    subst (λ (ps : List Bytes). All IsFilled ps × (length ps ≤ n))
      (check_split-ok m (split_non_empty field b':' n) e) (split_non_empty_lem field b':' n)

AreScalars : Scalars → Type 0
AreScalars s = IsFilled s.names.0 × IsFilled s.names.1 × (s.size < 2 ^ 64)

check_scalars-AreScalars :
    (fields : List Bytes) {s : Scalars} → check_scalars fields ≡ ok s → AreScalars s
unfolding check_scalars AreScalars
check_scalars-AreScalars fields h =
    let name = trim_ascii (field fields 5) in
    let id = trim_ascii (field fields 7) in
    let number = try_parse_unsigned (trim_ascii (field fields 6)) in
    let flag = deleted_value (trim_ascii (field fields 8)) in
    let (names, e1, h1) = >>=-eq-ok (check_names name id) _ h in
    let (size, e2, h2) = >>=-eq-ok (or_warn invalid_file_size number) _ h1 in
    let (deleted, e3, h3) = >>=-eq-ok (or_warn invalid_deleted flag) _ h2 in
    let (extension, e4, h4) = >>=-eq-ok (check_extension (trim_ascii (field fields 9))) _ h3 in
    let (has_name, has_id) = check_names-IsFilled name id e1 in
    subst AreScalars (ok_inj h4) (
      has_name,
      has_id,
      try_parse_unsigned_bound (trim_ascii (field fields 6))
          (or_warn-ok invalid_file_size number e2),
    )

AreLists : Lists → Type 0
AreLists l =
    AreAuthors max_authors l.people
    × (All IsFilled l.genre_list × (length l.genre_list ≤ max_genres))
    × (All IsFilled l.keyword_list × (length l.keyword_list ≤ max_keywords))

check_lists-AreLists : (fields : List Bytes) {l : Lists} → check_lists fields ≡ ok l → AreLists l
unfolding check_lists AreLists
check_lists-AreLists fields h =
    let authors = split_views (field fields 0) b':' max_authors in
    let genres = split_non_empty (field fields 1) b':' max_genres in
    let keywords = split_non_empty (field fields 13) b':' max_keywords in
    let (raws, e1, h1) = >>=-eq-ok (check_split many_authors authors) _ h in
    let (people, e2, h2) = >>=-eq-ok (parse_authors raws) _ h1 in
    let (genre_list, e3, h3) = >>=-eq-ok (check_split many_genres genres) _ h2 in
    let (keyword_list, e4, h4) = >>=-eq-ok (check_split many_keywords keywords) _ h3 in
    subst AreLists (ok_inj h4) (
      written_lem (field fields 0) raws people e1 e2,
      listed_lem many_genres (field fields 1) max_genres genre_list e3,
      listed_lem many_keywords (field fields 13) max_keywords keyword_list e4,
    )

build_record-IsRecord :
    (archive_name entry_name : Bytes) (fields : List Bytes) (s : Scalars) (l : Lists)
    → AreScalars s
    → AreLists l
    → IsRecord archive_name entry_name (build_record archive_name entry_name fields s l)
unfolding build_record AreScalars AreLists
build_record-IsRecord archive_name entry_name fields s l hs hl = record {
  named = hs.0;
  identified = hs.1;
  titled = title_or_name-IsFilled (trim_ascii (field fields 2)) s.names.0 hs.0;
  sized = hs.2;
  extended = extension_or_fb2-IsFilled s.extension;
  addressed = ap (λ n. n ++ b'.' ∷ extension_or_fb2 s.extension) (copy_text_lem s.names.0 []).1;
  placed = ((copy_text_lem archive_name []).0, (copy_text_lem entry_name []).0);
  written = hl.0;
  grouped = hl.1;
  tagged = hl.2;
}

-- Every record that a line gives has a file name, a book id and a title, a size that fits in 64
-- bits, the entry name `FileName.FileExt` with an extension that is not empty, the names of its
-- archive and its segment, authors that all have a display name, genres and keywords that are
-- not empty, and no more of each than the limits.
pub read_record-IsRecord :
    (archive_name entry_name line : Bytes) (r : Record) (ignored : Bool)
    → read_record archive_name entry_name line ≡ ok (r, ignored)
    → IsRecord archive_name entry_name r
unfolding read_record
read_record-IsRecord archive_name entry_name line r ignored h =
    let (fields, e0, h0) = >>=-eq-ok (check_fields line) _ h in
    let (s, e1, h1) = >>=-eq-ok (check_scalars fields) _ h0 in
    let (l, e2, h2) = >>=-eq-ok (check_lists fields) _ h1 in
    subst (λ (p : Record × Bool). IsRecord archive_name entry_name p.0) (ok_inj h2)
      (build_record-IsRecord archive_name entry_name fields s l (check_scalars-AreScalars fields e1)
        (check_lists-AreLists fields e2))
