-- ===== src/Catalog/Locations/Listed.antt =====
-- libs/App/InpxScanJobService.cpp, `CInpxCatalogStreamWriter::Finish`: the availability of each
-- book, against a description with no updates.
use librova_inpx_web.Common.{
  ℕ, ◌≡◌, refl, ap, sym, ◌∙◌, Bool, true, false, not, ◌&&◌, List, [], ◌∷◌, map, ◌==◌, if◌then◌else◌,
  Bytes, Bool-cases, inl, inr, arith,
}
use librova_inpx_web.Catalog.Locations.{
  available, missing_from_index, is_available, Location, Tables, any, was_not_seen, update, is_gone,
  set_gone, clear_gone, has_active_segment, is_deleted_later, is_to_mark, is_to_restore,
  set_availability, finish,
}

-- A book is still in its segment, if it was, unless the segment was read again without it.
abbrev pub is_kept : Bytes → List ℕ → Location → Bool
is_kept scan changed l =
    l.present_in_segment
    && not (any (◌==◌ l.segment_id) changed && was_not_seen scan l.last_seen_scan_id)

-- A book is listed if it is in its segment, the segment is active, and no active segment behind it
-- deletes the book.
abbrev pub is_listed : Bytes → List ℕ → Tables → Location → Bool
is_listed scan changed t l =
    is_kept scan changed l && (has_active_segment t l && not (is_deleted_later t l))

-- What a reader of the catalogue sees of a location.
abbrev pub View : Type 0
View = ℕ × ℕ × Bytes × Bool × Bool

abbrev pub view : Location → View
view l = (l.book_id, l.segment_id, l.lib_id, l.present_in_segment, is_available l.availability)

abbrev pub view_after : Bytes → ℕ → List ℕ → Tables → Location → View
view_after scan source changed t l = (
  l.book_id,
  l.segment_id,
  l.lib_id,
  is_kept scan changed l,
  if l.source_id == source then is_listed scan changed t l else is_available l.availability,
)

module _ {ℓ κ μ} {A : Type ℓ} {B : Type κ} {C : Type μ} where
  map-map : (g : B → C) (f : A → B) (xs : List A) → map g (map f xs) ≡ map (λ x. g (f x)) xs
  map-map g f [] = refl
  map-map g f (x ∷ xs) = ap (◌∷◌ (g (f x))) (map-map g f xs)

map_pointwise {ℓ κ} :
    {A : Type ℓ} {B : Type κ} (f g : A → B) (xs : List A)
    → ((x : A) → f x ≡ g x)
    → map f xs ≡ map g xs
map_pointwise f g [] h = refl
map_pointwise f g (x ∷ xs) h = λ i. h x i ∷ map_pointwise f g xs h i

map_same {ℓ} : {A : Type ℓ} (xs : List A) → map (λ x. x) xs ≡ xs
map_same [] = refl
map_same (x ∷ xs) = ap (◌∷◌ x) (map_same xs)

abbrev updated : (Location → Bool) → (Location → Location) → Location → Location
updated selected assign l = if selected l then assign l else l

update-eq-map :
    (selected : Location → Bool) (assign : Location → Location) (ls : List Location)
    → update selected assign ls ≡ map (updated selected assign) ls
unfolding update
update-eq-map selected assign [] = refl
update-eq-map selected assign (l ∷ ls) =
    ap (◌∷◌ (updated selected assign l)) (update-eq-map selected assign ls)

module _ (scan : Bytes) where
  abbrev lost : List ℕ → Location → Bool
  lost changed l =
      any (◌==◌ l.segment_id) changed
      && (l.present_in_segment && was_not_seen scan l.last_seen_scan_id)

  abbrev cleared : List ℕ → Location → Location
  cleared changed l = if lost changed l then set_gone scan l else l

  cleared_step :
      (segment : ℕ) (changed : List ℕ) (l : Location)
      → cleared changed (updated (is_gone scan segment) (set_gone scan) l)
        ≡ cleared (segment ∷ changed) l
  unfolding any
  cleared_step segment changed l = elim (Bool-cases (is_gone scan segment l)) [
    | inl e ↦
        let c1 : lost changed (set_gone scan l) ≡ false = ground arith in
        let c2 : lost (segment ∷ changed) l ≡ true = ground arith in rw (e, c1, c2) refl
    | inr e ↦
        let c : lost changed l ≡ lost (segment ∷ changed) l = ground arith in
        rw e (ap (λ b. if b then set_gone scan l else l) c)
  ]

  clear_gone-eq-map :
      (changed : List ℕ) (ls : List Location)
      → clear_gone scan changed ls ≡ map (cleared changed) ls
  unfolding clear_gone any
  clear_gone-eq-map [] ls = sym (map_same ls)
  clear_gone-eq-map (segment ∷ changed) ls =
      rw (update-eq-map (is_gone scan segment) (set_gone scan) ls) (
        clear_gone-eq-map changed (map (updated (is_gone scan segment) (set_gone scan)) ls)
        ∙ map-map (cleared changed) (updated (is_gone scan segment) (set_gone scan)) ls
        ∙ map_pointwise _ _ ls (cleared_step segment changed))

  abbrev settled : ℕ → Tables → Location → Location
  settled source t l =
      updated (is_to_restore t source) (set_availability available scan)
        (updated (is_to_mark t source) (set_availability missing_from_index scan) l)

  -- What the subqueries ask is not touched.
  not_restored :
      (source : ℕ) (t : Tables) (l : Location)
      → is_to_mark t source l ≡ true
      → is_to_restore t source (set_availability missing_from_index scan l) ≡ false
  not_restored source t l m =
      let a : has_active_segment t (set_availability missing_from_index scan l)
          ≡ has_active_segment t l =
        active_same t l in
      let d : is_deleted_later t (set_availability missing_from_index scan l)
          ≡ is_deleted_later t l =
        deleted_same t l in
      rw (a, d) (ground arith)
    where
      active_same :
          (u : Tables) (k : Location)
          → has_active_segment u (set_availability missing_from_index scan k)
            ≡ has_active_segment u k
      active_same u k = unfold has_active_segment in refl

      deleted_same :
          (u : Tables) (k : Location)
          → is_deleted_later u (set_availability missing_from_index scan k) ≡ is_deleted_later u k
      deleted_same u k = unfold is_deleted_later in refl

  abbrev seen : Location → Bool → View
  seen l b = (l.book_id, l.segment_id, l.lib_id, l.present_in_segment, b)

  abbrev should_be : ℕ → Tables → Location → Bool
  should_be source t l =
      if l.source_id == source
      then l.present_in_segment && (has_active_segment t l && not (is_deleted_later t l))
      else is_available l.availability

  settled_lem :
      (source : ℕ) (t : Tables) (l : Location)
      → view (settled source t l) ≡ seen l (should_be source t l)
  settled_lem source t l = elim (Bool-cases (is_to_mark t source l)) [
    | inl m ↦
        let e : false ≡ should_be source t l = ground arith in
        rw (m, not_restored source t l m) (ap (seen l) e)
    | inr m ↦ elim (Bool-cases (is_to_restore t source l)) [
      | inl r ↦ let e : true ≡ should_be source t l = ground arith in rw (m, r) (ap (seen l) e)
      | inr r ↦
          let e : is_available l.availability ≡ should_be source t l = ground arith in
          rw (m, r) (ap (seen l) e)
    ]
  ]

  -- A location with this in place of its presence.
  abbrev with_kept : ℕ → Tables → Location → Bool → View
  with_kept source t l p = (
    l.book_id,
    l.segment_id,
    l.lib_id,
    p,
    if l.source_id == source
        then p && (has_active_segment t l && not (is_deleted_later t l))
        else is_available l.availability,
  )

  cleared_view :
      (source : ℕ) (changed : List ℕ) (t : Tables) (l : Location)
      → seen (cleared changed l) (should_be source t (cleared changed l))
        ≡ view_after scan source changed t l
  unfolding has_active_segment is_deleted_later
  cleared_view source changed t l = elim (Bool-cases (lost changed l)) [
    | inl e ↦
        let p : false ≡ is_kept scan changed l = ground arith in rw e (ap (with_kept source t l) p)
    | inr e ↦
        let p : l.present_in_segment ≡ is_kept scan changed l = ground arith in
        rw e (ap (with_kept source t l) p)
  ]

  after_lem :
      (source : ℕ) (changed : List ℕ) (t : Tables) (l : Location)
      → view (settled source t (cleared changed l)) ≡ view_after scan source changed t l
  after_lem source changed t l =
      settled_lem source t (cleared changed l) ∙ cleared_view source changed t l

-- What a reader sees after a scan is published: every location stands where it stood, a book is in
-- its segment unless the segment was read again without it, and a book of the scanned source can be
-- had exactly if it is in its segment, the segment is active, and no active segment of that source
-- with a higher order deletes it. Other sources are not touched.
pub finish_lem :
    (scan : Bytes) (source : ℕ) (changed : List ℕ) (t : Tables)
    → map view (finish scan source changed t).0.locations
      ≡ map (view_after scan source changed t) t.locations
unfolding finish
finish_lem scan source changed t =
    let kept = map (cleared scan changed) t.locations in
    let marked =
      map (updated (is_to_mark t source) (set_availability missing_from_index scan)) kept in
    rw
      (
        clear_gone-eq-map scan changed t.locations,
        update-eq-map (is_to_mark t source) (set_availability missing_from_index scan) kept,
        update-eq-map (is_to_restore t source) (set_availability available scan) marked,
      )
      (map-map view (updated (is_to_restore t source) (set_availability available scan)) marked
        ∙ map-map _ (updated (is_to_mark t source) (set_availability missing_from_index scan)) kept
        ∙ map-map _ (cleared scan changed) t.locations
        ∙ map_pointwise _ _ t.locations (after_lem scan source changed t))
