-- ===== src/Inpx/Text/Splitting.antt =====
-- libs/Inpx/InpxParser.cpp: what `SplitViews` gives, against a split that reads byte by byte.
use mathlib.Core.Option
use mathlib.Core.Path.{ap₂}
use librova_inpx_web.Common.{
  ℕ, zero, suc, ◌+◌, ◌-◌, ◌≤◌, ◌<◌, ◌≡◌, refl, ap, true, false, List, [], ◌∷◌, ◌++◌, Option, none,
  some, arith, ltb, ◌==◌, if◌then◌else◌, inl, inr, Bool-cases, Bytes, length, take, drop, take-nil,
  drop-drop, length-drop, ==_iff, le→leb,
}
use librova_inpx_web.Inpx.Text.{find_in, Split, push_part, split_from, split_views}
use librova_inpx_web.Inpx.Text.Find.{shift, find_byte_lem}

abbrev pub grow_first : ℕ → List Bytes → List Bytes
grow_first x [] = (x ∷ []) ∷ []
grow_first x (p ∷ ps) = (x ∷ p) ∷ ps

-- The parts of a string between separators: one more than it has separators.
pub fields : ℕ → Bytes → List Bytes
fields separator [] = [] ∷ []
fields separator (x ∷ xs) =
    let rest = fields separator xs in if x == separator then [] ∷ rest else grow_first x rest

pub join : ℕ → List Bytes → Bytes
join separator [] = []
join separator (p ∷ []) = p
join separator (p ∷ q ∷ ps) = p ++ separator ∷ join separator (q ∷ ps)

unfoldable pub IsCutAt : ℕ → Bytes → Option ℕ → Type 0
IsCutAt b xs none = fields b xs ≡ xs ∷ []
IsCutAt b xs (some r) = (fields b xs ≡ take r xs ∷ fields b (drop (suc r) xs)) × (r < length xs)

cut-suc :
    (b x : ℕ) (xs : Bytes) (o : Option ℕ)
    → (x == b) ≡ false
    → IsCutAt b xs o
    → IsCutAt b (x ∷ xs) (Option.map suc o)
unfolding IsCutAt fields
cut-suc b x xs none e h = rw (e, h)
cut-suc b x xs (some r) e h = (rw (e, h.0), omega (arith, h.1))

pub fields-cut : (b : ℕ) (xs : Bytes) → IsCutAt b xs (find_in b xs)
unfolding IsCutAt find_in fields
fields-cut b [] = refl
fields-cut b (x ∷ xs) = elim (Bool-cases (x == b)) [
  | inl e ↦ rw (e, find_in) (rw (e, fields), omega arith)
  | inr e ↦ rw (e, find_in) (cut-suc b x xs (find_in b xs) e (fields-cut b xs))
]

fields-inhabited : (b : ℕ) (xs : Bytes) → 0 < length (fields b xs)
unfolding fields
fields-inhabited b [] = omega arith
fields-inhabited b (x ∷ xs) = elim (Bool-cases (x == b)) [
  | inl e ↦ rw e (omega arith)
  | inr e ↦ rw e (grown (fields b xs))
]
  where
    grown : (ps : List Bytes) → 0 < length (grow_first x ps)
    grown [] = omega arith
    grown (p ∷ ps) = omega arith

-- The first parts, and whether there are more.
unfoldable pub capped : ℕ → List Bytes → Split
capped room ps = record { parts = take room ps; exceeded = ltb room (length ps) }

ltb-suc : (m n : ℕ) → ltb (suc m) (suc n) ≡ ltb m n
ltb-suc m n = ground arith

room_left : (room : ℕ) → false ≡ ltb (suc room) 1
room_left room = ground arith

at_cut :
    (room : ℕ) (value : Bytes) (b start : ℕ) (o : Option ℕ)
    → start ≤ length value
    → IsCutAt b (drop start value) o
    → ((start' : ℕ)
        → start' ≤ length value
        → split_from room value b start' ≡ capped room (fields b (drop start' value)))
    → elim (shift start o) [
      | none ↦ record { parts = drop start value ∷ []; exceeded = false }
      | some end ↦
          push_part (take (end - start) (drop start value)) (split_from room value b (end + 1))
    ]
      ≡ capped (suc room) (fields b (drop start value))
unfolding IsCutAt capped
at_cut room value b start none le h rest =
    rw (h, take-nil room)
      (ap (λ e. record { parts = drop start value ∷ []; exceeded = e }) (room_left room))
at_cut room value b start (some r) le h rest =
    rw
      (
        h.0,
        rest (start + r + 1) (omega (arith, h.1, length-drop start value)),
        drop-drop (suc r) start value,
      )
      (ap₂ (λ (p : Bytes) (q : Split). push_part p q)
        (ap (λ (k : ℕ). take k (drop start value)) (omega arith))
        (same_rest (start + r + 1) (start + suc r) (omega arith)))
  where
    same_rest :
        (m n : ℕ)
        → m ≡ n
        → ◌≡◌ {A = Split}
            (let ps = fields b (drop m value) in
              record { parts = take room ps; exceeded = ltb room (length ps) })
            (let qs = fields b (drop n value) in
              record { parts = take room qs; exceeded = ltb (suc room) (suc (length qs)) })
    same_rest m n e = rw (e, ltb-suc room (length (fields b (drop n value))))

split_from_lem :
    (room : ℕ) (value : Bytes) (b start : ℕ)
    → start ≤ length value
    → split_from room value b start ≡ capped room (fields b (drop start value))
unfolding split_from capped
split_from_lem zero value b start h =
    rw (le→leb start (length value) h, split_from)
      (more (length (fields b (drop start value))) (fields-inhabited b (drop start value)))
  where
    more :
        (n : ℕ)
        → 0 < n
        → ◌≡◌ {A = Split}
            (record { parts = []; exceeded = true })
            (record { parts = []; exceeded = ltb 0 n })
    more n h = ap (λ e. record { parts = []; exceeded = e }) (ground arith)
split_from_lem (suc room) value b start h =
    rw (le→leb start (length value) h, split_from, find_byte_lem value b start)
      (at_cut room value b start (find_in b (drop start value)) h (fields-cut b (drop start value))
        (split_from_lem room value b))

-- `SplitViews`, which searches from separator to separator, gives the parts between separators
-- in order, at most `max_parts` of them, and says whether there are more.
pub split_views_lem :
    (value : Bytes) (separator max_parts : ℕ)
    → split_views value separator max_parts ≡ capped max_parts (fields separator value)
unfolding split_views
split_views_lem value separator max_parts = split_from_lem max_parts value separator 0 (omega arith)

join-grow : (b x : ℕ) (ps : List Bytes) → 0 < length ps → join b (grow_first x ps) ≡ x ∷ join b ps
unfolding join
join-grow b x [] h = absurd (omega arith)
join-grow b x (p ∷ []) h = refl
join-grow b x (p ∷ q ∷ ps) h = refl

join-nil : (b : ℕ) (ps : List Bytes) → 0 < length ps → join b ([] ∷ ps) ≡ b ∷ join b ps
unfolding join
join-nil b [] h = absurd (omega arith)
join-nil b (p ∷ ps) h = refl

join-fields : (b : ℕ) (xs : Bytes) → join b (fields b xs) ≡ xs
unfolding fields join
join-fields b [] = refl
join-fields b (x ∷ xs) = elim (Bool-cases (x == b)) [
  | inl e ↦
      rw (e, join-nil b (fields b xs) (fields-inhabited b xs), join-fields b xs, (==_iff x b).0 e)
  | inr e ↦ rw (e, join-grow b x (fields b xs) (fields-inhabited b xs), join-fields b xs)
]
