-- ===== src/Filename/Safe.antt =====
-- libs/Foundation/FilenamePolicy.cpp: characters, last character and length of a name.
use librova_inpx_web.Common.{
  ℕ, ◌≤◌, ◌<◌, ◌≡◌, refl, ◌⊎◌, inl, inr, false, ◌&&◌, [], ◌∷◌, map, ltb, ◌==◌, Bool-cases,
  Option-cases, arith, length, length-take, take, take-ge, All, All-take, if◌then◌else◌, Bytes,
}
use librova_inpx_web.Unicode.Trim.{try_trim}
use librova_inpx_web.Unicode.Trim.Laws.{try_trim-take}
use librova_inpx_web.Filename.{
  is_unsafe, replace_unsafe, trim_spaces, shorten, sanitize, is_empty, value_or, or_fallback,
}

abbrev pub AreSafe : Bytes → Type 0
AreSafe = All (λ b. is_unsafe b ≡ false)

-- The last character, if there is one, is no space.
abbrev pub EndsWell : Bytes → Type 0
EndsWell [] = Unit
EndsWell (b ∷ []) = (b == b' ') ≡ false
EndsWell (b ∷ c ∷ bs) = EndsWell (c ∷ bs)

replace_unsafe_safe : (b : ℕ) → is_unsafe (replace_unsafe b) ≡ false
unfolding replace_unsafe
replace_unsafe_safe b = ground arith

map-replace_unsafe-AreSafe : (s : Bytes) → AreSafe (map replace_unsafe s)
map-replace_unsafe-AreSafe [] = tt
map-replace_unsafe-AreSafe (b ∷ s) = (replace_unsafe_safe b, map-replace_unsafe-AreSafe s)

pub trim_spaces-All : (P : ℕ → Type 0) (s : Bytes) → All P s → All P (trim_spaces s)
unfolding trim_spaces
trim_spaces-All P [] h = tt
trim_spaces-All P (b ∷ s) h = elim (Bool-cases (is_empty (trim_spaces s) && b == b' ')) [
  | inl e ↦ rw e tt
  | inr e ↦ rw e (h.0, trim_spaces-All P s h.1)
]

trim_spaces-EndsWell : (s : Bytes) → EndsWell (trim_spaces s)
unfolding trim_spaces
trim_spaces-EndsWell [] = tt
trim_spaces-EndsWell (b ∷ s) = go (trim_spaces s) (trim_spaces-EndsWell s)
  where
    go : (r : Bytes) → EndsWell r → EndsWell (if is_empty r && b == b' ' then [] else b ∷ r)
    go [] h = elim (Bool-cases (b == b' ')) [ inl e ↦ rw e tt | inr e ↦ rw e e ]
    go (c ∷ r) h = h

trim_spaces-length : (s : Bytes) → length (trim_spaces s) ≤ length s
unfolding trim_spaces
trim_spaces-length [] = omega arith
trim_spaces-length (b ∷ s) = elim (Bool-cases (is_empty (trim_spaces s) && b == b' ')) [
  | inl e ↦ rw e (omega arith)
  | inr e ↦ rw e (omega (arith, trim_spaces-length s))
]

resized-take : (s : Bytes) → (n : ℕ) × (value_or (try_trim s) s ≡ take n s)
resized-take s = elim (Option-cases (try_trim s)) [
  | inl e ↦ (length s, rw (e, take-ge (length s) s (omega arith)))
  | inr (w, e) ↦ let (n, split) = try_trim-take s e in (n, rw (e, split))
]

-- A usable name under a limit on its bytes; 0 stands for no limit.
pub record IsSafeName (limit : ℕ) (name : Bytes) : Type 0 where
  pub not_empty : 0 < length name
  pub safe : AreSafe name
  pub ends_well : EndsWell name
  pub fits : 0 < limit → length name ≤ limit

-- The same, without the first field.
record IsShort (limit : ℕ) (name : Bytes) : Type 0 where
  safe : AreSafe name
  ends_well : EndsWell name
  fits : 0 < limit → length name ≤ limit

shorten-IsShort : (limit : ℕ) (s : Bytes) → AreSafe s → EndsWell s → IsShort limit (shorten limit s)
unfolding shorten
shorten-IsShort limit s safe ends = elim (Bool-cases (ltb 0 limit && ltb limit (length s))) [
  | inl e ↦
      let (n, split) = resized-take (take limit s) in
      rw (e, split)
        (record {
          safe = trim_spaces-All _ _ (All-take _ n _ (All-take _ limit s safe));
          ends_well = trim_spaces-EndsWell (take n (take limit s));
          fits = λ _. omega (
            arith,
            trim_spaces-length (take n (take limit s)),
            length-take n (take limit s),
            length-take limit s,
          );
        })
  | inr e ↦ rw e (record { safe = safe; ends_well = ends; fits = λ pos. ground arith })
]

is_empty-false : (s : Bytes) → is_empty s ≡ false → 0 < length s
is_empty-false [] h = absurd (cc)
is_empty-false (b ∷ s) h = omega arith

or_fallback-IsSafeName :
    (limit : ℕ) (s fallback : Bytes)
    → IsShort limit s
    → (or_fallback s fallback ≡ fallback) ⊎ IsSafeName limit (or_fallback s fallback)
or_fallback-IsSafeName limit [] fallback h = inl refl
or_fallback-IsSafeName limit (b ∷ s) fallback h =
    inr (record { not_empty = omega arith; safe = h.safe; ends_well = h.ends_well; fits = h.fits })

-- The result is the fallback, or a usable name: not empty, with no unsafe character, with no
-- space at its end, and within the limit.
pub sanitize-IsSafeName :
    (value : Bytes) (limit : ℕ) (fallback : Bytes)
    → (sanitize value limit fallback ≡ fallback) ⊎ IsSafeName limit (sanitize value limit fallback)
unfolding sanitize
sanitize-IsSafeName value limit fallback =
    elim (Bool-cases (is_empty (trim_spaces (map replace_unsafe value)))) [
      | inl e ↦ inl (rw e)
      | inr e ↦ rw e (
          or_fallback-IsSafeName limit _ fallback (
            shorten-IsShort limit _ (trim_spaces-All _ _ (map-replace_unsafe-AreSafe value))
              (trim_spaces-EndsWell (map replace_unsafe value))))
    ]

map-replace_unsafe_safe : (s : Bytes) → AreSafe s → map replace_unsafe s ≡ s
unfolding replace_unsafe
map-replace_unsafe_safe [] h = refl
map-replace_unsafe_safe (b ∷ s) h = rw (h.0, map-replace_unsafe_safe s h.1)

trim_spaces_well : (s : Bytes) → EndsWell s → trim_spaces s ≡ s
unfolding trim_spaces
trim_spaces_well [] h = refl
trim_spaces_well (b ∷ []) h = rw h
trim_spaces_well (b ∷ c ∷ s) h = rw (trim_spaces_well (c ∷ s) h)

shorten_fits : (limit : ℕ) (s : Bytes) → (0 < limit → length s ≤ limit) → shorten limit s ≡ s
unfolding shorten
shorten_fits limit s h = elim (Bool-cases (ltb 0 limit && ltb limit (length s))) [
  | inl e ↦ absurd (ground (arith, h))
  | inr e ↦ rw e
]

-- A usable name is kept as it is.
pub sanitize_safe :
    (value : Bytes) (limit : ℕ) (fallback : Bytes)
    → IsSafeName limit value
    → sanitize value limit fallback ≡ value
unfolding sanitize
sanitize_safe value limit fallback h =
    rw
      (
        map-replace_unsafe_safe value h.safe,
        trim_spaces_well value h.ends_well,
        shorten_fits limit value h.fits,
      )
      (kept value h.not_empty)
  where
    kept :
        (s : Bytes)
        → 0 < length s
        → (if is_empty s then fallback else if is_empty s then fallback else s) ≡ s
    kept [] h = absurd (omega arith)
    kept (b ∷ s) h = refl
