-- ===== src/Unicode/Normalize/Points.antt =====
-- libs/Foundation/UnicodeConversion.cpp: the same normalisation on code points, with no
-- accumulator and no bytes.
use librova_inpx_web.Common.{
  ℕ, ◌<◌, ◌≡◌, refl, sym, ap, ◌∙◌, ◌⊎◌, inl, inr, Bool, true, false, List, [], ◌∷◌, ◌++◌,
  append_assoc, append-nil, arith, ◌==◌, Bool-cases, Bool-absurd, ==_iff, length-append,
  if◌then◌else◌, All, Bytes, length,
}
use librova_inpx_web.Unicode.Utf8.{encode, encode_all}
use librova_inpx_web.Unicode.CaseFold.{is_whitespace, case_fold, folded_points}
use librova_inpx_web.Unicode.CaseFold.Stable.{IsFolded, folded_points-IsFolded, folded_points-fixed}
use librova_inpx_web.Unicode.Walk.{steps}
use librova_inpx_web.Unicode.Walk.Laws.{AreScalar, encode-pos}
use librova_inpx_web.Unicode.Normalize.{Normalizing, normalize_point, pop_space}

-- What the loop appends for these code points; the flag is `previousWasWhitespace`.
pub appended : Bool → List ℕ → List ℕ
appended previous [] = []
appended previous (c ∷ cs) =
    if is_whitespace c
    then (if previous then [] else b' ' ∷ []) ++ appended true cs
    else folded_points c ++ appended false cs

pub encode_all-append : (cs ds : List ℕ) → encode_all (cs ++ ds) ≡ encode_all cs ++ encode_all ds
encode_all-append [] ds = refl
encode_all-append (c ∷ cs) ds = rw (encode_all-append cs ds) (sym (append_assoc (encode c) _ _))

encode_space : encode_all (b' ' ∷ []) ≡ b' ' ∷ []
unfolding encode
encode_space = refl

normalize_point_whitespace :
    (out : Bytes) (previous : Bool) (c : ℕ)
    → is_whitespace c ≡ true
    → normalize_point (out, previous) c
      ≡ (out ++ encode_all (if previous then [] else b' ' ∷ []), true)
unfolding normalize_point
normalize_point_whitespace out true c h = rw (h, append-nil)
normalize_point_whitespace out false c h = rw (h, encode_space)

normalize_point_text :
    (out : Bytes) (previous : Bool) (c : ℕ)
    → is_whitespace c ≡ false
    → normalize_point (out, previous) c ≡ (out ++ encode_all (folded_points c), false)
unfolding normalize_point
normalize_point_text out previous c h = rw h

-- The loop appends the encoding of `appended` to what it holds.
pub steps-appended :
    (cs : List ℕ) (out : Bytes) (previous : Bool)
    → (steps normalize_point (out, previous) cs).0 ≡ out ++ encode_all (appended previous cs)
unfolding appended
steps-appended [] out previous = sym (append-nil out)
steps-appended (c ∷ cs) out previous = elim (Bool-cases (is_whitespace c)) [
  | inl w ↦
      ap rest (normalize_point_whitespace out previous c w)
      ∙ rw w (steps-appended cs _ true ∙ joined (if previous then [] else b' ' ∷ []) _)
  | inr w ↦
      ap rest (normalize_point_text out previous c w)
      ∙ rw w (steps-appended cs _ false ∙ joined (folded_points c) _)
]
  where
    rest : Normalizing → Bytes
    rest s = (steps normalize_point s cs).0

    joined :
        (xs ys : List ℕ) → (out ++ encode_all xs) ++ encode_all ys ≡ out ++ encode_all (xs ++ ys)
    joined xs ys = append_assoc out _ _ ∙ ap (◌++◌ out) (sym (encode_all-append xs ys))

-- Folded text with single spaces between the words, and none in front if the flag is set.
abbrev pub IsTidy : Bool → List ℕ → Type 0
IsTidy previous [] = Unit
IsTidy previous (c ∷ cs) =
    ((c ≡ b' ') × (previous ≡ false) × IsTidy true cs) ⊎ (IsFolded c × IsTidy false cs)

IsTidy-append : (xs ys : List ℕ) → All IsFolded xs → IsTidy false ys → IsTidy false (xs ++ ys)
IsTidy-append [] ys h t = t
IsTidy-append (x ∷ xs) ys h t = inr (h.0, IsTidy-append xs ys h.1 t)

folded_points-pos : (c : ℕ) → 0 < length (folded_points c)
unfolding folded_points
folded_points-pos c = elim (Bool-cases (case_fold c == 0xDF)) [
  | inl e ↦ rw e (omega arith)
  | inr e ↦ rw e (omega arith)
]

IsTidy-append_cons :
    (xs ys : List ℕ) (previous : Bool)
    → 0 < length xs
    → All IsFolded xs
    → IsTidy false ys
    → IsTidy previous (xs ++ ys)
IsTidy-append_cons [] ys previous pos h t = absurd (omega arith)
IsTidy-append_cons (x ∷ xs) ys previous pos h t = inr (h.0, IsTidy-append xs ys h.1 t)

pub appended-IsTidy :
    (cs : List ℕ) (previous : Bool) → AreScalar cs → IsTidy previous (appended previous cs)
unfolding appended
appended-IsTidy [] previous h = tt
appended-IsTidy (c ∷ cs) previous h = elim (Bool-cases (is_whitespace c)) [
  | inl w ↦ rw w (spaced previous (appended-IsTidy cs true h.1))
  | inr w ↦ rw w (
      IsTidy-append_cons (folded_points c) _ previous (folded_points-pos c)
        (folded_points-IsFolded c h.0 w) (appended-IsTidy cs false h.1))
]
  where
    spaced :
        (p : Bool)
        → IsTidy true (appended true cs)
        → IsTidy p ((if p then [] else b' ' ∷ []) ++ appended true cs)
    spaced true t = t
    spaced false t = inl (refl, refl, t)

space_is_whitespace : is_whitespace b' ' ≡ true
unfolding is_whitespace
space_is_whitespace = refl

-- Tidy text is normalised already.
pub appended_tidy : (cs : List ℕ) (previous : Bool) → IsTidy previous cs → appended previous cs ≡ cs
unfolding appended
appended_tidy [] previous t = refl
appended_tidy (c ∷ cs) previous (inl (e, p, t)) =
    rw (e, p, space_is_whitespace, appended_tidy cs true t)
appended_tidy (c ∷ cs) previous (inr (f, t)) =
    rw (f.0, folded_points-fixed c f, appended_tidy cs false t)

pub pop_space-IsTidy :
    (cs : List ℕ) (previous : Bool) → IsTidy previous cs → IsTidy previous (pop_space cs)
unfolding pop_space
pop_space-IsTidy [] previous t = tt
pop_space-IsTidy (c ∷ []) previous t = elim (Bool-cases (c == b' ')) [
  | inl e ↦ rw e tt
  | inr e ↦ rw e t
]
pop_space-IsTidy (c ∷ d ∷ cs) previous (inl (e, p, t)) =
    inl (e, p, pop_space-IsTidy (d ∷ cs) true t)
pop_space-IsTidy (c ∷ d ∷ cs) previous (inr (f, t)) = inr (f, pop_space-IsTidy (d ∷ cs) false t)

folded-ne-space : (c : ℕ) → IsFolded c → (c == b' ') ≡ false
folded-ne-space c f = elim (Bool-cases (c == b' ')) [
  | inl e ↦ Bool-absurd (is_whitespace c) (rw ((==_iff c b' ').0 e) space_is_whitespace) f.0
  | inr e ↦ e
]

-- A tidy list ends in one space at most.
pop_space_idem :
    (cs : List ℕ) (previous : Bool) → IsTidy previous cs → pop_space (pop_space cs) ≡ pop_space cs
unfolding pop_space
pop_space_idem [] previous t = refl
pop_space_idem (c ∷ []) previous t = elim (Bool-cases (c == b' ')) [
  | inl e ↦ rw e
  | inr e ↦ rw (e, e)
]
pop_space_idem (c ∷ d ∷ []) previous (inl (e, p, inl (_, q, _))) = absurd (cc)
pop_space_idem (c ∷ d ∷ []) previous (inl (e, p, inr (f, _))) =
    rw (folded-ne-space d f, folded-ne-space d f)
pop_space_idem (c ∷ d ∷ []) previous (inr (f, t)) = elim (Bool-cases (d == b' ')) [
  | inl e ↦ rw (e, folded-ne-space c f)
  | inr e ↦ rw (e, e)
]
pop_space_idem (c ∷ d ∷ e ∷ cs) previous (inl (_, _, t)) =
    ap (◌∷◌ c) (pop_space_idem (d ∷ e ∷ cs) true t)
pop_space_idem (c ∷ d ∷ e ∷ cs) previous (inr (_, t)) =
    ap (◌∷◌ c) (pop_space_idem (d ∷ e ∷ cs) false t)

-- The normal form: `appended`, less a space at the end.
pub normal_points : List ℕ → List ℕ
unfolding pop_space
normal_points cs = pop_space (appended true cs)

pub normal_points-IsTidy : (cs : List ℕ) → AreScalar cs → IsTidy true (normal_points cs)
unfolding normal_points
normal_points-IsTidy cs h = pop_space-IsTidy _ true (appended-IsTidy cs true h)

pub normal_points_idem :
    (cs : List ℕ) → AreScalar cs → normal_points (normal_points cs) ≡ normal_points cs
unfolding normal_points
normal_points_idem cs h =
    ap pop_space (appended_tidy _ true (normal_points-IsTidy cs h))
    ∙ pop_space_idem (appended true cs) true (appended-IsTidy cs true h)

pub normal_points_lem : (cs : List ℕ) → normal_points cs ≡ pop_space (appended true cs)
unfolding normal_points
normal_points_lem cs = refl

pub pop_space-normal_points :
    (cs : List ℕ) → AreScalar cs → pop_space (normal_points cs) ≡ normal_points cs
unfolding normal_points
pop_space-normal_points cs h = pop_space_idem (appended true cs) true (appended-IsTidy cs true h)

IsTidy-AreScalar : (cs : List ℕ) (previous : Bool) → IsTidy previous cs → AreScalar cs
IsTidy-AreScalar [] previous t = tt
IsTidy-AreScalar (c ∷ cs) previous (inl (e, _, t)) = (rw e refl, IsTidy-AreScalar cs true t)
IsTidy-AreScalar (c ∷ cs) previous (inr (f, t)) = (f.3, IsTidy-AreScalar cs false t)

pub normal_points-AreScalar : (cs : List ℕ) → AreScalar cs → AreScalar (normal_points cs)
normal_points-AreScalar cs h = IsTidy-AreScalar _ true (normal_points-IsTidy cs h)

pop_space-append :
    (xs : List ℕ) (y : ℕ) (ys : List ℕ) → pop_space (xs ++ (y ∷ ys)) ≡ xs ++ pop_space (y ∷ ys)
unfolding pop_space
pop_space-append [] y ys = refl
pop_space-append (x ∷ []) y ys = refl
pop_space-append (x ∷ z ∷ xs) y ys = ap (◌∷◌ x) (pop_space-append (z ∷ xs) y ys)

pop_space-append_pos : (xs ys : List ℕ) → 0 < length ys → pop_space (xs ++ ys) ≡ xs ++ pop_space ys
pop_space-append_pos xs [] h = absurd (omega arith)
pop_space-append_pos xs (y ∷ ys) h = pop_space-append xs y ys

pop_space-encode : (c : ℕ) → (c == b' ') ≡ false → pop_space (encode c) ≡ encode c
unfolding pop_space encode
pop_space-encode c h = ground arith

-- The last byte is a space only where the last code point is.
pub pop_space-encode_all : (cs : List ℕ) → pop_space (encode_all cs) ≡ encode_all (pop_space cs)
unfolding pop_space
pop_space-encode_all [] = refl
pop_space-encode_all (c ∷ []) = elim (Bool-cases (c == b' ')) [
  | inl e ↦ rw ((==_iff c b' ').0 e, encode_space)
  | inr e ↦ rw (e, append-nil) (pop_space-encode c e)
]
pop_space-encode_all (c ∷ d ∷ cs) =
    pop_space-append_pos (encode c) (encode_all (d ∷ cs))
      (omega (arith, encode-pos d, length-append (encode d) (encode_all cs)))
    ∙ ap (◌++◌ (encode c)) (pop_space-encode_all (d ∷ cs))
