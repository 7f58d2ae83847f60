-- ===== src/Auth/Equality.antt =====
-- libs/Server/AuthMiddleware.cpp: the comparison in constant time, against equality.
use Prim.Native.Nat.{bit_or, bit_xor, bit_or-bitwise, bit_xor-bitwise, digits, differ}
use librova_inpx_web.Common.{
  ℕ, zero, suc, ◌+◌, ◌/◌, ◌%◌, ◌≤◌, ◌<◌, max, ◌≡◌, refl, sym, ap, subst, ◌∙◌, ◌↔◌, ◌⊎◌, inl, inr,
  Bool, true, false, [], ◌∷◌, ◌++◌, Option, none, some, some_inj, ==_iff, if◌then◌else◌, arith,
  Bytes, length, get_or,
}
use mathlib.Core.Path.{ap₂}
use librova_inpx_web.Auth.{
  compare_bytes, constant_time_equals, authorized, authentication_failed, bearer, check_header,
  authorize,
}

abbrev xor_digits : ℕ → ℕ → ℕ → ℕ
xor_digits n a b = digits (λ b. b) differ n a b

abbrev or_digits : ℕ → ℕ → ℕ → ℕ
or_digits n a b = digits (λ b. b) max n a b

differ_zero : (x y : ℕ) → differ x y ≡ 0 → x ≡ y
differ_zero zero y h = sym h
differ_zero (suc x) zero h = absurd (omega arith)
differ_zero (suc x) (suc y) h = ap suc (differ_zero x y h)

differ_same : (x : ℕ) → differ x x ≡ 0
differ_same zero = refl
differ_same (suc x) = differ_same x

xor_digits_zero : (n a b : ℕ) → a ≤ n → xor_digits n a b ≡ 0 → a ≡ b
xor_digits_zero zero zero b le h = sym h
xor_digits_zero zero (suc a) b le h = absurd (omega arith)
xor_digits_zero (suc n) zero b le h = sym h
xor_digits_zero (suc n) (suc a) b le h =
    let half = xor_digits_zero n (suc a / 2) (b / 2) (omega arith) (omega (arith, h)) in
    let digit = differ_zero (suc a % 2) (b % 2) (omega (arith, h)) in omega (arith, half, digit)

xor_digits_same : (n a : ℕ) → a ≤ n → xor_digits n a a ≡ 0
xor_digits_same zero zero le = refl
xor_digits_same zero (suc a) le = absurd (omega arith)
xor_digits_same (suc n) zero le = refl
xor_digits_same (suc n) (suc a) le =
    omega (arith, xor_digits_same n (suc a / 2) (omega arith), differ_same (suc a % 2))

or_digits_zero : (n a b : ℕ) → a ≤ n → or_digits n a b ≡ 0 → (a ≡ 0) × (b ≡ 0)
or_digits_zero zero zero b le h = (refl, h)
or_digits_zero zero (suc a) b le h = absurd (omega arith)
or_digits_zero (suc n) zero b le h = (refl, h)
or_digits_zero (suc n) (suc a) b le h =
    let (half, half') = or_digits_zero n (suc a / 2) (b / 2) (omega arith) (omega (arith, h)) in
    (omega (arith, half, h), omega (arith, half', h))

bit_xor_zero : (a b : ℕ) → (bit_xor a b ≡ 0) ↔ (a ≡ b)
bit_xor_zero a b = (
  (λ h. xor_digits_zero a a b (omega arith) (sym (bit_xor-bitwise a b) ∙ h)),
  λ h.
      subst (λ (c : ℕ). bit_xor a c ≡ 0) h
        (bit_xor-bitwise a a ∙ xor_digits_same a a (omega arith)),
)

bit_or_zero : (a b : ℕ) → bit_or a b ≡ 0 → (a ≡ 0) × (b ≡ 0)
bit_or_zero a b h = or_digits_zero a a b (omega arith) (sym (bit_or-bitwise a b) ∙ h)

zero-bit_or : (b : ℕ) → bit_or 0 b ≡ b
zero-bit_or b = bit_or-bitwise 0 b

-- No difference is found exactly where there is none at any index looked at.
AreSameFrom : ℕ → ℕ → Bytes → Bytes → Type 0
AreSameFrom rounds index left right =
    (k : ℕ) → k < rounds → get_or left (index + k) 0 ≡ get_or right (index + k) 0

compare_bytes_zero :
    (rounds index difference : ℕ) (left right : Bytes)
    → compare_bytes rounds index difference left right ≡ 0
    → (difference ≡ 0) × AreSameFrom rounds index left right
unfolding compare_bytes AreSameFrom
compare_bytes_zero zero index difference left right h = (h, λ k lt. absurd (omega arith))
compare_bytes_zero (suc rounds) index difference left right h =
    let (e, rest) = compare_bytes_zero rounds (index + 1) _ left right h in
    let (d, x) = bit_or_zero difference _ e in (d, at_index ((bit_xor_zero _ _).0 x) rest)
  where
    at_index :
        get_or left index 0 ≡ get_or right index 0
        → ((k : ℕ) → k < rounds → get_or left (index + 1 + k) 0 ≡ get_or right (index + 1 + k) 0)
        → (k : ℕ) → k < suc rounds
        → get_or left (index + k) 0 ≡ get_or right (index + k) 0
    at_index first rest zero lt = let e : index + 0 ≡ index = omega arith in rw e first
    at_index first rest (suc k) lt =
        let e : index + suc k ≡ index + 1 + k = omega arith in rw e (rest k (omega arith))

compare_bytes_same : (rounds index : ℕ) (left : Bytes) → compare_bytes rounds index 0 left left ≡ 0
unfolding compare_bytes
compare_bytes_same zero index left = refl
compare_bytes_same (suc rounds) index left =
    let x = get_or left index 0 in
    rw (zero-bit_or (bit_xor x x), (bit_xor_zero x x).1 refl)
      (compare_bytes_same rounds (index + 1) left)

same_bytes :
    (xs ys : Bytes)
    → length xs ≡ length ys
    → ((k : ℕ) → k < length xs → get_or xs k 0 ≡ get_or ys k 0)
    → xs ≡ ys
same_bytes [] [] e h = refl
same_bytes [] (y ∷ ys) e h = absurd (omega arith)
same_bytes (x ∷ xs) [] e h = absurd (omega arith)
same_bytes (x ∷ xs) (y ∷ ys) e h =
    ap₂ (λ (b : ℕ) (bs : Bytes). b ∷ bs) (h 0 (omega arith))
      (same_bytes xs ys (omega arith) (λ k lt. h (suc k) (omega arith)))

at_zero :
    (left right : Bytes) (k : ℕ)
    → get_or left (0 + k) 0 ≡ get_or right (0 + k) 0
    → get_or left k 0 ≡ get_or right k 0
at_zero left right k h = let e : 0 + k ≡ k = omega arith in rw e at h

equals_itself : (left : Bytes) → constant_time_equals left left ≡ true
unfolding constant_time_equals
equals_itself left =
    let l = length left in
    (==_iff (compare_bytes (max l l) 0 (bit_xor l l) left left) 0).1
      (rw ((bit_xor_zero l l).1 refl) (compare_bytes_same (max l l) 0 left))

equals_sound : (left right : Bytes) → constant_time_equals left right ≡ true → left ≡ right
unfolding constant_time_equals AreSameFrom
equals_sound left right h =
    let rounds = max (length left) (length right) in
    let (d, same) =
      compare_bytes_zero rounds 0 (bit_xor (length left) (length right)) left right (
        (==_iff (compare_bytes rounds 0 (bit_xor (length left) (length right)) left right) 0).0
          h) in
    let len = (bit_xor_zero (length left) (length right)).0 d in
    same_bytes left right len (λ k lt. at_zero left right k (same k (omega arith)))

-- The comparison in constant time is equality of strings.
pub constant_time_equals_iff :
    (left right : Bytes) → (constant_time_equals left right ≡ true) ↔ (left ≡ right)
constant_time_equals_iff left right = (
  equals_sound left right,
  λ e. subst (λ (r : Bytes). constant_time_equals left r ≡ true) e (equals_itself left),
)

verdict : (b : Bool) → ((if b then authorized else authentication_failed) ≡ authorized) ↔ (b ≡ true)
verdict true = ((λ _. refl), λ _. refl)
verdict false = ((λ h. absurd (cc)), λ h. absurd (cc))

check_header_iff :
    (token header : Bytes)
    → (check_header token (some header) ≡ authorized) ↔ (header ≡ bearer ++ token)
unfolding check_header
check_header_iff token header =
    let same = constant_time_equals_iff header (bearer ++ token) in
    let given = verdict (constant_time_equals header (bearer ++ token)) in
    ((λ h. same.0 (given.0 h)), λ e. given.1 (same.1 e))

-- Without a token everyone is authorised. With one, exactly those are whose header is `Bearer`
-- and the token.
pub authorize_iff :
    (token : Bytes) (header : Option Bytes)
    → (authorize token header ≡ authorized) ↔ ((token ≡ []) ⊎ (header ≡ some (bearer ++ token)))
unfolding authorize
authorize_iff [] header = ((λ h. inl refl), λ h. refl)
authorize_iff (b ∷ bs) none =
    ((λ h. absurd (cc)), λ o. elim o [ inl e ↦ absurd (cc) | inr e ↦ absurd (cc) ])
authorize_iff (b ∷ bs) (some header) =
    let checked = check_header_iff (b ∷ bs) header in
    (
      (λ h. inr (ap some (checked.0 h))),
      λ o. elim o [ inl e ↦ absurd (cc) | inr e ↦ checked.1 (some_inj e) ],
    )
