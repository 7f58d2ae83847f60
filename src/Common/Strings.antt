-- ===== src/Common/Strings.antt =====
-- Byte strings: a `std::string` or a `std::string_view` is the list of its bytes.
use Prim.Native.Nat.{ℕ, ◌*◌, ◌/◌, ◌%◌, ◌^◌, ◌<◌}
use Prim.Native.Char.{code}
use Prim.Native.String.{String}
use mathlib.Core.Path.{◌≡◌, refl}
use mathlib.Core.Logic.{◌↔◌}
use mathlib.Core.Bool.{Bool, true, false, ◌&&◌}
use mathlib.Core.List.{List, [], ◌∷◌, ◌++◌}
use native.Mathlib.Omega.{arith}
use librova_inpx_web.Common.Tests.{◌==◌, ltb}
use librova_inpx_web.Common.Lists.{All}

abbrev pub Bytes : Type 0
Bytes = List ℕ

abbrev pub IsBytes : Bytes → Type 0
IsBytes = All (λ b. b < 256)

-- The bytes of a literal; every literal below is ASCII.
abbrev pub codes : String → Bytes
codes String.[] = []
codes (String.◌∷◌ c s) = code c ∷ codes s

-- `x >> k`, `x << k` and `x & (2^k - 1)`; `|` of values with disjoint bits is their sum.
abbrev pub shr : ℕ → ℕ → ℕ
shr x k = x / 2 ^ k

abbrev pub shl : ℕ → ℕ → ℕ
shl x k = x * 2 ^ k

abbrev pub low_bits : ℕ → ℕ → ℕ
low_bits x k = x % 2 ^ k

-- A bound on every byte, by evaluation.
unfoldable pub all_lower : ℕ → Bytes → Bool
all_lower n [] = true
all_lower n (b ∷ bs) = ltb b n && all_lower n bs

pub all_lower_sound : (n : ℕ) (s : Bytes) → all_lower n s ≡ true → All (λ b. b < n) s
unfolding all_lower
all_lower_sound n [] h = tt
all_lower_sound n (b ∷ bs) h = (ground arith, all_lower_sound n bs (ground arith))

-- `left == right` on strings.
unfoldable pub bytes_eq : Bytes → Bytes → Bool
bytes_eq [] [] = true
bytes_eq (x ∷ xs) (y ∷ ys) = x == y && bytes_eq xs ys
bytes_eq _ _ = false

pub bytes_eq_iff : (xs ys : Bytes) → (bytes_eq xs ys ≡ true) ↔ (xs ≡ ys)
unfolding bytes_eq
bytes_eq_iff (x ∷ xs) (y ∷ ys) = ground (arith, bytes_eq_iff xs ys)
bytes_eq_iff _ _ = ground arith

-- `value.starts_with(prefix)`.
unfoldable pub starts_with : Bytes → Bytes → Bool
starts_with value [] = true
starts_with [] (y ∷ ys) = false
starts_with (x ∷ xs) (y ∷ ys) = x == y && starts_with xs ys

pub starts_with_iff :
    (value prefix : Bytes)
    → (starts_with value prefix ≡ true) ↔ ((rest : Bytes) × (value ≡ prefix ++ rest))
unfolding starts_with
starts_with_iff value [] = ((λ _. (value, refl)), λ _. refl)
starts_with_iff [] (y ∷ ys) = ((λ h. absurd (cc)), λ h. cc (h.1))
starts_with_iff (x ∷ xs) (y ∷ ys) = (
  (λ h. let (rest, e) = (starts_with_iff xs ys).0 (ground arith) in (rest, ground arith)),
  λ h. ground (arith, (starts_with_iff xs ys).1 (h.0, ground arith)),
)
