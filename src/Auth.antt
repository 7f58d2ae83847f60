-- ===== src/Auth.antt =====
-- libs/Server/AuthMiddleware.cpp: who may use the server.
pub mod Equality
use Prim.Native.Nat.{bit_or, bit_xor}
use librova_inpx_web.Common.{
  ℕ, zero, suc, ◌+◌, max, Bool, true, false, List, [], ◌∷◌, ◌++◌, Option, none, some, ◌==◌,
  if◌then◌else◌, Bytes, codes, length, get_or,
}

-- The loop of `ConstantTimeEquals`, with so many rounds to go; a byte beyond the end is 0.
pub compare_bytes : ℕ → ℕ → ℕ → Bytes → Bytes → ℕ
compare_bytes zero index difference left right = difference
compare_bytes (suc rounds) index difference left right =
    compare_bytes rounds (index + 1)
      (bit_or difference (bit_xor (get_or left index 0) (get_or right index 0))) left right

-- `ConstantTimeEquals`.
pub constant_time_equals : Bytes → Bytes → Bool
unfolding compare_bytes
constant_time_equals left right =
    compare_bytes (max (length left) (length right)) 0 (bit_xor (length left) (length right)) left
      right
    == 0

-- `SAuthResult`: authorised, or not for one of the two reasons.
pub data AuthResult : Type 0 where
  authorized authentication_required authentication_failed : AuthResult

abbrev pub bearer : Bytes
bearer = codes "Bearer "

pub check_header : Bytes → Option Bytes → AuthResult
unfolding constant_time_equals
check_header token none = authentication_required
check_header token (some header) =
    if constant_time_equals header (bearer ++ token) then authorized else authentication_failed

-- `Authorize`, with `TokenUtf8` and the header.
pub authorize : Bytes → Option Bytes → AuthResult
unfolding check_header
authorize [] header = authorized
authorize (b ∷ bs) header = check_header (b ∷ bs) header
