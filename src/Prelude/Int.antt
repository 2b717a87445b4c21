-- ===== src/Prelude/Int.antt =====
-- Signed integers over the native numbers, under the library's names (its ℤ stands on the unary ℕ).
use Prim.Native.Nat.{ℕ, ◌<◌, ◌^◌}
use mathlib.Core.Path.{◌≡◌}
use mathlib.Core.Logic.{◌↔◌}
use mathlib.Core.Bool.{Bool, true, false}
use native.Mathlib.Omega.{arith}
use recovery_stencil.Prelude.Tests.{ltb, ◌==◌ as nat_eq}

-- `negsuc n` is -(n + 1).
pub data ℤ : Type 0 where
  pos : ℕ → ℤ
  negsuc : ℕ → ℤ

-- The order and the equality of signed integers, as Boolean tests.
abbrev pub ltb_ℤ : ℤ → ℤ → Bool
ltb_ℤ (pos m) (pos n) = ltb m n
ltb_ℤ (pos m) (negsuc n) = false
ltb_ℤ (negsuc m) (pos n) = true
ltb_ℤ (negsuc m) (negsuc n) = ltb n m

infix 50 ◌==◌
abbrev pub ◌==◌ : ℤ → ℤ → Bool
pos m == pos n = nat_eq m n
pos m == negsuc n = false
negsuc m == pos n = false
negsuc m == negsuc n = nat_eq m n

pub ==_iff : (a b : ℤ) → ((a == b) ≡ true) ↔ (a ≡ b)
==_iff (pos m) (pos n) = ground arith
==_iff (pos m) (negsuc n) = ground arith
==_iff (negsuc m) (pos n) = ground arith
==_iff (negsuc m) (negsuc n) = ground arith

-- The values of Go's `int64`.
abbrev pub IsInt64 : ℤ → Type 0
IsInt64 (pos n) = n < 2 ^ 63
IsInt64 (negsuc n) = n < 2 ^ 63
