-- ===== src/Base/Int.antt =====
-- Signed integers over the native numbers, and the values of Go's float64.
use Prim.Native.Nat.{ℕ, suc, ◌+◌, ◌≤◌}
use mathlib.Core.Path.{◌≡◌}
use mathlib.Core.Bool.{Bool, true, false}
use mathlib.Core.Logic.{◌↔◌}
use native.Mathlib.Omega.{arith}
use torx.Base.Tests.{ltb, ◌==◌}

-- `negsuc n` is -(n + 1).
pub data ℤ : Type 0 where
  pos : ℕ → ℤ
  negsuc : ℕ → ℤ

abbrev pub pos_part : ℤ → ℕ
pos_part (pos n) = n
pos_part (negsuc n) = 0

abbrev pub neg_part : ℤ → ℕ
neg_part (pos n) = 0
neg_part (negsuc n) = suc n

infix 50 ◌≤ℤ◌
abbrev pub ◌≤ℤ◌ : ℤ → ℤ → Type 0
a ≤ℤ b = pos_part a + neg_part b ≤ pos_part b + neg_part a

abbrev pub ltb_ℤ : ℤ → ℤ → Bool
ltb_ℤ a b = ltb (pos_part a + neg_part b) (pos_part b + neg_part a)

pub eq_of_parts : (a b : ℤ) → pos_part a + neg_part b ≡ pos_part b + neg_part a → a ≡ b
eq_of_parts a b h = ground arith

-- A float64 is not a number, an infinity, or a multiple of 2^-1074, which `finite` counts: every
-- finite float64 is one.
pub data Float : Type 0 where
  nan : Float
  minus_inf : Float
  plus_inf : Float
  finite : ℤ → Float

-- The order `<` of float64, false where a side is not a number.
abbrev pub float_lt : Float → Float → Bool
float_lt nan _ = false
float_lt minus_inf nan = false
float_lt minus_inf minus_inf = false
float_lt minus_inf plus_inf = true
float_lt minus_inf (finite b) = true
float_lt plus_inf _ = false
float_lt (finite a) nan = false
float_lt (finite a) minus_inf = false
float_lt (finite a) plus_inf = true
float_lt (finite a) (finite b) = ltb_ℤ a b

abbrev pub eqb_ℤ : ℤ → ℤ → Bool
eqb_ℤ (pos a) (pos b) = a == b
eqb_ℤ (negsuc a) (negsuc b) = a == b
eqb_ℤ _ _ = false

pub eqb_ℤ_iff : (a b : ℤ) → (eqb_ℤ a b ≡ true) ↔ (a ≡ b)
eqb_ℤ_iff a b = ground arith
