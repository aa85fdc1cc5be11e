-- ===== src/Shared/Int.antt =====
-- Go's signed integers: ℤ over the native numbers, its order, and the wrap-around of int32.
use Prim.Native.Nat.{ℕ, suc, ◌+◌, ◌-◌, ◌*◌, ◌%◌, ◌^◌, ◌≤◌, ◌<◌}
use mathlib.Core.Path.{◌≡◌, sym, ap}
use mathlib.Core.Logic.{◌≢◌}
use native.Mathlib.Omega.{arith}
use mathlib.Core.Bool.{Bool}
use native.Mathlib.Decide.{ℕ_discrete}
use zerogame.Shared.Booleans.{ltb, leb, if◌then◌else◌, Key}

-- `negsuc n` is -(n + 1).
pub data ℤ : Type 0 where
  pos : ℕ → ℤ
  negsuc : ℕ → ℤ

abbrev pub pos_part : ℤ → ℕ
pos_part (pos n) = n
pos_part (negsuc n) = 0

abbrev pub neg_part : ℤ → ℕ
neg_part (pos n) = 0
neg_part (negsuc n) = suc n

-- a - b, as an integer.
abbrev pub sub_ℕ : ℕ → ℕ → ℤ
sub_ℕ a b = if leb b a then pos (a - b) else negsuc (b - a - 1)

abbrev pub leb_ℤ : ℤ → ℤ → Bool
leb_ℤ a b = leb (pos_part a + neg_part b) (pos_part b + neg_part a)

abbrev pub ltb_ℤ : ℤ → ℤ → Bool
ltb_ℤ a b = ltb (pos_part a + neg_part b) (pos_part b + neg_part a)

infix 50 ◌≤ℤ◌
abbrev pub ◌≤ℤ◌ : ℤ → ℤ → Type 0
a ≤ℤ b = pos_part a + neg_part b ≤ pos_part b + neg_part a

negsuc_eq : (a b : ℕ) → suc a ≡ suc b → negsuc a ≡ negsuc b
negsuc_eq a b e = ground arith

pos-ne-negsuc : (a b : ℕ) → pos a ≢ negsuc b
pos-ne-negsuc a b e = cc

unfoldable pub ℤ_discrete : Discrete ℤ
unfolding ℕ_discrete negsuc_eq pos-ne-negsuc
ℤ_discrete (pos a) (pos b) = elim (ℕ_discrete a b) [
  | yes e ↦ yes (ap pos e)
  | no n ↦ no (λ e. n (ap pos_part e))
]
ℤ_discrete (negsuc a) (negsuc b) = elim (ℕ_discrete (suc a) (suc b)) [
  | yes e ↦ yes (negsuc_eq a b e)
  | no n ↦ no (λ e. n (ap neg_part e))
]
ℤ_discrete (pos a) (negsuc b) = no (pos-ne-negsuc a b)
ℤ_discrete (negsuc a) (pos b) = no (λ e. pos-ne-negsuc b a (sym e))

instance abbrev pub int_key : Key ℤ
int_key = record { dec = ℤ_discrete }

-- The sum of two int32 values, wrapped around to the int32 range.
unfoldable pub add_int32 : ℤ → ℤ → ℤ
add_int32 a b =
    let low = (2 ^ 32 * 2 + pos_part a + pos_part b - neg_part a - neg_part b) % 2 ^ 32 in
    if ltb low (2 ^ 31) then pos low else negsuc (2 ^ 32 - low - 1)

-- The range of an int32.
abbrev pub IsInt32 : ℤ → Type 0
IsInt32 a = (pos_part a < 2 ^ 31) × (neg_part a ≤ 2 ^ 31)
