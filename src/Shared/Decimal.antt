-- ===== src/Shared/Decimal.antt =====
-- `fmt.Sprintf("%d", n)`: decimal text of an integer.
use Prim.Native.Nat.{ℕ, zero, suc, ◌/◌, ◌%◌, ◌<◌}
use Prim.Native.String
use Prim.Native.String.{String}
use mathlib.Core.Path.{◌≡◌}
use native.Mathlib.Omega.{arith}
use mathlib.Core.Bool.{Bool}
use zerogame.Shared.Booleans.{ltb, if◌then◌else◌}
use zerogame.Shared.Int.{ℤ, pos, negsuc}

abbrev pub cat : String → String → String
cat s t = String.◌++◌ s t

unfoldable pub digit : ℕ → String
digit zero = "0"
digit (suc zero) = "1"
digit (suc (suc zero)) = "2"
digit (suc (suc (suc zero))) = "3"
digit (suc (suc (suc (suc zero)))) = "4"
digit (suc (suc (suc (suc (suc zero))))) = "5"
digit (suc (suc (suc (suc (suc (suc zero)))))) = "6"
digit (suc (suc (suc (suc (suc (suc (suc zero))))))) = "7"
digit (suc (suc (suc (suc (suc (suc (suc (suc zero)))))))) = "8"
digit (suc (suc (suc (suc (suc (suc (suc (suc (suc n))))))))) = "9"

digits_on : ℕ → ℕ → String
unfolding digit
digits_on zero n = ""
digits_on (suc fuel) n = elim (ltb n 10) [
  | Bool.true ↦ digit n
  | Bool.false ↦ cat (digits_on fuel (n / 10)) (digit (n % 10))
]

-- More fuel than the number changes nothing.
digits_on_enough : (f k n : ℕ) → n < f → n < k → digits_on f n ≡ digits_on k n
unfolding digits_on
digits_on_enough zero k n h j = elim h [ ]
digits_on_enough (suc f) zero n h j = elim j [ ]
digits_on_enough (suc f) (suc k) n h j = ground (arith, digits_on_enough f k (n / 10))

unfoldable pub decimal : ℤ → String
unfolding digits_on
decimal (pos n) = digits_on (suc n) n
decimal (negsuc n) = cat "-" (digits_on (suc (suc n)) (suc n))

-- The fuel that `decimal` gives is enough: each digit but the last is the text of the tenth part.
pub decimal_step :
    (n : ℕ)
    → decimal (pos n)
      ≡ (if ltb n 10 then digit n else cat (decimal (pos (n / 10))) (digit (n % 10)))
unfolding decimal
decimal_step n = ground (arith, digits_on_enough n (suc (n / 10)) (n / 10))
