-- ===== src/Base/Steps.antt =====
-- `bit_or` and `bit_and` by their lowest digit, without the fuel of their definition.
use Prim.Native.Nat.{
  ℕ, zero, suc, ◌+◌, ◌*◌, ◌/◌, ◌%◌, ◌≤◌, min, max, digits, bitwise, bit_and, bit_or,
  bit_and-bitwise, bit_or-bitwise,
}
use mathlib.Core.Path.{◌≡◌, refl, sym}
use native.Mathlib.Omega.{arith}

module _ (empty : ℕ → ℕ) (digit : ℕ → ℕ → ℕ) where
  -- More fuel than the number itself changes nothing.
  spare_fuel :
      (more x y fuel : ℕ)
      → x ≤ fuel
      → fuel ≤ more
      → digits empty digit fuel x y ≡ digits empty digit more x y
  spare_fuel zero zero y zero h l = refl
  spare_fuel (suc more) zero y (suc fuel) h l = refl
  spare_fuel (suc more) zero y zero h l = refl
  spare_fuel (suc more) (suc x) y (suc fuel) h l =
      let halved = spare_fuel more (suc x / 2) (y / 2) fuel (omega arith) (omega arith) in
      omega (arith, halved)
  spare_fuel more (suc x) y zero h l = absurd (omega arith)
  spare_fuel zero x y (suc fuel) h l = absurd (omega arith)

  lowest_digit :
      (x y : ℕ)
      → bitwise empty digit (suc x / 2) (y / 2) * 2 + digit (suc x % 2) (y % 2)
        ≡ bitwise empty digit (suc x) y
  lowest_digit x y =
      let halved = spare_fuel x (suc x / 2) (y / 2) (suc x / 2) (omega arith) (omega arith) in
      omega (arith, halved)

pub bit_and_step : (x y : ℕ) → bit_and x y ≡ bit_and (x / 2) (y / 2) * 2 + min (x % 2) (y % 2)
bit_and_step (suc x) y = simp bit_and-bitwise (sym (lowest_digit (λ _. 0) min x y))
bit_and_step zero y = simp bit_and-bitwise (omega arith)

pub bit_or_step : (x y : ℕ) → bit_or x y ≡ bit_or (x / 2) (y / 2) * 2 + max (x % 2) (y % 2)
bit_or_step (suc x) y = simp bit_or-bitwise (sym (lowest_digit (λ n. n) max x y))
bit_or_step zero y = simp bit_or-bitwise (omega arith)
