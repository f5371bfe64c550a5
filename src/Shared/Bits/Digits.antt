-- ===== src/Shared/Bits/Digits.antt =====
-- One step of any operation on binary digits: the lowest digits, and the operation on the rest.
use Prim.Native.Nat.{ℕ, zero, suc, ◌+◌, ◌*◌, ◌/◌, ◌%◌, ◌≤◌, digits, bitwise}
use mathlib.Core.Path.{◌≡◌, refl, ap}
use native.Mathlib.Omega.{arith}

module _ (z : ℕ → ℕ) (op : ℕ → ℕ → ℕ) where
  -- How many digits there are to go does not matter, if they are enough for the first number.
  fuel_free : (x k l y : ℕ) → x ≤ k → x ≤ l → digits z op k x y ≡ digits z op l x y
  fuel_free zero zero zero y hk hl = refl
  fuel_free zero zero (suc l) y hk hl = refl
  fuel_free zero (suc k) zero y hk hl = refl
  fuel_free zero (suc k) (suc l) y hk hl = refl
  fuel_free (suc x) zero l y hk hl = absurd (omega arith)
  fuel_free (suc x) (suc k) zero y hk hl = absurd (omega arith)
  fuel_free (suc x) (suc k) (suc l) y hk hl =
      ap (λ r. r * 2 + op (suc x % 2) (y % 2))
        (fuel_free (suc x / 2) k l (y / 2) (omega arith) (omega arith))

  pub bitwise_step :
      ((y : ℕ) → z y ≡ z (y / 2) * 2 + op 0 (y % 2))
      → (x y : ℕ) → bitwise z op x y ≡ bitwise z op (x / 2) (y / 2) * 2 + op (x % 2) (y % 2)
  bitwise_step at_end zero y = at_end y
  bitwise_step at_end (suc x) y =
      ap (λ r. r * 2 + op (suc x % 2) (y % 2))
        (fuel_free (suc x / 2) x (suc x / 2) (y / 2) (omega arith) (omega arith))
