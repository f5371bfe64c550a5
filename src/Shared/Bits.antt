-- ===== src/Shared/Bits.antt =====
-- Facts about `bit_and` and `bit_or` at variables: what each bit of the result is.
pub mod Digits
use Prim.Native.Nat.{bit_and, bit_or, bit_and-bitwise, bit_or-bitwise}
use Prim.Native.Nat.{ℕ, zero, suc, ◌+◌, ◌-◌, ◌*◌, ◌/◌, ◌%◌, ◌^◌, ◌≤◌, ◌<◌, min, max}
use mathlib.Core.Path.{◌≡◌, refl, ap, ◌∙◌}
use native.Mathlib.Omega.{arith}
use native.Mathlib.Nat.{pow-suc}
use my_nachos.Shared.Bits.Digits.{bitwise_step}
use my_nachos.Shared.Tests.{◌==◌, if◌then◌else◌}

pub pow_pos : (n : ℕ) → 0 < 2 ^ n
pow_pos zero = omega arith
pow_pos (suc n) = omega (arith, pow_pos n, pow-suc 2 n)

pub pow-lt : (n k : ℕ) → n < k → 2 ^ n < 2 ^ k
pow-lt zero zero h = absurd (omega arith)
pow-lt zero (suc k) h = omega (arith, pow_pos k, pow-suc 2 k)
pow-lt (suc n) zero h = absurd (omega arith)
pow-lt (suc n) (suc k) h = omega (arith, pow-lt n k (omega arith), pow-suc 2 n, pow-suc 2 k)

-- The bit of weight `2 ^ k`, as the number 0 or 1.
unfoldable pub bit_at : ℕ → ℕ → ℕ
bit_at x zero = x % 2
bit_at x (suc k) = bit_at (x / 2) k

pub bit_at-lt : (x k : ℕ) → bit_at x k < 2
unfolding bit_at
bit_at-lt x zero = omega arith
bit_at-lt x (suc k) = bit_at-lt (x / 2) k

pub bit_and_step : (a b : ℕ) → bit_and a b ≡ bit_and (a / 2) (b / 2) * 2 + min (a % 2) (b % 2)
bit_and_step a b =
    rw (bit_and-bitwise a b, bit_and-bitwise (a / 2) (b / 2))
      (bitwise_step (λ _. 0) min (λ y. omega arith) a b)

pub bit_or_step : (a b : ℕ) → bit_or a b ≡ bit_or (a / 2) (b / 2) * 2 + max (a % 2) (b % 2)
bit_or_step a b =
    rw (bit_or-bitwise a b, bit_or-bitwise (a / 2) (b / 2))
      (bitwise_step (λ y. y) max (λ y. omega arith) a b)

pub bit_at-bit_and : (x y k : ℕ) → bit_at (bit_and x y) k ≡ min (bit_at x k) (bit_at y k)
unfolding bit_at
bit_at-bit_and x y zero = omega (arith, bit_and_step x y)
bit_at-bit_and x y (suc k) =
    let half : bit_and x y / 2 ≡ bit_and (x / 2) (y / 2) = omega (arith, bit_and_step x y) in
    rw half (bit_at-bit_and (x / 2) (y / 2) k)

pub bit_at-bit_or : (x y k : ℕ) → bit_at (bit_or x y) k ≡ max (bit_at x k) (bit_at y k)
unfolding bit_at
bit_at-bit_or x y zero = omega (arith, bit_or_step x y)
bit_at-bit_or x y (suc k) =
    let half : bit_or x y / 2 ≡ bit_or (x / 2) (y / 2) = omega (arith, bit_or_step x y) in
    rw half (bit_at-bit_or (x / 2) (y / 2) k)

bit_at-zero : (k : ℕ) → bit_at 0 k ≡ 0
unfolding bit_at
bit_at-zero zero = refl
bit_at-zero (suc k) = bit_at-zero k

pub bit_at-pow : (b k : ℕ) → bit_at (2 ^ b) k ≡ (if b == k then 1 else 0)
unfolding bit_at
bit_at-pow zero zero = refl
bit_at-pow zero (suc k) = bit_at-zero k ∙ ground arith
bit_at-pow (suc b) zero = ground (arith, pow-suc 2 b)
bit_at-pow (suc b) (suc k) =
    let half : 2 ^ suc b / 2 ≡ 2 ^ b = omega (arith, pow-suc 2 b) in
    rw half (bit_at-pow b k ∙ ground arith)

pub bit_at-complement : (n x k : ℕ) → x < 2 ^ n → k < n → bit_at (2 ^ n - 1 - x) k ≡ 1 - bit_at x k
unfolding bit_at
bit_at-complement zero x k h lt = absurd (omega arith)
bit_at-complement (suc n) x zero h lt = omega (arith, pow-suc 2 n)
bit_at-complement (suc n) x (suc k) h lt =
    let half : (2 ^ suc n - 1 - x) / 2 ≡ 2 ^ n - 1 - x / 2 = omega (arith, pow-suc 2 n) in
    rw half (bit_at-complement n (x / 2) k (omega (arith, pow-suc 2 n)) (omega arith))

bit_and-zero : (a k : ℕ) → a ≤ k → bit_and a 0 ≡ 0
bit_and-zero zero k h = bit_and-bitwise 0 0
bit_and-zero (suc a) zero h = absurd (omega arith)
bit_and-zero (suc a) (suc k) h =
    omega (arith, bit_and_step (suc a) 0, bit_and-zero (suc a / 2) k (omega arith))

-- A word and a single bit: what `word & (1 << b)` is.
pub bit_and-pow : (x b : ℕ) → bit_and x (2 ^ b) ≡ 2 ^ b * bit_at x b
unfolding bit_at
bit_and-pow x zero = omega (arith, bit_and_step x 1, bit_and-zero (x / 2) x (omega arith))
bit_and-pow x (suc b) =
    let half : 2 ^ suc b / 2 ≡ 2 ^ b = omega (arith, pow-suc 2 b) in
    let rest : bit_and (x / 2) (2 ^ suc b / 2) ≡ 2 ^ b * bit_at (x / 2) b =
      rw half (bit_and-pow (x / 2) b) in
    let scaled : 2 ^ suc b * bit_at (x / 2) b ≡ 2 ^ b * 2 * bit_at (x / 2) b =
      ap (λ t. t * bit_at (x / 2) b) (pow-suc 2 b) in
    omega (arith, bit_and_step x (2 ^ suc b), rest, scaled, pow-suc 2 b)

pub bit_and-le : (x y k : ℕ) → x ≤ k → bit_and x y ≤ x
bit_and-le zero y k h = omega (arith, bit_and-bitwise 0 y)
bit_and-le (suc x) y zero h = absurd (omega arith)
bit_and-le (suc x) y (suc k) h =
    omega (arith, bit_and_step (suc x) y, bit_and-le (suc x / 2) (y / 2) k (omega arith))

pub bit_or-lt : (n x y : ℕ) → x < 2 ^ n → y < 2 ^ n → bit_or x y < 2 ^ n
bit_or-lt zero x y hx hy =
    let a : x ≡ 0 = omega arith in let b : y ≡ 0 = omega arith in rw (a, b) (omega arith)
bit_or-lt (suc n) x y hx hy = omega (
  arith,
  pow-suc 2 n,
  bit_or_step x y,
  bit_or-lt n (x / 2) (y / 2) (omega (arith, pow-suc 2 n)) (omega (arith, pow-suc 2 n)),
)

pub bit_and-le_right : (k x y : ℕ) → y ≤ k → bit_and x y ≤ y
bit_and-le_right k x zero h = omega (arith, bit_and-zero x x (omega arith))
bit_and-le_right zero x (suc y) h = absurd (omega arith)
bit_and-le_right (suc k) x (suc y) h =
    omega (arith, bit_and_step x (suc y), bit_and-le_right k (x / 2) (suc y / 2) (omega arith))
