-- ===== src/Machine/Words/Sign.antt =====
-- The sign bit of a word, `a & SIGN_BIT` and `(a ^ b) & SIGN_BIT` of code/machine/mipssim.cc, and the
-- ranges of the operations on words.
use Prim.Native.Nat.{bit_and, bit_xor, bit_xor-bitwise, differ}
use native.Mathlib.Nat.{pow-suc, pow-succ', div-div-eq-div-mul, pow-le-pow_right, div-lt_iff_lt-mul}
use my_nachos.Shared.{
  ℕ, zero, suc, ◌+◌, ◌*◌, ◌/◌, ◌%◌, ◌^◌, ◌≤◌, ◌<◌, ◌≡◌, ◌∙◌, sym, ap, ◌-◌, refl, not, leb, ◌==◌,
  if◌then◌else◌, arith, dec_lt,
}
use my_nachos.Shared.Bits.Digits.{bitwise_step}
use my_nachos.Shared.Bits.{bit_at, bit_and-pow, bit_and-le, bit_and-le_right, pow_pos}
use my_nachos.Machine.Words.{any_bit, sign_bit, is_negative, shl32, sar32}

bit_xor_step : (a b : ℕ) → bit_xor a b ≡ bit_xor (a / 2) (b / 2) * 2 + differ (a % 2) (b % 2)
bit_xor_step a b =
    rw (bit_xor-bitwise a b, bit_xor-bitwise (a / 2) (b / 2))
      (bitwise_step (λ y. y) differ (λ y. omega arith) a b)

differ_bits : (x y : ℕ) → x < 2 → y < 2 → differ x y ≡ (if x == y then 0 else 1)
differ_bits zero zero h k = refl
differ_bits zero (suc zero) h k = refl
differ_bits (suc zero) zero h k = refl
differ_bits (suc zero) (suc zero) h k = refl
differ_bits (suc (suc x)) y h k = absurd (omega arith)
differ_bits x (suc (suc y)) h k = absurd (omega arith)

bit_at-bit_xor : (x y k : ℕ) → bit_at (bit_xor x y) k ≡ (if bit_at x k == bit_at y k then 0 else 1)
unfolding bit_at
bit_at-bit_xor x y zero =
    ground (arith, bit_xor_step x y, differ_bits (x % 2) (y % 2) (omega arith) (omega arith))
bit_at-bit_xor x y (suc k) =
    let half : bit_xor x y / 2 ≡ bit_xor (x / 2) (y / 2) =
      ground (arith, bit_xor_step x y, differ_bits (x % 2) (y % 2) (omega arith) (omega arith)) in
    rw half (bit_at-bit_xor (x / 2) (y / 2) k)

top_bit : (n x : ℕ) → x < 2 ^ suc n → bit_at x n ≡ (if leb (2 ^ n) x then 1 else 0)
unfolding bit_at
top_bit zero x h = ground arith
top_bit (suc n) x h =
    ground (arith, top_bit n (x / 2) (omega (arith, pow-suc 2 (suc n))), pow-suc 2 n)

-- `a & SIGN_BIT` tests the sign.
pub any_bit-sign_bit : (a : ℕ) → a < 2 ^ 32 → any_bit a sign_bit ≡ is_negative a
any_bit-sign_bit a h = ground (arith, bit_and-pow a 31, top_bit 31 a h)

-- `(a ^ b) & SIGN_BIT` tests whether the signs differ.
pub any_bit-bit_xor :
    (a b : ℕ)
    → a < 2 ^ 32
    → b < 2 ^ 32
    → any_bit (bit_xor a b) sign_bit
      ≡ (if is_negative a then not (is_negative b) else is_negative b)
any_bit-bit_xor a b ha hb =
    ground
      (arith, bit_and-pow (bit_xor a b) 31, bit_at-bit_xor a b 31, top_bit 31 a ha, top_bit 31 b hb)

-- Bounds: every operation on words gives a word.
pub bit_xor-lt : (n x y : ℕ) → x < 2 ^ n → y < 2 ^ n → bit_xor x y < 2 ^ n
bit_xor-lt zero x y hx hy =
    let a : x ≡ 0 = omega arith in let b : y ≡ 0 = omega arith in rw (a, b) (omega arith)
bit_xor-lt (suc n) x y hx hy = ground (
  arith,
  pow-suc 2 n,
  bit_xor_step x y,
  differ_bits (x % 2) (y % 2) (omega arith) (omega arith),
  bit_xor-lt n (x / 2) (y / 2) (omega (arith, pow-suc 2 n)) (omega (arith, pow-suc 2 n)),
)

pub shr-lt : (k n a : ℕ) → k ≤ n → a < 2 ^ n → a / 2 ^ k < 2 ^ (n - k)
shr-lt zero n a h l =
    let whole : a / 1 ≡ a = omega arith in
    let all : n - 0 ≡ n = omega arith in rw all (omega (arith, whole))
shr-lt (suc k) zero a h l = absurd (omega arith)
shr-lt (suc k) (suc n) a h l =
    let halves : a / 2 ^ suc k ≡ a / 2 / 2 ^ k =
      ap (λ w. a / w) (pow-succ' 2 k) ∙ sym (div-div-eq-div-mul a 2 (2 ^ k)) in
    let down : suc n - suc k ≡ n - k = omega arith in
    rw (halves, down) (shr-lt k n (a / 2) (omega arith) (omega (arith, pow-suc 2 n)))

pow-le : (i j : ℕ) → i ≤ j → 2 ^ i ≤ 2 ^ j
pow-le i j h = pow-le-pow_right (omega arith) h

shr-large : (a k : ℕ) → 32 ≤ k → a < 2 ^ 32 → a / 2 ^ k < 1
shr-large a k h l = (div-lt_iff_lt-mul (pow_pos k)).1 (omega (arith, pow-le 32 k h))

pub sar32-lt : (a k : ℕ) → a < 2 ^ 32 → sar32 a k < 2 ^ 32
unfolding sar32
sar32-lt a k l = elim (dec_lt k 32) [
  | yes small ↦ ground (arith, shr-lt k 32 a (omega arith) l, pow-le (32 - k) 32 (omega arith))
  | no large ↦
      let one : 32 - k ≡ 0 = omega arith in rw one (ground (arith, shr-large a k (omega arith) l))
]

pub shl32-lt : (a k : ℕ) → shl32 a k < 2 ^ 32
unfolding shl32
shl32-lt a k = omega arith

pub and-lt : (a b : ℕ) → a < 2 ^ 32 → bit_and a b < 2 ^ 32
and-lt a b h = omega (arith, bit_and-le a b a (omega arith))

pub mask-lt : (a b : ℕ) → b < 2 ^ 32 → bit_and a b < 2 ^ 32
mask-lt a b h = omega (arith, bit_and-le_right b a b (omega arith))
