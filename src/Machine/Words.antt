-- ===== src/Machine/Words.antt =====
-- The 32-bit integers of the simulator (code/machine/mipssim.cc), each as its bit pattern, a number
-- below `2 ^ 32`; an operation that differs for signed integers says so by its name.
pub mod Sign
use Prim.Native.Nat.{bit_and, bit_or, bit_xor}
use my_nachos.Shared.{
  ℕ, ◌+◌, ◌-◌, ◌*◌, ◌/◌, ◌%◌, ◌^◌, Bool, true, false, ltb, leb, ◌==◌, not, if◌then◌else◌,
}

abbrev pub u32_mod : ℕ
u32_mod = 2 ^ 32

-- `SIGN_BIT` of mipssim.h.
abbrev pub sign_bit : ℕ
sign_bit = 0x8000_0000

unfoldable pub add32 : ℕ → ℕ → ℕ
add32 a b = (a + b) % u32_mod

unfoldable pub sub32 : ℕ → ℕ → ℕ
sub32 a b = (a + u32_mod - b) % u32_mod

-- `~a` and `-a`.
abbrev pub not32 : ℕ → ℕ
not32 a = u32_mod - 1 - a

abbrev pub neg32 : ℕ → ℕ
neg32 a = (u32_mod - a) % u32_mod

-- `a < 0`, for a signed `a`.
abbrev pub is_negative : ℕ → Bool
is_negative a = leb sign_bit a

-- `a < b`, for signed integers.
unfoldable pub signed_lt : ℕ → ℕ → Bool
signed_lt a b = ltb ((a + sign_bit) % u32_mod) ((b + sign_bit) % u32_mod)

-- `a << k`.
unfoldable pub shl32 : ℕ → ℕ → ℕ
shl32 a k = a * 2 ^ k % u32_mod

-- `a >> k` of a signed integer, `k < 32`: copies of the sign come in.
unfoldable pub sar32 : ℕ → ℕ → ℕ
sar32 a k = a / 2 ^ k + (if is_negative a then u32_mod - 2 ^ (32 - k) else 0)

-- `(a & mask) != 0`.
abbrev pub any_bit : ℕ → ℕ → Bool
any_bit a mask = not (bit_and a mask == 0)
