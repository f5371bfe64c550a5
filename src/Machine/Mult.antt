-- ===== src/Machine/Mult.antt =====
-- `Mult` of code/machine/mipssim.cc: a 64-bit product by shifts and additions of 32-bit words.
pub mod Loop
pub mod Product
use my_nachos.Shared.{
  ℕ, zero, suc, ◌+◌, ◌/◌, ◌%◌, Bool, true, false, not, ◌&&◌, ◌||◌, ◌==◌, ltb, leb, if◌then◌else◌,
}
use my_nachos.Machine.Words.{add32, neg32, not32, is_negative, shl32, sar32, sign_bit}

-- The variables of the main loop.
pub record Sum : Type 0 where
  pub a : ℕ
  pub b_lo : ℕ
  pub b_hi : ℕ
  pub lo : ℕ
  pub hi : ℕ

-- `lo += bLo; if (lo < bLo) hi += 1; hi += bHi`.
unfoldable pub accumulate : Sum → Sum
unfolding add32
accumulate s =
    let lo' = add32 s.lo s.b_lo in
    let carried = if ltb lo' s.b_lo then add32 s.hi 1 else s.hi in
    record s { lo = lo'; hi = add32 carried s.b_hi }

-- `bHi <<= 1; if (bLo & 0x80000000) bHi |= 1; bLo <<= 1; a >>= 1`, with `a` a signed integer.
unfoldable pub shift : Sum → Sum
unfolding shl32 sar32
shift s = record s {
  a = sar32 s.a 1;
  b_lo = shl32 s.b_lo 1;
  b_hi = if leb sign_bit s.b_lo then shl32 s.b_hi 1 + 1 else shl32 s.b_hi 1;
}

-- The loop, with the rounds left; `a & 0xfffffffe` is 0 if `a / 2` is.
unfoldable pub mult_loop : ℕ → Sum → Sum
mult_loop zero s = s
mult_loop (suc n) s =
    let odd = s.a % 2 == 1 in
    let summed = if odd then accumulate s else s in
    let rest = mult_loop n (shift summed) in if odd && s.a / 2 == 0 then summed else rest

-- The two's complement of the double word.
unfoldable pub negate : ℕ → ℕ → ℕ × ℕ
unfolding add32
negate hi lo =
    let lo' = add32 (not32 lo) 1 in (if lo' == 0 then add32 (not32 hi) 1 else not32 hi, lo')

-- `negative` after it was negated once for each negative factor.
abbrev pub differ : Bool → Bool → Bool
differ a b = if a then not b else b

-- The words `*hiPtr` and `*loPtr`.
unfoldable pub mult : ℕ → ℕ → Bool → ℕ × ℕ
mult a b signed_arith =
    let negative_a = signed_arith && is_negative a in
    let negative_b = signed_arith && is_negative b in
    let start : Sum = record {
      a = if negative_a then neg32 a else a;
      b_lo = if negative_b then neg32 b else b;
      b_hi = 0;
      lo = 0;
      hi = 0;
    } in
    let s = mult_loop 32 start in
    let negative = differ negative_a negative_b in
    if a == 0 || b == 0 then (0, 0) else if negative then negate s.hi s.lo else (s.hi, s.lo)
