-- ===== src/Machine/Mult/Product.antt =====
-- `Mult` of code/machine/mipssim.cc, on unsigned and on signed integers.
use my_nachos.Shared.{
  ℕ, zero, suc, ◌-◌, ◌*◌, ◌%◌, ◌^◌, ◌<◌, ◌≡◌, ◌∙◌, ap, true, false, ◌||◌, ◌==◌, if◌then◌else◌,
  arith, Bool, ◌&&◌, Bool-cases, inl, inr,
}
use my_nachos.Machine.Words.{neg32, is_negative}
use my_nachos.Machine.Mult.{mult_loop, negate, differ, mult}
use my_nachos.Machine.Mult.Loop.{double, start, product-lt, loop_product}

zero_factor : (a b : ℕ) → (a == 0 || b == 0) ≡ true → a * b ≡ 0
zero_factor zero b h = omega arith
zero_factor (suc a) zero h = omega arith
zero_factor (suc a) (suc b) h = absurd (ground arith)

-- For two 32-bit words, the double word that unsigned Mult leaves is their product.
pub mult-unsigned :
    (a b : ℕ) → a < 2 ^ 32 → b < 2 ^ 32 → double (mult a b false).0 (mult a b false).1 ≡ a * b
unfolding mult
mult-unsigned a b ha hb = elim (Bool-cases (a == 0 || b == 0)) [
  | inl nothing ↦ rw nothing (omega (arith, zero_factor a b nothing))
  | inr some_bits ↦ rw some_bits ((loop_product a b ha hb).0)
]

negate_lem :
    (hi lo : ℕ)
    → double hi lo < 2 ^ 64
    → lo < 2 ^ 32
    → double (negate hi lo).0 (negate hi lo).1 ≡ (2 ^ 64 - double hi lo) % 2 ^ 64
unfolding negate
negate_lem hi lo h k = ground arith

-- The magnitude of a signed integer.
abbrev pub magnitude : ℕ → ℕ
magnitude a = if is_negative a then 2 ^ 32 - a else a

-- For two 32-bit words, the double word that signed Mult leaves is the 64-bit two's complement of
-- the product of the two signed integers.
pub mult-signed :
    (a b : ℕ)
    → a < 2 ^ 32
    → b < 2 ^ 32
    → double (mult a b true).0 (mult a b true).1 ≡ (
        if differ (is_negative a) (is_negative b)
        then (2 ^ 64 - magnitude a * magnitude b) % 2 ^ 64
        else magnitude a * magnitude b)
unfolding mult
mult-signed a b ha hb = elim (Bool-cases (a == 0 || b == 0)) [
  | inl nothing ↦
      let no_product : magnitude a * magnitude b ≡ 0 =
        zero_factor (magnitude a) (magnitude b) (ground arith) in
      rw (nothing, no_product) (ground arith)
  | inr some_bits ↦
      let (sum, small) = loop_product (magnitude a) (magnitude b) (ground arith) (ground arith) in
      let fits = product-lt (magnitude a) (magnitude b) (ground arith) (ground arith) in
      let s = mult_loop 32 (start (magnitude a) (magnitude b)) in
      let flipped = negate_lem s.hi s.lo (omega (arith, sum)) small in
      let ea : (if is_negative a then neg32 a else a) ≡ magnitude a = ground arith in
      let eb : (if is_negative b then neg32 b else b) ≡ magnitude b = ground arith in
      elim (Bool-cases (differ (is_negative a) (is_negative b))) [
        | inl opposite ↦
            rw (some_bits, ea, eb, opposite) (flipped ∙ ap (λ (t : ℕ). (2 ^ 64 - t) % 2 ^ 64) sum)
        | inr alike ↦ rw (some_bits, ea, eb, alike) sum
      ]
]

negate-lt : (hi lo : ℕ) → hi < 2 ^ 32 → ((negate hi lo).0 < 2 ^ 32) × ((negate hi lo).1 < 2 ^ 32)
unfolding negate
negate-lt hi lo h = ground arith

loop-lt :
    (a b : ℕ)
    → a < 2 ^ 32
    → b < 2 ^ 32
    → ((mult_loop 32 (start a b)).hi < 2 ^ 32) × ((mult_loop 32 (start a b)).lo < 2 ^ 32)
loop-lt a b ha hb =
    let (sum, small) = loop_product a b ha hb in (omega (arith, sum, product-lt a b ha hb), small)

-- Both words of a product are words.
pub mult-lt :
    (signed : Bool) (a b : ℕ)
    → a < 2 ^ 32
    → b < 2 ^ 32
    → ((mult a b signed).0 < 2 ^ 32) × ((mult a b signed).1 < 2 ^ 32)
unfolding mult
mult-lt signed a b ha hb = elim (Bool-cases (a == 0 || b == 0)) [
  | inl nothing ↦ rw nothing (omega arith, omega arith)
  | inr some_bits ↦
      let a' = if signed && is_negative a then neg32 a else a in
      let b' = if signed && is_negative b then neg32 b else b in
      let (hi_small, lo_small) = loop-lt a' b' (ground arith) (ground arith) in
      elim (Bool-cases (differ (signed && is_negative a) (signed && is_negative b))) [
        | inl opposite ↦ rw (some_bits, opposite) (negate-lt _ _ hi_small)
        | inr alike ↦ rw (some_bits, alike) (hi_small, lo_small)
      ]
]
