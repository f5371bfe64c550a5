-- ===== src/Machine/Mult/Loop.antt =====
-- The loop of `Mult` of code/machine/mipssim.cc.
use my_nachos.Shared.{
  ℕ, zero, suc, ◌+◌, ◌-◌, ◌*◌, ◌/◌, ◌%◌, ◌^◌, ◌≤◌, ◌<◌, ◌≡◌, refl, ap, ◌==◌, arith, Bool-cases, inl,
  inr,
}
use native.Mathlib.Nat.{pow-suc}
use my_nachos.Machine.Words.{sar32}
use my_nachos.Machine.Mult.{Sum, accumulate, shift, mult_loop}

-- A double word.
abbrev pub double : ℕ → ℕ → ℕ
double hi lo = lo + 2 ^ 32 * hi

-- The `n` low bits of a word, as the loop reads them.
low : ℕ → ℕ → ℕ
low zero a = 0
low (suc n) a = a % 2 + 2 * low n (a / 2)

low-lt : (n a : ℕ) → a < 2 ^ n → low n a ≡ a
unfolding low
low-lt zero a h = omega arith
low-lt (suc n) a h = omega (arith, low-lt n (a / 2) (omega (arith, pow-suc 2 n)))

-- A bit above those does not count.
low-add_pow : (n k a : ℕ) → n ≤ k → low n (a + 2 ^ k) ≡ low n a
unfolding low
low-add_pow zero k a h = refl
low-add_pow (suc n) zero a h = absurd (omega arith)
low-add_pow (suc n) (suc k) a h =
    let half : (a + 2 ^ suc k) / 2 ≡ a / 2 + 2 ^ k = omega (arith, pow-suc 2 k) in
    rw half (omega (arith, low-add_pow n k (a / 2) (omega arith), pow-suc 2 k))

low-sar32 : (n a : ℕ) → n ≤ 31 → low n (sar32 a 1) ≡ low n (a / 2)
unfolding sar32
low-sar32 n a h = ground (arith, low-add_pow n 31 (a / 2) h)

abbrev total : Sum → ℕ
total s = double s.hi s.lo

abbrev addend : Sum → ℕ
addend s = double s.b_hi s.b_lo

record Words (s : Sum) : Type 0 where
  b_lo : s.b_lo < 2 ^ 32
  lo : s.lo < 2 ^ 32

total-accumulate :
    (s : Sum) → Words s → total s + addend s < 2 ^ 64 → total (accumulate s) ≡ total s + addend s
unfolding accumulate
total-accumulate s w h = ground arith

addend-shift : (s : Sum) → Words s → 2 * addend s < 2 ^ 64 → addend (shift s) ≡ 2 * addend s
unfolding shift
addend-shift s w h = ground arith

accumulate-Words : (s : Sum) → Words s → Words (accumulate s)
unfolding accumulate
accumulate-Words s w = ground arith

shift-Words : (s : Sum) → Words s → Words (shift s)
unfolding shift
shift-Words s w = ground arith

-- Once no bit is left, it does not matter that the addend overflows.
scaled :
    (r : ℕ) (s : Sum)
    → Words s
    → r * (2 * addend s) < 2 ^ 64
    → r * addend (shift s) ≡ r * (2 * addend s)
scaled zero s w h = omega arith
scaled (suc r) s w h =
    let small : 2 * addend s < 2 ^ 64 = grind arith in
    ap (λ (t : ℕ). suc r * t) (addend-shift s w small)

shift_keeps : (s : Sum) → (total (shift s) ≡ total s) × ((shift s).a ≡ sar32 s.a 1)
unfolding shift
shift_keeps s = (refl, refl)

accumulate_keeps : (s : Sum) → (addend (accumulate s) ≡ addend s) × ((accumulate s).a ≡ s.a)
unfolding accumulate
accumulate_keeps s = (refl, refl)

-- One round that goes on.
module _ (n : ℕ) (s : Sum) (fits : n ≤ 31) (w : Words s) where
  next_low : low n (shift s).a ≡ low n (s.a / 2)
  next_low = rw ((shift_keeps s).1) (low-sar32 n s.a fits)

  next_sum :
      total s + low n (s.a / 2) * (2 * addend s) < 2 ^ 64
      → total (shift s) + low n (shift s).a * addend (shift s)
        ≡ total s + low n (s.a / 2) * (2 * addend s)
  next_sum h =
      rw (next_low) (omega (arith, scaled (low n (s.a / 2)) s w (omega arith), (shift_keeps s).0))

low-zero : (n a : ℕ) → a ≡ 0 → low n a ≡ 0
unfolding low
low-zero zero a h = refl
low-zero (suc n) a h = omega (arith, low-zero n (a / 2) (omega arith))

abbrev Adds : Sum → ℕ → Sum → Type 0
Adds s r s' = (total s' ≡ total s + r * addend s) × Words s'

mult_loop-Adds :
    (n : ℕ) (s : Sum)
    → n ≤ 32
    → Words s
    → total s + low n s.a * addend s < 2 ^ 64
    → Adds s (low n s.a) (mult_loop n s)
unfolding mult_loop low
mult_loop-Adds zero s fits w h = (omega arith, w)
mult_loop-Adds (suc n) s fits w h = elim (Bool-cases (s.a % 2 == 1)) [
  | inl odd ↦
      let one : s.a % 2 ≡ 1 = ground arith in
      let t = accumulate s in
      let keeps = accumulate_keeps s in
      let expand : (s.a % 2 + 2 * low n (s.a / 2)) * addend s
          ≡ addend s + low n (s.a / 2) * (2 * addend s) =
        rw one (omega arith) in
      let sum = total-accumulate s w (omega (arith, expand)) in
      let tw = accumulate-Words s w in
      elim (Bool-cases (s.a / 2 == 0)) [
        | inl last ↦
            let none_left : low n (s.a / 2) ≡ 0 = low-zero n (s.a / 2) (ground arith) in
            let nothing : low n (s.a / 2) * (2 * addend s) ≡ 0 = rw none_left (omega arith) in
            rw (odd, last) (omega (arith, expand, sum, nothing), tw)
        | inr more ↦
            let same : low n (t.a / 2) * (2 * addend t) ≡ low n (s.a / 2) * (2 * addend s) =
              rw (keeps.1, keeps.0) in
            let next = next_sum n t (omega arith) tw (omega (arith, same, sum, expand)) in
            let rest =
              mult_loop-Adds n (shift t) (omega arith) (shift-Words t tw)
                (omega (arith, next, same, sum, expand)) in
            rw (odd, more) (omega (arith, rest.0, next, same, sum, expand), rest.1)
      ]
  | inr even ↦
      let none_now : s.a % 2 ≡ 0 = ground arith in
      let expand : (s.a % 2 + 2 * low n (s.a / 2)) * addend s ≡ low n (s.a / 2) * (2 * addend s) =
        rw none_now (omega arith) in
      let next = next_sum n s (omega arith) w (omega (arith, expand)) in
      let rest =
        mult_loop-Adds n (shift s) (omega arith) (shift-Words s w) (omega (arith, next, expand)) in
      rw even (omega (arith, rest.0, next, expand), rest.1)
]

abbrev pub start : ℕ → ℕ → Sum
start a b = record { a = a; b_lo = b; b_hi = 0; lo = 0; hi = 0 }

pub product-lt : (a b : ℕ) → a < 2 ^ 32 → b < 2 ^ 32 → a * b < 2 ^ 64
product-lt a b ha hb = let le : a * b ≤ a * (2 ^ 32 - 1) = grind arith in omega arith

-- The main loop multiplies.
pub loop_product :
    (a b : ℕ)
    → a < 2 ^ 32
    → b < 2 ^ 32
    → (total (mult_loop 32 (start a b)) ≡ a * b) × ((mult_loop 32 (start a b)).lo < 2 ^ 32)
loop_product a b ha hb =
    let whole : low 32 a ≡ a = low-lt 32 a ha in
    let same : low 32 a * addend (start a b) ≡ a * b = rw whole (omega arith) in
    let sum =
      mult_loop-Adds 32 (start a b) (omega arith) (record { b_lo = hb; lo = omega arith })
        (omega (arith, same, product-lt a b ha hb)) in
    (omega (arith, sum.0, same), sum.1.lo)
