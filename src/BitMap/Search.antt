-- ===== src/BitMap/Search.antt =====
-- Find and NumClear of code/userprog/bitmap.cc: which bit is found, and how many are clear.
use my_nachos.Shared.{
  ℕ, zero, suc, ◌+◌, ◌-◌, ◌≤◌, ◌<◌, ◌≡◌, ap, refl, inl, inr, Option, none, some, ◌==◌,
  if◌then◌else◌, Result, ok, arith, Bool-cases, ℕ_discrete, ltb,
}
use native.Mathlib.Numerals.{add-one}
use my_nachos.BitMap.{BitMap, find_from, find, num_clear_from, num_clear}
use my_nachos.BitMap.Bits.{IsWellFormed, used, used-lt, Sets, test_lem, mark_lem}

-- What a search from bit `i` on can come to.
pub data Finds (m : BitMap) (i : ℕ) : Result (Option ℕ × BitMap) → Type 0 where
  full : ((j : ℕ) → i ≤ j → j < m.num_bits → used m j ≡ 1) → Finds m i (ok (none, m))
  found :
      (k : ℕ) (m' : BitMap)
      → i ≤ k
      → k < m.num_bits
      → used m k ≡ 0
      → ((j : ℕ) → i ≤ j → j < k → used m j ≡ 1)
      → Sets m k 1 m'
      → Finds m i (ok (some k, m'))

Finds-later :
    (m : BitMap) (i : ℕ) {r : Result (Option ℕ × BitMap)}
    → used m i ≡ 1
    → Finds m (i + 1) r
    → Finds m i r
Finds-later m i e (full all) = full λ j lo hi. elim (ℕ_discrete i j) [
  | yes same ↦ rw (← same) e
  | no other ↦ all j (omega arith) hi
]
Finds-later m i e (found k m' lo hi free below s) =
    found k m' (omega arith) hi free
      (λ j lo' hi'. elim (ℕ_discrete i j) [
        | yes same ↦ rw (← same) e
        | no other ↦ below j (omega arith) hi'
      ])
      s

find_from-Finds :
    (n i : ℕ) (m : BitMap) → IsWellFormed m → i + n ≡ m.num_bits → Finds m i (find_from n i m)
unfolding find_from
find_from-Finds zero i m w e = full (λ j lo hi. absurd (omega arith))
find_from-Finds (suc n) i m w e =
    let rest = find_from-Finds n (i + 1) m w (omega arith) in
    elim (Bool-cases (used m i == 1)) [
      | inl taken ↦ rw (test_lem m i w (omega arith), taken) (Finds-later m i (ground arith) rest)
      | inr free ↦
          let (m', done, s) = mark_lem m i w (omega arith) in
          rw (test_lem m i w (omega arith), free, done)
            (found i m' (omega arith) (omega arith) (ground (arith, used-lt m i))
              (λ j lo hi. absurd (omega arith)) s)
    ]

-- On a well-formed map Find either returns the least clear bit, having set that bit and no other,
-- or returns -1 with the map unchanged and no bit of the map is clear.
pub find-Finds : (m : BitMap) → IsWellFormed m → Finds m 0 (find m)
unfolding find
find-Finds m w = find_from-Finds m.num_bits 0 m w (omega arith)

-- How many of the bits below `n` are clear.
pub free_below : BitMap → ℕ → ℕ
free_below m zero = 0
free_below m (suc n) = free_below m n + (1 - used m n)

free_below-next :
    (m : BitMap) (i : ℕ)
    → (if used m i == 1 then free_below m i else free_below m i + 1) ≡ free_below m (i + 1)
unfolding free_below
free_below-next m i = rw (add-one i) (ground (arith, used-lt m i))

pub free_below_full : (m : BitMap) (n : ℕ) → ((j : ℕ) → j < n → used m j ≡ 1) → free_below m n ≡ 0
unfolding free_below
free_below_full m zero all = refl
free_below_full m (suc n) all =
    omega (arith, free_below_full m n (λ j lt. all j (omega arith)), all n (omega arith))

num_clear_from_lem :
    (n i k : ℕ) (m : BitMap)
    → IsWellFormed m
    → i + n ≡ k
    → k ≤ m.num_bits
    → num_clear_from n i (free_below m i) m ≡ ok (free_below m k)
unfolding num_clear_from
num_clear_from_lem zero i k m w e h = ap (λ (t : ℕ). ok (free_below m t)) (omega arith)
num_clear_from_lem (suc n) i k m w e h =
    let next : (if used m i == 1 then free_below m i else free_below m i + 1)
        ≡ free_below m (i + 1) =
      free_below-next m i in
    rw (test_lem m i w (omega arith), next) (num_clear_from_lem n (i + 1) k m w (omega arith) h)

-- On a well-formed map NumClear passes its assertions and returns the number of clear bits.
pub num_clear_lem : (m : BitMap) → IsWellFormed m → num_clear m ≡ ok (free_below m m.num_bits)
unfolding num_clear free_below
num_clear_lem m w = num_clear_from_lem m.num_bits 0 m.num_bits m w (omega arith) (omega arith)

-- Setting a bit changes the count by the difference.
pub free_below-Sets :
    (m m' : BitMap) (which v n : ℕ)
    → v < 2
    → Sets m which v m'
    → free_below m' n + (if ltb which n then v else 0)
      ≡ free_below m n + (if ltb which n then used m which else 0)
unfolding free_below
free_below-Sets m m' which v zero hv s = ground arith
free_below-Sets m m' which v (suc n) hv s =
    ground (arith, free_below-Sets m m' which v n hv s, s.bits n, used-lt m n, used-lt m which)
