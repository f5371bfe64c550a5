-- ===== src/BitMap.antt =====
-- code/userprog/bitmap.cc and bitmap.h: an array of bits, packed into 32-bit words.
pub mod Bits
pub mod Search
pub mod WordRange
use Prim.Native.Nat.{bit_and, bit_or}
use my_nachos.Shared.{
  ℕ, zero, suc, ◌+◌, ◌-◌, ◌/◌, ◌%◌, ◌^◌, Bool, true, false, not, Option, none, some, List, [], ◌∷◌,
  ltb, ◌==◌, if◌then◌else◌, set, elem, Result, ok, stop, ◌>>=◌, ◌>>◌, assert,
}

-- `divRoundUp` of utility.h.
abbrev pub div_round_up : ℕ → ℕ → ℕ
div_round_up n s = n / s + (if ltb 0 (n % s) then 1 else 0)

abbrev pub bits_in_word : ℕ
bits_in_word = 32

pub record BitMap : Type 0 where
  pub num_bits : ℕ
  pub num_words : ℕ
  pub map : List ℕ

-- `1 << b` and `~(1 << b)`, as unsigned words.
abbrev pub bit : ℕ → ℕ
bit b = 2 ^ b

abbrev pub not_bit : ℕ → ℕ
not_bit b = 2 ^ 32 - 1 - 2 ^ b

unfoldable pub mark : BitMap → ℕ → Result BitMap
mark m which = do
  assert (ltb which m.num_bits)
  word ← elem m.map (which / bits_in_word)
  ok (record m {
    map = set m.map (which / bits_in_word) (bit_or word (bit (which % bits_in_word)));
  })

unfoldable pub clear : BitMap → ℕ → Result BitMap
clear m which = do
  assert (ltb which m.num_bits)
  word ← elem m.map (which / bits_in_word)
  ok (record m {
    map = set m.map (which / bits_in_word) (bit_and word (not_bit (which % bits_in_word)));
  })

unfoldable pub test : BitMap → ℕ → Result Bool
test m which = do
  assert (ltb which m.num_bits)
  word ← elem m.map (which / bits_in_word)
  ok (not (bit_and word (bit (which % bits_in_word)) == 0))

-- `for (i = 0; i < numBits; i++) Clear(i)`, with the rounds left.
pub clear_from : ℕ → ℕ → BitMap → Result BitMap
clear_from zero i m = ok m
clear_from (suc n) i m = do m' ← clear m i; clear_from n (i + 1) m'

-- The constructor. `new unsigned int[numWords]` leaves the words as they are in memory, `words`.
unfoldable pub new_bit_map : List ℕ → ℕ → Result BitMap
unfolding clear_from
new_bit_map words nitems =
    clear_from nitems 0
      (record { num_bits = nitems; num_words = div_round_up nitems bits_in_word; map = words })

-- `Find`, with the rounds left; `none` is the -1 that it returns.
pub find_from : ℕ → ℕ → BitMap → Result (Option ℕ × BitMap)
find_from zero i m = ok (none, m)
find_from (suc n) i m = do
  used ← test m i
  let rest = find_from n (i + 1) m
  if used then rest else mark m i >>= λ m'. ok (some i, m')

unfoldable pub find : BitMap → Result (Option ℕ × BitMap)
unfolding find_from
find m = find_from m.num_bits 0 m

pub num_clear_from : ℕ → ℕ → ℕ → BitMap → Result ℕ
num_clear_from zero i count m = ok count
num_clear_from (suc n) i count m = do
  used ← test m i
  num_clear_from n (i + 1) (if used then count else count + 1) m

unfoldable pub num_clear : BitMap → Result ℕ
unfolding num_clear_from
num_clear m = num_clear_from m.num_bits 0 0 m
