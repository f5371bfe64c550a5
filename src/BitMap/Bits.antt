-- ===== src/BitMap/Bits.antt =====
-- Mark, Clear, Test and the constructor of code/userprog/bitmap.cc, bit by bit.
use Prim.Native.Nat.{bit_and, bit_or}
use my_nachos.Shared.{
  ℕ, zero, suc, ◌+◌, ◌-◌, ◌/◌, ◌%◌, ◌^◌, ◌<◌, ◌≡◌, ◌∙◌, refl, List, get_elem?, some, ℕ_discrete,
  ◌==◌, if◌then◌else◌, length, get_or, set, length-set, get_elem?-eq-get_or, get_or-set_self,
  get_or-set_ne, ok, arith, lt→ltb,
}
use my_nachos.Shared.Bits.{bit_at, bit_at-lt, bit_at-bit_and, bit_at-bit_or, bit_at-pow}
use my_nachos.Shared.Bits.{bit_at-complement, bit_and-pow, pow_pos, pow-lt}
use my_nachos.BitMap.{BitMap, div_round_up, bits_in_word, mark, clear, test}
use my_nachos.BitMap.{clear_from, new_bit_map}

-- The words are there: `numWords` of them, enough for `numBits` bits.
pub record IsWellFormed (m : BitMap) : Type 0 where
  pub words : m.num_words ≡ div_round_up m.num_bits bits_in_word
  pub stored : length m.map ≡ m.num_words

-- The bit of a number, 1 for in use: what the map stands for.
unfoldable pub used : BitMap → ℕ → ℕ
used m j = bit_at (get_or m.map (j / 32) 0) (j % 32)

pub used-lt : (m : BitMap) (j : ℕ) → used m j < 2
unfolding used
used-lt m j = bit_at-lt _ (j % 32)

-- One bit is `v`, and all else is as it was.
pub record Sets (m : BitMap) (which v : ℕ) (m' : BitMap) : Type 0 where
  pub well_formed : IsWellFormed m'
  pub same_size : m'.num_bits ≡ m.num_bits
  pub bits : (j : ℕ) → used m' j ≡ (if j == which then v else used m j)

word_in : (m : BitMap) (which : ℕ) → IsWellFormed m → which < m.num_bits → which / 32 < length m.map
word_in m which w h = ground arith

module _ (m : BitMap) (which : ℕ) (w : IsWellFormed m) (h : which < m.num_bits) where
  read_word : get_elem? m.map (which / 32) ≡ some (get_or m.map (which / 32) 0)
  read_word = get_elem?-eq-get_or m.map (which / 32) 0 (word_in m which w h)

  pub test_lem : test m which ≡ ok (used m which == 1)
  unfolding test used
  test_lem = ground (
    arith,
    read_word,
    lt→ltb which m.num_bits h,
    bit_and-pow (get_or m.map (which / 32) 0) (which % 32),
    bit_at-lt (get_or m.map (which / 32) 0) (which % 32),
    pow_pos (which % 32),
  )

  -- Writing one word whose bits but one are the old ones.
  put_word :
      (word v : ℕ)
      → ((k : ℕ)
          → k < 32
          → bit_at word k ≡ (if which % 32 == k then v else bit_at (get_or m.map (which / 32) 0) k))
      → Sets m which v (record m { map = set m.map (which / 32) word })
  unfolding used
  put_word word v e = record {
    well_formed = ground (arith, w, length-set m.map (which / 32) word);
    same_size = refl;
    bits = λ j. elim (ℕ_discrete (which / 32) (j / 32)) [
      | yes same ↦
          ground
            (arith, e (j % 32), get_or-set_self m.map (which / 32) word 0 (word_in m which w h))
      | no other ↦ ground (arith, get_or-set_ne m.map (which / 32) (j / 32) word 0 other)
    ];
  }

  mask_lt : 2 ^ (which % 32) < 2 ^ 32
  mask_lt = pow-lt (which % 32) 32 (omega arith)

  -- Mark sets the bit and no other.
  pub mark_lem : (m' : BitMap) × (mark m which ≡ ok m') × Sets m which 1 m'
  unfolding mark
  mark_lem = (
    _,
    ground (arith, read_word, lt→ltb which m.num_bits h),
    put_word (bit_or (get_or m.map (which / 32) 0) (2 ^ (which % 32))) 1 λ k lt. ground (
      arith,
      bit_at-bit_or (get_or m.map (which / 32) 0) (2 ^ (which % 32)) k,
      bit_at-pow (which % 32) k,
      bit_at-lt (get_or m.map (which / 32) 0) k,
    ),
  )

  -- Clear resets the bit and no other.
  pub clear_lem : (m' : BitMap) × (clear m which ≡ ok m') × Sets m which 0 m'
  unfolding clear
  clear_lem = (
    _,
    ground (arith, read_word, lt→ltb which m.num_bits h),
    put_word (bit_and (get_or m.map (which / 32) 0) (2 ^ 32 - 1 - 2 ^ (which % 32))) 0 λ k lt.
        ground (
          arith,
          bit_at-bit_and (get_or m.map (which / 32) 0) (2 ^ 32 - 1 - 2 ^ (which % 32)) k,
          bit_at-complement 32 (2 ^ (which % 32)) k mask_lt lt,
          bit_at-pow (which % 32) k,
          bit_at-lt (get_or m.map (which / 32) 0) k,
        ),
  )

-- The constructor's loop clears the bits from `i` on, and leaves those below.
clear_from_lem :
    (n i : ℕ) (m : BitMap)
    → IsWellFormed m
    → i + n ≡ m.num_bits
    → ((j : ℕ) → j < i → used m j ≡ 0)
    → (m' : BitMap) × (clear_from n i m ≡ ok m')
      × IsWellFormed m'
      × (m'.num_bits ≡ m.num_bits)
      × ((j : ℕ) → j < m.num_bits → used m' j ≡ 0)
unfolding clear_from
clear_from_lem zero i m w e below = (m, refl, w, refl, λ j lt. below j (omega arith))
clear_from_lem (suc n) i m w e below =
    let (m1, done, s) = clear_lem m i w (omega arith) in
    let (m', rest, w', size, clean) =
      clear_from_lem n (i + 1) m1 s.well_formed (omega (arith, s.same_size))
        (λ j lt. ground (arith, s.bits j, below j)) in
    (m', rw done rest, w', size ∙ s.same_size, λ j lt. clean j (omega (arith, s.same_size)))

-- The constructor of a bit map succeeds whatever the allocated words held, and makes a well-formed
-- map of the given size whose bits are all clear.
pub new_bit_map_lem :
    (words : List ℕ) (n : ℕ)
    → length words ≡ div_round_up n bits_in_word
    → (m : BitMap) × (new_bit_map words n ≡ ok m)
      × IsWellFormed m
      × (m.num_bits ≡ n)
      × ((j : ℕ) → j < n → used m j ≡ 0)
unfolding new_bit_map
new_bit_map_lem words n e =
    clear_from_lem n 0 _ (record { words = refl; stored = e }) (omega arith)
      (λ j lt. absurd (omega arith))
