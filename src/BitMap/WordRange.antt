-- ===== src/BitMap/WordRange.antt =====
-- The words of the map of code/userprog/bitmap.cc stay 32-bit words.
use Prim.Native.Nat.{bit_and, bit_or}
use my_nachos.Shared.{
  ℕ, zero, suc, ◌+◌, ◌-◌, ◌/◌, ◌%◌, ◌^◌, ◌<◌, ◌≤◌, ◌≡◌, Bool, true, false, Option, none, some, List,
  [], ◌∷◌, ltb, if◌then◌else◌, set, elem, Result, ok, stop, ◌>>=◌, ◌>>◌, assert, arith, IfOk,
  IfOk->>=,
}
use my_nachos.Shared.Bits.{bit_or-lt, bit_and-le, pow-lt}
use my_nachos.BitMap.{BitMap, bits_in_word, mark, clear, test, find_from, find}

abbrev pub AreWords : List ℕ → Type 0
AreWords [] = Unit {0}
AreWords (w ∷ ws) = (w < 2 ^ 32) × AreWords ws

pub AreWords-set : (ws : List ℕ) (i v : ℕ) → v < 2 ^ 32 → AreWords ws → AreWords (set ws i v)
AreWords-set [] i v h a = tt
AreWords-set (w ∷ ws) zero v h a = (h, a.1)
AreWords-set (w ∷ ws) (suc i) v h a = (a.0, AreWords-set ws i v h a.1)

elem-word : (ws : List ℕ) (i : ℕ) → AreWords ws → IfOk (λ w. w < 2 ^ 32) (elem ws i)
elem-word [] i a = tt
elem-word (w ∷ ws) zero a = a.0
elem-word (w ∷ ws) (suc i) a = elem-word ws i a.1

assert-IfOk : (b : Bool) → IfOk (λ (u : Unit {0}). Unit {0}) (assert b)
assert-IfOk true = tt
assert-IfOk false = tt

-- The map is made of words, and its bits are numbered by words.
abbrev pub Fits : BitMap → Type 0
Fits m = AreWords m.map × (m.num_bits ≤ 2 ^ 32)

module _ (m : BitMap) (which : ℕ) (a : Fits m) where
  -- What Mark and Clear do with the word of the bit.
  update-Fits :
      (f : ℕ → ℕ)
      → ((w : ℕ) → w < 2 ^ 32 → f w < 2 ^ 32)
      → IfOk Fits (do
        assert (ltb which m.num_bits)
        word ← elem m.map (which / bits_in_word)
        ok (record m { map = set m.map (which / bits_in_word) (f word) }))
  update-Fits f keeps = IfOk->>= _ Fits (assert (ltb which m.num_bits)) _ (assert-IfOk _) λ u t.
      IfOk->>= _ Fits (elem m.map (which / 32)) _ (elem-word m.map (which / 32) a.0)
        λ w h. (AreWords-set m.map (which / 32) _ (keeps w h) a.0, a.1)

  pub mark-Fits : IfOk Fits (mark m which)
  unfolding mark
  mark-Fits =
      update-Fits (λ w. bit_or w (2 ^ (which % 32)))
        λ w h. bit_or-lt 32 w (2 ^ (which % 32)) h (pow-lt (which % 32) 32 (omega arith))

  pub clear-Fits : IfOk Fits (clear m which)
  unfolding clear
  clear-Fits =
      update-Fits (λ w. bit_and w (2 ^ 32 - 1 - 2 ^ (which % 32)))
        λ w h. omega (arith, bit_and-le w (2 ^ 32 - 1 - 2 ^ (which % 32)) w (omega arith))

-- A search gives the number of a bit, if any, and a map that fits.
abbrev pub IsBit : Option ℕ → Type 0
IsBit none = Unit {0}
IsBit (some k) = k < 2 ^ 32

abbrev pub Found : Option ℕ × BitMap → Type 0
Found r = IsBit r.0 × Fits r.1

pub any-IfOk {ℓ} : {A : Type ℓ} (r : Result A) → IfOk (λ u. Unit {0}) r
any-IfOk (ok b) = tt
any-IfOk (stop e) = tt

find_from-Found :
    (n i : ℕ) (m : BitMap) → i + n ≡ m.num_bits → Fits m → IfOk Found (find_from n i m)
unfolding find_from
find_from-Found zero i m e a = (tt, a)
find_from-Found (suc n) i m e a =
    IfOk->>= (λ u. Unit {0}) Found (test m i) _ (any-IfOk (test m i))
      λ used u. go used (find_from-Found n (i + 1) m (omega arith) a)
  where
    go :
        (used : Bool)
        → IfOk Found (find_from n (i + 1) m)
        → IfOk Found (if used then find_from n (i + 1) m else mark m i >>= λ m'. ok (some i, m'))
    go true later = later
    go false later =
        IfOk->>= Fits Found (mark m i) _ (mark-Fits m i a) (λ m' a'. (omega (arith, a.1, e), a'))

pub find-Found : (m : BitMap) → Fits m → IfOk Found (find m)
unfolding find
find-Found m a = find_from-Found m.num_bits 0 m (omega arith) a
