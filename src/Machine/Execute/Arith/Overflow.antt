-- ===== src/Machine/Execute/Arith/Overflow.antt =====
-- ADD, ADDI and SUB of code/machine/mipssim.cc, and the overflow exception.
use Prim.Native.Nat.{bit_xor}
use my_nachos.Shared.{
  ℕ, ◌+◌, ◌-◌, ◌%◌, ◌^◌, ◌≤◌, ◌<◌, ◌≡◌, ◌⊎◌, inl, inr, refl, Bool, true, false, ◌&&◌, ◌||◌, not,
  leb, ltb, dec_lt, if◌then◌else◌, Result, arith,
}
use my_nachos.Machine.Words.{add32, sub32, sign_bit, any_bit, is_negative}
use my_nachos.Machine.Words.Sign.{any_bit-bit_xor}
use my_nachos.Machine.State.{Machine, overflow_exception}
use my_nachos.Machine.Decode.{Instruction}
use my_nachos.Machine.Execute.{Outcome, writes, traps}
use my_nachos.Machine.Execute.Arith.{exec_add, exec_addi, exec_sub}

-- The signed value of a word, counted from the least one, `-2 ^ 31`.
abbrev pub biased : ℕ → ℕ
biased a = (a + 2 ^ 31) % 2 ^ 32

-- An operation whose exact result, counted from `-2 ^ 31 - 2 ^ 31`, is `exact`: it is written to `r`
-- if a word holds it, and otherwise the overflow exception is raised.
pub data Gives (m : Machine) (pc r exact : ℕ) : Result Outcome → Type 0 where
  fits : (v : ℕ) → v < 2 ^ 32 → biased v + 2 ^ 31 ≡ exact → Gives m pc r exact (writes m pc r v)
  overflows :
      (exact < 2 ^ 31) ⊎ (2 ^ 31 + 2 ^ 32 ≤ exact)
      → Gives m pc r exact (traps m overflow_exception 0)

choose :
    (m : Machine) (pc r exact v : ℕ) (c : Bool)
    → v < 2 ^ 32
    → (c ≡ false → biased v + 2 ^ 31 ≡ exact)
    → (c ≡ true → (exact < 2 ^ 31) ⊎ (2 ^ 31 + 2 ^ 32 ≤ exact))
    → Gives m pc r exact (if c then traps m overflow_exception 0 else writes m pc r v)
choose m pc r exact v true h is_exact is_out = overflows (is_out refl)
choose m pc r exact v false h is_exact is_out = fits v h (is_exact refl)

abbrev out_of_word : ℕ → Bool
out_of_word exact = ltb exact (2 ^ 31) || leb (2 ^ 31 + 2 ^ 32) exact

is_out_of_word :
    (exact : ℕ) → out_of_word exact ≡ true → (exact < 2 ^ 31) ⊎ (2 ^ 31 + 2 ^ 32 ≤ exact)
is_out_of_word exact h = elim (dec_lt exact (2 ^ 31)) [
  | yes low ↦ inl low
  | no high ↦ inr (ground arith)
]

-- The two tests of the code, in terms of the signs of three words.
abbrev signs_agree : Bool → Bool → Bool → Bool
signs_agree a b sum = not (if a then not b else b) && (if a then not sum else sum)

abbrev signs_differ : Bool → Bool → Bool → Bool
signs_differ a b diff = (if a then not b else b) && (if a then not diff else diff)

sum_overflow :
    (a b : ℕ)
    → a < 2 ^ 32
    → b < 2 ^ 32
    → signs_agree (is_negative a) (is_negative b) (is_negative ((a + b) % 2 ^ 32))
      ≡ out_of_word (biased a + biased b)
sum_overflow a b ha hb = ground arith

sum_exact :
    (a b : ℕ)
    → a < 2 ^ 32
    → b < 2 ^ 32
    → out_of_word (biased a + biased b) ≡ false
    → biased ((a + b) % 2 ^ 32) + 2 ^ 31 ≡ biased a + biased b
sum_exact a b ha hb h = ground arith

diff_overflow :
    (a b : ℕ)
    → a < 2 ^ 32
    → b < 2 ^ 32
    → signs_differ (is_negative a) (is_negative b) (is_negative ((a + 2 ^ 32 - b) % 2 ^ 32))
      ≡ out_of_word (biased a + 2 ^ 32 - biased b)
diff_overflow a b ha hb = ground arith

diff_exact :
    (a b : ℕ)
    → a < 2 ^ 32
    → b < 2 ^ 32
    → out_of_word (biased a + 2 ^ 32 - biased b) ≡ false
    → biased ((a + 2 ^ 32 - b) % 2 ^ 32) + 2 ^ 31 ≡ biased a + 2 ^ 32 - biased b
diff_exact a b ha hb h = ground arith

-- For registers that hold 32-bit words, ADD raises the overflow exception exactly when no word
-- holds the signed sum, and otherwise writes the word that is the signed sum to rd.
pub exec_add-Gives :
    (m : Machine) (i : Instruction) (pc : ℕ)
    → m.registers i.rs < 2 ^ 32
    → m.registers i.rt < 2 ^ 32
    → Gives m pc i.rd (biased (m.registers i.rs) + biased (m.registers i.rt)) (exec_add m i pc)
unfolding exec_add add32
exec_add-Gives m i pc ha hb =
    let a = m.registers i.rs in
    let b = m.registers i.rt in
    let test : (not (any_bit (bit_xor a b) sign_bit)
          && any_bit (bit_xor a ((a + b) % 2 ^ 32)) sign_bit)
        ≡ out_of_word (biased a + biased b) =
      rw (any_bit-bit_xor a b ha hb, any_bit-bit_xor a ((a + b) % 2 ^ 32) ha (omega arith))
        (sum_overflow a b ha hb) in
    choose m pc i.rd (biased a + biased b) _ _ (omega arith) (λ h. sum_exact a b ha hb (cc))
      (λ h. is_out_of_word _ cc)

-- For a register and an immediate that are 32-bit words, ADDI raises the overflow exception
-- exactly when no word holds the signed sum, and otherwise writes the word that is the signed sum
-- to rt.
pub exec_addi-Gives :
    (m : Machine) (i : Instruction) (pc : ℕ)
    → m.registers i.rs < 2 ^ 32
    → i.extra < 2 ^ 32
    → Gives m pc i.rt (biased (m.registers i.rs) + biased i.extra) (exec_addi m i pc)
unfolding exec_addi add32
exec_addi-Gives m i pc ha hb =
    let a = m.registers i.rs in
    let b = i.extra in
    let test : (not (any_bit (bit_xor a b) sign_bit)
          && any_bit (bit_xor b ((a + b) % 2 ^ 32)) sign_bit)
        ≡ out_of_word (biased a + biased b) =
      rw (any_bit-bit_xor a b ha hb, any_bit-bit_xor b ((a + b) % 2 ^ 32) hb (omega arith))
        (ground (arith, sum_overflow a b ha hb)) in
    choose m pc i.rt (biased a + biased b) _ _ (omega arith) (λ h. sum_exact a b ha hb cc)
      (λ h. is_out_of_word _ cc)

-- For registers that hold 32-bit words, SUB raises the overflow exception exactly when no word
-- holds the signed difference, and otherwise writes the word that is the signed difference to rd.
pub exec_sub-Gives :
    (m : Machine) (i : Instruction) (pc : ℕ)
    → m.registers i.rs < 2 ^ 32
    → m.registers i.rt < 2 ^ 32
    → Gives m pc i.rd
        (biased (m.registers i.rs) + 2 ^ 32 - biased (m.registers i.rt))
        (exec_sub m i pc)
unfolding exec_sub sub32
exec_sub-Gives m i pc ha hb =
    let a = m.registers i.rs in
    let b = m.registers i.rt in
    let test : (any_bit (bit_xor a b) sign_bit
          && any_bit (bit_xor a ((a + 2 ^ 32 - b) % 2 ^ 32)) sign_bit)
        ≡ out_of_word (biased a + 2 ^ 32 - biased b) =
      rw (any_bit-bit_xor a b ha hb, any_bit-bit_xor a ((a + 2 ^ 32 - b) % 2 ^ 32) ha (omega arith))
        (diff_overflow a b ha hb) in
    choose m pc i.rd (biased a + 2 ^ 32 - biased b) _ _ (omega arith) (λ h. diff_exact a b ha hb cc)
      (λ h. is_out_of_word _ cc)
