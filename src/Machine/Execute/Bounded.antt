-- ===== src/Machine/Execute/Bounded.antt =====
-- The cases of the switch of Machine::OneInstruction (code/machine/mipssim.cc), and the ranges of
-- what they leave in the registers.
pub mod Registers
pub mod Control
pub mod Access
pub mod Memory
pub mod Transfer
use my_nachos.Shared.{
  ℕ, ◌+◌, ◌*◌, ◌%◌, ◌^◌, ◌<◌, ◌≡◌, Bool, true, false, List, length, get_or, ◌==◌, if◌then◌else◌,
  Result, ok, stop, Stop, ◌>>=◌, arith,
}
use my_nachos.Machine.State.{
  Machine, ExceptionType, set_reg, load_reg, memory_size, raise_exception,
}
use my_nachos.Machine.Decode.{Instruction}
use my_nachos.Machine.Exceptions.{raise_exception_lem}
use my_nachos.Machine.Execute.{Outcome, done, left, goes_on, writes, traps}

-- The registers hold words, a pending load is for a general register, and the memory holds bytes.
pub record IsSound (m : Machine) : Type 0 where
  pub words : (r : ℕ) → m.registers r < 2 ^ 32
  pub target : m.registers load_reg < 32
  pub memory : length m.main_memory ≡ memory_size
  pub bytes : (a : ℕ) → get_or m.main_memory a 0 < 2 ^ 8

-- How a case may end: it stops the program, or goes on with a sound machine; it never returns early.
pub data IsBounded : Result Outcome → Type 0 where
  stopped : (e : Stop) → IsBounded (stop e)
  going :
      (m : Machine) (pc r v : ℕ)
      → IsSound m
      → pc < 2 ^ 32
      → r < 32
      → v < 2 ^ 32
      → IsBounded (ok (done m pc r v))

pub set_reg-IsSound :
    (m : Machine) (r v : ℕ) → IsSound m → r < 37 → v < 2 ^ 32 → IsSound (set_reg m r v)
set_reg-IsSound m r v s low h = record {
  words = λ k. ground (arith, s.words k);
  target = ground (arith, s.target);
  memory = s.memory;
  bytes = s.bytes;
}

pub goes_on-IsBounded : (m : Machine) (pc : ℕ) → IsSound m → pc < 2 ^ 32 → IsBounded (goes_on m pc)
goes_on-IsBounded m pc s h = going m pc 0 0 s h (omega arith) (omega arith)

pub writes-IsBounded :
    (m : Machine) (pc r v : ℕ)
    → IsSound m
    → r < 37
    → pc < 2 ^ 32
    → v < 2 ^ 32
    → IsBounded (writes m pc r v)
writes-IsBounded m pc r v s low h l =
    goes_on-IsBounded (set_reg m r v) pc (set_reg-IsSound m r v s low l) h

pub traps-IsBounded : (m : Machine) (which : ExceptionType) (a : ℕ) → IsBounded (traps m which a)
traps-IsBounded m which a = rw (raise_exception_lem m which a) (stopped _)

pub if-IsBounded :
    (b : Bool) {x y : Result Outcome} → IsBounded x → IsBounded y → IsBounded (if b then x else y)
if-IsBounded true h k = h
if-IsBounded false h k = k

-- What the decoder makes of a word.
pub record IsInstruction (i : Instruction) : Type 0 where
  pub rs : i.rs < 32
  pub rt : i.rt < 32
  pub rd : i.rd < 32
  pub extra : i.extra < 2 ^ 32
