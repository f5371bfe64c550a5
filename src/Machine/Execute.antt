-- ===== src/Machine/Execute.antt =====
-- Machine::OneInstruction of code/machine/mipssim.cc: what a case of its switch comes to. The cases
-- stand in the modules below, by the kind of instruction.
pub mod Bounded
pub mod Arith
pub mod Logic
pub mod Shift
pub mod Branch
pub mod Divide
pub mod Load
pub mod Store
use my_nachos.Shared.{ℕ, Result, ok, ◌>>=◌}
use my_nachos.Machine.State.{Machine, ExceptionType, set_reg, raise_exception}

-- A case that breaks, with `pcAfter`, `nextLoadReg` and `nextLoadValue`; or one that returns after
-- an exception was handled.
pub data Outcome : Type 0 where
  done : Machine → ℕ → ℕ → ℕ → Outcome
  left : Machine → Outcome

abbrev pub goes_on : Machine → ℕ → Result Outcome
goes_on m pc_after = ok (done m pc_after 0 0)

-- `registers[r] = v; break`.
abbrev pub writes : Machine → ℕ → ℕ → ℕ → Result Outcome
writes m pc_after r v = goes_on (set_reg m r v) pc_after

-- `RaiseException(which, badVAddr); return`.
abbrev pub traps : Machine → ExceptionType → ℕ → Result Outcome
traps m which bad_v_addr = raise_exception m which bad_v_addr >>= λ m'. ok (left m')
