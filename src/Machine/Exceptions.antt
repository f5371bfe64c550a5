-- ===== src/Machine/Exceptions.antt =====
-- Machine::RaiseException (code/machine/machine.cc) with the kernel's ExceptionHandler
-- (code/userprog/exception.cc): how a trap ends.
use my_nachos.Shared.{ℕ, ◌≡◌, ◌&&◌, ◌==◌, if◌then◌else◌, stop, Stop, Bool-cases, inl, inr}
use my_nachos.Machine.State.{
  Machine, ExceptionType, is_syscall, sc_halt, load_reg, load_value_reg, raise_exception,
}

-- The system call's number as the kernel sees it: register 2, after a load that was pending for it.
abbrev pub call_number : Machine → ℕ
call_number m = if 2 == m.registers load_reg then m.registers load_value_reg else m.registers 2

-- RaiseException never comes back: a system call whose number in register 2, with a pending load
-- done, is that of Halt ends the program, and every other exception or system call fails the
-- assertion of the handler.
pub raise_exception_lem :
    (m : Machine) (which : ExceptionType) (a : ℕ)
    → raise_exception m which a
      ≡ stop
          (if is_syscall which && call_number m == sc_halt then Stop.halted else Stop.assert_failed)
unfolding raise_exception
raise_exception_lem m which a = elim (Bool-cases (is_syscall which && call_number m == sc_halt)) [
  | inl halts ↦ rw halts
  | inr fails ↦ rw fails
]
