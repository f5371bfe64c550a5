-- ===== src/Machine/Execute/Logic.antt =====
-- The bitwise instructions, LUI and the moves of HI and LO, of code/machine/mipssim.cc.
use Prim.Native.Nat.{bit_and, bit_or, bit_xor}
use my_nachos.Shared.{ℕ, Result}
use my_nachos.Machine.Words.{not32, shl32}
use my_nachos.Machine.State.{Machine, hi_reg, lo_reg}
use my_nachos.Machine.Decode.{Instruction}
use my_nachos.Machine.Execute.{Outcome, writes}

unfoldable pub exec_and : Machine → Instruction → ℕ → Result Outcome
exec_and m i pc = writes m pc i.rd (bit_and (m.registers i.rs) (m.registers i.rt))

unfoldable pub exec_andi : Machine → Instruction → ℕ → Result Outcome
exec_andi m i pc = writes m pc i.rt (bit_and (m.registers i.rs) (bit_and i.extra 0xffff))

unfoldable pub exec_nor : Machine → Instruction → ℕ → Result Outcome
exec_nor m i pc = writes m pc i.rd (not32 (bit_or (m.registers i.rs) (m.registers i.rt)))

-- As the code has it: both operands are `registers[instr->rs]`.
unfoldable pub exec_or : Machine → Instruction → ℕ → Result Outcome
exec_or m i pc = writes m pc i.rd (bit_or (m.registers i.rs) (m.registers i.rs))

unfoldable pub exec_ori : Machine → Instruction → ℕ → Result Outcome
exec_ori m i pc = writes m pc i.rt (bit_or (m.registers i.rs) (bit_and i.extra 0xffff))

unfoldable pub exec_xor : Machine → Instruction → ℕ → Result Outcome
exec_xor m i pc = writes m pc i.rd (bit_xor (m.registers i.rs) (m.registers i.rt))

unfoldable pub exec_xori : Machine → Instruction → ℕ → Result Outcome
exec_xori m i pc = writes m pc i.rt (bit_xor (m.registers i.rs) (bit_and i.extra 0xffff))

unfoldable pub exec_lui : Machine → Instruction → ℕ → Result Outcome
exec_lui m i pc = writes m pc i.rt (shl32 i.extra 16)

unfoldable pub exec_mfhi : Machine → Instruction → ℕ → Result Outcome
exec_mfhi m i pc = writes m pc i.rd (m.registers hi_reg)

unfoldable pub exec_mflo : Machine → Instruction → ℕ → Result Outcome
exec_mflo m i pc = writes m pc i.rd (m.registers lo_reg)

unfoldable pub exec_mthi : Machine → Instruction → ℕ → Result Outcome
exec_mthi m i pc = writes m pc hi_reg (m.registers i.rs)

unfoldable pub exec_mtlo : Machine → Instruction → ℕ → Result Outcome
exec_mtlo m i pc = writes m pc lo_reg (m.registers i.rs)
