-- ===== src/Machine/Execute/Shift.antt =====
-- The shifts of code/machine/mipssim.cc. `tmp` is a signed integer in SRL and SRLV too.
use my_nachos.Shared.{ℕ, ◌%◌, Result}
use my_nachos.Machine.Words.{shl32, sar32}
use my_nachos.Machine.State.{Machine}
use my_nachos.Machine.Decode.{Instruction}
use my_nachos.Machine.Execute.{Outcome, writes}

unfoldable pub exec_sll : Machine → Instruction → ℕ → Result Outcome
exec_sll m i pc = writes m pc i.rd (shl32 (m.registers i.rt) i.extra)

unfoldable pub exec_sllv : Machine → Instruction → ℕ → Result Outcome
exec_sllv m i pc = writes m pc i.rd (shl32 (m.registers i.rt) (m.registers i.rs % 0x20))

unfoldable pub exec_sra : Machine → Instruction → ℕ → Result Outcome
exec_sra m i pc = writes m pc i.rd (sar32 (m.registers i.rt) i.extra)

unfoldable pub exec_srav : Machine → Instruction → ℕ → Result Outcome
exec_srav m i pc = writes m pc i.rd (sar32 (m.registers i.rt) (m.registers i.rs % 0x20))

unfoldable pub exec_srl : Machine → Instruction → ℕ → Result Outcome
exec_srl m i pc = let tmp = m.registers i.rt in writes m pc i.rd (sar32 tmp i.extra)

unfoldable pub exec_srlv : Machine → Instruction → ℕ → Result Outcome
exec_srlv m i pc =
    let tmp = m.registers i.rt in writes m pc i.rd (sar32 tmp (m.registers i.rs % 0x20))
