-- ===== src/Machine/Execute/Branch.antt =====
-- The branches and jumps of code/machine/mipssim.cc.
use Prim.Native.Nat.{bit_and, bit_or}
use my_nachos.Shared.{ℕ, Bool, ◌&&◌, ◌||◌, not, ◌==◌, if◌then◌else◌, Result}
use my_nachos.Machine.Words.{add32, shl32, sign_bit, any_bit, is_negative}
use my_nachos.Machine.State.{Machine, set_reg, r31, next_pc_reg}
use my_nachos.Machine.Decode.{Instruction}
use my_nachos.Machine.Execute.{Outcome, goes_on}

-- `IndexToAddr`.
abbrev pub index_to_addr : ℕ → ℕ
index_to_addr x = shl32 x 2

-- `if (taken) pcAfter = registers[NextPCReg] + IndexToAddr(instr->extra)`.
abbrev pub branches : Bool → Machine → Instruction → ℕ → Result Outcome
branches taken m i pc =
    goes_on m (if taken then add32 (m.registers next_pc_reg) (index_to_addr i.extra) else pc)

-- `registers[R31] = registers[NextPCReg] + 4`.
abbrev pub link : Machine → ℕ → Machine
link m r = set_reg m r (add32 (m.registers next_pc_reg) 4)

unfoldable pub exec_beq : Machine → Instruction → ℕ → Result Outcome
exec_beq m i pc = branches (m.registers i.rs == m.registers i.rt) m i pc

unfoldable pub exec_bne : Machine → Instruction → ℕ → Result Outcome
exec_bne m i pc = branches (not (m.registers i.rs == m.registers i.rt)) m i pc

unfoldable pub exec_bgez : Machine → Instruction → ℕ → Result Outcome
exec_bgez m i pc = branches (not (any_bit (m.registers i.rs) sign_bit)) m i pc

unfoldable pub exec_bgezal : Machine → Instruction → ℕ → Result Outcome
unfolding exec_bgez
exec_bgezal m i pc = exec_bgez (link m r31) i pc

unfoldable pub exec_bltz : Machine → Instruction → ℕ → Result Outcome
exec_bltz m i pc = branches (any_bit (m.registers i.rs) sign_bit) m i pc

unfoldable pub exec_bltzal : Machine → Instruction → ℕ → Result Outcome
unfolding exec_bltz
exec_bltzal m i pc = exec_bltz (link m r31) i pc

unfoldable pub exec_bgtz : Machine → Instruction → ℕ → Result Outcome
exec_bgtz m i pc = let a = m.registers i.rs in branches (not (is_negative a) && not (a == 0)) m i pc

unfoldable pub exec_blez : Machine → Instruction → ℕ → Result Outcome
exec_blez m i pc = let a = m.registers i.rs in branches (is_negative a || a == 0) m i pc

unfoldable pub exec_j : Machine → Instruction → ℕ → Result Outcome
exec_j m i pc = goes_on m (bit_or (bit_and pc 0xf000_0000) (index_to_addr i.extra))

unfoldable pub exec_jal : Machine → Instruction → ℕ → Result Outcome
unfolding exec_j
exec_jal m i pc = exec_j (link m r31) i pc

unfoldable pub exec_jr : Machine → Instruction → ℕ → Result Outcome
exec_jr m i pc = goes_on m (m.registers i.rs)

unfoldable pub exec_jalr : Machine → Instruction → ℕ → Result Outcome
unfolding exec_jr
exec_jalr m i pc = exec_jr (link m i.rd) i pc
