-- ===== src/Machine/Cycle.antt =====
-- Machine::OneInstruction of code/machine/mipssim.cc: fetch, decode, execute, and the program
-- counters.
pub mod Ready
use my_nachos.Shared.{ℕ, none, some, Result, ok, stop, Stop, ◌>>=◌}
use my_nachos.Machine.Words.{add32}
use my_nachos.Machine.State.{
  Machine, set_reg, delayed_load, pc_reg, next_pc_reg, prev_pc_reg, syscall_exception,
  illegal_instr_exception,
}
use my_nachos.Machine.Memory.{read_mem}
use my_nachos.Machine.Decode.{Op, Instruction, decode}
use my_nachos.Machine.Execute.{Outcome, done, left, traps}
use my_nachos.Machine.Execute.Arith.{
  exec_add, exec_addi, exec_addiu, exec_addu, exec_sub, exec_subu, exec_slt, exec_slti, exec_sltiu,
  exec_sltu,
}
use my_nachos.Machine.Execute.Logic.{
  exec_and, exec_andi, exec_nor, exec_or, exec_ori, exec_xor, exec_xori, exec_lui, exec_mfhi,
  exec_mflo, exec_mthi, exec_mtlo,
}
use my_nachos.Machine.Execute.Shift.{exec_sll, exec_sllv, exec_sra, exec_srav, exec_srl, exec_srlv}
use my_nachos.Machine.Execute.Branch.{
  exec_beq, exec_bne, exec_bgez, exec_bgezal, exec_bltz, exec_bltzal, exec_bgtz, exec_blez, exec_j,
  exec_jal, exec_jr, exec_jalr,
}
use my_nachos.Machine.Execute.Divide.{exec_div, exec_divu, exec_mult, exec_multu}
use my_nachos.Machine.Execute.Load.{
  exec_lb, exec_lbu, exec_lh, exec_lhu, exec_lw, exec_lwl, exec_lwr, reads,
}
use my_nachos.Machine.Execute.Store.{exec_sb, exec_sh, exec_sw, exec_swl, exec_swr}

-- The switch on the opcode.
unfoldable pub execute : Op → Machine → Instruction → ℕ → Result Outcome
execute Op.op_add m i pc = exec_add m i pc
execute Op.op_addi m i pc = exec_addi m i pc
execute Op.op_addiu m i pc = exec_addiu m i pc
execute Op.op_addu m i pc = exec_addu m i pc
execute Op.op_and m i pc = exec_and m i pc
execute Op.op_andi m i pc = exec_andi m i pc
execute Op.op_beq m i pc = exec_beq m i pc
execute Op.op_bgez m i pc = exec_bgez m i pc
execute Op.op_bgezal m i pc = exec_bgezal m i pc
execute Op.op_bgtz m i pc = exec_bgtz m i pc
execute Op.op_blez m i pc = exec_blez m i pc
execute Op.op_bltz m i pc = exec_bltz m i pc
execute Op.op_bltzal m i pc = exec_bltzal m i pc
execute Op.op_bne m i pc = exec_bne m i pc
execute Op.op_div m i pc = exec_div m i pc
execute Op.op_divu m i pc = exec_divu m i pc
execute Op.op_j m i pc = exec_j m i pc
execute Op.op_jal m i pc = exec_jal m i pc
execute Op.op_jalr m i pc = exec_jalr m i pc
execute Op.op_jr m i pc = exec_jr m i pc
execute Op.op_lb m i pc = exec_lb m i pc
execute Op.op_lbu m i pc = exec_lbu m i pc
execute Op.op_lh m i pc = exec_lh m i pc
execute Op.op_lhu m i pc = exec_lhu m i pc
execute Op.op_lui m i pc = exec_lui m i pc
execute Op.op_lw m i pc = exec_lw m i pc
execute Op.op_lwl m i pc = exec_lwl m i pc
execute Op.op_lwr m i pc = exec_lwr m i pc
execute Op.op_mfhi m i pc = exec_mfhi m i pc
execute Op.op_mflo m i pc = exec_mflo m i pc
execute Op.op_mthi m i pc = exec_mthi m i pc
execute Op.op_mtlo m i pc = exec_mtlo m i pc
execute Op.op_mult m i pc = exec_mult m i pc
execute Op.op_multu m i pc = exec_multu m i pc
execute Op.op_nor m i pc = exec_nor m i pc
execute Op.op_or m i pc = exec_or m i pc
execute Op.op_ori m i pc = exec_ori m i pc
execute Op.op_sb m i pc = exec_sb m i pc
execute Op.op_sh m i pc = exec_sh m i pc
execute Op.op_sll m i pc = exec_sll m i pc
execute Op.op_sllv m i pc = exec_sllv m i pc
execute Op.op_slt m i pc = exec_slt m i pc
execute Op.op_slti m i pc = exec_slti m i pc
execute Op.op_sltiu m i pc = exec_sltiu m i pc
execute Op.op_sltu m i pc = exec_sltu m i pc
execute Op.op_sra m i pc = exec_sra m i pc
execute Op.op_srav m i pc = exec_srav m i pc
execute Op.op_srl m i pc = exec_srl m i pc
execute Op.op_srlv m i pc = exec_srlv m i pc
execute Op.op_sub m i pc = exec_sub m i pc
execute Op.op_subu m i pc = exec_subu m i pc
execute Op.op_sw m i pc = exec_sw m i pc
execute Op.op_swl m i pc = exec_swl m i pc
execute Op.op_swr m i pc = exec_swr m i pc
execute Op.op_xor m i pc = exec_xor m i pc
execute Op.op_xori m i pc = exec_xori m i pc
execute Op.op_syscall m i pc = traps m syscall_exception 0
execute Op.op_res m i pc = traps m illegal_instr_exception 0
execute Op.op_unimp m i pc = traps m illegal_instr_exception 0
execute Op.op_rfe m i pc = stop Stop.assert_failed
execute Op.special m i pc = stop Stop.assert_failed
execute Op.bcond m i pc = stop Stop.assert_failed

-- What follows the switch: the delayed load and the program counters.
unfoldable pub finish : Outcome → Machine
unfolding delayed_load
finish (left m) = m
finish (done m pc_after next_load_reg next_load_value) =
    let m1 = delayed_load m next_load_reg next_load_value in
    let m2 = set_reg m1 prev_pc_reg (m1.registers pc_reg) in
    let m3 = set_reg m2 pc_reg (m2.registers next_pc_reg) in set_reg m3 next_pc_reg pc_after

-- The fetch, which returns early after an exception, and the switch.
unfoldable pub fetch_execute : Machine → Result Outcome
fetch_execute m =
    reads m (m.registers pc_reg) 4
      λ m' raw. execute (decode raw).op_code m' (decode raw) (add32 (m'.registers next_pc_reg) 4)

unfoldable pub one_instruction : Machine → Result Machine
unfolding fetch_execute
one_instruction m = fetch_execute m >>= λ out. ok (finish out)
