-- ===== src/Machine/Cycle/Ready.antt =====
-- Machine::OneInstruction of code/machine/mipssim.cc, and the state that it leaves.
use my_nachos.Shared.{ℕ, ◌^◌, ◌<◌, ◌≡◌, refl, subst, Result, ok, arith}
use my_nachos.Machine.Words.{add32}
use my_nachos.Machine.State.{
  Machine, set_reg, delayed_load, load_value_reg, pc_reg, next_pc_reg, prev_pc_reg,
  syscall_exception, illegal_instr_exception,
}
use my_nachos.Machine.Decode.{Op, Format, Instruction, decode, extra_of}
use my_nachos.Machine.Execute.{Outcome, done}
use my_nachos.Machine.Execute.Bounded.{
  IsSound, IsBounded, IsInstruction, stopped, going, set_reg-IsSound, traps-IsBounded,
}
use my_nachos.Machine.Execute.Bounded.Registers.{
  exec_add-IsBounded, exec_sub-IsBounded, exec_addi-IsBounded, exec_addiu-IsBounded,
  exec_addu-IsBounded, exec_subu-IsBounded, exec_slt-IsBounded, exec_sltu-IsBounded,
  exec_slti-IsBounded, exec_sltiu-IsBounded, exec_and-IsBounded, exec_andi-IsBounded,
  exec_nor-IsBounded, exec_or-IsBounded, exec_ori-IsBounded, exec_xor-IsBounded,
  exec_xori-IsBounded, exec_lui-IsBounded, exec_mfhi-IsBounded, exec_mflo-IsBounded,
  exec_mthi-IsBounded, exec_mtlo-IsBounded,
}
use my_nachos.Machine.Execute.Bounded.Control.{
  exec_sll-IsBounded, exec_sllv-IsBounded, exec_sra-IsBounded, exec_srav-IsBounded,
  exec_srl-IsBounded, exec_srlv-IsBounded, exec_beq-IsBounded, exec_bne-IsBounded,
  exec_bgez-IsBounded, exec_bltz-IsBounded, exec_bgtz-IsBounded, exec_blez-IsBounded,
  exec_j-IsBounded, exec_jr-IsBounded, exec_mult-IsBounded, exec_multu-IsBounded,
  exec_divu-IsBounded, exec_div-IsBounded, exec_bgezal-IsBounded, exec_bltzal-IsBounded,
  exec_jal-IsBounded, exec_jalr-IsBounded,
}
use my_nachos.Machine.Execute.Bounded.Transfer.{
  exec_lb-IsBounded, exec_lbu-IsBounded, exec_lh-IsBounded, exec_lhu-IsBounded, exec_lw-IsBounded,
  exec_lwl-IsBounded, exec_lwr-IsBounded, exec_sb-IsBounded, exec_sh-IsBounded, exec_sw-IsBounded,
  exec_swl-IsBounded, exec_swr-IsBounded,
}
use my_nachos.Machine.Execute.Bounded.Access.{reads-IsBounded}
use my_nachos.Machine.Cycle.{execute, finish, fetch_execute, one_instruction}

execute-IsBounded :
    (op : Op) (m : Machine) (i : Instruction) (pc : ℕ)
    → IsSound m
    → IsInstruction i
    → pc < 2 ^ 32
    → IsBounded (execute op m i pc)
unfolding execute
execute-IsBounded Op.op_add m i pc s d h = exec_add-IsBounded m i pc s d h
execute-IsBounded Op.op_addi m i pc s d h = exec_addi-IsBounded m i pc s d h
execute-IsBounded Op.op_addiu m i pc s d h = exec_addiu-IsBounded m i pc s d h
execute-IsBounded Op.op_addu m i pc s d h = exec_addu-IsBounded m i pc s d h
execute-IsBounded Op.op_and m i pc s d h = exec_and-IsBounded m i pc s d h
execute-IsBounded Op.op_andi m i pc s d h = exec_andi-IsBounded m i pc s d h
execute-IsBounded Op.op_beq m i pc s d h = exec_beq-IsBounded m i pc s d h
execute-IsBounded Op.op_bgez m i pc s d h = exec_bgez-IsBounded m i pc s d h
execute-IsBounded Op.op_bgezal m i pc s d h = exec_bgezal-IsBounded m i pc s d h
execute-IsBounded Op.op_bgtz m i pc s d h = exec_bgtz-IsBounded m i pc s d h
execute-IsBounded Op.op_blez m i pc s d h = exec_blez-IsBounded m i pc s d h
execute-IsBounded Op.op_bltz m i pc s d h = exec_bltz-IsBounded m i pc s d h
execute-IsBounded Op.op_bltzal m i pc s d h = exec_bltzal-IsBounded m i pc s d h
execute-IsBounded Op.op_bne m i pc s d h = exec_bne-IsBounded m i pc s d h
execute-IsBounded Op.op_div m i pc s d h = exec_div-IsBounded m i pc s d h
execute-IsBounded Op.op_divu m i pc s d h = exec_divu-IsBounded m i pc s d h
execute-IsBounded Op.op_j m i pc s d h = exec_j-IsBounded m i pc s d h
execute-IsBounded Op.op_jal m i pc s d h = exec_jal-IsBounded m i pc s d h
execute-IsBounded Op.op_jalr m i pc s d h = exec_jalr-IsBounded m i pc s d h
execute-IsBounded Op.op_jr m i pc s d h = exec_jr-IsBounded m i pc s d h
execute-IsBounded Op.op_lb m i pc s d h = exec_lb-IsBounded m i pc s d h
execute-IsBounded Op.op_lbu m i pc s d h = exec_lbu-IsBounded m i pc s d h
execute-IsBounded Op.op_lh m i pc s d h = exec_lh-IsBounded m i pc s d h
execute-IsBounded Op.op_lhu m i pc s d h = exec_lhu-IsBounded m i pc s d h
execute-IsBounded Op.op_lui m i pc s d h = exec_lui-IsBounded m i pc s d h
execute-IsBounded Op.op_lw m i pc s d h = exec_lw-IsBounded m i pc s d h
execute-IsBounded Op.op_lwl m i pc s d h = exec_lwl-IsBounded m i pc s d h
execute-IsBounded Op.op_lwr m i pc s d h = exec_lwr-IsBounded m i pc s d h
execute-IsBounded Op.op_mfhi m i pc s d h = exec_mfhi-IsBounded m i pc s d h
execute-IsBounded Op.op_mflo m i pc s d h = exec_mflo-IsBounded m i pc s d h
execute-IsBounded Op.op_mthi m i pc s d h = exec_mthi-IsBounded m i pc s d h
execute-IsBounded Op.op_mtlo m i pc s d h = exec_mtlo-IsBounded m i pc s d h
execute-IsBounded Op.op_mult m i pc s d h = exec_mult-IsBounded m i pc s d h
execute-IsBounded Op.op_multu m i pc s d h = exec_multu-IsBounded m i pc s d h
execute-IsBounded Op.op_nor m i pc s d h = exec_nor-IsBounded m i pc s d h
execute-IsBounded Op.op_or m i pc s d h = exec_or-IsBounded m i pc s d h
execute-IsBounded Op.op_ori m i pc s d h = exec_ori-IsBounded m i pc s d h
execute-IsBounded Op.op_sb m i pc s d h = exec_sb-IsBounded m i pc s d h
execute-IsBounded Op.op_sh m i pc s d h = exec_sh-IsBounded m i pc s d h
execute-IsBounded Op.op_sll m i pc s d h = exec_sll-IsBounded m i pc s d h
execute-IsBounded Op.op_sllv m i pc s d h = exec_sllv-IsBounded m i pc s d h
execute-IsBounded Op.op_slt m i pc s d h = exec_slt-IsBounded m i pc s d h
execute-IsBounded Op.op_slti m i pc s d h = exec_slti-IsBounded m i pc s d h
execute-IsBounded Op.op_sltiu m i pc s d h = exec_sltiu-IsBounded m i pc s d h
execute-IsBounded Op.op_sltu m i pc s d h = exec_sltu-IsBounded m i pc s d h
execute-IsBounded Op.op_sra m i pc s d h = exec_sra-IsBounded m i pc s d h
execute-IsBounded Op.op_srav m i pc s d h = exec_srav-IsBounded m i pc s d h
execute-IsBounded Op.op_srl m i pc s d h = exec_srl-IsBounded m i pc s d h
execute-IsBounded Op.op_srlv m i pc s d h = exec_srlv-IsBounded m i pc s d h
execute-IsBounded Op.op_sub m i pc s d h = exec_sub-IsBounded m i pc s d h
execute-IsBounded Op.op_subu m i pc s d h = exec_subu-IsBounded m i pc s d h
execute-IsBounded Op.op_sw m i pc s d h = exec_sw-IsBounded m i pc s d h
execute-IsBounded Op.op_swl m i pc s d h = exec_swl-IsBounded m i pc s d h
execute-IsBounded Op.op_swr m i pc s d h = exec_swr-IsBounded m i pc s d h
execute-IsBounded Op.op_xor m i pc s d h = exec_xor-IsBounded m i pc s d h
execute-IsBounded Op.op_xori m i pc s d h = exec_xori-IsBounded m i pc s d h
execute-IsBounded Op.op_syscall m i pc s d h = traps-IsBounded m syscall_exception 0
execute-IsBounded Op.op_res m i pc s d h = traps-IsBounded m illegal_instr_exception 0
execute-IsBounded Op.op_unimp m i pc s d h = traps-IsBounded m illegal_instr_exception 0
execute-IsBounded Op.op_rfe m i pc s d h = stopped _
execute-IsBounded Op.special m i pc s d h = stopped _
execute-IsBounded Op.bcond m i pc s d h = stopped _

extra_of-lt : (f : Format) (v : ℕ) → extra_of f v < 2 ^ 32
unfolding extra_of
extra_of-lt Format.ifmt v = ground arith
extra_of-lt Format.rfmt v = omega arith
extra_of-lt Format.jfmt v = omega arith

decode-IsInstruction : (v : ℕ) → IsInstruction (decode v)
unfolding decode
decode-IsInstruction v = record {
  rs = omega arith;
  rt = omega arith;
  rd = omega arith;
  extra = extra_of-lt _ v;
}

delayed_load-IsSound :
    (m : Machine) (r v : ℕ) → IsSound m → r < 32 → v < 2 ^ 32 → IsSound (delayed_load m r v)
unfolding delayed_load
delayed_load-IsSound m r v s h l = record {
  words = λ k. ground (arith, s.words k, s.words load_value_reg);
  target = ground arith;
  memory = s.memory;
  bytes = s.bytes;
}

-- What is true after an instruction.
pub record IsReady (m : Machine) : Type 0 where
  pub sound : IsSound m
  pub zero : m.registers 0 ≡ 0

delayed_load-zero : (m : Machine) (r v : ℕ) → (delayed_load m r v).registers 0 ≡ 0
unfolding delayed_load
delayed_load-zero m r v = refl

finish-IsReady :
    (m : Machine) (pc r v : ℕ)
    → IsSound m
    → pc < 2 ^ 32
    → r < 32
    → v < 2 ^ 32
    → IsReady (finish (done m pc r v))
unfolding finish
finish-IsReady m pc r v s h low l =
    let m1 = delayed_load m r v in
    let s1 = delayed_load-IsSound m r v s low l in
    let m2 = set_reg m1 prev_pc_reg (m1.registers pc_reg) in
    let s2 = set_reg-IsSound m1 prev_pc_reg _ s1 (omega arith) (s1.words pc_reg) in
    let s3 = set_reg-IsSound m2 pc_reg _ s2 (omega arith) (s2.words next_pc_reg) in
    record {
      sound = set_reg-IsSound _ next_pc_reg pc s3 (omega arith) h;
      zero = delayed_load-zero m r v;
    }

fetch_execute-IsBounded : (m : Machine) → IsSound m → IsBounded (fetch_execute m)
unfolding fetch_execute add32
fetch_execute-IsBounded m s = reads-IsBounded m s (m.registers pc_reg) 4 _ λ m' raw s' l.
    execute-IsBounded (decode raw).op_code m' (decode raw) _ s' (decode-IsInstruction raw)
      (omega arith)

-- From a machine whose registers hold 32-bit words, whose pending load is for a general register,
-- and whose memory has its size and holds bytes, whenever OneInstruction comes back the machine is
-- such a machine again, and register 0 is 0, for every instruction word and any page table or TLB.
pub one_instruction-IsReady : (m m' : Machine) → IsSound m → one_instruction m ≡ ok m' → IsReady m'
unfolding one_instruction
one_instruction-IsReady m m' s run = go (fetch_execute m) refl (fetch_execute-IsBounded m s)
  where
    go : (r : Result Outcome) → fetch_execute m ≡ r → IsBounded r → IsReady m'
    go r e (stopped f) = absurd (ground (arith, e, run))
    go r e (going m1 pc t v s1 h low l) =
        let same : finish (done m1 pc t v) ≡ m' = ground (arith, e, run) in
        subst IsReady same (finish-IsReady m1 pc t v s1 h low l)
