-- ===== src/Machine/Execute/Bounded/Registers.antt =====
-- The instructions on registers of code/machine/mipssim.cc, and the ranges of their results.
use my_nachos.Shared.{ℕ, ◌^◌, ◌<◌, Bool, true, false, if◌then◌else◌, arith}
use my_nachos.Shared.Bits.{bit_or-lt}
use my_nachos.Machine.Words.{add32, sub32}
use my_nachos.Machine.Words.Sign.{and-lt, bit_xor-lt, shl32-lt}
use my_nachos.Machine.State.{Machine, overflow_exception, hi_reg, lo_reg}
use my_nachos.Machine.Decode.{Instruction}
use my_nachos.Machine.Execute.{writes}
use my_nachos.Machine.Execute.Arith.{
  exec_add, exec_addi, exec_addiu, exec_addu, exec_sub, exec_subu, exec_slt, exec_slti, exec_sltiu,
  exec_sltu,
}
use my_nachos.Machine.Execute.Logic.{
  exec_and, exec_andi, exec_nor, exec_or, exec_ori, exec_xor, exec_xori, exec_lui, exec_mfhi,
  exec_mflo, exec_mthi, exec_mtlo,
}
use my_nachos.Machine.Execute.Bounded.{
  IsSound, IsBounded, IsInstruction, writes-IsBounded, traps-IsBounded, if-IsBounded,
}

module _ (m : Machine) (i : Instruction) (pc : ℕ) (s : IsSound m) (d : IsInstruction i)
    (h : pc < 2 ^ 32) where
  rs-lt : m.registers i.rs < 2 ^ 32
  rs-lt = s.words i.rs

  rt-lt : m.registers i.rt < 2 ^ 32
  rt-lt = s.words i.rt

  to_rd : (v : ℕ) → v < 2 ^ 32 → IsBounded (writes m pc i.rd v)
  to_rd v l = writes-IsBounded m pc i.rd v s (omega (arith, d.rd)) h l

  to_rt : (v : ℕ) → v < 2 ^ 32 → IsBounded (writes m pc i.rt v)
  to_rt v l = writes-IsBounded m pc i.rt v s (omega (arith, d.rt)) h l

  flag-lt : (b : Bool) → (if b then 1 else 0) < 2 ^ 32
  flag-lt true = omega arith
  flag-lt false = omega arith

  pub exec_add-IsBounded : IsBounded (exec_add m i pc)
  unfolding exec_add add32
  exec_add-IsBounded =
      if-IsBounded _ (traps-IsBounded m overflow_exception 0) (to_rd _ (omega arith))

  pub exec_sub-IsBounded : IsBounded (exec_sub m i pc)
  unfolding exec_sub sub32
  exec_sub-IsBounded =
      if-IsBounded _ (traps-IsBounded m overflow_exception 0) (to_rd _ (omega arith))

  pub exec_addi-IsBounded : IsBounded (exec_addi m i pc)
  unfolding exec_addi add32
  exec_addi-IsBounded =
      if-IsBounded _ (traps-IsBounded m overflow_exception 0) (to_rt _ (omega arith))

  pub exec_addiu-IsBounded : IsBounded (exec_addiu m i pc)
  unfolding exec_addiu add32
  exec_addiu-IsBounded = to_rt _ (omega arith)

  pub exec_addu-IsBounded : IsBounded (exec_addu m i pc)
  unfolding exec_addu add32
  exec_addu-IsBounded = to_rd _ (omega arith)

  pub exec_subu-IsBounded : IsBounded (exec_subu m i pc)
  unfolding exec_subu sub32
  exec_subu-IsBounded = to_rd _ (omega arith)

  pub exec_slt-IsBounded : IsBounded (exec_slt m i pc)
  unfolding exec_slt
  exec_slt-IsBounded = to_rd _ (flag-lt _)

  pub exec_sltu-IsBounded : IsBounded (exec_sltu m i pc)
  unfolding exec_sltu
  exec_sltu-IsBounded = to_rd _ (flag-lt _)

  pub exec_slti-IsBounded : IsBounded (exec_slti m i pc)
  unfolding exec_slti
  exec_slti-IsBounded = to_rt _ (flag-lt _)

  pub exec_sltiu-IsBounded : IsBounded (exec_sltiu m i pc)
  unfolding exec_sltiu
  exec_sltiu-IsBounded = to_rt _ (flag-lt _)

  pub exec_and-IsBounded : IsBounded (exec_and m i pc)
  unfolding exec_and
  exec_and-IsBounded = to_rd _ (and-lt (m.registers i.rs) (m.registers i.rt) rs-lt)

  pub exec_andi-IsBounded : IsBounded (exec_andi m i pc)
  unfolding exec_andi
  exec_andi-IsBounded = to_rt _ (and-lt (m.registers i.rs) _ rs-lt)

  pub exec_nor-IsBounded : IsBounded (exec_nor m i pc)
  unfolding exec_nor
  exec_nor-IsBounded = to_rd _ (omega arith)

  pub exec_or-IsBounded : IsBounded (exec_or m i pc)
  unfolding exec_or
  exec_or-IsBounded = to_rd _ (bit_or-lt 32 (m.registers i.rs) (m.registers i.rs) rs-lt rs-lt)

  pub exec_ori-IsBounded : IsBounded (exec_ori m i pc)
  unfolding exec_ori
  exec_ori-IsBounded =
      to_rt _ (bit_or-lt 32 (m.registers i.rs) _ rs-lt (and-lt i.extra 0xffff d.extra))

  pub exec_xor-IsBounded : IsBounded (exec_xor m i pc)
  unfolding exec_xor
  exec_xor-IsBounded = to_rd _ (bit_xor-lt 32 (m.registers i.rs) (m.registers i.rt) rs-lt rt-lt)

  pub exec_xori-IsBounded : IsBounded (exec_xori m i pc)
  unfolding exec_xori
  exec_xori-IsBounded =
      to_rt _ (bit_xor-lt 32 (m.registers i.rs) _ rs-lt (and-lt i.extra 0xffff d.extra))

  pub exec_lui-IsBounded : IsBounded (exec_lui m i pc)
  unfolding exec_lui
  exec_lui-IsBounded = to_rt _ (shl32-lt i.extra 16)

  pub exec_mfhi-IsBounded : IsBounded (exec_mfhi m i pc)
  unfolding exec_mfhi
  exec_mfhi-IsBounded = to_rd _ (s.words hi_reg)

  pub exec_mflo-IsBounded : IsBounded (exec_mflo m i pc)
  unfolding exec_mflo
  exec_mflo-IsBounded = to_rd _ (s.words lo_reg)

  pub exec_mthi-IsBounded : IsBounded (exec_mthi m i pc)
  unfolding exec_mthi
  exec_mthi-IsBounded = writes-IsBounded m pc hi_reg _ s (omega arith) h rs-lt

  pub exec_mtlo-IsBounded : IsBounded (exec_mtlo m i pc)
  unfolding exec_mtlo
  exec_mtlo-IsBounded = writes-IsBounded m pc lo_reg _ s (omega arith) h rs-lt
