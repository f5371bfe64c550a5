-- ===== src/Machine/Execute/Bounded/Control.antt =====
-- The shifts, branches, jumps, products and quotients of code/machine/mipssim.cc, and the ranges of
-- their results.
use native.Mathlib.Nat.{div-le_self, mod-le}
use my_nachos.Shared.{ℕ, ◌/◌, ◌%◌, ◌^◌, ◌<◌, Bool, true, false, if◌then◌else◌, Stop, arith}
use my_nachos.Shared.Bits.{bit_and-le, bit_or-lt}
use my_nachos.Machine.Words.{add32, shl32}
use my_nachos.Machine.Words.Sign.{shl32-lt, sar32-lt}
use my_nachos.Machine.State.{Machine, next_pc_reg, hi_reg, lo_reg, r31}
use my_nachos.Machine.Decode.{Instruction}
use my_nachos.Machine.Mult.Product.{mult-lt}
use my_nachos.Machine.Execute.{writes}
use my_nachos.Machine.Execute.Shift.{exec_sll, exec_sllv, exec_sra, exec_srav, exec_srl, exec_srlv}
use my_nachos.Machine.Execute.Branch.{
  branches, link, exec_beq, exec_bne, exec_bgez, exec_bgezal, exec_bltz, exec_bltzal, exec_bgtz,
  exec_blez, exec_j, exec_jal, exec_jr, exec_jalr,
}
use my_nachos.Machine.Execute.Divide.{
  signed_div, signed_mod, absolute, with_sign, hi_lo, exec_div, exec_divu, exec_mult, exec_multu,
}
use my_nachos.Machine.Execute.Bounded.{
  IsSound, IsBounded, IsInstruction, stopped, set_reg-IsSound, goes_on-IsBounded, writes-IsBounded,
  if-IsBounded,
}

module _ (m : Machine) (i : Instruction) (pc : ℕ) (s : IsSound m) (d : IsInstruction i)
    (h : pc < 2 ^ 32) where
  shifted : (v : ℕ) → v < 2 ^ 32 → IsBounded (writes m pc i.rd v)
  shifted v l = writes-IsBounded m pc i.rd v s (omega (arith, d.rd)) h l

  taken-lt : (b : Bool) (x : ℕ) → (if b then add32 x (shl32 i.extra 2) else pc) < 2 ^ 32
  unfolding add32
  taken-lt true x = omega arith
  taken-lt false x = h

  pub branches-IsBounded : (b : Bool) → IsBounded (branches b m i pc)
  branches-IsBounded b = goes_on-IsBounded m _ s (taken-lt b (m.registers next_pc_reg))

  link-IsSound : (r : ℕ) → r < 37 → IsSound (link m r)
  unfolding add32
  link-IsSound r l = set_reg-IsSound m r _ s l (omega arith)

  hi_lo-IsBounded : (hi lo : ℕ) → hi < 2 ^ 32 → lo < 2 ^ 32 → IsBounded (hi_lo m pc hi lo)
  hi_lo-IsBounded hi lo a b =
      goes_on-IsBounded _ pc
        (set_reg-IsSound _ hi_reg hi (set_reg-IsSound m lo_reg lo s (omega arith) b) (omega arith)
          a)
        h

  pub exec_sll-IsBounded : IsBounded (exec_sll m i pc)
  unfolding exec_sll
  exec_sll-IsBounded = shifted _ (shl32-lt _ _)

  pub exec_sllv-IsBounded : IsBounded (exec_sllv m i pc)
  unfolding exec_sllv
  exec_sllv-IsBounded = shifted _ (shl32-lt _ _)

  pub exec_sra-IsBounded : IsBounded (exec_sra m i pc)
  unfolding exec_sra
  exec_sra-IsBounded = shifted _ (sar32-lt _ _ (s.words i.rt))

  pub exec_srav-IsBounded : IsBounded (exec_srav m i pc)
  unfolding exec_srav
  exec_srav-IsBounded = shifted _ (sar32-lt _ _ (s.words i.rt))

  pub exec_srl-IsBounded : IsBounded (exec_srl m i pc)
  unfolding exec_srl
  exec_srl-IsBounded = shifted _ (sar32-lt _ _ (s.words i.rt))

  pub exec_srlv-IsBounded : IsBounded (exec_srlv m i pc)
  unfolding exec_srlv
  exec_srlv-IsBounded = shifted _ (sar32-lt _ _ (s.words i.rt))

  pub exec_beq-IsBounded : IsBounded (exec_beq m i pc)
  unfolding exec_beq
  exec_beq-IsBounded = branches-IsBounded _

  pub exec_bne-IsBounded : IsBounded (exec_bne m i pc)
  unfolding exec_bne
  exec_bne-IsBounded = branches-IsBounded _

  pub exec_bgez-IsBounded : IsBounded (exec_bgez m i pc)
  unfolding exec_bgez
  exec_bgez-IsBounded = branches-IsBounded _

  pub exec_bltz-IsBounded : IsBounded (exec_bltz m i pc)
  unfolding exec_bltz
  exec_bltz-IsBounded = branches-IsBounded _

  pub exec_bgtz-IsBounded : IsBounded (exec_bgtz m i pc)
  unfolding exec_bgtz
  exec_bgtz-IsBounded = branches-IsBounded _

  pub exec_blez-IsBounded : IsBounded (exec_blez m i pc)
  unfolding exec_blez
  exec_blez-IsBounded = branches-IsBounded _

  pub exec_j-IsBounded : IsBounded (exec_j m i pc)
  unfolding exec_j
  exec_j-IsBounded = goes_on-IsBounded m _ s (
      bit_or-lt 32 _ _ (omega (arith, bit_and-le pc 0xf000_0000 pc (omega arith)))
        (shl32-lt i.extra 2))

  pub exec_jr-IsBounded : IsBounded (exec_jr m i pc)
  unfolding exec_jr
  exec_jr-IsBounded = goes_on-IsBounded m _ s (s.words i.rs)

  pub exec_mult-IsBounded : IsBounded (exec_mult m i pc)
  unfolding exec_mult
  exec_mult-IsBounded =
      hi_lo-IsBounded _ _ (mult-lt true _ _ (s.words i.rs) (s.words i.rt)).0
        (mult-lt true _ _ (s.words i.rs) (s.words i.rt)).1

  pub exec_multu-IsBounded : IsBounded (exec_multu m i pc)
  unfolding exec_multu
  exec_multu-IsBounded =
      hi_lo-IsBounded _ _ (mult-lt false _ _ (s.words i.rs) (s.words i.rt)).0
        (mult-lt false _ _ (s.words i.rs) (s.words i.rt)).1

  quotient-lt : (a b : ℕ) → a < 2 ^ 32 → (a / b < 2 ^ 32) × (a % b < 2 ^ 32)
  quotient-lt a b l = (omega (arith, div-le_self a b), omega (arith, mod-le a b))

  with_sign-lt : (negative : Bool) (a : ℕ) → a < 2 ^ 32 → with_sign negative a < 2 ^ 32
  with_sign-lt true a l = omega arith
  with_sign-lt false a l = l

  signed-lt : (a b : ℕ) → a < 2 ^ 32 → (signed_div a b < 2 ^ 32) × (signed_mod a b < 2 ^ 32)
  unfolding signed_div signed_mod
  signed-lt a b l =
      let (small_div, small_mod) = quotient-lt (absolute a) (absolute b) (ground arith) in
      (with_sign-lt _ _ small_div, with_sign-lt _ _ small_mod)

  pub exec_divu-IsBounded : IsBounded (exec_divu m i pc)
  unfolding exec_divu
  exec_divu-IsBounded =
      if-IsBounded _ (hi_lo-IsBounded 0 0 (omega arith) (omega arith))
        (hi_lo-IsBounded _ _ (quotient-lt _ _ (s.words i.rs)).1 (quotient-lt _ _ (s.words i.rs)).0)

  pub exec_div-IsBounded : IsBounded (exec_div m i pc)
  unfolding exec_div
  exec_div-IsBounded = if-IsBounded _ (hi_lo-IsBounded 0 0 (omega arith) (omega arith)) (
      if-IsBounded _ (stopped Stop.bad_division) (
        hi_lo-IsBounded _ _ (signed-lt (m.registers i.rs) (m.registers i.rt) (s.words i.rs)).1
          (signed-lt (m.registers i.rs) (m.registers i.rt) (s.words i.rs)).0))

-- The branches that link, on the machine with the return address.
module _ (m : Machine) (i : Instruction) (pc : ℕ) (s : IsSound m) (d : IsInstruction i)
    (h : pc < 2 ^ 32) where
  pub exec_bgezal-IsBounded : IsBounded (exec_bgezal m i pc)
  unfolding exec_bgezal
  exec_bgezal-IsBounded =
      exec_bgez-IsBounded (link m r31) i pc (link-IsSound m i pc s d h r31 (omega (arith, d.rd))) d
        h

  pub exec_bltzal-IsBounded : IsBounded (exec_bltzal m i pc)
  unfolding exec_bltzal
  exec_bltzal-IsBounded =
      exec_bltz-IsBounded (link m r31) i pc (link-IsSound m i pc s d h r31 (omega (arith, d.rd))) d
        h

  pub exec_jal-IsBounded : IsBounded (exec_jal m i pc)
  unfolding exec_jal
  exec_jal-IsBounded =
      exec_j-IsBounded (link m r31) i pc (link-IsSound m i pc s d h r31 (omega (arith, d.rd))) d h

  pub exec_jalr-IsBounded : IsBounded (exec_jalr m i pc)
  unfolding exec_jalr
  exec_jalr-IsBounded =
      exec_jr-IsBounded (link m i.rd) i pc (link-IsSound m i pc s d h i.rd (omega (arith, d.rd))) d
        h
