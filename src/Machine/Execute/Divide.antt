-- ===== src/Machine/Execute/Divide.antt =====
-- DIV, DIVU, MULT and MULTU of code/machine/mipssim.cc.
use my_nachos.Shared.{
  ℕ, ◌-◌, ◌/◌, ◌%◌, Bool, true, false, ◌&&◌, ◌==◌, if◌then◌else◌, Result, stop, Stop,
}
use my_nachos.Machine.Words.{is_negative, neg32, u32_mod, sign_bit}
use my_nachos.Machine.State.{Machine, set_reg, hi_reg, lo_reg}
use my_nachos.Machine.Decode.{Instruction}
use my_nachos.Machine.Mult.{mult, differ}
use my_nachos.Machine.Execute.{Outcome, goes_on}

abbrev pub absolute : ℕ → ℕ
absolute a = if is_negative a then neg32 a else a

abbrev pub with_sign : Bool → ℕ → ℕ
with_sign negative a = if negative then neg32 a else a

-- C's `a / b` and `a % b` on signed integers: the quotient is rounded towards 0, and the remainder
-- has the sign of `a`.
unfoldable pub signed_div : ℕ → ℕ → ℕ
signed_div a b = with_sign (differ (is_negative a) (is_negative b)) (absolute a / absolute b)

unfoldable pub signed_mod : ℕ → ℕ → ℕ
signed_mod a b = with_sign (is_negative a) (absolute a % absolute b)

-- `registers[LoReg] = lo; registers[HiReg] = hi; break`.
abbrev pub hi_lo : Machine → ℕ → ℕ → ℕ → Result Outcome
hi_lo m pc hi lo = goes_on (set_reg (set_reg m lo_reg lo) hi_reg hi) pc

-- The least integer divided by -1 is undefined in C++.
unfoldable pub exec_div : Machine → Instruction → ℕ → Result Outcome
unfolding signed_div signed_mod
exec_div m i pc =
    let a = m.registers i.rs in
    let b = m.registers i.rt in
    if b == 0
    then hi_lo m pc 0 0
    else if a == sign_bit && b == u32_mod - 1
    then stop Stop.bad_division
    else hi_lo m pc (signed_mod a b) (signed_div a b)

unfoldable pub exec_divu : Machine → Instruction → ℕ → Result Outcome
exec_divu m i pc =
    let rs = m.registers i.rs in
    let rt = m.registers i.rt in if rt == 0 then hi_lo m pc 0 0 else hi_lo m pc (rs % rt) (rs / rt)

unfoldable pub exec_mult : Machine → Instruction → ℕ → Result Outcome
exec_mult m i pc =
    let (hi, lo) = mult (m.registers i.rs) (m.registers i.rt) true in hi_lo m pc hi lo

unfoldable pub exec_multu : Machine → Instruction → ℕ → Result Outcome
exec_multu m i pc =
    let (hi, lo) = mult (m.registers i.rs) (m.registers i.rt) false in hi_lo m pc hi lo
