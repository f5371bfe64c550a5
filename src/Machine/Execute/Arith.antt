-- ===== src/Machine/Execute/Arith.antt =====
-- ADD, ADDI, ADDIU, ADDU, SUB, SUBU and the comparisons of code/machine/mipssim.cc.
pub mod Overflow
use Prim.Native.Nat.{bit_and, bit_xor}
use my_nachos.Shared.{ℕ, Bool, ◌&&◌, not, ltb, ◌==◌, if◌then◌else◌, Result}
use my_nachos.Machine.Words.{add32, sub32, sign_bit, any_bit, signed_lt}
use my_nachos.Machine.State.{Machine, overflow_exception}
use my_nachos.Machine.Decode.{Instruction}
use my_nachos.Machine.Execute.{Outcome, writes, traps}

unfoldable pub exec_add : Machine → Instruction → ℕ → Result Outcome
exec_add m i pc =
    let a = m.registers i.rs in
    let b = m.registers i.rt in
    let sum = add32 a b in
    if not (any_bit (bit_xor a b) sign_bit) && any_bit (bit_xor a sum) sign_bit
    then traps m overflow_exception 0
    else writes m pc i.rd sum

unfoldable pub exec_addi : Machine → Instruction → ℕ → Result Outcome
exec_addi m i pc =
    let a = m.registers i.rs in
    let sum = add32 a i.extra in
    if not (any_bit (bit_xor a i.extra) sign_bit) && any_bit (bit_xor i.extra sum) sign_bit
    then traps m overflow_exception 0
    else writes m pc i.rt sum

unfoldable pub exec_addiu : Machine → Instruction → ℕ → Result Outcome
exec_addiu m i pc = writes m pc i.rt (add32 (m.registers i.rs) i.extra)

unfoldable pub exec_addu : Machine → Instruction → ℕ → Result Outcome
exec_addu m i pc = writes m pc i.rd (add32 (m.registers i.rs) (m.registers i.rt))

unfoldable pub exec_sub : Machine → Instruction → ℕ → Result Outcome
exec_sub m i pc =
    let a = m.registers i.rs in
    let b = m.registers i.rt in
    let diff = sub32 a b in
    if any_bit (bit_xor a b) sign_bit && any_bit (bit_xor a diff) sign_bit
    then traps m overflow_exception 0
    else writes m pc i.rd diff

unfoldable pub exec_subu : Machine → Instruction → ℕ → Result Outcome
exec_subu m i pc = writes m pc i.rd (sub32 (m.registers i.rs) (m.registers i.rt))

abbrev flag : Bool → ℕ
flag b = if b then 1 else 0

unfoldable pub exec_slt : Machine → Instruction → ℕ → Result Outcome
exec_slt m i pc = writes m pc i.rd (flag (signed_lt (m.registers i.rs) (m.registers i.rt)))

unfoldable pub exec_slti : Machine → Instruction → ℕ → Result Outcome
exec_slti m i pc = writes m pc i.rt (flag (signed_lt (m.registers i.rs) i.extra))

unfoldable pub exec_sltiu : Machine → Instruction → ℕ → Result Outcome
exec_sltiu m i pc = writes m pc i.rt (flag (ltb (m.registers i.rs) i.extra))

unfoldable pub exec_sltu : Machine → Instruction → ℕ → Result Outcome
exec_sltu m i pc = writes m pc i.rd (flag (ltb (m.registers i.rs) (m.registers i.rt)))
