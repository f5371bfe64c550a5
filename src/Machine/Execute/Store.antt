-- ===== src/Machine/Execute/Store.antt =====
-- The stores of code/machine/mipssim.cc.
use Prim.Native.Nat.{bit_and, bit_or}
use my_nachos.Shared.{
  ℕ, ◌-◌, true, false, not, ◌==◌, if◌then◌else◌, Result, ok, ◌>>=◌, ◌>>◌, assert,
}
use my_nachos.Machine.Words.{u32_mod, shl32, sar32, any_bit}
use my_nachos.Machine.State.{Machine}
use my_nachos.Machine.Memory.{write_mem}
use my_nachos.Machine.Decode.{Instruction}
use my_nachos.Machine.Execute.{Outcome, left, goes_on}
use my_nachos.Machine.Execute.Load.{address, reads}

-- `if (!WriteMem(addr, size, value)) return; break`.
abbrev pub stores : Machine → ℕ → ℕ → ℕ → ℕ → Result Outcome
stores m addr size value pc =
    write_mem m addr size value >>= λ r. elim r.0 [ false ↦ ok (left r.1) | true ↦ goes_on r.1 pc ]

unfoldable pub exec_sb : Machine → Instruction → ℕ → Result Outcome
exec_sb m i pc = stores m (address m i) 1 (m.registers i.rt) pc

unfoldable pub exec_sh : Machine → Instruction → ℕ → Result Outcome
exec_sh m i pc = stores m (address m i) 2 (m.registers i.rt) pc

unfoldable pub exec_sw : Machine → Instruction → ℕ → Result Outcome
exec_sw m i pc = stores m (address m i) 4 (m.registers i.rt) pc

-- The switches on `tmp & 3` of SWL and SWR; `reg` is the register that is stored.
unfoldable pub split_left : ℕ → ℕ → ℕ → ℕ
split_left k reg value =
    if k == 0
    then reg
    else if k == 1
    then bit_or (bit_and value 0xff00_0000) (bit_and (sar32 reg 8) 0xff_ffff)
    else if k == 2
    then bit_or (bit_and value 0xffff_0000) (bit_and (sar32 reg 16) 0xffff)
    else bit_or (bit_and value 0xffff_ff00) (bit_and (sar32 reg 24) 0xff)

unfoldable pub split_right : ℕ → ℕ → ℕ → ℕ
split_right k reg value =
    if k == 0
    then bit_or (bit_and value 0xff_ffff) (shl32 reg 24)
    else if k == 1
    then bit_or (bit_and value 0xffff) (shl32 reg 16)
    else if k == 2
    then bit_or (bit_and value 0xff) (shl32 reg 8)
    else reg

store_part : (ℕ → ℕ → ℕ → ℕ) → Machine → Instruction → ℕ → Result Outcome
store_part split m i pc =
    let tmp = address m i in
    let aligned = bit_and tmp (u32_mod - 1 - 3) in
    assert (not (any_bit tmp 3))
    >> reads m aligned 4
        λ m' value. stores m' aligned 4 (split (bit_and tmp 3) (m'.registers i.rt) value) pc

unfoldable pub exec_swl : Machine → Instruction → ℕ → Result Outcome
unfolding store_part split_left
exec_swl = store_part split_left

unfoldable pub exec_swr : Machine → Instruction → ℕ → Result Outcome
unfolding store_part split_right
exec_swr = store_part split_right
