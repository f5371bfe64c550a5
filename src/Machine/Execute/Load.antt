-- ===== src/Machine/Execute/Load.antt =====
-- The loads of code/machine/mipssim.cc. Their result reaches its register one instruction later.
use Prim.Native.Nat.{bit_and, bit_or}
use my_nachos.Shared.{
  ℕ, Bool, true, false, ◌&&◌, not, none, some, ◌==◌, if◌then◌else◌, Result, ok, ◌>>=◌, ◌>>◌, assert,
}
use my_nachos.Machine.Words.{add32, shl32, sar32, any_bit}
use my_nachos.Machine.State.{Machine, address_error_exception, load_reg, load_value_reg}
use my_nachos.Machine.Memory.{read_mem}
use my_nachos.Machine.Decode.{Instruction}
use my_nachos.Machine.Execute.{Outcome, done, left, traps}

-- `tmp = registers[instr->rs] + instr->extra`.
abbrev pub address : Machine → Instruction → ℕ
address m i = add32 (m.registers i.rs) i.extra

-- `if (!ReadMem(tmp, size, &value)) return`, and then what the case does with the value.
abbrev pub reads : Machine → ℕ → ℕ → (Machine → ℕ → Result Outcome) → Result Outcome
reads m tmp size next =
    read_mem m tmp size >>= λ r. elim r.0 [ none ↦ ok (left r.1) | some value ↦ next r.1 value ]

-- The low byte or half word, with ones above it if `signed` and its top bit is set.
abbrev pub extend_8 : Bool → ℕ → ℕ
extend_8 signed value =
    if any_bit value 0x80 && signed then bit_or value 0xffff_ff00 else bit_and value 0xff

abbrev pub extend_16 : Bool → ℕ → ℕ
extend_16 signed value =
    if any_bit value 0x8000 && signed then bit_or value 0xffff_0000 else bit_and value 0xffff

load_byte : Bool → Machine → Instruction → ℕ → Result Outcome
load_byte signed m i pc =
    reads m (address m i) 1 λ m' value. ok (done m' pc i.rt (extend_8 signed value))

unfoldable pub exec_lb : Machine → Instruction → ℕ → Result Outcome
unfolding load_byte
exec_lb = load_byte true

unfoldable pub exec_lbu : Machine → Instruction → ℕ → Result Outcome
unfolding load_byte
exec_lbu = load_byte false

load_half : Bool → Machine → Instruction → ℕ → Result Outcome
load_half signed m i pc =
    let tmp = address m i in
    if any_bit tmp 1
    then traps m address_error_exception tmp
    else reads m tmp 2 λ m' value. ok (done m' pc i.rt (extend_16 signed value))

unfoldable pub exec_lh : Machine → Instruction → ℕ → Result Outcome
unfolding load_half
exec_lh = load_half true

unfoldable pub exec_lhu : Machine → Instruction → ℕ → Result Outcome
unfolding load_half
exec_lhu = load_half false

unfoldable pub exec_lw : Machine → Instruction → ℕ → Result Outcome
exec_lw m i pc =
    let tmp = address m i in
    if any_bit tmp 3
    then traps m address_error_exception tmp
    else reads m tmp 4 λ m' value. ok (done m' pc i.rt value)

-- `nextLoadValue` before the switch: the register, or the load that is pending for it.
abbrev pub old_value : Machine → Instruction → ℕ
old_value m i =
    if m.registers load_reg == i.rt then m.registers load_value_reg else m.registers i.rt

-- The switches on `tmp & 3` of LWL and LWR.
unfoldable pub merge_left : ℕ → ℕ → ℕ → ℕ
merge_left k old value =
    if k == 0
    then value
    else if k == 1
    then bit_or (bit_and old 0xff) (shl32 value 8)
    else if k == 2
    then bit_or (bit_and old 0xffff) (shl32 value 16)
    else bit_or (bit_and old 0xff_ffff) (shl32 value 24)

unfoldable pub merge_right : ℕ → ℕ → ℕ → ℕ
merge_right k old value =
    if k == 0
    then bit_or (bit_and old 0xffff_ff00) (bit_and (sar32 value 24) 0xff)
    else if k == 1
    then bit_or (bit_and old 0xffff_0000) (bit_and (sar32 value 16) 0xffff)
    else if k == 2
    then bit_or (bit_and old 0xff00_0000) (bit_and (sar32 value 8) 0xff_ffff)
    else value

-- The assertion leaves the first case of each switch alone.
load_part : (ℕ → ℕ → ℕ → ℕ) → Machine → Instruction → ℕ → Result Outcome
load_part merge m i pc =
    let tmp = address m i in
    assert (not (any_bit tmp 3))
    >> reads m tmp 4 λ m' value. ok (done m' pc i.rt (merge (bit_and tmp 3) (old_value m' i) value))

unfoldable pub exec_lwl : Machine → Instruction → ℕ → Result Outcome
unfolding load_part merge_left
exec_lwl = load_part merge_left

unfoldable pub exec_lwr : Machine → Instruction → ℕ → Result Outcome
unfolding load_part merge_right
exec_lwr = load_part merge_right
