-- ===== src/Machine/Memory.antt =====
-- Machine::ReadMem and WriteMem of code/machine/translate.cc, on a little-endian host.
pub mod RoundTrip
pub mod Virtual
use my_nachos.Shared.{
  ℕ, ◌+◌, ◌-◌, ◌*◌, ◌/◌, ◌%◌, ◌^◌, Bool, true, false, Option, none, some, List, ◌==◌, leb,
  if◌then◌else◌, elem, put, Result, ok, stop, Stop, ◌>>=◌,
}
use my_nachos.Machine.State.{Machine, ExceptionType, raise_exception}
use my_nachos.Machine.Translate.{Translation, raised, mapped, translate}

-- `mainMemory` holds signed characters: one that is read as an integer is sign-extended.
abbrev pub char_int : ℕ → ℕ
char_int b = if leb 128 b then b + (2 ^ 32 - 2 ^ 8) else b

read_1 : List ℕ → ℕ → Result ℕ
read_1 mem pa = do b ← elem mem pa; ok (char_int b)

read_2 : List ℕ → ℕ → Result ℕ
read_2 mem pa = do b0 ← elem mem pa; b1 ← elem mem (pa + 1); ok (b0 + 2 ^ 8 * b1)

read_4 : List ℕ → ℕ → Result ℕ
read_4 mem pa = do
  b0 ← elem mem pa
  b1 ← elem mem (pa + 1)
  b2 ← elem mem (pa + 2)
  b3 ← elem mem (pa + 3)
  ok (b0 + 2 ^ 8 * b1 + 2 ^ 16 * b2 + 2 ^ 24 * b3)

-- The switch on the size of a read.
unfoldable pub read_value : List ℕ → ℕ → ℕ → Result ℕ
unfolding read_1 read_2 read_4
read_value mem pa size =
    if size == 1
    then read_1 mem pa
    else if size == 2
    then read_2 mem pa
    else if size == 4
    then read_4 mem pa
    else stop Stop.assert_failed

write_1 : List ℕ → ℕ → ℕ → Result (List ℕ)
write_1 mem pa value = put mem pa (value % 2 ^ 8)

write_2 : List ℕ → ℕ → ℕ → Result (List ℕ)
write_2 mem pa value = do
  mem' ← put mem pa (value % 2 ^ 8)
  put mem' (pa + 1) (value / 2 ^ 8 % 2 ^ 8)

write_4 : List ℕ → ℕ → ℕ → Result (List ℕ)
write_4 mem pa value = do
  mem1 ← put mem pa (value % 2 ^ 8)
  mem2 ← put mem1 (pa + 1) (value / 2 ^ 8 % 2 ^ 8)
  mem3 ← put mem2 (pa + 2) (value / 2 ^ 16 % 2 ^ 8)
  put mem3 (pa + 3) (value / 2 ^ 24 % 2 ^ 8)

-- The switch on the size of a write.
unfoldable pub write_value : List ℕ → ℕ → ℕ → ℕ → Result (List ℕ)
unfolding write_1 write_2 write_4
write_value mem pa size value =
    if size == 1
    then write_1 mem pa value
    else if size == 2
    then write_2 mem pa value
    else if size == 4
    then write_4 mem pa value
    else stop Stop.assert_failed

-- `none` is the FALSE that is returned when the handler of an exception came back.
unfoldable pub read_mem : Machine → ℕ → ℕ → Result (Option ℕ × Machine)
read_mem m addr size = translate m addr size false >>= λ t. elim t [
  | raised e ↦ raise_exception m e addr >>= λ m'. ok (none, m')
  | mapped pa m' ↦ read_value m'.main_memory pa size >>= λ v. ok (some v, m')
]

unfoldable pub write_mem : Machine → ℕ → ℕ → ℕ → Result (Bool × Machine)
write_mem m addr size value = translate m addr size true >>= λ t. elim t [
  | raised e ↦ raise_exception m e addr >>= λ m'. ok (false, m')
  | mapped pa m' ↦
      write_value m'.main_memory pa size value >>= λ mem. ok (true, record m' { main_memory = mem })
]
