-- ===== src/Machine/State.antt =====
-- The state of the simulated machine (code/machine/machine.h and translate.h), its registers
-- (machine.cc), and how an exception enters the kernel (machine.cc, code/userprog/exception.cc).
use my_nachos.Shared.{
  ℕ, ◌*◌, Bool, true, false, ◌&&◌, Option, List, ◌==◌, ltb, if◌then◌else◌, Result, ok, stop, Stop,
  ◌>>=◌, ◌>>◌, assert,
}

pub record TranslationEntry : Type 0 where
  pub virtual_page : ℕ
  pub physical_page : ℕ
  pub valid : Bool
  pub read_only : Bool
  pub used : Bool
  pub dirty : Bool

pub data MachineStatus : Type 0 where
  idle_mode system_mode user_mode : MachineStatus

pub data ExceptionType : Type 0 where
  no_exception syscall_exception page_fault_exception read_only_exception : ExceptionType
  bus_error_exception address_error_exception overflow_exception : ExceptionType
  illegal_instr_exception : ExceptionType

-- `status` is that of the interrupt object, which the machine switches.
pub record Machine : Type 0 where
  pub main_memory : List ℕ
  pub registers : ℕ → ℕ
  pub tlb : Option (List TranslationEntry)
  pub page_table : Option (List TranslationEntry)
  pub page_table_size : ℕ
  pub status : MachineStatus

abbrev pub page_size : ℕ
page_size = 128

abbrev pub num_phys_pages : ℕ
num_phys_pages = 32

abbrev pub memory_size : ℕ
memory_size = num_phys_pages * page_size

abbrev pub r31 : ℕ
r31 = 31

abbrev pub hi_reg : ℕ
hi_reg = 32

abbrev pub lo_reg : ℕ
lo_reg = 33

abbrev pub pc_reg : ℕ
pc_reg = 34

abbrev pub next_pc_reg : ℕ
next_pc_reg = 35

abbrev pub prev_pc_reg : ℕ
prev_pc_reg = 36

abbrev pub load_reg : ℕ
load_reg = 37

abbrev pub load_value_reg : ℕ
load_value_reg = 38

abbrev pub bad_v_addr_reg : ℕ
bad_v_addr_reg = 39

abbrev pub num_total_regs : ℕ
num_total_regs = 40

-- `registers[r] = v`.
abbrev pub set_reg : Machine → ℕ → ℕ → Machine
set_reg m r v = record m { registers = λ k. if k == r then v else m.registers k }

unfoldable pub read_register : Machine → ℕ → Result ℕ
read_register m num = do assert (ltb num num_total_regs); ok (m.registers num)

unfoldable pub write_register : Machine → ℕ → ℕ → Result Machine
write_register m num value = do assert (ltb num num_total_regs); ok (set_reg m num value)

unfoldable pub delayed_load : Machine → ℕ → ℕ → Machine
delayed_load m next_reg next_value =
    let loaded = set_reg m (m.registers load_reg) (m.registers load_value_reg) in
    let pending = set_reg (set_reg loaded load_reg next_reg) load_value_reg next_value in
    set_reg pending 0 0

abbrev pub sc_halt : ℕ
sc_halt = 0

abbrev pub is_syscall : ExceptionType → Bool
is_syscall syscall_exception = true
is_syscall _ = false

-- `ExceptionHandler`: only the Halt system call is implemented.
unfoldable pub exception_handler : Machine → ExceptionType → Result Machine
unfolding read_register
exception_handler m which = do
  type ← read_register m 2
  if is_syscall which && type == sc_halt then stop Stop.halted else stop Stop.assert_failed

unfoldable pub raise_exception : Machine → ExceptionType → ℕ → Result Machine
unfolding delayed_load exception_handler
raise_exception m which bad_v_addr = do
  let entered = delayed_load (set_reg m bad_v_addr_reg bad_v_addr) 0 0
  m' ← exception_handler (record entered { status = system_mode }) which
  ok (record m' { status = user_mode })
