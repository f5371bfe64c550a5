-- ===== src/Machine/Boot.antt =====
-- The constructor of the machine (code/machine/machine.cc, built without a TLB) and the first values of
-- a user program's registers (code/userprog/addrspace.cc).
pub mod Start
use my_nachos.Shared.{ℕ, zero, suc, ◌+◌, ◌-◌, ◌*◌, ◌%◌, none, replicate, Result, ok, ◌>>=◌}
use my_nachos.Machine.Words.{u32_mod}
use my_nachos.Machine.State.{
  Machine, system_mode, write_register, num_total_regs, memory_size, page_size, pc_reg, next_pc_reg,
}

-- The interrupt object starts in system mode.
unfoldable pub new_machine : Machine
new_machine = record {
  main_memory = replicate memory_size 0;
  registers = λ r. 0;
  tlb = none;
  page_table = none;
  page_table_size = 0;
  status = system_mode;
}

abbrev pub stack_reg : ℕ
stack_reg = 29

-- `for (i = 0; i < NumTotalRegs; i++) machine->WriteRegister(i, 0)`, with the rounds left.
pub clear_registers : ℕ → ℕ → Machine → Result Machine
clear_registers zero i m = ok m
clear_registers (suc n) i m = write_register m i 0 >>= λ m'. clear_registers n (i + 1) m'

-- The stack pointer is 16 bytes below the end of the address space.
unfoldable pub init_registers : ℕ → Machine → Result Machine
init_registers num_pages m = clear_registers num_total_regs 0 m >>= λ m1.
    write_register m1 pc_reg 0 >>= λ m2. write_register m2 next_pc_reg 4 >>= λ m3.
    write_register m3 stack_reg ((num_pages * page_size + u32_mod - 16) % u32_mod)
