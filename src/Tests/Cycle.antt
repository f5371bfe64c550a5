-- ===== src/Tests/Cycle.antt =====
-- A run of Machine::OneInstruction of code/machine/mipssim.cc.
use my_nachos.Shared.{ℕ, ◌<◌, ◌≡◌, refl, true, none, some, [], ◌∷◌, replicate, ok, arith}
use my_nachos.Machine.State.{Machine, TranslationEntry, set_reg, user_mode}
use my_nachos.Machine.Execute.{done}
use my_nachos.Machine.Execute.Bounded.{IsSound}
use my_nachos.Machine.Memory.{read_mem, read_value}
use my_nachos.Machine.Translate.{translate}
use my_nachos.Machine.Decode.{decode}
use my_nachos.Machine.Execute.Shift.{exec_sll}
use my_nachos.Machine.Words.{add32, shl32}
use my_nachos.Machine.Cycle.{execute, finish, one_instruction}
use my_nachos.Machine.Boot.{init_registers}
use my_nachos.Machine.Boot.Start.{get_or-replicate, first_value, init_registers_lem}
use my_nachos.Machine.Cycle.Ready.{IsReady, one_instruction-IsReady}

abbrev first_frame : TranslationEntry
first_frame = record {
  virtual_page = 0;
  physical_page = 0;
  valid = true;
  read_only = true;
  used = true;
  dirty = true;
}

-- A memory of zeros, which are instructions without effect.
abbrev zeros : Machine
zeros = record {
  main_memory = replicate 4096 0;
  registers = λ r. 0;
  tlb = none;
  page_table = some (first_frame ∷ []);
  page_table_size = 1;
  status = user_mode;
}

zeros-IsSound : IsSound zeros
zeros-IsSound = record {
  words = λ r. omega arith;
  target = omega arith;
  memory = refl;
  bytes = get_or-replicate 4096;
}

abbrev after_zero : Machine
after_zero = finish (done (set_reg zeros 0 0) 4 0 0)

one_instruction_run : one_instruction zeros ≡ ok after_zero
unfolding one_instruction finish read_mem translate read_value execute decode exec_sll add32 shl32
one_instruction_run = refl

one_instruction-IsReady_example : IsReady after_zero
one_instruction-IsReady_example =
    one_instruction-IsReady zeros after_zero zeros-IsSound one_instruction_run

init_registers_lem_example :
    (m : Machine) × (init_registers 3 zeros ≡ ok m)
    × ((r : ℕ) → r < 40 → m.registers r ≡ first_value 3 r)
    × (m.main_memory ≡ zeros.main_memory)
init_registers_lem_example = init_registers_lem 3 zeros
