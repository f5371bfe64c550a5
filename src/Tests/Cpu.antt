-- ===== src/Tests/Cpu.antt =====
-- Runs of code/machine/translate.cc and mipssim.cc.
use my_nachos.Shared.{
  ◌+◌, ◌-◌, ◌*◌, ◌^◌, ◌≡◌, refl, inl, inr, arith, true, false, none, some, List, [], ◌∷◌, replicate,
  set, ok, stop, Stop, get_or,
}
use my_nachos.Machine.State.{
  Machine, TranslationEntry, user_mode, syscall_exception, raise_exception,
}
use my_nachos.Machine.Exceptions.{raise_exception_lem}
use my_nachos.Machine.Translate.{translate}
use my_nachos.Machine.Translate.Bounds.{PageGives, translate-PageGives}
use my_nachos.Machine.Translate.Tlb.{TlbGives, translate-TlbGives}
use my_nachos.Machine.Memory.{read_mem, write_mem, write_value}
use my_nachos.Machine.Memory.RoundTrip.{narrow}
use my_nachos.Machine.Memory.Virtual.{read_mem-write_mem}
use my_nachos.Machine.Mult.{mult}
use my_nachos.Machine.Mult.Loop.{double}
use my_nachos.Machine.Mult.Product.{mult-unsigned, mult-signed}
use my_nachos.Machine.Decode.{decode, special_table, op_res, Instruction}
use my_nachos.Machine.Execute.Arith.{exec_add, exec_addi, exec_sub}
use my_nachos.Machine.Execute.Arith.Overflow.{
  biased, Gives, exec_add-Gives, exec_addi-Gives, exec_sub-Gives,
}
use my_nachos.Machine.Decode.Fields.{encode_r, decode-encode_r}

abbrev frame_three : TranslationEntry
frame_three = record {
  virtual_page = 0;
  physical_page = 3;
  valid = true;
  read_only = false;
  used = false;
  dirty = false;
}

abbrev pages : List TranslationEntry
pages = frame_three ∷ []

-- One page, in frame 3.
abbrev one_page : Machine
one_page = record {
  main_memory = replicate 4096 0;
  registers = λ r. 0;
  tlb = none;
  page_table = some pages;
  page_table_size = 1;
  status = user_mode;
}

abbrev one_tlb_entry : Machine
one_tlb_entry = record one_page { tlb = some pages; page_table = none }

translate-PageGives_example : PageGives one_page pages 8 4 true (translate one_page 8 4 true)
translate-PageGives_example =
    translate-PageGives one_page pages 8 4 true refl refl refl (inr (inr refl))

translate-TlbGives_example :
    TlbGives one_tlb_entry pages 200 2 false (translate one_tlb_entry 200 2 false)
translate-TlbGives_example =
    translate-TlbGives one_tlb_entry pages 200 2 false refl refl (inr (inl refl))

abbrev after_write : Machine
after_write = record one_page {
  page_table = some (record frame_three { used = true; dirty = true } ∷ []);
  main_memory = set (set (set (set (replicate 4096 0) 392 0x78) 393 0x56) 394 0x34) 395 0x12;
}

write_run : write_mem one_page 8 4 0x1234_5678 ≡ ok (true, after_write)
unfolding write_mem translate write_value
write_run = refl

read_mem-write_mem_example :
    (m : Machine) × (read_mem after_write 8 4 ≡ ok (some (narrow 4 0x1234_5678), m))
read_mem-write_mem_example =
    read_mem-write_mem one_page pages 8 4 0x1234_5678 after_write refl refl refl refl
      (inr (inr refl)) (omega arith) write_run

raise_exception_lem_example : raise_exception one_page syscall_exception 0 ≡ stop Stop.halted
raise_exception_lem_example = raise_exception_lem one_page syscall_exception 0

mult_run : mult 0xffff_ffff 5 true ≡ (0xffff_ffff, 0xffff_fffb)
unfolding mult my_nachos.Machine.Mult.mult_loop my_nachos.Machine.Mult.negate
    my_nachos.Machine.Mult.accumulate my_nachos.Machine.Mult.shift
mult_run = refl

mult-unsigned_example : double (mult 70000 90000 false).0 (mult 70000 90000 false).1 ≡ 70000 * 90000
mult-unsigned_example = mult-unsigned 70000 90000 (omega arith) (omega arith)

mult-signed_example : double (mult 0xffff_ffff 5 true).0 (mult 0xffff_ffff 5 true).1 ≡ 2 ^ 64 - 5
mult-signed_example = mult-signed 0xffff_ffff 5 (omega arith) (omega arith)

decode-encode_r_example : decode (encode_r 1 2 3 0 0x20) ≡ record {
  value = encode_r 1 2 3 0 0x20;
  op_code = get_or special_table 0x20 op_res;
  rs = 1;
  rt = 2;
  rd = 3;
  extra = 0;
}
decode-encode_r_example =
    decode-encode_r 1 2 3 0 0x20 (omega arith) (omega arith) (omega arith) (omega arith)
      (omega arith)

-- Both operands are 2 ^ 31 - 1.
abbrev large : Machine
large = record one_page { registers = λ r. 0x7fff_ffff }

abbrev add_regs : Instruction
add_regs = record { value = 0; op_code = op_res; rs = 1; rt = 2; rd = 3; extra = 0xffff_ffff }

exec_add-Gives_example :
    Gives large 8 3 (biased 0x7fff_ffff + biased 0x7fff_ffff) (exec_add large add_regs 8)
exec_add-Gives_example = exec_add-Gives large add_regs 8 (omega arith) (omega arith)

exec_addi-Gives_example :
    Gives large 8 2 (biased 0x7fff_ffff + biased 0xffff_ffff) (exec_addi large add_regs 8)
exec_addi-Gives_example = exec_addi-Gives large add_regs 8 (omega arith) (omega arith)

exec_sub-Gives_example :
    Gives large 8 3 (biased 0x7fff_ffff + 2 ^ 32 - biased 0x7fff_ffff) (exec_sub large add_regs 8)
exec_sub-Gives_example = exec_sub-Gives large add_regs 8 (omega arith) (omega arith)
