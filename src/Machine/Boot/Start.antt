-- ===== src/Machine/Boot/Start.antt =====
-- The machine and its registers (code/machine/machine.cc, code/userprog/addrspace.cc) at the start of
-- a user program.
use my_nachos.Shared.{
  ℕ, zero, suc, ◌+◌, ◌-◌, ◌*◌, ◌%◌, ◌^◌, ◌<◌, ◌≡◌, refl, subst, length, get_or, replicate, ◌==◌,
  if◌then◌else◌, ok, arith, lt→ltb,
}
use my_nachos.Machine.Words.{u32_mod}
use my_nachos.Machine.State.{
  Machine, set_reg, write_register, page_size, pc_reg, next_pc_reg, memory_size,
}
use my_nachos.Machine.Boot.{new_machine, stack_reg, clear_registers, init_registers}
use my_nachos.Machine.Execute.Bounded.{IsSound}

length-replicate : (n : ℕ) → length {A = ℕ} (replicate n 0) ≡ n
length-replicate zero = refl
length-replicate (suc n) = omega (arith, length-replicate n)

pub get_or-replicate : (n a : ℕ) → get_or (replicate n 0) a 0 < 2 ^ 8
get_or-replicate zero a = omega arith
get_or-replicate (suc n) zero = omega arith
get_or-replicate (suc n) (suc a) = get_or-replicate n a

pub new_machine-IsSound : IsSound new_machine
unfolding new_machine
new_machine-IsSound = record {
  words = λ r. omega arith;
  target = omega arith;
  memory = length-replicate memory_size;
  bytes = get_or-replicate memory_size;
}

-- The registers below `n` are 0, and all else is as in `m`.
record Cleared (m : Machine) (n : ℕ) (m' : Machine) : Type 0 where
  clear : (r : ℕ) → r < n → m'.registers r ≡ 0
  memory : m'.main_memory ≡ m.main_memory

clear_registers_lem :
    (m : Machine) (n i : ℕ) (m1 : Machine)
    → i + n ≡ 40
    → Cleared m i m1
    → (m' : Machine) × (clear_registers n i m1 ≡ ok m') × Cleared m 40 m'
unfolding clear_registers write_register
clear_registers_lem m zero i m1 e c =
    (m1, refl, (let full : i ≡ 40 = omega arith in subst (λ k. Cleared m k m1) full c))
clear_registers_lem m (suc n) i m1 e c =
    let (m', run, c') =
      clear_registers_lem m n (i + 1) (set_reg m1 i 0) (omega arith)
        (record { clear = λ r h. ground (arith, c.clear r); memory = c.memory }) in
    (m', rw (lt→ltb i 40 (omega arith)) run, c')

-- What the registers of a new program are.
pub first_value : ℕ → ℕ → ℕ
first_value num_pages r =
    if r == stack_reg
    then (num_pages * page_size + u32_mod - 16) % u32_mod
    else if r == next_pc_reg
    then 4
    else 0

-- On any machine, InitRegisters succeeds, leaves the memory, and sets each register to 0, but for
-- the next program counter, which is 4, and the stack pointer, which is 16 bytes below the end of
-- the address space.
pub init_registers_lem :
    (num_pages : ℕ) (m : Machine)
    → (m' : Machine) × (init_registers num_pages m ≡ ok m')
      × ((r : ℕ) → r < 40 → m'.registers r ≡ first_value num_pages r)
      × (m'.main_memory ≡ m.main_memory)
unfolding init_registers write_register first_value
init_registers_lem num_pages m =
    let (m1, run, c) =
      clear_registers_lem m 40 0 m refl
        (record { clear = λ r h. absurd (omega arith); memory = refl }) in
    (
      set_reg (set_reg (set_reg m1 pc_reg 0) next_pc_reg 4) stack_reg
          ((num_pages * page_size + u32_mod - 16) % u32_mod),
      rw run refl,
      (λ r h. ground (arith, c.clear r h)),
      c.memory,
    )
