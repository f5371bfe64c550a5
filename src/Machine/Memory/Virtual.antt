-- ===== src/Machine/Memory/Virtual.antt =====
-- Machine::WriteMem and ReadMem (code/machine/translate.cc) through a page table.
use my_nachos.Shared.{
  ℕ, ◌+◌, ◌*◌, ◌/◌, ◌%◌, ◌^◌, ◌<◌, ◌≤◌, ◌≡◌, refl, true, false, none, some, List, length, set,
  get_elem?, get_elem?-set_self, Result, ok, arith,
}
use my_nachos.Machine.State.{Machine, TranslationEntry, ExceptionType, memory_size, page_size}
use my_nachos.Machine.Exceptions.{raise_exception_lem}
use my_nachos.Machine.Translate.{
  Translation, raised, mapped, translate, translate_page, use_entry, touch, misaligned,
}
use my_nachos.Machine.Translate.Bounds.{
  IsAccessSize, PageGives, unaligned, beyond, absent, present, EntryGives, protected, bad_frame,
  hit, translate-PageGives,
}
use my_nachos.Machine.Memory.{read_mem, write_mem}
use my_nachos.Machine.Memory.RoundTrip.{narrow, value_round_trip}

-- A write that was done went through a present entry.
written :
    (m : Machine) (va size v : ℕ) (m' : Machine) (e : ExceptionType)
    → write_mem m va size v ≡ ok (true, m')
    → translate m va size true ≡ ok (raised e)
    → ⊥
unfolding write_mem
written m va size v m' e h t = ground (arith, raise_exception_lem m e va)

module _ (m : Machine) (table : List TranslationEntry) (va size v : ℕ) (m' : Machine)
    (no_tlb : m.tlb ≡ none) (has_table : m.page_table ≡ some table)
    (len : length table ≡ m.page_table_size) (mem_len : length m.main_memory ≡ memory_size)
    (s : IsAccessSize size) (small : v < 2 ^ 32)
    (done : write_mem m va size v ≡ ok (true, m')) where
  -- The state after a write through a present entry.
  through :
      (entry : TranslationEntry) (pa : ℕ)
      → misaligned va size ≡ false
      → va / page_size < m.page_table_size
      → get_elem? table (va / page_size) ≡ some entry
      → entry.valid ≡ true
      → pa ≡ entry.physical_page * page_size + va % page_size
      → pa + size ≤ memory_size
      → translate m va size true
        ≡ ok (
            mapped pa
              (record m { page_table = some (set table (va / page_size) (touch entry true)) }))
      → (m'' : Machine) × (read_mem m' va size ≡ ok (some (narrow size v), m''))
  unfolding write_mem read_mem translate translate_page use_entry
  through entry pa aligned inside at valid is_pa fits t =
      let (mem', w, l, r) =
        value_round_trip m.main_memory pa size v s small (omega (arith, mem_len)) in
      let table' = set table (va / page_size) (touch entry true) in
      let result : m' ≡ record m { page_table = some table'; main_memory = mem' } =
        ground (arith, t, w) in
      let at' : get_elem? table' (va / page_size) ≡ some (touch entry true) =
        get_elem?-set_self table (va / page_size) (touch entry true) (omega (arith, len)) in
      let again : translate m' va size false
          ≡ ok (
              mapped pa (record m' {
                page_table = some (set table' (va / page_size) (touch (touch entry true) false));
              })) =
        rw result (ground (arith, at')) in
      (
        record m' {
          page_table = some (set table' (va / page_size) (touch (touch entry true) false));
        },
        ground (arith, again, result, r),
      )

  by_entry :
      (entry : TranslationEntry) (r : Result Translation)
      → translate m va size true ≡ r
      → misaligned va size ≡ false
      → va / page_size < m.page_table_size
      → get_elem? table (va / page_size) ≡ some entry
      → entry.valid ≡ true
      → EntryGives
          (λ e. record m { page_table = some (set table (va / page_size) e) })
          entry
          va
          size
          true
          r
      → (m'' : Machine) × (read_mem m' va size ≡ ok (some (narrow size v), m''))
  by_entry entry r t aligned inside at valid (protected ro w) =
      absurd (written m va size v m' _ done t)
  by_entry entry r t aligned inside at valid (bad_frame allowed big) =
      absurd (written m va size v m' _ done t)
  by_entry entry r t aligned inside at valid (hit pa allowed is_pa fits) =
      through entry pa aligned inside at valid is_pa fits t

  by_page :
      (r : Result Translation)
      → translate m va size true ≡ r
      → PageGives m table va size true r
      → (m'' : Machine) × (read_mem m' va size ≡ ok (some (narrow size v), m''))
  by_page r t (unaligned bad) = absurd (written m va size v m' _ done t)
  by_page r t (beyond aligned big) = absurd (written m va size v m' _ done t)
  by_page r t (absent entry aligned inside at invalid) = absurd (written m va size v m' _ done t)
  by_page r t (present entry r' aligned inside at valid gives) =
      by_entry entry r t aligned inside at valid gives

  -- Through a page table of the stated length and with the whole memory there, after a WriteMem of
  -- 1, 2 or 4 bytes that returned TRUE, ReadMem of the same size at the same virtual address
  -- succeeds and returns the value cut to that size, a byte being sign-extended.
  pub read_mem-write_mem : (m'' : Machine) × (read_mem m' va size ≡ ok (some (narrow size v), m''))
  read_mem-write_mem =
      by_page (translate m va size true) refl
        (translate-PageGives m table va size true no_tlb has_table len s)
