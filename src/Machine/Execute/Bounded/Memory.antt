-- ===== src/Machine/Execute/Bounded/Memory.antt =====
-- Machine::Translate of code/machine/translate.cc: what a translation leaves alone.
use my_nachos.Shared.{
  ℕ, ◌+◌, ◌*◌, ◌/◌, ◌%◌, ◌≡◌, refl, Bool, true, false, Option, none, some, List, ◌&&◌, not, ◌||◌,
  set, elem, assert, if◌then◌else◌, leb, Result, ok, stop, Stop, ◌>>=◌, ◌>>◌,
}
use my_nachos.Machine.State.{
  Machine, TranslationEntry, ExceptionType, page_size, num_phys_pages, memory_size,
  address_error_exception, page_fault_exception, read_only_exception, bus_error_exception,
}
use my_nachos.Machine.Translate.{
  Translation, raised, mapped, misaligned, is_none, find_tlb, touch, use_entry, translate_page,
  translate_tlb, translate,
}

-- A translation changes only the tables.
pub data Keeps (m : Machine) : Result Translation → Type 0 where
  fails : (e : Stop) → Keeps m (stop e)
  raises : (e : ExceptionType) → Keeps m (ok (raised e))
  maps :
      (pa : ℕ) (m' : Machine)
      → m'.registers ≡ m.registers
      → m'.main_memory ≡ m.main_memory
      → Keeps m (ok (mapped pa m'))

module _ (m : Machine) where
  if-Keeps :
      (b : Bool) {x y : Result Translation} → Keeps m x → Keeps m y → Keeps m (if b then x else y)
  if-Keeps true h k = h
  if-Keeps false h k = k

  bind-Keeps :
      {A : Type 0} (r : Result A) {f : A → Result Translation}
      → ((a : A) → Keeps m (f a))
      → Keeps m (r >>= f)
  bind-Keeps (ok a) h = h a
  bind-Keeps (stop e) h = fails e

  use_entry-Keeps :
      (store : TranslationEntry → Machine)
      → ((e : TranslationEntry) → (store e).registers ≡ m.registers)
      → ((e : TranslationEntry) → (store e).main_memory ≡ m.main_memory)
      → (entry : TranslationEntry) (offset size : ℕ) (writing : Bool)
      → Keeps m (use_entry store entry offset size writing)
  unfolding use_entry
  use_entry-Keeps store hr hm entry offset size writing =
      if-Keeps (entry.read_only && writing) (raises read_only_exception) (
        if-Keeps (leb num_phys_pages entry.physical_page) (raises bus_error_exception) (
          bind-Keeps (assert (leb (entry.physical_page * page_size + offset + size) memory_size))
            λ _.
              maps (entry.physical_page * page_size + offset) (store (touch entry writing))
                (hr (touch entry writing)) (hm (touch entry writing))))

  translate_page-Keeps :
      (table : List TranslationEntry) (vpn offset size : ℕ) (writing : Bool)
      → Keeps m (translate_page m table vpn offset size writing)
  unfolding translate_page
  translate_page-Keeps table vpn offset size writing =
      if-Keeps (leb m.page_table_size vpn) (raises address_error_exception) (
        bind-Keeps (elem table vpn) λ entry.
          if-Keeps (not entry.valid) (raises page_fault_exception) (
            use_entry-Keeps (λ e. record m { page_table = some (set table vpn e) }) (λ e. refl)
              (λ e. refl) entry offset size writing))

  translate_tlb-Keeps :
      (entries : List TranslationEntry) (vpn offset size : ℕ) (writing : Bool)
      → Keeps m (translate_tlb m entries vpn offset size writing)
  unfolding translate_tlb
  translate_tlb-Keeps entries vpn offset size writing = go (find_tlb entries vpn) refl
    where
      go :
          (r : Option ℕ)
          → find_tlb entries vpn ≡ r
          → Keeps m (translate_tlb m entries vpn offset size writing)
      go none e = rw (e, translate_tlb) (raises page_fault_exception)
      go (some i) e =
          rw (e, translate_tlb)
            (bind-Keeps (elem entries i) λ entry.
              use_entry-Keeps (λ x. record m { tlb = some (set entries i x) }) (λ x. refl)
                (λ x. refl) entry offset size writing)

  checked :
      {x : Result Translation} (va size : ℕ)
      → Keeps m x
      → Keeps m (
          if misaligned va size
          then ok (raised address_error_exception)
          else assert (is_none m.tlb || is_none m.page_table)
            >> (assert (not (is_none m.tlb) || not (is_none m.page_table)) >> x))
  checked va size h = if-Keeps (misaligned va size) (raises address_error_exception) (
      bind-Keeps (assert (is_none m.tlb || is_none m.page_table))
        λ _. bind-Keeps (assert (not (is_none m.tlb) || not (is_none m.page_table))) λ _. h)

  pub translate-Keeps : (va size : ℕ) (writing : Bool) → Keeps m (translate m va size writing)
  unfolding translate
  translate-Keeps va size writing = checked va size (by_table m.tlb m.page_table)
    where
      by_table :
          (t p : Option (List TranslationEntry))
          → Keeps m (elim t [
            | some entries ↦ translate_tlb m entries (va / page_size) (va % page_size) size writing
            | none ↦ elim p [
              | some table ↦ translate_page m table (va / page_size) (va % page_size) size writing
              | none ↦ ok (raised address_error_exception)
            ]
          ])
      by_table (some entries) p =
          translate_tlb-Keeps entries (va / page_size) (va % page_size) size writing
      by_table none (some table) =
          translate_page-Keeps table (va / page_size) (va % page_size) size writing
      by_table none none = raises address_error_exception
