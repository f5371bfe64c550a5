-- ===== src/Machine/Translate.antt =====
-- Machine::Translate of code/machine/translate.cc. The TLB is a list of its TLBSize entries.
pub mod Bounds
pub mod Tlb
use my_nachos.Shared.{
  ℕ, zero, suc, ◌+◌, ◌*◌, ◌/◌, ◌%◌, Bool, true, false, ◌&&◌, ◌||◌, not, Option, none, some, List,
  [], ◌∷◌, ◌==◌, ltb, leb, if◌then◌else◌, set, elem, Result, ok, ◌>>=◌, ◌>>◌, assert,
}
use my_nachos.Machine.State.{
  Machine, TranslationEntry, ExceptionType, page_fault_exception, read_only_exception,
  bus_error_exception, address_error_exception, page_size, num_phys_pages, memory_size,
}

-- The exception, or the physical address with the machine whose use and dirty bits are set.
pub data Translation : Type 0 where
  raised : ExceptionType → Translation
  mapped : ℕ → Machine → Translation

abbrev pub is_none {ℓ} : {A : Type ℓ} → Option A → Bool
is_none none = true
is_none (some a) = false

-- `(size == 4 && virtAddr & 3) || (size == 2 && virtAddr & 1)`.
abbrev pub misaligned : ℕ → ℕ → Bool
misaligned virt_addr size =
    size == 4 && not (virt_addr % 4 == 0) || size == 2 && not (virt_addr % 2 == 0)

-- The loop over the TLB: the index of the first valid entry for the page.
pub find_tlb : List TranslationEntry → ℕ → Option ℕ
find_tlb [] vpn = none
find_tlb (e ∷ es) vpn =
    if e.valid && e.virtual_page == vpn
    then some 0
    else elim (find_tlb es vpn) [ none ↦ none | some i ↦ some (suc i) ]

-- The use bit is set, and the dirty bit on a write.
abbrev pub touch : TranslationEntry → Bool → TranslationEntry
touch e writing = record e { used = true; dirty = if writing then true else e.dirty }

-- The checks on the entry that was found; `store` puts the changed entry back.
unfoldable pub use_entry :
    (TranslationEntry → Machine) → TranslationEntry → ℕ → ℕ → Bool → Result Translation
use_entry store entry offset size writing =
    if entry.read_only && writing
    then ok (raised read_only_exception)
    else if leb num_phys_pages entry.physical_page
    then ok (raised bus_error_exception)
    else do
      let phys_addr = entry.physical_page * page_size + offset
      assert (leb (phys_addr + size) memory_size)
      ok (mapped phys_addr (store (touch entry writing)))

unfoldable pub translate_page :
    Machine → List TranslationEntry → ℕ → ℕ → ℕ → Bool → Result Translation
unfolding use_entry
translate_page m table vpn offset size writing =
    if leb m.page_table_size vpn
    then ok (raised address_error_exception)
    else elem table vpn >>= λ entry.
        if not entry.valid
        then ok (raised page_fault_exception)
        else use_entry (λ e. record m { page_table = some (set table vpn e) }) entry offset size
            writing

unfoldable pub translate_tlb :
    Machine → List TranslationEntry → ℕ → ℕ → ℕ → Bool → Result Translation
unfolding find_tlb use_entry
translate_tlb m entries vpn offset size writing = elim (find_tlb entries vpn) [
  | none ↦ ok (raised page_fault_exception)
  | some i ↦ elem entries i >>= λ entry.
      use_entry (λ e. record m { tlb = some (set entries i e) }) entry offset size writing
]

-- A machine with both tables, or with neither, fails the assertions.
unfoldable pub translate : Machine → ℕ → ℕ → Bool → Result Translation
unfolding translate_page translate_tlb
translate m virt_addr size writing =
    if misaligned virt_addr size then ok (raised address_error_exception) else do
      assert (is_none m.tlb || is_none m.page_table)
      assert (not (is_none m.tlb) || not (is_none m.page_table))
      let vpn = virt_addr / page_size
      let offset = virt_addr % page_size
      elim m.tlb [
        | some entries ↦ translate_tlb m entries vpn offset size writing
        | none ↦ elim m.page_table [
          | some table ↦ translate_page m table vpn offset size writing
          | none ↦ ok (raised address_error_exception)
        ]
      ]
