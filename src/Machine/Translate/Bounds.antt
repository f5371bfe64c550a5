-- ===== src/Machine/Translate/Bounds.antt =====
-- Translation through a page table of code/machine/translate.cc.
use my_nachos.Shared.{
  ℕ, zero, suc, subst, sym, ◌+◌, ◌*◌, ◌/◌, ◌%◌, ◌≤◌, ◌<◌, ◌≡◌, ◌⊎◌, refl, Bool, true, false, ◌&&◌,
  none, some, List, [], ◌∷◌, get_elem?, set, length, Result, ok, arith, Bool-cases, leb, inl, inr,
}
use my_nachos.Machine.State.{
  Machine, TranslationEntry, page_fault_exception, read_only_exception, bus_error_exception,
  address_error_exception, page_size, num_phys_pages, memory_size,
}
use my_nachos.Machine.Translate.{
  Translation, raised, mapped, misaligned, touch, use_entry, translate_page, translate,
}

-- The sizes that the processor asks for.
abbrev pub IsAccessSize : ℕ → Type 0
IsAccessSize size = (size ≡ 1) ⊎ ((size ≡ 2) ⊎ (size ≡ 4))

-- An aligned access stays within its page.
pub in_page : (va size : ℕ) → IsAccessSize size → misaligned va size ≡ false → va % 128 + size ≤ 128
in_page va size (inl e) a = omega arith
in_page va size (inr (inl e)) a = ground arith
in_page va size (inr (inr e)) a = ground arith

-- What an entry leads to.
pub data EntryGives (store : TranslationEntry → Machine) (entry : TranslationEntry) (va size : ℕ)
    (writing : Bool) : Result Translation → Type 0 where
  protected :
      entry.read_only ≡ true
      → writing ≡ true
      → EntryGives store entry va size writing (ok (raised read_only_exception))
  bad_frame :
      (entry.read_only && writing) ≡ false
      → num_phys_pages ≤ entry.physical_page
      → EntryGives store entry va size writing (ok (raised bus_error_exception))
  hit :
      (pa : ℕ)
      → (entry.read_only && writing) ≡ false
      → pa ≡ entry.physical_page * page_size + va % page_size
      → pa + size ≤ memory_size
      → EntryGives store entry va size writing (ok (mapped pa (store (touch entry writing))))

pub use_entry-EntryGives :
    (store : TranslationEntry → Machine) (entry : TranslationEntry) (va size : ℕ) (writing : Bool)
    → va % 128 + size ≤ 128
    → EntryGives store entry va size writing (use_entry store entry (va % page_size) size writing)
unfolding use_entry
use_entry-EntryGives store entry va size writing fits =
    elim (Bool-cases (entry.read_only && writing)) [
      | inl refused ↦ rw refused (protected (ground arith) (ground arith))
      | inr allowed ↦ elim (Bool-cases (leb num_phys_pages entry.physical_page)) [
        | inl big ↦ rw (allowed, big) (bad_frame allowed (ground arith))
        | inr small ↦
            let bound : entry.physical_page * 128 + va % 128 + size ≤ 4096 = ground arith in
            let check : leb (entry.physical_page * 128 + va % 128 + size) 4096 ≡ true =
              ground arith in
            rw (allowed, small, check) (hit _ allowed refl bound)
      ]
    ]

-- Every outcome through a page table of `page_table_size` entries.
pub data PageGives (m : Machine) (table : List TranslationEntry) (va size : ℕ) (writing : Bool)
    : Result Translation → Type 0 where
  unaligned :
      misaligned va size ≡ true
      → PageGives m table va size writing (ok (raised address_error_exception))
  beyond :
      misaligned va size ≡ false
      → m.page_table_size ≤ va / page_size
      → PageGives m table va size writing (ok (raised address_error_exception))
  absent :
      (entry : TranslationEntry)
      → misaligned va size ≡ false
      → va / page_size < m.page_table_size
      → get_elem? table (va / page_size) ≡ some entry
      → entry.valid ≡ false
      → PageGives m table va size writing (ok (raised page_fault_exception))
  present :
      (entry : TranslationEntry) (r : Result Translation)
      → misaligned va size ≡ false
      → va / page_size < m.page_table_size
      → get_elem? table (va / page_size) ≡ some entry
      → entry.valid ≡ true
      → EntryGives
          (λ e. record m { page_table = some (set table (va / page_size) e) })
          entry
          va
          size
          writing
          r
      → PageGives m table va size writing r

get_elem?-some {ℓ} :
    {A : Type ℓ} (xs : List A) (i : ℕ) → i < length xs → (a : A) × (get_elem? xs i ≡ some a)
get_elem?-some [] i h = absurd (omega arith)
get_elem?-some (x ∷ xs) zero h = (x, refl)
get_elem?-some (x ∷ xs) (suc i) h = get_elem?-some xs i (omega arith)

-- Through a page table of the stated length, Translate of an access of 1, 2 or 4 bytes fails no
-- assertion and reads nothing outside the table; it raises an address error exactly for a
-- misaligned address or a page beyond the table, a page fault for an invalid entry, a read-only
-- exception for a write to a read-only page, a bus error for a frame that is not there, and
-- otherwise gives the address in the entry's frame, within the memory, and sets the use bit, and
-- the dirty bit on a write.
pub translate-PageGives :
    (m : Machine) (table : List TranslationEntry) (va size : ℕ) (writing : Bool)
    → m.tlb ≡ none
    → m.page_table ≡ some table
    → length table ≡ m.page_table_size
    → IsAccessSize size
    → PageGives m table va size writing (translate m va size writing)
unfolding translate translate_page
translate-PageGives m table va size writing no_tlb has_table len s =
    elim (Bool-cases (misaligned va size)) [
      | inl bad ↦
          let e : translate m va size writing ≡ ok (raised address_error_exception) =
            ground arith in
          subst (PageGives m table va size writing) (sym e) (unaligned bad)
      | inr aligned ↦ elim (Bool-cases (leb m.page_table_size (va / page_size))) [
        | inl big ↦
            let e : translate m va size writing ≡ ok (raised address_error_exception) =
              ground arith in
            subst (PageGives m table va size writing) (sym e) (beyond aligned (ground arith))
        | inr inside ↦
            let (entry, at) = get_elem?-some table (va / page_size) (ground arith) in
            elim (Bool-cases entry.valid) [
              | inl valid ↦
                  let store : TranslationEntry → Machine =
                    λ x. record m { page_table = some (set table (va / page_size) x) } in
                  let e : translate m va size writing
                      ≡ use_entry store entry (va % page_size) size writing =
                    ground arith in
                  subst (PageGives m table va size writing) (sym e) (
                    present entry _ aligned (ground arith) at valid (
                      use_entry-EntryGives store entry va size writing (in_page va size s aligned)))
              | inr invalid ↦
                  let e : translate m va size writing ≡ ok (raised page_fault_exception) =
                    ground arith in
                  subst (PageGives m table va size writing) (sym e)
                    (absent entry aligned (ground arith) at invalid)
            ]
      ]
    ]
