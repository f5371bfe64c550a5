-- ===== src/AddrSpace/Identity.antt =====
-- The page table of code/userprog/addrspace.cc: virtual memory is physical memory.
use my_nachos.Shared.{
  ℕ, zero, suc, ◌+◌, ◌*◌, ◌/◌, ◌%◌, ◌<◌, ◌≤◌, ◌≡◌, refl, Bool, true, false, List, some, none,
  length, get_elem?, set, arith, ap, subst, ◌∙◌, leb, Result, ok, IfOk, replicate, copy_into, ◌==◌,
  stop, assert, ◌>>=◌,
}
use my_nachos.Machine.State.{Machine, page_size, num_phys_pages}
use my_nachos.Machine.Translate.{mapped, touch, misaligned, translate, translate_page, use_entry}
use my_nachos.Machine.Translate.Bounds.{IsAccessSize, in_page}
use my_nachos.BitMap.{div_round_up}
use my_nachos.Machine.Words.{u32_mod}
use my_nachos.OpenFile.{OpenFile, read_at}
use my_nachos.SynchDisk.{SynchDisk}
use my_nachos.AddrSpace.{
  AddrSpace, NoffHeader, noff_magic, space_size, load_segment, load_program, noff_header_size,
  identity_entry, identity_table, new_addr_space, restore_state,
}

length-identity_table : (n i : ℕ) → length (identity_table n i) ≡ n
unfolding identity_table
length-identity_table zero i = refl
length-identity_table (suc n) i = ap suc (length-identity_table n (i + 1))

get_elem?-identity_table :
    (n i k : ℕ) → k < n → get_elem? (identity_table n i) k ≡ some (identity_entry (i + k))
unfolding identity_table
get_elem?-identity_table zero i k lt = absurd (omega arith)
get_elem?-identity_table (suc n) i zero lt = ap (λ j. some (identity_entry j)) (omega arith)
get_elem?-identity_table (suc n) i (suc k) lt =
    get_elem?-identity_table n (i + 1) k (omega arith)
    ∙ ap (λ j. some (identity_entry j)) (omega arith)

-- The address space has at most the frames of the machine, and page `i` is frame `i`.
pub record IsIdentity (a : AddrSpace) : Type 0 where
  pub few : a.num_pages ≤ num_phys_pages
  pub table : a.page_table ≡ identity_table a.num_pages 0

-- Once RestoreState has handed the table of such an address space to a machine without a TLB, every
-- aligned access of 1, 2 or 4 bytes inside the address space is translated to its own address.
pub translate-restore_state :
    (a : AddrSpace) (m : Machine) (va size : ℕ) (writing : Bool)
    → IsIdentity a
    → m.tlb ≡ none
    → IsAccessSize size
    → misaligned va size ≡ false
    → va < a.num_pages * page_size
    → (m' : Machine) × (translate (restore_state a m) va size writing ≡ ok (mapped va m'))
unfolding translate translate_page use_entry restore_state identity_entry
translate-restore_state a m va size writing id no_tlb s aligned lt =
    let page : va / 128 < a.num_pages = omega arith in
    let few : a.num_pages ≤ 32 = id.few in
    let at : get_elem? a.page_table (va / 128) ≡ some (identity_entry (va / 128)) = rw id.table (
      get_elem?-identity_table a.num_pages 0 (va / 128) page
      ∙ ap (λ j. some (identity_entry j)) (omega arith)) in
    let fits : va % 128 + size ≤ 128 = in_page va size s aligned in
    let same : va / 128 * 128 + va % 128 ≡ va = omega arith in
    let inside : leb a.num_pages (va / 128) ≡ false = ground arith in
    let frame : leb 32 (va / 128) ≡ false = ground arith in
    let bound : leb (va + size) 4096 ≡ true = ground arith in
    let touched : Machine = record (restore_state a m) {
      page_table = some (set a.page_table (va / 128) (touch (identity_entry (va / 128)) writing));
    } in
    (
      touched,
      rw (aligned, no_tlb, inside, at, frame, same, bound)
          (ap (λ t. ok (mapped va (record touched { tlb = t }))) no_tlb),
    )

-- A space that the constructor gives is one of these, and the TLB stays as it was.
abbrev pub IsLoaded : Machine → AddrSpace × (Machine × SynchDisk) → Type 0
IsLoaded m r = IsIdentity r.0 × (r.1.0.tlb ≡ m.tlb)

after_assert :
    {A : Type 0} (P : A → Type 0) (c : Bool) (f : Unit {0} → Result A)
    → (c ≡ true → IfOk P (f tt))
    → IfOk P (assert c >>= f)
after_assert P true f next = next refl
after_assert P false f next = tt

after_any :
    {A B : Type 0} (P : A → Type 0) (r : Result B) (f : B → Result A)
    → ((b : B) → IfOk P (f b))
    → IfOk P (r >>= f)
after_any P (ok b) f next = next b
after_any P (stop e) f next = tt

load_program-IsLoaded :
    (resume : ℕ → ℕ) (executable : OpenFile) (h : NoffHeader) (m : Machine) (s : SynchDisk)
    → IfOk (IsLoaded m) (load_program resume executable h m s)
unfolding load_program
load_program-IsLoaded resume executable h m s =
    let n = div_round_up (space_size h) page_size in
    let memory = copy_into m.main_memory 0 (replicate ((n * page_size) % u32_mod) 0) in
    after_assert (IsLoaded m) (h.magic == noff_magic) _ λ magic.
      after_assert (IsLoaded m) (leb n num_phys_pages) _ λ few.
        after_any (IsLoaded m) (load_segment resume executable h.code memory s) _ λ r.
          after_any (IsLoaded m) (load_segment resume executable h.init_data r.0 r.1) _
            λ r'. (record { few = ground arith; table = refl }, refl)

pub new_addr_space-IsLoaded :
    (resume : ℕ → ℕ) (executable : OpenFile) (fresh : List ℕ) (m : Machine) (s : SynchDisk)
    → IfOk (IsLoaded m) (new_addr_space resume executable fresh m s)
unfolding new_addr_space
new_addr_space-IsLoaded resume executable fresh m s =
    after_any (IsLoaded m) (read_at resume executable.hdr noff_header_size 0 s) _
      λ r. load_program-IsLoaded resume executable _ m r.1

-- On a machine without a TLB, once the constructor of AddrSpace has loaded a program and
-- RestoreState has handed the page table to the machine, every aligned access of 1, 2 or 4 bytes
-- inside the address space, a read or a write, is translated without an exception to its own
-- address.
pub translate-new_addr_space :
    (resume : ℕ → ℕ) (executable : OpenFile) (fresh : List ℕ) (m : Machine) (s : SynchDisk)
    (a : AddrSpace) (m' : Machine) (s' : SynchDisk) (va size : ℕ) (writing : Bool)
    → m.tlb ≡ none
    → new_addr_space resume executable fresh m s ≡ ok (a, (m', s'))
    → IsAccessSize size
    → misaligned va size ≡ false
    → va < a.num_pages * page_size
    → (m'' : Machine) × (translate (restore_state a m') va size writing ≡ ok (mapped va m''))
translate-new_addr_space resume executable fresh m s a m' s' va size writing no_tlb run acc aligned
      lt =
    let loaded : IsLoaded m (a, (m', s')) =
      subst (IfOk (IsLoaded m)) run (new_addr_space-IsLoaded resume executable fresh m s) in
    translate-restore_state a m' va size writing loaded.0 (loaded.1 ∙ no_tlb) acc aligned lt
