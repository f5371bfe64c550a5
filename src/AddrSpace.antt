-- ===== src/AddrSpace.antt =====
-- code/userprog/addrspace.cc: a user program's address space, with its file loaded into the memory of
-- the machine (code/bin/noff.h has the header of the file). The byte order functions of
-- code/machine/translate.cc are the identity on the little-endian host of the Makefiles.
pub mod Identity
use my_nachos.Shared.{
  ℕ, zero, suc, ◌+◌, ◌-◌, ◌*◌, ◌%◌, ◌^◌, Bool, true, false, not, ◌&&◌, List, [], ◌∷◌, ◌++◌, ltb,
  leb, ◌==◌, if◌then◌else◌, some, length, take, drop, copy_into, replicate, Result, ok, stop, Stop,
  ◌>>=◌, ◌>>◌, assert,
}
use my_nachos.BitMap.{div_round_up}
use my_nachos.FileSystem.Layout.{word_at}
use my_nachos.SynchDisk.{SynchDisk}
use my_nachos.OpenFile.{OpenFile, read_at}
use my_nachos.Machine.Words.{is_negative, signed_lt, u32_mod}
use my_nachos.Machine.State.{Machine, TranslationEntry, page_size, num_phys_pages, memory_size}

abbrev pub noff_magic : ℕ
noff_magic = 0xbadfad

abbrev pub user_stack_size : ℕ
user_stack_size = 1024

pub record Segment : Type 0 where
  pub virtual_addr : ℕ
  pub in_file_addr : ℕ
  pub size : ℕ

pub record NoffHeader : Type 0 where
  pub magic : ℕ
  pub code : Segment
  pub init_data : Segment
  pub uninit_data : Segment

abbrev pub noff_header_size : ℕ
noff_header_size = 40

unfoldable pub segment_at : List ℕ → ℕ → Segment
segment_at bytes i = record {
  virtual_addr = word_at bytes i;
  in_file_addr = word_at bytes (i + 4);
  size = word_at bytes (i + 8);
}

unfoldable pub noff_header_at : List ℕ → NoffHeader
noff_header_at bytes = record {
  magic = word_at bytes 0;
  code = segment_at bytes 4;
  init_data = segment_at bytes 16;
  uninit_data = segment_at bytes 28;
}

unfoldable pub word_to_host : ℕ → ℕ
word_to_host word = word

unfoldable pub swap_segment : Segment → Segment
swap_segment s = record {
  virtual_addr = word_to_host s.virtual_addr;
  in_file_addr = word_to_host s.in_file_addr;
  size = word_to_host s.size;
}

unfoldable pub swap_header : NoffHeader → NoffHeader
swap_header h = record {
  magic = word_to_host h.magic;
  code = swap_segment h.code;
  init_data = swap_segment h.init_data;
  uninit_data = swap_segment h.uninit_data;
}

pub record AddrSpace : Type 0 where
  pub page_table : List TranslationEntry
  pub num_pages : ℕ

-- The bytes of the address space, before the number of pages is rounded up.
unfoldable pub space_size : NoffHeader → ℕ
space_size h = (h.code.size + h.init_data.size + h.uninit_data.size + user_stack_size) % u32_mod

unfoldable pub identity_entry : ℕ → TranslationEntry
identity_entry i = record {
  virtual_page = i;
  physical_page = i;
  valid = true;
  read_only = false;
  used = false;
  dirty = false;
}

-- The loop over the page table from page `i` on, with the rounds left.
unfoldable pub identity_table : ℕ → ℕ → List TranslationEntry
identity_table zero i = []
identity_table (suc n) i = identity_entry i ∷ identity_table n (i + 1)

-- What ReadAt leaves at `&machine->mainMemory[at]`.
unfoldable pub store_bytes : List ℕ → ℕ → List ℕ → Result (List ℕ)
store_bytes memory at [] = ok memory
store_bytes memory at (b ∷ bs) =
    if ltb (length memory) (at + length (b ∷ bs))
    then stop Stop.out_of_range
    else ok (copy_into memory at (b ∷ bs))

module _ (resume : ℕ → ℕ) (executable : OpenFile) where
  -- One segment, if it has a size. From a negative position, ReadAt reads outside the sectors.
  unfoldable pub load_segment : Segment → List ℕ → SynchDisk → Result (List ℕ × SynchDisk)
  load_segment g memory s =
      if signed_lt 0 g.size
      then if is_negative g.in_file_addr then stop Stop.out_of_range else (do
        (bytes, s) ← read_at resume executable.hdr g.size g.in_file_addr s
        memory ← store_bytes memory g.virtual_addr bytes
        ok (memory, s))
      else ok (memory, s)

  -- The constructor, once the header is read: the page table, the empty memory and the segments.
  unfoldable pub load_program :
      NoffHeader → Machine → SynchDisk → Result (AddrSpace × (Machine × SynchDisk))
  load_program h m s = do
    assert (h.magic == noff_magic)
    let num_pages = div_round_up (space_size h) page_size
    let size = (num_pages * page_size) % u32_mod
    assert (leb num_pages num_phys_pages)
    (memory, s) ← load_segment h.code (copy_into m.main_memory 0 (replicate size 0)) s
    (memory, s) ← load_segment h.init_data memory s
    ok (
      record { page_table = identity_table num_pages 0; num_pages = num_pages },
      (record m { main_memory = memory }, s),
    )

  -- The constructor. `fresh` is what the memory of `noffH` held.
  unfoldable pub new_addr_space :
      List ℕ → Machine → SynchDisk → Result (AddrSpace × (Machine × SynchDisk))
  new_addr_space fresh m s = do
    (bytes, s) ← read_at resume executable.hdr noff_header_size 0 s
    let h = noff_header_at (copy_into fresh 0 bytes)
    load_program
        (if not (h.magic == noff_magic) && word_to_host h.magic == noff_magic
          then swap_header h
          else h)
        m s

unfoldable pub restore_state : AddrSpace → Machine → Machine
restore_state a m = record m { page_table = some a.page_table; page_table_size = a.num_pages }
