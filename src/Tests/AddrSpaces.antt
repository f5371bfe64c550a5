-- ===== src/Tests/AddrSpaces.antt =====
-- A run of code/userprog/addrspace.cc on a program of three instructions, in sector 5 of the disk.
use my_nachos.Shared.{
  ℕ, ◌*◌, ◌<◌, ◌≡◌, refl, true, false, none, List, [], ◌∷◌, ◌++◌, set, replicate, take, Result, ok,
  stop, arith, inr,
}
use my_nachos.SynchDisk.{SynchDisk}
use my_nachos.OpenFile.{OpenFile}
use my_nachos.Machine.State.{Machine, page_size}
use my_nachos.Machine.Boot.{new_machine}
use my_nachos.Machine.Translate.{mapped, translate}
use my_nachos.AddrSpace.{AddrSpace, new_addr_space, restore_state}
use my_nachos.AddrSpace.Identity.{translate-new_addr_space}
use my_nachos.Tests.FileSystems.{blank, later}

-- The magic number, a code segment of 12 bytes at 40 in the file, and no data.
abbrev program : List ℕ
program =
    173
    ∷ 223
    ∷ 186
    ∷ 0
    ∷ (replicate 4 0
        ++ (40
            ∷ 0
            ∷ 0
            ∷ 0
            ∷ 12
            ∷ 0
            ∷ 0
            ∷ 0
            ∷ (replicate 24 0
                ++ (1 ∷ 2 ∷ 3 ∷ 4 ∷ 5 ∷ 6 ∷ 7 ∷ 8 ∷ 9 ∷ 10 ∷ 11 ∷ 12 ∷ replicate 76 0))))

abbrev program_disk : SynchDisk
program_disk = record {
  disk = record {
    sectors = set (replicate 1024 blank) 5 program;
    active = false;
    last_sector = 0;
    buffer_init = 0;
  };
  ticks = 0;
}

abbrev executable : OpenFile
executable = record {
  hdr = record { num_bytes = 52; num_sectors = 1; data_sectors = 5 ∷ [] };
  seek_position = 0;
}

abbrev loaded_or :
    AddrSpace × (Machine × SynchDisk)
    → Result (AddrSpace × (Machine × SynchDisk))
    → AddrSpace × (Machine × SynchDisk)
loaded_or d (ok r) = r
loaded_or d (stop e) = d

abbrev loaded : AddrSpace × (Machine × SynchDisk)
loaded =
    loaded_or (record { page_table = []; num_pages = 0 }, (new_machine, program_disk))
      (new_addr_space later executable (replicate 40 7) new_machine program_disk)

load_run :
    new_addr_space later executable (replicate 40 7) new_machine program_disk
    ≡ ok (loaded.0, (loaded.1.0, loaded.1.1))
unfolding new_addr_space my_nachos.AddrSpace.load_program my_nachos.AddrSpace.load_segment
    my_nachos.AddrSpace.store_bytes my_nachos.AddrSpace.identity_table
    my_nachos.AddrSpace.identity_entry my_nachos.AddrSpace.space_size
    my_nachos.AddrSpace.swap_header my_nachos.AddrSpace.swap_segment
    my_nachos.AddrSpace.word_to_host my_nachos.AddrSpace.noff_header_at
    my_nachos.AddrSpace.segment_at my_nachos.Machine.Boot.new_machine
    my_nachos.Machine.Words.signed_lt my_nachos.OpenFile.read_at my_nachos.OpenFile.read_span
    my_nachos.OpenFile.read_from my_nachos.OpenFile.clip my_nachos.OpenFile.is_refused
    my_nachos.SynchDisk.read_sector my_nachos.SynchDisk.await my_nachos.Disk.read_request
    my_nachos.Disk.handle_interrupt my_nachos.Disk.update_last my_nachos.Disk.buffered
    my_nachos.Disk.compute_latency my_nachos.Disk.modulo_diff my_nachos.Disk.time_to_seek
    my_nachos.FileHeader.file_length my_nachos.FileHeader.byte_to_sector
load_run = refl

-- Nine pages, and the code at the start of the memory.
loaded_run :
    (loaded.0.num_pages ≡ 9)
    × (take 13 loaded.1.0.main_memory ≡ 1 ∷ 2 ∷ 3 ∷ 4 ∷ 5 ∷ 6 ∷ 7 ∷ 8 ∷ 9 ∷ 10 ∷ 11 ∷ 12 ∷ 0 ∷ [])
unfolding new_addr_space my_nachos.AddrSpace.load_program my_nachos.AddrSpace.load_segment
    my_nachos.AddrSpace.store_bytes my_nachos.AddrSpace.identity_table
    my_nachos.AddrSpace.identity_entry my_nachos.AddrSpace.space_size
    my_nachos.AddrSpace.swap_header my_nachos.AddrSpace.swap_segment
    my_nachos.AddrSpace.word_to_host my_nachos.AddrSpace.noff_header_at
    my_nachos.AddrSpace.segment_at my_nachos.Machine.Boot.new_machine
    my_nachos.Machine.Words.signed_lt my_nachos.OpenFile.read_at my_nachos.OpenFile.read_span
    my_nachos.OpenFile.read_from my_nachos.OpenFile.clip my_nachos.OpenFile.is_refused
    my_nachos.SynchDisk.read_sector my_nachos.SynchDisk.await my_nachos.Disk.read_request
    my_nachos.Disk.handle_interrupt my_nachos.Disk.update_last my_nachos.Disk.buffered
    my_nachos.Disk.compute_latency my_nachos.Disk.modulo_diff my_nachos.Disk.time_to_seek
    my_nachos.FileHeader.file_length my_nachos.FileHeader.byte_to_sector
loaded_run = (refl, refl)

no_tlb : new_machine.tlb ≡ none
unfolding new_machine
no_tlb = refl

in_space : 8 < loaded.0.num_pages * page_size
unfolding new_addr_space my_nachos.AddrSpace.load_program my_nachos.AddrSpace.load_segment
    my_nachos.AddrSpace.store_bytes my_nachos.AddrSpace.identity_table
    my_nachos.AddrSpace.identity_entry my_nachos.AddrSpace.space_size
    my_nachos.AddrSpace.swap_header my_nachos.AddrSpace.swap_segment
    my_nachos.AddrSpace.word_to_host my_nachos.AddrSpace.noff_header_at
    my_nachos.AddrSpace.segment_at my_nachos.Machine.Boot.new_machine
    my_nachos.Machine.Words.signed_lt my_nachos.OpenFile.read_at my_nachos.OpenFile.read_span
    my_nachos.OpenFile.read_from my_nachos.OpenFile.clip my_nachos.OpenFile.is_refused
    my_nachos.SynchDisk.read_sector my_nachos.SynchDisk.await my_nachos.Disk.read_request
    my_nachos.Disk.handle_interrupt my_nachos.Disk.update_last my_nachos.Disk.buffered
    my_nachos.Disk.compute_latency my_nachos.Disk.modulo_diff my_nachos.Disk.time_to_seek
    my_nachos.FileHeader.file_length my_nachos.FileHeader.byte_to_sector
in_space = omega arith

translate-new_addr_space_example :
    (m : Machine) × (translate (restore_state loaded.0 loaded.1.0) 8 4 true ≡ ok (mapped 8 m))
translate-new_addr_space_example =
    translate-new_addr_space later executable (replicate 40 7) new_machine program_disk loaded.0
      loaded.1.0 loaded.1.1 8 4 true no_tlb load_run (inr (inr refl)) refl in_space
