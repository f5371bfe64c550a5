-- ===== src/Tests/StoredFile.antt =====
-- FileSystem::Remove of code/filesys/filesys.cc on a disk that holds a file.
use my_nachos.Shared.{
  ℕ, zero, suc, ◌+◌, ◌*◌, ◌^◌, ◌%◌, ◌/◌, ◌≡◌, ◌≢◌, ◌<◌, ap, ◌∙◌, refl, true, false, Option, none,
  some, List, [], ◌∷◌, ◌++◌, length, if◌then◌else◌, get_or, set, replicate, arith, subst, sym,
  Bool-cases, inl, inr,
}
use my_nachos.BitMap.Bits.{used}
use my_nachos.BitMap.WordRange.{AreWords}
use my_nachos.FileHeader.{FileHeader}
use my_nachos.FileHeader.Allocation.{owned}
use my_nachos.FileHeader.Release.{AreSectors}
use my_nachos.Directory.{DirectoryEntry}
use my_nachos.Directory.Entries.{AreEntries}
use my_nachos.Directory.Table.{lookup, IsUnique, same}
use my_nachos.SynchDisk.{SynchDisk}
use my_nachos.OpenFile.Bytes.{IsReady, set-AreFull, sector_of}
use my_nachos.FileSystem.{remove_file}
use my_nachos.FileSystem.Layout.{encode_words, encode_entries}
use my_nachos.FileSystem.Mounted.{map_on, directory_on, header_on, IsMounted, map_on-IsWellFormed}
use my_nachos.FileSystem.Freed.{IsStored, Deletes}
use my_nachos.FileSystem.Remove.{remove_file-Deletes}
use my_nachos.Tests.FileSystems.{
  blank, later, fs, no_file, memory, blank-AreFull, fs-AreOpen, replicate-AreWords,
  replicate-AreEntries, replicate-IsUnique, memory-IsMemory, small_map, small_sector,
}

-- The file "a" has its header at sector 5 and its data at 6, 7 and 8.
abbrev name : List ℕ
name = 97 ∷ 0 ∷ []

abbrev a_file : DirectoryEntry
a_file = record { in_use = true; sector = 5; name = 97 ∷ replicate 9 0 }

abbrev map_bytes : List ℕ
map_bytes = 255 ∷ 1 ∷ replicate 126 0

abbrev entry_bytes : List ℕ
entry_bytes = 1 ∷ 0 ∷ 0 ∷ 0 ∷ 5 ∷ 0 ∷ 0 ∷ 0 ∷ 97 ∷ replicate 119 0

abbrev header : List ℕ
header = 44 ∷ 1 ∷ 0 ∷ 0 ∷ 3 ∷ 0 ∷ 0 ∷ 0 ∷ 6 ∷ 0 ∷ 0 ∷ 0 ∷ 7 ∷ 0 ∷ 0 ∷ 0 ∷ 8 ∷ replicate 111 0

sectors : List (List ℕ)
sectors = set (set (set (replicate 1024 blank) 2 map_bytes) 3 entry_bytes) 5 header

abbrev disk : SynchDisk
disk = record {
  disk = record { sectors = sectors; active = false; last_sector = 0; buffer_init = 0 };
  ticks = 0;
}

disk-IsReady : IsReady disk
unfolding sectors
disk-IsReady = record {
  idle = refl;
  full = set-AreFull _ 5 header (omega arith) refl (
      set-AreFull _ 3 entry_bytes (omega arith) refl
        (set-AreFull (replicate 1024 blank) 2 map_bytes (omega arith) refl blank-AreFull));
}

map_now : (map_on fs sectors).map ≡ 511 ∷ replicate 31 0
unfolding sectors my_nachos.FileSystem.Layout.decode_words my_nachos.FileSystem.Whole.file_bytes
map_now = refl

directory_now : (directory_on fs sectors).table ≡ a_file ∷ replicate 9 no_file
unfolding sectors my_nachos.FileSystem.Layout.decode_entries my_nachos.FileSystem.Layout.entry_at
    my_nachos.FileSystem.Whole.file_bytes
directory_now = refl

abbrev a_header : FileHeader
a_header = record { num_bytes = 300; num_sectors = 3; data_sectors = 6 ∷ 7 ∷ 8 ∷ replicate 27 0 }

header_now : header_on sectors 5 ≡ a_header
unfolding sectors my_nachos.FileSystem.Layout.decode_words my_nachos.FileSystem.Transfer.header_at
header_now = refl

map_used-now : (k : ℕ) → k < 9 → used (map_on fs sectors) k ≡ 1
unfolding sectors my_nachos.FileSystem.Layout.decode_words my_nachos.FileSystem.Whole.file_bytes
    used my_nachos.Shared.Bits.bit_at
map_used-now zero h = refl
map_used-now (suc zero) h = refl
map_used-now (suc (suc zero)) h = refl
map_used-now (suc (suc (suc zero))) h = refl
map_used-now (suc (suc (suc (suc zero)))) h = refl
map_used-now (suc (suc (suc (suc (suc zero))))) h = refl
map_used-now (suc (suc (suc (suc (suc (suc zero)))))) h = refl
map_used-now (suc (suc (suc (suc (suc (suc (suc zero))))))) h = refl
map_used-now (suc (suc (suc (suc (suc (suc (suc (suc zero)))))))) h = refl
map_used-now (suc (suc (suc (suc (suc (suc (suc (suc (suc k))))))))) h = absurd (omega arith)

lookup-now :
    (other : List ℕ)
    → lookup (a_file ∷ replicate 9 no_file) other
      ≡ (if same a_file.name other then some 5 else none)
unfolding lookup
lookup-now other = refl

found-five :
    (other : List ℕ) (k : ℕ) → lookup (directory_on fs sectors).table other ≡ some k → 5 ≡ k
found-five other k e =
    let f : (if same a_file.name other then some 5 else none) ≡ some k =
      sym (lookup-now other) ∙ ap (λ es. lookup es other) (sym directory_now) ∙ e in
    ground arith

disk-IsMounted : IsMounted fs sectors
unfolding lookup
disk-IsMounted = record {
  words = subst AreWords (sym map_now) (omega arith, replicate-AreWords 31 0 (omega arith));
  entries = subst AreEntries (sym directory_now) ((omega arith, refl), replicate-AreEntries 9);
  unique = subst IsUnique (sym directory_now) ((λ h. refl), replicate-IsUnique 9);
  on_disk = λ other k e. omega (arith, found-five other k e);
  map_used =
      λ i lt. map_used-now (sector_of fs.free_map_file.hdr i) (omega (arith, small_map i lt));
  directory_used =
      λ i lt. map_used-now (sector_of fs.directory_file.hdr i) (omega (arith, small_sector i lt));
}

data_at : (j : ℕ) → j < 3 → get_or a_header.data_sectors j 0 ≡ 6 + j
data_at zero h = refl
data_at (suc zero) h = refl
data_at (suc (suc zero)) h = refl
data_at (suc (suc (suc j))) h = absurd (omega arith)

header-AreSectors : AreSectors (map_on fs sectors) a_header.data_sectors a_header.num_sectors
header-AreSectors = record {
  well_formed = map_on-IsWellFormed fs sectors;
  table = omega arith;
  in_map = λ i lt. omega (arith, data_at i lt);
  distinct = λ i j lt le e. omega (arith, data_at i (omega arith), data_at j le, e);
}

header-marked : (j : ℕ) → j < 3 → used (map_on fs sectors) (get_or a_header.data_sectors j 0) ≡ 1
header-marked j lt = map_used-now (get_or a_header.data_sectors j 0) (omega (arith, data_at j lt))

owned-low : (x : ℕ) → x < 5 → owned a_header.data_sectors 3 x ≡ false
unfolding owned
owned-low x h = ground arith

five-IsStored : IsStored fs sectors 5
five-IsStored = record {
  sectors =
      subst (λ h. AreSectors (map_on fs sectors) h.data_sectors h.num_sectors) (sym header_now)
        header-AreSectors;
  marked =
      subst
        (λ (h : FileHeader).
          (j : ℕ) → j < h.num_sectors → used (map_on fs sectors) (get_or h.data_sectors j 0) ≡ 1)
        (sym header_now) header-marked;
  not_map = λ i lt.
      let x : ℕ = sector_of fs.free_map_file.hdr i in
      (
        λ e. omega (arith, small_map i lt, e),
        subst (λ h. owned h.data_sectors h.num_sectors x ≡ false) (sym header_now)
            (owned-low x (small_map i lt)),
      );
  not_directory = λ i lt.
      let x : ℕ = sector_of fs.directory_file.hdr i in
      (
        λ e. omega (arith, small_sector i lt, e),
        subst (λ h. owned h.data_sectors h.num_sectors x ≡ false) (sym header_now)
            (owned-low x (small_sector i lt)),
      );
}

remove_file-Deletes_example : Deletes fs name sectors (remove_file later memory fs name disk)
remove_file-Deletes_example =
    remove_file-Deletes later memory memory-IsMemory fs fs-AreOpen name sectors disk-IsMounted disk
      (λ k e. subst (IsStored fs sectors) (found-five name k e) five-IsStored) (disk-IsReady, refl)
