-- ===== src/FileSystem.antt =====
-- code/filesys/filesys.cc: files by name, on a disk that holds the bit map of its sectors and the
-- directory as files. The directory and the map are read when an operation begins, and written back
-- at its end. Nothing else uses the disk meanwhile.
pub mod Back
pub mod Create
pub mod Freed
pub mod Layout
pub mod Mounted
pub mod Open
pub mod Outcomes
pub mod Remove
pub mod Save
pub mod Taken
pub mod Transfer
pub mod Whole
use my_nachos.Shared.{
  ℕ, ◌+◌, ◌-◌, ◌*◌, ◌/◌, ◌^◌, Bool, true, false, not, Option, none, some, List, ◌==◌, leb,
  if◌then◌else◌, Result, ok, ◌>>=◌, ◌>>◌, assert,
}
use my_nachos.Disk.{num_sectors}
use my_nachos.BitMap
use my_nachos.BitMap.{BitMap, new_bit_map, mark, clear}
use my_nachos.FileHeader.{FileHeader, allocate, deallocate}
use my_nachos.Directory
use my_nachos.Directory.{Directory, new_directory, add, remove}
use my_nachos.SynchDisk.{SynchDisk}
use my_nachos.OpenFile.{OpenFile}
use my_nachos.FileSystem.Layout.{entry_size}
use my_nachos.FileSystem.Transfer.{
  Memory, fetch_header, write_header, new_open_file, fetch_map, write_map, fetch_directory,
  write_directory,
}

abbrev pub free_map_sector : ℕ
free_map_sector = 0

abbrev pub directory_sector : ℕ
directory_sector = 1

abbrev pub free_map_file_size : ℕ
free_map_file_size = num_sectors / 8

abbrev pub num_dir_entries : ℕ
num_dir_entries = 10

abbrev pub directory_file_size : ℕ
directory_file_size = entry_size * num_dir_entries

-- The two files that stay open while Nachos runs.
pub record FileSystem : Type 0 where
  pub free_map_file : OpenFile
  pub directory_file : OpenFile

-- `sector != -1` and `sector >= 0`, for the integer that Find returns.
unfoldable pub is_found : Option ℕ → Bool
is_found none = false
is_found (some k) = not (k == 2 ^ 32 - 1)

unfoldable pub is_sector : ℕ → Bool
is_sector k = not (leb (2 ^ 31) k)

module _ (resume : ℕ → ℕ) (memory : Memory) where
  -- `new Directory(NumDirEntries)` and `FetchFrom`, `new BitMap(NumSectors)` and `FetchFrom`.
  unfoldable pub load_directory : FileSystem → SynchDisk → Result (Directory × SynchDisk)
  load_directory fs s =
      fetch_directory resume memory (new_directory memory.entries) fs.directory_file s

  unfoldable pub load_map : FileSystem → SynchDisk → Result (BitMap × SynchDisk)
  load_map fs s = do
    m ← new_bit_map memory.words num_sectors
    fetch_map resume memory m fs.free_map_file s

  -- The end of Create: the header and the other changes go to the disk.
  unfoldable pub save_new :
      FileSystem → FileHeader → ℕ → Directory → BitMap → SynchDisk → Result (Bool × SynchDisk)
  save_new fs hdr sector dir m s = do
    s ← write_header resume memory hdr sector s
    s ← write_directory resume memory dir fs.directory_file s
    s ← write_map resume memory m fs.free_map_file s
    ok (true, s)

  -- Create, once a sector is found for the header.
  unfoldable pub create_at :
      FileSystem → List ℕ → ℕ → ℕ → Directory → BitMap → SynchDisk → Result (Bool × SynchDisk)
  create_at fs name initial_size sector dir m s =
      let (added, dir') = add dir name sector in
      if not added then ok (false, s) else do
        (fits, hdr, m') ← allocate memory.header m initial_size
        if not fits then ok (false, s) else save_new fs hdr sector dir' m' s

  -- Create, once it is known that the name is new.
  unfoldable pub create_new :
      FileSystem → List ℕ → ℕ → Directory → SynchDisk → Result (Bool × SynchDisk)
  create_new fs name initial_size dir s = do
    (m, s) ← load_map fs s
    (slot, m') ← BitMap.find m
    elim slot [
      | none ↦ ok (false, s)
      | some sector ↦ create_at fs name initial_size sector dir m' s
    ]

  unfoldable pub create : FileSystem → List ℕ → ℕ → SynchDisk → Result (Bool × SynchDisk)
  create fs name initial_size s = do
    (dir, s) ← load_directory fs s
    found ← Directory.find dir name
    if is_found found then ok (false, s) else create_new fs name initial_size dir s

  -- The open file, or NULL.
  unfoldable pub open_file : FileSystem → List ℕ → SynchDisk → Result (Option OpenFile × SynchDisk)
  open_file fs name s = do
    (dir, s) ← load_directory fs s
    found ← Directory.find dir name
    elim found [
      | none ↦ ok (none, s)
      | some sector ↦
          if is_sector sector
          then (do (f, s) ← new_open_file resume memory sector s; ok (some f, s))
          else ok (none, s)
    ]

  -- Remove, once the header and the map are read: all is given back and written.
  unfoldable pub release :
      FileSystem
      → List ℕ
      → ℕ
      → Directory
      → FileHeader
      → BitMap
      → SynchDisk
      → Result (Bool × SynchDisk)
  release fs name sector dir hdr m s = do
    m ← deallocate hdr m
    m ← clear m sector
    (gone, dir) ← remove dir name
    s ← write_map resume memory m fs.free_map_file s
    s ← write_directory resume memory dir fs.directory_file s
    ok (true, s)

  -- Remove, once the header's sector is found.
  unfoldable pub remove_at :
      FileSystem → List ℕ → ℕ → Directory → SynchDisk → Result (Bool × SynchDisk)
  remove_at fs name sector dir s = do
    (hdr, s) ← fetch_header resume memory sector s
    (m, s) ← load_map fs s
    release fs name sector dir hdr m s

  unfoldable pub remove_file : FileSystem → List ℕ → SynchDisk → Result (Bool × SynchDisk)
  remove_file fs name s = do
    (dir, s) ← load_directory fs s
    found ← Directory.find dir name
    elim found [
      | none ↦ ok (false, s)
      | some sector ↦
          if is_found (some sector) then remove_at fs name sector dir s else ok (false, s)
    ]

  -- The constructor with `format` FALSE, and with TRUE.
  unfoldable pub mount : SynchDisk → Result (FileSystem × SynchDisk)
  mount s = do
    (free_map_file, s) ← new_open_file resume memory free_map_sector s
    (directory_file, s) ← new_open_file resume memory directory_sector s
    ok (record { free_map_file = free_map_file; directory_file = directory_file }, s)

  unfoldable pub format_disk : SynchDisk → Result (FileSystem × SynchDisk)
  unfolding mount
  format_disk s = do
    m ← new_bit_map memory.words num_sectors
    let dir = new_directory memory.entries
    m ← mark m free_map_sector
    m ← mark m directory_sector
    (fits, map_hdr, m) ← allocate memory.header m free_map_file_size
    assert fits
    (fits, dir_hdr, m) ← allocate memory.header m directory_file_size
    assert fits
    s ← write_header resume memory map_hdr free_map_sector s
    s ← write_header resume memory dir_hdr directory_sector s
    (fs, s) ← mount s
    s ← write_map resume memory m fs.free_map_file s
    s ← write_directory resume memory dir fs.directory_file s
    ok (fs, s)
