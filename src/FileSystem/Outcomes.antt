-- ===== src/FileSystem/Outcomes.antt =====
-- The outcomes of FileSystem::Create (code/filesys/filesys.cc), as the disk shows them.
use my_nachos.Shared.{
  none, ℕ, ◌*◌, ◌<◌, ◌≤◌, ◌≡◌, ◌≢◌, some, List, [], get_or, length, Bool, true, false, ◌==◌, ◌||◌,
  if◌then◌else◌, Result, ok, stop, Stop,
}
use my_nachos.Disk.{num_sectors}
use my_nachos.BitMap.Bits.{used}
use my_nachos.BitMap.Search.{free_below}
use my_nachos.FileHeader.{FileHeader, num_direct, sector_size}
use my_nachos.FileHeader.Allocation.{owned, sectors_needed}
use my_nachos.Directory.Table.{same, lookup}
use my_nachos.Directory.Operations.{IsFull}
use my_nachos.SynchDisk.{SynchDisk}
use my_nachos.OpenFile.Bytes.{IsReady, sector_of, Leaves}
use my_nachos.FileSystem.{FileSystem}
use my_nachos.FileSystem.Mounted.{map_on, directory_on, header_on, IsMounted}

-- Why Create returns FALSE: the name is there, no sector is free, no entry is free, or there are
-- not enough sectors for the data besides the header's.
pub data Refusal (fs : FileSystem) (name : List ℕ) (size : ℕ) (old : List (List ℕ)) : Type 0 where
  name_there : (k : ℕ) → lookup (directory_on fs old).table name ≡ some k → Refusal fs name size old
  no_sector : ((j : ℕ) → j < num_sectors → used (map_on fs old) j ≡ 1) → Refusal fs name size old
  no_entry : IsFull (directory_on fs old).table → Refusal fs name size old
  no_space_left :
      free_below (map_on fs old) num_sectors ≤ sectors_needed size → Refusal fs name size old

-- What Create leaves when it returns TRUE: the name leads to a header with the size and with sectors
-- that were free; they and the header's sector, which was free, are all that the map has besides;
-- and the sectors of the disk that hold neither the header nor the map nor the directory are as
-- they were.
pub record Created (fs : FileSystem) (name : List ℕ) (size : ℕ) (old : List (List ℕ)) (sector : ℕ)
    (hdr : FileHeader) (s : SynchDisk) : Type 0 where
  pub ready : IsReady s
  pub mounted : IsMounted fs s.disk.sectors
  pub inside : sector < num_sectors
  pub free : used (map_on fs old) sector ≡ 0
  pub header : header_on s.disk.sectors sector ≡ hdr
  pub size_set : hdr.num_bytes ≡ size
  pub fresh :
      (i : ℕ)
      → i < sectors_needed size
      → (used (map_on fs old) (get_or hdr.data_sectors i 0) ≡ 0)
        × (get_or hdr.data_sectors i 0 ≢ sector)
  pub distinct :
      (i j : ℕ)
      → i < j
      → j < sectors_needed size
      → get_or hdr.data_sectors i 0 ≢ get_or hdr.data_sectors j 0
  pub room : sectors_needed size ≤ length hdr.data_sectors
  pub on_disk : (i : ℕ) → i < sectors_needed size → get_or hdr.data_sectors i 0 < num_sectors
  pub found_by_name :
      (other : List ℕ)
      → lookup (directory_on fs s.disk.sectors).table other
        ≡ (if same name other then some sector else lookup (directory_on fs old).table other)
  pub marked :
      (j : ℕ)
      → used (map_on fs s.disk.sectors) j ≡ (
          if (j == sector) || owned hdr.data_sectors (sectors_needed size) j
          then 1
          else used (map_on fs old) j)
  pub spared :
      (k : ℕ)
      → k ≢ sector
      → ((i : ℕ)
          → i * sector_size < fs.free_map_file.hdr.num_bytes
          → sector_of fs.free_map_file.hdr i ≢ k)
      → ((i : ℕ)
          → i * sector_size < fs.directory_file.hdr.num_bytes
          → sector_of fs.directory_file.hdr i ≢ k)
      → get_or s.disk.sectors k [] ≡ get_or old k []

-- Every outcome of Create on a disk with the sectors `old`.
pub data Creates (fs : FileSystem) (name : List ℕ) (size : ℕ) (old : List (List ℕ))
    : Result (Bool × SynchDisk) → Type 0 where
  refused :
      (s : SynchDisk)
      → Refusal fs name size old
      → Leaves old s
      → Creates fs name size old (ok (false, s))
  created :
      (s : SynchDisk) (sector : ℕ) (hdr : FileHeader)
      → Created fs name size old sector hdr s
      → Creates fs name size old (ok (true, s))
  too_big :
      lookup (directory_on fs old).table name ≡ none
      → ¬ IsFull (directory_on fs old).table
      → num_direct < sectors_needed size
      → sectors_needed size < free_below (map_on fs old) num_sectors
      → Creates fs name size old (stop Stop.out_of_range)
