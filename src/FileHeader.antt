-- ===== src/FileHeader.antt =====
-- code/filesys/filehdr.cc and filehdr.h: the i-node, a fixed table of the sectors of a file.
pub mod Allocation
pub mod Release
pub mod WordRange
use my_nachos.Shared.{
  ℕ, zero, suc, ◌-◌, ◌*◌, ◌/◌, ◌^◌, Bool, true, false, Option, none, some, List, ltb, if◌then◌else◌,
  elem, put, Result, ok, stop, Stop, ◌>>=◌, ◌>>◌, assert,
}
use my_nachos.BitMap.{BitMap, div_round_up, find, num_clear, test, clear}

-- `SectorSize` of disk.h and `NumDirect` of filehdr.h, with 4-byte integers.
abbrev pub sector_size : ℕ
sector_size = 128

abbrev pub num_direct : ℕ
num_direct = (sector_size - 2 * 4) / 4

abbrev pub max_file_size : ℕ
max_file_size = num_direct * sector_size

pub record FileHeader : Type 0 where
  pub num_bytes : ℕ
  pub num_sectors : ℕ
  pub data_sectors : List ℕ

-- The pattern of the integer that `Find` returns, -1 if there is no sector.
abbrev pub sector_int : Option ℕ → ℕ
sector_int none = 2 ^ 32 - 1
sector_int (some k) = k

-- `for (i = 0; i < numSectors; i++) dataSectors[i] = freeMap->Find()`, with the rounds left.
pub allocate_from : ℕ → ℕ → List ℕ → BitMap → Result (List ℕ × BitMap)
allocate_from zero i sectors m = ok (sectors, m)
allocate_from (suc n) i sectors m = find m >>= λ r. do
  sectors' ← put sectors i (sector_int r.0)
  allocate_from n (suc i) sectors' r.1

unfoldable pub allocate : FileHeader → BitMap → ℕ → Result (Bool × FileHeader × BitMap)
unfolding allocate_from
allocate hdr free_map file_size = do
  free ← num_clear free_map
  if ltb free needed then ok (false, sized, free_map) else take_sectors
  where
    needed : ℕ
    needed = div_round_up file_size sector_size

    sized : FileHeader
    sized = record hdr { num_bytes = file_size; num_sectors = needed }

    take_sectors : Result (Bool × FileHeader × BitMap)
    take_sectors = allocate_from needed 0 hdr.data_sectors free_map >>= λ r.
        ok (true, record sized { data_sectors = r.0 }, r.1)

pub deallocate_from : ℕ → ℕ → List ℕ → BitMap → Result BitMap
deallocate_from zero i sectors m = ok m
deallocate_from (suc n) i sectors m = do
  sector ← elem sectors i
  marked ← test m sector
  assert marked
  m' ← clear m sector
  deallocate_from n (suc i) sectors m'

unfoldable pub deallocate : FileHeader → BitMap → Result BitMap
unfolding deallocate_from
deallocate hdr free_map = deallocate_from hdr.num_sectors 0 hdr.data_sectors free_map

unfoldable pub byte_to_sector : FileHeader → ℕ → Result ℕ
byte_to_sector hdr offset = elem hdr.data_sectors (offset / sector_size)

unfoldable pub file_length : FileHeader → ℕ
file_length hdr = hdr.num_bytes
