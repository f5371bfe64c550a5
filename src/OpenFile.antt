-- ===== src/OpenFile.antt =====
-- code/filesys/openfile.cc: reading and writing a file by bytes, on a disk of sectors. Positions and
-- byte counts are not negative; where an `int` does not hold their sum, or the size of the buffer,
-- the run stops with `int_overflow`.
pub mod Bytes
pub mod Read
pub mod Sectors
pub mod Write
use my_nachos.Shared.{
  ℕ, zero, suc, ◌+◌, ◌-◌, ◌*◌, ◌/◌, Bool, true, false, not, ◌&&◌, ◌||◌, List, [], ◌++◌, ltb, leb,
  ◌==◌, if◌then◌else◌, length, take, drop, copy_into, Result, ok, ◌>>=◌, int_of,
}
use my_nachos.FileHeader.{FileHeader, sector_size, byte_to_sector, file_length}
use my_nachos.SynchDisk.{SynchDisk, read_sector, write_sector}

pub record OpenFile : Type 0 where
  pub hdr : FileHeader
  pub seek_position : ℕ

unfoldable pub seek : OpenFile → ℕ → OpenFile
seek f position = record f { seek_position = position }

-- The bytes of the request that the file has.
unfoldable pub clip : FileHeader → ℕ → ℕ → Result ℕ
clip hdr num_bytes position = int_of (position + num_bytes) >>= λ end.
    ok (if ltb (file_length hdr) end then file_length hdr - position else num_bytes)

-- `numBytes <= 0 || position >= fileLength`.
unfoldable pub is_refused : FileHeader → ℕ → ℕ → Bool
is_refused hdr num_bytes position = num_bytes == 0 || leb (file_length hdr) position

module _ (resume : ℕ → ℕ) (hdr : FileHeader) where
  -- The loop of ReadAt from sector `i` of the file on, with the rounds left: what it puts in `buf`.
  unfoldable pub read_from : ℕ → ℕ → SynchDisk → Result (List ℕ × SynchDisk)
  read_from zero i s = ok ([], s)
  read_from (suc n) i s = do
    sector ← byte_to_sector hdr (i * sector_size)
    (bytes, s') ← read_sector resume s sector
    (rest, s'') ← read_from n (i + 1) s'
    ok (bytes ++ rest, s'')

  -- ReadAt for `n` bytes that the file has: they come into the buffer.
  unfoldable pub read_span : ℕ → ℕ → SynchDisk → Result (List ℕ × SynchDisk)
  read_span n position s =
      let first_sector = position / sector_size in
      let last_sector = (position + n - 1) / sector_size in
      let num_sectors = 1 + last_sector - first_sector in
      int_of (num_sectors * sector_size) >>= λ size. read_from num_sectors first_sector s >>= λ r.
      ok (take n (drop (position - first_sector * sector_size) r.0), r.1)

  -- The bytes that come into the buffer, and the disk; the number of the bytes is returned.
  unfoldable pub read_at : ℕ → ℕ → SynchDisk → Result (List ℕ × SynchDisk)
  unfolding clip is_refused
  read_at num_bytes position s =
      if is_refused hdr num_bytes position
      then ok ([], s)
      else clip hdr num_bytes position >>= λ n. read_span n position s

  -- `ReadAt(&buf[at], SectorSize, sector * SectorSize)` under a test.
  unfoldable pub read_in : Bool → ℕ → ℕ → List ℕ → SynchDisk → Result (List ℕ × SynchDisk)
  read_in needed sector at buf s =
      if needed
      then (do
        (bytes, s') ← read_at sector_size (sector * sector_size) s
        ok (copy_into buf at bytes, s'))
      else ok (buf, s)

  -- The loop of WriteAt from sector `i` of the file on, with the rounds left and the rest of `buf`.
  unfoldable pub write_from : ℕ → ℕ → List ℕ → SynchDisk → Result SynchDisk
  write_from zero i buf s = ok s
  write_from (suc n) i buf s = do
    sector ← byte_to_sector hdr (i * sector_size)
    s' ← write_sector resume s sector (take sector_size buf)
    write_from n (i + 1) (drop sector_size buf) s'

  -- WriteAt for `n` bytes that the file has. `memory k` is what the `k` bytes that `new` returns hold.
  unfoldable pub write_span :
      (memory : ℕ → List ℕ) → List ℕ → ℕ → ℕ → SynchDisk → Result (ℕ × SynchDisk)
  write_span memory from n position s =
      let first_sector = position / sector_size in
      let last_sector = (position + n - 1) / sector_size in
      let num_sectors = 1 + last_sector - first_sector in
      let first_aligned = position == first_sector * sector_size in
      do
        size ← int_of (num_sectors * sector_size)
        last_end ← int_of ((last_sector + 1) * sector_size)
        let last_aligned = position + n == last_end
        (buf, s) ← read_in (not first_aligned) first_sector 0 (memory size) s
        (buf, s) ←
            read_in (not last_aligned && (not (first_sector == last_sector) || first_aligned))
              last_sector ((last_sector - first_sector) * sector_size) buf s
        let buf = copy_into buf (position - first_sector * sector_size) (take n from)
        s ← write_from num_sectors first_sector buf s
        ok (n, s)

  -- The number of bytes is returned.
  unfoldable pub write_at :
      (memory : ℕ → List ℕ) → List ℕ → ℕ → ℕ → SynchDisk → Result (ℕ × SynchDisk)
  unfolding clip is_refused
  write_at memory from num_bytes position s =
      if is_refused hdr num_bytes position
      then ok (0, s)
      else clip hdr num_bytes position >>= λ n. write_span memory from n position s

unfoldable pub length_of : OpenFile → ℕ
length_of f = file_length f.hdr

-- `Read` and `Write`, which go on from the seek position.
unfoldable pub read : (ℕ → ℕ) → OpenFile → ℕ → SynchDisk → Result (List ℕ × OpenFile × SynchDisk)
read resume f num_bytes s = do
  (bytes, s) ← read_at resume f.hdr num_bytes f.seek_position s
  ok (bytes, record f { seek_position = f.seek_position + length bytes }, s)

unfoldable pub write_next :
    (ℕ → ℕ) → (ℕ → List ℕ) → OpenFile → List ℕ → ℕ → SynchDisk → Result (ℕ × OpenFile × SynchDisk)
write_next resume memory f from num_bytes s = do
  (n, s) ← write_at resume f.hdr memory from num_bytes f.seek_position s
  ok (n, record f { seek_position = f.seek_position + n }, s)
