-- ===== src/FileSystem/Transfer.antt =====
-- FetchFrom and WriteBack of the file header (code/filesys/filehdr.cc), the bit map
-- (code/userprog/bitmap.cc) and the directory (code/filesys/directory.cc), and the constructor of
-- OpenFile (code/filesys/openfile.cc), which fetches a header.
use my_nachos.Shared.{length, ℕ, ◌*◌, List, ◌∷◌, drop, copy_into, Result, ok, ◌>>=◌}
use my_nachos.BitMap.{BitMap}
use my_nachos.FileHeader.{FileHeader, num_direct}
use my_nachos.Directory.{DirectoryEntry, Directory}
use my_nachos.SynchDisk.{SynchDisk, read_sector, write_sector}
use my_nachos.OpenFile.{OpenFile, read_at, write_at}
use my_nachos.FileSystem.Layout.{
  encode_words, decode_words, word_at, entry_size, encode_entries, decode_entries,
}

-- What `new` returns has not been written: it holds what the memory held.
pub record Memory : Type 0 where
  pub chars : ℕ → List ℕ
  pub words : List ℕ
  pub entries : List DirectoryEntry
  pub header : FileHeader

-- A header fills its sector: two integers, and the table of `NumDirect` more.
unfoldable pub header_bytes : FileHeader → List ℕ
header_bytes hdr = encode_words (hdr.num_bytes ∷ hdr.num_sectors ∷ hdr.data_sectors)

unfoldable pub header_at : List ℕ → FileHeader
header_at b = record {
  num_bytes = word_at b 0;
  num_sectors = word_at b 4;
  data_sectors = decode_words num_direct (drop 8 b);
}

module _ (resume : ℕ → ℕ) (memory : Memory) where
  unfoldable pub fetch_header : ℕ → SynchDisk → Result (FileHeader × SynchDisk)
  fetch_header sector s = do (bytes, s) ← read_sector resume s sector; ok (header_at bytes, s)

  unfoldable pub write_header : FileHeader → ℕ → SynchDisk → Result SynchDisk
  write_header hdr sector s = write_sector resume s sector (header_bytes hdr)

  unfoldable pub new_open_file : ℕ → SynchDisk → Result (OpenFile × SynchDisk)
  new_open_file sector s = do
    (hdr, s) ← fetch_header sector s
    ok (record { hdr = hdr; seek_position = 0 }, s)

  unfoldable pub fetch_map : BitMap → OpenFile → SynchDisk → Result (BitMap × SynchDisk)
  fetch_map m file s = do
    (bytes, s) ← read_at resume file.hdr (m.num_words * 4) 0 s
    ok (record m { map = decode_words m.num_words (copy_into (encode_words m.map) 0 bytes) }, s)

  unfoldable pub write_map : BitMap → OpenFile → SynchDisk → Result SynchDisk
  write_map m file s = do
    (n, s) ← write_at resume file.hdr memory.chars (encode_words m.map) (m.num_words * 4) 0 s
    ok s

  unfoldable pub fetch_directory : Directory → OpenFile → SynchDisk → Result (Directory × SynchDisk)
  fetch_directory dir file s = do
    (bytes, s) ← read_at resume file.hdr (length dir.table * entry_size) 0 s
    ok (
      record dir {
        table = decode_entries (length dir.table) (copy_into (encode_entries dir.table) 0 bytes);
      },
      s,
    )

  unfoldable pub write_directory : Directory → OpenFile → SynchDisk → Result SynchDisk
  write_directory dir file s = do
    (n, s) ←
        write_at resume file.hdr memory.chars (encode_entries dir.table)
          (length dir.table * entry_size) 0 s
    ok s
