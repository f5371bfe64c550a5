-- ===== src/FileSystem/Back.antt =====
-- A map and a directory written back to their files (code/filesys/filesys.cc) are there again.
use my_nachos.Shared.{
  ℕ, ◌*◌, ◌≡◌, ap, ◌∙◌, sym, List, length, Succeeds, succeeds, Succeeds->>=, arith,
}
use my_nachos.Disk.{num_sectors}
use my_nachos.BitMap.{BitMap}
use my_nachos.BitMap.Bits.{IsWellFormed}
use my_nachos.BitMap.WordRange.{AreWords}
use my_nachos.Directory.{Directory}
use my_nachos.Directory.Entries.{AreEntries}
use my_nachos.SynchDisk.{SynchDisk}
use my_nachos.OpenFile.Bytes.{IsReady}
use my_nachos.FileSystem.{FileSystem, num_dir_entries}
use my_nachos.FileSystem.Layout.{
  encode_words, decode_words, encode_entries, decode_entries, length-encode_words,
  length-encode_entries, decode_words-encode_words, decode_entries-encode_entries,
}
use my_nachos.FileSystem.Transfer.{Memory, write_map, write_directory}
use my_nachos.FileSystem.Whole.{write_whole, Rewrites}
use my_nachos.FileSystem.Mounted.{IsMemory, AreOpen}

-- What is written fits its layout and its file.
pub record IsWritable (dir : Directory) (m : BitMap) : Type 0 where
  pub table : length dir.table ≡ num_dir_entries
  pub entries : AreEntries dir.table
  pub num_bits : m.num_bits ≡ num_sectors
  pub well_formed : IsWellFormed m
  pub words : AreWords m.map

module _ (dir : Directory) (m : BitMap) (fine : IsWritable dir m) where
  words_of : m.num_words ≡ 32
  words_of = ground (arith, fine.well_formed.words, fine.num_bits)

  pub map_back :
      (b : List ℕ)
      → b ≡ encode_words m.map
      → record { num_bits = num_sectors; num_words = 32; map = decode_words 32 b } ≡ m
  map_back b e =
      ap (λ b. record { num_bits = num_sectors; num_words = 32; map = decode_words 32 b }) e
      ∙ ap
          (λ n. record {
            num_bits = num_sectors;
            num_words = 32;
            map = decode_words n (encode_words m.map);
          })
          {x = 32} {y = length m.map} (omega (arith, fine.well_formed.stored, words_of))
      ∙ ap (λ ws. record { num_bits = num_sectors; num_words = 32; map = ws })
          (decode_words-encode_words m.map fine.words)
      ∙ ap (λ n. record { num_bits = num_sectors; num_words = n; map = m.map }) (sym words_of)
      ∙ ap (λ n. record { num_bits = n; num_words = m.num_words; map = m.map }) (sym fine.num_bits)

  pub directory_back :
      (b : List ℕ)
      → b ≡ encode_entries dir.table
      → record { table = decode_entries num_dir_entries b } ≡ dir
  directory_back b e =
      ap (λ b. record { table = decode_entries num_dir_entries b }) e
      ∙ ap (λ n. record { table = decode_entries n (encode_entries dir.table) }) (sym fine.table)
      ∙ ap (λ es. record { table = es }) (decode_entries-encode_entries dir.table fine.entries)

  module _ (resume : ℕ → ℕ) (memory : Memory) (sized : IsMemory memory) (fs : FileSystem)
      (open_ : AreOpen fs) where
    pub write_directory-Succeeds :
        (s : SynchDisk)
        → IsReady s
        → Succeeds
            (Rewrites fs.directory_file.hdr s.disk.sectors (encode_entries dir.table))
            (write_directory resume memory dir fs.directory_file s)
    unfolding write_directory
    write_directory-Succeeds s ready =
        Succeeds->>=
          (write_whole resume fs.directory_file.hdr (length dir.table * 20)
            (omega (arith, open_.directory_size, fine.table)) (omega (arith, fine.table))
            open_.directory_file memory.chars (encode_entries dir.table) s sized.chars ready
            (omega (arith, length-encode_entries dir.table, fine.table, fine.table)))
          λ r w. succeeds w

    pub write_map-Succeeds :
        (s : SynchDisk)
        → IsReady s
        → Succeeds
            (Rewrites fs.free_map_file.hdr s.disk.sectors (encode_words m.map))
            (write_map resume memory m fs.free_map_file s)
    unfolding write_map
    write_map-Succeeds s ready =
        Succeeds->>=
          (write_whole resume fs.free_map_file.hdr (m.num_words * 4)
            (omega (arith, open_.map_size, words_of)) (omega (arith, words_of)) open_.map_file
            memory.chars (encode_words m.map) s sized.chars ready
            (omega (arith, length-encode_words m.map, fine.well_formed.stored)))
          λ r w. succeeds w
