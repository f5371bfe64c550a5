-- ===== src/FileSystem/Mounted.antt =====
-- What the disk of a mounted file system (code/filesys/filesys.cc) holds: the map and the directory
-- that its two files stand for, and what is always true of them.
use my_nachos.Shared.{
  ℕ, zero, suc, ◌+◌, ◌*◌, ◌<◌, ◌≤◌, ◌≡◌, ◌≢◌, refl, ap, ◌∙◌, some, List, [], ◌∷◌, ◌++◌, length,
  get_or, drop, copy_into, Succeeds, succeeds, Succeeds->>=, arith,
}
use mathlib.Core.List.{append-nil}
use my_nachos.Disk.{num_sectors}
use my_nachos.BitMap.{BitMap}
use my_nachos.BitMap.Bits.{IsWellFormed, used, new_bit_map_lem}
use my_nachos.BitMap.WordRange.{AreWords}
use my_nachos.FileHeader.{FileHeader, num_direct, sector_size}
use my_nachos.Directory.{DirectoryEntry, Directory, new_directory}
use my_nachos.Directory.Operations.{length-new_directory}
use my_nachos.Directory.Table.{lookup, IsUnique}
use my_nachos.Directory.Entries.{AreEntries}
use my_nachos.SynchDisk.{SynchDisk}
use my_nachos.OpenFile.Bytes.{IsReady, IsFile, sector_of, Leaves, read_sector-Succeeds}
use my_nachos.FileSystem.{
  FileSystem, free_map_file_size, directory_file_size, num_dir_entries, load_map, load_directory,
}
use my_nachos.FileSystem.Layout.{
  encode_words, decode_words, encode_entries, decode_entries, length-encode_words,
  length-encode_entries,
}
use my_nachos.FileSystem.Transfer.{Memory, header_at, fetch_header, fetch_map, fetch_directory}
use my_nachos.FileSystem.Whole.{file_bytes, length-file_bytes, read_whole}

-- The map, the directory, and a header, as the sectors of the disk hold them.
abbrev pub map_on : FileSystem → List (List ℕ) → BitMap
map_on fs sectors = record {
  num_bits = num_sectors;
  num_words = 32;
  map = decode_words 32 (file_bytes fs.free_map_file.hdr sectors fs.free_map_file.hdr.num_bytes 0);
}

abbrev pub directory_on : FileSystem → List (List ℕ) → Directory
directory_on fs sectors = record {
  table =
      decode_entries num_dir_entries
        (file_bytes fs.directory_file.hdr sectors fs.directory_file.hdr.num_bytes 0);
}

abbrev pub header_on : List (List ℕ) → ℕ → FileHeader
header_on sectors k = header_at (get_or sectors k [])

-- The sizes of what `new` returns.
pub record IsMemory (memory : Memory) : Type 0 where
  pub chars : (k : ℕ) → length (memory.chars k) ≡ k
  pub words : length memory.words ≡ 32
  pub entries : length memory.entries ≡ num_dir_entries
  pub header : length memory.header.data_sectors ≡ num_direct
  pub header_words : AreWords memory.header.data_sectors

-- The two open files are files, which share no sector.
pub record AreOpen (fs : FileSystem) : Type 0 where
  pub map_file : IsFile fs.free_map_file.hdr
  pub map_size : fs.free_map_file.hdr.num_bytes ≡ free_map_file_size
  pub directory_file : IsFile fs.directory_file.hdr
  pub directory_size : fs.directory_file.hdr.num_bytes ≡ directory_file_size
  pub apart :
      (i j : ℕ)
      → i * sector_size < fs.free_map_file.hdr.num_bytes
      → j * sector_size < fs.directory_file.hdr.num_bytes
      → sector_of fs.free_map_file.hdr i ≢ sector_of fs.directory_file.hdr j

-- The map has a bit set for every sector of the two files, no two files have one name, and every
-- file's header is on the disk.
pub record IsMounted (fs : FileSystem) (sectors : List (List ℕ)) : Type 0 where
  pub words : AreWords (map_on fs sectors).map
  pub entries : AreEntries (directory_on fs sectors).table
  pub unique : IsUnique (directory_on fs sectors).table
  pub on_disk :
      (name : List ℕ) (k : ℕ)
      → lookup (directory_on fs sectors).table name ≡ some k
      → k < num_sectors
  pub map_used :
      (i : ℕ)
      → i * sector_size < fs.free_map_file.hdr.num_bytes
      → used (map_on fs sectors) (sector_of fs.free_map_file.hdr i) ≡ 1
  pub directory_used :
      (i : ℕ)
      → i * sector_size < fs.directory_file.hdr.num_bytes
      → used (map_on fs sectors) (sector_of fs.directory_file.hdr i) ≡ 1

length-decode_words : (n : ℕ) (b : List ℕ) → length (decode_words n b) ≡ n
unfolding decode_words
length-decode_words zero b = refl
length-decode_words (suc n) b = ap suc (length-decode_words n (drop 4 b))

pub map_on-IsWellFormed :
    (fs : FileSystem) (sectors : List (List ℕ)) → IsWellFormed (map_on fs sectors)
map_on-IsWellFormed fs sectors = record { words = refl; stored = length-decode_words 32 _ }

pub length-decode_entries : (n : ℕ) (b : List ℕ) → length (decode_entries n b) ≡ n
unfolding decode_entries
length-decode_entries zero b = refl
length-decode_entries (suc n) b = ap suc (length-decode_entries n (drop 20 b))

drop-all : (n : ℕ) (b : List ℕ) → length b ≤ n → drop n b ≡ []
drop-all zero [] h = refl
drop-all zero (c ∷ cs) h = absurd (omega arith)
drop-all (suc n) [] h = refl
drop-all (suc n) (c ∷ cs) h = drop-all n cs (omega arith)

-- A copy over the whole of an array.
copy_into-all : (to from : List ℕ) → length to ≡ length from → copy_into to 0 from ≡ from
copy_into-all to from e =
    ap (λ b. from ++ b) (drop-all (0 + length from) to (omega (arith, e))) ∙ append-nil from

module _ (resume : ℕ → ℕ) (memory : Memory) where
  pub fetch_header-Succeeds :
      (k : ℕ) (s : SynchDisk)
      → k < num_sectors
      → IsReady s
      → Succeeds
          (λ (r : FileHeader × SynchDisk).
            (r.0 ≡ header_on s.disk.sectors k) × Leaves s.disk.sectors r.1)
          (fetch_header resume memory k s)
  unfolding fetch_header
  fetch_header-Succeeds k s lt ready =
      Succeeds->>= (read_sector-Succeeds resume s k ready lt)
        λ r (e, left). succeeds (ap header_at e, left)

module _ (resume : ℕ → ℕ) (memory : Memory) (sized : IsMemory memory) (fs : FileSystem)
    (open_ : AreOpen fs) where
  fetch_map-Succeeds :
      (m : BitMap) (s : SynchDisk)
      → IsWellFormed m
      → m.num_bits ≡ num_sectors
      → m.num_words ≡ 32
      → IsReady s
      → Succeeds
          (λ (r : BitMap × SynchDisk). (r.0 ≡ map_on fs s.disk.sectors) × Leaves s.disk.sectors r.1)
          (fetch_map resume memory m fs.free_map_file s)
  unfolding fetch_map
  fetch_map-Succeeds m s w bits words ready =
      Succeeds->>=
        (read_whole resume fs.free_map_file.hdr (m.num_words * 4)
          (omega (arith, open_.map_size, words)) (omega (arith, words)) open_.map_file s ready)
        λ r (e, left). succeeds (
          ap
                (λ n. record {
                  num_bits = n;
                  num_words = m.num_words;
                  map = decode_words m.num_words (copy_into (encode_words m.map) 0 r.0);
                })
                bits
              ∙ ap
                  (λ n. record {
                    num_bits = num_sectors;
                    num_words = n;
                    map = decode_words n (copy_into (encode_words m.map) 0 r.0);
                  })
                  words
              ∙ ap (λ b. record { num_bits = num_sectors; num_words = 32; map = decode_words 32 b })
                  (ap (copy_into (encode_words m.map) 0) e
                    ∙ copy_into-all (encode_words m.map)
                        (file_bytes fs.free_map_file.hdr s.disk.sectors
                          fs.free_map_file.hdr.num_bytes 0)
                        (omega (
                          arith,
                          length-encode_words m.map,
                          w.stored,
                          words,
                          open_.map_size,
                          length-file_bytes fs.free_map_file.hdr s.disk.sectors
                              fs.free_map_file.hdr.num_bytes 0,
                        ))),
          left,
        )

  pub load_map-Succeeds :
      (s : SynchDisk)
      → IsReady s
      → Succeeds
          (λ (r : BitMap × SynchDisk). (r.0 ≡ map_on fs s.disk.sectors) × Leaves s.disk.sectors r.1)
          (load_map resume memory fs s)
  unfolding load_map
  load_map-Succeeds s ready =
      let (m, made, w, bits, clean) = new_bit_map_lem memory.words num_sectors sized.words in
      rw made (fetch_map-Succeeds m s w bits (ground (arith, w.words, bits)) ready)

  pub load_directory-Succeeds :
      (s : SynchDisk)
      → IsReady s
      → Succeeds
          (λ (r : Directory × SynchDisk).
            (r.0 ≡ directory_on fs s.disk.sectors) × Leaves s.disk.sectors r.1)
          (load_directory resume memory fs s)
  unfolding load_directory fetch_directory new_directory
  load_directory-Succeeds s ready =
      let table : List DirectoryEntry = (new_directory memory.entries).table in
      let count : length table ≡ num_dir_entries =
        length-new_directory memory.entries ∙ sized.entries in
      Succeeds->>=
        (read_whole resume fs.directory_file.hdr (length table * 20)
          (omega (arith, open_.directory_size, count)) (omega (arith, count)) open_.directory_file s
          ready)
        λ r (e, left). succeeds (
          ap (λ n. record { table = decode_entries n (copy_into (encode_entries table) 0 r.0) })
                count
              ∙ ap (λ b. record { table = decode_entries num_dir_entries b })
                  (ap (copy_into (encode_entries table) 0) e
                    ∙ copy_into-all (encode_entries table)
                        (file_bytes fs.directory_file.hdr s.disk.sectors
                          fs.directory_file.hdr.num_bytes 0)
                        (omega (
                          arith,
                          length-encode_entries table,
                          length-new_directory memory.entries,
                          sized.entries,
                          open_.directory_size,
                          length-file_bytes fs.directory_file.hdr s.disk.sectors
                              fs.directory_file.hdr.num_bytes 0,
                        ))),
          left,
        )
