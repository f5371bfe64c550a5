-- ===== src/Tests/FileSystems.antt =====
-- Runs of code/filesys/openfile.cc and code/filesys/filesys.cc.
use my_nachos.Shared.{
  ℕ, zero, suc, ◌+◌, ◌*◌, ◌^◌, ◌%◌, ◌/◌, ◌≡◌, ◌≢◌, ◌<◌, ap, ◌∙◌, refl, true, false, none, some,
  List, [], ◌∷◌, ok, stop, Stop, length, get_or, set, replicate, length-replicate, get_or-replicate,
  Succeeds, arith, subst, sym,
}
use my_nachos.BitMap.Bits.{used}
use my_nachos.BitMap.WordRange.{AreWords}
use my_nachos.Directory.{DirectoryEntry}
use my_nachos.Directory.Table.{lookup, IsUnique}
use my_nachos.Directory.Entries.{AreEntries}
use my_nachos.Disk.{num_sectors}
use my_nachos.SynchDisk.{SynchDisk}
use my_nachos.OpenFile.{read_at, write_at}
use my_nachos.OpenFile.Bytes.{AreFull, IsReady, IsFile, set-AreFull, sector_of}
use my_nachos.OpenFile.Read.{Reads, available, read_at-Holds}
use my_nachos.OpenFile.Write.{Writes, write_at-Writes}
use mathlib.Core.Option
use my_nachos.Shared.{◌>>=◌, Result, Option, Bool}
use my_nachos.FileSystem.{FileSystem, create, open_file, remove_file, format_disk}
use my_nachos.FileSystem.Transfer.{Memory}
use my_nachos.FileSystem.Mounted.{map_on, directory_on, IsMemory, AreOpen, IsMounted}
use my_nachos.FileSystem.Outcomes.{Creates}
use my_nachos.FileSystem.Open.{Opens, open_file-create}
use my_nachos.FileSystem.Create.{create-Creates}

-- A disk of empty sectors but for the bit map, which has the first five sectors in use.
abbrev pub blank : List ℕ
blank = replicate 128 0

abbrev map_bytes : List ℕ
map_bytes = 31 ∷ replicate 127 0

sectors : List (List ℕ)
sectors = set (replicate 1024 blank) 2 map_bytes

abbrev disk : SynchDisk
disk = record {
  disk = record { sectors = sectors; active = false; last_sector = 0; buffer_init = 0 };
  ticks = 0;
}

abbrev pub later : ℕ → ℕ
later t = t + 10

-- The files of the map, at sector 2, and of the directory, at sectors 3 and 4.
abbrev pub fs : FileSystem
fs = record {
  free_map_file = record {
    hdr = record { num_bytes = 128; num_sectors = 1; data_sectors = 2 ∷ [] };
    seek_position = 0;
  };
  directory_file = record {
    hdr = record { num_bytes = 200; num_sectors = 2; data_sectors = 3 ∷ 4 ∷ [] };
    seek_position = 0;
  };
}

abbrev pub no_file : DirectoryEntry
no_file = record { in_use = false; sector = 0; name = replicate 10 0 }

abbrev pub memory : Memory
memory = record {
  chars = λ k. replicate k 7;
  words = replicate 32 9;
  entries = replicate 10 no_file;
  header = record { num_bytes = 0; num_sectors = 0; data_sectors = replicate 30 8 };
}

pub blank-AreFull : AreFull (replicate 1024 blank)
blank-AreFull = record {
  count = length-replicate 1024 blank;
  full = λ k lt. ap length (get_or-replicate 1024 k blank [] lt) ∙ length-replicate {A = ℕ} 128 0;
}

disk-IsReady : IsReady disk
unfolding sectors
disk-IsReady = record {
  idle = refl;
  full = set-AreFull (replicate 1024 blank) 2 map_bytes (omega arith) refl blank-AreFull;
}

directory_sector-inside : (i : ℕ) → i * 128 < 200 → sector_of fs.directory_file.hdr i < num_sectors
directory_sector-inside zero lt = omega arith
directory_sector-inside (suc zero) lt = omega arith
directory_sector-inside (suc (suc i)) lt = absurd (omega arith)

directory_sectors-apart :
    (i j : ℕ)
    → i * 128 < 200
    → j * 128 < 200
    → i ≢ j
    → sector_of fs.directory_file.hdr i ≢ sector_of fs.directory_file.hdr j
directory_sectors-apart zero zero li lj ne = absurd (ne refl)
directory_sectors-apart zero (suc zero) li lj ne = λ e. omega (arith, e)
directory_sectors-apart (suc zero) zero li lj ne = λ e. omega (arith, e)
directory_sectors-apart (suc zero) (suc zero) li lj ne = absurd (ne refl)
directory_sectors-apart (suc (suc i)) j li lj ne = absurd (omega arith)
directory_sectors-apart i (suc (suc j)) li lj ne = absurd (omega arith)

directory_hdr-IsFile : IsFile fs.directory_file.hdr
directory_hdr-IsFile = record {
  there = λ i lt. omega arith;
  on_disk = directory_sector-inside;
  apart = directory_sectors-apart;
}

map_sector-inside : (i : ℕ) → i * 128 < 128 → sector_of fs.free_map_file.hdr i < num_sectors
map_sector-inside zero lt = omega arith
map_sector-inside (suc i) lt = absurd (omega arith)

map_hdr-IsFile : IsFile fs.free_map_file.hdr
map_hdr-IsFile = record {
  there = λ i lt. omega arith;
  on_disk = map_sector-inside;
  apart = λ i j li lj ne. absurd (omega arith);
}

files-apart :
    (i j : ℕ)
    → i * 128 < 128
    → j * 128 < 200
    → sector_of fs.free_map_file.hdr i ≢ sector_of fs.directory_file.hdr j
files-apart zero zero li lj = λ e. omega (arith, e)
files-apart zero (suc zero) li lj = λ e. omega (arith, e)
files-apart zero (suc (suc j)) li lj = absurd (omega arith)
files-apart (suc i) j li lj = absurd (omega arith)

pub fs-AreOpen : AreOpen fs
fs-AreOpen = record {
  map_file = map_hdr-IsFile;
  map_size = refl;
  directory_file = directory_hdr-IsFile;
  directory_size = refl;
  apart = files-apart;
}

map_now : (map_on fs sectors).map ≡ 31 ∷ replicate 31 0
unfolding sectors my_nachos.FileSystem.Layout.decode_words my_nachos.FileSystem.Whole.file_bytes
map_now = refl

directory_now : (directory_on fs sectors).table ≡ replicate 10 no_file
unfolding sectors my_nachos.FileSystem.Layout.decode_entries my_nachos.FileSystem.Layout.entry_at
    my_nachos.FileSystem.Whole.file_bytes
directory_now = refl

pub replicate-AreWords : (n w : ℕ) → w < 2 ^ 32 → AreWords (replicate n w)
replicate-AreWords zero w h = tt
replicate-AreWords (suc n) w h = (h, replicate-AreWords n w h)

pub replicate-AreEntries : (n : ℕ) → AreEntries (replicate n no_file)
replicate-AreEntries zero = tt
replicate-AreEntries (suc n) = ((omega arith, refl), replicate-AreEntries n)

pub replicate-IsUnique : (n : ℕ) → IsUnique (replicate n no_file)
replicate-IsUnique zero = tt
replicate-IsUnique (suc n) = ((λ h. cc), replicate-IsUnique n)

map_used-now : (k : ℕ) → k < 5 → used (map_on fs sectors) k ≡ 1
unfolding sectors my_nachos.FileSystem.Layout.decode_words my_nachos.FileSystem.Whole.file_bytes
    used my_nachos.Shared.Bits.bit_at
map_used-now zero h = refl
map_used-now (suc zero) h = refl
map_used-now (suc (suc zero)) h = refl
map_used-now (suc (suc (suc zero))) h = refl
map_used-now (suc (suc (suc (suc zero)))) h = refl
map_used-now (suc (suc (suc (suc (suc k))))) h = absurd (omega arith)

no_name : (name : List ℕ) → lookup (replicate 10 no_file) name ≡ none
unfolding lookup
no_name name = refl

pub small_sector : (i : ℕ) → i * 128 < 200 → sector_of fs.directory_file.hdr i < 5
small_sector zero lt = omega arith
small_sector (suc zero) lt = omega arith
small_sector (suc (suc i)) lt = absurd (omega arith)

pub small_map : (i : ℕ) → i * 128 < 128 → sector_of fs.free_map_file.hdr i < 5
small_map zero lt = omega arith
small_map (suc i) lt = absurd (omega arith)

disk-IsMounted : IsMounted fs sectors
disk-IsMounted = record {
  words = subst AreWords (sym map_now) (omega arith, replicate-AreWords 31 0 (omega arith));
  entries = subst AreEntries (sym directory_now) (replicate-AreEntries 10);
  unique = subst IsUnique (sym directory_now) (replicate-IsUnique 10);
  on_disk =
      λ name k e. absurd (none_found name k (ap (λ es. lookup es name) (sym directory_now) ∙ e));
  map_used = λ i lt. map_used-now (sector_of fs.free_map_file.hdr i) (small_map i lt);
  directory_used = λ i lt. map_used-now (sector_of fs.directory_file.hdr i) (small_sector i lt);
}
  where
    none_found : (name : List ℕ) (k : ℕ) → lookup (replicate 10 no_file) name ≡ some k → ⊥
    none_found name k e = let f : none ≡ some k = sym (no_name name) ∙ e in ground arith

pub memory-IsMemory : IsMemory memory
memory-IsMemory = record {
  chars = λ k. length-replicate {A = ℕ} k 7;
  words = refl;
  entries = refl;
  header = refl;
  header_words = replicate-AreWords 30 8 (omega arith);
}

create-Creates_example :
    Creates fs (97 ∷ 0 ∷ []) 300 sectors (create later memory fs (97 ∷ 0 ∷ []) 300 disk)
create-Creates_example =
    create-Creates later memory fs (97 ∷ 0 ∷ []) 300 disk memory-IsMemory fs-AreOpen (omega arith)
      disk-IsMounted disk-IsReady

read_at-Holds_example :
    Succeeds
      (Reads fs.directory_file.hdr sectors 120 (available fs.directory_file.hdr 50 120))
      (read_at later fs.directory_file.hdr 50 120 disk)
read_at-Holds_example =
    read_at-Holds later fs.directory_file.hdr directory_hdr-IsFile 50 120 disk (omega arith)
      disk-IsReady

write_at-Writes_example :
    Succeeds
      (Writes fs.directory_file.hdr sectors 120
        (available fs.directory_file.hdr 50 120)
        (replicate 50 1))
      (write_at later fs.directory_file.hdr memory.chars (replicate 50 1) 50 120 disk)
write_at-Writes_example =
    write_at-Writes later memory.chars fs.directory_file.hdr (replicate 50 1) 50 120 disk
      (omega arith) (λ k. length-replicate {A = ℕ} k 7) directory_hdr-IsFile disk-IsReady
      (omega arith)

-- The int sum of position and size overflows.
overflow_run : read_at later fs.directory_file.hdr 2147483647 1 disk ≡ stop Stop.int_overflow
unfolding read_at my_nachos.OpenFile.clip my_nachos.OpenFile.is_refused
    my_nachos.FileHeader.file_length
overflow_run = refl

-- Format makes the two files, and a file made after that is opened and removed again.
abbrev lifecycle : Result (Bool × (Option ℕ × (Bool × Option ℕ)))
lifecycle = do
  (fs, s) ← format_disk later memory disk
  (made, s) ← create later memory fs (97 ∷ 0 ∷ []) 300 s
  (f, s) ← open_file later memory fs (97 ∷ 0 ∷ []) s
  (gone, s) ← remove_file later memory fs (97 ∷ 0 ∷ []) s
  (g, s) ← open_file later memory fs (97 ∷ 0 ∷ []) s
  ok (made, (Option.map (λ o. o.hdr.num_bytes) f, (gone, Option.map (λ o. o.hdr.num_bytes) g)))

-- What an operation says, and the disk behind it.
says : Result (Bool × SynchDisk) → Bool
says (ok r) = r.0
says (stop e) = false

behind : Result (Bool × SynchDisk) → SynchDisk
behind (ok r) = r.1
behind (stop e) = disk

ok-says : (r : Result (Bool × SynchDisk)) → says r ≡ true → r ≡ ok (true, behind r)
unfolding says behind
ok-says (ok r) e = ap (λ b. ok (b, r.1)) e
ok-says (stop c) e = absurd (cc)

create-says : says (create later memory fs (97 ∷ 0 ∷ []) 300 disk) ≡ true
unfolding says sectors my_nachos.FileSystem.create my_nachos.FileSystem.create_new
    my_nachos.FileSystem.create_at my_nachos.FileSystem.save_new my_nachos.FileSystem.load_directory
    my_nachos.FileSystem.load_map my_nachos.FileSystem.is_found
    my_nachos.FileSystem.Transfer.fetch_directory my_nachos.FileSystem.Transfer.fetch_map
    my_nachos.FileSystem.Transfer.write_directory my_nachos.FileSystem.Transfer.write_header
    my_nachos.FileSystem.Transfer.write_map my_nachos.FileSystem.Transfer.header_bytes
    my_nachos.FileSystem.Layout.decode_entries my_nachos.FileSystem.Layout.entry_at
    my_nachos.FileSystem.Layout.decode_words my_nachos.FileSystem.Layout.encode_entries
    my_nachos.FileSystem.Layout.encode_words my_nachos.FileSystem.Layout.entry_bytes
    my_nachos.FileSystem.Layout.fit my_nachos.OpenFile.read_at my_nachos.OpenFile.read_span
    my_nachos.OpenFile.read_from my_nachos.OpenFile.clip my_nachos.OpenFile.is_refused
    my_nachos.OpenFile.read_in my_nachos.OpenFile.write_at my_nachos.OpenFile.write_from
    my_nachos.OpenFile.write_span my_nachos.SynchDisk.read_sector my_nachos.SynchDisk.write_sector
    my_nachos.SynchDisk.await my_nachos.Disk.read_request my_nachos.Disk.write_request
    my_nachos.Disk.handle_interrupt my_nachos.Disk.update_last my_nachos.Disk.buffered
    my_nachos.Disk.compute_latency my_nachos.Disk.modulo_diff my_nachos.Disk.time_to_seek
    my_nachos.Directory.new_directory my_nachos.Directory.find my_nachos.Directory.find_index
    my_nachos.Directory.add my_nachos.Directory.strncmp_eq my_nachos.Directory.strncpy
    my_nachos.BitMap.new_bit_map my_nachos.BitMap.find my_nachos.BitMap.num_clear
    my_nachos.BitMap.clear my_nachos.BitMap.mark my_nachos.BitMap.test
    my_nachos.FileHeader.file_length my_nachos.FileHeader.byte_to_sector
    my_nachos.FileHeader.allocate
create-says = refl

open_file-create_example :
    Opens 300 (behind (create later memory fs (97 ∷ 0 ∷ []) 300 disk)).disk.sectors (
      open_file later memory fs
        (97 ∷ 0 ∷ [])
        (behind (create later memory fs (97 ∷ 0 ∷ []) 300 disk)))
open_file-create_example =
    open_file-create later memory fs (97 ∷ 0 ∷ []) 300 disk
      (behind (create later memory fs (97 ∷ 0 ∷ []) 300 disk)) memory-IsMemory fs-AreOpen
      (omega arith) disk-IsMounted disk-IsReady
      (ok-says (create later memory fs (97 ∷ 0 ∷ []) 300 disk) create-says)
