-- ===== src/FileSystem/Freed.antt =====
-- The outcomes of FileSystem::Remove (code/filesys/filesys.cc), and what its writes leave.
use my_nachos.Shared.{
  ℕ, ◌*◌, ◌<◌, ◌≡◌, ◌≢◌, ap, ◌∙◌, sym, subst, none, some, List, [], get_or, Bool, true, false, ◌==◌,
  ◌||◌, if◌then◌else◌, Result, ok, arith, inl, inr, Bool-cases,
}
use my_nachos.Disk.{num_sectors}
use my_nachos.BitMap.{BitMap}
use my_nachos.BitMap.Bits.{used, Sets}
use my_nachos.BitMap.WordRange.{AreWords}
use my_nachos.FileHeader.{sector_size}
use my_nachos.FileHeader.Allocation.{owned}
use my_nachos.FileHeader.Release.{AreSectors, Returned}
use my_nachos.Directory.{Directory}
use my_nachos.Directory.Entries.{AreEntries}
use my_nachos.Directory.Table.{same, lookup, IsUnique}
use my_nachos.SynchDisk.{SynchDisk}
use my_nachos.OpenFile.Bytes.{IsReady, sector_of, Leaves}
use my_nachos.FileSystem.{FileSystem}
use my_nachos.FileSystem.Layout.{encode_words, encode_entries}
use my_nachos.FileSystem.Whole.{file_bytes, file_bytes-frame, Rewrites}
use my_nachos.FileSystem.Mounted.{map_on, directory_on, header_on, AreOpen, IsMounted}
use my_nachos.FileSystem.Back.{IsWritable, map_back, directory_back}

-- The header at a sector has distinct sectors, all marked in the map, and neither it nor they
-- are sectors of the two files.
pub record IsStored (fs : FileSystem) (old : List (List ℕ)) (k : ℕ) : Type 0 where
  pub sectors :
      AreSectors (map_on fs old) (header_on old k).data_sectors (header_on old k).num_sectors
  pub marked :
      (j : ℕ)
      → j < (header_on old k).num_sectors
      → used (map_on fs old) (get_or (header_on old k).data_sectors j 0) ≡ 1
  pub not_map :
      (i : ℕ)
      → i * sector_size < fs.free_map_file.hdr.num_bytes
      → (sector_of fs.free_map_file.hdr i ≢ k)
        × (owned
              (header_on old k).data_sectors
              (header_on old k).num_sectors
              (sector_of fs.free_map_file.hdr i)
            ≡ false)
  pub not_directory :
      (i : ℕ)
      → i * sector_size < fs.directory_file.hdr.num_bytes
      → (sector_of fs.directory_file.hdr i ≢ k)
        × (owned
              (header_on old k).data_sectors
              (header_on old k).num_sectors
              (sector_of fs.directory_file.hdr i)
            ≡ false)

-- What Remove leaves of a file whose header is at sector `k`.
pub record Deleted (fs : FileSystem) (name : List ℕ) (old : List (List ℕ)) (k : ℕ) (s : SynchDisk)
    : Type 0 where
  pub ready : IsReady s
  pub mounted : IsMounted fs s.disk.sectors
  pub gone :
      (other : List ℕ)
      → lookup (directory_on fs s.disk.sectors).table other
        ≡ (if same name other then none else lookup (directory_on fs old).table other)
  pub freed :
      (j : ℕ)
      → used (map_on fs s.disk.sectors) j ≡ (
          if (j == k) || owned (header_on old k).data_sectors (header_on old k).num_sectors j
          then 0
          else used (map_on fs old) j)
  pub spared :
      (b : ℕ)
      → ((i : ℕ)
          → i * sector_size < fs.free_map_file.hdr.num_bytes
          → sector_of fs.free_map_file.hdr i ≢ b)
      → ((i : ℕ)
          → i * sector_size < fs.directory_file.hdr.num_bytes
          → sector_of fs.directory_file.hdr i ≢ b)
      → get_or s.disk.sectors b [] ≡ get_or old b []

-- Both outcomes of Remove on a disk with the sectors `old`.
pub data Deletes (fs : FileSystem) (name : List ℕ) (old : List (List ℕ))
    : Result (Bool × SynchDisk) → Type 0 where
  not_there :
      (s : SynchDisk)
      → lookup (directory_on fs old).table name ≡ none
      → Leaves old s
      → Deletes fs name old (ok (false, s))
  deleted :
      (s : SynchDisk) (k : ℕ)
      → lookup (directory_on fs old).table name ≡ some k
      → Deleted fs name old k s
      → Deletes fs name old (ok (true, s))

module _ (fs : FileSystem) (open_ : AreOpen fs) (name : List ℕ) (old : List (List ℕ))
    (mounted : IsMounted fs old) where
  module _ (k : ℕ) (there : lookup (directory_on fs old).table name ≡ some k)
      (stored : IsStored fs old k) (m m' : BitMap)
      (r : Returned (map_on fs old) (header_on old k).data_sectors (header_on old k).num_sectors m)
      (c : Sets m k 0 m') (words : AreWords m'.map) where
    freed-both :
        (j : ℕ)
        → used m' j ≡ (
            if (j == k) || owned (header_on old k).data_sectors (header_on old k).num_sectors j
            then 0
            else used (map_on fs old) j)
    freed-both j = ground (arith, c.bits j, r.clears j)

    kept-used :
        (j : ℕ)
        → (j ≢ k) × (owned (header_on old k).data_sectors (header_on old k).num_sectors j ≡ false)
        → used (map_on fs old) j ≡ 1
        → used m' j ≡ 1
    kept-used j out e = ground (arith, freed-both j, out.0, out.1)

    pub writes-Deleted :
        (dir : Directory) (s1 s2 : SynchDisk)
        → IsWritable dir m'
        → IsUnique dir.table
        → ((other : List ℕ)
            → lookup dir.table other
              ≡ (if same name other then none else lookup (directory_on fs old).table other))
        → Rewrites fs.free_map_file.hdr old (encode_words m'.map) s1
        → Rewrites fs.directory_file.hdr s1.disk.sectors (encode_entries dir.table) s2
        → Deleted fs name old k s2
    writes-Deleted dir s1 s2 fine unique at w1 w2 =
        let map_now : map_on fs s2.disk.sectors ≡ m' =
          map_back dir m' fine
            (file_bytes fs.free_map_file.hdr s2.disk.sectors fs.free_map_file.hdr.num_bytes 0)
            (file_bytes-frame fs.free_map_file.hdr s1.disk.sectors s2.disk.sectors
                fs.free_map_file.hdr.num_bytes 0 (omega arith)
                (λ i lt.
                  w2.spares (sector_of fs.free_map_file.hdr i)
                    (λ j l e. open_.apart i j lt l (sym e)))
              ∙ w1.now) in
        let directory_now : directory_on fs s2.disk.sectors ≡ dir =
          directory_back dir m' fine
            (file_bytes fs.directory_file.hdr s2.disk.sectors fs.directory_file.hdr.num_bytes 0)
            w2.now in
        record {
          ready = w2.ready;
          mounted = record {
            words = subst (λ b. AreWords b.map) (sym map_now) words;
            entries = subst (λ d. AreEntries d.table) (sym directory_now) fine.entries;
            unique = subst (λ d. IsUnique d.table) (sym directory_now) unique;
            on_disk =
                λ other b e. still other b (ap (λ d. lookup d.table other) (sym directory_now) ∙ e);
            map_used = λ i lt.
                ap (λ b. used b (sector_of fs.free_map_file.hdr i)) map_now
                ∙ kept-used (sector_of fs.free_map_file.hdr i) (stored.not_map i lt)
                    (mounted.map_used i lt);
            directory_used = λ i lt.
                ap (λ b. used b (sector_of fs.directory_file.hdr i)) map_now
                ∙ kept-used (sector_of fs.directory_file.hdr i) (stored.not_directory i lt)
                    (mounted.directory_used i lt);
          };
          gone = λ other. ap (λ d. lookup d.table other) directory_now ∙ at other;
          freed = λ j. ap (λ b. used b j) map_now ∙ freed-both j;
          spared = λ b nm nd. w2.spares b nd ∙ w1.spares b nm;
        }
      where
        still : (other : List ℕ) (b : ℕ) → lookup dir.table other ≡ some b → b < num_sectors
        still other b e = elim (Bool-cases (same name other)) [
          | inl hit ↦
              let q : none ≡ some b =
                sym (
                  at other
                  ∙ ap (λ t. if t then none else lookup (directory_on fs old).table other) hit)
                ∙ e in
              ground arith
          | inr miss ↦ mounted.on_disk other b (
              sym (
                at other
                ∙ ap (λ t. if t then none else lookup (directory_on fs old).table other) miss)
              ∙ e)
        ]
