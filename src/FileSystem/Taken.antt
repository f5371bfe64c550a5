-- ===== src/FileSystem/Taken.antt =====
-- FileSystem::Create (code/filesys/filesys.cc): what its writes leave, once all is found for the file.
use my_nachos.Shared.{
  ℕ, ◌^◌, ◌<◌, ◌≤◌, ◌≡◌, ◌≢◌, ap, ◌∙◌, sym, subst, none, some, List, length, get_or, ◌==◌, ◌||◌,
  if◌then◌else◌, arith, inl, inr, Bool-cases,
}
use my_nachos.Disk.{num_sectors}
use my_nachos.BitMap.{BitMap}
use my_nachos.BitMap.Bits.{used, Sets}
use my_nachos.BitMap.WordRange.{AreWords, Fits}
use my_nachos.FileHeader.{FileHeader, num_direct}
use my_nachos.FileHeader.Allocation.{owned, Takes, sectors_needed}
use my_nachos.Directory.{Directory}
use my_nachos.Directory.Entries.{AreEntries}
use my_nachos.Directory.Table.{same, lookup, IsUnique}
use my_nachos.SynchDisk.{SynchDisk}
use my_nachos.OpenFile.Bytes.{sector_of}
use my_nachos.FileSystem.{FileSystem, num_dir_entries}
use my_nachos.FileSystem.Mounted.{map_on, directory_on, AreOpen, IsMounted}
use my_nachos.FileSystem.Outcomes.{Created}
use my_nachos.FileSystem.Save.{IsSavable, Saved}

-- What is known when a sector is found for the header.
pub record Chosen (fs : FileSystem) (name : List ℕ) (old : List (List ℕ)) (sector : ℕ) (m : BitMap)
    : Type 0 where
  pub absent : lookup (directory_on fs old).table name ≡ none
  pub inside : sector < num_sectors
  pub free : used (map_on fs old) sector ≡ 0
  pub sets : Sets (map_on fs old) sector 1 m
  pub fits : Fits m

module _ (fs : FileSystem) (open_ : AreOpen fs) (name : List ℕ) (size : ℕ) (small : size < 2 ^ 32)
    (old : List (List ℕ)) (mounted : IsMounted fs old) (sector : ℕ) (m : BitMap)
    (c : Chosen fs name old sector m) where
  module _ (dir : Directory) (hdr : FileHeader) (m' : BitMap)
      (t : Takes m hdr.data_sectors (sectors_needed size) m') where
    marks-both :
        (j : ℕ)
        → used m' j ≡ (
            if (j == sector) || owned hdr.data_sectors (sectors_needed size) j
            then 1
            else used (map_on fs old) j)
    marks-both j = ground (arith, t.marks j, c.sets.bits j)

    still-used : (j : ℕ) → used (map_on fs old) j ≡ 1 → used m' j ≡ 1
    still-used j e = ground (arith, marks-both j)

    taken-fresh :
        (i : ℕ)
        → i < sectors_needed size
        → (used (map_on fs old) (get_or hdr.data_sectors i 0) ≡ 0)
          × (get_or hdr.data_sectors i 0 ≢ sector)
    taken-fresh i lt =
        let x : ℕ = get_or hdr.data_sectors i 0 in
        (
          ground (arith, t.fresh i lt, c.sets.bits x),
          λ e. ground (arith, t.fresh i lt, c.sets.bits x),
        )

    pub Takes-IsSavable :
        length dir.table ≡ num_dir_entries
        → AreEntries dir.table
        → hdr.num_bytes ≡ size
        → hdr.num_sectors ≡ sectors_needed size
        → sectors_needed size ≤ num_direct
        → AreWords hdr.data_sectors
        → AreWords m'.map
        → IsSavable fs hdr sector dir m'
    Takes-IsSavable len entries bytes count short ints words = record {
      header = record {
        words = (omega (arith, bytes), (omega (arith, count), ints));
        table = t.table;
      };
      on_disk = c.inside;
      back = record {
        table = len;
        entries = entries;
        num_bits = t.same_size ∙ c.sets.same_size;
        well_formed = t.well_formed;
        words = words;
      };
      not_map = λ i lt e.
          absurd (omega (arith, mounted.map_used i lt, c.free, ap (used (map_on fs old)) e));
      not_directory = λ i lt e.
          absurd (omega (arith, mounted.directory_used i lt, c.free, ap (used (map_on fs old)) e));
    }

    pub Saved-Created :
        (s : SynchDisk)
        → hdr.num_bytes ≡ size
        → sectors_needed size ≤ num_direct
        → AreEntries dir.table
        → AreWords m'.map
        → IsUnique dir.table
        → ((other : List ℕ)
            → lookup dir.table other
              ≡ (if same name other then some sector else lookup (directory_on fs old).table other))
        → Saved fs hdr sector dir m' old s
        → Created fs name size old sector hdr s
    Saved-Created s bytes short entries words unique at v = record {
      ready = v.ready;
      mounted = record {
        words = subst (λ b. AreWords b.map) (sym v.map) words;
        entries = subst (λ d. AreEntries d.table) (sym v.directory) entries;
        unique = subst (λ d. IsUnique d.table) (sym v.directory) unique;
        on_disk = λ other k e.
            on_disk_still other k (ap (λ d. lookup d.table other) (sym v.directory) ∙ e);
        map_used = λ i lt.
            ap (λ b. used b (sector_of fs.free_map_file.hdr i)) v.map
            ∙ still-used (sector_of fs.free_map_file.hdr i) (mounted.map_used i lt);
        directory_used = λ i lt.
            ap (λ b. used b (sector_of fs.directory_file.hdr i)) v.map
            ∙ still-used (sector_of fs.directory_file.hdr i) (mounted.directory_used i lt);
      };
      inside = c.inside;
      free = c.free;
      header = v.header;
      size_set = bytes;
      fresh = taken-fresh;
      distinct = t.distinct;
      room = omega (arith, t.table);
      on_disk = λ i lt. omega (arith, t.in_map i lt, c.sets.same_size);
      found_by_name = λ other. ap (λ d. lookup d.table other) v.directory ∙ at other;
      marked = λ j. ap (λ b. used b j) v.map ∙ marks-both j;
      spared = v.spared;
    }
      where
        on_disk_still : (other : List ℕ) (k : ℕ) → lookup dir.table other ≡ some k → k < num_sectors
        on_disk_still other k e = elim (Bool-cases (same name other)) [
          | inl hit ↦
              let q : some sector ≡ some k =
                sym (
                  at other
                  ∙ ap (λ b. if b then some sector else lookup (directory_on fs old).table other)
                      hit)
                ∙ e in
              ground (arith, c.inside)
          | inr miss ↦ mounted.on_disk other k (
              sym (
                at other
                ∙ ap (λ b. if b then some sector else lookup (directory_on fs old).table other)
                    miss)
              ∙ e)
        ]
