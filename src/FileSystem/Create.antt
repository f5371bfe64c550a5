-- ===== src/FileSystem/Create.antt =====
-- FileSystem::Create (code/filesys/filesys.cc): every outcome, and what it leaves on the disk.
use my_nachos.Shared.{
  ℕ, ◌-◌, ◌^◌, ◌<◌, ◌≡◌, refl, ap, ◌∙◌, sym, subst, Option, none, some, List, length, Bool, true,
  false, not, ◌==◌, if◌then◌else◌, Result, ok, ◌>>=◌, Succeeds, succeeds, Succeeds-map,
  after-Succeeds, IfOk, arith, inl, inr, Option-cases, ltb,
}
use my_nachos.Disk.{num_sectors}
use my_nachos.BitMap
use my_nachos.BitMap.{BitMap}
use my_nachos.BitMap.Bits.{used}
use my_nachos.BitMap.Search.{free_below, free_below-Sets, Finds, full, found, find-Finds}
use my_nachos.BitMap.WordRange.{AreWords, Fits, Found, find-Found}
use my_nachos.FileHeader.{FileHeader, allocate}
use my_nachos.FileHeader.Allocation.{Allocates, no_space, allocated, overrun, allocate-Allocates}
use my_nachos.FileHeader.WordRange.{allocate-Fits}
use my_nachos.Directory
use my_nachos.Directory.{DirectoryEntry, Directory, add}
use my_nachos.Directory.Entries.{AreEntries, add-AreEntries}
use my_nachos.Directory.Table.{same, lookup, IsUnique, find-lookup}
use my_nachos.Directory.Operations
use my_nachos.Directory.Operations.{IsFull, add-IsFull, Adds, present, added, add-Adds}
use my_nachos.SynchDisk.{SynchDisk}
use my_nachos.OpenFile.Bytes.{IsReady, Leaves}
use my_nachos.FileSystem.{
  FileSystem, num_dir_entries, is_found, create, create_new, create_at, save_new,
}
use my_nachos.FileSystem.Transfer.{Memory}
use my_nachos.FileSystem.Mounted.{
  map_on, directory_on, IsMemory, AreOpen, IsMounted, map_on-IsWellFormed, length-decode_entries,
  load_map-Succeeds, load_directory-Succeeds,
}
use my_nachos.FileSystem.Outcomes.{
  name_there, no_sector, no_entry, no_space_left, Created, Creates, refused, created, too_big,
}
use my_nachos.FileSystem.Save.{Saved, save_new-Saved}
use my_nachos.FileSystem.Taken.{Chosen, Takes-IsSavable, Saved-Created}

one_more : (a b : ℕ) → a < b → ◌≡◌ {A = ℕ} (if ltb a b then 1 else 0) 1
one_more a b h = ground arith

no_more : (b : Bool) (u : ℕ) → u ≡ 0 → ◌≡◌ {A = ℕ} (if b then u else 0) 0
no_more true u h = h
no_more false u h = refl

module _ (resume : ℕ → ℕ) (memory : Memory) (sized : IsMemory memory) (fs : FileSystem)
    (open_ : AreOpen fs) (name : List ℕ) (size : ℕ) (small : size < 2 ^ 32) (old : List (List ℕ))
    (mounted : IsMounted fs old) where
  -- From the end of Create backwards: the header is filled, the name is added, the sector is found.
  save-Creates :
      (sector : ℕ) (hdr : FileHeader) {r : Result (Bool × SynchDisk)}
      → Succeeds
          (λ (r : Bool × SynchDisk). (r.0 ≡ true) × Created fs name size old sector hdr r.1)
          r
      → Creates fs name size old r
  save-Creates sector hdr (succeeds {a} (e, done)) =
      subst (λ b. Creates fs name size old (ok (b, a.1))) (sym e) (created a.1 sector hdr done)

  module _ (sector : ℕ) (m : BitMap) (c : Chosen fs name old sector m) (s : SynchDisk)
      (left : Leaves old s) where
    allocate-Creates :
        (dir : Directory) {r : Result (Bool × FileHeader × BitMap)}
        → length dir.table ≡ num_dir_entries
        → AreEntries dir.table
        → ¬ IsFull (directory_on fs old).table
        → IsUnique dir.table
        → ((other : List ℕ)
            → lookup dir.table other
              ≡ (if same name other then some sector else lookup (directory_on fs old).table other))
        → Allocates memory.header m size r
        → IfOk (λ (r : Bool × FileHeader × BitMap). AreWords r.1.data_sectors × Fits r.2) r
        → Creates fs name size old (
            r >>= λ (fits, hdr, m').
            if not fits then ok (false, s) else save_new resume memory fs hdr sector dir m' s)
    allocate-Creates dir len entries room unique at (no_space hdr' lt) kept =
        refused s
          (no_space_left (
            omega (
              arith,
              lt,
              ap (free_below m) c.sets.same_size,
              free_below-Sets (map_on fs old) m sector 1 num_sectors (omega arith) c.sets,
              one_more sector num_sectors c.inside,
            )))
          left
    allocate-Creates dir len entries room unique at (overrun enough big) kept =
        too_big c.absent room big (
          omega (
            arith,
            enough,
            ap (free_below m) c.sets.same_size,
            free_below-Sets (map_on fs old) m sector 1 num_sectors (omega arith) c.sets,
            one_more sector num_sectors c.inside,
            no_more (ltb sector num_sectors) (used (map_on fs old) sector) c.free,
          ))
    allocate-Creates dir len entries room unique at (allocated hdr' m' enough short bytes count t)
          kept =
        save-Creates sector hdr' (
          Succeeds-map
            (save_new-Saved resume memory sized fs open_ hdr' sector dir m'
              (Takes-IsSavable fs open_ name size small old mounted sector m c dir hdr' m' t len
                entries bytes count short kept.0 kept.1.0)
              s left.0)
            λ r (e, v). (
              e,
              Saved-Created fs open_ name size small old mounted sector m c dir hdr' m' t r.1 bytes
                  short entries kept.1.0 unique at
                  (subst (λ o. Saved fs hdr' sector dir m' o r.1) left.1 v),
            ))

    add-Creates :
        (r : Bool × Directory)
        → add (directory_on fs old) name sector ≡ r
        → Adds (directory_on fs old) name sector r
        → Creates fs name size old (
            if not r.0
            then ok (false, s)
            else allocate memory.header m size >>= λ (fits, hdr, m').
                if not fits then ok (false, s) else save_new resume memory fs hdr sector r.1 m' s)
    add-Creates r e (present k there) = absurd (ground (arith, there, c.absent))
    add-Creates r e (Operations.full absent all) = refused s (no_entry all) left
    add-Creates r e (added dir' absent len at unique) =
        allocate-Creates dir' (len ∙ length-decode_entries num_dir_entries _)
          (add-AreEntries (directory_on fs old) name sector dir' (omega (arith, c.inside))
            mounted.entries e)
          (λ all. ground (arith, e, add-IsFull (directory_on fs old) name sector all)) unique at
          (allocate-Allocates memory.header m size c.sets.well_formed sized.header)
          (allocate-Fits memory.header m size sized.header_words c.fits)

  find-Creates :
      (s : SynchDisk)
      → lookup (directory_on fs old).table name ≡ none
      → Leaves old s
      → {r : Result (Option ℕ × BitMap)} → Finds (map_on fs old) 0 r
      → IfOk Found r
      → Creates fs name size old (
          r >>= λ (slot, m). elim slot [
            | none ↦ ok (false, s)
            | some sector ↦ create_at resume memory fs name size sector (directory_on fs old) m s
          ])
  unfolding create_at
  find-Creates s absent left (full all) kept =
      refused s (no_sector (λ j lt. all j (omega arith) lt)) left
  find-Creates s absent left (found sector m low inside free below sets) kept =
      add-Creates sector m
        (record { absent = absent; inside = inside; free = free; sets = sets; fits = kept.1 }) s
        left (add (directory_on fs old) name sector) refl
        (add-Adds (directory_on fs old) name sector mounted.unique)

  create_new-Creates :
      (s : SynchDisk)
      → lookup (directory_on fs old).table name ≡ none
      → Leaves old s
      → Creates fs name size old (create_new resume memory fs name size (directory_on fs old) s)
  unfolding create_new
  create_new-Creates s absent left =
      after-Succeeds (Creates fs name size old) _
        (load_map-Succeeds resume memory sized fs open_ s left.0)
        λ r (e, left').
          let back : r.0 ≡ map_on fs old = e ∙ ap (map_on fs) left.1 in
          subst
            (λ m. Creates fs name size old (
              BitMap.find m >>= λ (slot, m). elim slot [
                | none ↦ ok (false, r.1)
                | some sector ↦
                    create_at resume memory fs name size sector (directory_on fs old) m r.1
              ]))
            (sym back)
            (find-Creates r.1 absent (left'.0, left'.1 ∙ left.1)
              (find-Finds (map_on fs old) (map_on-IsWellFormed fs old))
              (find-Found (map_on fs old) (mounted.words, omega arith)))

  lookup-Creates :
      (s : SynchDisk)
      → Leaves old s
      → Creates fs name size old (
          Directory.find (directory_on fs old) name >>= λ at.
          if is_found at
          then ok (false, s)
          else create_new resume memory fs name size (directory_on fs old) s)
  unfolding is_found
  lookup-Creates s left =
      rw (find-lookup (directory_on fs old) name)
        (elim (Option-cases (lookup (directory_on fs old).table name)) [
          | inl absent ↦ rw absent (create_new-Creates s absent left)
          | inr (k, there) ↦
              let real : not (k == 2 ^ 32 - 1) ≡ true =
                ground (arith, mounted.on_disk name k there) in
              rw (there, real) (refused s (name_there k there) left)
        ])

  -- For any pattern of 32 bits as the size.
  pub create_word-Creates :
      (s : SynchDisk)
      → Leaves old s
      → Creates fs name size old (create resume memory fs name size s)
  unfolding create
  create_word-Creates s left =
      after-Succeeds (Creates fs name size old) _
        (load_directory-Succeeds resume memory sized fs open_ s left.0)
        λ r (e, left').
          let back : r.0 ≡ directory_on fs old = e ∙ ap (directory_on fs) left.1 in
          subst
            (λ dir. Creates fs name size old (
              Directory.find dir name >>= λ at.
              if is_found at
              then ok (false, r.1)
              else create_new resume memory fs name size dir r.1))
            (sym back) (lookup-Creates r.1 (left'.0, left'.1 ∙ left.1))

-- On a ready disk that holds a mounted file system, whose map marks the sectors of the map and
-- directory files and whose directory has no name twice, with new arrays of the sizes asked for,
-- and for a size that an int holds, Create has one of three outcomes. It returns FALSE with no
-- sector changed, because the name is there, no sector is free, no entry is free, or no more
-- sectors are free than the data needs; it writes past the table of a header, where the name is
-- new, an entry is free, the data needs more than NumDirect sectors, and more sectors than that
-- are free; or it returns TRUE and the disk holds a mounted file system again, in which the name
-- leads to a header with the size and with distinct sectors that were free, the map has those and
-- the header's sector besides, all other names lead where they led, and no sector but the header's
-- and those of the two files has changed.
pub create-Creates :
    (resume : ℕ → ℕ) (memory : Memory) (fs : FileSystem) (name : List ℕ) (size : ℕ) (s : SynchDisk)
    → IsMemory memory
    → AreOpen fs
    → size < 2 ^ 31
    → IsMounted fs s.disk.sectors
    → IsReady s
    → Creates fs name size s.disk.sectors (create resume memory fs name size s)
create-Creates resume memory fs name size s sized open_ small mounted ready =
    create_word-Creates resume memory sized fs open_ name size (omega arith) s.disk.sectors mounted
      s (ready, refl)
