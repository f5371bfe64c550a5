-- ===== src/FileSystem/Open.antt =====
-- FileSystem::Open (code/filesys/filesys.cc) of a file that Create has made.
use my_nachos.Shared.{
  ℕ, ◌*◌, ◌^◌, ◌<◌, ◌≡◌, refl, ap, ◌∙◌, sym, subst, Option, some, List, Bool, true, not, leb,
  if◌then◌else◌, Result, ok, ◌>>=◌, after-Succeeds, arith, dec_lt,
}
use my_nachos.FileHeader.{FileHeader, sector_size}
use my_nachos.FileHeader.Allocation.{sectors_needed}
use my_nachos.Directory
use my_nachos.Directory.{Directory}
use my_nachos.Directory.Table.{same_refl, lookup, find-lookup}
use my_nachos.SynchDisk.{SynchDisk}
use my_nachos.OpenFile.{OpenFile}
use my_nachos.OpenFile.Bytes.{IsReady, IsFile, Leaves}
use my_nachos.FileSystem.{FileSystem, is_sector, create, open_file}
use my_nachos.FileSystem.Transfer.{Memory, new_open_file}
use my_nachos.FileSystem.Mounted.{
  directory_on, header_on, IsMemory, AreOpen, IsMounted, load_directory-Succeeds,
  fetch_header-Succeeds,
}
use my_nachos.FileSystem.Outcomes.{Created, Creates, refused, created, too_big}
use my_nachos.FileSystem.Create.{create_word-Creates}

-- An open file of the size, at its start, whose header has a sector for every byte.
pub data Opens (size : ℕ) (now : List (List ℕ))
    : Result (Option OpenFile × SynchDisk) → Type 0 where
  opens :
      (f : OpenFile) (s : SynchDisk)
      → f.hdr.num_bytes ≡ size
      → f.seek_position ≡ 0
      → IsFile f.hdr
      → Leaves now s
      → Opens size now (ok (some f, s))

sector-needed : (i size : ℕ) → i * sector_size < size → i < sectors_needed size
sector-needed i size lt = ground arith

module _ (fs : FileSystem) (name : List ℕ) (size : ℕ) (old : List (List ℕ)) (sector : ℕ)
    (hdr : FileHeader) (s : SynchDisk) (made : Created fs name size old sector hdr s) where
  Created-IsFile : IsFile hdr
  Created-IsFile = record {
    there =
        λ i lt. omega (arith, made.room, sector-needed i size (omega (arith, lt, made.size_set)));
    on_disk = λ i lt. made.on_disk i (sector-needed i size (omega (arith, lt, made.size_set)));
    apart = λ i j li lj ne. elim (dec_lt i j) [
      | yes less ↦ made.distinct i j less (sector-needed j size (omega (arith, lj, made.size_set)))
      | no more ↦ λ e.
          made.distinct j i (omega arith) (sector-needed i size (omega (arith, li, made.size_set)))
            (sym e)
    ];
  }

  name-found : lookup (directory_on fs s.disk.sectors).table name ≡ some sector
  name-found =
      made.found_by_name name
      ∙ ap (λ b. if b then some sector else lookup (directory_on fs old).table name)
          (same_refl name)

  module _ (resume : ℕ → ℕ) (memory : Memory) (sized : IsMemory memory) (open_ : AreOpen fs) where
    new-Opens :
        (s1 : SynchDisk)
        → Leaves s.disk.sectors s1
        → Opens size s.disk.sectors
            (do (f, s) ← new_open_file resume memory sector s1; ok (some f, s))
    unfolding new_open_file
    new-Opens s1 left =
        after-Succeeds (λ r. Opens size s.disk.sectors (r >>= λ x. ok (some x.0, x.1))) _
          (fetch_header-Succeeds resume memory sector s1 made.inside left.0)
          λ r (e, left').
            let back : r.0 ≡ hdr = e ∙ ap (λ t. header_on t sector) left.1 ∙ made.header in
            opens _ r.1 (ap (λ h. h.num_bytes) back ∙ made.size_set) refl
              (subst IsFile (sym back) Created-IsFile) (left'.0, left'.1 ∙ left.1)

    open_file-Opens : Opens size s.disk.sectors (open_file resume memory fs name s)
    unfolding open_file is_sector
    open_file-Opens =
        after-Succeeds (Opens size s.disk.sectors) _
          (load_directory-Succeeds resume memory sized fs open_ s made.ready)
          λ r (e, left).
            let real : not (leb (2 ^ 31) sector) ≡ true = ground (arith, made.inside) in
            let at : Directory.find r.0 name ≡ ok (some sector) =
              ap (λ d. Directory.find d name) e
              ∙ find-lookup (directory_on fs s.disk.sectors) name
              ∙ ap (λ k. ok k) name-found in
            rw (at, real) (new-Opens r.1 left)

-- If Create returns TRUE on a ready disk that holds a mounted file system, for a size below 2 ^
-- 32, then Open of the same name on the disk that it leaves gives an open file of that size, at
-- its start, whose header has a sector of the disk of its own for every sector of its bytes, and
-- changes no sector.
pub open_file-create :
    (resume : ℕ → ℕ) (memory : Memory) (fs : FileSystem) (name : List ℕ) (size : ℕ)
    (s s' : SynchDisk)
    → IsMemory memory
    → AreOpen fs
    → size < 2 ^ 32
    → IsMounted fs s.disk.sectors
    → IsReady s
    → create resume memory fs name size s ≡ ok (true, s')
    → Opens size s'.disk.sectors (open_file resume memory fs name s')
open_file-create resume memory fs name size s s' sized open_ small mounted ready run =
    go (create resume memory fs name size s) run (
      create_word-Creates resume memory sized fs open_ name size small s.disk.sectors mounted s
        (ready, refl))
  where
    go :
        (r : Result (Bool × SynchDisk))
        → r ≡ ok (true, s')
        → Creates fs name size s.disk.sectors r
        → Opens size s'.disk.sectors (open_file resume memory fs name s')
    go r e (refused s1 why left) = absurd (cc)
    go r e (too_big absent room big enough) = absurd (cc)
    go r e (created s1 sector hdr made) =
        let same_end : s1 ≡ s' = cc in
        subst (λ t. Opens size t.disk.sectors (open_file resume memory fs name t)) same_end
          (open_file-Opens fs name size s.disk.sectors sector hdr s1 made resume memory sized open_)
