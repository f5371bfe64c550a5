-- ===== src/FileSystem/Remove.antt =====
-- FileSystem::Remove (code/filesys/filesys.cc): both outcomes, and what it leaves on the disk.
use my_nachos.Shared.{
  ℕ, ◌-◌, ◌^◌, ◌<◌, ◌≡◌, ap, ◌∙◌, sym, subst, none, some, List, Bool, true, false, not, ◌==◌,
  if◌then◌else◌, Result, ok, ◌>>=◌, after-Succeeds, IfOk, arith, inl, inr, Option-cases,
}
use my_nachos.BitMap.{BitMap}
use my_nachos.BitMap.Bits.{Sets, clear_lem}
use my_nachos.BitMap.WordRange.{AreWords, Fits, clear-Fits}
use my_nachos.FileHeader.{FileHeader}
use my_nachos.FileHeader.Release.{Returned, deallocate-Returned}
use my_nachos.FileHeader.WordRange.{deallocate-Fits}
use my_nachos.Directory
use my_nachos.Directory.{Directory, remove}
use my_nachos.Directory.Entries.{AreEntries, remove-AreEntries}
use my_nachos.Directory.Table.{lookup, find-lookup}
use my_nachos.Directory.Operations
use my_nachos.Directory.Operations.{Removes, removed, remove-Removes}
use my_nachos.SynchDisk.{SynchDisk}
use my_nachos.OpenFile.Bytes.{Leaves}
use my_nachos.FileSystem.{FileSystem, num_dir_entries, is_found, release, remove_at, remove_file}
use my_nachos.FileSystem.Layout.{encode_words}
use my_nachos.FileSystem.Transfer.{Memory, write_map, write_directory}
use my_nachos.FileSystem.Whole.{Rewrites}
use my_nachos.FileSystem.Mounted.{
  map_on, directory_on, header_on, IsMemory, AreOpen, IsMounted, length-decode_entries,
  load_map-Succeeds, load_directory-Succeeds, fetch_header-Succeeds,
}
use my_nachos.FileSystem.Back.{IsWritable, write_directory-Succeeds, write_map-Succeeds}
use my_nachos.FileSystem.Freed.{IsStored, Deletes, not_there, deleted, writes-Deleted}

module _ (resume : ℕ → ℕ) (memory : Memory) (sized : IsMemory memory) (fs : FileSystem)
    (open_ : AreOpen fs) (name : List ℕ) (old : List (List ℕ)) (mounted : IsMounted fs old) where
  -- The writes, once the map and the directory are changed.
  save-Deletes :
      (k : ℕ) (there : lookup (directory_on fs old).table name ≡ some k)
      (stored : IsStored fs old k) (m m' : BitMap) {r : Result (Bool × Directory)} (s : SynchDisk)
      → Leaves old s
      → Returned (map_on fs old) (header_on old k).data_sectors (header_on old k).num_sectors m
      → Sets m k 0 m'
      → AreWords m'.map
      → Removes (directory_on fs old) name r
      → IfOk (λ (r : Bool × Directory). AreEntries r.1.table) r
      → Deletes fs name old (do
        (gone, dir) ← r
        s ← write_map resume memory m' fs.free_map_file s
        s ← write_directory resume memory dir fs.directory_file s
        ok (true, s))
  save-Deletes k there stored m m' s left r c words (Operations.missing absent) kept =
      absurd (ground (arith, there, absent))
  save-Deletes k there stored m m' s left r c words (removed dir' k' at len look unique) kept =
      let fine : IsWritable dir' m' = record {
        table = len ∙ length-decode_entries num_dir_entries _;
        entries = kept;
        num_bits = c.same_size ∙ r.same_size;
        well_formed = c.well_formed;
        words = words;
      } in
      after-Succeeds (Deletes fs name old) _
        (write_map-Succeeds dir' m' fine resume memory sized fs open_ s left.0)
        λ s1 w1.
          after-Succeeds (Deletes fs name old) _
            (write_directory-Succeeds dir' m' fine resume memory sized fs open_ s1 w1.ready)
            λ s2 w2. deleted s2 k there (
              writes-Deleted fs open_ name old mounted k there stored m m' r c words dir' s1 s2 fine
                unique look
                (subst (λ t. Rewrites fs.free_map_file.hdr t (encode_words m'.map) s1) left.1 w1)
                w2)

  change-Deletes :
      (k : ℕ) (s : SynchDisk)
      → lookup (directory_on fs old).table name ≡ some k
      → IsStored fs old k
      → Leaves old s
      → Deletes fs name old (
          release resume memory fs name k (directory_on fs old) (header_on old k) (map_on fs old) s)
  unfolding release
  change-Deletes k s there stored left =
      let hdr : FileHeader = header_on old k in
      let (m, run, r) = deallocate-Returned hdr (map_on fs old) stored.sectors stored.marked in
      let inside : k < m.num_bits = omega (arith, mounted.on_disk name k there, r.same_size) in
      let (m', done, c) = clear_lem m k r.well_formed inside in
      let fits : Fits m =
        subst (IfOk Fits) run (deallocate-Fits hdr (map_on fs old) (mounted.words, omega arith)) in
      let fits' : Fits m' = subst (IfOk Fits) done (clear-Fits m k fits) in
      rw (run, done)
        (save-Deletes k there stored m m' s left r c fits'.0
          (remove-Removes (directory_on fs old) name mounted.unique)
          (remove-AreEntries (directory_on fs old) name mounted.entries))

  remove_at-Deletes :
      (k : ℕ) (s : SynchDisk)
      → lookup (directory_on fs old).table name ≡ some k
      → IsStored fs old k
      → Leaves old s
      → Deletes fs name old (remove_at resume memory fs name k (directory_on fs old) s)
  unfolding remove_at
  remove_at-Deletes k s there stored left =
      after-Succeeds (Deletes fs name old) _
        (fetch_header-Succeeds resume memory k s (mounted.on_disk name k there) left.0)
        λ r (e, left1).
          after-Succeeds (Deletes fs name old) _
            (load_map-Succeeds resume memory sized fs open_ r.1 left1.0)
            λ r' (e', left2).
              let same_header : r.0 ≡ header_on old k = e ∙ ap (λ t. header_on t k) left.1 in
              let same_map : r'.0 ≡ map_on fs old = e' ∙ ap (map_on fs) (left1.1 ∙ left.1) in
              subst
                (λ hdr.
                  Deletes fs name old
                    (release resume memory fs name k (directory_on fs old) hdr r'.0 r'.1))
                (sym same_header)
                (subst
                  (λ b. Deletes fs name old (
                    release resume memory fs name k (directory_on fs old) (header_on old k) b r'.1))
                  (sym same_map)
                  (change-Deletes k r'.1 there stored (left2.0, left2.1 ∙ left1.1 ∙ left.1)))

  lookup-Deletes :
      (s : SynchDisk)
      → ((k : ℕ) → lookup (directory_on fs old).table name ≡ some k → IsStored fs old k)
      → Leaves old s
      → Deletes fs name old (
          Directory.find (directory_on fs old) name >>= λ at. elim at [
            | none ↦ ok (false, s)
            | some sector ↦
                if is_found (some sector)
                then remove_at resume memory fs name sector (directory_on fs old) s
                else ok (false, s)
          ])
  unfolding is_found
  lookup-Deletes s stored left =
      rw (find-lookup (directory_on fs old) name)
        (elim (Option-cases (lookup (directory_on fs old).table name)) [
          | inl absent ↦ rw absent (not_there s absent left)
          | inr (k, there) ↦
              let real : not (k == 2 ^ 32 - 1) ≡ true =
                ground (arith, mounted.on_disk name k there) in
              rw (there, real) (remove_at-Deletes k s there (stored k there) left)
        ])

  -- On a ready disk that holds a mounted file system, in which the header that the name leads to,
  -- if any, has distinct marked sectors and neither it nor they belong to the map or directory
  -- file, Remove either returns FALSE, with no sector changed and the name absent, or returns TRUE
  -- and the disk holds a mounted file system again, in which the name is gone and all others lead
  -- where they led, the bits of the header's sector and of the file's sectors are clear and all
  -- others are as they were, and no sector but those of the map and directory files has changed.
  pub remove_file-Deletes :
      (s : SynchDisk)
      → ((k : ℕ) → lookup (directory_on fs old).table name ≡ some k → IsStored fs old k)
      → Leaves old s
      → Deletes fs name old (remove_file resume memory fs name s)
  unfolding remove_file
  remove_file-Deletes s stored left =
      after-Succeeds (Deletes fs name old) _
        (load_directory-Succeeds resume memory sized fs open_ s left.0)
        λ r (e, left').
          let back : r.0 ≡ directory_on fs old = e ∙ ap (directory_on fs) left.1 in
          subst
            (λ dir. Deletes fs name old (
              Directory.find dir name >>= λ at. elim at [
                | none ↦ ok (false, r.1)
                | some sector ↦
                    if is_found (some sector)
                    then remove_at resume memory fs name sector dir r.1
                    else ok (false, r.1)
              ]))
            (sym back) (lookup-Deletes r.1 stored (left'.0, left'.1 ∙ left.1))
