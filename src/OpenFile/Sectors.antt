-- ===== src/OpenFile/Sectors.antt =====
-- The loop of OpenFile::WriteAt (code/filesys/openfile.cc) that writes whole sectors, and the reads
-- that fill its buffer before.
use my_nachos.Shared.{
  ◌^◌, ℕ, zero, suc, ◌+◌, ◌-◌, ◌*◌, ◌/◌, ◌%◌, ◌<◌, ◌≤◌, ◌≡◌, ◌≢◌, refl, Bool, true, false, List, [],
  length, get_or, set, arith, Succeeds, succeeds, Succeeds->>=, Succeeds-map, ap, ◌∙◌, subst, take,
  drop, length-take, length-drop, get_or-take, get_or-drop, dec_lt, inl, inr, copy_into,
  length-copy_into, get_or-copy_into_before, get_or-copy_into_in, get_or-copy_into_after,
  get_or-set_self, get_or-set_ne, ◌⊎◌,
}
use my_nachos.Disk.{num_sectors}
use my_nachos.FileHeader.{FileHeader, sector_size}
use my_nachos.SynchDisk.{SynchDisk}
use my_nachos.OpenFile.{read_in, write_from}
use my_nachos.OpenFile.Bytes.{
  IsReady, IsFile, sector_of, file_byte, byte_to_sector-sector_of, Leaves, write_sector-Succeeds,
}
use my_nachos.OpenFile.Read.{Holds, read_at-Holds, available}

-- What the loop leaves: the buffer's bytes in the file, from sector `i` of it on, and all sectors of
-- the disk but those `n` as they were.
pub record Stores (hdr : FileHeader) (old : List (List ℕ)) (n i : ℕ) (buf : List ℕ) (s : SynchDisk)
    : Type 0 where
  pub ready : IsReady s
  pub bytes :
      (p : ℕ)
      → p < n * sector_size
      → file_byte hdr s.disk.sectors (i * sector_size + p) ≡ get_or buf p 0
  pub same :
      (k : ℕ)
      → ((j : ℕ) → j < n → sector_of hdr (i + j) ≢ k)
      → get_or s.disk.sectors k [] ≡ get_or old k []

module _ (resume : ℕ → ℕ) (hdr : FileHeader) (file : IsFile hdr) where
  Stores-sector :
      (old new : List (List ℕ)) (n i : ℕ) (buf : List ℕ) (s : SynchDisk)
      → ((j : ℕ) → j < suc n → (i + j) * sector_size < hdr.num_bytes)
      → length old ≡ num_sectors
      → new ≡ set old (sector_of hdr i) (take sector_size buf)
      → Stores hdr new n (i + 1) (drop sector_size buf) s
      → Stores hdr old (suc n) i buf s
  Stores-sector old new n i buf s inside count e st =
      let here : i * sector_size < hdr.num_bytes = omega (arith, inside 0 (omega arith)) in
      record {
        ready = st.ready;
        bytes = λ p lt. elim (dec_lt p sector_size) [
          | yes first ↦
              let q : (i * sector_size + p) / sector_size ≡ i = omega arith in
              let r : (i * sector_size + p) % sector_size ≡ p = omega arith in
              ap
                (λ k.
                  get_or (get_or s.disk.sectors (sector_of hdr k) [])
                    ((i * sector_size + p) % sector_size) 0)
                q
              ∙ ap (λ k. get_or (get_or s.disk.sectors (sector_of hdr i) []) k 0) r
              ∙ ap (λ b. get_or b p 0)
                  (st.same (sector_of hdr i) (λ j l.
                    file.apart (i + 1 + j) i (omega (arith, inside (suc j) (omega arith))) here
                      (λ e. omega arith)))
              ∙ ap (λ t. get_or (get_or t (sector_of hdr i) []) p 0) e
              ∙ ap (λ b. get_or b p 0)
                  (get_or-set_self old (sector_of hdr i) (take sector_size buf) []
                    (omega (arith, file.on_disk i here)))
              ∙ get_or-take sector_size buf p 0 first
          | no later ↦
              let k : ℕ = p - sector_size in
              ap (file_byte hdr s.disk.sectors) {x = i * sector_size + p}
                {y = (i + 1) * sector_size + k} (omega arith)
              ∙ st.bytes k (omega arith)
              ∙ get_or-drop sector_size buf k 0
              ∙ ap (λ q. get_or buf q 0) {x = sector_size + k} {y = p} (omega arith)
        ];
        same = λ k other.
            st.same k (λ j l.
              subst (λ q. sector_of hdr q ≢ k) {x = i + suc j} {y = i + 1 + j} (omega arith)
                (other (suc j) (omega arith)))
            ∙ ap (λ t. get_or t k []) e
            ∙ get_or-set_ne old (sector_of hdr i) k (take sector_size buf) [] (
                subst (λ q. sector_of hdr q ≢ k) {x = i + 0} {y = i} (omega arith)
                  (other 0 (omega arith)));
      }

  pub write_from-Stores :
      (n i : ℕ) (buf : List ℕ) (s : SynchDisk)
      → IsReady s
      → ((j : ℕ) → j < n → (i + j) * sector_size < hdr.num_bytes)
      → length buf ≡ n * sector_size
      → Succeeds (Stores hdr s.disk.sectors n i buf) (write_from resume hdr n i buf s)
  unfolding write_from
  write_from-Stores zero i buf s ready inside size =
      succeeds (record { ready = ready; bytes = λ p lt. absurd (omega arith); same = λ k o. refl })
  write_from-Stores (suc n) i buf s ready inside size =
      let here : i * sector_size < hdr.num_bytes = omega (arith, inside 0 (omega arith)) in
      rw (byte_to_sector-sector_of hdr i file here) (
        Succeeds->>=
          (write_sector-Succeeds resume s (sector_of hdr i) (take sector_size buf) ready
            (file.on_disk i here) (length-take sector_size buf (omega arith)))
          λ s' (ready', e).
            Succeeds-map
              (write_from-Stores n (i + 1) (drop sector_size buf) s' ready'
                (λ j l. omega (arith, inside (suc j) (omega arith)))
                (omega (arith, length-drop sector_size buf)))
              λ s'' st.
                Stores-sector s.disk.sectors s'.disk.sectors n i buf s'' inside ready.full.count e
                  st)

-- What `read_in` makes of the buffer: the file's bytes of the sector, as far as the file goes, are
-- in their place if they are needed, and all else is as it was.
pub record Fills (hdr : FileHeader) (sectors : List (List ℕ)) (needed : Bool) (sector at : ℕ)
    (buf buf' : List ℕ) : Type 0 where
  pub size : length buf' ≡ length buf
  pub fresh :
      needed ≡ true
      → (j : ℕ) → j < sector_size
      → sector * sector_size + j < hdr.num_bytes
      → get_or buf' (at + j) 0 ≡ file_byte hdr sectors (sector * sector_size + j)
  pub old :
      (p : ℕ)
      → (needed ≡ false) ⊎ ((p < at) ⊎ (at + sector_size ≤ p))
      → get_or buf' p 0 ≡ get_or buf p 0

copy_into-Fills :
    (hdr : FileHeader) (sectors : List (List ℕ)) (sector at : ℕ) (buf bytes : List ℕ)
    → at + sector_size ≤ length buf
    → Holds hdr sectors
        (sector * sector_size)
        (available hdr sector_size (sector * sector_size))
        bytes
    → Fills hdr sectors true sector at buf (copy_into buf at bytes)
copy_into-Fills hdr sectors sector at buf bytes room h = record {
  size = length-copy_into buf at bytes 0 (omega (arith, h.size));
  fresh = λ n j lt inside.
      get_or-copy_into_in buf at bytes 0 j (omega arith) (omega (arith, h.size))
      ∙ h.bytes j (omega arith);
  old = λ p out. elim out [
    | inl f ↦ absurd (cc)
    | inr (inl before) ↦ get_or-copy_into_before buf at bytes 0 p (omega arith) before
    | inr (inr after) ↦
        get_or-copy_into_after buf at bytes 0 p (omega arith) (omega (arith, h.size))
  ];
}

module _ (resume : ℕ → ℕ) (hdr : FileHeader) (file : IsFile hdr) where
  pub read_in-Fills :
      (needed : Bool) (sector at : ℕ) (buf : List ℕ) (s : SynchDisk)
      → IsReady s
      → at + sector_size ≤ length buf
      → (sector + 2) * sector_size ≤ 2 ^ 31
      → Succeeds
          (λ (r : List ℕ × SynchDisk).
            Fills hdr s.disk.sectors needed sector at buf r.0 × Leaves s.disk.sectors r.1)
          (read_in resume hdr needed sector at buf s)
  unfolding read_in
  read_in-Fills false sector at buf s ready room small =
      succeeds
        (record { size = refl; fresh = λ n. absurd (cc); old = λ p out. refl }, (ready, refl))
  read_in-Fills true sector at buf s ready room small =
      Succeeds->>=
        (read_at-Holds resume hdr file sector_size (sector * sector_size) s (omega arith) ready)
        λ r (h, left). succeeds (copy_into-Fills hdr s.disk.sectors sector at buf r.0 room h, left)
