-- ===== src/OpenFile/Bytes.antt =====
-- The bytes of a file of code/filesys/openfile.cc on the sectors of the disk, and one request to it.
use my_nachos.Shared.{
  ℕ, ◌*◌, ◌/◌, ◌%◌, ◌<◌, ◌≡◌, ◌≢◌, refl, false, List, [], length, get_or, get_elem?-eq-get_or, set,
  ok, arith, Succeeds, succeeds, lt→ltb, length-set, get_or-set_self, get_or-set_ne, elem, or_stop,
  Stop, ap, ◌∙◌, subst, ℕ_discrete,
}
use my_nachos.Disk.{num_sectors, update_last, handle_interrupt, read_request, write_request}
use my_nachos.FileHeader.{FileHeader, sector_size, byte_to_sector}
use my_nachos.SynchDisk.{SynchDisk, await, read_sector, write_sector}

-- Every sector of the disk is there and holds `SectorSize` bytes.
pub record AreFull (sectors : List (List ℕ)) : Type 0 where
  pub count : length sectors ≡ num_sectors
  pub full : (k : ℕ) → k < num_sectors → length (get_or sectors k []) ≡ sector_size

-- No request is under way.
pub record IsReady (s : SynchDisk) : Type 0 where
  pub idle : s.disk.active ≡ false
  pub full : AreFull s.disk.sectors

-- The header has a sector on the disk for every byte of the file, and none for two.
pub record IsFile (hdr : FileHeader) : Type 0 where
  pub there : (i : ℕ) → i * sector_size < hdr.num_bytes → i < length hdr.data_sectors
  pub on_disk :
      (i : ℕ) → i * sector_size < hdr.num_bytes → get_or hdr.data_sectors i 0 < num_sectors
  pub apart :
      (i j : ℕ)
      → i * sector_size < hdr.num_bytes
      → j * sector_size < hdr.num_bytes
      → i ≢ j
      → get_or hdr.data_sectors i 0 ≢ get_or hdr.data_sectors j 0

-- The sector of the disk that holds a sector of the file, and byte `i` of the file.
abbrev pub sector_of : FileHeader → ℕ → ℕ
sector_of hdr k = get_or hdr.data_sectors k 0

abbrev pub file_byte : FileHeader → List (List ℕ) → ℕ → ℕ
file_byte hdr sectors i =
    get_or (get_or sectors (sector_of hdr (i / sector_size)) []) (i % sector_size) 0

pub elem-get_or {ℓ} :
    {A : Type ℓ} (xs : List A) (i : ℕ) (d : A) → i < length xs → elem xs i ≡ ok (get_or xs i d)
elem-get_or xs i d h = ap (λ o. or_stop o Stop.out_of_range) (get_elem?-eq-get_or xs i d h)

pub set-AreFull :
    (sectors : List (List ℕ)) (k : ℕ) (bytes : List ℕ)
    → k < num_sectors
    → length bytes ≡ sector_size
    → AreFull sectors
    → AreFull (set sectors k bytes)
set-AreFull sectors k bytes h whole f = record {
  count = length-set sectors k bytes ∙ f.count;
  full = λ j lt. elim (ℕ_discrete k j) [
    | yes e ↦
        subst (λ i. length (get_or (set sectors k bytes) i []) ≡ sector_size) e
          (ap length (get_or-set_self sectors k bytes [] (omega (arith, f.count))) ∙ whole)
    | no ne ↦ ap length (get_or-set_ne sectors k j bytes [] ne) ∙ f.full j lt
  ];
}

pub byte_to_sector-sector_of :
    (hdr : FileHeader) (i : ℕ)
    → IsFile hdr
    → i * sector_size < hdr.num_bytes
    → byte_to_sector hdr (i * sector_size) ≡ ok (sector_of hdr i)
unfolding byte_to_sector
byte_to_sector-sector_of hdr i f h =
    let e : i * sector_size / sector_size ≡ i = omega arith in
    ap (elem hdr.data_sectors) e ∙ elem-get_or hdr.data_sectors i 0 (f.there i h)

-- What a request leaves: the disk is ready, and holds `sectors`.
abbrev pub Leaves : List (List ℕ) → SynchDisk → Type 0
Leaves sectors s = IsReady s × (s.disk.sectors ≡ sectors)

module _ (resume : ℕ → ℕ) where
  pub read_sector-Succeeds :
      (s : SynchDisk) (k : ℕ)
      → IsReady s
      → k < num_sectors
      → Succeeds
          (λ r. (r.0 ≡ get_or s.disk.sectors k []) × Leaves s.disk.sectors r.1)
          (read_sector resume s k)
  unfolding read_sector read_request await handle_interrupt update_last
  read_sector-Succeeds s k ready h =
      rw
        (
          ready.idle,
          lt→ltb k num_sectors h,
          elem-get_or s.disk.sectors k [] (omega (arith, ready.full.count)),
        )
        (succeeds (refl, (record { idle = refl; full = ready.full }, refl)))

  pub write_sector-Succeeds :
      (s : SynchDisk) (k : ℕ) (bytes : List ℕ)
      → IsReady s
      → k < num_sectors
      → length bytes ≡ sector_size
      → Succeeds (Leaves (set s.disk.sectors k bytes)) (write_sector resume s k bytes)
  unfolding write_sector write_request await handle_interrupt update_last
  write_sector-Succeeds s k bytes ready h whole =
      rw
        (
          ready.idle,
          lt→ltb k num_sectors h,
          lt→ltb k (length s.disk.sectors) (omega (arith, ready.full.count)),
        )
        (succeeds (
          record { idle = refl; full = set-AreFull s.disk.sectors k bytes h whole ready.full },
          refl,
        ))
