-- ===== src/FileSystem/Whole.antt =====
-- A file of code/filesys/ read and written as a whole, and what a write of one leaves of another.
use my_nachos.Shared.{
  ◌^◌, ℕ, zero, suc, ◌+◌, ◌*◌, ◌/◌, ◌%◌, ◌<◌, ◌≤◌, ◌≡◌, ◌≢◌, refl, ap, ◌∙◌, sym, List, [], ◌∷◌,
  length, get_or, Succeeds, Succeeds-map, arith,
}
use my_nachos.FileHeader.{FileHeader, sector_size}
use my_nachos.SynchDisk.{SynchDisk}
use my_nachos.OpenFile.{read_at, write_at}
use my_nachos.OpenFile.Bytes.{IsReady, IsFile, sector_of, file_byte, Leaves}
use my_nachos.OpenFile.Read.{read_at-Holds}
use my_nachos.OpenFile.Write.{write_at-Writes}

-- `n` bytes of a file from byte `i` on.
unfoldable pub file_bytes : FileHeader → List (List ℕ) → ℕ → ℕ → List ℕ
file_bytes hdr sectors zero i = []
file_bytes hdr sectors (suc n) i = file_byte hdr sectors i ∷ file_bytes hdr sectors n (suc i)

pub length-file_bytes :
    (hdr : FileHeader) (sectors : List (List ℕ)) (n i : ℕ) → length (file_bytes hdr sectors n i) ≡ n
unfolding file_bytes
length-file_bytes hdr sectors zero i = refl
length-file_bytes hdr sectors (suc n) i = ap suc (length-file_bytes hdr sectors n (suc i))

-- A buffer that agrees with the file byte by byte is the file's bytes.
same-file_bytes :
    (hdr : FileHeader) (sectors : List (List ℕ)) (buf : List ℕ) (n i : ℕ)
    → length buf ≡ n
    → ((j : ℕ) → j < n → get_or buf j 0 ≡ file_byte hdr sectors (i + j))
    → buf ≡ file_bytes hdr sectors n i
unfolding file_bytes
same-file_bytes hdr sectors [] zero i size each = refl
same-file_bytes hdr sectors [] (suc n) i size each = absurd (omega (arith, size))
same-file_bytes hdr sectors (c ∷ cs) zero i size each = absurd (omega (arith, size))
same-file_bytes hdr sectors (c ∷ cs) (suc n) i size each =
    ap (λ b. b ∷ cs)
      (each 0 (omega arith) ∙ ap (file_byte hdr sectors) {x = i + 0} {y = i} (omega arith))
    ∙ ap (λ bs. file_byte hdr sectors i ∷ bs)
        (same-file_bytes hdr sectors cs n (suc i) (omega (arith, size)) (λ j lt.
          each (suc j) (omega arith)
          ∙ ap (file_byte hdr sectors) {x = i + suc j} {y = suc i + j} (omega arith)))

-- The bytes are those that were there if the sectors of the file are.
pub file_bytes-frame :
    (hdr : FileHeader) (old new : List (List ℕ)) (n i : ℕ)
    → i + n ≤ hdr.num_bytes
    → ((k : ℕ)
        → k * sector_size < hdr.num_bytes
        → get_or new (sector_of hdr k) [] ≡ get_or old (sector_of hdr k) [])
    → file_bytes hdr new n i ≡ file_bytes hdr old n i
unfolding file_bytes
file_bytes-frame hdr old new zero i inside same = refl
file_bytes-frame hdr old new (suc n) i inside same =
    ap (λ b. get_or b (i % sector_size) 0 ∷ file_bytes hdr new n (suc i))
      (same (i / sector_size) (omega arith))
    ∙ ap (λ bs. file_byte hdr old i ∷ bs)
        (file_bytes-frame hdr old new n (suc i) (omega arith) same)

-- All sectors but those of the file are as they were.
abbrev pub Spares : FileHeader → List (List ℕ) → List (List ℕ) → Type 0
Spares hdr old new =
    (k : ℕ)
    → ((i : ℕ) → i * sector_size < hdr.num_bytes → sector_of hdr i ≢ k)
    → get_or new k [] ≡ get_or old k []

-- What a write of the whole file leaves.
pub record Rewrites (hdr : FileHeader) (old : List (List ℕ)) (from : List ℕ) (s : SynchDisk)
    : Type 0 where
  pub ready : IsReady s
  pub now : file_bytes hdr s.disk.sectors hdr.num_bytes 0 ≡ from
  pub spares : Spares hdr old s.disk.sectors

module _ (resume : ℕ → ℕ) (hdr : FileHeader) (n : ℕ) (whole : hdr.num_bytes ≡ n)
    (short : n + 2 * sector_size ≤ 2 ^ 31) (file : IsFile hdr) where
  pub read_whole :
      (s : SynchDisk)
      → IsReady s
      → Succeeds
          (λ (r : List ℕ × SynchDisk).
            (r.0 ≡ file_bytes hdr s.disk.sectors hdr.num_bytes 0) × Leaves s.disk.sectors r.1)
          (read_at resume hdr n 0 s)
  read_whole s ready =
      Succeeds-map (read_at-Holds resume hdr file n 0 s (omega arith) ready) λ r (h, left). (
        same-file_bytes hdr s.disk.sectors r.0 hdr.num_bytes 0 (omega (arith, h.size, whole))
            (λ j lt. h.bytes j (omega (arith, whole))),
        left,
      )

  pub write_whole :
      (memory : ℕ → List ℕ) (from : List ℕ) (s : SynchDisk)
      → ((k : ℕ) → length (memory k) ≡ k)
      → IsReady s
      → length from ≡ n
      → Succeeds
          (λ (r : ℕ × SynchDisk). Rewrites hdr s.disk.sectors from r.1)
          (write_at resume hdr memory from n 0 s)
  write_whole memory from s sized ready size =
      Succeeds-map
        (write_at-Writes resume memory hdr from n 0 s (omega arith) sized file ready
          (omega (arith, size, whole)))
        λ r w. record {
          ready = w.ready;
          now = sym (
              same-file_bytes hdr r.1.disk.sectors from hdr.num_bytes 0 (omega (arith, size, whole))
                (λ j lt. sym (w.written j (omega (arith, whole)))));
          spares = w.spared;
        }
