-- ===== src/FileSystem/Save.antt =====
-- The end of FileSystem::Create (code/filesys/filesys.cc): what its three writes leave on the disk.
use my_nachos.Shared.{
  ℕ, ◌*◌, ◌<◌, ◌≡◌, ◌≢◌, refl, ap, ◌∙◌, sym, List, [], ◌∷◌, length, get_or, set, get_or-set_self,
  get_or-set_ne, Bool, true, Succeeds, succeeds, Succeeds->>=, arith,
}
use my_nachos.Disk.{num_sectors}
use my_nachos.BitMap.{BitMap}
use my_nachos.BitMap.WordRange.{AreWords}
use my_nachos.FileHeader.{FileHeader, num_direct, sector_size}
use my_nachos.Directory.{Directory}
use my_nachos.SynchDisk.{SynchDisk}
use my_nachos.OpenFile.Bytes.{IsReady, sector_of, Leaves, write_sector-Succeeds}
use my_nachos.FileSystem.{FileSystem, save_new}
use my_nachos.FileSystem.Layout.{
  encode_words, decode_words, encode_entries, length-encode_words, decode_words-encode_words,
  word_at, word_at-word_bytes,
}
use my_nachos.FileSystem.Transfer.{Memory, header_at, header_bytes, write_header}
use my_nachos.FileSystem.Whole.{file_bytes, file_bytes-frame, Rewrites}
use my_nachos.FileSystem.Back.{
  IsWritable, map_back, directory_back, write_directory-Succeeds, write_map-Succeeds,
}
use my_nachos.FileSystem.Mounted.{map_on, directory_on, header_on, IsMemory, AreOpen}

-- A header that its layout can hold comes back as it was.
pub record IsHeader (hdr : FileHeader) : Type 0 where
  pub words : AreWords (hdr.num_bytes ∷ hdr.num_sectors ∷ hdr.data_sectors)
  pub table : length hdr.data_sectors ≡ num_direct

pub header_at-header_bytes : (hdr : FileHeader) → IsHeader hdr → header_at (header_bytes hdr) ≡ hdr
unfolding header_at header_bytes encode_words
header_at-header_bytes hdr h =
    ap
      (λ n. record {
        num_bytes = n;
        num_sectors = word_at (header_bytes hdr) 4;
        data_sectors = decode_words num_direct (encode_words hdr.data_sectors);
      })
      (word_at-word_bytes hdr.num_bytes h.words.0)
    ∙ ap
        (λ n. record {
          num_bytes = hdr.num_bytes;
          num_sectors = n;
          data_sectors = decode_words num_direct (encode_words hdr.data_sectors);
        })
        (word_at-word_bytes hdr.num_sectors h.words.1.0)
    ∙ ap
        (λ ws. record {
          num_bytes = hdr.num_bytes;
          num_sectors = hdr.num_sectors;
          data_sectors = ws;
        })
        (ap (λ n. decode_words n (encode_words hdr.data_sectors)) (sym h.table)
          ∙ decode_words-encode_words hdr.data_sectors h.words.1.1)

-- What is written, and where: it fits its layout, and the header does not lie in the two files.
pub record IsSavable (fs : FileSystem) (hdr : FileHeader) (sector : ℕ) (dir : Directory)
    (m : BitMap) : Type 0 where
  pub header : IsHeader hdr
  pub on_disk : sector < num_sectors
  pub back : IsWritable dir m
  pub not_map :
      (i : ℕ)
      → i * sector_size < fs.free_map_file.hdr.num_bytes
      → sector_of fs.free_map_file.hdr i ≢ sector
  pub not_directory :
      (i : ℕ)
      → i * sector_size < fs.directory_file.hdr.num_bytes
      → sector_of fs.directory_file.hdr i ≢ sector

-- All is on the disk, and no sector but those of the two files and the header has changed.
pub record Saved (fs : FileSystem) (hdr : FileHeader) (sector : ℕ) (dir : Directory) (m : BitMap)
    (old : List (List ℕ)) (s : SynchDisk) : Type 0 where
  pub ready : IsReady s
  pub map : map_on fs s.disk.sectors ≡ m
  pub directory : directory_on fs s.disk.sectors ≡ dir
  pub header : header_on s.disk.sectors sector ≡ hdr
  pub spared :
      (k : ℕ)
      → k ≢ sector
      → ((i : ℕ)
          → i * sector_size < fs.free_map_file.hdr.num_bytes
          → sector_of fs.free_map_file.hdr i ≢ k)
      → ((i : ℕ)
          → i * sector_size < fs.directory_file.hdr.num_bytes
          → sector_of fs.directory_file.hdr i ≢ k)
      → get_or s.disk.sectors k [] ≡ get_or old k []

module _ (resume : ℕ → ℕ) (memory : Memory) (sized : IsMemory memory) (fs : FileSystem)
    (open_ : AreOpen fs) (hdr : FileHeader) (sector : ℕ) (dir : Directory) (m : BitMap)
    (fine : IsSavable fs hdr sector dir m) where
  writes-Saved :
      (old : List (List ℕ)) (s1 s2 s3 : SynchDisk)
      → length old ≡ num_sectors
      → s1.disk.sectors ≡ set old sector (header_bytes hdr)
      → Rewrites fs.directory_file.hdr s1.disk.sectors (encode_entries dir.table) s2
      → Rewrites fs.free_map_file.hdr s2.disk.sectors (encode_words m.map) s3
      → Saved fs hdr sector dir m old s3
  writes-Saved old s1 s2 s3 count e1 w2 w3 =
      let through : (k : ℕ)
          → ((i : ℕ)
              → i * sector_size < fs.free_map_file.hdr.num_bytes
              → sector_of fs.free_map_file.hdr i ≢ k)
          → ((i : ℕ)
              → i * sector_size < fs.directory_file.hdr.num_bytes
              → sector_of fs.directory_file.hdr i ≢ k)
          → get_or s3.disk.sectors k [] ≡ get_or (set old sector (header_bytes hdr)) k [] =
        λ k nm nd. w3.spares k nm ∙ w2.spares k nd ∙ ap (λ t. get_or t k []) e1 in
      record {
        ready = w3.ready;
        map =
            map_back dir m fine.back
              (file_bytes fs.free_map_file.hdr s3.disk.sectors fs.free_map_file.hdr.num_bytes 0)
              w3.now;
        directory =
            directory_back dir m fine.back
              (file_bytes fs.directory_file.hdr s3.disk.sectors fs.directory_file.hdr.num_bytes 0)
              (file_bytes-frame fs.directory_file.hdr s2.disk.sectors s3.disk.sectors
                  fs.directory_file.hdr.num_bytes 0 (omega arith)
                  (λ k lt.
                    w3.spares (sector_of fs.directory_file.hdr k) (λ i l. open_.apart i k l lt))
                ∙ w2.now);
        header =
            ap header_at (
              through sector fine.not_map fine.not_directory
              ∙ get_or-set_self old sector (header_bytes hdr) []
                  (omega (arith, fine.on_disk, count)))
            ∙ header_at-header_bytes hdr fine.header;
        spared = λ k ne nm nd.
            through k nm nd ∙ get_or-set_ne old sector k (header_bytes hdr) [] (λ e. ne (sym e));
      }

  write_header-Succeeds :
      (s : SynchDisk)
      → IsReady s
      → Succeeds
          (Leaves (set s.disk.sectors sector (header_bytes hdr)))
          (write_header resume memory hdr sector s)
  unfolding write_header header_bytes
  write_header-Succeeds s ready =
      write_sector-Succeeds resume s sector (header_bytes hdr) ready fine.on_disk (
        omega (
          arith,
          length-encode_words (hdr.num_bytes ∷ hdr.num_sectors ∷ hdr.data_sectors),
          fine.header.table,
        ))

  pub save_new-Saved :
      (s : SynchDisk)
      → IsReady s
      → Succeeds
          (λ (r : Bool × SynchDisk). (r.0 ≡ true) × Saved fs hdr sector dir m s.disk.sectors r.1)
          (save_new resume memory fs hdr sector dir m s)
  unfolding save_new
  save_new-Saved s ready = Succeeds->>= (write_header-Succeeds s ready) λ s1 (ready1, e1).
      Succeeds->>= (write_directory-Succeeds dir m fine.back resume memory sized fs open_ s1 ready1)
        λ s2 w2.
          Succeeds->>= (write_map-Succeeds dir m fine.back resume memory sized fs open_ s2 w2.ready)
            λ s3 w3. succeeds (refl, writes-Saved s.disk.sectors s1 s2 s3 ready.full.count e1 w2 w3)
