-- ===== src/OpenFile/Read.antt =====
-- OpenFile::ReadAt (code/filesys/openfile.cc) reads the bytes of the file.
use my_nachos.Shared.{
  ltb, if◌then◌else◌, ◌^◌, int_of_lem, ℕ, zero, suc, ◌+◌, ◌-◌, ◌*◌, ◌/◌, ◌%◌, ◌<◌, ◌≤◌, ◌≡◌, refl,
  true, false, List, [], length, get_or, ok, arith, Succeeds, succeeds, Succeeds->>=, ap, ◌∙◌,
  subst, sym, take, drop, length-take, length-drop, get_or-take, get_or-drop, get_or-append_left,
  get_or-append_right, length-append, ◌++◌, dec_lt, min, Bool-cases, inl, inr,
}
use my_nachos.FileHeader.{FileHeader, sector_size, file_length}
use my_nachos.SynchDisk.{SynchDisk}
use my_nachos.OpenFile.{read_from, read_span, read_at, clip, is_refused}
use my_nachos.OpenFile.Bytes.{
  IsReady, IsFile, sector_of, file_byte, byte_to_sector-sector_of, Leaves, read_sector-Succeeds,
}

-- A buffer holds the `n` bytes of the file from `position` on.
pub record Holds (hdr : FileHeader) (sectors : List (List ℕ)) (position n : ℕ) (buf : List ℕ)
    : Type 0 where
  pub size : length buf ≡ n
  pub bytes : (j : ℕ) → j < n → get_or buf j 0 ≡ file_byte hdr sectors (position + j)

-- What a read gives: the buffer, and a disk that it has not changed.
abbrev pub Reads : FileHeader → List (List ℕ) → (position n : ℕ) → List ℕ × SynchDisk → Type 0
Reads hdr sectors position n r = Holds hdr sectors position n r.0 × Leaves sectors r.1

-- A buffer that goes on with the bytes of the next sector.
Holds-sector :
    (hdr : FileHeader) (sectors : List (List ℕ)) (i m : ℕ) (bytes rest : List ℕ)
    → bytes ≡ get_or sectors (sector_of hdr i) []
    → length bytes ≡ sector_size
    → Holds hdr sectors ((i + 1) * sector_size) m rest
    → Holds hdr sectors (i * sector_size) (sector_size + m) (bytes ++ rest)
Holds-sector hdr sectors i m bytes rest e size h = record {
  size = omega (arith, length-append bytes rest, size, h.size);
  bytes = λ j lt. elim (dec_lt j sector_size) [
    | yes here ↦
        let q : (i * sector_size + j) / sector_size ≡ i = omega arith in
        let r : (i * sector_size + j) % sector_size ≡ j = omega arith in
        get_or-append_left bytes rest j 0 (omega arith)
        ∙ ap (λ b. get_or b j 0) e
        ∙ sym (
            ap
              (λ k.
                get_or (get_or sectors (sector_of hdr k) []) ((i * sector_size + j) % sector_size)
                  0)
              q
            ∙ ap (λ k. get_or (get_or sectors (sector_of hdr i) []) k 0) r)
    | no later ↦
        let k : ℕ = j - sector_size in
        let back : length bytes + k ≡ j = omega arith in
        let far : (i + 1) * sector_size + k ≡ i * sector_size + j = omega arith in
        ap (λ n. get_or (bytes ++ rest) n 0) (sym back)
        ∙ get_or-append_right bytes rest k 0
        ∙ h.bytes k (omega arith)
        ∙ ap (file_byte hdr sectors) far
  ];
}

module _ (resume : ℕ → ℕ) (hdr : FileHeader) (file : IsFile hdr) where
  pub read_from-Succeeds :
      (n i : ℕ) (s : SynchDisk)
      → IsReady s
      → ((j : ℕ) → j < n → (i + j) * sector_size < hdr.num_bytes)
      → Succeeds
          (Reads hdr s.disk.sectors (i * sector_size) (n * sector_size))
          (read_from resume hdr n i s)
  unfolding read_from
  read_from-Succeeds zero i s ready inside =
      succeeds (record { size = refl; bytes = λ j lt. absurd (omega arith) }, (ready, refl))
  read_from-Succeeds (suc n) i s ready inside =
      let here : i * sector_size < hdr.num_bytes = omega (arith, inside 0 (omega arith)) in
      rw (byte_to_sector-sector_of hdr i file here) (
        Succeeds->>= (read_sector-Succeeds resume s (sector_of hdr i) ready (file.on_disk i here))
          λ r (e, (ready', same)).
            Succeeds->>=
              (read_from-Succeeds n (i + 1) r.1 ready'
                (λ j lt. omega (arith, inside (suc j) (omega arith))))
              λ r' (h, (ready'', same')). succeeds (
                subst (λ m. Holds hdr s.disk.sectors (i * sector_size) m (r.0 ++ r'.0))
                    {x = sector_size + n * sector_size} {y = suc n * sector_size} (omega arith)
                    (Holds-sector hdr s.disk.sectors i (n * sector_size) r.0 r'.0 e
                      (ap length e ∙ ready.full.full (sector_of hdr i) (file.on_disk i here))
                      (subst (λ t. Holds hdr t ((i + 1) * sector_size) (n * sector_size) r'.0) same
                        h)),
                (ready'', same' ∙ same),
              ))

-- The bytes of a request that the file has.
abbrev pub available : FileHeader → ℕ → ℕ → ℕ
available hdr num_bytes position = min num_bytes (hdr.num_bytes - position)

Holds-part :
    (hdr : FileHeader) (sectors : List (List ℕ)) (at m position n : ℕ) (buf : List ℕ)
    → at ≤ position
    → position + n ≤ at + m
    → Holds hdr sectors at m buf
    → Holds hdr sectors position n (take n (drop (position - at) buf))
Holds-part hdr sectors at m position n buf from to h = record {
  size =
      length-take n (drop (position - at) buf)
        (omega (arith, length-drop (position - at) buf, h.size));
  bytes = λ j lt.
      let e : at + (position - at + j) ≡ position + j = omega arith in
      get_or-take n (drop (position - at) buf) j 0 lt
      ∙ get_or-drop (position - at) buf j 0
      ∙ h.bytes (position - at + j) (omega arith)
      ∙ ap (file_byte hdr sectors) e;
}

pub clip-available :
    (hdr : FileHeader) (num_bytes position : ℕ)
    → position + num_bytes < 2 ^ 31
    → is_refused hdr num_bytes position ≡ false
    → (clip hdr num_bytes position ≡ ok (available hdr num_bytes position))
      × (0 < available hdr num_bytes position)
      × (position + available hdr num_bytes position ≤ hdr.num_bytes)
unfolding clip is_refused file_length
clip-available hdr num_bytes position small go =
    let n : ℕ =
      if ltb hdr.num_bytes (position + num_bytes) then hdr.num_bytes - position else num_bytes in
    let e : n ≡ available hdr num_bytes position = ground arith in
    (rw (int_of_lem (position + num_bytes) small) (ap (λ k. ok k) e), ground arith, ground arith)

pub available-refused :
    (hdr : FileHeader) (num_bytes position : ℕ)
    → is_refused hdr num_bytes position ≡ true
    → available hdr num_bytes position ≡ 0
unfolding clip is_refused file_length
available-refused hdr num_bytes position refused = ground arith

module _ (resume : ℕ → ℕ) (hdr : FileHeader) (file : IsFile hdr) where
  -- The sectors from that of the first byte to that of the last.
  pub span-Holds :
      (n position : ℕ) (s : SynchDisk)
      → IsReady s
      → 0 < n
      → position + n ≤ hdr.num_bytes
      → position + n + sector_size ≤ 2 ^ 31
      → Succeeds (Reads hdr s.disk.sectors position n) (read_span resume hdr n position s)
  unfolding read_span
  span-Holds n position s ready some_byte end small =
      let first : ℕ = position / sector_size in
      let count : ℕ = 1 + (position + n - 1) / sector_size - first in
      rw (int_of_lem (count * sector_size) (omega arith)) (
        Succeeds->>= (read_from-Succeeds resume hdr file count first s ready (λ j lt. omega arith))
          λ r (h, left). succeeds (
            Holds-part hdr s.disk.sectors (first * sector_size) (count * sector_size) position n r.0
                (omega arith) (omega arith) h,
            left,
          ))

  -- For a header whose sectors are on the disk and distinct, a disk whose sectors have their size
  -- and that has no request under way, and a position and a number of bytes whose sum is at most
  -- 2^31 - 128, ReadAt succeeds, gives exactly the bytes of the file from the position on, as many
  -- as were asked for and the file has, and changes no sector.
  pub read_at-Holds :
      (num_bytes position : ℕ) (s : SynchDisk)
      → position + num_bytes + sector_size ≤ 2 ^ 31
      → IsReady s
      → Succeeds
          (Reads hdr s.disk.sectors position (available hdr num_bytes position))
          (read_at resume hdr num_bytes position s)
  unfolding read_at
  read_at-Holds num_bytes position s small ready =
      elim (Bool-cases (is_refused hdr num_bytes position)) [
        | inl refused ↦ rw refused (
            succeeds (
              subst (λ n. Holds hdr s.disk.sectors position n [])
                  (sym (available-refused hdr num_bytes position refused))
                  (record { size = refl; bytes = λ j lt. absurd (omega arith) }),
              (ready, refl),
            ))
        | inr go ↦
            let (e, some_byte, end) = clip-available hdr num_bytes position (omega arith) go in
            rw (go, e)
              (span-Holds (available hdr num_bytes position) position s ready some_byte end
                (omega arith))
      ]
