-- ===== src/OpenFile/Write.antt =====
-- OpenFile::WriteAt (code/filesys/openfile.cc) changes the bytes of the request, and no others.
use my_nachos.Shared.{
  ◌^◌, int_of_lem, ℕ, ◌+◌, ◌-◌, ◌*◌, ◌/◌, ◌%◌, ◌<◌, ◌≤◌, ◌≡◌, ◌≢◌, refl, Bool, true, false, not,
  List, [], ◌==◌, ◌&&◌, length, get_or, arith, Succeeds, succeeds, Succeeds->>=, ap, ◌∙◌, subst,
  sym, take, length-take, get_or-take, dec_lt, ◌||◌, Bool-cases, inl, inr, copy_into,
  length-copy_into, get_or-copy_into_before, get_or-copy_into_in, get_or-copy_into_after, ◌⊎◌,
}
use my_nachos.FileHeader.{FileHeader, sector_size}
use my_nachos.SynchDisk.{SynchDisk}
use my_nachos.OpenFile.{write_span, write_at, is_refused}
use my_nachos.OpenFile.Bytes.{IsReady, IsFile, sector_of, file_byte}
use my_nachos.OpenFile.Read.{available, clip-available, available-refused}
use my_nachos.OpenFile.Sectors.{Stores, write_from-Stores, Fills, read_in-Fills}

-- What WriteAt leaves of a request for `n` bytes that the file has.
pub record Writes (hdr : FileHeader) (old : List (List ℕ)) (position n : ℕ) (from : List ℕ)
    (r : ℕ × SynchDisk) : Type 0 where
  pub count : r.0 ≡ n
  pub ready : IsReady r.1
  pub written : (j : ℕ) → j < n → file_byte hdr r.1.disk.sectors (position + j) ≡ get_or from j 0
  pub kept :
      (i : ℕ)
      → i < hdr.num_bytes
      → (i < position) ⊎ (position + n ≤ i)
      → file_byte hdr r.1.disk.sectors i ≡ file_byte hdr old i
  pub spared :
      (k : ℕ)
      → ((i : ℕ) → i * sector_size < hdr.num_bytes → sector_of hdr i ≢ k)
      → get_or r.1.disk.sectors k [] ≡ get_or old k []

-- What the buffer holds when the loop begins to write it: the bytes of the request in their place,
-- and the file's own around them.
record Buffered (hdr : FileHeader) (old : List (List ℕ)) (position n : ℕ) (from : List ℕ)
    (first count : ℕ) (buf : List ℕ) : Type 0 where
  size : length buf ≡ count * sector_size
  inside : (j : ℕ) → j < n → get_or buf (position - first * sector_size + j) 0 ≡ get_or from j 0
  around :
      (p : ℕ)
      → p < count * sector_size
      → first * sector_size + p < hdr.num_bytes
      → (first * sector_size + p < position) ⊎ (position + n ≤ first * sector_size + p)
      → get_or buf p 0 ≡ file_byte hdr old (first * sector_size + p)

==→≡ : (a b : ℕ) → (a == b) ≡ true → a ≡ b
==→≡ a b e = ground arith

==→≢ : (a b : ℕ) → (a == b) ≡ false → a ≢ b
==→≢ a b e q = ground arith

module _ (hdr : FileHeader) (old : List (List ℕ)) (position n : ℕ) (from : List ℕ) where
  -- The sectors of the first and of the last byte.
  abbrev first : ℕ
  first = position / sector_size

  abbrev last : ℕ
  last = (position + n - 1) / sector_size

  abbrev count : ℕ
  count = 1 + last - first

  -- `firstAligned`, `lastAligned`, and whether the last sector is read in.
  abbrev starts : Bool
  starts = position == first * sector_size

  abbrev ends : Bool
  ends = position + n == (last + 1) * sector_size

  abbrev both : Bool
  both = not ends && (not (first == last) || starts)

  first_fresh :
      (buf buf' : List ℕ) (p : ℕ)
      → starts ≡ false
      → Fills hdr old (not starts) first 0 buf buf'
      → p < sector_size
      → first * sector_size + p < hdr.num_bytes
      → get_or buf' p 0 ≡ file_byte hdr old (first * sector_size + p)
  first_fresh buf buf' p e one lt in_file =
      ap (λ q. get_or buf' q 0) {x = p} {y = 0 + p} (omega arith)
      ∙ one.fresh (ap not e) p lt in_file

  before-starts : (p : ℕ) → first * sector_size + p < position → starts ≡ false
  before-starts p before = ground arith

  both-one : (first == last) ≡ true → starts ≡ false → both ≡ false
  both-one e f = ground arith

  one-both : both ≡ false → ends ≡ false → ((first == last) ≡ true) × (starts ≡ false)
  one-both b e = (ground arith, ground arith)

  -- A byte before the request is not in a sector that the second read fills.
  other_sector :
      (p : ℕ)
      → 0 < n
      → first * sector_size + p < position
      → (both ≡ false)
        ⊎ ((p < (last - first) * sector_size) ⊎ ((last - first) * sector_size + sector_size ≤ p))
  other_sector p some_byte before = elim (Bool-cases (first == last)) [
    | inl e ↦ inl (both-one e (before-starts p before))
    | inr e ↦ let ne : first ≢ last = ==→≢ first last e in inr (inl (omega arith))
  ]

  -- A byte of the last sector behind the request.
  last_fresh :
      (buf buf' buf'' : List ℕ) (p : ℕ)
      → Fills hdr old (not starts) first 0 buf buf'
      → Fills hdr old both last ((last - first) * sector_size) buf' buf''
      → 0 < n
      → p < count * sector_size
      → first * sector_size + p < hdr.num_bytes
      → position + n ≤ first * sector_size + p
      → get_or buf'' p 0 ≡ file_byte hdr old (first * sector_size + p)
  last_fresh buf buf' buf'' p one two some_byte lt in_file after = elim (Bool-cases both) [
    | inl b ↦
        let j : ℕ = p - (last - first) * sector_size in
        ap (λ q. get_or buf'' q 0) {x = p} {y = (last - first) * sector_size + j} (omega arith)
        ∙ two.fresh b j (omega arith) (omega arith)
        ∙ ap (file_byte hdr old) {x = last * sector_size + j} {y = first * sector_size + p}
            (omega arith)
    | inr b ↦
        let (e, f) = one-both b (ground arith) in
        let same : first ≡ last = ==→≡ first last e in
        two.old p (inl b) ∙ first_fresh buf buf' p f one (omega arith) in_file
  ]

  copied-Buffered :
      (buf buf' buf'' : List ℕ)
      → 0 < n
      → n ≤ length from
      → length buf ≡ count * sector_size
      → Fills hdr old (not starts) first 0 buf buf'
      → Fills hdr old both last ((last - first) * sector_size) buf' buf''
      → Buffered hdr old position n from first count
          (copy_into buf'' (position - first * sector_size) (take n from))
  copied-Buffered buf buf' buf'' some_byte enough size one two =
      let at : ℕ = position - first * sector_size in
      let len : length (take n from) ≡ n = length-take n from enough in
      let whole : length buf'' ≡ count * sector_size = two.size ∙ one.size ∙ size in
      record {
        size = length-copy_into buf'' at (take n from) 0 (omega (arith, len, whole)) ∙ whole;
        inside = λ j lt.
            get_or-copy_into_in buf'' at (take n from) 0 j (omega (arith, whole))
              (omega (arith, len))
            ∙ get_or-take n from j 0 lt;
        around = λ p lt in_file out. elim out [
          | inl before ↦
              get_or-copy_into_before buf'' at (take n from) 0 p (omega (arith, whole))
                (omega arith)
              ∙ two.old p (other_sector p some_byte before)
              ∙ first_fresh buf buf' p (before-starts p before) one (omega arith) in_file
          | inr after ↦
              get_or-copy_into_after buf'' at (take n from) 0 p (omega (arith, whole))
                (omega (arith, len))
              ∙ last_fresh buf buf' buf'' p one two some_byte lt in_file after
        ];
      }

Stores-Writes :
    (hdr : FileHeader) (old : List (List ℕ)) (position n : ℕ) (from : List ℕ) (first count : ℕ)
    (buf : List ℕ) (s : SynchDisk)
    → IsFile hdr
    → first * sector_size ≤ position
    → position + n ≤ (first + count) * sector_size
    → ((j : ℕ) → j < count → (first + j) * sector_size < hdr.num_bytes)
    → Buffered hdr old position n from first count buf
    → Stores hdr old count first buf s
    → Writes hdr old position n from (n, s)
Stores-Writes hdr old position n from first count buf s file begin end inside b st =
    let fb : ℕ → ℕ = file_byte hdr s.disk.sectors in
    record {
      count = refl;
      ready = st.ready;
      written = λ j lt.
          let p : ℕ = position - first * sector_size + j in
          ap fb {x = position + j} {y = first * sector_size + p} (omega arith)
          ∙ st.bytes p (omega arith)
          ∙ b.inside j lt;
      kept = λ i lt out. elim (dec_lt i (first * sector_size)) [
        | yes before ↦ far i lt (λ j l. omega arith)
        | no later ↦ elim (dec_lt i ((first + count) * sector_size)) [
          | yes near ↦
              let p : ℕ = i - first * sector_size in
              let e : first * sector_size + p ≡ i = omega arith in
              ap fb (sym e)
              ∙ st.bytes p (omega arith)
              ∙ b.around p (omega arith) (omega arith) (omega arith)
              ∙ ap (file_byte hdr old) e
          | no after ↦ far i lt (λ j l. omega arith)
        ]
      ];
      spared = λ k other. st.same k (λ j l. other (first + j) (inside j l));
    }
  where
    far :
        (i : ℕ)
        → i < hdr.num_bytes
        → ((j : ℕ) → j < count → first + j ≢ i / sector_size)
        → file_byte hdr s.disk.sectors i ≡ file_byte hdr old i
    far i lt other =
        ap (λ b. get_or b (i % sector_size) 0)
          (st.same (sector_of hdr (i / sector_size)) (λ j l.
            file.apart (first + j) (i / sector_size) (inside j l) (omega arith) (other j l)))

module _ (resume : ℕ → ℕ) (memory : ℕ → List ℕ) (hdr : FileHeader) where
  write_span-Writes :
      (from : List ℕ) (n position : ℕ) (s : SynchDisk)
      → ((k : ℕ) → length (memory k) ≡ k)
      → IsFile hdr
      → IsReady s
      → 0 < n
      → n ≤ length from
      → position + n ≤ hdr.num_bytes
      → position + n + 2 * sector_size ≤ 2 ^ 31
      → Succeeds
          (Writes hdr s.disk.sectors position n from)
          (write_span resume hdr memory from n position s)
  unfolding write_span
  write_span-Writes from n position s sized file ready some_byte enough end small =
      let old : List (List ℕ) = s.disk.sectors in
      let first : ℕ = position / sector_size in
      let last : ℕ = (position + n - 1) / sector_size in
      let count : ℕ = 1 + last - first in
      let buf : List ℕ = memory (count * sector_size) in
      let size : length buf ≡ count * sector_size = sized (count * sector_size) in
      let starts : Bool = position == first * sector_size in
      let reread : Bool =
        not (position + n == (last + 1) * sector_size) && (not (first == last) || starts) in
      rw
        (
          int_of_lem (count * sector_size) (omega arith),
          int_of_lem ((last + 1) * sector_size) (omega arith),
        )
        (Succeeds->>=
          (read_in-Fills resume hdr file (not starts) first 0 buf s ready (omega (arith, size))
            (omega arith))
          λ r (one, (ready', same)).
            Succeeds->>=
              (read_in-Fills resume hdr file reread last ((last - first) * sector_size) r.0 r.1
                ready' (omega (arith, size, one.size)) (omega arith))
              λ r' (two, (ready'', same')).
                let full : List ℕ = copy_into r'.0 (position - first * sector_size) (take n from) in
                let b : Buffered hdr old position n from first count full =
                  copied-Buffered hdr old position n from buf r.0 r'.0 some_byte enough size one (
                    subst (λ t. Fills hdr t reread last ((last - first) * sector_size) r.0 r'.0)
                      same two) in
                Succeeds->>=
                  (write_from-Stores resume hdr file count first full r'.1 ready''
                    (λ j l. omega arith) b.size)
                  λ r'' st. succeeds (
                    Stores-Writes hdr old position n from first count full r'' file (omega arith)
                      (omega arith) (λ j l. omega arith) b
                      (subst (λ t. Stores hdr t count first full r'') (same' ∙ same) st)))

  -- For a header whose sectors are on the disk and distinct, a disk whose sectors have their size
  -- and that has no request under way, a source with enough bytes, a new buffer of any content,
  -- and a position and a number of bytes whose sum is at most 2^31 - 256, WriteAt succeeds,
  -- returns the number of bytes that the file has room for, puts them at the position, leaves
  -- every other byte of the file and every sector that is not the file's.
  pub write_at-Writes :
      (from : List ℕ) (num_bytes position : ℕ) (s : SynchDisk)
      → position + num_bytes + 2 * sector_size ≤ 2 ^ 31
      → ((k : ℕ) → length (memory k) ≡ k)
      → IsFile hdr
      → IsReady s
      → available hdr num_bytes position ≤ length from
      → Succeeds
          (Writes hdr s.disk.sectors position (available hdr num_bytes position) from)
          (write_at resume hdr memory from num_bytes position s)
  unfolding write_at
  write_at-Writes from num_bytes position s small sized file ready enough =
      elim (Bool-cases (is_refused hdr num_bytes position)) [
        | inl refused ↦
            rw (refused, available-refused hdr num_bytes position refused)
              (succeeds (record {
                count = refl;
                ready = ready;
                written = λ j lt. absurd (omega arith);
                kept = λ i lt out. refl;
                spared = λ k other. refl;
              }))
        | inr go ↦
            let (e, some_byte, end) = clip-available hdr num_bytes position (omega arith) go in
            rw (go, e)
              (write_span-Writes from (available hdr num_bytes position) position s sized file ready
                some_byte enough end (omega arith))
      ]
