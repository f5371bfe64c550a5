-- ===== src/FileHeader/Allocation.antt =====
-- FileHeader::Allocate of code/filesys/filehdr.cc: which sectors a file takes from the free map.
use my_nachos.Shared.{
  ℕ, zero, suc, ◌+◌, ◌≤◌, ◌<◌, ◌≡◌, ◌≢◌, refl, Bool, true, false, ◌||◌, List, ◌==◌, ltb,
  if◌then◌else◌, ap, Stop, stop, Option, some, subst, lt→ltb, get_or, set, length, Result, ok,
  arith, ℕ_discrete, dec_lt, get_or-set_ne, get_or-set_self, length-set, ◌∙◌,
}
use my_nachos.BitMap.{BitMap, div_round_up, find}
use my_nachos.BitMap.Bits.{IsWellFormed, used, Sets}
use my_nachos.BitMap.Search.{
  Finds, full, found, find-Finds, num_clear_lem, free_below, free_below_full, free_below-Sets,
}
use my_nachos.FileHeader.{FileHeader, num_direct, allocate_from, allocate, sector_size}

-- Is `j` among the first `k` entries?
unfoldable pub owned : List ℕ → ℕ → ℕ → Bool
owned sectors zero j = false
owned sectors (suc k) j = get_or sectors k 0 == j || owned sectors k j

-- The first `k` entries were free in `m`, are distinct, and are all that `m'` marks besides.
pub record Takes (m : BitMap) (sectors : List ℕ) (k : ℕ) (m' : BitMap) : Type 0 where
  pub well_formed : IsWellFormed m'
  pub same_size : m'.num_bits ≡ m.num_bits
  pub marks : (j : ℕ) → used m' j ≡ (if owned sectors k j then 1 else used m j)
  pub in_map : (i : ℕ) → i < k → get_or sectors i 0 < m.num_bits
  pub fresh : (i : ℕ) → i < k → used m (get_or sectors i 0) ≡ 0
  pub distinct : (i j : ℕ) → i < j → j < k → get_or sectors i 0 ≢ get_or sectors j 0
  pub left : free_below m' m.num_bits + k ≡ free_below m m.num_bits
  pub table : length sectors ≡ num_direct

owned-set :
    (sectors : List ℕ) (i x k j : ℕ) → k ≤ i → owned (set sectors i x) k j ≡ owned sectors k j
unfolding owned
owned-set sectors i x zero j h = refl
owned-set sectors i x (suc k) j h =
    rw (get_or-set_ne sectors i k x 0 (λ e. omega arith), owned-set sectors i x k j (omega arith))

pub owned_entry : (sectors : List ℕ) (k i : ℕ) → i < k → owned sectors k (get_or sectors i 0) ≡ true
unfolding owned
owned_entry sectors zero i h = absurd (omega arith)
owned_entry sectors (suc k) i h = elim (ℕ_discrete i k) [
  | yes e ↦ rw e (ground arith)
  | no ne ↦ rw (owned_entry sectors k i (omega arith)) (ground arith)
]

pub owned_free :
    (sectors : List ℕ) (k j : ℕ) (m : BitMap)
    → ((i : ℕ) → i < k → used m (get_or sectors i 0) ≡ 0)
    → used m j ≡ 1
    → owned sectors k j ≡ false
unfolding owned
owned_free sectors zero j m f u = refl
owned_free sectors (suc k) j m f u =
    ground (arith, owned_free sectors k j m (λ i h. f i (omega arith)) u, f k)

module _ (m m1 m2 : BitMap) (sectors : List ℕ) (i x : ℕ) (t : Takes m sectors i m1)
    (room : i < num_direct) (inside : x < m1.num_bits) (free : used m1 x ≡ 0)
    (s : Sets m1 x 1 m2) where
  entry_self : get_or (set sectors i x) i 0 ≡ x
  entry_self = get_or-set_self sectors i x 0 (omega (arith, t.table))

  entry_old : (j : ℕ) → j < i → get_or (set sectors i x) j 0 ≡ get_or sectors j 0
  entry_old j h = get_or-set_ne sectors i j x 0 (λ e. omega arith)

  not_owned : owned sectors i x ≡ false
  not_owned = ground (arith, t.marks x)

  Takes-next : Takes m (set sectors i x) (suc i) m2
  Takes-next = record {
    well_formed = s.well_formed;
    same_size = s.same_size ∙ t.same_size;
    marks = λ j.
        unfold owned in
        rw (entry_self, owned-set sectors i x i j (omega arith))
          (ground (arith, s.bits j, t.marks j));
    in_map = λ j h. elim (ℕ_discrete j i) [
      | yes e ↦ rw (e, entry_self) (omega (arith, t.same_size))
      | no ne ↦ rw (entry_old j (omega arith)) (t.in_map j (omega arith))
    ];
    fresh = λ j h. elim (ℕ_discrete j i) [
      | yes e ↦ rw (e, entry_self) (ground (arith, t.marks x, not_owned))
      | no ne ↦ rw (entry_old j (omega arith)) (t.fresh j (omega arith))
    ];
    distinct = λ a b lt h. elim (ℕ_discrete b i) [
      | yes e ↦
          rw (e, entry_self, entry_old a (omega arith))
            (λ q.
              ground (arith, t.marks (get_or sectors a 0), owned_entry sectors i a (omega arith)))
      | no ne ↦
          rw (entry_old a (omega arith), entry_old b (omega arith))
            (t.distinct a b lt (omega arith))
    ];
    left =
        ground (arith, t.left, free_below-Sets m1 m2 x 1 m.num_bits (omega arith) s, t.same_size);
    table = length-set sectors i x ∙ t.table;
  }

-- Find succeeds where a bit is clear.
find-some :
    (m : BitMap)
    → IsWellFormed m
    → 0 < free_below m m.num_bits
    → (k : ℕ) × (m' : BitMap) × (find m ≡ ok (some k, m'))
      × (k < m.num_bits)
      × (used m k ≡ 0)
      × Sets m k 1 m'
find-some m w room = go (find m) refl (find-Finds m w)
  where
    go :
        (r : Result (Option ℕ × BitMap))
        → find m ≡ r
        → Finds m 0 r
        → (k : ℕ) × (m' : BitMap) × (find m ≡ ok (some k, m'))
          × (k < m.num_bits)
          × (used m k ≡ 0)
          × Sets m k 1 m'
    go r e (full all) =
        absurd (omega (arith, free_below_full m m.num_bits (λ j lt. all j (omega arith) lt)))
    go r e (found k m' lo hi free below s) = (k, m', e, hi, free, s)

allocate_from_lem :
    (n i k : ℕ) (m m1 : BitMap) (sectors : List ℕ)
    → i + n ≡ k
    → k ≤ num_direct
    → n ≤ free_below m1 m1.num_bits
    → Takes m sectors i m1
    → (sectors' : List ℕ) × (m' : BitMap) × (allocate_from n i sectors m1 ≡ ok (sectors', m'))
      × Takes m sectors' k m'
unfolding allocate_from
allocate_from_lem zero i k m m1 sectors e room enough t =
    (sectors, m1, refl, subst (λ c. Takes m sectors c m1) (let e' : i ≡ k = omega arith in e') t)
allocate_from_lem (suc n) i k m m1 sectors e room enough t =
    let (x, m2, step, inside, free, s) = find-some m1 t.well_formed (omega arith) in
    let next = Takes-next m m1 m2 sectors i x t (omega arith) inside free s in
    let (sectors', m', rest, done) =
      allocate_from_lem n (suc i) k m m2 (set sectors i x) (omega arith) room
        (omega (
          arith,
          next.left,
          next.same_size,
          t.left,
          t.same_size,
          ap (free_below m1) t.same_size,
          ap (free_below m2) next.same_size,
        ))
        next in
    (sectors', m', rw (step, lt→ltb i (length sectors) (omega (arith, t.table))) rest, done)

-- More sectors than the table holds: the write past its end.
allocate_from_overrun :
    (n i : ℕ) (m m1 : BitMap) (sectors : List ℕ)
    → i ≤ num_direct
    → num_direct < i + n
    → n ≤ free_below m1 m1.num_bits
    → Takes m sectors i m1
    → allocate_from n i sectors m1 ≡ stop Stop.out_of_range
unfolding allocate_from
allocate_from_overrun zero i m m1 sectors low high enough t = absurd (omega arith)
allocate_from_overrun (suc n) i m m1 sectors low high enough t =
    let (x, m2, step, inside, free, s) = find-some m1 t.well_formed (omega arith) in
    elim (dec_lt i num_direct) [
      | yes room ↦
          let next = Takes-next m m1 m2 sectors i x t room inside free s in
          rw (step, lt→ltb i (length sectors) (omega (arith, t.table)))
            (allocate_from_overrun n (suc i) m m2 (set sectors i x) room (omega arith)
              (omega (
                arith,
                next.left,
                next.same_size,
                t.left,
                t.same_size,
                ap (free_below m1) t.same_size,
                ap (free_below m2) next.same_size,
              ))
              next)
      | no past ↦ rw step (ground (arith, t.table))
    ]

abbrev pub sectors_needed : ℕ → ℕ
sectors_needed file_size = div_round_up file_size sector_size

-- Every outcome of Allocate on a map with `free` clear bits.
pub data Allocates (hdr : FileHeader) (m : BitMap) (size : ℕ)
    : Result (Bool × FileHeader × BitMap) → Type 0 where
  no_space :
      (hdr' : FileHeader)
      → free_below m m.num_bits < sectors_needed size
      → Allocates hdr m size (ok (false, hdr', m))
  allocated :
      (hdr' : FileHeader) (m' : BitMap)
      → sectors_needed size ≤ free_below m m.num_bits
      → sectors_needed size ≤ num_direct
      → hdr'.num_bytes ≡ size
      → hdr'.num_sectors ≡ sectors_needed size
      → Takes m hdr'.data_sectors (sectors_needed size) m'
      → Allocates hdr m size (ok (true, hdr', m'))
  overrun :
      sectors_needed size ≤ free_below m m.num_bits
      → num_direct < sectors_needed size
      → Allocates hdr m size (stop Stop.out_of_range)

Takes-none :
    (m : BitMap) (sectors : List ℕ)
    → IsWellFormed m
    → length sectors ≡ num_direct
    → Takes m sectors 0 m
unfolding owned
Takes-none m sectors w e = record {
  well_formed = w;
  same_size = refl;
  marks = λ j. refl;
  in_map = λ i h. absurd (omega arith);
  fresh = λ i h. absurd (omega arith);
  distinct = λ i j l h. absurd (omega arith);
  left = omega arith;
  table = e;
}

-- On a well-formed free map and a header with a table of NumDirect sectors, Allocate returns FALSE
-- and leaves the map exactly when fewer sectors are free than the file needs; if they are there
-- and the table holds them, it records the size, and the sectors it takes are distinct, were free,
-- are in the map, and are all that it marks; if the table is too short for the file it writes past
-- its end.
pub allocate-Allocates :
    (hdr : FileHeader) (m : BitMap) (size : ℕ)
    → IsWellFormed m
    → length hdr.data_sectors ≡ num_direct
    → Allocates hdr m size (allocate hdr m size)
unfolding allocate
allocate-Allocates hdr m size w e = elim (dec_lt (free_below m m.num_bits) (sectors_needed size)) [
  | yes short ↦ rw (num_clear_lem m w, lt→ltb _ _ short) (no_space _ short)
  | no enough ↦
      let first = Takes-none m hdr.data_sectors w e in
      let go_on : ltb (free_below m m.num_bits) (sectors_needed size) ≡ false = ground arith in
      elim (dec_lt num_direct (sectors_needed size)) [
        | yes big ↦
            rw
              (
                num_clear_lem m w,
                go_on,
                allocate_from_overrun (sectors_needed size) 0 m m hdr.data_sectors (omega arith)
                    (omega arith) (omega arith) first,
              )
              (overrun (omega arith) big)
        | no fits ↦
            let (sectors', m', run, t) =
              allocate_from_lem (sectors_needed size) 0 (sectors_needed size) m m hdr.data_sectors
                (omega arith) (omega arith) (omega arith) first in
            rw (num_clear_lem m w, go_on, run)
              (allocated _ m' (omega arith) (omega arith) refl refl t)
      ]
]
