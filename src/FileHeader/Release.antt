-- ===== src/FileHeader/Release.antt =====
-- FileHeader::Deallocate of code/filesys/filehdr.cc.
use my_nachos.Shared.{
  ℕ, zero, suc, ◌+◌, ◌≤◌, ◌<◌, ◌≡◌, ◌≢◌, ◌∙◌, refl, Bool, true, false, List, ◌==◌, if◌then◌else◌,
  get_or, get_elem?, get_elem?-eq-get_or, length, Result, ok, arith, some, Bool-cases, inl, inr,
}
use my_nachos.BitMap.{BitMap}
use my_nachos.BitMap.Bits.{IsWellFormed, used, used-lt, Sets, test_lem, clear_lem}
use my_nachos.FileHeader.{FileHeader, num_direct, deallocate_from, deallocate, allocate}
use my_nachos.FileHeader.Allocation.{
  owned, owned_free, owned_entry, Takes, Allocates, no_space, allocated, overrun,
  allocate-Allocates,
}

-- The first `k` entries are distinct sectors of the map.
pub record AreSectors (m : BitMap) (sectors : List ℕ) (k : ℕ) : Type 0 where
  pub well_formed : IsWellFormed m
  pub table : k ≤ length sectors
  pub in_map : (i : ℕ) → i < k → get_or sectors i 0 < m.num_bits
  pub distinct : (i j : ℕ) → i < j → j < k → get_or sectors i 0 ≢ get_or sectors j 0

-- The map after the first `i` of them have gone back.
pub record Returned (m : BitMap) (sectors : List ℕ) (i : ℕ) (m' : BitMap) : Type 0 where
  pub well_formed : IsWellFormed m'
  pub same_size : m'.num_bits ≡ m.num_bits
  pub clears : (j : ℕ) → used m' j ≡ (if owned sectors i j then 0 else used m j)

not_yet :
    (sectors : List ℕ) (i k x : ℕ)
    → i ≤ k
    → ((j : ℕ) → j < i → get_or sectors j 0 ≢ x)
    → owned sectors i x ≡ false
unfolding owned
not_yet sectors zero k x h d = refl
not_yet sectors (suc i) k x h d =
    ground (arith, d i, not_yet sectors i k x (omega arith) (λ j l. d j (omega arith)))

module _ (m : BitMap) (sectors : List ℕ) (k : ℕ) (a : AreSectors m sectors k) where
  module _ (i : ℕ) (m1 : BitMap) (r : Returned m sectors i m1) (h : i < k) where
    read_entry : get_elem? sectors i ≡ some (get_or sectors i 0)
    read_entry = get_elem?-eq-get_or sectors i 0 (omega (arith, a.table))

    in_map1 : get_or sectors i 0 < m1.num_bits
    in_map1 = omega (arith, a.in_map i h, r.same_size)

    same_bit : used m1 (get_or sectors i 0) ≡ used m (get_or sectors i 0)
    same_bit = ground (
      arith,
      r.clears (get_or sectors i 0),
      not_yet sectors i k (get_or sectors i 0) (omega arith) (λ j l. a.distinct j i l h),
    )

    Returned-next :
        (m2 : BitMap) → Sets m1 (get_or sectors i 0) 0 m2 → Returned m sectors (suc i) m2
    Returned-next m2 s = record {
      well_formed = s.well_formed;
      same_size = s.same_size ∙ r.same_size;
      clears = λ j. unfold owned in ground (arith, s.bits j, r.clears j);
    }

  deallocate_from_lem :
      (n i : ℕ) (m1 : BitMap)
      → i + n ≡ k
      → ((j : ℕ) → j < k → used m (get_or sectors j 0) ≡ 1)
      → Returned m sectors i m1
      → (m' : BitMap) × (deallocate_from n i sectors m1 ≡ ok m') × Returned m sectors k m'
  unfolding deallocate_from
  deallocate_from_lem zero i m1 e marked r = (m1, refl, (let e' : k ≡ i = omega arith in rw e' r))
  deallocate_from_lem (suc n) i m1 e marked r =
      let (m2, done, s) =
        clear_lem m1 (get_or sectors i 0) r.well_formed (in_map1 i m1 r (omega arith)) in
      let (m', rest, r') =
        deallocate_from_lem n (suc i) m2 (omega arith) marked
          (Returned-next i m1 r (omega arith) m2 s) in
      (
        m',
        rw
            (
              read_entry i m1 r (omega arith),
              test_lem m1 (get_or sectors i 0) r.well_formed (in_map1 i m1 r (omega arith)),
              same_bit i m1 r (omega arith),
              marked i (omega arith),
              done,
            )
            rest,
        r',
      )

Returned-none : (m : BitMap) (sectors : List ℕ) → IsWellFormed m → Returned m sectors 0 m
unfolding owned
Returned-none m sectors w = record { well_formed = w; same_size = refl; clears = λ j. refl }

-- If the sectors of a header are distinct sectors of a well-formed map and all are marked,
-- Deallocate passes its assertions, clears exactly their bits and leaves the map well-formed.
pub deallocate-Returned :
    (hdr : FileHeader) (m : BitMap)
    → AreSectors m hdr.data_sectors hdr.num_sectors
    → ((j : ℕ) → j < hdr.num_sectors → used m (get_or hdr.data_sectors j 0) ≡ 1)
    → (m' : BitMap) × (deallocate hdr m ≡ ok m') × Returned m hdr.data_sectors hdr.num_sectors m'
unfolding deallocate
deallocate-Returned hdr m a marked =
    deallocate_from_lem m hdr.data_sectors hdr.num_sectors a hdr.num_sectors 0 m (omega arith)
      marked (Returned-none m hdr.data_sectors a.well_formed)

Takes-AreSectors :
    (m m' : BitMap) (sectors : List ℕ) (k : ℕ)
    → k ≤ num_direct
    → Takes m sectors k m'
    → AreSectors m' sectors k
Takes-AreSectors m m' sectors k h t = record {
  well_formed = t.well_formed;
  table = omega (arith, t.table);
  in_map = λ i l. omega (arith, t.in_map i l, t.same_size);
  distinct = t.distinct;
}

restore :
    (hdr : FileHeader) (m m' : BitMap)
    → hdr.num_sectors ≤ num_direct
    → Takes m hdr.data_sectors hdr.num_sectors m'
    → (m'' : BitMap) × (deallocate hdr m' ≡ ok m'') × ((j : ℕ) → used m'' j ≡ used m j)
restore hdr m m' h t =
    let (m'', run, r) =
      deallocate-Returned hdr m' (Takes-AreSectors m m' hdr.data_sectors hdr.num_sectors h t)
        (λ j l. ground (
          arith,
          t.marks (get_or hdr.data_sectors j 0),
          owned_entry hdr.data_sectors hdr.num_sectors j l,
        )) in
    (
      m'',
      run,
      λ j. elim (Bool-cases (used m j == 1)) [
        | inl one ↦
            ground (
              arith,
              r.clears j,
              t.marks j,
              owned_free hdr.data_sectors hdr.num_sectors j m t.fresh,
            )
        | inr zero_bit ↦ ground (arith, r.clears j, t.marks j, used-lt m j)
      ],
    )

-- After an Allocate that returned TRUE on a well-formed map, Deallocate with the new header
-- succeeds, and every bit of the map is as it was before the file took its sectors.
pub deallocate-allocate :
    (hdr hdr' : FileHeader) (m m' : BitMap) (size : ℕ)
    → IsWellFormed m
    → length hdr.data_sectors ≡ num_direct
    → allocate hdr m size ≡ ok (true, hdr', m')
    → (m'' : BitMap) × (deallocate hdr' m' ≡ ok m'') × ((j : ℕ) → used m'' j ≡ used m j)
deallocate-allocate hdr hdr' m m' size w e run =
    go (allocate hdr m size) refl (allocate-Allocates hdr m size w e)
  where
    go :
        (r : Result (Bool × FileHeader × BitMap))
        → allocate hdr m size ≡ r
        → Allocates hdr m size r
        → (m'' : BitMap) × (deallocate hdr' m' ≡ ok m'') × ((j : ℕ) → used m'' j ≡ used m j)
    go r q (no_space h short) = absurd (cc)
    go r q (overrun h big) = absurd (cc)
    go r q (allocated h n enough fits size_is sectors_are t) =
        let eh : h ≡ hdr' = cc in
        let en : n ≡ m' = cc in rw (← eh, ← en) (restore h m n (omega arith) (rw sectors_are t))
