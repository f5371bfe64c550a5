-- ===== src/Tests/Storage.antt =====
-- Runs of code/userprog/bitmap.cc and code/filesys/filehdr.cc.
use my_nachos.Shared.{
  ℕ, zero, suc, ◌≢◌, ◌<◌, ◌≡◌, refl, Bool, true, List, [], ◌∷◌, get_or, replicate, none, some,
  Result, ok, stop, Stop, arith,
}
use my_nachos.BitMap.{BitMap, mark, clear, test, find, num_clear, new_bit_map}
use my_nachos.BitMap.Bits.{IsWellFormed, used, new_bit_map_lem}
use my_nachos.BitMap.Search.{Finds, find-Finds, free_below, num_clear_lem}
use my_nachos.FileHeader.{FileHeader, allocate, deallocate}
use my_nachos.FileHeader.Allocation.{Allocates, allocate-Allocates}
use my_nachos.FileHeader.Release.{AreSectors, Returned, deallocate-Returned, deallocate-allocate}

-- Forty sectors, of which the first eight are in use.
abbrev disk_map : BitMap
disk_map = record { num_bits = 40; num_words = 2; map = 0xff ∷ 0 ∷ [] }

disk_map-IsWellFormed : IsWellFormed disk_map
disk_map-IsWellFormed = record { words = refl; stored = refl }

find_run : find disk_map ≡ ok (some 8, record disk_map { map = 0x1ff ∷ 0 ∷ [] })
unfolding find test mark
find_run = refl

mark_again : mark disk_map 3 ≡ ok disk_map
unfolding mark
mark_again = refl

clear_run : clear disk_map 0 ≡ ok (record disk_map { map = 0xfe ∷ 0 ∷ [] })
unfolding clear
clear_run = refl

test_outside : test disk_map 40 ≡ stop Stop.assert_failed
unfolding test
test_outside = refl

new_bit_map_run :
    new_bit_map (5 ∷ 7 ∷ []) 33 ≡ ok (record { num_bits = 33; num_words = 2; map = 0 ∷ 6 ∷ [] })
unfolding new_bit_map clear
new_bit_map_run = refl

find-Finds_example : Finds disk_map 0 (find disk_map)
find-Finds_example = find-Finds disk_map disk_map-IsWellFormed

num_clear_lem_example : num_clear disk_map ≡ ok (free_below disk_map 40)
num_clear_lem_example = num_clear_lem disk_map disk_map-IsWellFormed

abbrev empty_header : FileHeader
empty_header = record { num_bytes = 0; num_sectors = 0; data_sectors = replicate 30 0 }

abbrev two_sectors : FileHeader
two_sectors = record { num_bytes = 200; num_sectors = 2; data_sectors = 8 ∷ 9 ∷ replicate 28 0 }

abbrev after_two : BitMap
after_two = record disk_map { map = 0x3ff ∷ 0 ∷ [] }

allocate_run : allocate empty_header disk_map 200 ≡ ok (true, two_sectors, after_two)
unfolding allocate num_clear test find mark
allocate_run = refl

-- Thirty-one sectors do not fit into the table of a header.
allocate_overrun : allocate empty_header disk_map 3841 ≡ stop Stop.out_of_range
unfolding allocate num_clear test find mark
allocate_overrun = refl

allocate-Allocates_example :
    Allocates empty_header disk_map 200 (allocate empty_header disk_map 200)
allocate-Allocates_example = allocate-Allocates empty_header disk_map 200 disk_map-IsWellFormed refl

deallocate-allocate_example :
    (m : BitMap) × (deallocate two_sectors after_two ≡ ok m)
    × ((j : ℕ) → used m j ≡ used disk_map j)
deallocate-allocate_example =
    deallocate-allocate empty_header two_sectors disk_map after_two 200 disk_map-IsWellFormed refl
      allocate_run

two_sectors-AreSectors : AreSectors after_two two_sectors.data_sectors 2
two_sectors-AreSectors = record {
  well_formed = record { words = refl; stored = refl };
  table = omega arith;
  in_map = in_map;
  distinct = distinct;
}
  where
    in_map : (i : ℕ) → i < 2 → get_or two_sectors.data_sectors i 0 < 40
    in_map zero h = omega arith
    in_map (suc zero) h = omega arith
    in_map (suc (suc i)) h = absurd (omega arith)

    distinct :
        (i j : ℕ)
        → i < j
        → j < 2
        → get_or two_sectors.data_sectors i 0 ≢ get_or two_sectors.data_sectors j 0
    distinct i zero l h e = absurd (omega arith)
    distinct zero (suc zero) l h e = omega arith
    distinct (suc i) (suc zero) l h e = absurd (omega arith)
    distinct i (suc (suc j)) l h e = absurd (omega arith)

two_sectors_marked : (j : ℕ) → j < 2 → used after_two (get_or two_sectors.data_sectors j 0) ≡ 1
unfolding used my_nachos.Shared.Bits.bit_at
two_sectors_marked zero h = refl
two_sectors_marked (suc zero) h = refl
two_sectors_marked (suc (suc j)) h = absurd (omega arith)

deallocate-Returned_example :
    (m : BitMap) × (deallocate two_sectors after_two ≡ ok m)
    × Returned after_two two_sectors.data_sectors 2 m
deallocate-Returned_example =
    deallocate-Returned two_sectors after_two two_sectors-AreSectors two_sectors_marked

new_bit_map_lem_example :
    (m : BitMap) × (new_bit_map (5 ∷ 7 ∷ []) 33 ≡ ok m)
    × IsWellFormed m
    × (m.num_bits ≡ 33)
    × ((j : ℕ) → j < 33 → used m j ≡ 0)
new_bit_map_lem_example = new_bit_map_lem (5 ∷ 7 ∷ []) 33 refl
