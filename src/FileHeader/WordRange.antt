-- ===== src/FileHeader/WordRange.antt =====
-- The header that Allocate of code/filesys/filehdr.cc fills is made of 32-bit words, and so is the map.
use my_nachos.Shared.{elem, assert}
use my_nachos.Shared.{
  ℕ, zero, suc, ◌^◌, ◌<◌, Bool, Option, none, some, List, ltb, length, put, arith, IfOk, IfOk->>=,
  Bool-cases, inl, inr,
}
use my_nachos.BitMap.{test, clear, BitMap, find, num_clear, div_round_up}
use my_nachos.BitMap.WordRange.{
  clear-Fits, AreWords, AreWords-set, Fits, IsBit, Found, find-Found, any-IfOk,
}
use my_nachos.FileHeader.{
  FileHeader, sector_int, allocate_from, allocate, deallocate_from, deallocate, sector_size,
}

sector_int-word : (k : Option ℕ) → IsBit k → sector_int k < 2 ^ 32
sector_int-word none h = omega arith
sector_int-word (some k) h = h

put-AreWords : (ws : List ℕ) (i v : ℕ) → v < 2 ^ 32 → AreWords ws → IfOk AreWords (put ws i v)
put-AreWords ws i v h a = elim (Bool-cases (ltb i (length ws))) [
  | inl inside ↦ rw inside (AreWords-set ws i v h a)
  | inr outside ↦ rw outside tt
]

allocate_from-Fits :
    (n i : ℕ) (sectors : List ℕ) (m : BitMap)
    → AreWords sectors
    → Fits m
    → IfOk (λ (r : List ℕ × BitMap). AreWords r.0 × Fits r.1) (allocate_from n i sectors m)
unfolding allocate_from
allocate_from-Fits zero i sectors m a f = (a, f)
allocate_from-Fits (suc n) i sectors m a f =
    IfOk->>= Found _ (find m) _ (find-Found m f) λ r (bit, fits).
      IfOk->>= AreWords _ (put sectors i (sector_int r.0)) _
        (put-AreWords sectors i (sector_int r.0) (sector_int-word r.0 bit) a)
        λ sectors' a'. allocate_from-Fits n (suc i) sectors' r.1 a' fits

-- What Allocate gives, if it returns.
pub allocate-Fits :
    (hdr : FileHeader) (m : BitMap) (size : ℕ)
    → AreWords hdr.data_sectors
    → Fits m
    → IfOk
        (λ (r : Bool × FileHeader × BitMap). AreWords r.1.data_sectors × Fits r.2)
        (allocate hdr m size)
unfolding allocate
allocate-Fits hdr m size a f =
    let needed : ℕ = div_round_up size sector_size in
    IfOk->>= (λ u. Unit {0}) _ (num_clear m) _ (any-IfOk (num_clear m))
      λ free u. elim (Bool-cases (ltb free needed)) [
        | inl short ↦ rw short (a, f)
        | inr enough ↦ rw enough (
            IfOk->>= (λ (r : List ℕ × BitMap). AreWords r.0 × Fits r.1) _
              (allocate_from needed 0 hdr.data_sectors m) _
              (allocate_from-Fits needed 0 hdr.data_sectors m a f) (λ r kept. kept))
      ]

deallocate_from-Fits :
    (n i : ℕ) (sectors : List ℕ) (m : BitMap) → Fits m → IfOk Fits (deallocate_from n i sectors m)
unfolding deallocate_from
deallocate_from-Fits zero i sectors m f = f
deallocate_from-Fits (suc n) i sectors m f =
    IfOk->>= (λ u. Unit {0}) Fits (elem sectors i) _ (any-IfOk (elem sectors i))
      λ sector u.
        IfOk->>= (λ u. Unit {0}) Fits (test m sector) _ (any-IfOk (test m sector))
          λ marked v.
            IfOk->>= (λ u. Unit {0}) Fits (assert marked) _ (any-IfOk (assert marked))
              λ t w.
                IfOk->>= Fits Fits (clear m sector) _ (clear-Fits m sector f)
                  λ m' f'. deallocate_from-Fits n (suc i) sectors m' f'

pub deallocate-Fits : (hdr : FileHeader) (m : BitMap) → Fits m → IfOk Fits (deallocate hdr m)
unfolding deallocate
deallocate-Fits hdr m f = deallocate_from-Fits hdr.num_sectors 0 hdr.data_sectors m f
