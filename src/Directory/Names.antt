-- ===== src/Directory/Names.antt =====
-- File names as C strings: the bytes before the terminating NUL, which may stand in the list too.
-- `strncmp` and `strncpy` of the C library, as code/filesys/directory.cc uses them.
use my_nachos.Shared.{
  ℕ, zero, suc, ◌≡◌, refl, ◌↔◌, Bool, true, false, ◌||◌, List, [], ◌∷◌, ◌==◌, if◌then◌else◌, arith,
  length, ◌+◌, ◌-◌, Bool-cases, inl, inr,
}

abbrev pub file_name_max_len : ℕ
file_name_max_len = 9

-- `!strncmp(a, b, n)`.
unfoldable pub strncmp_eq : ℕ → List ℕ → List ℕ → Bool
strncmp_eq zero a b = true
strncmp_eq (suc n) [] [] = true
strncmp_eq (suc n) [] (d ∷ ds) = d == 0
strncmp_eq (suc n) (c ∷ cs) [] = c == 0
strncmp_eq (suc n) (c ∷ cs) (d ∷ ds) = if c == d then c == 0 || strncmp_eq n cs ds else false

abbrev rest : List ℕ → List ℕ
rest [] = []
rest (c ∷ cs) = cs

-- `strncpy(dst, src, n)`: pads with NULs, and writes no NUL after `n` characters.
unfoldable pub strncpy : ℕ → List ℕ → List ℕ → List ℕ
strncpy zero src dst = dst
strncpy (suc n) [] dst = 0 ∷ strncpy n [] (rest dst)
strncpy (suc n) (c ∷ cs) dst =
    if c == 0 then 0 ∷ strncpy n [] (rest dst) else c ∷ strncpy n cs (rest dst)

-- The part of a name that counts: what stands before the NUL, and at most `n` characters.
unfoldable pub cut : ℕ → List ℕ → List ℕ
cut zero s = []
cut (suc n) [] = []
cut (suc n) (c ∷ cs) = if c == 0 then [] else c ∷ cut n cs

pub strncmp_iff : (n : ℕ) (a b : List ℕ) → (strncmp_eq n a b ≡ true) ↔ (cut n a ≡ cut n b)
unfolding strncmp_eq cut
strncmp_iff zero a b = (λ h. refl, λ h. refl)
strncmp_iff (suc n) [] [] = (λ h. refl, λ h. refl)
strncmp_iff (suc n) [] (d ∷ ds) = ground arith
strncmp_iff (suc n) (c ∷ cs) [] = ground arith
strncmp_iff (suc n) (c ∷ cs) (d ∷ ds) = ground (arith, strncmp_iff n cs ds)

pub cut-strncpy : (n : ℕ) (src dst : List ℕ) → cut n (strncpy n src dst) ≡ cut n src
unfolding strncpy cut
cut-strncpy zero src dst = refl
cut-strncpy (suc n) [] dst = refl
cut-strncpy (suc n) (c ∷ cs) dst = ground (arith, cut-strncpy n cs (rest dst))

length-rest : (s : List ℕ) → length (rest s) ≡ length s - 1
length-rest [] = omega arith
length-rest (c ∷ cs) = omega arith

pub length-strncpy : (n : ℕ) (src dst : List ℕ) → length (strncpy n src dst) ≡ n + (length dst - n)
unfolding strncpy
length-strncpy zero src dst = omega arith
length-strncpy (suc n) [] dst = omega (arith, length-strncpy n [] (rest dst), length-rest dst)
length-strncpy (suc n) (c ∷ cs) dst = elim (Bool-cases (c == 0)) [
  | inl nul ↦ rw nul (omega (arith, length-strncpy n [] (rest dst), length-rest dst))
  | inr other ↦ rw other (omega (arith, length-strncpy n cs (rest dst), length-rest dst))
]
