-- ===== src/Directory/Entries.antt =====
-- What fits a DirectoryEntry of code/filesys/directory.h, and that Directory::Add keeps it so.
use my_nachos.Shared.{Bool, false, zero, suc, set, elem, IfOk, IfOk->>=}
use my_nachos.Shared.{
  ℕ, ◌^◌, ◌<◌, ◌≡◌, some, List, [], ◌∷◌, length, arith, Bool-cases, Option-cases, inl, inr, true,
}
use my_nachos.Directory.{
  DirectoryEntry, Directory, strncpy, length-strncpy, file_name_max_len, add_in, add, remove,
  find_index,
}

-- The pattern of an integer, and a name of `FileNameMaxLen + 1` bytes.
abbrev pub IsEntry : DirectoryEntry → Type 0
IsEntry e = (e.sector < 2 ^ 32) × (length e.name ≡ 10)

abbrev pub AreEntries : List DirectoryEntry → Type 0
AreEntries [] = Unit {0}
AreEntries (e ∷ es) = IsEntry e × AreEntries es

add_in-AreEntries :
    (es : List DirectoryEntry) (name : List ℕ) (sector : ℕ) (es' : List DirectoryEntry)
    → sector < 2 ^ 32
    → AreEntries es
    → add_in es name sector ≡ some es'
    → AreEntries es'
unfolding add_in
add_in-AreEntries [] name sector es' h a e = absurd (cc)
add_in-AreEntries (d ∷ ds) name sector es' h (a, rest) e = elim (Bool-cases d.in_use) [
  | inl taken ↦ elim (Option-cases (add_in ds name sector)) [
    | inl full ↦ absurd (ground arith)
    | inr (new, filled) ↦
        let result : es' ≡ d ∷ new = ground arith in
        rw result (a, add_in-AreEntries ds name sector new h rest filled)
  ]
  | inr free ↦
      let new : DirectoryEntry = record {
        in_use = true;
        sector = sector;
        name = strncpy file_name_max_len name d.name;
      } in
      let result : es' ≡ new ∷ ds = ground arith in
      rw result ((h, omega (arith, length-strncpy 9 name d.name, a.1)), rest)
]

pub add-AreEntries :
    (dir : Directory) (name : List ℕ) (sector : ℕ) (dir' : Directory)
    → sector < 2 ^ 32
    → AreEntries dir.table
    → add dir name sector ≡ (true, dir')
    → AreEntries dir'.table
unfolding add
add-AreEntries dir name sector dir' h a e = elim (Option-cases (find_index dir name)) [
  | inr (i, there) ↦ absurd (ground arith)
  | inl absent ↦ elim (Option-cases (add_in dir.table name sector)) [
    | inl full ↦ absurd (ground arith)
    | inr (table, filled) ↦
        let result : dir'.table ≡ table = ground arith in
        rw result (add_in-AreEntries dir.table name sector table h a filled)
  ]
]

AreEntries-set :
    (es : List DirectoryEntry) (i : ℕ) (e : DirectoryEntry)
    → IsEntry e
    → AreEntries es
    → AreEntries (set es i e)
AreEntries-set [] i e h a = tt
AreEntries-set (d ∷ ds) zero e h a = (h, a.1)
AreEntries-set (d ∷ ds) (suc i) e h a = (a.0, AreEntries-set ds i e h a.1)

elem-IsEntry : (es : List DirectoryEntry) (i : ℕ) → AreEntries es → IfOk IsEntry (elem es i)
elem-IsEntry [] i a = tt
elem-IsEntry (d ∷ ds) zero a = a.0
elem-IsEntry (d ∷ ds) (suc i) a = elem-IsEntry ds i a.1

-- What Remove gives fits too.
pub remove-AreEntries :
    (dir : Directory) (name : List ℕ)
    → AreEntries dir.table
    → IfOk (λ (r : Bool × Directory). AreEntries r.1.table) (remove dir name)
unfolding remove
remove-AreEntries dir name a = elim (Option-cases (find_index dir name)) [
  | inl absent ↦ rw (absent, IfOk, remove) a
  | inr (i, there) ↦
      rw (there, IfOk, remove)
        (IfOk->>= IsEntry (λ (r : Bool × Directory). AreEntries r.1.table) (elem dir.table i) _
          (elem-IsEntry dir.table i a)
          λ e h. AreEntries-set dir.table i (record e { in_use = false }) h a)
]
