-- ===== src/Directory/Operations.antt =====
-- Directory::Add, Remove and the constructor (code/filesys/directory.cc), and their outcomes.
use my_nachos.Shared.{
  ℕ, suc, ap, ◌≡◌, refl, Bool, true, false, none, some, List, [], ◌∷◌, if◌then◌else◌, set, length,
  length-set, Result, ok, arith, Option-cases, inl, inr,
}
use my_nachos.Directory.{
  DirectoryEntry, Directory, find_index, find_index_in, add_in, add, remove, new_directory,
  free_all,
}
use my_nachos.Directory.Table.{same, lookup, IsUnique, find_index_in_lem}
use my_nachos.Directory.Update.{
  lookup-add_in, add_in-IsUnique, drop_first, set-drop_first, lookup-drop_first,
  drop_first-IsUnique,
}

abbrev pub IsFull : List DirectoryEntry → Type 0
IsFull [] = Unit {0}
IsFull (e ∷ es) = (e.in_use ≡ true) × IsFull es

add_in-none :
    (es : List DirectoryEntry) (name : List ℕ) (sector : ℕ)
    → add_in es name sector ≡ none
    → IsFull es
unfolding add_in
add_in-none [] name sector h = tt
add_in-none (e ∷ es) name sector h = elim (Option-cases (add_in es name sector)) [
  | inl a ↦ (ground arith, add_in-none es name sector a)
  | inr (new, a) ↦ absurd (ground arith)
]

add_in-IsFull :
    (es : List DirectoryEntry) (name : List ℕ) (sector : ℕ)
    → IsFull es
    → add_in es name sector ≡ none
unfolding add_in
add_in-IsFull [] name sector all = refl
add_in-IsFull (e ∷ es) name sector all = rw (all.0, add_in-IsFull es name sector all.1) refl

-- Add returns FALSE where every entry is in use.
pub add-IsFull :
    (dir : Directory) (name : List ℕ) (sector : ℕ)
    → IsFull dir.table
    → (add dir name sector).0 ≡ false
unfolding add find_index
add-IsFull dir name sector all = elim (Option-cases (find_index_in dir.table name)) [
  | inl missing ↦ ground (arith, missing, add_in-IsFull dir.table name sector all)
  | inr (i, there) ↦ ground (arith, there)
]

length-add_in :
    (es : List DirectoryEntry) (name : List ℕ) (sector : ℕ) (es' : List DirectoryEntry)
    → add_in es name sector ≡ some es'
    → length es' ≡ length es
unfolding add_in
length-add_in [] name sector es' h = cc
length-add_in (e ∷ es) name sector es' h = elim (Option-cases (add_in es name sector)) [
  | inl a ↦ ground arith
  | inr (new, a) ↦ ground (arith, length-add_in es name sector new a)
]

pub data Adds (dir : Directory) (name : List ℕ) (sector : ℕ) : Bool × Directory → Type 0 where
  present : (k : ℕ) → lookup dir.table name ≡ some k → Adds dir name sector (false, dir)
  full : lookup dir.table name ≡ none → IsFull dir.table → Adds dir name sector (false, dir)
  added :
      (dir' : Directory)
      → lookup dir.table name ≡ none
      → length dir'.table ≡ length dir.table
      → ((other : List ℕ)
          → lookup dir'.table other
            ≡ (if same name other then some sector else lookup dir.table other))
      → IsUnique dir'.table
      → Adds dir name sector (true, dir')

-- On a directory whose names are unique, Add returns FALSE and changes nothing if the name is
-- present or the table is full; otherwise it returns TRUE, looking the name up gives the new
-- sector, looking any other name up gives what it gave before, the table keeps its length, and the
-- names stay unique. Two names are the same if strncmp says so in the first nine characters.
pub add-Adds :
    (dir : Directory) (name : List ℕ) (sector : ℕ)
    → IsUnique dir.table
    → Adds dir name sector (add dir name sector)
unfolding add find_index
add-Adds dir name sector u = elim (find_index_in_lem dir.table name) [
  | inr (i, e, found, at, here) ↦ rw (found, add, find_index) (present e.sector here)
  | inl (missing, fresh) ↦ elim (Option-cases (add_in dir.table name sector)) [
    | inl no_room ↦
        rw (missing, no_room, add, find_index)
          (full fresh (add_in-none dir.table name sector no_room))
    | inr (table, filled) ↦
        rw (missing, filled, add, find_index)
          (added _ fresh (length-add_in dir.table name sector table filled)
            (λ other. lookup-add_in dir.table name sector table other filled fresh)
            (add_in-IsUnique dir.table name sector table filled fresh u))
  ]
]

pub data Removes (dir : Directory) (name : List ℕ) : Result (Bool × Directory) → Type 0 where
  missing : lookup dir.table name ≡ none → Removes dir name (ok (false, dir))
  removed :
      (dir' : Directory) (k : ℕ)
      → lookup dir.table name ≡ some k
      → length dir'.table ≡ length dir.table
      → ((other : List ℕ)
          → lookup dir'.table other ≡ (if same name other then none else lookup dir.table other))
      → IsUnique dir'.table
      → Removes dir name (ok (true, dir'))

-- On a directory whose names are unique, Remove returns FALSE and changes nothing if the name is
-- absent; otherwise it returns TRUE, the name is no longer found, every other name is found as
-- before, and the names stay unique.
pub remove-Removes :
    (dir : Directory) (name : List ℕ) → IsUnique dir.table → Removes dir name (remove dir name)
unfolding remove find_index
remove-Removes dir name u = elim (find_index_in_lem dir.table name) [
  | inl (gone, fresh) ↦ rw (gone, remove, find_index) (missing fresh)
  | inr (i, e, found, at, here) ↦
      let same_table : set dir.table i (record e { in_use = false }) ≡ drop_first dir.table name =
        set-drop_first dir.table name i e found at in
      rw (found, at, remove, find_index)
        (removed _ e.sector here (length-set dir.table i _)
          (λ other. rw same_table (lookup-drop_first dir.table name other u))
          (rw same_table (drop_first-IsUnique dir.table name u)))
]

lookup-free_all : (es : List DirectoryEntry) (name : List ℕ) → lookup (free_all es) name ≡ none
unfolding lookup free_all
lookup-free_all [] name = refl
lookup-free_all (e ∷ es) name = lookup-free_all es name

free_all-IsUnique : (es : List DirectoryEntry) → IsUnique (free_all es)
unfolding free_all
free_all-IsUnique [] = tt
free_all-IsUnique (e ∷ es) = ((λ h. cc), free_all-IsUnique es)

length-free_all : (es : List DirectoryEntry) → length (free_all es) ≡ length es
unfolding free_all
length-free_all [] = refl
length-free_all (e ∷ es) = ap suc (length-free_all es)

pub length-new_directory :
    (entries : List DirectoryEntry) → length (new_directory entries).table ≡ length entries
unfolding new_directory
length-new_directory entries = length-free_all entries

-- The constructor of a directory makes a table without any name, whatever its memory held, whose
-- names are therefore unique.
pub new_directory_lem :
    (entries : List DirectoryEntry)
    → IsUnique (new_directory entries).table
      × ((name : List ℕ) → lookup (new_directory entries).table name ≡ none)
unfolding new_directory
new_directory_lem entries = (free_all-IsUnique entries, lookup-free_all entries)
