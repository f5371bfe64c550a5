-- ===== src/Directory.antt =====
-- code/filesys/directory.cc and directory.h: a table of file names and the sectors of their headers.
mod Names
pub mod Entries
pub mod Table
pub mod Update
pub mod Operations
unfoldable pub use Names.*
use my_nachos.Shared.{
  ℕ, zero, suc, Bool, true, false, ◌&&◌, not, Option, none, some, List, [], ◌∷◌, if◌then◌else◌, set,
  replicate, elem, Result, ok, ◌>>=◌,
}

pub record DirectoryEntry : Type 0 where
  pub in_use : Bool
  pub sector : ℕ
  pub name : List ℕ

-- `table` is the array with its `tableSize` elements: a loop up to `tableSize` is one over the list.
pub record Directory : Type 0 where
  pub table : List DirectoryEntry

-- The constructor, on the `size` entries that `new` returns: only `inUse` is written, all else is as `new` leaves it.
free_all : List DirectoryEntry → List DirectoryEntry
free_all [] = []
free_all (e ∷ es) = record e { in_use = false } ∷ free_all es

unfoldable pub new_directory : List DirectoryEntry → Directory
unfolding free_all
new_directory entries = record { table = free_all entries }

-- `table[i].inUse && !strncmp(table[i].name, name, FileNameMaxLen)`.
pub matches : DirectoryEntry → List ℕ → Bool
matches e name = e.in_use && strncmp_eq file_name_max_len e.name name

abbrev next_index : Option ℕ → Option ℕ
next_index none = none
next_index (some i) = some (suc i)

-- The loop of `FindIndex` over the entries from some index on, counted from there.
pub find_index_in : List DirectoryEntry → List ℕ → Option ℕ
find_index_in [] name = none
find_index_in (e ∷ es) name = if matches e name then some 0 else next_index (find_index_in es name)

unfoldable pub find_index : Directory → List ℕ → Option ℕ
unfolding find_index_in matches
find_index dir name = find_index_in dir.table name

-- `none` is the -1 that `Find` returns.
unfoldable pub find : Directory → List ℕ → Result (Option ℕ)
find dir name = elim (find_index dir name) [
  | none ↦ ok none
  | some i ↦ elem dir.table i >>= λ e. ok (some e.sector)
]

-- The loop of `Add`: the first entry that is not in use is filled in.
pub add_in : List DirectoryEntry → List ℕ → ℕ → Option (List DirectoryEntry)
add_in [] name new_sector = none
add_in (e ∷ es) name new_sector =
    if e.in_use
    then elim (add_in es name new_sector) [ none ↦ none | some es' ↦ some (e ∷ es') ]
    else some (
        record { in_use = true; sector = new_sector; name = strncpy file_name_max_len name e.name }
        ∷ es)

unfoldable pub add : Directory → List ℕ → ℕ → Bool × Directory
unfolding add_in
add dir name new_sector = elim (find_index dir name) [
  | some _ ↦ (false, dir)
  | none ↦ elim (add_in dir.table name new_sector) [
    | none ↦ (false, dir)
    | some table ↦ (true, record dir { table = table })
  ]
]

unfoldable pub remove : Directory → List ℕ → Result (Bool × Directory)
remove dir name = elim (find_index dir name) [
  | none ↦ ok (false, dir)
  | some i ↦ elem dir.table i >>= λ e.
      ok (true, record dir { table = set dir.table i (record e { in_use = false }) })
]
