-- ===== src/Tests/Files.antt =====
-- Runs of code/filesys/directory.cc.
use my_nachos.Shared.{ℕ, ◌≡◌, refl, true, false, none, some, List, [], ◌∷◌, ok}
use my_nachos.Directory.{DirectoryEntry, Directory, new_directory, find, add, remove}
use my_nachos.Directory.Table.{lookup, IsUnique, find-lookup}
use my_nachos.Directory.Operations.{Adds, add-Adds, Removes, remove-Removes, new_directory_lem}

-- The name "ab" at sector 5, a free entry, and the name "c" at sector 6.
abbrev files : Directory
files = record {
  table =
      record { in_use = true; sector = 5; name = 97 ∷ 98 ∷ 0 ∷ [] }
      ∷ record { in_use = false; sector = 9; name = 98 ∷ 0 ∷ [] }
      ∷ record { in_use = true; sector = 6; name = 99 ∷ [] }
      ∷ [];
}

files-IsUnique : IsUnique files.table
unfolding lookup my_nachos.Directory.strncmp_eq
files-IsUnique = ((λ h. refl), ((λ h. refl), ((λ h. refl), tt)))

find_run : find files (99 ∷ 0 ∷ 7 ∷ []) ≡ ok (some 6)
unfolding find my_nachos.Directory.find_index my_nachos.Directory.strncmp_eq
find_run = refl

find-lookup_example : find files (99 ∷ []) ≡ ok (lookup files.table (99 ∷ []))
find-lookup_example = find-lookup files (99 ∷ [])

add-Adds_example : Adds files (98 ∷ []) 7 (add files (98 ∷ []) 7)
add-Adds_example = add-Adds files (98 ∷ []) 7 files-IsUnique

remove-Removes_example : Removes files (97 ∷ 98 ∷ []) (remove files (97 ∷ 98 ∷ []))
remove-Removes_example = remove-Removes files (97 ∷ 98 ∷ []) files-IsUnique

new_directory_run :
    IsUnique (new_directory files.table).table
    × ((name : List ℕ) → lookup (new_directory files.table).table name ≡ none)
new_directory_run = new_directory_lem files.table
