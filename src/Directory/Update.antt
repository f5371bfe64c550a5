-- ===== src/Directory/Update.antt =====
-- Directory::Add and Remove (code/filesys/directory.cc): lemmas on their loops over the table.
use my_nachos.Shared.{
  ℕ, zero, suc, ◌≡◌, true, false, ◌&&◌, none, some, List, [], ◌∷◌, if◌then◌else◌, get_elem?, set,
  arith, Bool-cases, Option-cases, inl, inr, ◌∙◌,
}
use my_nachos.Directory.{
  DirectoryEntry, file_name_max_len, strncmp_iff, strncpy, cut-strncpy, matches, find_index_in,
  add_in,
}
use my_nachos.Directory.Table.{same, lookup, IsUnique, same_sym, same_trans, lookup-same}

pub lookup-add_in :
    (es : List DirectoryEntry) (name : List ℕ) (sector : ℕ) (es' : List DirectoryEntry)
    (other : List ℕ)
    → add_in es name sector ≡ some es'
    → lookup es name ≡ none
    → lookup es' other ≡ (if same name other then some sector else lookup es other)
unfolding add_in lookup
lookup-add_in [] name sector es' other h fresh = cc
lookup-add_in (e ∷ es) name sector es' other h fresh = elim (Bool-cases e.in_use) [
  | inl taken ↦ elim (Option-cases (add_in es name sector)) [
    | inl full ↦ ground arith
    | inr (new, some_new) ↦ ground (
      arith,
      lookup-add_in es name sector new other some_new,
      same_sym e.name name,
      same_trans e.name name other,
      same_sym name other,
      same_trans name other e.name,
      same_sym other e.name,
    )
  ]
  | inr free ↦
      let new : DirectoryEntry = record {
        in_use = true;
        sector = sector;
        name = strncpy file_name_max_len name e.name;
      } in
      let key : same new.name other ≡ same name other = ground (
        arith,
        strncmp_iff 9 new.name other,
        strncmp_iff 9 name other,
        cut-strncpy 9 name e.name,
      ) in
      let result : es' ≡ new ∷ es = ground arith in rw (result, lookup, key) (ground arith)
]

-- Adding a name that is not there keeps the names unique.
pub add_in-IsUnique :
    (es : List DirectoryEntry) (name : List ℕ) (sector : ℕ) (es' : List DirectoryEntry)
    → add_in es name sector ≡ some es'
    → lookup es name ≡ none
    → IsUnique es
    → IsUnique es'
unfolding add_in lookup
add_in-IsUnique [] name sector es' h fresh u = absurd (cc)
add_in-IsUnique (e ∷ es) name sector es' h fresh u = elim (Bool-cases e.in_use) [
  | inl taken ↦ elim (Option-cases (add_in es name sector)) [
    | inl full ↦ absurd (ground arith)
    | inr (new, some_new) ↦
        let result : es' ≡ e ∷ new = ground arith in
        let later : lookup es name ≡ none = ground arith in
        rw result (
          (λ t. ground (
            arith,
            lookup-add_in es name sector new e.name some_new later,
            u.0 t,
            same_sym e.name name,
          )),
          add_in-IsUnique es name sector new some_new later u.1,
        )
  ]
  | inr free ↦
      let new : DirectoryEntry = record {
        in_use = true;
        sector = sector;
        name = strncpy file_name_max_len name e.name;
      } in
      let result : es' ≡ new ∷ es = ground arith in
      let key : same new.name name ≡ true =
        ground (arith, strncmp_iff 9 new.name name, cut-strncpy 9 name e.name) in
      let later : lookup es name ≡ none = ground arith in
      rw result ((λ t. lookup-same es new.name name key ∙ later), u.1)
]

-- The table with the first entry under a name taken out of use.
pub drop_first : List DirectoryEntry → List ℕ → List DirectoryEntry
drop_first [] name = []
drop_first (e ∷ es) name =
    if e.in_use && same e.name name
    then record e { in_use = false } ∷ es
    else e ∷ drop_first es name

pub set-drop_first :
    (es : List DirectoryEntry) (name : List ℕ) (i : ℕ) (e : DirectoryEntry)
    → find_index_in es name ≡ some i
    → get_elem? es i ≡ some e
    → set es i (record e { in_use = false }) ≡ drop_first es name
unfolding find_index_in drop_first matches
set-drop_first [] name i e h at = cc
set-drop_first (x ∷ es) name zero e h at = elim (Option-cases (find_index_in es name)) [
  | inl a ↦ ground arith
  | inr (j, a) ↦ ground arith
]
set-drop_first (x ∷ es) name (suc i) e h at = ground (arith, set-drop_first es name i e)

pub lookup-drop_first :
    (es : List DirectoryEntry) (name other : List ℕ)
    → IsUnique es
    → lookup (drop_first es name) other ≡ (if same name other then none else lookup es other)
unfolding lookup drop_first
lookup-drop_first [] name other u = ground arith
lookup-drop_first (e ∷ es) name other u = elim (Bool-cases (e.in_use && same e.name name)) [
  | inl hit ↦ ground (arith, same_trans e.name name other, u.0, lookup-same es e.name other)
  | inr miss ↦ ground (
    arith,
    lookup-drop_first es name other u.1,
    same_trans name other e.name,
    same_sym name e.name,
    same_sym other e.name,
  )
]

pub drop_first-IsUnique :
    (es : List DirectoryEntry) (name : List ℕ) → IsUnique es → IsUnique (drop_first es name)
unfolding drop_first
drop_first-IsUnique [] name u = tt
drop_first-IsUnique (e ∷ es) name u = elim (Bool-cases (e.in_use && same e.name name)) [
  | inl hit ↦ rw hit ((λ t. cc), u.1)
  | inr miss ↦ rw miss (
    (λ t. ground (arith, lookup-drop_first es name e.name u.1, u.0 t)),
    drop_first-IsUnique es name u.1,
  )
]
