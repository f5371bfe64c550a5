-- ===== src/Directory/Table.antt =====
-- The directory as a map from names to sectors: FindIndex, Find, Add and Remove against lookups.
use my_nachos.Shared.{
  ℕ, suc, ◌≡◌, refl, ◌⊎◌, Bool, true, ◌&&◌, Option, none, some, List, [], ◌∷◌, if◌then◌else◌,
  get_elem?, ok, arith, Bool-cases, inl, inr,
}
use my_nachos.Directory.{
  DirectoryEntry, Directory, file_name_max_len, strncmp_eq, strncmp_iff, matches, find_index_in,
  find_index, find,
}

-- Two names that the directory takes for one.
abbrev pub same : List ℕ → List ℕ → Bool
same a b = strncmp_eq file_name_max_len a b

-- The first entry in use under a name.
unfoldable pub lookup : List DirectoryEntry → List ℕ → Option ℕ
lookup [] name = none
lookup (e ∷ es) name = if e.in_use && same e.name name then some e.sector else lookup es name

-- No two entries in use have the same name.
abbrev pub IsUnique : List DirectoryEntry → Type 0
IsUnique [] = Unit {0}
IsUnique (e ∷ es) = (e.in_use ≡ true → lookup es e.name ≡ none) × IsUnique es

pub same_refl : (a : List ℕ) → same a a ≡ true
same_refl a = (strncmp_iff 9 a a).1 refl

pub same_sym : (a b : List ℕ) → same a b ≡ same b a
same_sym a b = ground (arith, strncmp_iff 9 a b, strncmp_iff 9 b a)

pub same_trans : (a b c : List ℕ) → same a b ≡ true → same a c ≡ same b c
same_trans a b c h = ground (arith, strncmp_iff 9 a b, strncmp_iff 9 a c, strncmp_iff 9 b c)

pub lookup-same :
    (es : List DirectoryEntry) (a b : List ℕ) → same a b ≡ true → lookup es a ≡ lookup es b
unfolding lookup
lookup-same [] a b h = refl
lookup-same (e ∷ es) a b h =
    ground
      (arith, lookup-same es a b h, same_trans a b e.name h, same_sym e.name a, same_sym e.name b)

-- What `find_index` finds is the entry that `lookup` reads.
pub find_index_in_lem :
    (es : List DirectoryEntry) (name : List ℕ)
    → ((find_index_in es name ≡ none) × (lookup es name ≡ none))
      ⊎ ((i : ℕ) × (e : DirectoryEntry) × (find_index_in es name ≡ some i)
          × (get_elem? es i ≡ some e)
          × (lookup es name ≡ some e.sector))
unfolding find_index_in lookup matches
find_index_in_lem [] name = inl (refl, refl)
find_index_in_lem (e ∷ es) name = elim (Bool-cases (e.in_use && same e.name name)) [
  | inl hit ↦ inr (0, e, rw hit, refl, rw hit)
  | inr miss ↦ elim (find_index_in_lem es name) [
    | inl (none_in, none_at) ↦ inl (ground arith, ground arith)
    | inr (i, e', found, at, at') ↦ inr (suc i, e', ground arith, at, ground arith)
  ]
]

-- Find returns the sector of the first entry in use under the name, and -1 if there is none, and
-- never reads outside the table.
pub find-lookup : (dir : Directory) (name : List ℕ) → find dir name ≡ ok (lookup dir.table name)
unfolding find find_index
find-lookup dir name = elim (find_index_in_lem dir.table name) [
  | inl (none_in, none_at) ↦ ground arith
  | inr (i, e', found, at, at') ↦ ground arith
]
