-- ===== src/LinkedList/Chain.antt =====
-- The sequence that a list of code/threads/list.cc stands for, and the chain of elements in the store
-- that holds it.
use my_nachos.Shared.{
  ℕ, ◌%◌, ◌^◌, ◌≡◌, ◌≢◌, refl, Bool, true, false, ◌||◌, Option, none, some, List, [], ◌∷◌, ◌++◌,
  ◌==◌, length, ok, arith, ◌∙◌,
}
use my_nachos.LinkedList.{null, ListElement, Store, ListObject, write, load, set_next}

-- An element of the sequence: where it is, and what it holds.
pub record Cell : Type 0 where
  pub at : ℕ
  pub item : ℕ
  pub key : ℕ

abbrev pub cell : ℕ → ℕ → ℕ → Cell
cell a item key = record { at = a; item = item; key = key }

abbrev pub element : Cell → ℕ → ListElement
element c next = record { item = c.item; key = c.key; next = next }

-- Where the first and the last cell are; 0, the null pointer, if there is none.
abbrev pub first_at : List Cell → ℕ
first_at [] = 0
first_at (c ∷ cs) = c.at

abbrev pub last_at : ℕ → List Cell → ℕ
last_at a [] = a
last_at a (c ∷ cs) = last_at c.at cs

abbrev pub has_at : ℕ → List Cell → Bool
has_at a [] = false
has_at a (c ∷ cs) = (a == c.at) || has_at a cs

pub ne-has_at : (a : ℕ) (c : Cell) (cs : List Cell) → has_at a (c ∷ cs) ≡ false → a ≢ c.at
ne-has_at a c cs out e = ground arith

pub has_at-tail :
    (a : ℕ) (c : Cell) (cs : List Cell) → has_at a (c ∷ cs) ≡ false → has_at a cs ≡ false
has_at-tail a c cs out = ground arith

-- The `next` pointers lead through cells at distinct addresses, and the last one is NULL.
abbrev pub IsChain : Store → List Cell → Type 0
IsChain h [] = Unit {0}
IsChain h (c ∷ cs) =
    (c.at ≢ null)
    × (h c.at ≡ some (element c (first_at cs)))
    × (has_at c.at cs ≡ false)
    × IsChain h cs

pub record Stands (h : Store) (l : ListObject) (cs : List Cell) : Type 0 where
  pub first : l.first ≡ first_at cs
  pub last : l.last ≡ last_at 0 cs
  pub count : l.num_in_list ≡ length cs % 2 ^ 32
  pub chain : IsChain h cs

-- An address that `new` can return.
pub record IsFresh (h : Store) (a : ℕ) : Type 0 where
  pub not_null : a ≢ null
  pub unused : h a ≡ none

-- A step that leaves every address but those of the cells and `a` as it was.
abbrev pub Spares : Store → Store → ℕ → List Cell → Type 0
Spares h g a cs = (b : ℕ) → b ≢ a → has_at b cs ≡ false → g b ≡ h b

pub null-false : (a : ℕ) → a ≢ null → (a == null) ≡ false
null-false a n = ground arith

pub load-some : (h : Store) (p : ℕ) (e : ListElement) → p ≢ null → h p ≡ some e → load h p ≡ ok e
unfolding load
load-some h p e n s = rw s (ground arith)

pub set_next-some :
    (h : Store) (p q : ℕ) (e : ListElement)
    → p ≢ null
    → h p ≡ some e
    → set_next h p q ≡ ok (write h p (some (record e { next = q })))
unfolding set_next
set_next-some h p q e n s = rw (load-some h p e n s)

pub write_self : (h : Store) (a : ℕ) (v : Option ListElement) → write h a v a ≡ v
unfolding write
write_self h a v = ground arith

pub write_ne : (h : Store) (a b : ℕ) (v : Option ListElement) → b ≢ a → write h a v b ≡ h b
unfolding write
write_ne h a b v n = ground arith

-- A chain survives a change that spares its cells.
pub IsChain-frame :
    (h g : Store) (cs : List Cell)
    → ((a : ℕ) → has_at a cs ≡ true → g a ≡ h a)
    → IsChain h cs
    → IsChain g cs
IsChain-frame h g [] same ch = tt
IsChain-frame h g (c ∷ cs) same (n, s, o, ch) =
    (n, ground (arith, same c.at), o, IsChain-frame h g cs (λ a i. same a (ground arith)) ch)

pub IsChain-write :
    (h : Store) (a : ℕ) (v : Option ListElement) (cs : List Cell)
    → has_at a cs ≡ false
    → IsChain h cs
    → IsChain (write h a v) cs
IsChain-write h a v cs out ch =
    IsChain-frame h (write h a v) cs (λ b i. write_ne h a b v (λ e. ground arith)) ch

-- No cell of a chain is at an unused address.
pub has_at-unused :
    (h : Store) (a : ℕ) (cs : List Cell) → h a ≡ none → IsChain h cs → has_at a cs ≡ false
has_at-unused h a [] u ch = refl
has_at-unused h a (c ∷ cs) u (n, s, o, ch) = ground (arith, has_at-unused h a cs u ch)

pub has_at-append : (a : ℕ) (cs ds : List Cell) → has_at a (cs ++ ds) ≡ (has_at a cs || has_at a ds)
has_at-append a [] ds = refl
has_at-append a (c ∷ cs) ds = ground (arith, has_at-append a cs ds)

-- `last->next = element` puts a new cell behind the others.
pub link_back-IsChain :
    (h : Store) (new c : Cell) (cs : List Cell)
    → new.at ≢ null
    → h new.at ≡ some (element new 0)
    → has_at new.at (c ∷ cs) ≡ false
    → IsChain h (c ∷ cs)
    → (g : Store) × (set_next h (last_at c.at cs) new.at ≡ ok g)
      × IsChain g (c ∷ cs ++ (new ∷ []))
      × ((b : ℕ) → has_at b (c ∷ cs) ≡ false → g b ≡ h b)
link_back-IsChain h new c [] nn here out (n, s, o, ch) = (
  write h c.at (some (element c new.at)),
  set_next-some h c.at new.at (element c 0) n s,
  (
    n,
    write_self h c.at (some (element c new.at)),
    ground arith,
    (nn, write_ne h c.at new.at (some (element c new.at)) (λ e. ground arith) ∙ here, refl, tt),
  ),
  λ b i. write_ne h c.at b (some (element c new.at)) (λ e. ground arith),
)
link_back-IsChain h new c (d ∷ ds) nn here out (n, s, o, ch) =
    let (g, step, ch', same) = link_back-IsChain h new d ds nn here (ground arith) ch in
    (
      g,
      step,
      (n, same c.at o ∙ s, ground (arith, has_at-append c.at (d ∷ ds) (new ∷ [])), ch'),
      λ b i. same b (ground arith),
    )
