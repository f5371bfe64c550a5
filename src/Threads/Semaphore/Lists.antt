-- ===== src/Threads/Semaphore/Lists.antt =====
-- The lists of threads of code/threads/synch.cc and scheduler.cc: repetition, and counts over them.
use my_nachos.Shared.{
  ℕ, ◌+◌, ◌≡◌, ◌≢◌, refl, sym, Bool, true, List, [], ◌∷◌, ◌++◌, ◌==◌, if◌then◌else◌, arith,
}

abbrev pub Absent : ℕ → List ℕ → Type 0
Absent t [] = Unit {0}
Absent t (x ∷ xs) = (t ≢ x) × Absent t xs

abbrev pub Distinct : List ℕ → Type 0
Distinct [] = Unit {0}
Distinct (x ∷ xs) = Absent x xs × Distinct xs

-- How many threads of the list `f` holds of.
unfoldable pub count : (ℕ → Bool) → List ℕ → ℕ
count f [] = 0
count f (x ∷ xs) = (if f x then 1 else 0) + count f xs

abbrev pub AreAll : (ℕ → Bool) → List ℕ → Type 0
AreAll f [] = Unit {0}
AreAll f (x ∷ xs) = (f x ≡ true) × AreAll f xs

pub Absent-insert :
    (t c : ℕ) (xs ys : List ℕ) → t ≢ c → Absent t (xs ++ ys) → Absent t (xs ++ (c ∷ ys))
Absent-insert t c [] ys ne a = (ne, a)
Absent-insert t c (x ∷ xs) ys ne a = (a.0, Absent-insert t c xs ys ne a.1)

pub Distinct-insert :
    (c : ℕ) (xs ys : List ℕ) → Absent c (xs ++ ys) → Distinct (xs ++ ys) → Distinct (xs ++ (c ∷ ys))
Distinct-insert c [] ys a d = (a, d)
Distinct-insert c (x ∷ xs) ys a d =
    (Absent-insert x c xs ys (λ e. a.0 (sym e)) d.0, Distinct-insert c xs ys a.1 d.1)

pub Absent-left : (t : ℕ) (xs ys : List ℕ) → Absent t (xs ++ ys) → Absent t xs
Absent-left t [] ys a = tt
Absent-left t (x ∷ xs) ys a = (a.0, Absent-left t xs ys a.1)

pub Absent-right : (t : ℕ) (xs ys : List ℕ) → Absent t (xs ++ ys) → Absent t ys
Absent-right t [] ys a = a
Absent-right t (x ∷ xs) ys a = Absent-right t xs ys a.1

pub count-append : (f : ℕ → Bool) (xs ys : List ℕ) → count f (xs ++ ys) ≡ count f xs + count f ys
unfolding count
count-append f [] ys = omega arith
count-append f (x ∷ xs) ys = omega (arith, count-append f xs ys)

pub count-Absent :
    (f : ℕ → Bool) (t : ℕ) (b : Bool) (xs : List ℕ)
    → Absent t xs
    → count (λ u. if u == t then b else f u) xs ≡ count f xs
unfolding count
count-Absent f t b [] a = refl
count-Absent f t b (x ∷ xs) a = ground (arith, count-Absent f t b xs a.1)

pub AreAll-Absent :
    (f : ℕ → Bool) (t : ℕ) (b : Bool) (xs : List ℕ)
    → Absent t xs
    → AreAll f xs
    → AreAll (λ u. if u == t then b else f u) xs
AreAll-Absent f t b [] a h = tt
AreAll-Absent f t b (x ∷ xs) a h = (ground arith, AreAll-Absent f t b xs a.1 h.1)

pub AreAll-append :
    (f : ℕ → Bool) (xs ys : List ℕ) → AreAll f xs → AreAll f ys → AreAll f (xs ++ ys)
AreAll-append f [] ys h k = k
AreAll-append f (x ∷ xs) ys h k = (h.0, AreAll-append f xs ys h.1 k)
