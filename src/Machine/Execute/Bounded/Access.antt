-- ===== src/Machine/Execute/Bounded/Access.antt =====
-- Machine::ReadMem and WriteMem (code/machine/translate.cc) as the loads and stores use them.
use my_nachos.Shared.{
  ℕ, zero, suc, ◌+◌, ◌*◌, ◌/◌, ◌%◌, ◌^◌, ◌<◌, ◌≡◌, ◌∙◌, refl, subst, Bool, true, false, Option,
  none, some, List, [], ◌∷◌, length, get_or, set, length-set, elem, put, if◌then◌else◌, ltb, Result,
  ok, stop, Stop, ◌>>=◌, arith, Bool-cases, inl, inr, ◌==◌,
}
use my_nachos.Machine.State.{Machine}
use my_nachos.Machine.Exceptions.{raise_exception_lem}
use my_nachos.Machine.Translate.{Translation, translate}
use my_nachos.Machine.Memory.{char_int, read_value, write_value, read_mem, write_mem}
use my_nachos.Machine.Execute.{Outcome, left, goes_on}
use my_nachos.Machine.Execute.Load.{reads}
use my_nachos.Machine.Execute.Store.{stores}
use my_nachos.Machine.Execute.Bounded.{IsSound, IsBounded, stopped, goes_on-IsBounded}
use my_nachos.Machine.Execute.Bounded.Memory.{Keeps, fails, raises, maps, translate-Keeps}

abbrev AreBytes : List ℕ → Type 0
AreBytes mem = (a : ℕ) → get_or mem a 0 < 2 ^ 8

-- A value that was read is a word.
data IsWord : Result ℕ → Type 0 where
  no_word : (e : Stop) → IsWord (stop e)
  word : (v : ℕ) → v < 2 ^ 32 → IsWord (ok v)

elem-IsWord :
    (mem : List ℕ) (i : ℕ) {f : ℕ → Result ℕ}
    → AreBytes mem
    → ((b : ℕ) → b < 2 ^ 8 → IsWord (f b))
    → IsWord (elem mem i >>= f)
elem-IsWord [] i h k = no_word _
elem-IsWord (b ∷ mem) zero h k = k b (h 0)
elem-IsWord (b ∷ mem) (suc i) h k = elem-IsWord mem i (λ a. h (suc a)) k

if-IsWord : (b : Bool) {x y : Result ℕ} → IsWord x → IsWord y → IsWord (if b then x else y)
if-IsWord true h k = h
if-IsWord false h k = k

read_value-IsWord : (mem : List ℕ) (pa size : ℕ) → AreBytes mem → IsWord (read_value mem pa size)
unfolding read_value
read_value-IsWord mem pa size h =
    if-IsWord (size == 1) (elem-IsWord mem pa h λ b l. word (char_int b) (ground arith)) (
      if-IsWord (size == 2)
        (elem-IsWord mem pa h
          λ b0 l0. elem-IsWord mem (pa + 1) h λ b1 l1. word (b0 + 2 ^ 8 * b1) (omega arith))
        (if-IsWord (size == 4)
          (elem-IsWord mem pa h λ b0 l0. elem-IsWord mem (pa + 1) h λ b1 l1.
            elem-IsWord mem (pa + 2) h λ b2 l2.
              elem-IsWord mem (pa + 3) h
                λ b3 l3. word (b0 + 2 ^ 8 * b1 + 2 ^ 16 * b2 + 2 ^ 24 * b3) (omega arith))
          (no_word Stop.assert_failed)))

-- A memory that was written has its size and its bytes.
data IsMemory (n : ℕ) : Result (List ℕ) → Type 0 where
  no_memory : (e : Stop) → IsMemory n (stop e)
  memory : (mem : List ℕ) → length mem ≡ n → AreBytes mem → IsMemory n (ok mem)

set-AreBytes : (mem : List ℕ) (i b : ℕ) → b < 2 ^ 8 → AreBytes mem → AreBytes (set mem i b)
set-AreBytes [] i b l h a = h a
set-AreBytes (x ∷ mem) zero b l h zero = l
set-AreBytes (x ∷ mem) zero b l h (suc a) = h (suc a)
set-AreBytes (x ∷ mem) (suc i) b l h zero = h 0
set-AreBytes (x ∷ mem) (suc i) b l h (suc a) = set-AreBytes mem i b l (λ c. h (suc c)) a

put-IsMemory :
    (mem : List ℕ) (i v : ℕ) → AreBytes mem → IsMemory (length mem) (put mem i (v % 2 ^ 8))
put-IsMemory mem i v h = elim (Bool-cases (ltb i (length mem))) [
  | inl inside ↦ rw inside (memory _ (length-set mem i _) (set-AreBytes mem i _ (omega arith) h))
  | inr outside ↦ rw outside (no_memory _)
]

then-IsMemory :
    (n : ℕ) (r : Result (List ℕ)) {f : List ℕ → Result (List ℕ)}
    → IsMemory n r
    → ((mem : List ℕ) → length mem ≡ n → AreBytes mem → IsMemory n (f mem))
    → IsMemory n (r >>= f)
then-IsMemory n r (no_memory e) k = no_memory e
then-IsMemory n r (memory mem l h) k = k mem l h

put_next :
    (n : ℕ) (mem : List ℕ) (i v : ℕ)
    → length mem ≡ n
    → AreBytes mem
    → IsMemory n (put mem i (v % 2 ^ 8))
put_next n mem i v l h = subst (λ k. IsMemory k (put mem i (v % 2 ^ 8))) l (put-IsMemory mem i v h)

if-IsMemory :
    (n : ℕ) (b : Bool) {x y : Result (List ℕ)}
    → IsMemory n x
    → IsMemory n y
    → IsMemory n (if b then x else y)
if-IsMemory n true h k = h
if-IsMemory n false h k = k

write_value-IsMemory :
    (mem : List ℕ) (pa size v : ℕ)
    → AreBytes mem
    → IsMemory (length mem) (write_value mem pa size v)
unfolding write_value
write_value-IsMemory mem pa size v h =
    let n = length mem in
    let first = put-IsMemory mem pa v h in
    if-IsMemory n (size == 1) first (
      if-IsMemory n (size == 2)
        (then-IsMemory n (put mem pa (v % 2 ^ 8)) first
          λ m1 l1 h1. put_next n m1 (pa + 1) (v / 2 ^ 8) l1 h1)
        (if-IsMemory n (size == 4)
          (then-IsMemory n (put mem pa (v % 2 ^ 8)) first λ m1 l1 h1.
            then-IsMemory n (put m1 (pa + 1) (v / 2 ^ 8 % 2 ^ 8))
              (put_next n m1 (pa + 1) (v / 2 ^ 8) l1 h1)
              λ m2 l2 h2.
                then-IsMemory n (put m2 (pa + 2) (v / 2 ^ 16 % 2 ^ 8))
                  (put_next n m2 (pa + 2) (v / 2 ^ 16) l2 h2)
                  λ m3 l3 h3. put_next n m3 (pa + 3) (v / 2 ^ 24) l3 h3)
          (no_memory Stop.assert_failed)))

module _ (m : Machine) (s : IsSound m) where
  carried :
      (m' : Machine) → m'.registers ≡ m.registers → m'.main_memory ≡ m.main_memory → IsSound m'
  carried m' er em = record {
    words = λ r. rw er (s.words r);
    target = rw er s.target;
    memory = rw em s.memory;
    bytes = λ a. rw em (s.bytes a);
  }

  pub reads-IsBounded :
      (va size : ℕ) (next : Machine → ℕ → Result Outcome)
      → ((m' : Machine) (v : ℕ) → IsSound m' → v < 2 ^ 32 → IsBounded (next m' v))
      → IsBounded (reads m va size next)
  unfolding read_mem
  reads-IsBounded va size next k =
      go (translate m va size false) refl (translate-Keeps m va size false)
    where
      value :
          (m' : Machine)
          → IsSound m'
          → (r : Result ℕ) → IsWord r
          → IsBounded (
              (r >>= λ v. ok (some v, m')) >>= λ (x : Option ℕ × Machine). elim x.0 [
                | none ↦ ok (left x.1)
                | some v ↦ next x.1 v
              ])
      value m' s' r (no_word e) = stopped e
      value m' s' r (word v l) = k m' v s' l

      go :
          (r : Result Translation)
          → translate m va size false ≡ r
          → Keeps m r
          → IsBounded (reads m va size next)
      go r t (fails e) = rw (read_mem, t) (stopped e)
      go r t (raises e) = rw (read_mem, t, raise_exception_lem m e va) (stopped _)
      go r t (maps pa m' er em) =
          rw (read_mem, t)
            (value m' (carried m' er em) (read_value m'.main_memory pa size)
              (read_value-IsWord m'.main_memory pa size (carried m' er em).bytes))

  pub stores-IsBounded : (va size v pc : ℕ) → pc < 2 ^ 32 → IsBounded (stores m va size v pc)
  unfolding write_mem
  stores-IsBounded va size v pc h =
      go (translate m va size true) refl (translate-Keeps m va size true)
    where
      value :
          (m' : Machine)
          → IsSound m'
          → (r : Result (List ℕ)) → IsMemory (length m'.main_memory) r
          → IsBounded (
              (r >>= λ mem. ok (true, record m' { main_memory = mem })) >>= λ (x : Bool × Machine).
              elim x.0 [ false ↦ ok (left x.1) | true ↦ goes_on x.1 pc ])
      value m' s' r (no_memory e) = stopped e
      value m' s' r (memory mem l b) =
          goes_on-IsBounded _ pc
            (record { words = s'.words; target = s'.target; memory = l ∙ s'.memory; bytes = b }) h

      go :
          (r : Result Translation)
          → translate m va size true ≡ r
          → Keeps m r
          → IsBounded (stores m va size v pc)
      go r t (fails e) = rw (write_mem, t) (stopped e)
      go r t (raises e) = rw (write_mem, t, raise_exception_lem m e va) (stopped _)
      go r t (maps pa m' er em) =
          rw (write_mem, t)
            (value m' (carried m' er em) (write_value m'.main_memory pa size v)
              (write_value-IsMemory m'.main_memory pa size v (carried m' er em).bytes))
