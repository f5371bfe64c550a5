-- ===== src/Threads/Ids/Table.antt =====
-- The table of thread ids of code/threads/thread.cc: which id a new thread gets, and what its
-- destructor gives back.
use my_nachos.Shared.{
  ℕ, zero, suc, ◌<◌, ◌≡◌, ◌≢◌, refl, sym, subst, ap, false, none, some, List, [], ◌∷◌, ◌==◌, length,
  get_or, set, Result, ok, stop, Stop, arith, Bool-cases, ◌⊎◌, inl, inr, length-set,
}
use my_nachos.Threads.State.{Kernel}
use my_nachos.Threads.Ids.{first_free, allocated_thread_id, new_thread, delete_thread}

-- No id of the table is free.
abbrev pub AreTaken : List ℕ → Type 0
AreTaken [] = Unit {0}
AreTaken (u ∷ us) = (u ≢ 0) × AreTaken us

first_free_lem :
    (ids : List ℕ)
    → ((first_free ids ≡ none) × AreTaken ids)
      ⊎ ((i : ℕ) × (first_free ids ≡ some i)
          × (i < length ids)
          × (get_or ids i 1 ≡ 0)
          × ((j : ℕ) → j < i → get_or ids j 1 ≢ 0))
unfolding first_free
first_free_lem [] = inl (refl, tt)
first_free_lem (u ∷ us) = elim (Bool-cases (u == 0)) [
  | inl free ↦ inr (0, rw free refl, omega arith, ground arith, λ j h. absurd (omega arith))
  | inr taken ↦ elim (first_free_lem us) [
    | inl (e, all) ↦ inl (ground arith, ((λ z. ground arith), all))
    | inr (i, e, inside, free, below) ↦
        inr (suc i, ground arith, omega arith, free, earlier u us i taken below)
  ]
]
  where
    earlier :
        (u : ℕ) (us : List ℕ) (i : ℕ)
        → (u == 0) ≡ false
        → ((j : ℕ) → j < i → get_or us j 1 ≢ 0)
        → (j : ℕ) → j < suc i
        → get_or (u ∷ us) j 1 ≢ 0
    earlier u us i taken below zero h z = ground arith
    earlier u us i taken below (suc j) h z = below j (omega arith) z

set-set_back : (ids : List ℕ) (i : ℕ) → get_or ids i 1 ≡ 0 → set (set ids i 1) i 0 ≡ ids
set-set_back [] i h = refl
set-set_back (u ∷ us) zero h = ap (λ x. x ∷ us) (ground arith)
set-set_back (u ∷ us) (suc i) h = ap (λ l. u ∷ l) (set-set_back us i h)

-- A thread that is made and deleted again.
pub data NewDeleted (k : Kernel) (t : ℕ) : Result Kernel → Type 0 where
  all_taken :
      AreTaken k.thread_ids
      → (new_thread k t).thread_ids ≡ k.thread_ids
      → NewDeleted k t (stop Stop.out_of_range)
  returned :
      (i : ℕ) (k' : Kernel)
      → i < length k.thread_ids
      → get_or k.thread_ids i 1 ≡ 0
      → ((j : ℕ) → j < i → get_or k.thread_ids j 1 ≢ 0)
      → (new_thread k t).thread_ids ≡ set k.thread_ids i 1
      → k'.thread_ids ≡ k.thread_ids
      → NewDeleted k t (ok k')

-- A thread that is made, at an address other than the current thread's, and then deleted: if an id
-- is free it gets the first free one, only that is marked, and the deletion gives the table back
-- as it was; if all are taken the table stays and the deletion writes outside the table.
pub delete_thread-new_thread :
    (k : Kernel) (t : ℕ) → t ≢ k.current_thread → NewDeleted k t (delete_thread (new_thread k t) t)
unfolding new_thread delete_thread allocated_thread_id
delete_thread-new_thread k t other = elim (first_free_lem k.thread_ids) [
  | inl (e, all) ↦
      let r : delete_thread (new_thread k t) t ≡ stop Stop.out_of_range = ground arith in
      subst (NewDeleted k t) (sym r) (all_taken all (ground arith))
  | inr (i, e, inside, free, below) ↦
      let k' : Kernel = record (new_thread k t) { thread_ids = set (set k.thread_ids i 1) i 0 } in
      let room : i < length (set k.thread_ids i 1) = omega (arith, length-set k.thread_ids i 1) in
      let r : delete_thread (new_thread k t) t ≡ ok k' = ground (arith, room) in
      subst (NewDeleted k t) (sym r)
        (returned i k' inside free below (ground arith) (set-set_back k.thread_ids i free))
]
