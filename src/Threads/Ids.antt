-- ===== src/Threads/Ids.antt =====
-- `allocatedThreadID`, and the constructor and destructor of a thread (code/threads/thread.cc).
pub mod Table
use my_nachos.Shared.{
  ℕ, suc, not, Option, none, some, List, [], ◌∷◌, ◌==◌, if◌then◌else◌, put, set, Result, ok, stop,
  Stop, ◌>>=◌, ◌>>◌, assert,
}
use my_nachos.Threads.State.{Kernel, just_created, unset, set_thread}

-- The loop over `threadIDs` up to the first 0.
pub first_free : List ℕ → Option ℕ
first_free [] = none
first_free (u ∷ us) =
    if u == 0 then some 0 else elim (first_free us) [ none ↦ none | some i ↦ some (suc i) ]

-- `none` is the -1 that is returned when all are taken.
unfoldable pub allocated_thread_id : List ℕ → Option ℕ × List ℕ
unfolding first_free
allocated_thread_id ids = elim (first_free ids) [
  | none ↦ (none, ids)
  | some i ↦ (some i, set ids i 1)
]

-- The constructor, at the address `t`.
unfoldable pub new_thread : Kernel → ℕ → Kernel
new_thread k t =
    let (id, ids) = allocated_thread_id k.thread_ids in
    record (set_thread k t (record { status = just_created; saved_pc = unset; thread_id = id })) {
      thread_ids = ids;
    }

-- The destructor. `threadIDs[-1] = 0` writes outside the array.
unfoldable pub delete_thread : Kernel → ℕ → Result Kernel
delete_thread k t = do
  assert (not (t == k.current_thread))
  elim (k.threads t).thread_id [
    | none ↦ stop Stop.out_of_range
    | some id ↦ put k.thread_ids id 0 >>= λ ids. ok (record k { thread_ids = ids })
  ]
