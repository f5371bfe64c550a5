-- ===== src/Threads/Semaphore/Invariant.antt =====
-- The invariant of a semaphore and its threads (code/threads/synch.cc), and Yield and Sleep as it
-- sees them.
use my_nachos.Shared.{
  ℕ, ◌+◌, ◌≤◌, ◌≡◌, ◌⊎◌, refl, true, false, none, some, List, [], ◌∷◌, ◌++◌, if◌then◌else◌, Result,
  ok, stop, Stop, ◌>>=◌, arith,
}
use my_nachos.Threads.State.{
  Kernel, SavedPc, unset, thread_root, behind_switch, set_status, set_saved_pc, running,
}
use my_nachos.Threads.Scheduler.{
  run, switch, delete_carcass, yield_cpu, dispatch, find_next_to_run, ready_to_run,
}
use my_nachos.Threads.Semaphore.{System}
use my_nachos.Threads.Semaphore.Lists.{Absent, Distinct, count, AreAll}

-- The threads that were woken in P and have not tested the value again.
unfoldable pub claims : System → ℕ
claims s =
    count s.in_p s.kernel.ready_list
    + (if s.idle then 0 else if s.in_p s.kernel.current_thread then 1 else 0)

pub record IsSound (initial : ℕ) (s : System) : Type 0 where
  pub distinct : Distinct (s.kernel.ready_list ++ s.sem.queue)
  pub waiting : AreAll s.in_p s.sem.queue
  pub away : s.idle ≡ false → Absent s.kernel.current_thread (s.kernel.ready_list ++ s.sem.queue)
  pub no_lost_wakeup : (s.sem.queue ≡ []) ⊎ (s.sem.value ≤ claims s)
  pub in_sleep : s.in_idle ≡ true → s.idle ≡ true
  pub no_carcass : s.kernel.thread_to_be_destroyed ≡ none
  pub balance : s.sem.value + s.taken ≡ initial + s.given

-- The kernel after `Run`, in what matters here.
record Runs (k : Kernel) (t : ℕ) (k' : Kernel) : Type 0 where
  list : k'.ready_list ≡ k.ready_list
  current : k'.current_thread ≡ t
  clean : k'.thread_to_be_destroyed ≡ none

run-Runs :
    (k : Kernel) (t : ℕ) (k' : Kernel)
    → k.thread_to_be_destroyed ≡ none
    → run k t ≡ ok k'
    → Runs k t k'
unfolding run switch delete_carcass
run-Runs k t k' clean e = go (switch switched k.current_thread t).0 e
  where
    switched : Kernel
    switched = set_status (record k { current_thread = t }) t running

    k2 : Kernel
    k2 = set_saved_pc switched k.current_thread behind_switch

    -- From each saved PC on.
    go :
        (pc : SavedPc)
        → elim pc [
          | behind_switch ↦ delete_carcass k2
          | thread_root ↦ ok k2
          | unset ↦ stop Stop.bad_pointer
        ]
          ≡ ok k'
        → Runs k t k'
    go behind_switch r =
        let same : k2 ≡ k' = ground (arith, clean, r) in
        rw (← same) (record { list = refl; current = refl; clean = clean })
    go thread_root r =
        let same : k2 ≡ k' = ground (arith, r) in
        rw (← same) (record { list = refl; current = refl; clean = clean })
    go unset r = absurd (ground (arith, r))

-- What `Yield` does, by the ready list.
pub data Yields (k k' : Kernel) : Type 0 where
  alone :
      k.ready_list ≡ []
      → k'.ready_list ≡ []
      → k'.current_thread ≡ k.current_thread
      → k'.thread_to_be_destroyed ≡ none
      → Yields k k'
  switches :
      (t : ℕ) (ts : List ℕ)
      → k.ready_list ≡ t ∷ ts
      → k'.ready_list ≡ ts ++ (k.current_thread ∷ [])
      → k'.current_thread ≡ t
      → k'.thread_to_be_destroyed ≡ none
      → Yields k k'

pub yield_cpu-Yields :
    (k k' : Kernel) → k.thread_to_be_destroyed ≡ none → yield_cpu k ≡ ok k' → Yields k k'
unfolding yield_cpu find_next_to_run ready_to_run
yield_cpu-Yields k k' clean e = go k.ready_list refl
  where
    go : (l : List ℕ) → k.ready_list ≡ l → Yields k k'
    go [] empty = let same : k ≡ k' = ground arith in rw (← same) (alone empty empty refl clean)
    go (t ∷ ts) some_ready =
        let k1 = ready_to_run (record k { ready_list = ts }) k.current_thread in
        let ran : run k1 t ≡ ok k' = ground arith in
        let r = run-Runs k1 t k' clean ran in switches t ts some_ready r.list r.current r.clean

-- What a round of `Sleep` does when a thread is ready.
pub record Dispatches (k k' : Kernel) : Type 0 where
  pub next : ℕ
  pub others : List ℕ
  pub was : k.ready_list ≡ next ∷ others
  pub list : k'.ready_list ≡ others
  pub current : k'.current_thread ≡ next
  pub clean : k'.thread_to_be_destroyed ≡ none

pub dispatch-Dispatches :
    (k k' : Kernel) → k.thread_to_be_destroyed ≡ none → dispatch k ≡ ok (some k') → Dispatches k k'
unfolding dispatch find_next_to_run
dispatch-Dispatches k k' clean e = go k.ready_list refl
  where
    unwrap : (r : Result Kernel) → (r >>= λ k''. ok (some k'')) ≡ ok (some k') → r ≡ ok k'
    unwrap (ok a) q = ground arith
    unwrap (stop x) q = absurd (ground arith)

    go : (l : List ℕ) → k.ready_list ≡ l → Dispatches k k'
    go [] empty = absurd (ground arith)
    go (t ∷ ts) some_ready =
        let ran : run (record k { ready_list = ts }) t ≡ ok k' =
          unwrap (run (record k { ready_list = ts }) t) (ground arith) in
        let r = run-Runs (record k { ready_list = ts }) t k' clean ran in
        record {
          next = t;
          others = ts;
          was = some_ready;
          list = r.list;
          current = r.current;
          clean = r.clean;
        }
