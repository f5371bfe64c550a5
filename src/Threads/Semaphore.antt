-- ===== src/Threads/Semaphore.antt =====
-- Semaphore::P and V of code/threads/synch.cc, and the threads that use one semaphore.
pub mod Lists
pub mod Invariant
pub mod Steps
use my_nachos.Shared.{
  ℕ, ◌+◌, ◌-◌, ◌≡◌, ◌≢◌, Bool, true, false, Option, none, some, List, [], ◌∷◌, ◌++◌, ◌==◌,
  if◌then◌else◌, Result, ok,
}
use my_nachos.Threads.State.{Kernel}
use my_nachos.Threads.Scheduler.{ready_to_run, fork, yield_cpu, dispatch, block}
use my_nachos.Threads.Semaphore.Lists.{Absent}

pub record Semaphore : Type 0 where
  pub value : ℕ
  pub queue : List ℕ

unfoldable pub new_semaphore : ℕ → Semaphore
new_semaphore initial_value = record { value = initial_value; queue = [] }

-- V: the first waiter, if any, becomes ready; the value grows in any case.
unfoldable pub sem_v : Kernel → Semaphore → Kernel × Semaphore
sem_v k s = elim s.queue [
  | [] ↦ (k, record s { value = s.value + 1 })
  | t ∷ ts ↦ (ready_to_run k t, record { value = s.value + 1; queue = ts })
]

-- One test of the loop of P: the current thread goes to sleep (`false`), or takes the value.
unfoldable pub p_round : Kernel → Semaphore → Bool × Kernel × Semaphore
p_round k s =
    if s.value == 0
    then (false, block k, record s { queue = s.queue ++ (k.current_thread ∷ []) })
    else (true, k, record s { value = s.value - 1 })

-- `in_p`: the thread has called P and has not come back. `idle`: the current thread is in the loop
-- of Sleep. `in_idle`: it is inside Interrupt::Idle, which that loop calls. `taken` and `given` count the P that came back, and the V.
pub record System : Type 0 where
  pub kernel : Kernel
  pub sem : Semaphore
  pub in_p : ℕ → Bool
  pub idle : Bool
  pub in_idle : Bool
  pub taken : ℕ
  pub given : ℕ

abbrev pub update : (ℕ → Bool) → ℕ → Bool → ℕ → Bool
update f t b u = if u == t then b else f u

-- The current thread tests the value.
unfoldable pub round : System → System
unfolding p_round
round s =
    let (took, k, sem) = p_round s.kernel s.sem in
    let t = s.kernel.current_thread in
    record {
      kernel = k;
      sem = sem;
      in_p = update s.in_p t (if took then false else true);
      idle = if took then false else true;
      in_idle = s.in_idle;
      taken = if took then s.taken + 1 else s.taken;
      given = s.given;
    }

unfoldable pub post : System → System
post s =
    let (k, sem) = sem_v s.kernel s.sem in record s { kernel = k; sem = sem; given = s.given + 1 }

-- What can happen next. Interrupts are off in P and V, so that each is one step up to a switch. A V
-- from an interrupt handler is `calls_v` where a thread runs with interrupts on, and `interrupt_v`
-- inside Interrupt::Idle, which may call any number of handlers before it returns; only then does
-- the loop of Sleep look at the ready list again.
pub data Step : System → System → Type 0 where
  calls_p :
      (s : System) → s.idle ≡ false → s.in_p s.kernel.current_thread ≡ false → Step s (round s)
  tries_again :
      (s : System) → s.idle ≡ false → s.in_p s.kernel.current_thread ≡ true → Step s (round s)
  calls_v : (s : System) → s.idle ≡ false → s.in_p s.kernel.current_thread ≡ false → Step s (post s)
  idles :
      (s : System)
      → s.idle ≡ true
      → s.in_idle ≡ false
      → dispatch s.kernel ≡ ok none
      → Step s (record s { in_idle = true })
  interrupt_v : (s : System) → s.in_idle ≡ true → Step s (post s)
  idle_returns : (s : System) → s.in_idle ≡ true → Step s (record s { in_idle = false })
  yields :
      (s : System) (k : Kernel)
      → s.idle ≡ false
      → s.in_p s.kernel.current_thread ≡ false
      → yield_cpu s.kernel ≡ ok k
      → Step s (record s { kernel = k })
  forks :
      (s : System) (t : ℕ)
      → s.idle ≡ false
      → s.in_p s.kernel.current_thread ≡ false
      → s.in_p t ≡ false
      → t ≢ s.kernel.current_thread
      → Absent t (s.kernel.ready_list ++ s.sem.queue)
      → Step s (record s { kernel = fork s.kernel t })
  wakes :
      (s : System) (k : Kernel)
      → s.idle ≡ true
      → s.in_idle ≡ false
      → dispatch s.kernel ≡ ok (some k)
      → Step s (record s { kernel = k; idle = false })

pub data Reach (s : System) : System → Type 0 where
  here : Reach s s
  next : {t u : System} → Reach s t → Step t u → Reach s u
