-- ===== src/Threads/Scheduler.antt =====
-- code/threads/scheduler.cc, and Fork, Yield, Sleep and Finish of code/threads/thread.cc.
-- Interrupts are off in all of these; `Sleep` waits for an interrupt where no thread is ready.
pub mod Safety
pub mod Calls
use my_nachos.Shared.{ℕ, Option, none, some, [], ◌∷◌, ◌++◌, Result, ok, stop, Stop, ◌>>=◌}
use my_nachos.Threads.State.{
  Kernel, SavedPc, unset, thread_root, behind_switch, running, ready, blocked, set_status,
  set_saved_pc,
}
use my_nachos.Threads.Ids.{delete_thread}

unfoldable pub ready_to_run : Kernel → ℕ → Kernel
ready_to_run k t =
    let k' = set_status k t ready in record k' { ready_list = k.ready_list ++ (t ∷ []) }

-- The first of the ready list, and the kernel without it.
unfoldable pub find_next_to_run : Kernel → Option ℕ × Kernel
find_next_to_run k = elim k.ready_list [
  | [] ↦ (none, k)
  | t ∷ ts ↦ (some t, record k { ready_list = ts })
]

-- What stands behind SWITCH in `Run`: the thread that finished before is deleted.
unfoldable pub delete_carcass : Kernel → Result Kernel
delete_carcass k = elim k.thread_to_be_destroyed [
  | none ↦ ok k
  | some t ↦ delete_thread k t >>= λ k'. ok (record k' { thread_to_be_destroyed = none })
]

-- `SWITCH(oldThread, nextThread)`: the old thread will go on behind its SWITCH, and the processor goes to
-- the saved PC of the next one.
unfoldable pub switch : Kernel → ℕ → ℕ → SavedPc × Kernel
switch k old_thread next_thread =
    let k' = set_saved_pc k old_thread behind_switch in ((k'.threads next_thread).saved_pc, k')

-- Up to where the next thread is in its own code: behind the SWITCH of its `Run`, or in ThreadRoot
-- (code/threads/switch.s), which enables interrupts and calls the function of the thread.
unfoldable pub run : Kernel → ℕ → Result Kernel
unfolding switch delete_carcass
run k next_thread =
    let k1 = set_status (record k { current_thread = next_thread }) next_thread running in
    let (pc, k2) = switch k1 k.current_thread next_thread in
    elim pc [
      | behind_switch ↦ delete_carcass k2
      | thread_root ↦ ok k2
      | unset ↦ stop Stop.bad_pointer
    ]

-- StackAllocate, in what SWITCH goes by.
unfoldable pub stack_allocate : Kernel → ℕ → Kernel
stack_allocate k t = set_saved_pc k t thread_root

unfoldable pub fork : Kernel → ℕ → Kernel
unfolding stack_allocate ready_to_run
fork k t = ready_to_run (stack_allocate k t) t

unfoldable pub yield_cpu : Kernel → Result Kernel
yield_cpu k =
    let (next, k') = find_next_to_run k in
    elim next [ none ↦ ok k' | some t ↦ run (ready_to_run k' k.current_thread) t ]

-- One round of the loop of `Sleep`; `none` where the machine idles until the next interrupt.
unfoldable pub dispatch : Kernel → Result (Option Kernel)
dispatch k =
    let (next, k') = find_next_to_run k in
    elim next [ none ↦ ok none | some t ↦ run k' t >>= λ k''. ok (some k'') ]

-- `status = BLOCKED`; the loop of `dispatch` follows.
unfoldable pub block : Kernel → Kernel
block k = set_status k k.current_thread blocked

-- `Finish` up to the loop of `Sleep`.
unfoldable pub finish : Kernel → Kernel
unfolding block
finish k = block (record k { thread_to_be_destroyed = some k.current_thread })
