-- ===== src/Threads/State.antt =====
-- The objects of code/threads/thread.h, scheduler.h and system.h: a thread is named by its address.
use my_nachos.Shared.{ℕ, Option, List, ◌==◌, if◌then◌else◌}

pub data ThreadStatus : Type 0 where
  just_created running ready blocked : ThreadStatus

-- Where the saved state of a thread goes on: the constructor leaves it unset, StackAllocate sets it to
-- ThreadRoot, and SWITCH saves its own return address.
pub data SavedPc : Type 0 where
  unset thread_root behind_switch : SavedPc

-- `saved_pc` is the PC of `machineState`, or the return address on the new stack that SWITCH goes to;
-- `thread_id` is `none` for -1.
pub record Thread : Type 0 where
  pub status : ThreadStatus
  pub saved_pc : SavedPc
  pub thread_id : Option ℕ

-- The global variables of system.cc; `ready_list` is the scheduler's.
pub record Kernel : Type 0 where
  pub threads : ℕ → Thread
  pub ready_list : List ℕ
  pub current_thread : ℕ
  pub thread_to_be_destroyed : Option ℕ
  pub thread_ids : List ℕ

abbrev pub max_thread : ℕ
max_thread = 128

abbrev pub set_thread : Kernel → ℕ → Thread → Kernel
set_thread k t th = record k { threads = λ u. if u == t then th else k.threads u }

abbrev pub set_status : Kernel → ℕ → ThreadStatus → Kernel
set_status k t s = set_thread k t (record (k.threads t) { status = s })

abbrev pub set_saved_pc : Kernel → ℕ → SavedPc → Kernel
set_saved_pc k t pc = set_thread k t (record (k.threads t) { saved_pc = pc })
