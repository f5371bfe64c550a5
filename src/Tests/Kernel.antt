-- ===== src/Tests/Kernel.antt =====
-- Runs of code/threads/scheduler.cc, thread.cc and synch.cc.
use my_nachos.Shared.{
  inr, if◌then◌else◌, ltb, elem, ◌>>=◌, Succeeds, ok, arith, ◌≡◌, refl, inl, true, false, none,
  some, [], ◌∷◌, replicate,
}
use my_nachos.Threads.State.{Kernel, ready, running, behind_switch, set_status, set_saved_pc}
use my_nachos.Threads.Ids.{new_thread, delete_thread}
use my_nachos.Threads.Ids.Table.{NewDeleted, delete_thread-new_thread}
use my_nachos.Threads.Scheduler.{dispatch}
use my_nachos.Threads.Scheduler.Safety.{IsSchedulable}
use my_nachos.Threads.Scheduler.Calls.{dispatches, perform, perform-IsSchedulable}
use my_nachos.Threads.Semaphore.{
  System, Reach, here, next, calls_p, idles, interrupt_v, idle_returns, wakes, round, post, p_round,
}
use my_nachos.Threads.Semaphore.Invariant.{IsSound, claims}
use my_nachos.Threads.Semaphore.Steps.{Reach-IsSound, rest-value}

abbrev alone : Kernel
alone = record {
  threads = λ t. record { status = running; saved_pc = behind_switch; thread_id = some t };
  ready_list = [];
  current_thread = 0;
  thread_to_be_destroyed = none;
  thread_ids = 1 ∷ replicate 127 0;
}

-- The only thread, before it calls P on a semaphore of value 0.
abbrev before_p : System
before_p = record {
  kernel = alone;
  sem = record { value = 0; queue = [] };
  in_p = λ t. false;
  idle = false;
  in_idle = false;
  taken = 0;
  given = 0;
}

before_p-IsSound : IsSound 0 before_p
unfolding claims
before_p-IsSound = record {
  distinct = tt;
  waiting = tt;
  away = λ e. tt;
  no_lost_wakeup = inl refl;
  in_sleep = λ e. absurd (cc);
  no_carcass = refl;
  balance = refl;
}

asleep : Reach before_p (round before_p)
asleep = next here (calls_p before_p refl refl)

-- The machine idles, two interrupt handlers call V before Interrupt::Idle returns, and the thread is
-- woken.
abbrev in_idle : System
in_idle = record (round before_p) { in_idle = true }

abbrev after_idle : System
after_idle = record (post (post in_idle)) { in_idle = false }

abbrev woken : Kernel
woken =
    set_saved_pc (set_status (record after_idle.kernel { ready_list = [] }) 0 running) 0
      behind_switch

idles_run : dispatch (round before_p).kernel ≡ ok none
unfolding dispatch round p_round my_nachos.Threads.Scheduler.block
    my_nachos.Threads.Scheduler.find_next_to_run
idles_run = refl

wakes_run : dispatch after_idle.kernel ≡ ok (some woken)
unfolding dispatch round p_round post my_nachos.Threads.Semaphore.sem_v
    my_nachos.Threads.Scheduler.block my_nachos.Threads.Scheduler.find_next_to_run
    my_nachos.Threads.Scheduler.ready_to_run my_nachos.Threads.Scheduler.run
    my_nachos.Threads.Scheduler.switch my_nachos.Threads.Scheduler.delete_carcass
wakes_run = refl

in_idle-next : Reach before_p in_idle
unfolding round p_round
in_idle-next = next asleep (idles (round before_p) refl refl idles_run)

after_idle-next : Reach before_p after_idle
unfolding post my_nachos.Threads.Semaphore.sem_v
after_idle-next =
    next (next (next in_idle-next (interrupt_v in_idle refl)) (interrupt_v (post in_idle) refl))
      (idle_returns (post (post in_idle)) refl)

still_asleep : after_idle.idle ≡ true
unfolding post round p_round my_nachos.Threads.Semaphore.sem_v my_nachos.Threads.Scheduler.block
still_asleep = refl

Reach-IsSound_example : IsSound 0 (record after_idle { kernel = woken; idle = false })
Reach-IsSound_example =
    Reach-IsSound 0 before_p-IsSound
      (next after_idle-next (wakes after_idle woken still_asleep refl wakes_run))

rest-value_example :
    ((round before_p).sem.value ≡ 0) × ((round before_p).taken ≡ (round before_p).given)
unfolding round p_round my_nachos.Threads.Scheduler.block
rest-value_example = rest-value 0 before_p-IsSound asleep refl refl (λ e. cc)

delete_thread-new_thread_example : NewDeleted alone 5 (delete_thread (new_thread alone 5) 5)
delete_thread-new_thread_example = delete_thread-new_thread alone 5 (λ e. omega arith)

-- Thread 1 has finished, and thread 2 is ready.
abbrev finished : Kernel
finished = record alone {
  threads = λ t. record {
    status = ready;
    saved_pc = behind_switch;
    thread_id = if ltb t 128 then some t else none;
  };
  ready_list = 2 ∷ [];
  current_thread = 1;
  thread_to_be_destroyed = some 1;
  thread_ids = 1 ∷ 1 ∷ 1 ∷ replicate 125 0;
}

finished-IsSchedulable : IsSchedulable finished
finished-IsSchedulable = record {
  ids = λ t id e. ground arith;
  places = (inr (λ e. ground arith), tt);
  carcass = λ c e. ground arith;
}

perform-IsSchedulable_example : Succeeds IsSchedulable (perform dispatches finished)
perform-IsSchedulable_example = perform-IsSchedulable dispatches finished finished-IsSchedulable tt

-- Its id is free again.
bury_run : (perform dispatches finished >>= λ k. elem k.thread_ids 1) ≡ ok 0
unfolding perform dispatch my_nachos.Threads.Scheduler.find_next_to_run
    my_nachos.Threads.Scheduler.run my_nachos.Threads.Scheduler.switch
    my_nachos.Threads.Scheduler.delete_carcass my_nachos.Threads.Ids.delete_thread
bury_run = refl
