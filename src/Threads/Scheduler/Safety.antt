-- ===== src/Threads/Scheduler/Safety.antt =====
-- code/threads/scheduler.cc: Run never deletes the thread that runs, and never goes to a PC that was not
-- set.
use my_nachos.Shared.{
  ℕ, ◌<◌, ◌≡◌, ◌≢◌, ◌⊎◌, inl, inr, refl, sym, subst, ◌∙◌, true, false, none, some, List, [], ◌∷◌,
  length, length-set, set, ◌==◌, ok, stop, Stop, Succeeds, succeeds, arith, ltb, lt→ltb,
  Option-cases,
}
use my_nachos.Threads.State.{
  Kernel, SavedPc, unset, thread_root, behind_switch, set_status, set_saved_pc, running,
}
use my_nachos.Threads.Ids.{delete_thread}
use my_nachos.Threads.Scheduler.{delete_carcass, switch, run}
use my_nachos.Threads.Semaphore.Lists.{Absent}

-- SWITCH has somewhere to go for the thread, or will have, as it is the one that runs.
abbrev pub HasPlace : Kernel → ℕ → Type 0
HasPlace k t = (t ≡ k.current_thread) ⊎ ((k.threads t).saved_pc ≢ unset)

abbrev pub HavePlaces : Kernel → List ℕ → Type 0
HavePlaces k [] = Unit {0}
HavePlaces k (t ∷ ts) = HasPlace k t × HavePlaces k ts

-- The ids are in the table, every ready thread has a place to go on, and the finished thread that is to
-- be deleted, if any, has an id and is not ready.
pub record IsSchedulable (k : Kernel) : Type 0 where
  pub ids : (t id : ℕ) → (k.threads t).thread_id ≡ some id → id < length k.thread_ids
  pub places : HavePlaces k k.ready_list
  pub carcass :
      (c : ℕ)
      → k.thread_to_be_destroyed ≡ some c
      → Absent c k.ready_list × ((k.threads c).thread_id ≢ none)

-- The kernel when SWITCH has saved the PC of the old thread.
abbrev switched : Kernel → ℕ → Kernel
switched k t =
    set_saved_pc (set_status (record k { current_thread = t }) t running) k.current_thread
      behind_switch

switched-HasPlace :
    (k : Kernel) (t u : ℕ) → HasPlace k u → ((switched k t).threads u).saved_pc ≢ unset
switched-HasPlace k t u h = ground (arith, h)

switched-thread_id :
    (k : Kernel) (t u : ℕ) → ((switched k t).threads u).thread_id ≡ (k.threads u).thread_id
switched-thread_id k t u = ground arith

switched-HavePlaces :
    (k : Kernel) (t : ℕ) (us : List ℕ) → HavePlaces k us → HavePlaces (switched k t) us
switched-HavePlaces k t [] h = tt
switched-HavePlaces k t (u ∷ us) h =
    (inr (switched-HasPlace k t u h.0), switched-HavePlaces k t us h.1)

-- A kernel that differs in the table of ids only, which has its length.
ids-IsSchedulable :
    (k : Kernel) (id : ℕ)
    → IsSchedulable k
    → IsSchedulable (record k { thread_ids = set k.thread_ids id 0; thread_to_be_destroyed = none })
ids-IsSchedulable k id s = record {
  ids = λ t i e. subst (λ n. i < n) (sym (length-set k.thread_ids id 0)) (s.ids t i e);
  places = same k.ready_list s.places;
  carcass = λ c e. absurd (ground (arith, e));
}
  where
    same :
        (us : List ℕ)
        → HavePlaces k us
        → HavePlaces
            (record k { thread_ids = set k.thread_ids id 0; thread_to_be_destroyed = none })
            us
    same [] h = tt
    same (u ∷ us) h = (h.0, same us h.1)

delete_carcass-Succeeds :
    (k : Kernel)
    → IsSchedulable k
    → ((c : ℕ) → k.thread_to_be_destroyed ≡ some c → c ≢ k.current_thread)
    → Succeeds (λ k'. IsSchedulable k' × (k'.current_thread ≡ k.current_thread)) (delete_carcass k)
unfolding delete_carcass delete_thread
delete_carcass-Succeeds k s other = elim (Option-cases k.thread_to_be_destroyed) [
  | inl empty ↦
      let e : delete_carcass k ≡ ok k = ground (arith, empty) in
      subst (Succeeds (λ k'. IsSchedulable k' × (k'.current_thread ≡ k.current_thread))) (sym e)
        (succeeds (s, refl))
  | inr (c, there) ↦ elim (Option-cases (k.threads c).thread_id) [
    | inl missing ↦ absurd ((s.carcass c there).1 missing)
    | inr (id, numbered) ↦
        let apart : (c == k.current_thread) ≡ false = ground (arith, other c there) in
        let in_table : ltb id (length k.thread_ids) ≡ true =
          lt→ltb id (length k.thread_ids) (s.ids c id numbered) in
        let e : delete_carcass k
            ≡ ok (record k { thread_ids = set k.thread_ids id 0; thread_to_be_destroyed = none }) =
          ground (arith, there, apart, numbered, in_table) in
        subst (Succeeds (λ k'. IsSchedulable k' × (k'.current_thread ≡ k.current_thread))) (sym e)
          (succeeds (ids-IsSchedulable k id s, refl))
  ]
]

-- Run of a thread that has a place and is not the one to be deleted.
pub run-Succeeds :
    (k : Kernel) (t : ℕ)
    → IsSchedulable k
    → HasPlace k t
    → ((c : ℕ) → k.thread_to_be_destroyed ≡ some c → c ≢ t)
    → Succeeds (λ k'. IsSchedulable k' × (k'.current_thread ≡ t)) (run k t)
unfolding run switch
run-Succeeds k t s place other =
    go ((switched k t).threads t).saved_pc (switched-HasPlace k t t place)
  where
    fine : IsSchedulable (switched k t)
    fine = record {
      ids = λ u id e. s.ids u id (sym (switched-thread_id k t u) ∙ e);
      places = switched-HavePlaces k t k.ready_list s.places;
      carcass = λ c e. (
        (s.carcass c e).0,
        λ none_id. (s.carcass c e).1 (sym (switched-thread_id k t c) ∙ none_id),
      );
    }

    go :
        (pc : SavedPc)
        → pc ≢ unset
        → Succeeds
            (λ k'. IsSchedulable k' × (k'.current_thread ≡ t))
            (elim pc [
              | behind_switch ↦ delete_carcass (switched k t)
              | thread_root ↦ ok (switched k t)
              | unset ↦ stop Stop.bad_pointer
            ])
    go behind_switch set_pc = delete_carcass-Succeeds (switched k t) fine other
    go thread_root set_pc = succeeds (fine, refl)
    go unset set_pc = absurd (set_pc refl)
