-- ===== src/Threads/Scheduler/Calls.antt =====
-- Every call of the scheduler of code/threads/scheduler.cc and thread.cc, from a thread or a handler.
use my_nachos.Shared.{
  ℕ, ◌<◌, ◌≡◌, ◌≢◌, inl, inr, refl, sym, subst, ap, ◌∙◌, none, some, List, [], ◌∷◌, ◌++◌, length,
  Result, ok, ◌>>=◌, Succeeds, Succeeds-map, succeeds, arith,
}
use my_nachos.Threads.State.{Kernel, ThreadStatus, set_status, ready, blocked}
use my_nachos.Threads.Scheduler.{
  ready_to_run, find_next_to_run, run, fork, stack_allocate, yield_cpu, dispatch, block, finish,
}
use my_nachos.Threads.Semaphore.Lists.{Absent}
use my_nachos.Threads.Scheduler.Safety.{HasPlace, HavePlaces, IsSchedulable, run-Succeeds}

-- What a thread or an interrupt handler asks of the scheduler. `wakes` is V, for a thread of its queue.
pub data SchedulerCall : Type 0 where
  forks wakes : (t : ℕ) → SchedulerCall
  yields sleeps finishes dispatches : SchedulerCall

-- The state after the call; `dispatches` is one round of the loop of Sleep.
unfoldable pub perform : SchedulerCall → Kernel → Result Kernel
perform (forks t) k = ok (fork k t)
perform (wakes t) k = ok (ready_to_run k t)
perform yields k = yield_cpu k
perform sleeps k = ok (block k)
perform finishes k = ok (finish k)
perform dispatches k = dispatch k >>= λ next. ok (elim next [ none ↦ k | some k' ↦ k' ])

-- A finished thread is not forked or woken and does not yield; a thread that is woken has a place; and
-- the thread that finishes has an id and is not ready.
abbrev pub MayCall : SchedulerCall → Kernel → Type 0
MayCall (forks t) k = k.thread_to_be_destroyed ≢ some t
MayCall (wakes t) k = HasPlace k t × (k.thread_to_be_destroyed ≢ some t)
MayCall yields k = k.thread_to_be_destroyed ≢ some k.current_thread
MayCall sleeps k = Unit {0}
MayCall finishes k =
    Absent k.current_thread k.ready_list × ((k.threads k.current_thread).thread_id ≢ none)
MayCall dispatches k = Unit {0}

HavePlaces-append :
    (k : Kernel) (us : List ℕ) (t : ℕ)
    → HavePlaces k us
    → HasPlace k t
    → HavePlaces k (us ++ (t ∷ []))
HavePlaces-append k [] t h place = (place, tt)
HavePlaces-append k (u ∷ us) t h place = (h.0, HavePlaces-append k us t h.1 place)

Absent-end : (c : ℕ) (us : List ℕ) (t : ℕ) → c ≢ t → Absent c us → Absent c (us ++ (t ∷ []))
Absent-end c [] t ne a = (ne, tt)
Absent-end c (u ∷ us) t ne a = (a.0, Absent-end c us t ne a.1)

-- Threads keep their ids and their places, as far as they have some.
record IsKept (k k' : Kernel) : Type 0 where
  table : k'.thread_ids ≡ k.thread_ids
  numbers : (u : ℕ) → (k'.threads u).thread_id ≡ (k.threads u).thread_id
  kept : (u : ℕ) → HasPlace k u → HasPlace k' u

kept-HavePlaces : (k k' : Kernel) (us : List ℕ) → IsKept k k' → HavePlaces k us → HavePlaces k' us
kept-HavePlaces k k' [] e h = tt
kept-HavePlaces k k' (u ∷ us) e h = (e.kept u h.0, kept-HavePlaces k k' us e h.1)

set_status-IsKept : (k : Kernel) (t : ℕ) (status : ThreadStatus) → IsKept k (set_status k t status)
set_status-IsKept k t status = record {
  table = refl;
  numbers = λ u. ground arith;
  kept = λ u h. ground (arith, h);
}

stack_allocate-IsKept : (k : Kernel) (t : ℕ) → IsKept k (stack_allocate k t)
unfolding stack_allocate
stack_allocate-IsKept k t = record {
  table = refl;
  numbers = λ u. ground arith;
  kept = λ u h. ground (arith, h);
}

kept-IsSchedulable :
    (k k' : Kernel)
    → IsKept k k'
    → k'.ready_list ≡ k.ready_list
    → k'.thread_to_be_destroyed ≡ k.thread_to_be_destroyed
    → IsSchedulable k
    → IsSchedulable k'
kept-IsSchedulable k k' e list same s = record {
  ids = λ t id q. subst (λ l. id < length l) (sym e.table) (s.ids t id (sym (e.numbers t) ∙ q));
  places = subst (HavePlaces k') (sym list) (kept-HavePlaces k k' k.ready_list e s.places);
  carcass = λ c q.
      let old = s.carcass c (sym same ∙ q) in
      (subst (Absent c) (sym list) old.0, λ no_id. old.1 (sym (e.numbers c) ∙ no_id));
}

ready_to_run-IsKept : (k : Kernel) (t : ℕ) → IsKept k (ready_to_run k t)
unfolding ready_to_run
ready_to_run-IsKept k t =
    let e : IsKept k (set_status k t ready) = set_status-IsKept k t ready in
    record { table = refl; numbers = e.numbers; kept = e.kept }

ready_to_run-IsSchedulable :
    (k : Kernel) (t : ℕ)
    → HasPlace k t
    → k.thread_to_be_destroyed ≢ some t
    → IsSchedulable k
    → IsSchedulable (ready_to_run k t)
unfolding ready_to_run
ready_to_run-IsSchedulable k t place alive s =
    let e : IsKept k (ready_to_run k t) = ready_to_run-IsKept k t in
    record {
      ids = λ u id q. s.ids u id (sym (e.numbers u) ∙ q);
      places =
          HavePlaces-append (ready_to_run k t) k.ready_list t
            (kept-HavePlaces k (ready_to_run k t) k.ready_list e s.places) (e.kept t place);
      carcass = λ c q. (
        Absent-end c k.ready_list t (λ same. alive (q ∙ ap (λ u. some u) same)) (s.carcass c q).0,
        λ no_id. (s.carcass c q).1 (sym (e.numbers c) ∙ no_id),
      );
    }

fork-IsSchedulable :
    (k : Kernel) (t : ℕ)
    → k.thread_to_be_destroyed ≢ some t
    → IsSchedulable k
    → IsSchedulable (fork k t)
unfolding fork stack_allocate
fork-IsSchedulable k t alive s =
    ready_to_run-IsSchedulable (stack_allocate k t) t (inr (ground arith)) alive
      (kept-IsSchedulable k (stack_allocate k t) (stack_allocate-IsKept k t) refl refl s)

finish-IsSchedulable :
    (k : Kernel) → MayCall finishes k → IsSchedulable k → IsSchedulable (finish k)
unfolding finish block
finish-IsSchedulable k (apart, numbered) s =
    let k1 : Kernel = record k { thread_to_be_destroyed = some k.current_thread } in
    kept-IsSchedulable k1 (finish k) (set_status-IsKept k1 k.current_thread blocked) refl refl
      (record {
        ids = s.ids;
        places =
            kept-HavePlaces k k1 k.ready_list
              (record { table = refl; numbers = λ u. refl; kept = λ u h. h }) s.places;
        carcass = λ c q.
            let same : k.current_thread ≡ c = ground (arith, q) in
            subst (λ u. Absent u k.ready_list × ((k.threads u).thread_id ≢ none)) same
              (apart, numbered);
      })

-- The first of the ready list is run.
first-Succeeds :
    (k : Kernel) (t : ℕ) (ts : List ℕ)
    → k.ready_list ≡ t ∷ ts
    → IsSchedulable k
    → IsSchedulable (record k { ready_list = ts })
      × HasPlace k t
      × ((c : ℕ) → k.thread_to_be_destroyed ≡ some c → c ≢ t)
first-Succeeds k t ts e s =
    let places : HavePlaces k (t ∷ ts) = subst (HavePlaces k) e s.places in
    (
      record {
        ids = s.ids;
        places =
            kept-HavePlaces k (record k { ready_list = ts }) ts
              (record { table = refl; numbers = λ u. refl; kept = λ u h. h }) places.1;
        carcass = λ c q. ((subst (Absent c) e (s.carcass c q).0).1, (s.carcass c q).1);
      },
      places.0,
      λ c q. (subst (Absent c) e (s.carcass c q).0).0,
    )

yield_cpu-Succeeds :
    (k : Kernel)
    → k.thread_to_be_destroyed ≢ some k.current_thread
    → IsSchedulable k
    → Succeeds IsSchedulable (yield_cpu k)
unfolding yield_cpu find_next_to_run ready_to_run
yield_cpu-Succeeds k alive s = go k.ready_list refl
  where
    go : (l : List ℕ) → k.ready_list ≡ l → Succeeds IsSchedulable (yield_cpu k)
    go [] e =
        let q : yield_cpu k ≡ ok k = ground (arith, e) in
        subst (Succeeds IsSchedulable) (sym q) (succeeds s)
    go (t ∷ ts) e =
        let k1 : Kernel = record k { ready_list = ts } in
        let (s1, place, other) = first-Succeeds k t ts e s in
        let k2 : Kernel = ready_to_run k1 k.current_thread in
        let s2 : IsSchedulable k2 =
          ready_to_run-IsSchedulable k1 k.current_thread (inl refl) alive s1 in
        let q : yield_cpu k ≡ run k2 t = ground (arith, e) in
        subst (Succeeds IsSchedulable) (sym q) (
          Succeeds-map
            (run-Succeeds k2 t s2 ((ready_to_run-IsKept k1 k.current_thread).kept t place) other)
            λ k' r. r.0)

dispatch-Succeeds : (k : Kernel) → IsSchedulable k → Succeeds IsSchedulable (perform dispatches k)
unfolding perform dispatch find_next_to_run
dispatch-Succeeds k s = go k.ready_list refl
  where
    rest :
        {t : ℕ} (r : Result Kernel)
        → dispatch k ≡ (r >>= λ k''. ok (some k''))
        → Succeeds (λ k'. IsSchedulable k' × (k'.current_thread ≡ t)) r
        → Succeeds IsSchedulable (perform dispatches k)
    rest r q (succeeds {a = k'} (s', current)) =
        let e : perform dispatches k ≡ ok k' = ground (arith, q) in
        subst (Succeeds IsSchedulable) (sym e) (succeeds s')

    go : (l : List ℕ) → k.ready_list ≡ l → Succeeds IsSchedulable (perform dispatches k)
    go [] e =
        let q : perform dispatches k ≡ ok k = ground (arith, e) in
        subst (Succeeds IsSchedulable) (sym q) (succeeds s)
    go (t ∷ ts) e =
        let k1 : Kernel = record k { ready_list = ts } in
        let (s1, place, other) = first-Succeeds k t ts e s in
        let q : dispatch k ≡ (run k1 t >>= λ k''. ok (some k'')) = ground (arith, e) in
        rest (run k1 t) q (run-Succeeds k1 t s1 place other)

-- Let the ids of all threads be in the table, every ready thread have a saved PC or be the current
-- one, and the finished thread that waits to be deleted, if any, have an id and not be ready. Then
-- Fork and ReadyToRun of a thread that is not this finished one (for ReadyToRun one with a saved
-- PC, or the current one), Yield of a current thread that is not it, Sleep, the loop of Sleep, and
-- Finish of a thread that has an id and is not ready all come back, and what they leave is such a
-- state again: Run never deletes the thread that runs or one without an id, and SWITCH never goes
-- to a PC that was not set.
pub perform-IsSchedulable :
    (c : SchedulerCall) (k : Kernel)
    → IsSchedulable k
    → MayCall c k
    → Succeeds IsSchedulable (perform c k)
unfolding perform block
perform-IsSchedulable (forks t) k s may = succeeds (fork-IsSchedulable k t may s)
perform-IsSchedulable (wakes t) k s may = succeeds (ready_to_run-IsSchedulable k t may.0 may.1 s)
perform-IsSchedulable yields k s may = yield_cpu-Succeeds k may s
perform-IsSchedulable sleeps k s may = succeeds (
    kept-IsSchedulable k (set_status k k.current_thread blocked)
      (set_status-IsKept k k.current_thread blocked) refl refl s)
perform-IsSchedulable finishes k s may = succeeds (finish-IsSchedulable k may s)
perform-IsSchedulable dispatches k s may = dispatch-Succeeds k s
