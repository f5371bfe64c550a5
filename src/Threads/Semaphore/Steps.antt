-- ===== src/Threads/Semaphore/Steps.antt =====
-- The steps of the threads that use a semaphore (code/threads/synch.cc).
use mathlib.Core.List.{append_assoc, append-nil}
use my_nachos.Shared.{
  ℕ, ◌+◌, ◌-◌, ◌≡◌, ◌≢◌, inl, inr, refl, sym, subst, ◌∙◌, ap, Bool, true, false, List, [], ◌∷◌,
  ◌++◌, ◌==◌, arith, Bool-cases,
}
use my_nachos.Threads.State.{Kernel}
use my_nachos.Threads.Scheduler.{ready_to_run, fork, block}
use my_nachos.Threads.Semaphore.{
  System, Step, Reach, here, next, round, post, p_round, sem_v, update, calls_p, tries_again,
  calls_v, idles, interrupt_v, idle_returns, yields, forks, wakes,
}
use my_nachos.Threads.Semaphore.Lists.{
  Absent, Distinct, count, AreAll, Absent-insert, Distinct-insert, Absent-left, Absent-right,
  count-append, count-Absent, AreAll-Absent, AreAll-append,
}
use my_nachos.Threads.Semaphore.Invariant.{
  IsSound, claims, Yields, alone, switches, yield_cpu-Yields, Dispatches, dispatch-Dispatches,
}

-- The three places of a thread list at which a thread can be added.
to_end :
    (t : ℕ) (xs ys : List ℕ)
    → Absent t (xs ++ ys)
    → Distinct (xs ++ ys)
    → Distinct (xs ++ (ys ++ (t ∷ [])))
to_end t xs ys a d = subst Distinct (append_assoc xs ys (t ∷ [])) (
    Distinct-insert t (xs ++ ys) [] (subst (Absent t) (sym (append-nil (xs ++ ys))) a)
      (subst Distinct (sym (append-nil (xs ++ ys))) d))

module _ (initial : ℕ) (s : System) (v : IsSound initial s) where
  abbrev c : ℕ
  c = s.kernel.current_thread

  round-IsSound : s.idle ≡ false → IsSound initial (round s)
  unfolding round p_round block claims
  round-IsSound busy = elim (Bool-cases (s.sem.value == 0)) [
    | inl empty ↦
        let e : round s ≡ record s {
          kernel = block s.kernel;
          sem = record s.sem { queue = s.sem.queue ++ (c ∷ []) };
          in_p = update s.in_p c true;
          idle = true;
        } =
          rw empty in
        subst (IsSound initial) (sym e) (record {
          distinct = to_end c s.kernel.ready_list s.sem.queue (v.away busy) v.distinct;
          waiting =
              AreAll-append _ s.sem.queue (c ∷ [])
                (AreAll-Absent s.in_p c true s.sem.queue
                  (Absent-right c s.kernel.ready_list s.sem.queue (v.away busy)) v.waiting)
                (ground arith, tt);
          away = λ h. absurd (cc);
          no_lost_wakeup = inr (ground arith);
          in_sleep = λ h. refl;
          no_carcass = v.no_carcass;
          balance = v.balance;
        })
    | inr some_value ↦
        let e : round s ≡ record s {
          sem = record s.sem { value = s.sem.value - 1 };
          in_p = update s.in_p c false;
          idle = false;
          taken = s.taken + 1;
        } =
          rw some_value in
        subst (IsSound initial) (sym e) (record {
          distinct = v.distinct;
          waiting =
              AreAll-Absent s.in_p c false s.sem.queue
                (Absent-right c s.kernel.ready_list s.sem.queue (v.away busy)) v.waiting;
          away = λ h. v.away busy;
          no_lost_wakeup = ground (
            arith,
            v.no_lost_wakeup,
            count-Absent s.in_p c false s.kernel.ready_list
                (Absent-left c s.kernel.ready_list s.sem.queue (v.away busy)),
          );
          in_sleep = λ h. sym busy ∙ v.in_sleep h;
          no_carcass = v.no_carcass;
          balance = ground (arith, v.balance);
        })
  ]

  -- V with a waiter: the list of ready threads and waiters is the same, read in another place.
  woken :
      (t : ℕ) (ts : List ℕ)
      → s.sem.queue ≡ t ∷ ts
      → IsSound initial (record s {
        kernel = ready_to_run s.kernel t;
        sem = record { value = s.sem.value + 1; queue = ts };
        given = s.given + 1;
      })
  unfolding ready_to_run claims count
  woken t ts some_waiter =
      let ready = s.kernel.ready_list in
      let same_list : (ready ++ (t ∷ [])) ++ ts ≡ ready ++ s.sem.queue =
        append_assoc ready (t ∷ []) ts ∙ ap (λ l. ready ++ l) (sym some_waiter) in
      let waits : AreAll s.in_p (t ∷ ts) = subst (AreAll s.in_p) some_waiter v.waiting in
      record {
        distinct = subst Distinct (sym same_list) v.distinct;
        waiting = waits.1;
        away = λ busy. subst (Absent c) (sym same_list) (v.away busy);
        no_lost_wakeup =
            inr (ground (arith, v.no_lost_wakeup, waits.0, count-append s.in_p ready (t ∷ [])));
        in_sleep = v.in_sleep;
        no_carcass = v.no_carcass;
        balance = omega (arith, v.balance);
      }

  post-IsSound : IsSound initial (post s)
  unfolding post sem_v claims
  post-IsSound = go s.sem.queue refl
    where
      go : (l : List ℕ) → s.sem.queue ≡ l → IsSound initial (post s)
      go [] empty =
          let e : post s
              ≡ record s { sem = record s.sem { value = s.sem.value + 1 }; given = s.given + 1 } =
            ground arith in
          subst (IsSound initial) (sym e) (record {
            distinct = v.distinct;
            waiting = v.waiting;
            away = v.away;
            no_lost_wakeup = inl empty;
            in_sleep = v.in_sleep;
            no_carcass = v.no_carcass;
            balance = omega (arith, v.balance);
          })
      go (t ∷ ts) some_waiter =
          let e : post s ≡ record s {
            kernel = ready_to_run s.kernel t;
            sem = record { value = s.sem.value + 1; queue = ts };
            given = s.given + 1;
          } =
            ground arith in
          subst (IsSound initial) (sym e) (woken t ts some_waiter)

  yields-IsSound :
      (k : Kernel)
      → s.idle ≡ false
      → s.in_p c ≡ false
      → Yields s.kernel k
      → IsSound initial (record s { kernel = k })
  unfolding claims count
  yields-IsSound k busy outside (alone was list current clean) = record {
    distinct = subst (λ l. Distinct (l ++ s.sem.queue)) (was ∙ sym list) v.distinct;
    waiting = v.waiting;
    away =
        λ h. rw current (subst (λ l. Absent c (l ++ s.sem.queue)) (was ∙ sym list) (v.away busy));
    no_lost_wakeup = ground (arith, v.no_lost_wakeup);
    in_sleep = v.in_sleep;
    no_carcass = clean;
    balance = v.balance;
  }
  yields-IsSound k busy outside (switches t ts was list current clean) =
      let d : Distinct (t ∷ (ts ++ s.sem.queue)) =
        subst (λ l. Distinct (l ++ s.sem.queue)) was v.distinct in
      let a : Absent c (t ∷ (ts ++ s.sem.queue)) =
        subst (λ l. Absent c (l ++ s.sem.queue)) was (v.away busy) in
      let new_list : k.ready_list ++ s.sem.queue ≡ ts ++ (c ∷ s.sem.queue) =
        ap (λ l. l ++ s.sem.queue) list ∙ append_assoc ts (c ∷ []) s.sem.queue in
      record {
        distinct = subst Distinct (sym new_list) (Distinct-insert c ts s.sem.queue a.1 d.1);
        waiting = v.waiting;
        away = λ h. rw current (
            subst (Absent t) (sym new_list)
              (Absent-insert t c ts s.sem.queue (λ e. a.0 (sym e)) d.0));
        no_lost_wakeup = ground (arith, v.no_lost_wakeup, count-append s.in_p ts (c ∷ []));
        in_sleep = v.in_sleep;
        no_carcass = clean;
        balance = v.balance;
      }

  wakes-IsSound :
      (k : Kernel)
      → s.idle ≡ true
      → s.in_idle ≡ false
      → Dispatches s.kernel k
      → IsSound initial (record s { kernel = k; idle = false })
  unfolding claims count
  wakes-IsSound k asleep outside r =
      let d : Distinct (r.next ∷ (r.others ++ s.sem.queue)) =
        subst (λ l. Distinct (l ++ s.sem.queue)) r.was v.distinct in
      record {
        distinct = subst (λ l. Distinct (l ++ s.sem.queue)) (sym r.list) d.1;
        waiting = v.waiting;
        away = λ h. rw (r.current, r.list) d.0;
        no_lost_wakeup = ground (arith, v.no_lost_wakeup, r);
        in_sleep = λ h. absurd (cc);
        no_carcass = r.clean;
        balance = v.balance;
      }

  forks-IsSound :
      (t : ℕ)
      → s.idle ≡ false
      → s.in_p t ≡ false
      → t ≢ c
      → Absent t (s.kernel.ready_list ++ s.sem.queue)
      → IsSound initial (record s { kernel = fork s.kernel t })
  unfolding claims count fork ready_to_run
  forks-IsSound t busy outside ne fresh =
      let ready = s.kernel.ready_list in
      let new_list = append_assoc ready (t ∷ []) s.sem.queue in
      record {
        distinct =
            subst Distinct (sym new_list) (Distinct-insert t ready s.sem.queue fresh v.distinct);
        waiting = v.waiting;
        away = λ h.
            subst (Absent c) (sym new_list)
              (Absent-insert c t ready s.sem.queue (λ e. ne (sym e)) (v.away busy));
        no_lost_wakeup = ground (arith, v.no_lost_wakeup, count-append s.in_p ready (t ∷ []));
        in_sleep = v.in_sleep;
        no_carcass = v.no_carcass;
        balance = v.balance;
      }

  -- Interrupt::Idle is entered or left.
  in_idle-IsSound :
      (inside : Bool)
      → (inside ≡ true → s.idle ≡ true)
      → IsSound initial (record s { in_idle = inside })
  unfolding claims count
  in_idle-IsSound inside sleeps = record {
    distinct = v.distinct;
    waiting = v.waiting;
    away = v.away;
    no_lost_wakeup = v.no_lost_wakeup;
    in_sleep = sleeps;
    no_carcass = v.no_carcass;
    balance = v.balance;
  }

Step-IsSound : (initial : ℕ) {s t : System} → Step s t → IsSound initial s → IsSound initial t
Step-IsSound initial (calls_p s busy outside) v = round-IsSound initial s v busy
Step-IsSound initial (tries_again s busy inside) v = round-IsSound initial s v busy
Step-IsSound initial (calls_v s busy outside) v = post-IsSound initial s v
Step-IsSound initial (idles s asleep outside e) v = in_idle-IsSound initial s v true (λ h. asleep)
Step-IsSound initial (interrupt_v s inside) v = post-IsSound initial s v
Step-IsSound initial (idle_returns s inside) v =
    in_idle-IsSound initial s v false (λ h. absurd (cc))
Step-IsSound initial (yields s k busy outside e) v =
    yields-IsSound initial s v k busy outside (yield_cpu-Yields s.kernel k v.no_carcass e)
Step-IsSound initial (forks s t busy outside not_in ne fresh) v =
    forks-IsSound initial s v t busy not_in ne fresh
Step-IsSound initial (wakes s k asleep outside e) v =
    wakes-IsSound initial s v k asleep outside (dispatch-Dispatches s.kernel k v.no_carcass e)

-- Whatever sequence of P, V, Yield, Fork, sleeps and wakeups runs from a sound system, and with
-- any number of V from interrupt handlers each time that the machine idles, the system stays
-- sound: the threads in the ready list and in the queue are distinct, the queue holds only threads
-- in P, the current thread is in no list unless it is in the loop of Sleep, the machine idles only
-- there, the value is the initial one plus the V minus the finished P, and while a thread waits
-- each unit of the value is claimed by a thread that was woken in P.
pub Reach-IsSound : (initial : ℕ) {s t : System} → IsSound initial s → Reach s t → IsSound initial t
Reach-IsSound initial v here = v
Reach-IsSound initial v (next r st) = Step-IsSound initial st (Reach-IsSound initial v r)

-- No wakeup is lost: where steps from a sound system have come to a thread in the loop of Sleep,
-- with an empty ready list, and a thread still waits in the queue, the value is 0 and the finished
-- P are as many as the initial value and the V.
pub rest-value :
    (initial : ℕ) {s t : System}
    → IsSound initial s
    → Reach s t
    → t.idle ≡ true
    → t.kernel.ready_list ≡ []
    → t.sem.queue ≢ []
    → (t.sem.value ≡ 0) × (t.taken ≡ initial + t.given)
unfolding claims count
rest-value initial {t} v r asleep none_ready waits = ground (arith, Reach-IsSound initial v r)
