-- ===== src/Interrupt/Clock.antt =====
-- Interrupt::OneTick and CheckIfDue of code/machine/interrupt.cc.
use my_nachos.Shared.{
  ◌^◌, int_of_lem, lt→ltb, ℕ, zero, suc, ◌+◌, ◌≤◌, ◌<◌, ◌≡◌, refl, sym, ◌∙◌, ◌⊎◌, ◌&&◌, subst, Bool,
  true, false, some, List, [], ◌∷◌, ltb, Result, ok, arith, Bool-cases, inl, inr,
}
use my_nachos.Machine.State.{system_mode}
use my_nachos.Interrupt.{
  PendingInterrupt, Sim, int_off, IntType, is_idle, is_timer, is_empty, sorted_insert, schedule,
  invoke, fire, check_if_due, fire_due,
}
use my_nachos.Interrupt.Pending.{
  IsSorted, IsLow, due, sorted_insert-IsSorted, due-sorted_insert, due-IsLow,
}

module _ {W : Type 0} where
  -- What a handler may do: it comes back, leaves the clock and the interrupt level, and adds only
  -- interrupts that are still to come.
  pub record Keeps (s s' : Sim W) : Type 0 where
    pub level : s'.level ≡ s.level
    pub ticks : s'.total_ticks ≡ s.total_ticks
    pub sorted : IsSorted s'.pending
    pub no_more_due : due s.total_ticks s'.pending ≤ due s.total_ticks s.pending

  -- With a positive delay and a time that an int holds, Schedule passes its assertion and is an
  -- action that a handler may take: it leaves the clock and the level, keeps the pending list
  -- sorted, and adds no interrupt that is already due.
  pub schedule-Keeps :
      (handler arg from_now : ℕ) (type : IntType) (s : Sim W)
      → IsSorted s.pending
      → 0 < from_now
      → s.total_ticks + from_now < 2 ^ 31
      → (s' : Sim W) × (schedule handler arg from_now type s ≡ ok s') × Keeps s s'
  unfolding schedule
  schedule-Keeps handler arg from_now type s sorted h small =
      let p : PendingInterrupt = record {
        handler = handler;
        arg = arg;
        when = s.total_ticks + from_now;
        type = type;
      } in
      (
        record s { pending = sorted_insert p s.pending },
        rw (int_of_lem (s.total_ticks + from_now) small, lt→ltb 0 from_now h) refl,
        record {
          level = refl;
          ticks = refl;
          sorted = sorted_insert-IsSorted p s.pending sorted;
          no_more_due = ground (arith, due-sorted_insert s.total_ticks p s.pending);
        },
      )

  -- The state when the loop has ended, on an idle machine too, where the last timer interrupt stays.
  pub record Settles (s s' : Sim W) : Type 0 where
    pub level : s'.level ≡ s.level
    pub ticks : s'.total_ticks ≡ s.total_ticks
    pub status : s'.status ≡ s.status
    pub sorted : IsSorted s'.pending
    pub idle_or_none : (is_idle s.status ≡ true) ⊎ (due s.total_ticks s'.pending ≡ 0)

  -- Whether an idle machine has only a timer interrupt left.
  abbrev last_timer : Sim W → PendingInterrupt → List PendingInterrupt → Bool
  last_timer s p ps = is_idle s.status && (is_timer p.type && is_empty ps)

  module _ (call : ℕ → ℕ → Sim W → Result (Sim W)) (machine_load : W → W)
      (obeys : (h a : ℕ) (s : Sim W)
        → IsSorted s.pending
        → (s' : Sim W) × (call h a s ≡ ok s') × Keeps s s') where
    -- The outcomes of CheckIfDue(FALSE).
    check_none :
        (s : Sim W)
        → s.level ≡ int_off
        → s.pending ≡ []
        → check_if_due call machine_load false s ≡ ok (false, s)
    unfolding check_if_due
    check_none s off e = ground arith

    check_later :
        (s : Sim W) (p : PendingInterrupt) (ps : List PendingInterrupt)
        → s.level ≡ int_off
        → s.pending ≡ p ∷ ps
        → s.total_ticks < p.when
        → check_if_due call machine_load false s
          ≡ ok (false, record s { pending = sorted_insert p ps })
    unfolding check_if_due
    check_later s p ps off e later = ground arith

    check_last :
        (s : Sim W) (p : PendingInterrupt) (ps : List PendingInterrupt)
        → s.level ≡ int_off
        → last_timer s p ps ≡ true
        → s.pending ≡ p ∷ ps
        → ltb s.total_ticks p.when ≡ false
        → check_if_due call machine_load false s
          ≡ ok (false, record s { pending = sorted_insert p ps })
    unfolding check_if_due fire
    check_last s p ps off last e now = ground arith

    check_fires :
        (s s' : Sim W) (p : PendingInterrupt) (ps : List PendingInterrupt)
        → s.level ≡ int_off
        → last_timer s p ps ≡ false
        → s.pending ≡ p ∷ ps
        → ltb s.total_ticks p.when ≡ false
        → call p.handler p.arg (record s {
          pending = ps;
          world = machine_load s.world;
          in_handler = true;
          status = system_mode;
        })
          ≡ ok s'
        → check_if_due call machine_load false s
          ≡ ok (true, record s' { status = s.status; in_handler = false })
    unfolding check_if_due fire invoke
    check_fires s s' p ps off busy e now run = ground (arith, run)

    -- The loop with `n` rounds ends where fewer interrupts are due.
    unfoldable pub Fires : ℕ → Type 0
    Fires n =
        (s : Sim W)
        → s.level ≡ int_off
        → IsSorted s.pending
        → due s.total_ticks s.pending < n
        → (s' : Sim W) × (fire_due call machine_load n s ≡ some (ok s')) × Settles s s'

    module _ (n : ℕ) (more : Fires n) (s : Sim W) (off : s.level ≡ int_off)
        (sorted : IsSorted s.pending) (few : due s.total_ticks s.pending < suc n) where
      fires_first :
          (p : PendingInterrupt) (ps : List PendingInterrupt)
          → s.pending ≡ p ∷ ps
          → ltb s.total_ticks p.when ≡ false
          → last_timer s p ps ≡ false
          → (s' : Sim W) × (fire_due call machine_load (suc n) s ≡ some (ok s')) × Settles s s'
      unfolding fire_due due Fires
      fires_first p ps e now other =
          let s0 : Sim W = record s {
            pending = ps;
            world = machine_load s.world;
            in_handler = true;
            status = system_mode;
          } in
          let (s1, run, k) = obeys p.handler p.arg s0 (subst IsSorted e sorted).1 in
          let s2 : Sim W = record s1 { status = s.status; in_handler = false } in
          let fewer : due s.total_ticks ps < n = ground (arith, few, e, now) in
          let small : due s1.total_ticks s1.pending < n =
            subst (λ t. due t s1.pending < n) (sym k.ticks) (omega (arith, k.no_more_due, fewer)) in
          let (s3, rest, a) = more s2 (k.level ∙ off) k.sorted small in
          let left : (is_idle s.status ≡ true) ⊎ (due s.total_ticks s3.pending ≡ 0) =
            subst (λ t. (is_idle s.status ≡ true) ⊎ (due t s3.pending ≡ 0)) k.ticks
              a.idle_or_none in
          (
            s3,
            ground (arith, check_fires s s1 p ps off other e now run, rest),
            record {
              level = a.level ∙ k.level;
              ticks = a.ticks ∙ k.ticks;
              status = a.status;
              sorted = a.sorted;
              idle_or_none = left;
            },
          )

      one_round :
          (l : List PendingInterrupt)
          → s.pending ≡ l
          → (s' : Sim W) × (fire_due call machine_load (suc n) s ≡ some (ok s')) × Settles s s'
      unfolding fire_due due
      one_round [] e = (
        s,
        ground (arith, check_none s off e),
        record {
          level = refl;
          ticks = refl;
          status = refl;
          sorted = sorted;
          idle_or_none = inr (ground arith);
        },
      )
      one_round (p ∷ ps) e = elim (Bool-cases (ltb s.total_ticks p.when)) [
        | inl later ↦
            let low : IsLow p.when ps = (subst IsSorted e sorted).0 in
            (
              record s { pending = sorted_insert p ps },
              ground (arith, check_later s p ps off e (ground arith)),
              record {
                level = refl;
                ticks = refl;
                status = refl;
                sorted = sorted_insert-IsSorted p ps (subst IsSorted e sorted).1;
                idle_or_none = inr (
                    ground (
                      arith,
                      due-sorted_insert s.total_ticks p ps,
                      due-IsLow s.total_ticks p.when ps (ground arith) low,
                    ));
              },
            )
        | inr now ↦ elim (Bool-cases (last_timer s p ps)) [
          | inl last ↦ (
            record s { pending = sorted_insert p ps },
            ground (arith, check_last s p ps off last e now),
            record {
              level = refl;
              ticks = refl;
              status = refl;
              sorted = sorted_insert-IsSorted p ps (subst IsSorted e sorted).1;
              idle_or_none = inl (ground arith);
            },
          )
          | inr other ↦ fires_first p ps e now other
        ]
      ]

    pub fire_due_lem : (n : ℕ) → Fires n
    unfolding Fires
    fire_due_lem zero s off sorted h = absurd (omega arith)
    fire_due_lem (suc n) s off sorted h = one_round n (fire_due_lem n) s off sorted h s.pending refl
