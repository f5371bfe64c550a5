-- ===== src/Interrupt/Idle.antt =====
-- Interrupt::Idle of code/machine/interrupt.cc.
use my_nachos.Shared.{
  ℕ, ◌+◌, ◌-◌, max, ◌<◌, ◌≡◌, refl, dec_lt, lt→ltb, sym, ◌∙◌, ◌&&◌, subst, true, false, some, List,
  ◌∷◌, ltb, Result, ok, arith,
}
use my_nachos.Machine.State.{idle_mode, system_mode}
use my_nachos.Interrupt.{
  PendingInterrupt, Sim, int_off, is_timer, is_empty, invoke, fire, check_if_due, idle,
}
use my_nachos.Interrupt.Pending.{IsSorted, due}
use my_nachos.Interrupt.Clock.{Keeps, Fires, fire_due_lem}

module _ {W : Type 0} where
  module _ (call : ℕ → ℕ → Sim W → Result (Sim W)) (machine_load : W → W)
      (obeys : (h a : ℕ) (s : Sim W)
        → IsSorted s.pending
        → (s' : Sim W) × (call h a s ≡ ok s') × Keeps s s') where
    -- CheckIfDue(TRUE) on an idle machine with more than a timer interrupt, at the time `now`.
    abbrev woken : Sim W → List PendingInterrupt → ℕ → ℕ → Sim W
    woken s ps now idle_ticks = record s {
      pending = ps;
      total_ticks = now;
      idle_ticks = idle_ticks;
      world = machine_load s.world;
      in_handler = true;
      status = system_mode;
    }

    check_advances :
        (s s1 : Sim W) (p : PendingInterrupt) (ps : List PendingInterrupt)
        → s.level ≡ int_off
        → s.pending ≡ p ∷ ps
        → is_timer p.type && is_empty ps ≡ false
        → call p.handler p.arg (
            woken s ps
              (max s.total_ticks p.when)
              (s.idle_ticks + (max s.total_ticks p.when - s.total_ticks)))
          ≡ ok s1
        → check_if_due call machine_load true (record s { status = idle_mode })
          ≡ ok (true, record s1 { status = idle_mode; in_handler = false })
    unfolding check_if_due fire invoke
    check_advances s s1 p ps off e more run = elim (dec_lt s.total_ticks p.when) [
      | yes later ↦
          let at : max s.total_ticks p.when ≡ p.when = omega arith in
          let run' : call p.handler p.arg
                (woken s ps p.when (s.idle_ticks + (p.when - s.total_ticks)))
              ≡ ok s1 =
            subst
              (λ t.
                call p.handler p.arg (woken s ps t (s.idle_ticks + (t - s.total_ticks))) ≡ ok s1)
              at run in
          ground (arith, run', lt→ltb _ _ later)
      | no now ↦
          let at : max s.total_ticks p.when ≡ s.total_ticks = omega arith in
          let same : s.idle_ticks + (max s.total_ticks p.when - s.total_ticks) ≡ s.idle_ticks =
            omega arith in
          let run' : call p.handler p.arg (woken s ps s.total_ticks s.idle_ticks) ≡ ok s1 =
            subst (λ t. call p.handler p.arg (woken s ps t s.idle_ticks) ≡ ok s1) at
              (subst (λ t. call p.handler p.arg (woken s ps (max s.total_ticks p.when) t) ≡ ok s1)
                same run) in
          let due_now : ltb s.total_ticks p.when ≡ false = ground arith in
          ground (arith, run', due_now)
    ]

    -- Let every handler come back, leave the clock and the interrupt level, keep the pending list
    -- sorted and add no interrupt that is already due. Then Idle, with interrupts off, a sorted
    -- pending list that is not only one timer interrupt, and fuel above the number of interrupts
    -- behind the first that are due by its time, ends in system mode without a yield left to do,
    -- with the clock at the time of the first interrupt or at its old time, whichever is later,
    -- and the pending list sorted.
    pub idle_lem :
        (s : Sim W) (fuel : ℕ) (p : PendingInterrupt) (ps : List PendingInterrupt)
        → s.level ≡ int_off
        → s.pending ≡ p ∷ ps
        → IsSorted s.pending
        → is_timer p.type && is_empty ps ≡ false
        → due (max s.total_ticks p.when) ps < fuel
        → (s' : Sim W) × (idle call machine_load fuel s ≡ some (ok s'))
          × (s'.total_ticks ≡ max s.total_ticks p.when)
          × (s'.status ≡ system_mode)
          × (s'.yield_on_return ≡ false)
          × IsSorted s'.pending
    unfolding idle Fires
    idle_lem s fuel p ps off e sorted more h =
        let now = max s.total_ticks p.when in
        let s0 : Sim W = woken s ps now (s.idle_ticks + (now - s.total_ticks)) in
        let (s1, run, k) = obeys p.handler p.arg s0 (subst IsSorted e sorted).1 in
        let s2 : Sim W = record s1 { status = idle_mode; in_handler = false } in
        let small : due s1.total_ticks s1.pending < fuel =
          subst (λ t. due t s1.pending < fuel) (sym k.ticks) (omega (arith, k.no_more_due, h)) in
        let (s3, rest, a) =
          fire_due_lem call machine_load obeys fuel s2 (k.level ∙ off) k.sorted small in
        let first : check_if_due call machine_load true (record s { status = idle_mode })
            ≡ ok (true, s2) =
          check_advances s s1 p ps off e more run in
        (
          record s3 { yield_on_return = false; status = system_mode },
          ground (arith, first, rest),
          a.ticks ∙ k.ticks,
          refl,
          refl,
          a.sorted,
        )
