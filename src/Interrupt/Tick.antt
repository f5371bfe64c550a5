-- ===== src/Interrupt/Tick.antt =====
-- Interrupt::OneTick of code/machine/interrupt.cc.
use my_nachos.Shared.{
  ℕ, ◌<◌, ◌≡◌, refl, sym, subst, false, some, Result, ok, arith, Bool-cases, inl, inr,
}
use my_nachos.Interrupt.{Sim, int_off, is_idle, is_system, tick, after_tick, one_tick}
use my_nachos.Interrupt.Pending.{IsSorted, due}
use my_nachos.Interrupt.Clock.{Keeps, Fires, fire_due_lem}

module _ {W : Type 0} where
  tick_keeps : (s : Sim W) → ((tick s).status ≡ s.status) × ((tick s).pending ≡ s.pending)
  tick_keeps s = elim (Bool-cases (is_system s.status)) [
    | inl kernel ↦ (ground arith, ground arith)
    | inr user ↦ (ground arith, ground arith)
  ]

  -- The state when nothing is due any more.
  pub record AllFired (s s' : Sim W) : Type 0 where
    pub level : s'.level ≡ s.level
    pub ticks : s'.total_ticks ≡ s.total_ticks
    pub status : s'.status ≡ s.status
    pub sorted : IsSorted s'.pending
    pub none_due : due s.total_ticks s'.pending ≡ 0

  module _ (call : ℕ → ℕ → Sim W → Result (Sim W)) (machine_load : W → W)
      (obeys : (h a : ℕ) (s : Sim W)
        → IsSorted s.pending
        → (s' : Sim W) × (call h a s ≡ ok s') × Keeps s s') where
    -- Let every handler come back, leave the clock and the interrupt level, keep the pending list
    -- sorted and add no interrupt that is already due. Then OneTick, on a machine that is not
    -- idle, with a sorted pending list and fuel above the number of interrupts that are due after
    -- the tick, ends its loop, and at its end no pending interrupt is due, the list is sorted, and
    -- the clock, the level and the status are those set before the loop.
    pub one_tick_lem :
        (s : Sim W) (fuel : ℕ) (yield_thread : Sim W → Result (Sim W))
        → is_idle s.status ≡ false
        → IsSorted s.pending
        → due (tick s).total_ticks s.pending < fuel
        → (s' : Sim W) × (one_tick call machine_load yield_thread fuel s
            ≡ some (after_tick yield_thread s.status s'))
          × AllFired (record (tick s) { level = int_off }) s'
    unfolding one_tick Fires
    one_tick_lem s fuel yield_thread busy sorted h =
        let keeps = tick_keeps s in
        let (s', run, a) =
          fire_due_lem call machine_load obeys fuel (record (tick s) { level = int_off }) refl
            (subst IsSorted (sym keeps.1) sorted)
            (subst (λ l. due (tick s).total_ticks l < fuel) (sym keeps.1) h) in
        (
          s',
          ground (arith, run),
          record {
            level = a.level;
            ticks = a.ticks;
            status = a.status;
            sorted = a.sorted;
            none_due = ground (arith, a.idle_or_none, keeps.0, busy);
          },
        )
