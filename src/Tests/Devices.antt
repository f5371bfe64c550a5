-- ===== src/Tests/Devices.antt =====
-- Runs of code/machine/disk.cc and interrupt.cc.
use my_nachos.Shared.{
  ℕ, ◌+◌, ◌*◌, ◌/◌, ◌%◌, ◌≤◌, ◌<◌, ◌≡◌, refl, true, false, some, [], ◌∷◌, replicate, Result, ok,
  arith, if◌then◌else◌, Bool-cases, inl, inr, ltb, ◌^◌,
}
use my_nachos.Disk.{
  Disk, rotation_time, compute_latency, write_request, read_request, handle_interrupt,
}
use my_nachos.Disk.Latency.{
  compute_latency-bounds, compute_latency-position, read_request-write_request,
}
use my_nachos.Machine.State.{system_mode}
use my_nachos.Interrupt.{
  idle, PendingInterrupt, Sim, int_on, int_off, timer_int, disk_int, schedule, tick, one_tick,
  after_tick,
}
use my_nachos.Interrupt.Pending.{IsSorted}
use my_nachos.Interrupt.Clock.{Keeps, schedule-Keeps}
use my_nachos.Interrupt.Tick.{AllFired, one_tick_lem}
use my_nachos.Interrupt.Idle.{idle_lem}

-- Two tracks, the head on the first one.
abbrev two_tracks : Disk
two_tracks = record {
  sectors = replicate 64 (0 ∷ []);
  active = false;
  last_sector = 3;
  buffer_init = 0;
}

latency_run : compute_latency 20 two_tracks 40 true ≡ 500 + 480 + 6 * 500 + 500
unfolding compute_latency my_nachos.Disk.time_to_seek my_nachos.Disk.modulo_diff
    my_nachos.Disk.buffered
latency_run = refl

compute_latency-bounds_example :
    (rotation_time ≤ compute_latency 20 two_tracks 40 false)
    × (compute_latency 20 two_tracks 40 false < 64 * rotation_time)
compute_latency-bounds_example =
    compute_latency-bounds 20 two_tracks 40 false (omega arith) (omega arith)

compute_latency-position_example :
    ((20 + compute_latency 20 two_tracks 40 true) % rotation_time ≡ 0)
    × ((20 + compute_latency 20 two_tracks 40 true) / rotation_time % 32 ≡ 9)
compute_latency-position_example = compute_latency-position 20 two_tracks 40

abbrev after_write : Disk
after_write = record {
  sectors = (7 ∷ []) ∷ replicate 63 (0 ∷ []);
  active = true;
  last_sector = 0;
  buffer_init = 0;
}

write_run : write_request 0 two_tracks 0 (7 ∷ []) ≡ ok (after_write, 500)
unfolding write_request compute_latency my_nachos.Disk.time_to_seek my_nachos.Disk.modulo_diff
    my_nachos.Disk.buffered my_nachos.Disk.update_last
write_run = refl

read_request-write_request_example :
    (d : Disk) × (n : ℕ) × (read_request 600 (handle_interrupt after_write) 0 ≡ ok (7 ∷ [], d, n))
    × (d.sectors ≡ after_write.sectors)
read_request-write_request_example =
    read_request-write_request 0 600 two_tracks after_write 0 500 (7 ∷ []) write_run

-- A timer that schedules itself again, up to the last time that an int holds.
again : ℕ → ℕ → Sim ℕ → Result (Sim ℕ)
again h a s = if ltb (s.total_ticks + 100) (2 ^ 31) then schedule h a 100 timer_int s else ok s

again-Keeps :
    (h a : ℕ) (s : Sim ℕ) → IsSorted s.pending → (s' : Sim ℕ) × (again h a s ≡ ok s') × Keeps s s'
unfolding again
again-Keeps h a s sorted = elim (Bool-cases (ltb (s.total_ticks + 100) (2 ^ 31))) [
  | inl early ↦ rw early (schedule-Keeps h a 100 timer_int s sorted (omega arith) (ground arith))
  | inr late ↦
      rw late
        (s, refl, record { level = refl; ticks = refl; sorted = sorted; no_more_due = omega arith })
]

-- A timer interrupt that is due after the tick, and a disk interrupt that is not.
abbrev clock : Sim ℕ
clock = record {
  level = int_on;
  pending =
      record { handler = 1; arg = 0; when = 5; type = timer_int }
      ∷ record { handler = 2; arg = 0; when = 50; type = disk_int }
      ∷ [];
  in_handler = false;
  yield_on_return = false;
  status = system_mode;
  total_ticks = 0;
  idle_ticks = 0;
  system_ticks = 0;
  user_ticks = 0;
  world = 0;
}

one_tick_lem_example :
    (s : Sim ℕ) × (one_tick again (λ w. w) ok 2 clock ≡ some (after_tick ok system_mode s))
    × AllFired (record (tick clock) { level = int_off }) s
unfolding my_nachos.Interrupt.Pending.due
one_tick_lem_example =
    one_tick_lem again (λ w. w) again-Keeps clock 2 ok refl ((omega arith, tt), (tt, tt))
      (omega arith)

schedule-Keeps_example : (s : Sim ℕ) × (schedule 3 0 20 disk_int clock ≡ ok s) × Keeps clock s
schedule-Keeps_example =
    schedule-Keeps 3 0 20 disk_int clock ((omega arith, tt), (tt, tt)) (omega arith) (omega arith)

-- The clock with interrupts off, before it idles.
abbrev waiting : Sim ℕ
waiting = record clock { level = int_off }

idle_lem_example :
    (s : Sim ℕ) × (idle again (λ w. w) 1 waiting ≡ some (ok s))
    × (s.total_ticks ≡ 5)
    × (s.status ≡ system_mode)
    × (s.yield_on_return ≡ false)
    × IsSorted s.pending
unfolding my_nachos.Interrupt.Pending.due
idle_lem_example =
    idle_lem again (λ w. w) again-Keeps waiting 1
      (record { handler = 1; arg = 0; when = 5; type = timer_int })
      (record { handler = 2; arg = 0; when = 50; type = disk_int } ∷ []) refl refl
      ((omega arith, tt), (tt, tt)) refl (omega arith)
