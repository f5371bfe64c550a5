-- ===== src/Elevator/Bank.antt =====
-- The operations of the bank in code/machine/elevator.cc keep its elevators safe.
use my_nachos.Shared.{ℕ, ◌≡◌, ◌≢◌, true, some, get_elem?, arith}
use my_nachos.Elevator.{
  Direction, ElevatorInfo, ElevatorBank, info_open_doors, info_close_doors, info_move_to,
  info_enter, info_exit, in_range, schedule_elevator, post_rider_event, post_controller_event,
  on_elevator, open_doors, close_doors, move_to, mark_direction, press_button, enter_elevator,
  press_floor, exit_elevator, up, down, neither,
}
use my_nachos.Elevator.Safety.{IsSafe, AllSafe, branches}
use my_nachos.Elevator.Calls.{
  Keeps, Keeps->>=, assert-Keeps, on_elevator-Keeps, in_range-lt, info_open_doors-Keeps,
  info_close_doors-Keeps, info_move_to-Keeps, info_enter-Keeps, info_exit-Keeps,
}

pub open_doors-Keeps : (i : ℕ) (b : ElevatorBank) → AllSafe b → Keeps AllSafe (open_doors i b)
unfolding open_doors post_rider_event schedule_elevator
open_doors-Keeps i b s =
    Keeps->>= (λ r. AllSafe r.1) AllSafe (on_elevator i info_open_doors b) _
      (on_elevator-Keeps i info_open_doors b s
        λ e at safe. info_open_doors-Keeps b.num_floors e safe)
      λ r kept. record {
        few_elevators = kept.few_elevators;
        few_floors = kept.few_floors;
        complete = kept.complete;
        safe = kept.safe;
      }

pub close_doors-Keeps : (i : ℕ) (b : ElevatorBank) → AllSafe b → Keeps AllSafe (close_doors i b)
unfolding close_doors
close_doors-Keeps i b s =
    Keeps->>= (λ r. AllSafe r.1) AllSafe (on_elevator i _ b) _
      (on_elevator-Keeps i _ b s λ e at safe.
        Keeps->>= (IsSafe b.num_floors) (λ r. IsSafe b.num_floors r.1) (info_close_doors e) _
          (info_close_doors-Keeps b.num_floors e safe) λ e' safe'. safe')
      λ r kept. kept

pub move_to-Keeps :
    (ticks floor i : ℕ) (b : ElevatorBank)
    → ((e : ElevatorInfo)
        → get_elem? b.elevators i ≡ some e
        → e.in_motion ≡ true
        → e.last_floor ≢ floor)
    → AllSafe b
    → Keeps AllSafe (move_to ticks floor i b)
unfolding move_to schedule_elevator
move_to-Keeps ticks floor i b may s = assert-Keeps AllSafe (in_range i b.num_elevators) _ λ h.
    assert-Keeps AllSafe (in_range floor b.num_floors) _ λ h'.
      Keeps->>= (λ r. AllSafe r.1) AllSafe (on_elevator i (info_move_to ticks floor) b) _
        (on_elevator-Keeps i (info_move_to ticks floor) b s λ e at safe.
          info_move_to-Keeps b.num_floors ticks floor e
            (in_range-lt floor b.num_floors s.few_floors h') (may e at) safe)
        λ r kept.
          branches AllSafe r.0
            (λ y. record {
              few_elevators = kept.few_elevators;
              few_floors = kept.few_floors;
              complete = kept.complete;
              safe = kept.safe;
            })
            λ n. kept

pub mark_direction-Keeps :
    (i : ℕ) (dir : Direction) (b : ElevatorBank)
    → AllSafe b
    → Keeps AllSafe (mark_direction i dir b)
unfolding mark_direction
mark_direction-Keeps i dir b s =
    Keeps->>= (λ r. AllSafe r.1) AllSafe (on_elevator i _ b) _
      (on_elevator-Keeps i _ b s λ e at safe. record {
        here = safe.here;
        there = safe.there;
        shut = safe.shut;
        under_way = safe.under_way;
      })
      λ r kept. kept

pub press_button-Keeps :
    (floor : ℕ) (dir : Direction) (b : ElevatorBank)
    → AllSafe b
    → Keeps AllSafe (press_button floor dir b)
unfolding press_button post_controller_event schedule_elevator
press_button-Keeps floor neither b s =
    assert-Keeps AllSafe (in_range floor b.num_floors) _ λ h. ground arith
press_button-Keeps floor up b s = assert-Keeps AllSafe (in_range floor b.num_floors) _ λ h. record {
  few_elevators = s.few_elevators;
  few_floors = s.few_floors;
  complete = s.complete;
  safe = s.safe;
}
press_button-Keeps floor down b s = assert-Keeps AllSafe (in_range floor b.num_floors) _ λ h.
    record {
      few_elevators = s.few_elevators;
      few_floors = s.few_floors;
      complete = s.complete;
      safe = s.safe;
    }

pub press_floor-Keeps :
    (floor i : ℕ) (b : ElevatorBank) → AllSafe b → Keeps AllSafe (press_floor floor i b)
unfolding press_floor post_controller_event schedule_elevator
press_floor-Keeps floor i b s = assert-Keeps AllSafe (in_range floor b.num_floors) _ λ h.
    assert-Keeps AllSafe (in_range i b.num_elevators) _ λ h'. record {
      few_elevators = s.few_elevators;
      few_floors = s.few_floors;
      complete = s.complete;
      safe = s.safe;
    }

pub enter_elevator-Keeps :
    (thread floor i : ℕ) (b : ElevatorBank)
    → AllSafe b
    → Keeps (λ r. AllSafe r.1) (enter_elevator thread floor i b)
unfolding enter_elevator
enter_elevator-Keeps thread floor i b s =
    assert-Keeps (λ r. AllSafe r.1) (in_range floor b.num_floors) _
      λ h.
        on_elevator-Keeps i (info_enter thread floor) b s
          λ e at safe. info_enter-Keeps b.num_floors thread floor e safe

pub exit_elevator-Keeps :
    (thread floor i : ℕ) (b : ElevatorBank)
    → AllSafe b
    → Keeps (λ r. AllSafe r.1) (exit_elevator thread floor i b)
unfolding exit_elevator
exit_elevator-Keeps thread floor i b s =
    assert-Keeps (λ r. AllSafe r.1) (in_range floor b.num_floors) _
      λ h.
        on_elevator-Keeps i (info_exit thread floor) b s
          λ e at safe. info_exit-Keeps b.num_floors thread floor e safe
