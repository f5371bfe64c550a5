-- ===== src/Elevator/Reach.antt =====
-- The banks that calls and interrupts of code/machine/elevator.cc lead to, from the one that the
-- constructor makes. The callbacks of riders and controllers are parameters.
use my_nachos.Shared.{
  ℕ, zero, suc, ◌^◌, ◌<◌, ◌≡◌, ◌≢◌, refl, true, false, some, length, get_elem?, Result, ok, ◌>>=◌,
  arith, ap, subst, sym, ◌∙◌,
}
use my_nachos.Elevator.{
  Direction, ElevatorInfo, ElevatorBank, new_elevator_bank, new_elevators, new_elevator_info,
  is_empty_events, open_doors, close_doors, move_to, mark_direction, press_button, enter_elevator,
  press_floor, exit_elevator, advance_all, handle_elevators, next_rider_event,
  next_controller_event,
}
use my_nachos.Elevator.Safety.{
  AreSafe, AllSafe, branches, advance_all-AreSafe, advance_all-SameSize, length-advance_all,
}
use my_nachos.Elevator.Calls.{Keeps, Keeps->>=}
use my_nachos.Elevator.Bank.{
  open_doors-Keeps, close_doors-Keeps, move_to-Keeps, mark_direction-Keeps, press_button-Keeps,
  press_floor-Keeps, enter_elevator-Keeps, exit_elevator-Keeps,
}

-- What changes a bank: the operations of riders and controllers, and the interrupt.
pub data ElevatorCall : Type 0 where
  opens closes : (i : ℕ) → ElevatorCall
  moves : (ticks floor i : ℕ) → ElevatorCall
  marks : (i : ℕ) (dir : Direction) → ElevatorCall
  presses : (floor : ℕ) (dir : Direction) → ElevatorCall
  presses_floor : (floor i : ℕ) → ElevatorCall
  enters exits : (thread floor i : ℕ) → ElevatorCall
  takes_rider_event takes_controller_event : ElevatorCall
  interrupts : (ticks : ℕ) → ElevatorCall

module _ (call_riders call_controllers : ElevatorBank → Result ElevatorBank) where
  unfoldable pub perform : ElevatorCall → ElevatorBank → Result ElevatorBank
  perform (opens i) b = open_doors i b
  perform (closes i) b = close_doors i b
  perform (moves ticks floor i) b = move_to ticks floor i b
  perform (marks i dir) b = mark_direction i dir b
  perform (presses floor dir) b = press_button floor dir b
  perform (presses_floor floor i) b = press_floor floor i b
  perform (enters thread floor i) b = enter_elevator thread floor i b >>= λ r. ok r.1
  perform (exits thread floor i) b = exit_elevator thread floor i b >>= λ r. ok r.1
  perform takes_rider_event b = ok (next_rider_event b).1
  perform takes_controller_event b = ok (next_controller_event b).1
  perform (interrupts ticks) b = handle_elevators call_riders call_controllers ticks b

-- An elevator in motion is not sent to the floor that it has just passed.
abbrev pub MayCall : ElevatorCall → ElevatorBank → Type 0
MayCall (moves ticks floor i) b =
    (e : ElevatorInfo)
    → get_elem? b.elevators i ≡ some e
    → e.in_motion ≡ true
    → e.last_floor ≢ floor
MayCall (opens i) b = Unit {0}
MayCall (closes i) b = Unit {0}
MayCall (marks i dir) b = Unit {0}
MayCall (presses floor dir) b = Unit {0}
MayCall (presses_floor floor i) b = Unit {0}
MayCall (enters thread floor i) b = Unit {0}
MayCall (exits thread floor i) b = Unit {0}
MayCall takes_rider_event b = Unit {0}
MayCall takes_controller_event b = Unit {0}
MayCall (interrupts ticks) b = Unit {0}

new_elevators-AreSafe : (floors n : ℕ) → 0 < floors → AreSafe floors (new_elevators n)
unfolding new_elevators new_elevator_info
new_elevators-AreSafe floors zero lt = tt
new_elevators-AreSafe floors (suc n) lt = (
  record {
    here = lt;
    there = lt;
    shut = λ moving. refl;
    under_way = λ moving. absurd (ground arith);
  },
  new_elevators-AreSafe floors n lt,
)

length-new_elevators : (n : ℕ) → length (new_elevators n) ≡ n
unfolding new_elevators
length-new_elevators zero = refl
length-new_elevators (suc n) = ap suc (length-new_elevators n)

new_elevator_bank-AllSafe :
    (n floors : ℕ)
    → n < 2 ^ 31
    → 0 < floors
    → floors < 2 ^ 31
    → AllSafe (new_elevator_bank n floors)
unfolding new_elevator_bank
new_elevator_bank-AllSafe n floors few lt small = record {
  few_elevators = few;
  few_floors = small;
  complete = length-new_elevators n;
  safe = new_elevators-AreSafe floors n lt;
}

module _ (call_riders call_controllers : ElevatorBank → Result ElevatorBank)
    (riders_keep : (b : ElevatorBank) → AllSafe b → Keeps AllSafe (call_riders b))
    (controllers_keep : (b : ElevatorBank) → AllSafe b → Keeps AllSafe (call_controllers b)) where
  handle_elevators-Keeps :
      (ticks : ℕ) (b : ElevatorBank)
      → AllSafe b
      → Keeps AllSafe (handle_elevators call_riders call_controllers ticks b)
  unfolding handle_elevators
  handle_elevators-Keeps ticks b s =
      Keeps->>= AllSafe AllSafe _ _
        (branches (Keeps AllSafe) (is_empty_events b2.rider_events) (λ y. s2)
          λ n. riders_keep b2 s2)
        λ b3 s3.
          branches (Keeps AllSafe) (is_empty_events b3.controller_events) (λ y. s3)
            λ n. controllers_keep b3 s3
    where
      b2 : ElevatorBank
      b2 = let r = advance_all ticks 0 b.elevators false b in record r.1 { elevators = r.0 }

      s2 : AllSafe b2
      s2 =
          let size = advance_all-SameSize ticks 0 b.elevators false b in
          record {
            few_elevators = rw size.1 s.few_elevators;
            few_floors = rw size.0 s.few_floors;
            complete = length-advance_all ticks 0 b.elevators false b ∙ s.complete ∙ sym size.1;
            safe =
                rw size.0 (
                  advance_all-AreSafe b.num_floors ticks 0 b.elevators false b s.few_floors s.safe);
          }

  perform-Keeps :
      (c : ElevatorCall) (b : ElevatorBank)
      → MayCall c b
      → AllSafe b
      → Keeps AllSafe (perform call_riders call_controllers c b)
  unfolding perform next_rider_event next_controller_event
  perform-Keeps (opens i) b may s = open_doors-Keeps i b s
  perform-Keeps (closes i) b may s = close_doors-Keeps i b s
  perform-Keeps (moves ticks floor i) b may s = move_to-Keeps ticks floor i b may s
  perform-Keeps (marks i dir) b may s = mark_direction-Keeps i dir b s
  perform-Keeps (presses floor dir) b may s = press_button-Keeps floor dir b s
  perform-Keeps (presses_floor floor i) b may s = press_floor-Keeps floor i b s
  perform-Keeps (enters thread floor i) b may s =
      Keeps->>= (λ r. AllSafe r.1) AllSafe _ _ (enter_elevator-Keeps thread floor i b s)
        λ r kept. kept
  perform-Keeps (exits thread floor i) b may s =
      Keeps->>= (λ r. AllSafe r.1) AllSafe _ _ (exit_elevator-Keeps thread floor i b s)
        λ r kept. kept
  perform-Keeps takes_rider_event b may s = record {
    few_elevators = s.few_elevators;
    few_floors = s.few_floors;
    complete = s.complete;
    safe = s.safe;
  }
  perform-Keeps takes_controller_event b may s = record {
    few_elevators = s.few_elevators;
    few_floors = s.few_floors;
    complete = s.complete;
    safe = s.safe;
  }
  perform-Keeps (interrupts ticks) b may s = handle_elevators-Keeps ticks b s

-- The banks that allowed calls lead to from a new one.
pub data Reached (call_riders call_controllers : ElevatorBank → Result ElevatorBank) (n floors : ℕ)
    : ElevatorBank → Type 0 where
  start : Reached call_riders call_controllers n floors (new_elevator_bank n floors)
  after :
      {b b' : ElevatorBank} (c : ElevatorCall)
      → Reached call_riders call_controllers n floors b
      → MayCall c b
      → perform call_riders call_controllers c b ≡ ok b'
      → Reached call_riders call_controllers n floors b'

Reached-AllSafe :
    (call_riders call_controllers : ElevatorBank → Result ElevatorBank)
    (riders_keep : (b : ElevatorBank) → AllSafe b → Keeps AllSafe (call_riders b))
    (controllers_keep : (b : ElevatorBank) → AllSafe b → Keeps AllSafe (call_controllers b))
    (n floors : ℕ) {b : ElevatorBank}
    → n < 2 ^ 31
    → 0 < floors
    → floors < 2 ^ 31
    → Reached call_riders call_controllers n floors b
    → AllSafe b
Reached-AllSafe riders controllers rk ck n floors few some_floor small start =
    new_elevator_bank-AllSafe n floors few some_floor small
Reached-AllSafe riders controllers rk ck n floors few some_floor small (after {b} {b'} c r may e) =
    let kept =
      perform-Keeps riders controllers rk ck c b may
        (Reached-AllSafe riders controllers rk ck n floors few some_floor small r) in
    subst (Keeps AllSafe) e kept

-- Let a new bank have fewer than 2^31 elevators, at least one and fewer than 2^31 floors, and
-- callbacks that keep the invariant and read no elevator outside the bank. In every bank that
-- calls and interrupts lead to, if no elevator in motion is sent to the floor it has just passed,
-- each elevator is at a floor of the building and its destination is one, and an elevator in
-- motion has shut doors and is on the way to another floor; the next such call keeps this or
-- stops, and never because of an elevator outside the bank.
pub perform-AllSafe :
    (call_riders call_controllers : ElevatorBank → Result ElevatorBank)
    (riders_keep : (b : ElevatorBank) → AllSafe b → Keeps AllSafe (call_riders b))
    (controllers_keep : (b : ElevatorBank) → AllSafe b → Keeps AllSafe (call_controllers b))
    (n floors : ℕ) (b : ElevatorBank) (c : ElevatorCall)
    → n < 2 ^ 31
    → 0 < floors
    → floors < 2 ^ 31
    → Reached call_riders call_controllers n floors b
    → MayCall c b
    → AllSafe b × Keeps AllSafe (perform call_riders call_controllers c b)
perform-AllSafe riders controllers rk ck n floors b c few some_floor small r may =
    let safe = Reached-AllSafe riders controllers rk ck n floors few some_floor small r in
    (safe, perform-Keeps riders controllers rk ck c b may safe)
