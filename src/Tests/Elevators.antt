-- ===== src/Tests/Elevators.antt =====
-- Runs of code/machine/elevator.cc: two elevators and five floors.
use my_nachos.Shared.{ℕ, ◌≡◌, refl, true, false, List, [], ◌∷◌, Result, ok, ◌>>=◌, arith}
use my_nachos.Elevator.{ElevatorInfo, ElevatorBank, Direction, neither, new_elevator_bank}
use my_nachos.Elevator.Safety.{AllSafe}
use my_nachos.Elevator.Calls.{Keeps}
use my_nachos.Elevator.Reach.{
  ElevatorCall, MayCall, perform, perform-AllSafe, moves, interrupts, start, after,
}

abbrev call_nobody : ElevatorBank → Result ElevatorBank
call_nobody b = ok b

-- An elevator at floor 0, and one that left it at tick 0 for floor 3.
abbrev at_rest : ElevatorInfo
at_rest = record {
  display = neither;
  doors_open = false;
  in_motion = false;
  last_floor = 0;
  will_arrive = 0;
  going_to = 0;
  riders = [];
}

abbrev leaving : ElevatorInfo
leaving = record at_rest { in_motion = true; will_arrive = 100; going_to = 3 }

abbrev moving_bank : ElevatorBank
moving_bank = record {
  num_elevators = 2;
  num_floors = 5;
  rider_events = [];
  controller_events = [];
  elevators = leaving ∷ at_rest ∷ [];
  scheduled = 100 ∷ [];
}

new_bank_run :
    new_elevator_bank 2 5
    ≡ record moving_bank { elevators = at_rest ∷ at_rest ∷ []; scheduled = [] }
unfolding new_elevator_bank my_nachos.Elevator.new_elevators my_nachos.Elevator.new_elevator_info
new_bank_run = refl

move_run : perform call_nobody call_nobody (moves 0 3 0) (new_elevator_bank 2 5) ≡ ok moving_bank
unfolding perform new_elevator_bank my_nachos.Elevator.new_elevators
    my_nachos.Elevator.new_elevator_info my_nachos.Elevator.move_to my_nachos.Elevator.on_elevator
    my_nachos.Elevator.info_move_to my_nachos.Elevator.in_range my_nachos.Elevator.schedule_elevator
    my_nachos.Machine.Words.signed_lt
move_run = refl

may_move : MayCall (moves 0 3 0) (new_elevator_bank 2 5)
unfolding new_elevator_bank my_nachos.Elevator.new_elevators my_nachos.Elevator.new_elevator_info
may_move e at moving = ground arith

perform-AllSafe_example :
    AllSafe moving_bank
    × Keeps AllSafe (perform call_nobody call_nobody (interrupts 100) moving_bank)
perform-AllSafe_example =
    perform-AllSafe call_nobody call_nobody (λ b s. s) (λ b s. s) 2 5 moving_bank (interrupts 100)
      (omega arith) (omega arith) (omega arith) (after (moves 0 3 0) start may_move move_run) tt

-- The calls one after the other, and the floors of the elevators then.
unfoldable run : List ElevatorCall → ElevatorBank → Result ElevatorBank
run [] b = ok b
run (c ∷ cs) b = perform call_nobody call_nobody c b >>= run cs

unfoldable floors_in : List ElevatorInfo → List ℕ
floors_in [] = []
floors_in (e ∷ es) = e.last_floor ∷ floors_in es

unfoldable floors_after : List ElevatorCall → ElevatorBank → Result (List ℕ)
floors_after cs b = run cs b >>= λ b'. ok (floors_in b'.elevators)

-- An elevator that is sent back to the floor it has just passed moves away from it, here below the
-- ground floor.
passed_floor_run :
    floors_after (moves 50 0 0 ∷ interrupts 100 ∷ []) moving_bank ≡ ok (4294967295 ∷ 0 ∷ [])
unfolding floors_after run floors_in perform my_nachos.Elevator.move_to
    my_nachos.Elevator.on_elevator my_nachos.Elevator.info_move_to my_nachos.Elevator.in_range
    my_nachos.Elevator.schedule_elevator my_nachos.Machine.Words.signed_lt
    my_nachos.Elevator.handle_elevators my_nachos.Elevator.advance_all my_nachos.Elevator.advance
    my_nachos.Elevator.reached_next_floor my_nachos.Elevator.check_arrived
    my_nachos.Elevator.next_floor my_nachos.Machine.Words.add32 my_nachos.Elevator.is_empty_events
    my_nachos.Elevator.post_controller_event
passed_floor_run = refl

-- Two elevators that start together: the second one is past two floors a tick after the first floor.
two_at_once_run :
    floors_after (moves 0 3 1 ∷ interrupts 100 ∷ interrupts 101 ∷ []) moving_bank ≡ ok (1 ∷ 2 ∷ [])
unfolding floors_after run floors_in perform my_nachos.Elevator.move_to
    my_nachos.Elevator.on_elevator my_nachos.Elevator.info_move_to my_nachos.Elevator.in_range
    my_nachos.Elevator.schedule_elevator my_nachos.Machine.Words.signed_lt
    my_nachos.Elevator.handle_elevators my_nachos.Elevator.advance_all my_nachos.Elevator.advance
    my_nachos.Elevator.reached_next_floor my_nachos.Elevator.check_arrived
    my_nachos.Elevator.next_floor my_nachos.Machine.Words.add32 my_nachos.Elevator.is_empty_events
    my_nachos.Elevator.post_controller_event
two_at_once_run = refl
