-- ===== src/Elevator.antt =====
-- code/machine/elevator.cc and elevator.h: a bank of elevators as a device. Floors and indices are
-- the patterns of integers; the ids of the threads stand for `currentThread`.
pub mod Bank
pub mod Calls
pub mod Reach
pub mod Safety
use my_nachos.Shared.{
  ℕ, zero, suc, ◌+◌, Bool, true, false, not, ◌&&◌, ◌||◌, List, [], ◌∷◌, ◌++◌, ltb, leb, ◌==◌,
  if◌then◌else◌, ◌-◌, Option, none, some, length, elem, put, Result, ok, stop, Stop, ◌>>=◌, ◌>>◌,
  assert,
}
use my_nachos.Machine.Words.{signed_lt, is_negative, add32, u32_mod}

pub data Direction : Type 0 where
  down up neither : Direction

pub data ElevatorEvent : Type 0 where
  no_event doors_opened up_button_pressed down_button_pressed : ElevatorEvent
  floor_button_pressed elevator_arrived : ElevatorEvent

abbrev pub max_riders : ℕ
max_riders = 4

abbrev pub delay_per_floor : ℕ
delay_per_floor = 100

pub record PendingElevatorEvent : Type 0 where
  pub event : ElevatorEvent
  pub floor : ℕ
  pub elevator : ℕ

pub record ElevatorInfo : Type 0 where
  pub display : Direction
  pub doors_open : Bool
  pub in_motion : Bool
  pub last_floor : ℕ
  pub will_arrive : ℕ
  pub going_to : ℕ
  pub riders : List ℕ

-- `scheduled` has the delays of the interrupts that the bank has asked for, the last one first.
pub record ElevatorBank : Type 0 where
  pub num_elevators : ℕ
  pub num_floors : ℕ
  pub rider_events : List PendingElevatorEvent
  pub controller_events : List PendingElevatorEvent
  pub elevators : List ElevatorInfo
  pub scheduled : List ℕ

unfoldable pub new_elevator_info : ElevatorInfo
new_elevator_info = record {
  display = neither;
  doors_open = false;
  in_motion = false;
  last_floor = 0;
  will_arrive = 0;
  going_to = 0;
  riders = [];
}

unfoldable pub info_open_doors : ElevatorInfo → Result (ℕ × ElevatorInfo)
info_open_doors e = do
  assert (not e.doors_open && not e.in_motion)
  ok (e.last_floor, record e { doors_open = true })

unfoldable pub info_close_doors : ElevatorInfo → Result ElevatorInfo
info_close_doors e = do assert e.doors_open; ok (record e { doors_open = false })

unfoldable pub info_move_to : ℕ → ℕ → ElevatorInfo → Result (Bool × ElevatorInfo)
info_move_to ticks floor e = do
  assert (not e.doors_open && (e.in_motion || not (e.last_floor == floor)))
  ok (
    not e.in_motion,
    record e {
      going_to = floor;
      will_arrive = if e.in_motion then e.will_arrive else ticks + delay_per_floor;
      in_motion = true;
    },
  )

-- `riders->Remove(currentThread)`, which reads through NULL if nobody is on board and fails its
-- assertion if the thread is not.
unfoldable drop_rider : ℕ → List ℕ → Result (List ℕ)
drop_rider thread [] = stop Stop.assert_failed
drop_rider thread (r ∷ rs) =
    let rest = drop_rider thread rs in if thread == r then ok rs else rest >>= λ rs'. ok (r ∷ rs')

unfoldable pub remove_rider : ℕ → List ℕ → Result (List ℕ)
unfolding drop_rider
remove_rider thread [] = stop Stop.bad_pointer
remove_rider thread (r ∷ rs) = drop_rider thread (r ∷ rs)

unfoldable pub info_enter : ℕ → ℕ → ElevatorInfo → Result (Bool × ElevatorInfo)
info_enter thread floor e =
    if not e.doors_open || not (e.last_floor == floor) then ok (false, e) else (do
      assert (not e.in_motion)
      assert (ltb (length e.riders) max_riders)
      ok (true, record e { riders = e.riders ++ (thread ∷ []) }))

unfoldable pub info_exit : ℕ → ℕ → ElevatorInfo → Result (Bool × ElevatorInfo)
info_exit thread floor e =
    if not e.doors_open || not (e.last_floor == floor) then ok (false, e) else (do
      assert (not e.in_motion)
      riders ← remove_rider thread e.riders
      ok (true, record e { riders = riders }))

-- `lastFloor += ((goingTo > lastFloor) ? 1 : -1)`.
unfoldable pub next_floor : ℕ → ℕ → ℕ
next_floor going_to last_floor =
    add32 last_floor (if signed_lt last_floor going_to then 1 else u32_mod - 1)

unfoldable pub reached_next_floor : ℕ → ElevatorInfo → Bool × ElevatorInfo
reached_next_floor ticks e =
    if e.in_motion && leb e.will_arrive ticks
    then (true, record e { last_floor = next_floor e.going_to e.last_floor })
    else (false, e)

unfoldable pub check_arrived : ElevatorInfo → Bool × ElevatorInfo
check_arrived e =
    if e.in_motion && e.last_floor == e.going_to
    then (true, record e { in_motion = false })
    else (false, e)

-- The constructor. The list of the elevators has one that is new for each.
unfoldable pub new_elevators : ℕ → List ElevatorInfo
new_elevators zero = []
new_elevators (suc n) = new_elevator_info ∷ new_elevators n

unfoldable pub new_elevator_bank : ℕ → ℕ → ElevatorBank
unfolding new_elevators
new_elevator_bank num_elevators num_floors = record {
  num_elevators = num_elevators;
  num_floors = num_floors;
  rider_events = [];
  controller_events = [];
  elevators = new_elevators num_elevators;
  scheduled = [];
}

-- `i >= 0 && i < n`.
unfoldable pub in_range : ℕ → ℕ → Bool
in_range i n = not (is_negative i) && signed_lt i n

-- `interrupt->Schedule(ElevatorDone, this, delay, ElevatorInt)`.
unfoldable pub schedule_elevator : ℕ → ElevatorBank → ElevatorBank
schedule_elevator delay b = record b { scheduled = delay ∷ b.scheduled }

unfoldable pub post_rider_event : ElevatorEvent → ℕ → ℕ → ElevatorBank → ElevatorBank
post_rider_event event floor elevator b = schedule_elevator 1 (record b {
  rider_events =
      b.rider_events ++ (record { event = event; floor = floor; elevator = elevator } ∷ []);
})

unfoldable pub post_controller_event : ElevatorEvent → ℕ → ℕ → Bool → ElevatorBank → ElevatorBank
post_controller_event event floor elevator in_handler b =
    let b' = record b {
      controller_events =
          b.controller_events
          ++ (record { event = event; floor = floor; elevator = elevator } ∷ []);
    } in
    if in_handler then b' else schedule_elevator 1 b'

-- An operation on one elevator of the bank, with what it gives back.
unfoldable pub on_elevator :
    {A : Type 0}
    → ℕ
    → (ElevatorInfo → Result (A × ElevatorInfo))
    → ElevatorBank
    → Result (A × ElevatorBank)
on_elevator i f b = do
  assert (in_range i b.num_elevators)
  e ← elem b.elevators i
  (a, e') ← f e
  elevators ← put b.elevators i e'
  ok (a, record b { elevators = elevators })

unfoldable pub open_doors : ℕ → ElevatorBank → Result ElevatorBank
open_doors i b = do
  (floor, b') ← on_elevator i info_open_doors b
  ok (post_rider_event doors_opened floor i b')

unfoldable pub close_doors : ℕ → ElevatorBank → Result ElevatorBank
close_doors i b = do
  (u, b') ← on_elevator i (λ e. info_close_doors e >>= λ e'. ok (false, e')) b
  ok b'

unfoldable pub move_to : ℕ → ℕ → ℕ → ElevatorBank → Result ElevatorBank
move_to ticks floor i b = do
  assert (in_range i b.num_elevators)
  assert (in_range floor b.num_floors)
  (started, b') ← on_elevator i (info_move_to ticks floor) b
  ok (if started then schedule_elevator delay_per_floor b' else b')

unfoldable pub where_is_elevator : ℕ → ElevatorBank → Result ℕ
where_is_elevator i b = do
  assert (in_range i b.num_elevators)
  e ← elem b.elevators i
  ok e.last_floor

unfoldable pub mark_direction : ℕ → Direction → ElevatorBank → Result ElevatorBank
mark_direction i dir b = do
  (u, b') ← on_elevator i (λ e. ok (false, record e { display = dir })) b
  ok b'

unfoldable pub get_direction : ℕ → ElevatorBank → Result Direction
get_direction i b = do assert (in_range i b.num_elevators); e ← elem b.elevators i; ok e.display

unfoldable pub press_button : ℕ → Direction → ElevatorBank → Result ElevatorBank
press_button floor neither b = assert (in_range floor b.num_floors) >> stop Stop.assert_failed
press_button floor up b = do
  assert (in_range floor b.num_floors)
  ok (post_controller_event up_button_pressed floor 0 false b)
press_button floor down b = do
  assert (in_range floor b.num_floors)
  ok (post_controller_event down_button_pressed floor 0 false b)

unfoldable pub enter_elevator : ℕ → ℕ → ℕ → ElevatorBank → Result (Bool × ElevatorBank)
enter_elevator thread floor i b = do
  assert (in_range floor b.num_floors)
  on_elevator i (info_enter thread floor) b

unfoldable pub press_floor : ℕ → ℕ → ElevatorBank → Result ElevatorBank
press_floor floor i b = do
  assert (in_range floor b.num_floors)
  assert (in_range i b.num_elevators)
  ok (post_controller_event floor_button_pressed floor i false b)

unfoldable pub exit_elevator : ℕ → ℕ → ℕ → ElevatorBank → Result (Bool × ElevatorBank)
exit_elevator thread floor i b = do
  assert (in_range floor b.num_floors)
  on_elevator i (info_exit thread floor) b

-- `getNextEvent`: nothing stands for NoEvent, with `*floor` and `*elevator` left as they are.
unfoldable pub next_event :
    List PendingElevatorEvent → Option PendingElevatorEvent × List PendingElevatorEvent
next_event [] = (none, [])
next_event (e ∷ es) = (some e, es)

unfoldable pub next_rider_event : ElevatorBank → Option PendingElevatorEvent × ElevatorBank
next_rider_event b =
    let (event, rest) = next_event b.rider_events in (event, record b { rider_events = rest })

unfoldable pub next_controller_event : ElevatorBank → Option PendingElevatorEvent × ElevatorBank
next_controller_event b =
    let (event, rest) = next_event b.controller_events in
    (event, record b { controller_events = rest })

-- One elevator in the loop of HandleInterrupt, and whether an interrupt is scheduled now.
unfoldable pub advance :
    ℕ → ℕ → ElevatorInfo → Bool → ElevatorBank → ElevatorInfo × Bool × ElevatorBank
advance ticks i e int_sched b =
    let (reached, e1) = reached_next_floor ticks e in
    let (arrived, e2) = check_arrived e1 in
    if not reached
    then (e1, int_sched, b)
    else if arrived
    then (e2, int_sched, post_controller_event elevator_arrived e2.going_to i true b)
    else if not int_sched
    then (
      record e2 { will_arrive = e2.will_arrive + delay_per_floor },
      true,
      schedule_elevator delay_per_floor b,
    )
    else (e2, int_sched, b)

-- The loop from elevator `i` on: these elevators, and the bank with the events and requests.
unfoldable pub advance_all :
    ℕ → ℕ → List ElevatorInfo → Bool → ElevatorBank → List ElevatorInfo × ElevatorBank
advance_all ticks i [] int_sched b = ([], b)
advance_all ticks i (e ∷ es) int_sched b =
    let (e', int_sched', b') = advance ticks i e int_sched b in
    let (es', b'') = advance_all ticks (suc i) es int_sched' b' in (e' ∷ es', b'')

unfoldable pub is_empty_events : List PendingElevatorEvent → Bool
is_empty_events [] = true
is_empty_events (e ∷ es) = false

-- `HandleInterrupt`; what the two callbacks do with the bank is a parameter.
unfoldable pub handle_elevators :
    (call_riders call_controllers : ElevatorBank → Result ElevatorBank)
    → ℕ
    → ElevatorBank
    → Result ElevatorBank
unfolding is_empty_events
handle_elevators call_riders call_controllers ticks b = do
  let (es, b1) = advance_all ticks 0 b.elevators false b
  let b2 = record b1 { elevators = es }
  b3 ← (if is_empty_events b2.rider_events then ok b2 else call_riders b2)
  if is_empty_events b3.controller_events then ok b3 else call_controllers b3
