-- ===== src/Interrupt.antt =====
-- code/machine/interrupt.cc and interrupt.h: the pending interrupts and the simulated time. What the
-- handlers of the devices do is a parameter, as is the code that the clock calls in other parts.
-- The times are natural numbers. `totalTicks` and `when` are of type int: Schedule stops with
-- `int_overflow` where an int does not hold its sum, and the ticks of one run are taken to stay
-- below 2 ^ 31.
pub mod Pending
pub mod Clock
pub mod Tick
pub mod Idle
use my_nachos.Shared.{
  ℕ, zero, suc, ◌+◌, ◌-◌, Bool, true, false, not, ◌&&◌, ◌||◌, Option, none, some, List, [], ◌∷◌,
  ltb, if◌then◌else◌, Result, ok, stop, Stop, int_of, ◌>>=◌, ◌>>◌, assert,
}
use my_nachos.Machine.State.{MachineStatus, idle_mode, system_mode, user_mode}

pub data IntStatus : Type 0 where
  int_off int_on : IntStatus

pub data IntType : Type 0 where
  timer_int disk_int console_write_int console_read_int elevator_int : IntType
  network_send_int network_recv_int : IntType

-- `handler` is the address of the function.
pub record PendingInterrupt : Type 0 where
  pub handler : ℕ
  pub arg : ℕ
  pub when : ℕ
  pub type : IntType

-- The interrupt object with the times of `stats`; `world` is all else that a handler can change.
pub record Sim (W : Type 0) : Type 0 where
  pub level : IntStatus
  pub pending : List PendingInterrupt
  pub in_handler : Bool
  pub yield_on_return : Bool
  pub status : MachineStatus
  pub total_ticks : ℕ
  pub idle_ticks : ℕ
  pub system_ticks : ℕ
  pub user_ticks : ℕ
  pub world : W

-- `SystemTick` and `UserTick` of stats.h.
abbrev pub system_tick : ℕ
system_tick = 10

abbrev pub user_tick : ℕ
user_tick = 1

abbrev pub is_off : IntStatus → Bool
is_off int_off = true
is_off int_on = false

abbrev pub is_idle : MachineStatus → Bool
is_idle idle_mode = true
is_idle _ = false

abbrev pub is_system : MachineStatus → Bool
is_system system_mode = true
is_system _ = false

abbrev pub is_timer : IntType → Bool
is_timer timer_int = true
is_timer _ = false

abbrev pub is_empty {ℓ} : {A : Type ℓ} → List A → Bool
is_empty [] = true
is_empty (x ∷ xs) = false

-- `List::SortedInsert` with the time as the key: before the first element that is later.
unfoldable pub sorted_insert : PendingInterrupt → List PendingInterrupt → List PendingInterrupt
sorted_insert p [] = p ∷ []
sorted_insert p (q ∷ qs) =
    let rest = sorted_insert p qs in if ltb p.when q.when then p ∷ q ∷ qs else q ∷ rest

module _ {W : Type 0} where
  -- The constructor, with the times at 0.
  unfoldable pub new_interrupt : W → Sim W
  new_interrupt world = record {
    level = int_off;
    pending = [];
    in_handler = false;
    yield_on_return = false;
    status = system_mode;
    total_ticks = 0;
    idle_ticks = 0;
    system_ticks = 0;
    user_ticks = 0;
    world = world;
  }

  unfoldable pub schedule : ℕ → ℕ → ℕ → IntType → Sim W → Result (Sim W)
  schedule handler arg from_now type s = do
    when ← int_of (s.total_ticks + from_now)
    let to_occur : PendingInterrupt = record {
      handler = handler;
      arg = arg;
      when = when;
      type = type;
    }
    assert (ltb 0 from_now)
    ok (record s { pending = sorted_insert to_occur s.pending })

  unfoldable pub yield_on_return : Sim W → Result (Sim W)
  yield_on_return s = assert s.in_handler >> ok (record s { yield_on_return = true })

  abbrev pub tick : Sim W → Sim W
  tick s =
      if is_system s.status
      then record s {
        total_ticks = s.total_ticks + system_tick;
        system_ticks = s.system_ticks + system_tick;
      }
      else record s {
        total_ticks = s.total_ticks + user_tick;
        user_ticks = s.user_ticks + user_tick;
      }

  -- `yield_thread` is `currentThread->Yield()`; `s` is the state after the loop, and `old` the
  -- status before it.
  unfoldable pub after_tick : (Sim W → Result (Sim W)) → MachineStatus → Sim W → Result (Sim W)
  after_tick yield_thread old s =
      let on = record s { level = int_on } in
      if on.yield_on_return
      then (yield_thread (record on { yield_on_return = false; status = system_mode }) >>= λ s'.
          ok (record s' { status = old }))
      else ok on

  -- `call` runs the handler at an address, and `machine_load` finishes a pending load of the machine.
  module _ (call : ℕ → ℕ → Sim W → Result (Sim W)) (machine_load : W → W) where
    unfoldable pub invoke : PendingInterrupt → Sim W → Result (Sim W)
    invoke p s =
        call p.handler p.arg
          (record s { world = machine_load s.world; in_handler = true; status = system_mode })
        >>= λ s'. ok (record s' { status = s.status; in_handler = false })

    -- The test for the last timer interrupt of an idle machine, and what follows; `s` is without `p`.
    unfoldable pub fire : PendingInterrupt → Sim W → Result (Bool × Sim W)
    fire p s =
        if is_idle s.status && (is_timer p.type && is_empty s.pending)
        then ok (false, record s { pending = sorted_insert p s.pending })
        else invoke p s >>= λ s'. ok (true, s')

    unfoldable pub check_if_due : Bool → Sim W → Result (Bool × Sim W)
    check_if_due advance_clock s = assert (is_off s.level) >> elim s.pending [
      | [] ↦ ok (false, s)
      | p ∷ ps ↦
          if ltb s.total_ticks p.when
          then if advance_clock
            then fire p (record s {
              pending = ps;
              idle_ticks = s.idle_ticks + (p.when - s.total_ticks);
              total_ticks = p.when;
            })
            else ok (false, record s { pending = sorted_insert p ps })
          else fire p (record s { pending = ps })
    ]

    -- `while (CheckIfDue(FALSE));`, on fuel; `none` where the fuel runs out.
    unfoldable pub fire_due : ℕ → Sim W → Option (Result (Sim W))
    fire_due zero s = none
    fire_due (suc n) s = elim (check_if_due false s) [
      | stop e ↦ some (stop e)
      | ok (again, s') ↦ let rest = fire_due n s' in if again then rest else some (ok s')
    ]

    unfoldable pub one_tick : (Sim W → Result (Sim W)) → ℕ → Sim W → Option (Result (Sim W))
    one_tick yield_thread fuel s = elim (fire_due fuel (record (tick s) { level = int_off })) [
      | none ↦ none
      | some r ↦ some (r >>= λ s'. after_tick yield_thread s.status s')
    ]

    -- The old level, and the state.
    unfoldable pub set_level :
        (Sim W → Result (Sim W)) → ℕ → IntStatus → Sim W → Option (Result (IntStatus × Sim W))
    set_level yield_thread fuel now s =
        if not (is_off now) && s.in_handler
        then some (stop Stop.assert_failed)
        else if not (is_off now) && is_off s.level
        then elim (one_tick yield_thread fuel (record s { level = now })) [
          | none ↦ none
          | some r ↦ some (r >>= λ s'. ok (s.level, s'))
        ]
        else some (ok (s.level, record s { level = now }))

    unfoldable pub enable :
        (Sim W → Result (Sim W)) → ℕ → Sim W → Option (Result (IntStatus × Sim W))
    enable yield_thread fuel s = set_level yield_thread fuel int_on s

    -- What follows a `CheckIfDue(TRUE)` that fired.
    unfoldable pub idle : ℕ → Sim W → Option (Result (Sim W))
    idle fuel s = elim (check_if_due true (record s { status = idle_mode })) [
      | stop e ↦ some (stop e)
      | ok (fired, s1) ↦
          if fired
          then elim (fire_due fuel s1) [
            | none ↦ none
            | some r ↦
                some (r >>= λ s2. ok (record s2 { yield_on_return = false; status = system_mode }))
          ]
          else some (stop Stop.halted)
    ]
