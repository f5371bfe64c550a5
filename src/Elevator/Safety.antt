-- ===== src/Elevator/Safety.antt =====
-- What stays true of the elevators of code/machine/elevator.cc, whatever riders, controllers and
-- interrupts do: they are at a floor of the building, and doors are shut in motion.
use my_nachos.Shared.{
  ℕ, suc, ◌^◌, ◌<◌, ◌≡◌, ◌≢◌, refl, Bool, true, false, not, ◌&&◌, List, [], ◌∷◌, leb, ◌==◌,
  if◌then◌else◌, length, arith, ap, ◌∙◌, Bool-cases, inl, inr,
}
use my_nachos.Machine.Words.{signed_lt, add32}
use my_nachos.Elevator.{
  ElevatorInfo, ElevatorBank, next_floor, reached_next_floor, check_arrived, schedule_elevator,
  post_controller_event, advance, advance_all,
}

-- At a floor of the building; in motion, with shut doors and on the way to another floor of it.
pub record IsSafe (floors : ℕ) (e : ElevatorInfo) : Type 0 where
  pub here : e.last_floor < floors
  pub there : e.going_to < floors
  pub shut : e.in_motion ≡ true → e.doors_open ≡ false
  pub under_way : e.in_motion ≡ true → e.going_to ≢ e.last_floor

abbrev pub AreSafe : ℕ → List ElevatorInfo → Type 0
AreSafe floors [] = Unit {0}
AreSafe floors (e ∷ es) = IsSafe floors e × AreSafe floors es

-- The numbers of elevators and floors are those of a C++ int, and each elevator is there and safe.
pub record AllSafe (b : ElevatorBank) : Type 0 where
  pub few_elevators : b.num_elevators < 2 ^ 31
  pub few_floors : b.num_floors < 2 ^ 31
  pub complete : length b.elevators ≡ b.num_elevators
  pub safe : AreSafe b.num_floors b.elevators

next_floor-lt :
    (floors going last : ℕ)
    → floors < 2 ^ 31
    → going < floors
    → last < floors
    → going ≢ last
    → next_floor going last < floors
unfolding next_floor signed_lt add32
next_floor-lt floors going last small g l ne = ground arith

-- What holds of both branches of a test holds of it.
pub branches {ℓ κ} :
    {A : Type ℓ} (P : A → Type κ) (c : Bool) {x y : A}
    → (c ≡ true → P x)
    → (c ≡ false → P y)
    → P (if c then x else y)
branches P true on_true on_false = on_true refl
branches P false on_true on_false = on_false refl

check_arrived-IsSafe :
    (floors : ℕ) (e : ElevatorInfo)
    → e.last_floor < floors
    → e.going_to < floors
    → (e.in_motion ≡ true → e.doors_open ≡ false)
    → IsSafe floors (check_arrived e).1
unfolding check_arrived
check_arrived-IsSafe floors e here there shut =
    elim (Bool-cases (e.in_motion && e.last_floor == e.going_to)) [
      | inl hit ↦ record {
        here = ground arith;
        there = ground arith;
        shut = ground arith;
        under_way = ground arith;
      }
      | inr miss ↦ record {
        here = ground arith;
        there = ground arith;
        shut = ground arith;
        under_way = ground arith;
      }
    ]

reached_next_floor-lt :
    (floors ticks : ℕ) (e : ElevatorInfo)
    → floors < 2 ^ 31
    → IsSafe floors e
    → (reached_next_floor ticks e).1.last_floor < floors
unfolding reached_next_floor
reached_next_floor-lt floors ticks e small s =
    elim (Bool-cases (e.in_motion && leb e.will_arrive ticks)) [
      | inl hit ↦
          let moving : e.in_motion ≡ true = ground arith in
          let lt : next_floor e.going_to e.last_floor < floors =
            next_floor-lt floors e.going_to e.last_floor small s.there s.here
              (s.under_way moving) in
          ground arith
      | inr miss ↦ let lt : e.last_floor < floors = s.here in ground arith
    ]

reached_next_floor-same :
    (ticks : ℕ) (e : ElevatorInfo)
    → ((reached_next_floor ticks e).1.going_to ≡ e.going_to)
      × ((reached_next_floor ticks e).1.in_motion ≡ e.in_motion)
      × ((reached_next_floor ticks e).1.doors_open ≡ e.doors_open)
unfolding reached_next_floor
reached_next_floor-same ticks e =
    let Same : Bool × ElevatorInfo → Type 0 = λ r.
      (r.1.going_to ≡ e.going_to)
      × (r.1.in_motion ≡ e.in_motion)
      × (r.1.doors_open ≡ e.doors_open) in
    let same : Same (false, e) = (refl, refl, refl) in
    branches Same (e.in_motion && leb e.will_arrive ticks) (λ y. same) (λ n. same)

-- Between two floors nothing changes.
reached_next_floor-IsSafe :
    (floors ticks : ℕ) (e : ElevatorInfo)
    → IsSafe floors e
    → (reached_next_floor ticks e).0 ≡ false
    → IsSafe floors (reached_next_floor ticks e).1
unfolding reached_next_floor
reached_next_floor-IsSafe floors ticks e s =
    branches (λ (r : Bool × ElevatorInfo). r.0 ≡ false → IsSafe floors r.1)
      (e.in_motion && leb e.will_arrive ticks) (λ y r. absurd (ground arith)) λ n r. s

advance-IsSafe :
    (floors ticks i : ℕ) (e : ElevatorInfo) (int_sched : Bool) (b : ElevatorBank)
    → floors < 2 ^ 31
    → IsSafe floors e
    → IsSafe floors (advance ticks i e int_sched b).0
unfolding advance
advance-IsSafe floors ticks i e int_sched b small s =
    branches (λ (r : ElevatorInfo × Bool × ElevatorBank). IsSafe floors r.0)
      (not (reached_next_floor ticks e).0)
      (λ n. reached_next_floor-IsSafe floors ticks e s (ground arith))
      λ y.
        branches (λ (r : ElevatorInfo × Bool × ElevatorBank). IsSafe floors r.0)
          (check_arrived (reached_next_floor ticks e).1).0 (λ y. safe)
          λ n.
            branches (λ (r : ElevatorInfo × Bool × ElevatorBank). IsSafe floors r.0) (not int_sched)
              (λ y. record {
                here = safe.here;
                there = safe.there;
                shut = safe.shut;
                under_way = safe.under_way;
              })
              λ n. safe
  where
    safe : IsSafe floors (check_arrived (reached_next_floor ticks e).1).1
    safe =
        check_arrived-IsSafe floors (reached_next_floor ticks e).1
          (reached_next_floor-lt floors ticks e small s)
          (let same = reached_next_floor-same ticks e in rw same.0 s.there)
          (let same = reached_next_floor-same ticks e in rw (same.1, same.2) s.shut)

-- Two banks of the same size.
abbrev pub SameSize : ElevatorBank → ElevatorBank → Type 0
SameSize b c = (b.num_floors ≡ c.num_floors) × (b.num_elevators ≡ c.num_elevators)

advance-SameSize :
    (ticks i : ℕ) (e : ElevatorInfo) (int_sched : Bool) (b : ElevatorBank)
    → SameSize (advance ticks i e int_sched b).2 b
unfolding advance post_controller_event schedule_elevator
advance-SameSize ticks i e int_sched b =
    let P : ElevatorInfo × Bool × ElevatorBank → Type 0 = λ r. SameSize r.2 b in
    branches P (not (reached_next_floor ticks e).0) (λ n. (refl, refl))
      λ y.
        branches P (check_arrived (reached_next_floor ticks e).1).0 (λ y. (refl, refl))
          λ n. branches P (not int_sched) (λ y. (refl, refl)) λ n. (refl, refl)

pub advance_all-AreSafe :
    (floors ticks i : ℕ) (es : List ElevatorInfo) (int_sched : Bool) (b : ElevatorBank)
    → floors < 2 ^ 31
    → AreSafe floors es
    → AreSafe floors (advance_all ticks i es int_sched b).0
unfolding advance_all
advance_all-AreSafe floors ticks i [] int_sched b small s = tt
advance_all-AreSafe floors ticks i (e ∷ es) int_sched b small (s, ss) =
    let next = advance ticks i e int_sched b in
    (
      advance-IsSafe floors ticks i e int_sched b small s,
      advance_all-AreSafe floors ticks (suc i) es next.1 next.2 small ss,
    )

pub advance_all-SameSize :
    (ticks i : ℕ) (es : List ElevatorInfo) (int_sched : Bool) (b : ElevatorBank)
    → SameSize (advance_all ticks i es int_sched b).1 b
unfolding advance_all
advance_all-SameSize ticks i [] int_sched b = (refl, refl)
advance_all-SameSize ticks i (e ∷ es) int_sched b =
    let next = advance ticks i e int_sched b in
    let one : SameSize next.2 b = advance-SameSize ticks i e int_sched b in
    let rest = advance_all-SameSize ticks (suc i) es next.1 next.2 in
    (rest.0 ∙ one.0, rest.1 ∙ one.1)

pub length-advance_all :
    (ticks i : ℕ) (es : List ElevatorInfo) (int_sched : Bool) (b : ElevatorBank)
    → length (advance_all ticks i es int_sched b).0 ≡ length es
unfolding advance_all
length-advance_all ticks i [] int_sched b = refl
length-advance_all ticks i (e ∷ es) int_sched b =
    let next = advance ticks i e int_sched b in
    ap suc (length-advance_all ticks (suc i) es next.1 next.2)
