-- ===== src/Elevator/Calls.antt =====
-- The operations of code/machine/elevator.cc on an elevator and on the bank, every branch of them:
-- what they leave is as safe as what they found, and none reads an elevator that is not there.
use my_nachos.Shared.{
  ℕ, zero, suc, ◌^◌, ◌<◌, ◌≡◌, ◌≢◌, refl, Bool, true, false, not, ◌&&◌, ◌||◌, some, List, [], ◌∷◌,
  ltb, ◌==◌, length, get_elem?, set, elem, put, length-set, Result, ok, stop, Stop, ◌>>=◌, assert,
  arith, ◌∙◌,
}
use my_nachos.Machine.Words.{signed_lt}
use my_nachos.Elevator.{
  ElevatorInfo, ElevatorBank, max_riders, info_open_doors, info_close_doors, info_move_to,
  info_enter, info_exit, drop_rider, remove_rider, in_range, on_elevator,
}
use my_nachos.Elevator.Safety.{IsSafe, AreSafe, AllSafe, branches}

-- The run ends with a value of which `P` holds, or for another reason than a wrong index.
abbrev pub Keeps : {A : Type 0} → (A → Type 0) → Result A → Type 0
Keeps P (ok a) = P a
Keeps P (stop s) = s ≢ Stop.out_of_range

pub Keeps->>= :
    {A B : Type 0} (P : A → Type 0) (Q : B → Type 0) (r : Result A) (f : A → Result B)
    → Keeps P r
    → ((a : A) → P a → Keeps Q (f a))
    → Keeps Q (r >>= f)
Keeps->>= P Q (ok a) f p next = next a p
Keeps->>= P Q (stop s) f p next = p

pub assert-Keeps :
    {B : Type 0} (Q : B → Type 0) (c : Bool) (f : Unit {0} → Result B)
    → (c ≡ true → Keeps Q (f tt))
    → Keeps Q (assert c >>= f)
assert-Keeps Q true f next = next refl
assert-Keeps Q false f next = ground arith

pub info_open_doors-Keeps :
    (floors : ℕ) (e : ElevatorInfo)
    → IsSafe floors e
    → Keeps (λ r. IsSafe floors r.1) (info_open_doors e)
unfolding info_open_doors
info_open_doors-Keeps floors e s =
    assert-Keeps (λ r. IsSafe floors r.1) (not e.doors_open && not e.in_motion) _
      λ h. record {
        here = s.here;
        there = s.there;
        shut = λ moving. absurd (ground arith);
        under_way = s.under_way;
      }

pub info_close_doors-Keeps :
    (floors : ℕ) (e : ElevatorInfo) → IsSafe floors e → Keeps (IsSafe floors) (info_close_doors e)
unfolding info_close_doors
info_close_doors-Keeps floors e s =
    assert-Keeps (IsSafe floors) e.doors_open _
      λ h. record { here = s.here; there = s.there; shut = λ moving. refl; under_way = s.under_way }

pub info_move_to-Keeps :
    (floors ticks floor : ℕ) (e : ElevatorInfo)
    → floor < floors
    → (e.in_motion ≡ true → e.last_floor ≢ floor)
    → IsSafe floors e
    → Keeps (λ r. IsSafe floors r.1) (info_move_to ticks floor e)
unfolding info_move_to
info_move_to-Keeps floors ticks floor e lt ahead s =
    assert-Keeps (λ r. IsSafe floors r.1)
      (not e.doors_open && (e.in_motion || not (e.last_floor == floor))) _
      λ h. record {
        here = s.here;
        there = lt;
        shut = λ moving. ground arith;
        under_way = λ moving. ground arith;
      }

drop_rider-Keeps :
    (thread : ℕ) (riders : List ℕ) → Keeps (λ rs. Unit {0}) (drop_rider thread riders)
unfolding drop_rider
drop_rider-Keeps thread [] = ground arith
drop_rider-Keeps thread (r ∷ rs) =
    branches (Keeps (λ rs. Unit {0})) (thread == r) (λ y. tt)
      λ n.
        Keeps->>= (λ rs. Unit {0}) (λ rs. Unit {0}) (drop_rider thread rs) _
          (drop_rider-Keeps thread rs) λ rs u. tt

remove_rider-Keeps :
    (thread : ℕ) (riders : List ℕ) → Keeps (λ rs. Unit {0}) (remove_rider thread riders)
unfolding remove_rider
remove_rider-Keeps thread [] = ground arith
remove_rider-Keeps thread (r ∷ rs) = drop_rider-Keeps thread (r ∷ rs)

pub info_enter-Keeps :
    (floors thread floor : ℕ) (e : ElevatorInfo)
    → IsSafe floors e
    → Keeps (λ r. IsSafe floors r.1) (info_enter thread floor e)
unfolding info_enter
info_enter-Keeps floors thread floor e s =
    let P : Bool × ElevatorInfo → Type 0 = λ r. IsSafe floors r.1 in
    branches (Keeps P) (not e.doors_open || not (e.last_floor == floor)) (λ away. s)
      λ there. assert-Keeps P (not e.in_motion) _ λ h.
        assert-Keeps P (ltb (length e.riders) max_riders) _
          λ room. record { here = s.here; there = s.there; shut = s.shut; under_way = s.under_way }

pub info_exit-Keeps :
    (floors thread floor : ℕ) (e : ElevatorInfo)
    → IsSafe floors e
    → Keeps (λ r. IsSafe floors r.1) (info_exit thread floor e)
unfolding info_exit
info_exit-Keeps floors thread floor e s =
    let P : Bool × ElevatorInfo → Type 0 = λ r. IsSafe floors r.1 in
    branches (Keeps P) (not e.doors_open || not (e.last_floor == floor)) (λ away. s)
      λ there. assert-Keeps P (not e.in_motion) _ λ h.
        Keeps->>= (λ rs. Unit {0}) P (remove_rider thread e.riders) _
          (remove_rider-Keeps thread e.riders)
          λ rs u. record { here = s.here; there = s.there; shut = s.shut; under_way = s.under_way }

pub in_range-lt : (i n : ℕ) → n < 2 ^ 31 → in_range i n ≡ true → i < n
unfolding in_range signed_lt
in_range-lt i n small h = ground arith

elem-Keeps :
    (floors : ℕ) (es : List ElevatorInfo) (i : ℕ)
    → AreSafe floors es
    → i < length es
    → Keeps (λ e. (get_elem? es i ≡ some e) × IsSafe floors e) (elem es i)
elem-Keeps floors [] i safe lt = absurd (ground arith)
elem-Keeps floors (e ∷ es) zero (s, ss) lt = (refl, s)
elem-Keeps floors (e ∷ es) (suc i) (s, ss) lt = elem-Keeps floors es i ss (omega arith)

set-AreSafe :
    (floors : ℕ) (es : List ElevatorInfo) (i : ℕ) (e : ElevatorInfo)
    → AreSafe floors es
    → IsSafe floors e
    → AreSafe floors (set es i e)
set-AreSafe floors [] i e safe s = tt
set-AreSafe floors (x ∷ xs) zero e (s, ss) s' = (s', ss)
set-AreSafe floors (x ∷ xs) (suc i) e (s, ss) s' = (s, set-AreSafe floors xs i e ss s')

put-Keeps :
    (floors : ℕ) (es : List ElevatorInfo) (i : ℕ) (e : ElevatorInfo)
    → AreSafe floors es
    → i < length es
    → IsSafe floors e
    → Keeps (λ es'. AreSafe floors es' × (length es' ≡ length es)) (put es i e)
put-Keeps floors es i e safe lt s =
    branches (Keeps (λ es'. AreSafe floors es' × (length es' ≡ length es))) (ltb i (length es))
      (λ y. (set-AreSafe floors es i e safe s, length-set es i e)) λ n. absurd (ground arith)

pub on_elevator-Keeps :
    {A : Type 0} (i : ℕ) (f : ElevatorInfo → Result (A × ElevatorInfo)) (b : ElevatorBank)
    → AllSafe b
    → ((e : ElevatorInfo)
        → get_elem? b.elevators i ≡ some e
        → IsSafe b.num_floors e
        → Keeps (λ r. IsSafe b.num_floors r.1) (f e))
    → Keeps (λ r. AllSafe r.1) (on_elevator i f b)
unfolding on_elevator
on_elevator-Keeps {A} i f b s each =
    let P : A × ElevatorBank → Type 0 = λ r. AllSafe r.1 in
    assert-Keeps P (in_range i b.num_elevators) _ λ h.
      let lt : i < length b.elevators =
        rw s.complete (in_range-lt i b.num_elevators s.few_elevators h) in
      Keeps->>= _ P (elem b.elevators i) _ (elem-Keeps b.num_floors b.elevators i s.safe lt) λ e at.
        Keeps->>= (λ r. IsSafe b.num_floors r.1) P (f e) _ (each e at.0 at.1)
          λ r safe.
            Keeps->>= _ P (put b.elevators i r.1) _
              (put-Keeps b.num_floors b.elevators i r.1 s.safe lt safe)
              λ es kept. record {
                few_elevators = s.few_elevators;
                few_floors = s.few_floors;
                complete = kept.1 ∙ s.complete;
                safe = kept.0;
              }
