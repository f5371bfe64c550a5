-- ===== src/Shared/Results.antt =====
-- How an operation can end. `ASSERT` (code/threads/utility.h) prints and calls Abort; the kernel's
-- Halt ends the program; a read or write outside an array or through a pointer to no object, and a
-- sum, product or quotient that no integer holds, are undefined in C++. `no_rounds` is the end of the
-- rounds that the model gives a loop.
use Prim.Native.Nat.{ℕ, ◌^◌, ◌<◌}
use my_nachos.Shared.Tests.{ltb, lt→ltb, if◌then◌else◌}
use mathlib.Core.Path.{◌≡◌, refl}
use mathlib.Core.Bool.{Bool, true, false}
use mathlib.Core.Option.{Option, none, some}
use mathlib.Core.List.{List}
use my_nachos.Shared.Lists.{get_elem?, set, length}

pub data Stop : Type 0 where
  assert_failed halted out_of_range bad_division int_overflow bad_pointer no_rounds : Stop

pub data Result {ℓ} (A : Type ℓ) : Type ℓ where
  ok : A → Result A
  stop : Stop → Result A

infixl 5 ◌>>=◌ ◌>>◌
abbrev pub ◌>>=◌ {ℓ κ} : {A : Type ℓ} {B : Type κ} → Result A → (A → Result B) → Result B
ok a >>= f = f a
stop e >>= f = stop e

abbrev pub ◌>>◌ {ℓ} : {B : Type ℓ} → Result (Unit {0}) → Result B → Result B
m >> k = m >>= λ _. k

abbrev pub assert : Bool → Result (Unit {0})
assert true = ok tt
assert false = stop assert_failed

-- An array element, if the index is one.
abbrev pub or_stop {ℓ} : {A : Type ℓ} → Option A → Stop → Result A
or_stop none e = stop e
or_stop (some a) e = ok a

abbrev pub elem {ℓ} : {A : Type ℓ} → List A → ℕ → Result A
elem xs i = or_stop (get_elem? xs i) out_of_range

-- An assignment to an array element.
abbrev pub put {ℓ} : {A : Type ℓ} → List A → ℕ → A → Result (List A)
put xs i v = if ltb i (length xs) then ok (set xs i v) else stop out_of_range

-- A sum or product of integers that are not negative, if an `int` holds it.
abbrev pub int_of : ℕ → Result ℕ
int_of n = if ltb n (2 ^ 31) then ok n else stop int_overflow

-- A run that succeeds, with a value of which `P` holds.
pub data Succeeds {ℓ κ} {A : Type ℓ} (P : A → Type κ) : Result A → Type (ℓ ⊔ κ) where
  succeeds : {a : A} → P a → Succeeds P (ok a)

pub Succeeds->>= {ℓ κ μ ν} :
    {A : Type ℓ} {B : Type κ} {P : A → Type μ} {Q : B → Type ν} {r : Result A} {f : A → Result B}
    → Succeeds P r
    → ((a : A) → P a → Succeeds Q (f a))
    → Succeeds Q (r >>= f)
Succeeds->>= (succeeds p) next = next _ p

-- Whatever holds of the rest of a run after a part that succeeds holds of the run.
pub after-Succeeds {ℓ κ μ ν} :
    {A : Type ℓ} {B : Type κ} {P : A → Type μ} (Q : Result B → Type ν) {r : Result A}
    (f : A → Result B)
    → Succeeds P r
    → ((a : A) → P a → Q (f a))
    → Q (r >>= f)
after-Succeeds Q f (succeeds p) next = next _ p

pub Succeeds-map {ℓ μ ν} :
    {A : Type ℓ} {P : A → Type μ} {Q : A → Type ν} {r : Result A}
    → Succeeds P r
    → ((a : A) → P a → Q a)
    → Succeeds Q r
Succeeds-map (succeeds p) weaken = succeeds (weaken _ p)

-- `P` holds of the value, if there is one.
abbrev pub IfOk {ℓ κ} : {A : Type ℓ} → (A → Type κ) → Result A → Type κ
IfOk P (ok a) = P a
IfOk P (stop e) = Unit

pub IfOk->>= {ℓ κ μ ν} :
    {A : Type ℓ} {B : Type κ} (P : A → Type μ) (Q : B → Type ν) (r : Result A) (f : A → Result B)
    → IfOk P r
    → ((a : A) → P a → IfOk Q (f a))
    → IfOk Q (r >>= f)
IfOk->>= P Q (ok a) f p next = next a p
IfOk->>= P Q (stop e) f p next = tt

pub int_of_lem : (n : ℕ) → n < 2 ^ 31 → int_of n ≡ ok n
int_of_lem n h = rw (lt→ltb n (2 ^ 31) h) refl
