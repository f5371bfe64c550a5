-- ===== src/Interrupt/Pending.antt =====
-- The list of pending interrupts of code/machine/interrupt.cc: sorted by time, and how many are due.
use my_nachos.Shared.{
  ℕ, ◌+◌, ◌≤◌, ◌<◌, ◌≡◌, refl, List, [], ◌∷◌, ltb, if◌then◌else◌, arith, Bool-cases, inl, inr,
}
use my_nachos.Interrupt.{PendingInterrupt, sorted_insert}

-- No interrupt of the list comes before the time.
abbrev pub IsLow : ℕ → List PendingInterrupt → Type 0
IsLow t [] = Unit {0}
IsLow t (p ∷ ps) = (t ≤ p.when) × IsLow t ps

abbrev pub IsSorted : List PendingInterrupt → Type 0
IsSorted [] = Unit {0}
IsSorted (p ∷ ps) = IsLow p.when ps × IsSorted ps

-- How many interrupts are due at a time.
unfoldable pub due : ℕ → List PendingInterrupt → ℕ
due now [] = 0
due now (p ∷ ps) = (if ltb now p.when then 0 else 1) + due now ps

IsLow-trans : (a b : ℕ) (ps : List PendingInterrupt) → a ≤ b → IsLow b ps → IsLow a ps
IsLow-trans a b [] h l = tt
IsLow-trans a b (p ∷ ps) h l = (omega (arith, l.0), IsLow-trans a b ps h l.1)

IsLow-sorted_insert :
    (t : ℕ) (p : PendingInterrupt) (ps : List PendingInterrupt)
    → t ≤ p.when
    → IsLow t ps
    → IsLow t (sorted_insert p ps)
unfolding sorted_insert
IsLow-sorted_insert t p [] h l = (h, tt)
IsLow-sorted_insert t p (q ∷ qs) h l = elim (Bool-cases (ltb p.when q.when)) [
  | inl before ↦ rw before (h, l)
  | inr after ↦ rw after (l.0, IsLow-sorted_insert t p qs h l.1)
]

pub sorted_insert-IsSorted :
    (p : PendingInterrupt) (ps : List PendingInterrupt)
    → IsSorted ps
    → IsSorted (sorted_insert p ps)
unfolding sorted_insert
sorted_insert-IsSorted p [] s = (tt, tt)
sorted_insert-IsSorted p (q ∷ qs) s = elim (Bool-cases (ltb p.when q.when)) [
  | inl before ↦
      let lt : p.when ≤ q.when = ground arith in
      rw before ((lt, IsLow-trans p.when q.when qs lt s.0), s)
  | inr after ↦
      rw after (IsLow-sorted_insert q.when p qs (ground arith) s.0, sorted_insert-IsSorted p qs s.1)
]

pub due-sorted_insert :
    (now : ℕ) (p : PendingInterrupt) (ps : List PendingInterrupt)
    → due now (sorted_insert p ps) ≡ (if ltb now p.when then 0 else 1) + due now ps
unfolding due sorted_insert
due-sorted_insert now p [] = refl
due-sorted_insert now p (q ∷ qs) = ground (arith, due-sorted_insert now p qs)

-- Nothing is due in a list whose first interrupt is still to come.
pub due-IsLow : (now t : ℕ) (ps : List PendingInterrupt) → now < t → IsLow t ps → due now ps ≡ 0
unfolding due
due-IsLow now t [] h l = refl
due-IsLow now t (p ∷ ps) h l = ground (arith, due-IsLow now t ps h l.1, l.0)
