-- ===== src/Machine/Execute/Bounded/Transfer.antt =====
-- The loads and stores of code/machine/mipssim.cc, and the ranges of their results.
use Prim.Native.Nat.{bit_and, bit_or}
use my_nachos.Shared.{
  ℕ, ◌-◌, ◌^◌, ◌<◌, Bool, true, false, not, ◌&&◌, ◌==◌, if◌then◌else◌, Result, ok, ◌>>◌, assert,
  arith,
}
use my_nachos.Shared.Bits.{bit_or-lt}
use my_nachos.Machine.Words.{shl32, any_bit, u32_mod}
use my_nachos.Machine.Words.Sign.{and-lt, mask-lt, shl32-lt}
use my_nachos.Machine.State.{Machine, address_error_exception, load_reg, load_value_reg}
use my_nachos.Machine.Decode.{Instruction}
use my_nachos.Machine.Execute.{Outcome, done}
use my_nachos.Machine.Execute.Load.{
  address, extend_8, extend_16, old_value, merge_left, merge_right, exec_lb, exec_lbu, exec_lh,
  exec_lhu, exec_lw, exec_lwl, exec_lwr,
}
use my_nachos.Machine.Execute.Store.{exec_sb, exec_sh, exec_sw, exec_swl, exec_swr}
use my_nachos.Machine.Execute.Bounded.{
  IsSound, IsBounded, IsInstruction, stopped, going, traps-IsBounded, if-IsBounded,
}
use my_nachos.Machine.Execute.Bounded.Access.{reads-IsBounded, stores-IsBounded}

if-lt : (b : Bool) {x y : ℕ} → x < 2 ^ 32 → y < 2 ^ 32 → (if b then x else y) < 2 ^ 32
if-lt true h k = h
if-lt false h k = k

extend_8-lt : (signed : Bool) (v : ℕ) → v < 2 ^ 32 → extend_8 signed v < 2 ^ 32
extend_8-lt signed v h =
    if-lt (any_bit v 0x80 && signed) (bit_or-lt 32 v 0xffff_ff00 h (omega arith)) (and-lt v 0xff h)

extend_16-lt : (signed : Bool) (v : ℕ) → v < 2 ^ 32 → extend_16 signed v < 2 ^ 32
extend_16-lt signed v h =
    if-lt (any_bit v 0x8000 && signed) (bit_or-lt 32 v 0xffff_0000 h (omega arith))
      (and-lt v 0xffff h)

-- The four cases of LWL, LWR, SWL and SWR.
part-lt :
    (k : ℕ) {a b c e : ℕ}
    → a < 2 ^ 32
    → b < 2 ^ 32
    → c < 2 ^ 32
    → e < 2 ^ 32
    → (if k == 0 then a else if k == 1 then b else if k == 2 then c else e) < 2 ^ 32
part-lt k ha hb hc he = if-lt (k == 0) ha (if-lt (k == 1) hb (if-lt (k == 2) hc he))

left-lt : (a x v n : ℕ) → a < 2 ^ 32 → bit_or (bit_and a x) (shl32 v n) < 2 ^ 32
left-lt a x v n h = bit_or-lt 32 (bit_and a x) (shl32 v n) (and-lt a x h) (shl32-lt v n)

right-lt : (a x w y : ℕ) → a < 2 ^ 32 → y < 2 ^ 32 → bit_or (bit_and a x) (bit_and w y) < 2 ^ 32
right-lt a x w y h k = bit_or-lt 32 (bit_and a x) (bit_and w y) (and-lt a x h) (mask-lt w y k)

module _ (k a v : ℕ) (ha : a < 2 ^ 32) (hv : v < 2 ^ 32) where
  merge_left-lt : merge_left k a v < 2 ^ 32
  unfolding merge_left
  merge_left-lt = part-lt k hv (left-lt a _ v 8 ha) (left-lt a _ v 16 ha) (left-lt a _ v 24 ha)

  merge_right-lt : merge_right k a v < 2 ^ 32
  unfolding merge_right
  merge_right-lt =
      part-lt k (right-lt a _ _ _ ha (omega arith)) (right-lt a _ _ _ ha (omega arith))
        (right-lt a _ _ _ ha (omega arith)) hv

module _ (m : Machine) (i : Instruction) (pc : ℕ) (s : IsSound m) (d : IsInstruction i)
    (h : pc < 2 ^ 32) where
  loaded : (m' : Machine) (v : ℕ) → IsSound m' → v < 2 ^ 32 → IsBounded (ok (done m' pc i.rt v))
  loaded m' v s' l = going m' pc i.rt v s' h d.rt l

  pub exec_lb-IsBounded : IsBounded (exec_lb m i pc)
  unfolding exec_lb
  exec_lb-IsBounded =
      reads-IsBounded m s (address m i) 1 _ λ m' v s' l. loaded m' _ s' (extend_8-lt true v l)

  pub exec_lbu-IsBounded : IsBounded (exec_lbu m i pc)
  unfolding exec_lbu
  exec_lbu-IsBounded =
      reads-IsBounded m s (address m i) 1 _ λ m' v s' l. loaded m' _ s' (extend_8-lt false v l)

  pub exec_lh-IsBounded : IsBounded (exec_lh m i pc)
  unfolding exec_lh
  exec_lh-IsBounded =
      if-IsBounded (any_bit (address m i) 1)
        (traps-IsBounded m address_error_exception (address m i))
        (reads-IsBounded m s (address m i) 2 _ λ m' v s' l. loaded m' _ s' (extend_16-lt true v l))

  pub exec_lhu-IsBounded : IsBounded (exec_lhu m i pc)
  unfolding exec_lhu
  exec_lhu-IsBounded =
      if-IsBounded (any_bit (address m i) 1)
        (traps-IsBounded m address_error_exception (address m i))
        (reads-IsBounded m s (address m i) 2 _ λ m' v s' l. loaded m' _ s' (extend_16-lt false v l))

  pub exec_lw-IsBounded : IsBounded (exec_lw m i pc)
  unfolding exec_lw
  exec_lw-IsBounded =
      if-IsBounded (any_bit (address m i) 3)
        (traps-IsBounded m address_error_exception (address m i))
        (reads-IsBounded m s (address m i) 4 _ λ m' v s' l. loaded m' v s' l)

  old_value-lt : (m' : Machine) → IsSound m' → old_value m' i < 2 ^ 32
  old_value-lt m' s' =
      if-lt (m'.registers load_reg == i.rt) (s'.words load_value_reg) (s'.words i.rt)

  assert-IsBounded : (b : Bool) {r : Result Outcome} → IsBounded r → IsBounded (assert b >> r)
  assert-IsBounded true k = k
  assert-IsBounded false k = stopped _

  pub exec_lwl-IsBounded : IsBounded (exec_lwl m i pc)
  unfolding exec_lwl
  exec_lwl-IsBounded = assert-IsBounded (not (any_bit (address m i) 3)) (
      reads-IsBounded m s (address m i) 4 _ λ m' v s' l.
        loaded m' _ s' (merge_left-lt (bit_and (address m i) 3) _ v (old_value-lt m' s') l))

  pub exec_lwr-IsBounded : IsBounded (exec_lwr m i pc)
  unfolding exec_lwr
  exec_lwr-IsBounded = assert-IsBounded (not (any_bit (address m i) 3)) (
      reads-IsBounded m s (address m i) 4 _ λ m' v s' l.
        loaded m' _ s' (merge_right-lt (bit_and (address m i) 3) _ v (old_value-lt m' s') l))

  pub exec_sb-IsBounded : IsBounded (exec_sb m i pc)
  unfolding exec_sb
  exec_sb-IsBounded = stores-IsBounded m s (address m i) 1 (m.registers i.rt) pc h

  pub exec_sh-IsBounded : IsBounded (exec_sh m i pc)
  unfolding exec_sh
  exec_sh-IsBounded = stores-IsBounded m s (address m i) 2 (m.registers i.rt) pc h

  pub exec_sw-IsBounded : IsBounded (exec_sw m i pc)
  unfolding exec_sw
  exec_sw-IsBounded = stores-IsBounded m s (address m i) 4 (m.registers i.rt) pc h

  pub exec_swl-IsBounded : IsBounded (exec_swl m i pc)
  unfolding exec_swl
  exec_swl-IsBounded = assert-IsBounded (not (any_bit (address m i) 3)) (
      reads-IsBounded m s (bit_and (address m i) (u32_mod - 1 - 3)) 4 _
        λ m' v s' l. stores-IsBounded m' s' (bit_and (address m i) (u32_mod - 1 - 3)) 4 _ pc h)

  pub exec_swr-IsBounded : IsBounded (exec_swr m i pc)
  unfolding exec_swr
  exec_swr-IsBounded = assert-IsBounded (not (any_bit (address m i) 3)) (
      reads-IsBounded m s (bit_and (address m i) (u32_mod - 1 - 3)) 4 _
        λ m' v s' l. stores-IsBounded m' s' (bit_and (address m i) (u32_mod - 1 - 3)) 4 _ pc h)
