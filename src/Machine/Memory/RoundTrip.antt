-- ===== src/Machine/Memory/RoundTrip.antt =====
-- The switches on the size of Machine::ReadMem and WriteMem (code/machine/translate.cc).
use my_nachos.Shared.{
  ℕ, ◌+◌, ◌/◌, ◌%◌, ◌^◌, ◌<◌, ◌≤◌, ◌≡◌, some, List, ◌==◌, if◌then◌else◌, length, set, get_elem?,
  get_elem?-set_self, get_elem?-set_ne, length-set, lt→ltb, ok, arith, inl, inr,
}
use my_nachos.Machine.Translate.Bounds.{IsAccessSize}
use my_nachos.Machine.Memory.{
  char_int, read_1, read_2, read_4, read_value, write_1, write_2, write_4, write_value,
}

module _ (mem : List ℕ) (pa v : ℕ) where
  round_trip_1 :
      pa + 1 ≤ length mem
      → (mem' : List ℕ) × (write_1 mem pa v ≡ ok mem')
        × (length mem' ≡ length mem)
        × (read_1 mem' pa ≡ ok (char_int (v % 2 ^ 8)))
  unfolding write_1 read_1
  round_trip_1 h = (
    set mem pa (v % 2 ^ 8),
    ground (arith, lt→ltb pa (length mem)),
    length-set mem pa _,
    ground (arith, get_elem?-set_self mem pa (v % 2 ^ 8)),
  )

  round_trip_2 :
      pa + 2 ≤ length mem
      → (mem' : List ℕ) × (write_2 mem pa v ≡ ok mem')
        × (length mem' ≡ length mem)
        × (read_2 mem' pa ≡ ok (v % 2 ^ 16))
  unfolding write_2 read_2
  round_trip_2 h =
      let mem1 = set mem pa (v % 2 ^ 8) in
      let len1 = length-set mem pa (v % 2 ^ 8) in
      (
        set mem1 (pa + 1) (v / 2 ^ 8 % 2 ^ 8),
        ground (arith, lt→ltb pa (length mem), len1, lt→ltb (pa + 1) (length mem)),
        ground (arith, len1, length-set mem1 (pa + 1) (v / 2 ^ 8 % 2 ^ 8)),
        ground (
          arith,
          len1,
          get_elem?-set_self mem pa (v % 2 ^ 8),
          get_elem?-set_ne mem1 (pa + 1) pa (v / 2 ^ 8 % 2 ^ 8),
          get_elem?-set_self mem1 (pa + 1) (v / 2 ^ 8 % 2 ^ 8),
        ),
      )

  round_trip_4 :
      v < 2 ^ 32
      → pa + 4 ≤ length mem
      → (mem' : List ℕ) × (write_4 mem pa v ≡ ok mem')
        × (length mem' ≡ length mem)
        × (read_4 mem' pa ≡ ok v)
  unfolding write_4 read_4
  round_trip_4 small h =
      let b0 : ℕ = v % 2 ^ 8 in
      let b1 : ℕ = v / 2 ^ 8 % 2 ^ 8 in
      let b2 : ℕ = v / 2 ^ 16 % 2 ^ 8 in
      let b3 : ℕ = v / 2 ^ 24 % 2 ^ 8 in
      let mem1 = set mem pa b0 in
      let mem2 = set mem1 (pa + 1) b1 in
      let mem3 = set mem2 (pa + 2) b2 in
      let mem4 = set mem3 (pa + 3) b3 in
      let len1 = length-set mem pa b0 in
      let len2 = length-set mem1 (pa + 1) b1 in
      let len3 = length-set mem2 (pa + 2) b2 in
      let len4 = length-set mem3 (pa + 3) b3 in
      let at3 : get_elem? mem4 (pa + 3) ≡ some b3 =
        get_elem?-set_self mem3 (pa + 3) b3 (omega (arith, len1, len2, len3)) in
      let at2 : get_elem? mem4 (pa + 2) ≡ some b2 = ground (
        arith,
        len1,
        len2,
        get_elem?-set_ne mem3 (pa + 3) (pa + 2) b3,
        get_elem?-set_self mem2 (pa + 2) b2,
      ) in
      let at1 : get_elem? mem4 (pa + 1) ≡ some b1 = ground (
        arith,
        len1,
        get_elem?-set_ne mem3 (pa + 3) (pa + 1) b3,
        get_elem?-set_ne mem2 (pa + 2) (pa + 1) b2,
        get_elem?-set_self mem1 (pa + 1) b1,
      ) in
      let at0 : get_elem? mem4 pa ≡ some b0 = ground (
        arith,
        get_elem?-set_ne mem3 (pa + 3) pa b3,
        get_elem?-set_ne mem2 (pa + 2) pa b2,
        get_elem?-set_ne mem1 (pa + 1) pa b1,
        get_elem?-set_self mem pa b0,
      ) in
      (
        mem4,
        ground (
          arith,
          lt→ltb pa (length mem),
          len1,
          lt→ltb (pa + 1) (length mem1),
          len2,
          lt→ltb (pa + 2) (length mem2),
          len3,
          lt→ltb (pa + 3) (length mem3),
        ),
        omega (arith, len1, len2, len3, len4),
        ground (arith, at0, at1, at2, at3),
      )

-- What a read of `size` bytes makes of a value that was written.
abbrev pub narrow : ℕ → ℕ → ℕ
narrow size v = if size == 1 then char_int (v % 2 ^ 8) else if size == 2 then v % 2 ^ 16 else v

pub value_round_trip :
    (mem : List ℕ) (pa size v : ℕ)
    → IsAccessSize size
    → v < 2 ^ 32
    → pa + size ≤ length mem
    → (mem' : List ℕ) × (write_value mem pa size v ≡ ok mem')
      × (length mem' ≡ length mem)
      × (read_value mem' pa size ≡ ok (narrow size v))
unfolding read_value write_value
value_round_trip mem pa size v (inl e) small h =
    let (mem', w, l, r) = round_trip_1 mem pa v (omega arith) in (mem', rw (e, w), l, rw (e, r))
value_round_trip mem pa size v (inr (inl e)) small h =
    let (mem', w, l, r) = round_trip_2 mem pa v (omega arith) in (mem', rw (e, w), l, rw (e, r))
value_round_trip mem pa size v (inr (inr e)) small h =
    let (mem', w, l, r) = round_trip_4 mem pa v small (omega arith) in
    (mem', rw (e, w), l, rw (e, r))
