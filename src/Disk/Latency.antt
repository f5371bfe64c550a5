-- ===== src/Disk/Latency.antt =====
-- The latency and the requests of code/machine/disk.cc.
use my_nachos.Shared.{
  ℕ, ◌+◌, ◌*◌, ◌/◌, ◌%◌, ◌≤◌, ◌<◌, ◌≡◌, refl, Bool, true, false, List, length, set, get_elem?,
  get_elem?-set_self, ltb, some, ok, arith, Bool-cases, inl, inr,
}
use my_nachos.Disk.{
  Disk, num_sectors, rotation_time, time_to_seek, modulo_diff, buffered, compute_latency,
  update_last, read_request, write_request, handle_interrupt,
}

time_to_seek-lt :
    (ticks : ℕ) (d : Disk) (s : ℕ)
    → s < 1024
    → d.last_sector < 1024
    → ((time_to_seek ticks d s).0 ≤ 15500) × ((time_to_seek ticks d s).1 < 500)
unfolding time_to_seek
time_to_seek-lt ticks d s hs hl = (ground arith, ground arith)

-- After the seek and the rest of a sector, the head is at the start of a sector.
on_boundary :
    (ticks : ℕ) (d : Disk) (s : ℕ)
    → (ticks + (time_to_seek ticks d s).0 + (time_to_seek ticks d s).1) % 500 ≡ 0
unfolding time_to_seek
on_boundary ticks d s = ground arith

modulo_diff-lt : (a b : ℕ) → modulo_diff a b < 32
unfolding modulo_diff
modulo_diff-lt a b = omega arith

-- For a requested and a last sector on the disk, the latency of a read or a write is at least
-- RotationTime, so that Schedule accepts it, and less than 64 times that.
pub compute_latency-bounds :
    (ticks : ℕ) (d : Disk) (s : ℕ) (writing : Bool)
    → s < num_sectors
    → d.last_sector < num_sectors
    → (rotation_time ≤ compute_latency ticks d s writing)
      × (compute_latency ticks d s writing < 64 * rotation_time)
unfolding compute_latency
compute_latency-bounds ticks d s writing hs hl =
    let t = time_to_seek-lt ticks d s hs hl in
    let r =
      modulo_diff-lt s ((ticks + (time_to_seek ticks d s).0 + (time_to_seek ticks d s).1) / 500) in
    (ground (arith, t.0, t.1, r), ground (arith, t.0, t.1, r))

after_rotation :
    (t s : ℕ) → t % 500 ≡ 0 → ((t + modulo_diff s (t / 500) * 500 + 500) / 500) % 32 ≡ (s + 1) % 32
unfolding modulo_diff
after_rotation t s h = omega arith

not_buffered : (d : Disk) (s seek after : ℕ) → buffered d s true seek after ≡ false
unfolding buffered
not_buffered d s seek after = refl

-- When a write request is over, the disk is at the start of the sector that comes right behind the
-- requested one on the track: the time at its end is a multiple of RotationTime, and the sector
-- position at that time is the next one.
pub compute_latency-position :
    (ticks : ℕ) (d : Disk) (s : ℕ)
    → ((ticks + compute_latency ticks d s true) % rotation_time ≡ 0)
      × ((ticks + compute_latency ticks d s true) / rotation_time % 32 ≡ (s + 1) % 32)
unfolding compute_latency
compute_latency-position ticks d s =
    let (seek, rotation) = time_to_seek ticks d s in
    let after = ticks + seek + rotation in
    let b : after % 500 ≡ 0 = on_boundary ticks d s in
    let turn = modulo_diff s (after / 500) in
    let r = after_rotation after s b in
    let sum : ticks + (seek + (rotation + turn * 500) + 500) ≡ after + turn * 500 + 500 =
      omega arith in
    rw (not_buffered d s seek after, sum) (omega (arith, b), r)

update_last-sectors : (ticks : ℕ) (d : Disk) (s : ℕ) → (update_last ticks d s).sectors ≡ d.sectors
unfolding update_last
update_last-sectors ticks d s = refl

-- After a WriteRequest that succeeded and the interrupt that ends it, a ReadRequest for the same
-- sector at any time succeeds and gives the data that was written, and leaves the sectors as they
-- are.
pub read_request-write_request :
    (ticks later : ℕ) (d d' : Disk) (s delay : ℕ) (bytes : List ℕ)
    → write_request ticks d s bytes ≡ ok (d', delay)
    → (d'' : Disk) × (n : ℕ) × (read_request later (handle_interrupt d') s ≡ ok (bytes, d'', n))
      × (d''.sectors ≡ d'.sectors)
unfolding write_request read_request handle_interrupt
read_request-write_request ticks later d d' s delay bytes h = elim (Bool-cases d.active) [
  | inl busy ↦ absurd (ground arith)
  | inr free ↦ elim (Bool-cases (ltb s num_sectors)) [
    | inr outside ↦ absurd (ground arith)
    | inl inside ↦ elim (Bool-cases (ltb s (length d.sectors))) [
      | inr short ↦ absurd (ground arith)
      | inl there ↦
          let stored = set d.sectors s bytes in
          let same : update_last ticks (record d { active = true; sectors = stored }) s ≡ d' =
            ground arith in
          let kept : d'.sectors ≡ stored = rw (← same) (update_last-sectors ticks _ s) in
          let read : get_elem? d'.sectors s ≡ some bytes =
            rw kept (get_elem?-set_self d.sectors s bytes (ground arith)) in
          (
            update_last later (record d' { active = true }) s,
            compute_latency later (handle_interrupt d') s false,
            rw (inside, read) refl,
            update_last-sectors later _ s,
          )
    ]
  ]
]
