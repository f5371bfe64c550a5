-- ===== src/Disk.antt =====
-- code/machine/disk.cc and disk.h: the simulated disk, its head and its track buffer. The UNIX file
-- behind it is a list of sectors; the interrupt that a request schedules is given by its delay.
pub mod Latency
use my_nachos.Shared.{
  ℕ, ◌+◌, ◌-◌, ◌*◌, ◌/◌, ◌%◌, Bool, true, false, not, ◌&&◌, List, ltb, ◌==◌, if◌then◌else◌, elem,
  put, Result, ok, ◌>>=◌, ◌>>◌, assert,
}

abbrev pub sectors_per_track : ℕ
sectors_per_track = 32

abbrev pub num_tracks : ℕ
num_tracks = 32

abbrev pub num_sectors : ℕ
num_sectors = sectors_per_track * num_tracks

-- `RotationTime` and `SeekTime` of stats.h.
abbrev pub rotation_time : ℕ
rotation_time = 500

abbrev pub seek_time : ℕ
seek_time = 500

pub record Disk : Type 0 where
  pub sectors : List (List ℕ)
  pub active : Bool
  pub last_sector : ℕ
  pub buffer_init : ℕ

-- `abs(a - b)`.
abbrev pub distance : ℕ → ℕ → ℕ
distance a b = if ltb a b then b - a else a - b

-- The seek time, and `*rotation`; `ticks` is `stats->totalTicks`.
unfoldable pub time_to_seek : ℕ → Disk → ℕ → ℕ × ℕ
time_to_seek ticks d new_sector =
    let new_track = new_sector / sectors_per_track in
    let old_track = d.last_sector / sectors_per_track in
    let seek = distance new_track old_track * seek_time in
    let over = (ticks + seek) % rotation_time in
    (seek, (if ltb 0 over then rotation_time - over else 0))

unfoldable pub modulo_diff : ℕ → ℕ → ℕ
modulo_diff to from =
    let to_offset = to % sectors_per_track in
    let from_offset = from % sectors_per_track in
    (to_offset + sectors_per_track - from_offset) % sectors_per_track

-- Whether the track buffer holds the sector when the head could read it.
unfoldable pub buffered : Disk → ℕ → Bool → ℕ → ℕ → Bool
buffered d new_sector writing seek time_after =
    not writing
    && (seek == 0
        && ltb (modulo_diff new_sector (d.buffer_init / rotation_time))
            ((time_after - d.buffer_init) / rotation_time))

unfoldable pub compute_latency : ℕ → Disk → ℕ → Bool → ℕ
compute_latency ticks d new_sector writing =
    let (seek, rotation) = time_to_seek ticks d new_sector in
    let time_after = ticks + seek + rotation in
    if buffered d new_sector writing seek time_after
    then rotation_time
    else seek
      + (rotation + modulo_diff new_sector (time_after / rotation_time) * rotation_time)
      + rotation_time

unfoldable pub update_last : ℕ → Disk → ℕ → Disk
update_last ticks d new_sector =
    let (seek, rotate) = time_to_seek ticks d new_sector in
    record d {
      buffer_init = if not (seek == 0) then ticks + seek + rotate else d.buffer_init;
      last_sector = new_sector;
    }

-- The data that was read, the disk, and the ticks until the interrupt.
unfoldable pub read_request : ℕ → Disk → ℕ → Result (List ℕ × Disk × ℕ)
read_request ticks d sector_number = do
  let delay = compute_latency ticks d sector_number false
  assert (not d.active)
  assert (ltb sector_number num_sectors)
  data_read ← elem d.sectors sector_number
  ok (data_read, update_last ticks (record d { active = true }) sector_number, delay)

unfoldable pub write_request : ℕ → Disk → ℕ → List ℕ → Result (Disk × ℕ)
write_request ticks d sector_number bytes = do
  let delay = compute_latency ticks d sector_number true
  assert (not d.active)
  assert (ltb sector_number num_sectors)
  sectors ← put d.sectors sector_number bytes
  ok (update_last ticks (record d { active = true; sectors = sectors }) sector_number, delay)

-- `HandleInterrupt`, before it calls the handler of the kernel.
unfoldable pub handle_interrupt : Disk → Disk
handle_interrupt d = record d { active = false }
