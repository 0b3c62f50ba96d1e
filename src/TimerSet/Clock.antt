-- ===== src/TimerSet/Clock.antt =====
-- The relative time that the timer descriptor is set to.
use mudo_reprint.Base.{◌+◌, ◌*◌, ◌/◌, ◌<◌, ◌≡◌, arith, if◌then◌else◌}
use mudo_reprint.Base.Int.{pos, pos_part, ◌-ℤ◌, ltb_ℤ, IsInt64, as_int64_fits}
use mudo_reprint.Timestamp.{Timestamps}
use mudo_reprint.TimerSet.{how_much_time_from_now}

module _ (api : Timestamps) where
  open api use {Time, micros, micro_seconds_per_second_lem}

  -- Where the difference of the two times fits an int64_t: the value is well formed, is never the zero that would disarm the descriptor, and is the time
  -- left in microseconds, or 100 of them where less is left.
  pub how_much_time_from_now_exact :
      (now when : Time)
      → IsInt64 (micros when -ℤ micros now)
      → let ts = how_much_time_from_now api now when in
        (ts.tv_nsec < 1_000_000_000)
        × (0 < ts.tv_sec * 1_000_000_000 + ts.tv_nsec)
        × (ts.tv_sec * 1_000_000 + ts.tv_nsec / 1000 ≡ (
            if ltb_ℤ (micros when -ℤ micros now) (pos 100)
            then 100
            else pos_part (micros when -ℤ micros now)))
  unfolding how_much_time_from_now
  how_much_time_from_now_exact now when h =
      rw (micro_seconds_per_second_lem, as_int64_fits (micros when -ℤ micros now) h) (ground arith)
