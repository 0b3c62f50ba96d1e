-- ===== src/TimerSet/Tests.antt =====
-- The set of timers with times in whole microseconds.
use mudo_reprint.Base.{arith, ◌+◌, ◌*◌, ◌/◌, ◌<◌, ◌≡◌}
use mudo_reprint.Base.Int.{pos, ◌-ℤ◌}
use mudo_reprint.Timestamp.{whole_micros}
use mudo_reprint.TimerSet.{how_much_time_from_now}
use mudo_reprint.TimerSet.Clock.{how_much_time_from_now_exact}

how_much_time_from_now_exact_example :
    let ts = how_much_time_from_now whole_micros (pos 5) (pos 1500005) in
    (ts.tv_nsec < 1_000_000_000)
    × (0 < ts.tv_sec * 1_000_000_000 + ts.tv_nsec)
    × (ts.tv_sec * 1_000_000 + ts.tv_nsec / 1000 ≡ 1500000)
unfolding ◌-ℤ◌
how_much_time_from_now_exact_example =
    how_much_time_from_now_exact whole_micros (pos 5) (pos 1500005) (ground arith)
