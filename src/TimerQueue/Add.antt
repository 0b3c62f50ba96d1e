-- ===== src/TimerQueue/Add.antt =====
-- `addTimer` in the loop's thread.
use mudo_reprint.Base.{ℕ, ◌<◌, ◌≡◌, true, none, some, List, ◌∷◌, All, if◌then◌else◌, arith, ok, ◌↔◌}
use mudo_reprint.Timestamp.{Timestamps}
use mudo_reprint.TimerSet.{set_insert, is_first, uintptr_max, how_much_time_from_now}
use mudo_reprint.TimerSet.Expiry.{IsLater, is_first_iff}
use mudo_reprint.TimerQueue.{
  Timer, TimerQueue, set_timer, add_timer, add_timer_in_loop, insert, new_timer, reset_timerfd,
}
use mudo_reprint.TimerQueue.Invariant.{Inv, put-Inv, Misses-free}

module _ {api : Timestamps} {Cb : Type 0} where
  open api use {Time, Interval}

  -- What `addTimer` leads to, with `timer` at the free address `p`.
  abbrev pub added : Time → ℕ → Timer api Cb → TimerQueue api Cb → TimerQueue api Cb
  added now p timer q = record {
    timer_set = set_insert api (timer.expiration, p) q.timer_set;
    timers = set_timer q.timers p (some timer);
    settings =
        if is_first api timer.expiration q.timer_set
        then how_much_time_from_now api now timer.expiration ∷ q.settings
        else q.settings;
  }

  -- A timer that is added at a free address keeps the invariant, also while others are taken out and
  -- being run; and the descriptor is set to its time exactly when that is before all others.
  pub add_timer-Inv :
      (out : List (Time × ℕ)) (now : Time) (p : ℕ) (timer : Timer api Cb) (q : TimerQueue api Cb)
      → Inv out q.timer_set q.timers
      → q.timers p ≡ none
      → p < uintptr_max
      → (add_timer now p timer.cb timer.expiration timer.interval q ≡ ok (added now p timer q))
        × Inv out (added now p timer q).timer_set (added now p timer q).timers
        × ((is_first api timer.expiration q.timer_set ≡ true)
            ↔ All (IsLater api timer.expiration) q.timer_set)
  unfolding add_timer add_timer_in_loop insert new_timer reset_timerfd
  add_timer-Inv out now p timer q v free lt = (
    ground arith,
    put-Inv out q.timer_set q.timers p timer v (Misses-free p q.timer_set q.timers free v.live)
        (Misses-free p out q.timers free v.out_live) lt,
    is_first_iff api timer.expiration q.timer_set v.sorted,
  )
