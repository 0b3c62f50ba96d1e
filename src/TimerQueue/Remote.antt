-- ===== src/TimerQueue/Remote.antt =====
-- `addTimer` from any thread: the timer is made at once, and `addTimerInLoop` goes through `runInLoop`.
use mudo_reprint.Base.{
  ℕ, ◌+◌, ◌<◌, ◌≡◌, ◌≢◌, none, Option, List, [], ◌∷◌, if◌then◌else◌, arith, Result, ok, ◌>>=◌,
}
use mudo_reprint.Timestamp.{Timestamps}
use mudo_reprint.TimerSet.{uintptr_max}
use mudo_reprint.EventLoop.{Loop, is_in_loop_thread, queue_in_loop, push_pending, wakeup}
use mudo_reprint.TimerQueue.{Timer, TimerQueue, add_timer, add_timer_in_loop, new_timer}
use mudo_reprint.TimerQueue.Restart.{IsValid}
use mudo_reprint.TimerQueue.Add.{added, add_timer-Inv}

module _ (api : Timestamps) (Cb : Type 0) where
  -- A loop with its timers. Its pending functors are calls of `addTimerInLoop` for the timers at these
  -- addresses.
  pub record Timed : Type 0 where
    pub loop : Loop ℕ
    pub queue : TimerQueue api Cb

module _ {api : Timestamps} {Cb : Type 0} where
  open api use {Time, Interval}

  pub add_timer_from :
      (here : ℕ) (now : Time) (p : ℕ)
      → Option Cb
      → Time
      → Interval
      → Timed api Cb
      → Result (Timed api Cb)
  unfolding new_timer add_timer_in_loop
  add_timer_from here now p cb expiration interval s =
      let q = new_timer p cb expiration interval s.queue in
      if is_in_loop_thread here s.loop
      then (do q' ← add_timer_in_loop now p q; ok (record s { queue = q' }))
      else ok (record { loop = queue_in_loop here p s.loop; queue = q })

  -- The pending functors are called at `now`.
  pub run_pending : Time → List ℕ → TimerQueue api Cb → Result (TimerQueue api Cb)
  unfolding add_timer_in_loop
  run_pending now [] q = ok q
  run_pending now (p ∷ ps) q = do q' ← add_timer_in_loop now p q; run_pending now ps q'

  -- A timer that another thread adds at a free address, to a loop with valid timers and no functor
  -- pending, wakes the loop, and once the loop calls its functors the timers are just as if the loop
  -- had added the timer at that time; they are valid then.
  pub add_timer_from-remote :
      (here : ℕ) (now later : Time) (p : ℕ) (timer : Timer api Cb) (s : Timed api Cb)
      → IsValid s.queue
      → s.loop.pending ≡ []
      → here ≢ s.loop.tid
      → s.queue.timers p ≡ none
      → p < uintptr_max
      → (s' : Timed api Cb) × (add_timer_from here now p timer.cb timer.expiration timer.interval s
          ≡ ok s')
        × (s'.loop.wakeups ≡ s.loop.wakeups + 1)
        × (run_pending later s'.loop.pending s'.queue ≡ ok (added later p timer s.queue))
        × (add_timer later p timer.cb timer.expiration timer.interval s.queue
            ≡ ok (added later p timer s.queue))
        × IsValid (added later p timer s.queue)
  unfolding add_timer_from run_pending add_timer queue_in_loop push_pending wakeup
  add_timer_from-remote here now later p timer s v idle other free lt =
      let (direct, valid, _) = add_timer-Inv [] later p timer s.queue v free lt in
      (
        record {
          loop = queue_in_loop here p s.loop;
          queue = new_timer p timer.cb timer.expiration timer.interval s.queue;
        },
        ground arith,
        ground arith,
        ground (arith, idle, direct),
        direct,
        valid,
      )
