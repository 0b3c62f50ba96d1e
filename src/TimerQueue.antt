-- ===== src/TimerQueue.antt =====
-- Timer.h, TimerQueue.h and TimerQueue.cpp, with EventLoop's `runAt`, `runEvery` and `runAfter`.
--
-- A `Timer *` is an address in `timers`, which maps the timers that are alive. `std::set<Entry>` is a
-- list kept in the order of its comparison. What a callback does to the queue is the argument `exec`.
-- `Timestamp::now()` is an argument of each function that calls it.
pub mod Invariant
pub mod Add
pub mod Restart
pub mod HandleRead
pub mod Outcome
pub mod Remote
pub mod Destroy
pub mod Calls
pub mod AnyOrder
mod Tests
use mudo_reprint.Base.{
  ℕ, ◌+◌, ◌*◌, ◌/◌, ◌%◌, Bool, true, false, not, ◌&&◌, ◌||◌, Option, none, some, List, [], ◌∷◌,
  ◌++◌, ◌==◌, ltb, if◌then◌else◌, Result, ok, err, ◌>>=◌, ◌>>◌, deref,
}
use mudo_reprint.Base.Int.{ℤ, pos, negsuc, pos_part, ◌-ℤ◌, ltb_ℤ}
use mudo_reprint.Timestamp.{Timestamps}
use mudo_reprint.TimerSet.{
  TimeSpec, uintptr_max, set_insert, below, from, how_much_time_from_now, is_first,
}

module _ (api : Timestamps) (Cb : Type 0) where
  open api use {Time, Interval}

  pub record Timer : Type 0 where
    pub expiration : Time
    pub cb : Option Cb
    pub interval : Interval

  -- `settings` are the values given to `timerfd_settime`, newest first.
  pub record TimerQueue : Type 0 where
    pub timer_set : List (Time × ℕ)
    pub timers : ℕ → Option Timer
    pub settings : List TimeSpec

module _ {api : Timestamps} {Cb : Type 0} where
  open api use {
    Time, Interval, micros, lt, invalid, valid, positive, add_time, micro_seconds_per_second,
  }

  pub repeat : Timer api Cb → Bool
  repeat t = positive t.interval

  unfoldable pub restart : Timer api Cb → Timer api Cb
  unfolding repeat
  restart t =
      if repeat t
      then record t { expiration = add_time t.expiration t.interval }
      else record t { expiration = invalid }

  abbrev pub set_timer :
      (ℕ → Option (Timer api Cb)) → ℕ → Option (Timer api Cb) → ℕ → Option (Timer api Cb)
  set_timer f p v q = if q == p then v else f q

  unfoldable pub reset_timerfd : Time → Time → TimerQueue api Cb → TimerQueue api Cb
  reset_timerfd now expiration q = record q {
    settings = how_much_time_from_now api now expiration ∷ q.settings;
  }

  -- The flag and the queue that `insert` leaves.
  pub insert : ℕ → TimerQueue api Cb → Result (Bool × TimerQueue api Cb)
  insert p q = do
    timer ← deref (q.timers p)
    let when = timer.expiration
    ok (
      is_first api when q.timer_set,
      record q { timer_set = set_insert api (when, p) q.timer_set },
    )

  pub add_timer_in_loop : Time → ℕ → TimerQueue api Cb → Result (TimerQueue api Cb)
  unfolding insert reset_timerfd
  add_timer_in_loop now p q = do
    (exchange_first_timer, q') ← insert p q
    timer ← deref (q'.timers p)
    ok (if exchange_first_timer then reset_timerfd now timer.expiration q' else q')

  -- `new Timer(...)` at the address `p`, which the allocator picks.
  unfoldable pub new_timer : ℕ → Option Cb → Time → Interval → TimerQueue api Cb → TimerQueue api Cb
  new_timer p cb expiration interval q =
      let timer : Timer api Cb = record { expiration = expiration; cb = cb; interval = interval } in
      record q { timers = set_timer q.timers p (some timer) }

  -- `addTimer` in the loop's own thread, where `runInLoop` calls `addTimerInLoop` at once.
  pub add_timer :
      Time → ℕ → Option Cb → Time → Interval → TimerQueue api Cb → Result (TimerQueue api Cb)
  unfolding add_timer_in_loop new_timer
  add_timer now p cb expiration interval q =
      add_timer_in_loop now p (new_timer p cb expiration interval q)

  pub get_expired : Time → TimerQueue api Cb → List (Time × ℕ) × TimerQueue api Cb
  get_expired now q =
      let set_entry : Time × ℕ = (now, uintptr_max) in
      (below api set_entry q.timer_set, record q { timer_set = from api set_entry q.timer_set })

  -- The loop of `resetTimerList`.
  pub restart_all : List (Time × ℕ) → TimerQueue api Cb → Result (TimerQueue api Cb)
  unfolding insert restart repeat
  restart_all [] q = ok q
  restart_all ((_, p) ∷ es) q = do
    timer ← deref (q.timers p)
    q' ←
        if repeat timer
        then (do
          let q₁ = record q { timers = set_timer q.timers p (some (restart timer)) }
          (_, q₂) ← insert p q₁
          ok q₂)
        else ok (record q { timers = set_timer q.timers p none })
    restart_all es q'

  pub next_expire : TimerQueue api Cb → Result Time
  next_expire q = elim q.timer_set [
    | [] ↦ ok invalid
    | e ∷ _ ↦ do timer ← deref (q.timers e.1); ok timer.expiration
  ]

  pub reset_timer_list : Time → List (Time × ℕ) → TimerQueue api Cb → Result (TimerQueue api Cb)
  unfolding restart_all next_expire reset_timerfd
  reset_timer_list now es q = do
    q' ← restart_all es q
    next ← next_expire q'
    ok (if valid next then reset_timerfd now next q' else q')

  -- The loop of `~TimerQueue`. A second deletion of a timer would be a fault.
  pub delete_timers :
      List (Time × ℕ) → (ℕ → Option (Timer api Cb)) → Result (ℕ → Option (Timer api Cb))
  delete_timers [] timers = ok timers
  delete_timers ((_, p) ∷ es) timers = do
    _ ← deref (timers p)
    delete_timers es (set_timer timers p none)

  module _ (exec : Cb → TimerQueue api Cb → Result (TimerQueue api Cb)) where
    -- `Timer::run`
    pub run : Timer api Cb → TimerQueue api Cb → Result (TimerQueue api Cb)
    run timer q = elim timer.cb [ none ↦ ok q | some cb ↦ exec cb q ]

    pub run_all : List (Time × ℕ) → TimerQueue api Cb → Result (TimerQueue api Cb)
    unfolding run
    run_all [] q = ok q
    run_all ((_, p) ∷ es) q = do timer ← deref (q.timers p); q' ← run timer q; run_all es q'

    -- `handleRead`. The clock is read twice: in `getExpired`, and in `resetTimerfd` afterwards.
    pub handle_read : (now later : Time) → TimerQueue api Cb → Result (TimerQueue api Cb)
    unfolding get_expired run_all reset_timer_list
    handle_read now later q = do
      let (expired, q₁) = get_expired now q
      q₂ ← run_all expired q₁
      reset_timer_list later expired q₂

  -- `runAt`, `runAfter` and `runEvery`; an interval of 0 is the argument `zero_interval`.
  pub run_at :
      Interval → Time → ℕ → Time → Option Cb → TimerQueue api Cb → Result (TimerQueue api Cb)
  unfolding add_timer
  run_at zero_interval now p time cb q = add_timer now p cb time zero_interval q

  pub run_every : Time → ℕ → Interval → Option Cb → TimerQueue api Cb → Result (TimerQueue api Cb)
  unfolding add_timer
  run_every now p interval cb q = add_timer now p cb (add_time now interval) interval q

  pub run_after :
      Interval → Time → ℕ → Interval → Option Cb → TimerQueue api Cb → Result (TimerQueue api Cb)
  unfolding run_at
  run_after zero_interval now p delay cb q = run_at zero_interval now p (add_time now delay) cb q
