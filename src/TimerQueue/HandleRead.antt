-- ===== src/TimerQueue/HandleRead.antt =====
-- `handleRead`: the due timers are run, the repeating ones come back, the others are deleted.
use mudo_reprint.Base.{
  ℕ, ◌≡◌, refl, Option, none, some, List, [], ◌∷◌, All, if◌then◌else◌, arith, Result, ok, ◌>>=◌,
}
use mudo_reprint.Timestamp.{Timestamps}
use mudo_reprint.TimerSet.{TimeSpec, below, from, uintptr_max, how_much_time_from_now}
use mudo_reprint.TimerQueue.{
  Timer, TimerQueue, next_expire, reset_timer_list, reset_timerfd, get_expired, run, run_all,
  handle_read,
}
use mudo_reprint.TimerQueue.Restart.{IsValid, restart_all-Inv}
use mudo_reprint.TimerQueue.Invariant.{Inv, IsLive, split-Inv}

module _ (api : Timestamps) where
  open api use {Time, valid}

  -- What the end of `resetTimerList` makes of the settings: the first timer of the set is set up,
  -- unless there is none or its time is the invalid one.
  abbrev pub rearmed : Time → List (Time × ℕ) → List TimeSpec → List TimeSpec
  rearmed now [] settings = settings
  rearmed now (e ∷ es) settings =
      if valid e.0 then how_much_time_from_now api now e.0 ∷ settings else settings

module _ {api : Timestamps} {Cb : Type 0} where
  open api use {Time, valid}

  -- A callback returns, and whatever timers are out it keeps the invariant: the documented use, in
  -- which callbacks go through `addTimer` and never touch a timer themselves.
  abbrev pub KeepsTimers : (Cb → TimerQueue api Cb → Result (TimerQueue api Cb)) → Type 0
  KeepsTimers exec =
      (cb : Cb) (out : List (Time × ℕ)) (q : TimerQueue api Cb)
      → Inv out q.timer_set q.timers
      → (q' : TimerQueue api Cb) × (exec cb q ≡ ok q') × Inv out q'.timer_set q'.timers

  next-rearmed :
      (now : Time) (es : List (Time × ℕ)) (q : TimerQueue api Cb)
      → q.timer_set ≡ es
      → All (IsLive q.timers) es
      → (do next ← next_expire q; ok (if valid next then reset_timerfd now next q else q))
        ≡ ok (record q { settings = rearmed api now es q.settings })
  unfolding next_expire reset_timerfd
  next-rearmed now [] q e a = ground (arith, api.valid-invalid)
  next-rearmed now (x ∷ es) q e a = ground (arith, a.0.1, a.0.2)

  reset_timer_list-Inv :
      (now : Time) (out : List (Time × ℕ)) (q : TimerQueue api Cb)
      → Inv out q.timer_set q.timers
      → (q' : TimerQueue api Cb) × (reset_timer_list now out q ≡ ok q')
        × IsValid q'
        × (q'.settings ≡ rearmed api now q'.timer_set q.settings)
  unfolding reset_timer_list
  reset_timer_list-Inv now out q v =
      let (q₁, e, v₁, s) = restart_all-Inv out q v in
      (
        record q₁ { settings = rearmed api now q₁.timer_set q₁.settings },
        rw e (next-rearmed now q₁.timer_set q₁ refl v₁.live),
        v₁,
        rw s refl,
      )

  module _ (exec : Cb → TimerQueue api Cb → Result (TimerQueue api Cb))
      (keeps : KeepsTimers exec) where
    run-Inv :
        (t : Timer api Cb) (o : Option Cb) (out : List (Time × ℕ)) (q : TimerQueue api Cb)
        → t.cb ≡ o
        → Inv out q.timer_set q.timers
        → (q' : TimerQueue api Cb) × (run exec t q ≡ ok q') × Inv out q'.timer_set q'.timers
    unfolding run
    run-Inv t none out q e v = (q, ground arith, v)
    run-Inv t (some cb) out q e v =
        let (q', r, v') = keeps cb out q v in (q', ground (arith, r), v')

    -- The entries in `es` are still to be run; all of `out` are out.
    run_all-Inv :
        (es out : List (Time × ℕ)) (q : TimerQueue api Cb)
        → ((timers : ℕ → Option (Timer api Cb)) → All (IsLive timers) out → All (IsLive timers) es)
        → Inv out q.timer_set q.timers
        → (q' : TimerQueue api Cb) × (run_all exec es q ≡ ok q') × Inv out q'.timer_set q'.timers
    unfolding run_all
    run_all-Inv [] out q sub v = (q, refl, v)
    run_all-Inv ((u, p) ∷ es) out q sub v =
        let (t, live, _) = (sub q.timers v.out_live).0 in
        let (q₁, e₁, v₁) = run-Inv t t.cb out q refl v in
        let (q', e', v') = run_all-Inv es out q₁ (λ timers a. (sub timers a).1) v₁ in
        (q', rw (live, e₁) e', v')

    -- From a valid queue `handleRead` runs to its end whatever is due: it follows no pointer to a
    -- deleted timer, it leaves a valid queue, and the last thing that it does to the descriptor is to
    -- set it to the first timer that is left. Between, the callbacks may add timers.
    pub handle_read-IsValid :
        (now later : Time) (q : TimerQueue api Cb)
        → IsValid q
        → (q' : TimerQueue api Cb) × (settings : List TimeSpec) × (handle_read exec now later q
            ≡ ok q')
          × IsValid q'
          × (q'.settings ≡ rearmed api later q'.timer_set settings)
    unfolding handle_read get_expired
    handle_read-IsValid now later q v =
        let key : Time × ℕ = (now, uintptr_max) in
        let out = below api key q.timer_set in
        let q₁ = record q { timer_set = from api key q.timer_set } in
        let (q₂, e₂, v₂) =
          run_all-Inv out out q₁ (λ timers a. a) (split-Inv key q.timer_set q.timers v) in
        let (q₃, e₃, v₃, s₃) = reset_timer_list-Inv later out q₂ v₂ in
        (q₃, q₂.settings, rw e₂ e₃, v₃, s₃)
