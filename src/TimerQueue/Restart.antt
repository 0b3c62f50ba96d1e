-- ===== src/TimerQueue/Restart.antt =====
-- `resetTimerList`, up to the descriptor: repeating timers come back, the others are deleted.
use mudo_reprint.Base.{
  ℕ, ◌≡◌, refl, inl, inr, none, some, List, [], ◌∷◌, if◌then◌else◌, arith, ok, Bool-cases,
}
use mudo_reprint.Timestamp.{Timestamps}
use mudo_reprint.TimerSet.{set_insert}
use mudo_reprint.TimerQueue.{Timer, TimerQueue, set_timer, insert, repeat, restart, restart_all}
use mudo_reprint.TimerQueue.Invariant.{Inv, put-Inv, drop-Inv, tail-Inv}

module _ {api : Timestamps} {Cb : Type 0} where
  open api use {Time, Interval, valid, add_time, positive}

  -- Between two calls: nothing is taken out.
  abbrev pub IsValid : TimerQueue api Cb → Type 0
  IsValid q = Inv [] q.timer_set q.timers

  abbrev pub restarted : ℕ → Timer api Cb → TimerQueue api Cb → TimerQueue api Cb
  restarted p t q = record q {
    timers = set_timer q.timers p (some (restart t));
    timer_set = set_insert api ((restart t).expiration, p) q.timer_set;
  }

  abbrev pub deleted : ℕ → TimerQueue api Cb → TimerQueue api Cb
  deleted p q = record q { timers = set_timer q.timers p none }

  -- One round of the loop in `resetTimerList`.
  abbrev pub settle : ℕ → Timer api Cb → TimerQueue api Cb → TimerQueue api Cb
  settle p t q = if repeat t then restarted p t q else deleted p q

  pub settle-Inv :
      (u : Time) (p : ℕ) (out : List (Time × ℕ)) (t : Timer api Cb) (q : TimerQueue api Cb)
      → Inv ((u, p) ∷ out) q.timer_set q.timers
      → Inv out (settle p t q).timer_set (settle p t q).timers
  settle-Inv u p out t q v = elim (Bool-cases (repeat t)) [
    | inl again ↦ rw again (
        put-Inv out q.timer_set q.timers p (restart t) rest v.apart.0 v.out_distinct.0
          v.out_pointers.0)
    | inr once ↦ rw once (drop-Inv out q.timer_set q.timers p rest v.apart.0 v.out_distinct.0)
  ]
    where
      rest : Inv out q.timer_set q.timers
      rest = tail-Inv (u, p) out q.timer_set q.timers v

  pub restart_all-step :
      (u : Time) (p : ℕ) (out : List (Time × ℕ)) (t : Timer api Cb) (q : TimerQueue api Cb)
      → q.timers p ≡ some t
      → restart_all ((u, p) ∷ out) q ≡ restart_all out (settle p t q)
  unfolding restart_all insert
  restart_all-step u p out t q live = ground arith

  pub restart_all-Inv :
      (out : List (Time × ℕ)) (q : TimerQueue api Cb)
      → Inv out q.timer_set q.timers
      → (q' : TimerQueue api Cb) × (restart_all out q ≡ ok q')
        × IsValid q'
        × (q'.settings ≡ q.settings)
  unfolding restart_all
  restart_all-Inv [] q v = (q, refl, v, refl)
  restart_all-Inv ((u, p) ∷ out) q v =
      let (t, live, _) = v.out_live.0 in
      let (q', e, v', s) = restart_all-Inv out (settle p t q) (settle-Inv u p out t q v) in
      (q', rw (restart_all-step u p out t q live) e, v', ground (arith, s))
