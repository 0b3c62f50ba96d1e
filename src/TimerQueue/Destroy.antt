-- ===== src/TimerQueue/Destroy.antt =====
-- The timers that `~TimerQueue` deletes.
use mudo_reprint.Base.{
  ℕ, ◌≡◌, refl, Bool, false, ◌||◌, Option, none, List, [], ◌∷◌, All, arith, ◌==◌, ok, if◌then◌else◌,
}
use mudo_reprint.Timestamp.{Timestamps}
use mudo_reprint.TimerSet.Pointers.{Misses, IsDistinct}
use mudo_reprint.TimerQueue.{Timer, TimerQueue, set_timer, delete_timers}
use mudo_reprint.TimerQueue.Invariant.{IsLive, IsLive-update, IsSorted-IsDistinct}
use mudo_reprint.TimerQueue.Restart.{IsValid}

module _ {T : Type 0} where
  -- Some entry points at `p`.
  unfoldable pub points_at : ℕ → List (T × ℕ) → Bool
  points_at p [] = false
  points_at p (x ∷ xs) = x.1 == p || points_at p xs

  Misses-points_at : (p : ℕ) (xs : List (T × ℕ)) → Misses p xs → points_at p xs ≡ false
  unfolding points_at
  Misses-points_at p [] m = refl
  Misses-points_at p (x ∷ xs) m = ground (arith, m.0, Misses-points_at p xs m.1)

module _ {api : Timestamps} {Cb : Type 0} where
  open api use {Time}

  delete_timers_lem :
      (es : List (Time × ℕ)) (timers : ℕ → Option (Timer api Cb))
      → IsDistinct es
      → All (IsLive timers) es
      → (left : ℕ → Option (Timer api Cb)) × (delete_timers es timers ≡ ok left)
        × ((p : ℕ) → left p ≡ (if points_at p es then none else timers p))
  unfolding delete_timers points_at
  delete_timers_lem [] timers d a = (timers, refl, λ p. refl)
  delete_timers_lem (x ∷ xs) timers d a =
      let (left, e, h) =
        delete_timers_lem xs (set_timer timers x.1 none) d.1
          (IsLive-update x.1 none timers xs d.0 a.1) in
      (left, ground (arith, a.0.1, e), λ p. ground (arith, h p, Misses-points_at x.1 xs d.0))

  -- Of a queue in a valid state, the destructor deletes each timer of the set, none of them twice, and
  -- no other timer.
  pub delete_timers-IsValid :
      (q : TimerQueue api Cb)
      → IsValid q
      → (left : ℕ → Option (Timer api Cb)) × (delete_timers q.timer_set q.timers ≡ ok left)
        × ((p : ℕ) → left p ≡ (if points_at p q.timer_set then none else q.timers p))
  delete_timers-IsValid q v =
      delete_timers_lem q.timer_set q.timers
        (IsSorted-IsDistinct q.timer_set q.timers v.sorted v.live) v.live
