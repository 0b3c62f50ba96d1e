-- ===== src/TimerQueue/AnyOrder.antt =====
-- Timers that are added one after the other, in the loop's thread, in any order.
use mudo_reprint.Base.{
  ℕ, ◌<◌, ◌≡◌, refl, none, List, [], ◌∷◌, map, All, arith, Result, ok, ◌>>=◌, ◌||◌,
}
use mudo_reprint.Timestamp.{Timestamps}
use mudo_reprint.TimerSet.{uintptr_max}
use mudo_reprint.TimerSet.Pointers.{Misses, IsDistinct}
use mudo_reprint.TimerSet.Abstract.{of_list, has, has-set_insert, exact, unique}
use mudo_reprint.TimerQueue.{Timer, TimerQueue, add_timer}
use mudo_reprint.TimerQueue.Invariant.{Inv}
use mudo_reprint.TimerQueue.Add.{added, add_timer-Inv}

module _ {api : Timestamps} {Cb : Type 0} where
  open api use {Time}

  -- A call of `addTimer` is known by the address of the timer that it makes.
  abbrev pub entry : ℕ × Timer api Cb → Time × ℕ
  entry (p, t) = (t.expiration, p)

  pub add_all : Time → List (ℕ × Timer api Cb) → TimerQueue api Cb → Result (TimerQueue api Cb)
  add_all now [] q = ok q
  add_all now ((p, t) ∷ calls) q = do
    q' ← add_timer now p t.cb t.expiration t.interval q
    add_all now calls q'

  -- The addresses are free, and no two are the same.
  pub record AreFree (calls : List (ℕ × Timer api Cb)) (q : TimerQueue api Cb) : Type 0 where
    pub free : All (λ c. q.timers c.0 ≡ none) calls
    pub pointers : All (λ c. c.0 < uintptr_max) calls
    pub distinct : IsDistinct (map entry calls)

  All-elsewhere :
      (now : Time) (p : ℕ) (t : Timer api Cb) (q : TimerQueue api Cb)
      (calls : List (ℕ × Timer api Cb))
      → Misses p (map entry calls)
      → All (λ c. q.timers c.0 ≡ none) calls
      → All (λ c. (added now p t q).timers c.0 ≡ none) calls
  All-elsewhere now p t q [] m a = tt
  All-elsewhere now p t q (c ∷ calls) m a =
      (ground (arith, m.0, a.0), All-elsewhere now p t q calls m.1 a.1)

  -- The queue that the calls lead to: a valid one, whose set has their entries and those before.
  add_all-has :
      (now : Time) (calls : List (ℕ × Timer api Cb)) (q : TimerQueue api Cb)
      → Inv [] q.timer_set q.timers
      → AreFree calls q
      → (q' : TimerQueue api Cb) × (add_all now calls q ≡ ok q')
        × Inv [] q'.timer_set q'.timers
        × ((e : Time × ℕ)
            → has api e q'.timer_set ≡ (has api e (map entry calls) || has api e q.timer_set))
  unfolding add_all
  add_all-has now [] q v a = (q, refl, v, λ e. refl)
  add_all-has now ((p, t) ∷ calls) q v a =
      let (e₁, v₁, _) = add_timer-Inv [] now p t q v a.free.0 a.pointers.0 in
      let (q', e₂, v₂, h) = add_all-has now calls (added now p t q) v₁ (record {
        free = All-elsewhere now p t q calls a.distinct.0 a.free.1;
        pointers = a.pointers.1;
        distinct = a.distinct.1;
      }) in
      (
        q',
        rw e₁ e₂,
        v₂,
        λ e. ground (arith, h e, has-set_insert api e (t.expiration, p) q.timer_set),
      )

  -- Let two sequences of calls of `addTimer` have the same finite set of entries, each with addresses
  -- that are free and differ. From a valid queue both succeed, and lead to valid queues with the same
  -- set of timers, in the same order, so that it does not matter which timer was added first.
  pub add_all-any_order :
      (now : Time) (calls calls' : List (ℕ × Timer api Cb)) (q : TimerQueue api Cb)
      → Inv [] q.timer_set q.timers
      → AreFree calls q
      → AreFree calls' q
      → of_list api (map entry calls) ≡ of_list api (map entry calls')
      → (q₁ q₂ : TimerQueue api Cb) × (add_all now calls q ≡ ok q₁)
        × (add_all now calls' q ≡ ok q₂)
        × Inv [] q₁.timer_set q₁.timers
        × Inv [] q₂.timer_set q₂.timers
        × (q₁.timer_set ≡ q₂.timer_set)
  add_all-any_order now calls calls' q v a a' same =
      let (q₁, e₁, v₁, h₁) = add_all-has now calls q v a in
      let (q₂, e₂, v₂, h₂) = add_all-has now calls' q v a' in
      let alike = exact api (map entry calls) (map entry calls') same in
      (
        q₁,
        q₂,
        e₁,
        e₂,
        v₁,
        v₂,
        unique api q₁.timer_set q₂.timer_set v₁.sorted v₂.sorted
            (λ e. ground (arith, h₁ e, h₂ e, alike e)),
      )
