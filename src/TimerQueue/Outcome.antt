-- ===== src/TimerQueue/Outcome.antt =====
-- What becomes of each timer that has run.
use mudo_reprint.Base.{
  subst, ap, ℕ, ◌≡◌, refl, sym, ◌∙◌, ◌≢◌, ◌⊎◌, inl, inr, false, none, some, List, [], ◌∷◌,
  if◌then◌else◌, arith, ok, Bool-cases,
}
use mudo_reprint.Base.Int.{eq_of_parts}
use mudo_reprint.Timestamp.{Timestamps}
use mudo_reprint.TimerSet.{set_insert, entry_lt}
use mudo_reprint.TimerSet.Order.{All-set_insert}
use mudo_reprint.TimerSet.Pointers.{Misses}
use mudo_reprint.TimerQueue.{Timer, TimerQueue, repeat, restart, restart_all}
use mudo_reprint.TimerQueue.Invariant.{Inv}
use mudo_reprint.TimerQueue.Restart.{settle, settle-Inv, restart_all-step}

abbrev pub Has : {T : Type 0} → T × ℕ → List (T × ℕ) → Type 0
Has e [] = ⊥
Has e (x ∷ xs) = (x ≡ e) ⊎ Has e xs

module _ {T : Type 0} where
  Misses-Has : (p d : ℕ) (u : T) (out : List (T × ℕ)) → Misses p out → Has (u, d) out → d ≢ p
  Misses-Has p d u [] m h = absurd h
  Misses-Has p d u (x ∷ out) m (inl same) = λ e. m.0 (ap (λ w. w.1) same ∙ e)
  Misses-Has p d u (x ∷ out) m (inr h) = Misses-Has p d u out m.1 h

module _ (api : Timestamps) where
  open api use {Time, micros, micros_injective, lt_lem}

  entry_eq :
      (t u : Time) (p q : ℕ)
      → entry_lt api (t, p) (u, q) ≡ false
      → entry_lt api (u, q) (t, p) ≡ false
      → ◌≡◌ {A = Time × ℕ} (u, q) (t, p)
  entry_eq t u p q h g =
      ground
        (arith, lt_lem t u, lt_lem u t, eq_of_parts (micros u) (micros t), micros_injective u t)

  pub Has-set_insert_self :
      (t : Time) (p : ℕ) (xs : List (Time × ℕ)) → Has (t, p) (set_insert api (t, p) xs)
  Has-set_insert_self t p [] = inl refl
  Has-set_insert_self t p ((u, q) ∷ xs) =
      ground (arith, entry_eq t u p q, Has-set_insert_self t p xs)

  pub Has-set_insert :
      (e x : Time × ℕ) (xs : List (Time × ℕ)) → Has e xs → Has e (set_insert api x xs)
  Has-set_insert e x [] h = absurd h
  Has-set_insert e x (y ∷ xs) (inl same) = ground arith
  Has-set_insert e x (y ∷ xs) (inr h) = ground (arith, Has-set_insert e x xs h)

module _ {api : Timestamps} {Cb : Type 0} where
  open api use {Time, positive, add_time}

  -- The timer `t`, which was at `p`, has run: if it repeats it is in the set again under its next
  -- time, and otherwise the address is free and no entry points at it.
  abbrev pub IsRestarted : ℕ → Timer api Cb → TimerQueue api Cb → Type 0
  IsRestarted p t q =
      if repeat t
      then (q.timers p ≡ some (restart t)) × Has ((restart t).expiration, p) q.timer_set
      else (q.timers p ≡ none) × Misses p q.timer_set

  settle-IsRestarted :
      (p : ℕ) (t : Timer api Cb) (q : TimerQueue api Cb)
      → Misses p q.timer_set
      → IsRestarted p t (settle p t q)
  settle-IsRestarted p t q m = elim (Bool-cases (repeat t)) [
    | inl again ↦
        simp again ((ground arith), Has-set_insert_self api (restart t).expiration p q.timer_set)
    | inr once ↦ simp once ((ground arith), m)
  ]

  settle_other :
      (p d : ℕ) (t s : Timer api Cb) (q : TimerQueue api Cb)
      → p ≢ d
      → IsRestarted d s q
      → IsRestarted d s (settle p t q)
  settle_other p d t s q ne h = elim (Bool-cases (repeat t)) [
    | inl again ↦ rw again (elim (Bool-cases (repeat s)) [
      | inl back ↦
          let k = rw back at h in
          rw back (
            (ground arith),
            Has-set_insert api ((restart s).expiration, d) ((restart t).expiration, p) q.timer_set
                k.1,
          )
      | inr gone ↦
          let k = rw gone at h in
          rw gone (
            (ground arith),
            All-set_insert api (λ e. e.1 ≢ d) ((restart t).expiration, p) q.timer_set ne k.1,
          )
    ])
    | inr once ↦ rw once (elim (Bool-cases (repeat s)) [
      | inl back ↦ let k = rw back at h in rw back ((ground arith), k.1)
      | inr gone ↦ let k = rw gone at h in rw gone ((ground arith), k.1)
    ])
  ]

  restart_all-keeps :
      (d : ℕ) (s : Timer api Cb) (out : List (Time × ℕ)) (q q' : TimerQueue api Cb)
      → Inv out q.timer_set q.timers
      → restart_all out q ≡ ok q'
      → Misses d out
      → IsRestarted d s q
      → IsRestarted d s q'
  unfolding restart_all
  restart_all-keeps d s [] q q' v e m h = let same : q ≡ q' = cc in subst (IsRestarted d s) same h
  restart_all-keeps d s ((u, p) ∷ out) q q' v e m h =
      let (t, live, _) = v.out_live.0 in
      restart_all-keeps d s out (settle p t q) q' (settle-Inv u p out t q v)
        (sym (restart_all-step u p out t q live) ∙ e) m.1 (settle_other p d t s q m.0 h)

  restart_all-IsRestarted :
      (u : Time) (d : ℕ) (s : Timer api Cb) (out : List (Time × ℕ)) (q q' : TimerQueue api Cb)
      → Inv out q.timer_set q.timers
      → restart_all out q ≡ ok q'
      → q.timers d ≡ some s
      → Has (u, d) out
      → IsRestarted d s q'
  restart_all-IsRestarted u d s [] q q' v e l h = absurd h
  restart_all-IsRestarted u d s ((w, p) ∷ out) q q' v e l (inl same) =
      let here : p ≡ d = ap (λ k. k.1) same in
      let live : q.timers p ≡ some s = rw here l in
      rw (← here) (
        restart_all-keeps p s out (settle p s q) q' (settle-Inv w p out s q v)
          (sym (restart_all-step w p out s q live) ∙ e) v.out_distinct.0
          (settle-IsRestarted p s q v.apart.0))
  restart_all-IsRestarted u d s ((w, p) ∷ out) q q' v e l (inr h) =
      let (t, live, _) = v.out_live.0 in
      restart_all-IsRestarted u d s out (settle p t q) q' (settle-Inv w p out t q v)
        (sym (restart_all-step w p out t q live) ∙ e) (kept t) h
    where
      kept : (t : Timer api Cb) → (settle p t q).timers d ≡ some s
      kept t = ground (arith, Misses-Has p d u out v.out_distinct.0 h, l)

  -- A timer with a positive interval is alive, its expiration later by the interval, and in the set
  -- under that time; any other is deleted, and no entry points at it.
  abbrev pub IsSettled : ℕ → Timer api Cb → TimerQueue api Cb → Type 0
  IsSettled p t q =
      if positive t.interval
      then (q.timers p ≡ some (record t { expiration = add_time t.expiration t.interval }))
        × Has (add_time t.expiration t.interval, p) q.timer_set
      else (q.timers p ≡ none) × Misses p q.timer_set

  IsRestarted-IsSettled :
      (p : ℕ) (t : Timer api Cb) (q : TimerQueue api Cb) → IsRestarted p t q → IsSettled p t q
  unfolding repeat restart
  IsRestarted-IsSettled p t q h = elim (Bool-cases (positive t.interval)) [
    | inl again ↦ let k = rw again at h in rw again k
    | inr once ↦ let k = rw once at h in rw once k
  ]

  -- After the loop of `resetTimerList`, from a state with the invariant, a timer that was taken out
  -- has its expiration put off by its interval, where that is positive, and is in the set under this
  -- time; where it is not, the timer is deleted, with no entry left that points at it.
  pub restart_all-IsSettled :
      (u : Time) (d : ℕ) (s : Timer api Cb) (out : List (Time × ℕ)) (q q' : TimerQueue api Cb)
      → Inv out q.timer_set q.timers
      → restart_all out q ≡ ok q'
      → q.timers d ≡ some s
      → Has (u, d) out
      → IsSettled d s q'
  restart_all-IsSettled u d s out q q' v e l h =
      IsRestarted-IsSettled d s q' (restart_all-IsRestarted u d s out q q' v e l h)
