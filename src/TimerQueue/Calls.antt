-- ===== src/TimerQueue/Calls.antt =====
-- Which callbacks `handleRead` calls, and when.
use mudo_reprint.Base.{
  ℕ, ◌≡◌, refl, sym, ◌∙◌, Option, none, some, List, [], ◌∷◌, ◌++◌, All, Result, ok, ◌>>=◌, inl, inr,
  Option-cases,
}
use mudo_reprint.Timestamp.{Timestamps}
use mudo_reprint.TimerSet.{below, from, uintptr_max}
use mudo_reprint.TimerSet.Expiry.{IsDue, IsLater, expiry_split}
use mudo_reprint.TimerQueue.{
  Timer, TimerQueue, reset_timer_list, get_expired, run, run_all, handle_read,
}
use mudo_reprint.TimerQueue.Restart.{IsValid}
use mudo_reprint.TimerQueue.Invariant.{Inv, IsLive, split-Inv}

module _ {api : Timestamps} {Cb : Type 0} where
  open api use {Time}

  -- The callbacks of the timers that a list of entries points at, in the order of the list.
  abbrev cb_of : Option (Timer api Cb) → List Cb → List Cb
  cb_of none cbs = cbs
  cb_of (some t) cbs = elim t.cb [ none ↦ cbs | some cb ↦ cb ∷ cbs ]

  pub callbacks_of : List (Time × ℕ) → (ℕ → Option (Timer api Cb)) → List Cb
  callbacks_of [] timers = []
  callbacks_of (e ∷ es) timers = cb_of (timers e.1) (callbacks_of es timers)

  -- These timers are as they were.
  abbrev pub Unchanged :
      List (Time × ℕ) → (ℕ → Option (Timer api Cb)) → (ℕ → Option (Timer api Cb)) → Type 0
  Unchanged es before after = All (λ e. after e.1 ≡ before e.1) es

  pub Unchanged-refl :
      (es : List (Time × ℕ)) (timers : ℕ → Option (Timer api Cb)) → Unchanged es timers timers
  Unchanged-refl [] timers = tt
  Unchanged-refl (e ∷ es) timers = (refl, Unchanged-refl es timers)

  callbacks_of-Unchanged :
      (es : List (Time × ℕ)) (before after : ℕ → Option (Timer api Cb))
      → Unchanged es before after
      → callbacks_of es after ≡ callbacks_of es before
  unfolding callbacks_of
  callbacks_of-Unchanged [] before after u = refl
  callbacks_of-Unchanged (e ∷ es) before after u =
      rw (u.0, callbacks_of-Unchanged es before after u.1) refl

  module _ (exec : Cb → TimerQueue api Cb → Result (TimerQueue api Cb)) where
    -- Callbacks one after the other, up to the first that stops.
    pub call_each : List Cb → TimerQueue api Cb → Result (TimerQueue api Cb)
    call_each [] q = ok q
    call_each (cb ∷ cbs) q = do q' ← exec cb q; call_each cbs q'

    -- A callback returns, keeps the invariant whatever timers are out, and touches none of these.
    abbrev pub Spares : Type 0
    Spares =
        (cb : Cb) (out : List (Time × ℕ)) (q : TimerQueue api Cb)
        → Inv out q.timer_set q.timers
        → (q' : TimerQueue api Cb) × (exec cb q ≡ ok q')
          × Inv out q'.timer_set q'.timers
          × Unchanged out q.timers q'.timers

    module _ (spares : Spares) where
      run_all-call_each :
          (es out : List (Time × ℕ)) (q : TimerQueue api Cb)
          → ((P : Time × ℕ → Type 0) → All P out → All P es)
          → Inv out q.timer_set q.timers
          → run_all exec es q ≡ call_each (callbacks_of es q.timers) q
      unfolding run_all run call_each callbacks_of
      run_all-call_each [] out q sub v = refl
      run_all-call_each (e ∷ es) out q sub v =
          let (t, live, _) = (sub (IsLive q.timers) v.out_live).0 in
          elim (Option-cases t.cb) [
            | inl idle ↦ rw (live, idle) (run_all-call_each es out q (λ P a. (sub P a).1) v)
            | inr (cb, set) ↦
                let (q₁, e₁, v₁, u) = spares cb out q v in
                let same =
                  callbacks_of-Unchanged es q.timers q₁.timers
                    (sub (λ x. q₁.timers x.1 ≡ q.timers x.1) u).1 in
                let rest = run_all-call_each es out q₁ (λ P a. (sub P a).1) v₁ in
                rw (live, set, e₁) (rest ∙ rw same refl)
          ]

      -- From a valid queue, with callbacks that return, keep the invariant and touch no timer that is out:
      -- the entries of the set are those due at `now` and then those that are later, and `handleRead`
      -- takes the former out, calls their callbacks, each once and in the order of the set, and then
      -- resets them.
      pub handle_read-call_each :
          (now later : Time) (q : TimerQueue api Cb)
          → IsValid q
          → (due rest : List (Time × ℕ)) × (q.timer_set ≡ due ++ rest)
            × All (IsDue api now) due
            × All (IsLater api now) rest
            × (handle_read exec now later q ≡ (do
              q' ← call_each (callbacks_of due q.timers) (record q { timer_set = rest })
              reset_timer_list later due q'))
      unfolding handle_read get_expired
      handle_read-call_each now later q v =
          let key : Time × ℕ = (now, uintptr_max) in
          let due = below api key q.timer_set in
          let rest = from api key q.timer_set in
          let (d, l, whole) = expiry_split api now q.timer_set v.sorted v.pointers in
          let called =
            run_all-call_each due due (record q { timer_set = rest }) (λ P a. a)
              (split-Inv key q.timer_set q.timers v) in
          (due, rest, sym whole, d, l, rw called refl)
