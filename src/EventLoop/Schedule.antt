-- ===== src/EventLoop/Schedule.antt =====
-- A run of `loop` under a given schedule of its thread and the others, and the functors that it calls.
pub mod Others
pub mod Quit
pub mod Account
pub mod Calls
use mudo_reprint.Base.{
  Reach, next, ℕ, zero, suc, ◌+◌, ◌≡◌, refl, ◌⊎◌, inl, inr, Bool, true, false, List, [], ◌∷◌, ◌++◌,
  if◌then◌else◌, arith, Bool-cases,
}
use mudo_reprint.EventLoop.{Loop, queue_in_loop, push_pending, wakeup, handle_wakeup_read, quit}
use mudo_reprint.EventLoop.Wakeup.{
  Phase, starting, polling, handling, draining, stopped, Sys, with_loop, start_draining, Step,
  IsActive, enter_loop, skip_loop, poll_returns, read_wakeups, queue_here, quit_here, drain_begins,
  drain_next, drain_ends, leave_loop, push_there, quit_there, wake_there,
}

-- `goes_on` is the next step of the loop's thread along the code of `loop`: `poll` returns at the latest
-- at its time limit, and a functor that is called returns in one step. The next three moves are made by
-- code that `loop` calls; the last three by other threads. A move that cannot be made changes nothing.
pub data Move (F : Type 0) : Type 0 where
  goes_on reads quits : Move F
  queues : F → Move F
  pushes : F → Move F
  flags wakes : Move F

module _ {F : Type 0} where
  after_drain : Sys F → Sys F
  after_drain s = record s {
    loop = record s.loop { calling = false };
    phase = if s.quit_flag then stopped else polling;
  }

  go_on : Phase F → Sys F → Sys F
  unfolding after_drain
  go_on starting s = record s { phase = if s.quit_flag then stopped else polling }
  go_on polling s = record s { phase = handling }
  go_on handling s = start_draining s
  go_on (draining []) s = after_drain s
  go_on (draining (f ∷ fs)) s = record s { phase = draining fs }
  go_on stopped s = s

  -- Code runs in the loop's thread outside `poll` and before the end of `loop`.
  if_active : Phase F → Sys F → Sys F → Sys F
  if_active starting t s = t
  if_active polling t s = s
  if_active handling t s = t
  if_active (draining fs) t s = t
  if_active stopped t s = s

  read : Phase F → Sys F → Sys F
  read handling s = with_loop s (handle_wakeup_read s.loop)
  read starting s = s
  read polling s = s
  read (draining fs) s = s
  read stopped s = s

  wake : ℕ → Sys F → Sys F
  wake zero s = s
  wake (suc n) s = record s { loop = wakeup s.loop; owing = n }

  pub move : Move F → Sys F → Sys F
  unfolding go_on if_active read wake
  move goes_on s = go_on s.phase s
  move reads s = read s.phase s
  move quits s = if_active s.phase (with_loop s (quit s.tid s.loop)) s
  move (queues f) s = if_active s.phase (with_loop s (queue_in_loop s.tid f s.loop)) s
  move (pushes f) s = record s { loop = push_pending f s.loop; owing = suc s.owing }
  move flags s = record s { loop = record s.loop { quit_flag = true }; owing = suc s.owing }
  move wakes s = wake s.owing s

  called_in : Phase F → List F
  called_in (draining (f ∷ fs)) = f ∷ []
  called_in (draining []) = []
  called_in starting = []
  called_in polling = []
  called_in handling = []
  called_in stopped = []

  -- The functor that a move calls, if it calls one.
  pub called : Move F → Sys F → List F
  unfolding called_in
  called goes_on s = called_in s.phase
  called reads s = []
  called quits s = []
  called (queues f) s = []
  called (pushes f) s = []
  called flags s = []
  called wakes s = []

  -- The state after a schedule, and the functors called in it.
  pub run : List (Move F) → Sys F → List F × Sys F
  unfolding move called
  run [] s = ([], s)
  run (m ∷ ms) s = let (fs, t) = run ms (move m s) in (called m s ++ fs, t)

  go_on-Step : (s : Sys F) (p : Phase F) → s.phase ≡ p → (go_on p s ≡ s) ⊎ Step s (go_on p s)
  unfolding go_on
  go_on-Step s starting e = elim (Bool-cases s.quit_flag) [
    | inl q ↦ inr (skip_loop e q (rw q refl))
    | inr q ↦ inr (enter_loop e q (rw q refl))
  ]
  go_on-Step s polling e = inr (poll_returns e refl)
  go_on-Step s handling e = inr (drain_begins e refl)
  go_on-Step s (draining []) e = elim (Bool-cases s.quit_flag) [
    | inl q ↦ inr (leave_loop e q (rw q refl))
    | inr q ↦ inr (drain_ends e q (rw q refl))
  ]
  go_on-Step s (draining (f ∷ fs)) e = inr (drain_next f fs e refl)
  go_on-Step s stopped e = inl refl

  if_active-Step :
      (s t : Sys F) (p : Phase F)
      → (IsActive p → Step s t)
      → (if_active p t s ≡ s) ⊎ Step s (if_active p t s)
  unfolding if_active
  if_active-Step s t starting h = inr (h tt)
  if_active-Step s t polling h = inl refl
  if_active-Step s t handling h = inr (h tt)
  if_active-Step s t (draining fs) h = inr (h tt)
  if_active-Step s t stopped h = inl refl

  read-Step : (s : Sys F) (p : Phase F) → s.phase ≡ p → (read p s ≡ s) ⊎ Step s (read p s)
  unfolding read
  read-Step s starting e = inl refl
  read-Step s polling e = inl refl
  read-Step s handling e = inr (read_wakeups e refl)
  read-Step s (draining fs) e = inl refl
  read-Step s stopped e = inl refl

  wake-Step : (s : Sys F) (n : ℕ) → s.owing ≡ n → (wake n s ≡ s) ⊎ Step s (wake n s)
  unfolding wake
  wake-Step s zero e = inl refl
  wake-Step s (suc n) e = inr (wake_there n e refl)

  -- Every move is a step of the interleaved system, or changes nothing.
  pub move-Step : (m : Move F) (s : Sys F) → (move m s ≡ s) ⊎ Step s (move m s)
  unfolding move
  move-Step goes_on s = go_on-Step s s.phase refl
  move-Step reads s = read-Step s s.phase refl
  move-Step quits s = if_active-Step s _ s.phase λ a. quit_here a refl
  move-Step (queues f) s = if_active-Step s _ s.phase λ a. queue_here f a refl
  move-Step (pushes f) s = inr (push_there f refl)
  move-Step flags s = inr (quit_there refl)
  move-Step wakes s = wake-Step s s.owing refl

  pub run-Reach :
      (s₀ : Sys F) (ms : List (Move F)) (s : Sys F) → Reach Step s₀ s → Reach Step s₀ (run ms s).1
  unfolding run
  run-Reach s₀ [] s r = r
  run-Reach s₀ (m ∷ ms) s r = elim (move-Step m s) [
    | inl e ↦ run-Reach s₀ ms (move m s) (rw e r)
    | inr t ↦ run-Reach s₀ ms (move m s) (next r t)
  ]
