-- ===== src/EventLoop/Schedule/Account.antt =====
-- The account of the functors in a run of `loop`: those called and those still to come are those that
-- were to come at its start and those that were queued in it.
use mudo_reprint.Base.{ℕ, ◌≡◌, refl, sym, ◌∙◌, ap, inl, inr, List, [], ◌∷◌, ◌++◌, arith, Bool-cases}
use mathlib.Core.List.{append_assoc, append-nil}
use mudo_reprint.EventLoop.{queue_in_loop, push_pending, wakeup, handle_wakeup_read, quit}
use mudo_reprint.EventLoop.Wakeup.{
  Phase, starting, polling, handling, draining, stopped, Sys, with_loop,
}
use mudo_reprint.EventLoop.Schedule.{
  Move, goes_on, reads, quits, queues, pushes, flags, wakes, move, called, run, go_on, called_in,
  if_active, read, wake, after_drain,
}
use mudo_reprint.EventLoop.Schedule.Others.{queue_in_loop-pending}

module _ {F : Type 0} where
  -- In a phase, the functors that are still to be called: the rest of those that are called now, and
  -- those that are pending.
  abbrev to_come_in : Phase F → List F → List F
  to_come_in starting pending = pending
  to_come_in polling pending = pending
  to_come_in handling pending = pending
  to_come_in (draining fs) pending = fs ++ pending
  to_come_in stopped pending = pending

  abbrev pub to_come : Sys F → List F
  to_come s = to_come_in s.phase s.pending

  -- The functor that code in the loop's thread queues, where such code runs.
  abbrev queued_in : Phase F → F → List F
  queued_in starting f = f ∷ []
  queued_in polling f = []
  queued_in handling f = f ∷ []
  queued_in (draining fs) f = f ∷ []
  queued_in stopped f = []

  abbrev newly : Move F → Sys F → List F
  newly goes_on s = []
  newly reads s = []
  newly quits s = []
  newly (queues f) s = queued_in s.phase f
  newly (pushes f) s = f ∷ []
  newly flags s = []
  newly wakes s = []

  -- The functors queued in a schedule, in their order.
  abbrev pub all_queued : List (Move F) → Sys F → List F
  all_queued [] s = []
  all_queued (m ∷ ms) s = newly m s ++ all_queued ms (move m s)

  go_on-to_come :
      (p : Phase F) (s : Sys F)
      → s.phase ≡ p
      → called_in p ++ to_come (go_on p s) ≡ to_come_in p s.pending
  unfolding go_on called_in after_drain
  go_on-to_come starting s e = elim (Bool-cases s.quit_flag) [
    | inl q ↦ rw q refl
    | inr q ↦ rw q refl
  ]
  go_on-to_come polling s e = refl
  go_on-to_come handling s e = append-nil s.pending
  go_on-to_come (draining []) s e = elim (Bool-cases s.quit_flag) [
    | inl q ↦ rw q refl
    | inr q ↦ rw q refl
  ]
  go_on-to_come (draining (f ∷ fs)) s e = refl
  go_on-to_come stopped s e = rw e refl

  -- More is pending at the end, in the same phase.
  to_come_in-append :
      (p : Phase F) (ps fs : List F) → to_come_in p (ps ++ fs) ≡ to_come_in p ps ++ fs
  to_come_in-append starting ps fs = refl
  to_come_in-append polling ps fs = refl
  to_come_in-append handling ps fs = refl
  to_come_in-append (draining gs) ps fs = sym (append_assoc gs ps fs)
  to_come_in-append stopped ps fs = refl

  quit-to_come :
      (p : Phase F) (s : Sys F)
      → to_come (if_active p (with_loop s (quit s.tid s.loop)) s) ≡ to_come s
  unfolding if_active quit wakeup
  quit-to_come p s = ground arith

  read-to_come : (p : Phase F) (s : Sys F) → to_come (read p s) ≡ to_come s
  unfolding read handle_wakeup_read
  read-to_come p s = ground arith

  wake-to_come : (n : ℕ) (s : Sys F) → to_come (wake n s) ≡ to_come s
  unfolding wake wakeup
  wake-to_come n s = ground arith

  queued-to_come :
      (f : F) (s : Sys F)
      → to_come (with_loop s (queue_in_loop s.tid f s.loop)) ≡ to_come s ++ f ∷ []
  queued-to_come f s =
      ap (to_come_in s.phase) (queue_in_loop-pending s.tid f s.loop)
      ∙ to_come_in-append s.phase s.pending (f ∷ [])

  queue-to_come :
      (f : F) (p : Phase F) (s : Sys F)
      → to_come (if_active p (with_loop s (queue_in_loop s.tid f s.loop)) s)
        ≡ to_come s ++ queued_in p f
  unfolding if_active
  queue-to_come f starting s = queued-to_come f s
  queue-to_come f polling s = sym (append-nil (to_come s))
  queue-to_come f handling s = queued-to_come f s
  queue-to_come f (draining fs) s = queued-to_come f s
  queue-to_come f stopped s = sym (append-nil (to_come s))

  move-to_come :
      (m : Move F) (s : Sys F) → called m s ++ to_come (move m s) ≡ to_come s ++ newly m s
  unfolding move called push_pending
  move-to_come goes_on s = go_on-to_come s.phase s refl ∙ sym (append-nil (to_come s))
  move-to_come reads s = read-to_come s.phase s ∙ sym (append-nil (to_come s))
  move-to_come quits s = quit-to_come s.phase s ∙ sym (append-nil (to_come s))
  move-to_come (queues f) s = queue-to_come f s.phase s
  move-to_come (pushes f) s = to_come_in-append s.phase s.pending (f ∷ [])
  move-to_come flags s = sym (append-nil (to_come s))
  move-to_come wakes s = wake-to_come s.owing s ∙ sym (append-nil (to_come s))

  -- Nothing is lost, called twice or called out of its order.
  pub run-to_come :
      (ms : List (Move F)) (s : Sys F)
      → (run ms s).0 ++ to_come (run ms s).1 ≡ to_come s ++ all_queued ms s
  unfolding run
  run-to_come [] s = sym (append-nil (to_come s))
  run-to_come (m ∷ ms) s =
      append_assoc (called m s) (run ms (move m s)).0 (to_come (run ms (move m s)).1)
      ∙ ap (λ x. called m s ++ x) (run-to_come ms (move m s))
      ∙ sym (append_assoc (called m s) (to_come (move m s)) (all_queued ms (move m s)))
      ∙ ap (λ x. x ++ all_queued ms (move m s)) (move-to_come m s)
      ∙ append_assoc (to_come s) (newly m s) (all_queued ms (move m s))
