-- ===== src/EventLoop/Schedule/Calls.antt =====
-- The functors that `loop` calls in a run: those pending come first, in their order.
use mudo_reprint.Base.{
  ℕ, suc, ◌+◌, ◌≤◌, ◌≡◌, refl, sym, ◌∙◌, ◌⊎◌, inl, inr, List, [], ◌∷◌, ◌++◌, length, arith, subst,
}
use mathlib.Core.List.{append_assoc, append-nil}
use mudo_reprint.EventLoop.Wakeup.{Phase, starting, polling, handling, draining, stopped, Sys}
use mudo_reprint.EventLoop.Schedule.{
  Move, goes_on, reads, quits, queues, pushes, flags, wakes, move, called, run, go_on, called_in,
}
use mudo_reprint.EventLoop.Schedule.Others.{
  turns, queued, HasPrefix, Extends, IsOther, move-Extends,
}
use mudo_reprint.EventLoop.Schedule.Account.{to_come, all_queued, run-to_come}

module _ {F : Type 0} where
  -- The functors `fs` are the next that the loop calls, and all are called within `n` of its steps.
  abbrev IsNext : List F → ℕ → Phase F → Sys F → Type 0
  IsNext fs n starting s = ⊥
  IsNext fs n polling s = HasPrefix fs s.pending × (length fs + 2 ≤ n)
  IsNext fs n handling s = HasPrefix fs s.pending × (length fs + 1 ≤ n)
  IsNext fs n (draining gs) s = HasPrefix fs gs × (length fs ≤ n)
  IsNext fs n stopped s = ⊥

  HasPrefix-trans : (fs gs hs : List F) → HasPrefix fs gs → HasPrefix gs hs → HasPrefix fs hs
  HasPrefix-trans fs gs hs (a, e) (b, d) = (a ++ b, d ∙ rw e (append_assoc fs a b))

  IsNext-Extends :
      (fs : List F) (n k : ℕ) (p : Phase F) (s t : Sys F)
      → Extends k s t
      → IsNext fs n p s
      → IsNext fs n p t
  IsNext-Extends fs n k starting s t x v = v
  IsNext-Extends fs n k polling s t x (h, l) = (HasPrefix-trans fs s.pending t.pending h x.kept, l)
  IsNext-Extends fs n k handling s t x (h, l) = (HasPrefix-trans fs s.pending t.pending h x.kept, l)
  IsNext-Extends fs n k (draining gs) s t x v = v
  IsNext-Extends fs n k stopped s t x v = v

  -- After a turn of the loop's thread, the functors still to come, and the one called is what was next.
  abbrev After : List F → ℕ → List F → Sys F → Type 0
  After fs n cs t = (fs ≡ []) ⊎ ((gs : List F) × (fs ≡ cs ++ gs) × IsNext gs n t.phase t)

  go_on-After :
      (fs : List F) (n : ℕ) (p : Phase F) (s : Sys F)
      → IsNext fs (suc n) p s
      → After fs n (called_in p) (go_on p s)
  unfolding go_on called_in
  go_on-After fs n starting s v = absurd v
  go_on-After fs n polling s (h, l) = inr (fs, refl, (h, omega arith))
  go_on-After fs n handling s (h, l) = inr (fs, refl, (h, omega arith))
  go_on-After [] n (draining gs) s v = inl refl
  go_on-After (f ∷ fs) n (draining []) s ((rest, e), l) = absurd (ground (arith, e))
  go_on-After (f ∷ fs) n (draining (g ∷ gs)) s ((rest, e), l) =
      inr (fs, ground (arith, e), ((rest, ground (arith, e)), omega arith))
  go_on-After fs n stopped s v = absurd v

  other-IsNext :
      (fs : List F) (n : ℕ) (m : Move F) (s : Sys F)
      → IsOther m
      → IsNext fs n s.phase s
      → IsNext fs n (move m s).phase (move m s)
  other-IsNext fs n m s o v =
      let x = move-Extends m o s in
      subst (λ p. IsNext fs n p (move m s)) (sym x.phase_same)
        (IsNext-Extends fs n (queued (m ∷ [])) s.phase s (move m s) x v)

  IsNext-zero : (fs : List F) (p : Phase F) (s : Sys F) → IsNext fs 0 p s → fs ≡ []
  IsNext-zero [] p s v = refl
  IsNext-zero (f ∷ fs) starting s v = absurd v
  IsNext-zero (f ∷ fs) polling s v = absurd (omega (arith, v.1))
  IsNext-zero (f ∷ fs) handling s v = absurd (omega (arith, v.1))
  IsNext-zero (f ∷ fs) (draining gs) s v = absurd (omega (arith, v.1))
  IsNext-zero (f ∷ fs) stopped s v = absurd v

  run-IsNext :
      (ms : List (Move F)) (fs : List F) (s : Sys F)
      → IsNext fs (turns ms) s.phase s
      → HasPrefix fs ((run ms s).0)
  unfolding run called move
  run-IsNext [] fs s v = ((run [] s).0, rw (IsNext-zero fs s.phase s v) refl)
  run-IsNext (goes_on ∷ ms) fs s v = elim (go_on-After fs (turns ms) s.phase s v) [
    | inl e ↦ ((run (goes_on ∷ ms) s).0, rw e refl)
    | inr (gs, e, w) ↦
        let (rest, d) = run-IsNext ms gs (move goes_on s) w in
        (rest, rw (e, d) (sym (append_assoc (called_in s.phase) gs rest)))
  ]
  run-IsNext (reads ∷ ms) fs s v = run-IsNext ms fs (move reads s) (other-IsNext fs _ reads s tt v)
  run-IsNext (quits ∷ ms) fs s v = run-IsNext ms fs (move quits s) (other-IsNext fs _ quits s tt v)
  run-IsNext (queues f ∷ ms) fs s v =
      run-IsNext ms fs (move (queues f) s) (other-IsNext fs _ (queues f) s tt v)
  run-IsNext (pushes f ∷ ms) fs s v =
      run-IsNext ms fs (move (pushes f) s) (other-IsNext fs _ (pushes f) s tt v)
  run-IsNext (flags ∷ ms) fs s v = run-IsNext ms fs (move flags s) (other-IsNext fs _ flags s tt v)
  run-IsNext (wakes ∷ ms) fs s v = run-IsNext ms fs (move wakes s) (other-IsNext fs _ wakes s tt v)

  -- While the loop waits in `poll`, let `fs` be pending. In every schedule in which its thread takes at
  -- least two steps more than there are pending functors, whatever it and the other threads queue or
  -- flag in between, the functors that are called are first those of `fs`, in this order; and those
  -- that are called, followed by those that are still to come at the end, are just `fs` followed by the
  -- functors that were queued in the schedule, so that each is called once.
  pub pending_are_called :
      (ms : List (Move F)) (s : Sys F)
      → s.phase ≡ polling
      → length s.pending + 2 ≤ turns ms
      → ((rest : List F) × (run ms s).0 ≡ s.pending ++ rest)
        × ((run ms s).0 ++ to_come (run ms s).1 ≡ s.pending ++ all_queued ms s)
  pending_are_called ms s e h = (
    run-IsNext ms s.pending s (rw e (([], sym (append-nil s.pending)), h)),
    run-to_come ms s ∙ rw e refl,
  )
