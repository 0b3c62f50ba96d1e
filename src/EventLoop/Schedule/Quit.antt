-- ===== src/EventLoop/Schedule/Quit.antt =====
-- The end of `loop` after `quit`, however the threads' steps interleave.
use mudo_reprint.Base.{
  ℕ, zero, suc, ◌+◌, ◌-◌, ◌≤◌, ◌<◌, ◌≡◌, refl, sym, ◌∙◌, ◌⊎◌, inl, inr, true, List, [], ◌∷◌, length,
  arith, subst,
}
use mudo_reprint.EventLoop.Wakeup.{Phase, starting, polling, handling, draining, stopped, Sys}
use mudo_reprint.EventLoop.Schedule.{
  Move, goes_on, reads, quits, queues, pushes, flags, wakes, move, run, go_on, after_drain,
}
use mudo_reprint.EventLoop.Schedule.Others.{turns, queued, Extends, IsOther, move-Extends}

zero_or_pos : (n : ℕ) → (n ≡ 0) ⊎ (0 < n)
zero_or_pos zero = inl refl
zero_or_pos (suc n) = inr (omega arith)

module _ {F : Type 0} where
  -- The steps left to the loop's thread once the flag is set.
  abbrev pub left : Phase F → Sys F → ℕ
  left starting s = 1
  left polling s = length s.pending + 3
  left handling s = length s.pending + 2
  left (draining fs) s = length fs + 1
  left stopped s = 0

  left-Extends : (n : ℕ) (p : Phase F) (s t : Sys F) → Extends n s t → left p t ≤ left p s + n
  left-Extends n starting s t x = omega arith
  left-Extends n polling s t x = omega (arith, x.at_most)
  left-Extends n handling s t x = omega (arith, x.at_most)
  left-Extends n (draining fs) s t x = omega arith
  left-Extends n stopped s t x = omega arith

  left-other :
      (m : Move F) (s : Sys F)
      → IsOther m
      → left (move m s).phase (move m s) ≤ left s.phase s + queued (m ∷ [])
  left-other m s o =
      let x = move-Extends m o s in
      subst (λ p. left p (move m s) ≤ left s.phase s + queued (m ∷ [])) (sym x.phase_same)
        (left-Extends (queued (m ∷ [])) s.phase s (move m s) x)

  left-go_on :
      (p : Phase F) (s : Sys F)
      → s.phase ≡ p
      → s.quit_flag ≡ true
      → (left (go_on p s).phase (go_on p s) ≤ left p s - 1) × ((go_on p s).quit_flag ≡ true)
  unfolding go_on after_drain
  left-go_on starting s e q = rw q (omega arith, refl)
  left-go_on polling s e q = (omega arith, q)
  left-go_on handling s e q = (omega arith, q)
  left-go_on (draining []) s e q = rw q (omega arith, refl)
  left-go_on (draining (f ∷ fs)) s e q = (omega arith, q)
  left-go_on stopped s e q = (subst (λ p. left p s ≤ 0) (sym e) (omega arith), q)

  left-zero : (p : Phase F) (s : Sys F) → left p s ≤ 0 → p ≡ stopped
  left-zero starting s h = absurd (omega (arith, h))
  left-zero polling s h = absurd (omega (arith, h))
  left-zero handling s h = absurd (omega (arith, h))
  left-zero (draining fs) s h = absurd (omega (arith, h))
  left-zero stopped s h = refl

  go_on-stopped :
      (p : Phase F) (s : Sys F) → s.phase ≡ p → p ≡ stopped → (go_on p s).phase ≡ stopped
  unfolding go_on
  go_on-stopped stopped s e d = e
  go_on-stopped starting s e d = absurd (ground (arith, d))
  go_on-stopped polling s e d = absurd (ground (arith, d))
  go_on-stopped handling s e d = absurd (ground (arith, d))
  go_on-stopped (draining fs) s e d = absurd (ground (arith, d))

  run-stopped : (ms : List (Move F)) (s : Sys F) → s.phase ≡ stopped → (run ms s).1.phase ≡ stopped
  unfolding run move
  run-stopped [] s e = e
  run-stopped (goes_on ∷ ms) s e = run-stopped ms (move goes_on s) (go_on-stopped s.phase s refl e)
  run-stopped (reads ∷ ms) s e =
      run-stopped ms (move reads s) ((move-Extends reads tt s).phase_same ∙ e)
  run-stopped (quits ∷ ms) s e =
      run-stopped ms (move quits s) ((move-Extends quits tt s).phase_same ∙ e)
  run-stopped (queues f ∷ ms) s e =
      run-stopped ms (move (queues f) s) ((move-Extends (queues f) tt s).phase_same ∙ e)
  run-stopped (pushes f ∷ ms) s e =
      run-stopped ms (move (pushes f) s) ((move-Extends (pushes f) tt s).phase_same ∙ e)
  run-stopped (flags ∷ ms) s e =
      run-stopped ms (move flags s) ((move-Extends flags tt s).phase_same ∙ e)
  run-stopped (wakes ∷ ms) s e =
      run-stopped ms (move wakes s) ((move-Extends wakes tt s).phase_same ∙ e)

  -- Let the flag be set. In every schedule in which the loop's thread takes `left` steps, and one more
  -- for each functor that it or another thread queues meanwhile, `loop` has returned at the end.
  pub quit_ends_loop :
      (ms : List (Move F)) (s : Sys F)
      → s.quit_flag ≡ true
      → left s.phase s + queued ms ≤ turns ms
      → (run ms s).1.phase ≡ stopped
  unfolding run move
  quit_ends_loop [] s q h = left-zero s.phase s (omega (arith, h))
  quit_ends_loop (goes_on ∷ ms) s q h =
      let (l, k) = left-go_on s.phase s refl q in
      elim (zero_or_pos (left s.phase s)) [
        | inl z ↦ run-stopped (goes_on ∷ ms) s (left-zero s.phase s (omega (arith, z)))
        | inr z ↦ quit_ends_loop ms (move goes_on s) k (omega (arith, l, z, h))
      ]
  quit_ends_loop (reads ∷ ms) s q h =
      quit_ends_loop ms (move reads s) ((move-Extends reads tt s).flag_kept q)
        (omega (arith, left-other reads s tt, h))
  quit_ends_loop (quits ∷ ms) s q h =
      quit_ends_loop ms (move quits s) ((move-Extends quits tt s).flag_kept q)
        (omega (arith, left-other quits s tt, h))
  quit_ends_loop (queues f ∷ ms) s q h =
      quit_ends_loop ms (move (queues f) s) ((move-Extends (queues f) tt s).flag_kept q)
        (omega (arith, left-other (queues f) s tt, h))
  quit_ends_loop (pushes f ∷ ms) s q h =
      quit_ends_loop ms (move (pushes f) s) ((move-Extends (pushes f) tt s).flag_kept q)
        (omega (arith, left-other (pushes f) s tt, h))
  quit_ends_loop (flags ∷ ms) s q h =
      quit_ends_loop ms (move flags s) ((move-Extends flags tt s).flag_kept q)
        (omega (arith, left-other flags s tt, h))
  quit_ends_loop (wakes ∷ ms) s q h =
      quit_ends_loop ms (move wakes s) ((move-Extends wakes tt s).flag_kept q)
        (omega (arith, left-other wakes s tt, h))
