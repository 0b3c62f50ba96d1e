-- ===== src/EventLoop/Schedule/Others.antt =====
-- The moves that are no step of the loop's thread along `loop`: what they leave as it was, or add to.
use mudo_reprint.Base.{
  ℕ, zero, suc, ◌+◌, ◌≤◌, ◌≡◌, refl, sym, ◌∙◌, true, List, [], ◌∷◌, ◌++◌, length, length-append,
  arith,
}
use mathlib.Core.List.{append_assoc, append-nil}
use mudo_reprint.EventLoop.{Loop, queue_in_loop, push_pending, wakeup, handle_wakeup_read, quit}
use mudo_reprint.EventLoop.Wakeup.{
  Phase, starting, polling, handling, draining, stopped, Sys, with_loop,
}
use mudo_reprint.EventLoop.Schedule.{
  Move, goes_on, reads, quits, queues, pushes, flags, wakes, move, if_active, read, wake,
}

module _ {F : Type 0} where
  -- The steps that the loop's thread takes in a schedule.
  abbrev pub turns : List (Move F) → ℕ
  turns [] = 0
  turns (goes_on ∷ ms) = suc (turns ms)
  turns (reads ∷ ms) = turns ms
  turns (quits ∷ ms) = turns ms
  turns (queues f ∷ ms) = turns ms
  turns (pushes f ∷ ms) = turns ms
  turns (flags ∷ ms) = turns ms
  turns (wakes ∷ ms) = turns ms

  -- The functors that are queued in a schedule.
  abbrev pub queued : List (Move F) → ℕ
  queued [] = 0
  queued (goes_on ∷ ms) = queued ms
  queued (reads ∷ ms) = queued ms
  queued (quits ∷ ms) = queued ms
  queued (queues f ∷ ms) = suc (queued ms)
  queued (pushes f ∷ ms) = suc (queued ms)
  queued (flags ∷ ms) = queued ms
  queued (wakes ∷ ms) = queued ms

  abbrev pub HasPrefix : List F → List F → Type 0
  HasPrefix fs gs = (rest : List F) × gs ≡ fs ++ rest

  pub HasPrefix-append : (fs gs hs : List F) → HasPrefix fs gs → HasPrefix fs (gs ++ hs)
  HasPrefix-append fs gs hs (rest, e) = (rest ++ hs, rw e (append_assoc fs rest hs))

  -- What a move that is no turn of the loop's thread leaves as it was, or adds to.
  pub record Extends (n : ℕ) (s t : Sys F) : Type 0 where
    pub phase_same : t.phase ≡ s.phase
    pub kept : HasPrefix s.pending t.pending
    pub at_most : length t.pending ≤ length s.pending + n
    pub flag_kept : s.quit_flag ≡ true → t.quit_flag ≡ true

  Extends-same :
      (n : ℕ) (s t : Sys F)
      → t.phase ≡ s.phase
      → t.pending ≡ s.pending
      → (s.quit_flag ≡ true → t.quit_flag ≡ true)
      → Extends n s t
  Extends-same n s t p e q = record {
    phase_same = p;
    kept = ([], e ∙ sym (append-nil s.pending));
    at_most = rw e (omega arith);
    flag_kept = q;
  }

  Extends-refl : (n : ℕ) (s : Sys F) → Extends n s s
  Extends-refl n s = Extends-same n s s refl refl λ q. q

  pub queue_in_loop-pending :
      (here : ℕ) (f : F) (l : Loop F) → (queue_in_loop here f l).pending ≡ l.pending ++ f ∷ []
  unfolding queue_in_loop push_pending wakeup
  queue_in_loop-pending here f l = ground arith

  queue_in_loop-flag :
      (here : ℕ) (f : F) (l : Loop F) → (queue_in_loop here f l).quit_flag ≡ l.quit_flag
  unfolding queue_in_loop push_pending wakeup
  queue_in_loop-flag here f l = ground arith

  queue_in_loop-Extends :
      (f : F) (s : Sys F) → Extends 1 s (with_loop s (queue_in_loop s.tid f s.loop))
  queue_in_loop-Extends f s = record {
    phase_same = refl;
    kept = (f ∷ [], queue_in_loop-pending s.tid f s.loop);
    at_most =
        rw (queue_in_loop-pending s.tid f s.loop, length-append s.pending (f ∷ [])) (omega arith);
    flag_kept = λ q. rw (queue_in_loop-flag s.tid f s.loop) q;
  }

  quit-Extends : (s : Sys F) → Extends 0 s (with_loop s (quit s.tid s.loop))
  unfolding quit wakeup
  quit-Extends s = Extends-same 0 s _ refl (ground arith) λ q. ground arith

  if_active-Extends :
      (n : ℕ) (s t : Sys F) (p : Phase F) → Extends n s t → Extends n s (if_active p t s)
  unfolding if_active
  if_active-Extends n s t starting x = x
  if_active-Extends n s t polling x = Extends-refl n s
  if_active-Extends n s t handling x = x
  if_active-Extends n s t (draining fs) x = x
  if_active-Extends n s t stopped x = Extends-refl n s

  read-Extends : (s : Sys F) (p : Phase F) → Extends 0 s (read p s)
  unfolding read handle_wakeup_read
  read-Extends s starting = Extends-refl 0 s
  read-Extends s polling = Extends-refl 0 s
  read-Extends s handling = Extends-same 0 s _ refl refl λ q. q
  read-Extends s (draining fs) = Extends-refl 0 s
  read-Extends s stopped = Extends-refl 0 s

  wake-Extends : (s : Sys F) (n : ℕ) → Extends 0 s (wake n s)
  unfolding wake wakeup
  wake-Extends s zero = Extends-refl 0 s
  wake-Extends s (suc n) = Extends-same 0 s _ refl refl λ q. q

  -- The moves other than `goes_on`.
  abbrev pub IsOther : Move F → Type 0
  IsOther goes_on = ⊥
  IsOther reads = Unit
  IsOther quits = Unit
  IsOther (queues f) = Unit
  IsOther (pushes f) = Unit
  IsOther flags = Unit
  IsOther wakes = Unit

  pub move-Extends : (m : Move F) → IsOther m → (s : Sys F) → Extends (queued (m ∷ [])) s (move m s)
  unfolding move push_pending
  move-Extends goes_on h s = absurd h
  move-Extends reads h s = read-Extends s s.phase
  move-Extends quits h s = if_active-Extends 0 s _ s.phase (quit-Extends s)
  move-Extends (queues f) h s = if_active-Extends 1 s _ s.phase (queue_in_loop-Extends f s)
  move-Extends (pushes f) h s = record {
    phase_same = refl;
    kept = (f ∷ [], refl);
    at_most = rw (length-append s.pending (f ∷ [])) (omega arith);
    flag_kept = λ q. q;
  }
  move-Extends flags h s = Extends-same 0 s _ refl refl λ q. refl
  move-Extends wakes h s = wake-Extends s s.owing
