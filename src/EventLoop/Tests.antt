-- ===== src/EventLoop/Tests.antt =====
-- The queue of functors at small inputs. A functor is a number, and calling n + 1 queues n.
use mudo_reprint.EventLoop.Iteration.{HasReactor, IsReady, iteration, iteration-IsReady}
use mudo_reprint.Epoller.Examples.{one_added, one_added-Inv, one_added_entry, one_added_fits}
use mudo_reprint.EventLoop.Schedule.{Move, goes_on, pushes, flags, wakes, run}
use mudo_reprint.EventLoop.Schedule.Account.{to_come}
use mudo_reprint.EventLoop.Schedule.Calls.{pending_are_called}
use mudo_reprint.EventLoop.Schedule.Quit.{quit_ends_loop}
use mudo_reprint.Epoller.{Reactor, events}
use mudo_reprint.Channel.Safety.{AllKeep, Keeps}
use mudo_reprint.Channel.{Handlers, epollin}
use mudo_reprint.Base.{
  Reach, here, next, ℕ, zero, suc, ◌≡◌, refl, inl, List, [], ◌∷◌, ◌++◌, ok, false, true, arith,
  none,
}
use mudo_reprint.EventLoop.{Loop, do_pending_functor, push_pending, wakeup}
use mudo_reprint.EventLoop.Drain.{exec, do_pending_functor-queued}
use mudo_reprint.EventLoop.Wakeup.{
  Sys, Step, push_there, wake_there, entered, stopped, polling-IsWoken, IsWoken,
}

abbrev count_down : ℕ → List ℕ
count_down zero = []
count_down (suc n) = n ∷ []

abbrev busy : Loop ℕ
busy = record { tid = 5; quit_flag = false; pending = 0 ∷ 2 ∷ 1 ∷ []; calling = false; wakeups = 0 }

do_pending_functor-queued_example :
    do_pending_functor (exec count_down) busy
    ≡ ok (record busy { pending = 1 ∷ 0 ∷ []; wakeups = 2 })
do_pending_functor-queued_example = do_pending_functor-queued count_down busy

-- Another thread queues functor 9.
abbrev pushed : Sys ℕ
pushed = record (entered 5) { loop = record (entered 5).loop { pending = 9 ∷ [] }; owing = 1 }

abbrev woken : Sys ℕ
woken = record pushed { loop = record pushed.loop { wakeups = 1 }; owing = 0 }

woken-Reach : Reach Step (entered 5) woken
unfolding push_pending wakeup
woken-Reach = next (next here (push_there 9 refl)) (wake_there 0 refl refl)

polling-IsWoken_example : IsWoken woken
polling-IsWoken_example = polling-IsWoken 5 woken woken-Reach refl (inl (λ e. ground arith))

-- A round on the example of the reactor, with no callbacks set and no functors.
abbrev whole : HasReactor Reactor
whole = record { get = λ r. r; set = λ r s. r; get-set = λ r s. refl }

abbrev silent : Handlers ℕ Reactor
silent = record { read = none; write = none; close = none; error = none }

silent-AllKeep : (P : Reactor → Type 0) → AllKeep P silent
silent-AllKeep P = record {
  read = λ f e. absurd (ground arith);
  write = λ f e. absurd (ground arith);
  close = λ f e. absurd (ground arith);
  no_error = refl;
}

iteration-IsReady_example :
    Keeps
      (IsReady whole (λ p. silent) ok (3 ∷ []))
      (iteration whole (λ p. silent) ok (events ((3, epollin) ∷ [])) 9 one_added)
iteration-IsReady_example =
    iteration-IsReady whole (λ p. silent) ok ((3, epollin) ∷ []) 9 one_added one_added-Inv
      ((7, epollin, one_added_entry), tt) one_added_fits (omega (arith, one_added_fits))
      (λ p. silent-AllKeep (IsReady whole (λ p. silent) ok (3 ∷ []))) (λ t v. (t, refl, v))

-- Two functors are pending; while they are called, another thread queues 4 and sets the flag.
abbrev two_pending : Sys ℕ
two_pending = record (entered 5) { loop = record (entered 5).loop { pending = 9 ∷ 8 ∷ [] } }

abbrev interleaving : List (Move ℕ)
interleaving =
    goes_on ∷ goes_on ∷ pushes 4 ∷ goes_on ∷ wakes ∷ flags ∷ goes_on ∷ goes_on ∷ goes_on ∷ []

pending_are_called_example :
    ((rest : List ℕ) × (run interleaving two_pending).0 ≡ 9 ∷ 8 ∷ rest)
    × ((run interleaving two_pending).0 ++ to_come (run interleaving two_pending).1
        ≡ 9 ∷ 8 ∷ 4 ∷ [])
pending_are_called_example = pending_are_called interleaving two_pending refl (omega arith)

abbrev two_pending_flagged : Sys ℕ
two_pending_flagged = record two_pending { loop = record two_pending.loop { quit_flag = true } }

quit_ends_loop_example : (run interleaving two_pending_flagged).1.phase ≡ stopped
quit_ends_loop_example = quit_ends_loop interleaving two_pending_flagged refl (omega arith)
