-- ===== src/TimerQueue/Tests.antt =====
-- A queue of three timers with times in whole microseconds. A callback is a number, and calling it
-- does nothing to the queue.
use mudo_reprint.Base.{
  false, ℕ, ◌≡◌, refl, Option, none, some, List, [], ◌∷◌, All, if◌then◌else◌, arith, Result, ok,
  inl, ◌==◌,
}
use mudo_reprint.Base.Int.{pos}
use mudo_reprint.Timestamp.{whole_micros}
use mudo_reprint.TimerSet.{TimeSpec}
use mudo_reprint.TimerSet.Expiry.{IsLater}
use mudo_reprint.TimerQueue.{Timer, TimerQueue, add_timer, handle_read, restart_all, delete_timers}
use mudo_reprint.TimerQueue.{reset_timer_list}
use mudo_reprint.TimerSet.Expiry.{IsDue}
use mudo_reprint.Base.{◌++◌, ◌>>=◌}
use mudo_reprint.Base.Int.{ℤ}
use mudo_reprint.TimerQueue.Calls.{callbacks_of, call_each, Unchanged-refl, handle_read-call_each}
use mudo_reprint.TimerQueue.Destroy.{points_at, delete_timers-IsValid}
use mudo_reprint.TimerQueue.Invariant.{Inv}
use mudo_reprint.TimerQueue.Add.{added}
use mudo_reprint.TimerQueue.Restart.{IsValid}
use mudo_reprint.TimerQueue.HandleRead.{rearmed, handle_read-IsValid}
use mudo_reprint.TimerQueue.Remote.{Timed, add_timer_from, run_pending, add_timer_from-remote}
use mathlib.Core.Quot
use mudo_reprint.Base.{map}
use mudo_reprint.TimerSet.Abstract.{of_list}
use mudo_reprint.TimerQueue.AnyOrder.{AreFree, entry, add_all, add_all-any_order}
use mudo_reprint.TimerQueue.Outcome.{IsSettled, restart_all-IsSettled}

abbrev Queue : Type 0
Queue = TimerQueue whole_micros ℕ

-- It repeats every 5 microseconds.
abbrev repeating : Timer whole_micros ℕ
repeating = record { expiration = pos 10; cb = some 7; interval = 5 }

abbrev once : Timer whole_micros ℕ
once = record { expiration = pos 20; cb = none; interval = 0 }

abbrev live : ℕ → Option (Timer whole_micros ℕ)
live p = if p == 1 then some repeating else if p == 2 then some once else none

abbrev two : Queue
two = record { timer_set = (pos 10, 1) ∷ (pos 20, 2) ∷ []; timers = live; settings = [] }

two-IsValid : IsValid two
two-IsValid = record {
  sorted = ((refl, tt), (tt, tt));
  pointers = (omega arith, (omega arith, tt));
  live = ((repeating, refl, refl), ((once, refl, refl), tt));
  out_pointers = tt;
  out_live = tt;
  out_distinct = tt;
  apart = tt;
}

abbrev third : Timer whole_micros ℕ
third = record { expiration = pos 4; cb = some 9; interval = 0 }

abbrev idle : ℕ → Queue → Result Queue
idle cb q = ok q

handle_read-IsValid_example :
    (q' : Queue) × (settings : List TimeSpec) × (handle_read idle (pos 15) (pos 16) two ≡ ok q')
    × IsValid q'
    × (q'.settings ≡ rearmed whole_micros (pos 16) q'.timer_set settings)
handle_read-IsValid_example =
    handle_read-IsValid idle (λ cb out q v. (q, refl, v)) (pos 15) (pos 16) two two-IsValid

-- The first timer is taken out and has run.
abbrev taken_out : Queue
taken_out = record two { timer_set = (pos 20, 2) ∷ [] }

taken_out-Inv : Inv ((pos 10, 1) ∷ []) taken_out.timer_set taken_out.timers
taken_out-Inv = record {
  sorted = (tt, tt);
  pointers = (omega arith, tt);
  live = ((once, refl, refl), tt);
  out_pointers = (omega arith, tt);
  out_live = ((repeating, refl, refl), tt);
  out_distinct = (tt, tt);
  apart = (((λ e. ground arith), tt), tt);
}

abbrev put_back : Queue
put_back = record two {
  timer_set = (pos 15, 1) ∷ (pos 20, 2) ∷ [];
  timers = λ p. if p == 1 then some (record repeating { expiration = pos 15 }) else live p;
}

restart_one : restart_all ((pos 10, 1) ∷ []) taken_out ≡ ok put_back
unfolding restart_all
restart_one = refl

restart_all-IsSettled_example : IsSettled 1 repeating put_back
restart_all-IsSettled_example =
    restart_all-IsSettled (pos 10) 1 repeating ((pos 10, 1) ∷ []) taken_out put_back taken_out-Inv
      restart_one refl (inl refl)

-- Thread 9 adds the timer to the loop of thread 5.
abbrev timed : Timed whole_micros ℕ
timed = record {
  loop = record { tid = 5; quit_flag = false; pending = []; calling = false; wakeups = 0 };
  queue = two;
}

add_timer_from-remote_example :
    (s' : Timed whole_micros ℕ) × (add_timer_from 9 (pos 0) 3 (some 9) (pos 4) 0 timed ≡ ok s')
    × (s'.loop.wakeups ≡ 1)
    × (run_pending (pos 2) s'.loop.pending s'.queue ≡ ok (added (pos 2) 3 third two))
    × (add_timer (pos 2) 3 (some 9) (pos 4) 0 two ≡ ok (added (pos 2) 3 third two))
    × IsValid (added (pos 2) 3 third two)
add_timer_from-remote_example =
    add_timer_from-remote 9 (pos 0) (pos 2) 3 third timed two-IsValid refl (λ e. ground arith) refl
      (omega arith)

delete_timers-IsValid_example :
    (left : ℕ → Option (Timer whole_micros ℕ)) × (delete_timers two.timer_set two.timers ≡ ok left)
    × ((p : ℕ) → left p ≡ (if points_at p two.timer_set then none else two.timers p))
delete_timers-IsValid_example = delete_timers-IsValid two two-IsValid

handle_read-call_each_example :
    (due rest : List (ℤ × ℕ)) × (two.timer_set ≡ due ++ rest)
    × All (IsDue whole_micros (pos 15)) due
    × All (IsLater whole_micros (pos 15)) rest
    × (handle_read idle (pos 15) (pos 16) two ≡ (do
      q' ← call_each idle (callbacks_of due two.timers) (record two { timer_set = rest })
      reset_timer_list (pos 16) due q'))
handle_read-call_each_example =
    handle_read-call_each idle (λ cb out q v. (q, refl, v, Unchanged-refl out q.timers)) (pos 15)
      (pos 16) two two-IsValid

abbrev fourth : Timer whole_micros ℕ
fourth = record { expiration = pos 15; cb = some 8; interval = 0 }

abbrev one_way : List (ℕ × Timer whole_micros ℕ)
one_way = (3, third) ∷ (4, fourth) ∷ []

abbrev other_way : List (ℕ × Timer whole_micros ℕ)
other_way = (4, fourth) ∷ (3, third) ∷ []

one_way-AreFree : AreFree one_way two
one_way-AreFree = record {
  free = (refl, (refl, tt));
  pointers = (omega arith, (omega arith, tt));
  distinct = (((λ e. omega arith), tt), (tt, tt));
}

other_way-AreFree : AreFree other_way two
other_way-AreFree = record {
  free = (refl, (refl, tt));
  pointers = (omega arith, (omega arith, tt));
  distinct = (((λ e. omega arith), tt), (tt, tt));
}

same_entries : of_list whole_micros (map entry one_way) ≡ of_list whole_micros (map entry other_way)
same_entries = Quot.sound (λ e. ground arith)

add_all-any_order_example :
    (q₁ q₂ : Queue) × (add_all (pos 0) one_way two ≡ ok q₁)
    × (add_all (pos 0) other_way two ≡ ok q₂)
    × Inv [] q₁.timer_set q₁.timers
    × Inv [] q₂.timer_set q₂.timers
    × (q₁.timer_set ≡ q₂.timer_set)
add_all-any_order_example =
    add_all-any_order (pos 0) one_way other_way two two-IsValid one_way-AreFree other_way-AreFree
      same_entries
