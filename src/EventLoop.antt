-- ===== src/EventLoop.antt =====
-- EventLoop.h and EventLoop.cpp: the queue of pending functors, the wake-up descriptor and `quit`.
-- (`updateChannel` and `removeChannel` are in Epoller, the timer members in TimerQueue.)
--
-- A functor is a value of a type `F`, and what calling it does is a function argument. The calling
-- thread is the argument `here`. `wakeups` is the counter of the eventfd: the writes of 1 since the
-- last read.
pub mod Iteration
pub mod Drain
pub mod Wakeup
pub mod Schedule
mod Tests
use mudo_reprint.Base.{
  ℕ, ◌+◌, Bool, true, false, not, ◌||◌, List, [], ◌∷◌, ◌++◌, ◌==◌, if◌then◌else◌, Result, ok, err,
  fatal, ◌>>=◌, ◌>>◌, check,
}

pub record Loop (F : Type 0) : Type 0 where
  pub tid : ℕ
  pub quit_flag : Bool
  pub pending : List F
  pub calling : Bool
  pub wakeups : ℕ

module _ {F : Type 0} where
  pub new_loop : ℕ → Loop F
  new_loop here = record {
    tid = here;
    quit_flag = false;
    pending = [];
    calling = false;
    wakeups = 0;
  }

  abbrev pub is_in_loop_thread : ℕ → Loop F → Bool
  is_in_loop_thread here l = l.tid == here

  -- `abortNotInLoopThread` logs at the level that aborts.
  pub assert_in_loop_thread : ℕ → Loop F → Result (Unit {0})
  assert_in_loop_thread here l = check (is_in_loop_thread here l) fatal

  unfoldable pub wakeup : Loop F → Loop F
  wakeup l = record l { wakeups = l.wakeups + 1 }

  -- Reading an eventfd sets its counter to 0.
  unfoldable pub handle_wakeup_read : Loop F → Loop F
  handle_wakeup_read l = record l { wakeups = 0 }

  -- The block under the lock.
  unfoldable pub push_pending : F → Loop F → Loop F
  push_pending f l = record l { pending = l.pending ++ f ∷ [] }

  unfoldable pub queue_in_loop : ℕ → F → Loop F → Loop F
  unfolding push_pending wakeup
  queue_in_loop here f l =
      let l' = push_pending f l in
      if not (is_in_loop_thread here l') || l'.calling then wakeup l' else l'

  unfoldable pub quit : ℕ → Loop F → Loop F
  unfolding wakeup
  quit here l =
      let l' = record l { quit_flag = true } in
      if not (is_in_loop_thread here l') then wakeup l' else l'

  module _ (exec : F → Loop F → Result (Loop F)) where
    unfoldable pub run_in_loop : ℕ → F → Loop F → Result (Loop F)
    unfolding queue_in_loop
    run_in_loop here f l =
        if is_in_loop_thread here l then exec f l else ok (queue_in_loop here f l)

    pub call_all : List F → Loop F → Result (Loop F)
    call_all [] l = ok l
    call_all (f ∷ fs) l = do l' ← exec f l; call_all fs l'

    unfoldable pub do_pending_functor : Loop F → Result (Loop F)
    unfolding call_all
    do_pending_functor l = do
      l' ← call_all l.pending (record l { pending = []; calling = true })
      ok (record l' { calling = false })
