-- ===== src/EventLoop/Wakeup.antt =====
-- `loop` in its thread, interleaved with the other threads: no functor and no `quit` is left behind
-- while the loop waits in `poll` with nothing to wake it.
use mudo_reprint.Base.{
  Reach, here, next, Reach-keeps, ℕ, suc, ◌+◌, ◌<◌, ◌≡◌, refl, ◌≢◌, ◌⊎◌, true, false, List, [], ◌∷◌,
  ◌++◌, arith,
}
use mathlib.Core.List.{append_assoc, append-nil}
use mudo_reprint.EventLoop.{Loop, queue_in_loop, push_pending, wakeup, handle_wakeup_read, quit}

-- Where the loop's thread is: before `loop()`, in `m_epoller->poll`, between that and the swap in
-- `doPendingFunctor`, with the functors of the swapped vector still to call, or after `loop()`.
pub data Phase (F : Type 0) : Type 0 where
  starting polling handling stopped : Phase F
  draining : List F → Phase F

-- `owing` counts the other threads that have pushed a functor or set the flag, and have yet to write
-- to the eventfd: the lock covers the push alone.
pub record Sys (F : Type 0) : Type 0 where
  pub loop : Loop F
  pub open loop use *
  pub phase : Phase F
  pub owing : ℕ

module _ {F : Type 0} where
  abbrev pub with_loop : Sys F → Loop F → Sys F
  with_loop s l = record s { loop = l }

  -- Code that runs in the loop's thread: callbacks, functors, and what precedes `loop()`.
  abbrev pub IsActive : Phase F → Type 0
  IsActive starting = Unit
  IsActive polling = ⊥
  IsActive handling = Unit
  IsActive stopped = ⊥
  IsActive (draining fs) = Unit

  abbrev pub start_draining : Sys F → Sys F
  start_draining s = record s {
    loop = record s.loop { pending = []; calling = true };
    phase = draining s.pending;
  }

  pub data Step (s : Sys F) (t : Sys F) : Type 0 where
    enter_loop :
        s.phase ≡ starting → s.quit_flag ≡ false → t ≡ record s { phase = polling } → Step s t
    skip_loop :
        s.phase ≡ starting → s.quit_flag ≡ true → t ≡ record s { phase = stopped } → Step s t
    poll_returns : s.phase ≡ polling → t ≡ record s { phase = handling } → Step s t
    read_wakeups : s.phase ≡ handling → t ≡ with_loop s (handle_wakeup_read s.loop) → Step s t
    queue_here :
        (f : F) → IsActive s.phase → t ≡ with_loop s (queue_in_loop s.tid f s.loop) → Step s t
    quit_here : IsActive s.phase → t ≡ with_loop s (quit s.tid s.loop) → Step s t
    drain_begins : s.phase ≡ handling → t ≡ start_draining s → Step s t
    drain_next :
        (f : F) (fs : List F)
        → s.phase ≡ draining (f ∷ fs)
        → t ≡ record s { phase = draining fs }
        → Step s t
    drain_ends :
        s.phase ≡ draining []
        → s.quit_flag ≡ false
        → t ≡ record s { loop = record s.loop { calling = false }; phase = polling }
        → Step s t
    leave_loop :
        s.phase ≡ draining []
        → s.quit_flag ≡ true
        → t ≡ record s { loop = record s.loop { calling = false }; phase = stopped }
        → Step s t
    -- The two halves of `queueInLoop` and of `quit` in another thread.
    push_there :
        (f : F) → t ≡ record s { loop = push_pending f s.loop; owing = suc s.owing } → Step s t
    quit_there :
        t ≡ record s { loop = record s.loop { quit_flag = true }; owing = suc s.owing } → Step s t
    wake_there :
        (n : ℕ) → s.owing ≡ suc n → t ≡ record s { loop = wakeup s.loop; owing = n } → Step s t

  -- Something is there for the loop to do, and the eventfd is readable or about to be.
  abbrev pub IsDue : Sys F → Type 0
  IsDue s = (s.pending ≢ []) ⊎ (s.quit_flag ≡ true)

  abbrev pub IsWoken : Sys F → Type 0
  IsWoken s = 0 < s.wakeups + s.owing

  -- In `poll` either nothing is due or the loop is woken; while functors are called, the flag is set
  -- and whatever was queued since will wake the next `poll`.
  abbrev IsGood : Phase F → Sys F → Type 0
  IsGood starting s = ⊥
  IsGood polling s = ((s.pending ≡ []) × (s.quit_flag ≡ false)) ⊎ IsWoken s
  IsGood handling s = Unit
  IsGood stopped s = Unit
  IsGood (draining fs) s = (s.calling ≡ true) × ((s.pending ≡ []) ⊎ IsWoken s)

  pub Inv : Sys F → Type 0
  Inv s = IsGood s.phase s

  Step-Inv : (s t : Sys F) → Step s t → Inv s → Inv t
  unfolding Inv queue_in_loop quit push_pending wakeup handle_wakeup_read
  Step-Inv s t (enter_loop p q e) v = ground (arith, v)
  Step-Inv s t (skip_loop p q e) v = ground (arith, v)
  Step-Inv s t (poll_returns p e) v = ground (arith, v)
  Step-Inv s t (read_wakeups p e) v = ground (arith, v)
  Step-Inv s t (queue_here f p e) v = ground (arith, v)
  Step-Inv s t (quit_here p e) v = ground (arith, v)
  Step-Inv s t (drain_begins p e) v = ground (arith, v)
  Step-Inv s t (drain_next f fs p e) v = ground (arith, v)
  Step-Inv s t (drain_ends p q e) v = ground (arith, v)
  Step-Inv s t (leave_loop p q e) v = ground (arith, v)
  Step-Inv s t (push_there f e) v = ground (arith, v)
  Step-Inv s t (quit_there e) v = ground (arith, v)
  Step-Inv s t (wake_there n p e) v = ground (arith, v)

  -- The loop as it enters `loop()`, with nothing queued before.
  abbrev pub entered : ℕ → Sys F
  entered tid = record {
    loop = record { tid = tid; quit_flag = false; pending = []; calling = false; wakeups = 0 };
    phase = polling;
    owing = 0;
  }

  -- Of a loop that entered `loop()` with nothing queued, however its thread and the others
  -- interleave: whenever it waits in `poll` and a functor is pending or `quit` was called, the
  -- eventfd is readable, or a thread that is about to write to it is between its two steps.
  pub polling-IsWoken :
      (tid : ℕ) (t : Sys F) → Reach Step (entered tid) t → t.phase ≡ polling → IsDue t → IsWoken t
  unfolding Inv
  polling-IsWoken tid t r p d =
      let v : Inv t = Reach-keeps Inv Step-Inv r (ground arith) in ground (arith, v)

  abbrev pub fresh : ℕ → Sys F
  fresh tid = record (entered tid) { phase = starting }

  abbrev pub queued_early : ℕ → List F → Sys F
  queued_early tid fs = record (fresh tid) { loop = record (fresh tid).loop { pending = fs } }

  queue_early :
      (tid : ℕ) (gs fs : List F)
      → Reach Step (fresh tid) (queued_early tid gs)
      → Reach Step (fresh tid) (queued_early tid (gs ++ fs))
  unfolding queue_in_loop push_pending wakeup
  queue_early tid gs [] r = rw append-nil r
  queue_early tid gs (f ∷ fs) r =
      rw (← append_assoc gs (f ∷ []) fs)
        (queue_early tid (gs ++ f ∷ []) fs (next r (queue_here f tt (ground arith))))

  -- Whatever functors the loop's own thread queues before it calls `loop()`, it can come to wait in `poll` with all of them pending, nothing in the eventfd and no
  -- thread about to write to it: they wait for an event or for the time limit of the poll.
  pub early_functors_sleep :
      (tid : ℕ) (fs : List F)
      → (t : Sys F) × Reach Step (fresh tid) t
        × (t.phase ≡ polling)
        × (t.pending ≡ fs)
        × ¬ IsWoken t
  early_functors_sleep tid fs = (
    record (queued_early tid fs) { phase = polling },
    next (queue_early tid [] fs here) (enter_loop refl refl refl),
    refl,
    refl,
    λ h. omega arith,
  )
