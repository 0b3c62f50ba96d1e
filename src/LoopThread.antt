-- ===== src/LoopThread.antt =====
-- EventLoopThread.h and EventLoopThread.cpp: the start and the end of a loop's thread, as steps of the
-- two threads that take part. The callback that the constructor takes is never stored or called.
pub mod Handshake
mod Tests
use mudo_reprint.Base.{◌≡◌, Bool, true, false}

-- The thread that owns the object: before `startLoop`, in its wait, between the wait and
-- `return m_loop`, after it with the pointer that it returned (null or not), in the destructor
-- between reading `m_loop` and the call of `quit`, inside `quit` between the store of the flag and the
-- reading of the loop's thread and wake-up descriptor, in `join`, and after the destructor. `crashed`
-- is a call of `quit` through a pointer that is null or to a loop that is gone, and `dangled` the
-- reading of a loop that has gone since the flag was stored.
pub data Owner : Type 0 where
  unstarted waiting woken quitting waking joining destroyed crashed dangled : Owner
  started : (returned : Bool) → Owner

-- The thread of `threadFunc`: not there, before it sets `m_loop`, in `loop()`, and at its end.
pub data Worker : Type 0 where
  absent created looping ended : Worker

-- `loop_set` is `m_loop != nullptr`, `quit_flag` the flag of the loop, and `others_quit` says whether
-- code outside may call `quit` on the loop that `startLoop` returned. What becomes of the rest of such a call, which
-- reads the loop in the same way, is left out.
pub record Thread : Type 0 where
  pub owner : Owner
  pub worker : Worker
  pub loop_set : Bool
  pub quit_flag : Bool
  pub others_quit : Bool

abbrev pub unused : Bool → Thread
unused others_quit = record {
  owner = unstarted;
  worker = absent;
  loop_set = false;
  quit_flag = false;
  others_quit = others_quit;
}

pub data Step (s t : Thread) : Type 0 where
  spawns : s.owner ≡ unstarted → t ≡ record s { owner = waiting; worker = created } → Step s t
  publishes : s.worker ≡ created → t ≡ record s { worker = looping; loop_set = true } → Step s t
  wakes : s.owner ≡ waiting → s.loop_set ≡ true → t ≡ record s { owner = woken } → Step s t
  returns : s.owner ≡ woken → t ≡ record s { owner = started s.loop_set } → Step s t
  other_quits :
      s.others_quit ≡ true
      → s.owner ≡ started true
      → s.worker ≡ looping
      → t ≡ record s { quit_flag = true }
      → Step s t
  loop_ends :
      s.worker ≡ looping
      → s.quit_flag ≡ true
      → t ≡ record s { worker = ended; loop_set = false }
      → Step s t
  reads :
      (b : Bool)
      → s.owner ≡ started b
      → s.loop_set ≡ true
      → t ≡ record s { owner = quitting }
      → Step s t
  reads_null :
      (b : Bool)
      → s.owner ≡ started b
      → s.loop_set ≡ false
      → t ≡ record s { owner = crashed }
      → Step s t
  stores_flag :
      s.owner ≡ quitting
      → s.worker ≡ looping
      → t ≡ record s { owner = waking; quit_flag = true }
      → Step s t
  wakes_loop : s.owner ≡ waking → s.worker ≡ looping → t ≡ record s { owner = joining } → Step s t
  wakes_late : s.owner ≡ waking → s.worker ≡ ended → t ≡ record s { owner = dangled } → Step s t
  quits_late : s.owner ≡ quitting → s.worker ≡ ended → t ≡ record s { owner = crashed } → Step s t
  joins : s.owner ≡ joining → s.worker ≡ ended → t ≡ record s { owner = destroyed } → Step s t
  ends_unstarted : s.owner ≡ unstarted → t ≡ record s { owner = destroyed } → Step s t
