-- ===== src/EchoServer/Functors.antt =====
-- main.cpp: the functors with which it tries `runInLoop`, `queueInLoop` and `runAfter`.
use mudo_reprint.Base.{ℕ, ◌≡◌, true, false, List, [], ◌∷◌, ◌++◌, if◌then◌else◌, arith}
use mathlib.Core.List.{append_assoc}
use mudo_reprint.EventLoop.{Loop, is_in_loop_thread, queue_in_loop, quit, push_pending, wakeup}

-- What can be queued: the functors, `quit` of the loop, and `queueInLoop` of that.
pub data TrialFunctor : Type 0 where
  run1 run2 run3 run4 quits queues_quit : TrialFunctor

-- The loop, `g_flag`, what was printed with the flag, and what `runAfter` was given.
pub record Trial : Type 0 where
  pub loop : Loop TrialFunctor
  pub flag : ℕ
  pub printed : List (TrialFunctor × ℕ)
  pub delayed : List (ℕ × TrialFunctor)

abbrev print : TrialFunctor → Trial → Trial
print f t = record t { printed = t.printed ++ (f, t.flag) ∷ [] }

abbrev queue : ℕ → TrialFunctor → Trial → Trial
queue here f t = record t { loop = queue_in_loop here f t.loop }

-- `runInLoop(f)`, where `f` does `body`.
abbrev in_loop : ℕ → TrialFunctor → (Trial → Trial) → Trial → Trial
in_loop here f body t = if is_in_loop_thread here t.loop then body t else queue here f t

abbrev do_run2 : ℕ → Trial → Trial
do_run2 here t = queue here run3 (print run2 t)

unfoldable call_functor : ℕ → TrialFunctor → Trial → Trial
call_functor here run1 t =
    let t' = in_loop here run2 (do_run2 here) (print run1 (record t { flag = 1 })) in
    record t' { flag = 2 }
call_functor here run2 t = do_run2 here t
call_functor here run3 t =
    let t' = print run3 t in record t' { delayed = t'.delayed ++ (3, run4) ∷ []; flag = 3 }
call_functor here run4 t = let t' = print run4 t in record t' { loop = quit here t'.loop }
call_functor here quits t = record t { loop = quit here t.loop }
call_functor here queues_quit t = queue here quits t

call_functors : ℕ → List TrialFunctor → Trial → Trial
unfolding call_functor
call_functors here [] t = t
call_functors here (f ∷ fs) t = call_functors here fs (call_functor here f t)

-- `doPendingFunctor`
do_pending : ℕ → Trial → Trial
unfolding call_functors
do_pending here t =
    let l = t.loop in
    let t' =
      call_functors here l.pending
        (record t { loop = record l { pending = []; calling = true } }) in
    record t' { loop = record t'.loop { calling = false } }

-- `testRunInLoop`: `queueInLoop` of `quit`, by `runInLoop`.
unfoldable test_run_in_loop : ℕ → Trial → Trial
test_run_in_loop here t = in_loop here queues_quit (queue here quits) t

-- In the loop's thread and with nothing pending: `run2` is called while `run1` still runs, `run3` only
-- when the loop calls its functors, and `run4` when its time has come; it ends the loop.
run1-order :
    (here : ℕ) (t : Trial)
    → is_in_loop_thread here t.loop ≡ true
    → t.loop.pending ≡ []
    → let u = do_pending here (call_functor here run1 t) in
      let w = call_functor here run4 u in
      (u.printed ≡ t.printed ++ (run1, 1) ∷ (run2, 1) ∷ (run3, 2) ∷ [])
      × (u.delayed ≡ t.delayed ++ (3, run4) ∷ [])
      × (u.loop.pending ≡ [])
      × (w.printed ≡ t.printed ++ (run1, 1) ∷ (run2, 1) ∷ (run3, 2) ∷ (run4, 3) ∷ [])
      × (w.loop.quit_flag ≡ true)
unfolding call_functor do_pending call_functors queue_in_loop push_pending wakeup quit
run1-order here t own idle =
    let one : List (TrialFunctor × ℕ) = (run1, 1) ∷ [] in
    let two : List (TrialFunctor × ℕ) = (run2, 1) ∷ [] in
    let then_three : List (TrialFunctor × ℕ) = (run3, 2) ∷ [] in
    let first = append_assoc t.printed one two in
    let three = append_assoc t.printed (one ++ two) then_three in
    let four = append_assoc t.printed (one ++ two ++ then_three) ((run4, 3) ∷ []) in
    (
      ground (arith, idle, first, three),
      ground (arith, idle),
      ground (arith, idle),
      ground (arith, idle, first, three, four),
      ground (arith, idle),
    )
