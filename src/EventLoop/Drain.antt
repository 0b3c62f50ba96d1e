-- ===== src/EventLoop/Drain.antt =====
-- `doPendingFunctor`: each functor that was pending is called once, in order, and what the functors
-- queue meanwhile waits for the next round.
use mudo_reprint.Base.{
  ◌+◌, ◌≡◌, true, false, List, [], ◌∷◌, ◌++◌, Result, ok, arith, length, length-append,
}
use mathlib.Core.List.{append_assoc, append-nil}
use mudo_reprint.EventLoop.{Loop, queue_in_loop, push_pending, wakeup, call_all, do_pending_functor}

module _ {F : Type 0} where
  -- A functor that queues the functors of a list, from the loop's own thread.
  abbrev pub queue_all : List F → Loop F → Loop F
  queue_all [] l = l
  queue_all (f ∷ fs) l = queue_all fs (queue_in_loop l.tid f l)

  abbrev pub grown : List F → Loop F → Loop F
  grown fs l = record l { pending = l.pending ++ fs; wakeups = l.wakeups + length fs }

  queue_all-grown : (fs : List F) (l : Loop F) → l.calling ≡ true → queue_all fs l ≡ grown fs l
  unfolding queue_in_loop
  queue_all-grown [] l c = ground (arith, append-nil l.pending)
  queue_all-grown (f ∷ fs) l c =
      ground
        (arith, queue_all-grown fs (wakeup (push_pending f l)), append_assoc l.pending (f ∷ []) fs)

  module _ (queues : F → List F) where
    -- What the functors of a list queue, in order.
    abbrev pub queued : List F → List F
    queued [] = []
    queued (f ∷ fs) = queues f ++ queued fs

    abbrev pub exec : F → Loop F → Result (Loop F)
    exec f l = ok (queue_all (queues f) l)

    call_all-grown :
        (fs : List F) (l : Loop F)
        → l.calling ≡ true
        → call_all exec fs l ≡ ok (grown (queued fs) l)
    unfolding call_all
    call_all-grown [] l c = ground (arith, append-nil l.pending)
    call_all-grown (f ∷ fs) l c = ground (
      arith,
      queue_all-grown (queues f) l,
      call_all-grown fs (grown (queues f) l),
      append_assoc l.pending (queues f) (queued fs),
      length-append (queues f) (queued fs),
    )

    -- Where a functor does no more than queue others, whatever list it queues: after
    -- `doPendingFunctor` the pending functors are exactly those that the called ones queued, in
    -- order, and the wake-up counter has grown by their number, so that the next poll returns at once
    -- if there is any. A functor that queues itself runs once in each round.
    pub do_pending_functor-queued :
        (l : Loop F)
        → do_pending_functor exec l
          ≡ ok (record l {
            pending = queued l.pending;
            calling = false;
            wakeups = l.wakeups + length (queued l.pending);
          })
    unfolding do_pending_functor
    do_pending_functor-queued l =
        ground (arith, call_all-grown l.pending (record l { pending = []; calling = true }))
