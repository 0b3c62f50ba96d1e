-- ===== src/Lifetime/Threads.antt =====
-- The loop of a thread: the constructor of EventLoop, the thread-local pointer, and the destructor.
use mudo_reprint.Base.{ℕ, ◌≡◌, refl, ◌≢◌, ◌∙◌, none, some, arith, ok, err, fatal, fun_ext}
use mudo_reprint.Base.Int.{pos}
use mudo_reprint.Epoller.{Reactor}
use mudo_reprint.Epoller.Remove.{channel_remove_elsewhere}
use mudo_reprint.Epoller.Kernel.{interest}
use mudo_reprint.Epoller.Invariant.{Inv}
use mudo_reprint.Lifetime.{Current, set_current, event_loop, destroy_event_loop, create_fd}
use mudo_reprint.Lifetime.Loops.{loop_parts, IsFresh, destroy_event_loop_lem}

module _ (here self t w a b : ℕ) (current : Current) (t_ne_w : t ≢ w) (a_ne_b : a ≢ b) where
  -- In a thread that has no loop, with two addresses and two descriptors that differ, the constructor
  -- returns with no assertion failing; the thread has this loop; and the kernel watches the timer
  -- descriptor and the eventfd for EPOLLIN, and no other.
  pub event_loop_lem :
      current here ≡ none
      → (r : Reactor) × (event_loop here self t w (pos a) (pos b) current
          ≡ ok (set_current here (some self) current, r))
        × IsFresh r here t w a b
  unfolding event_loop create_fd
  event_loop_lem e =
      let (r₁, r₃, e₁, e₃, h) = loop_parts here self t w a b t_ne_w a_ne_b in
      (r₃, rw (e₁, e, e₃) refl, h)

  -- In a thread that has a loop, the constructor ends the program.
  event_loop_second :
      (other : ℕ)
      → current here ≡ some other
      → event_loop here self t w (pos a) (pos b) current ≡ err fatal
  unfolding event_loop create_fd
  event_loop_second other e =
      let (r₁, r₃, e₁, e₃, h) = loop_parts here self t w a b t_ne_w a_ne_b in rw (e₁, e) refl

  set_current-set_current :
      (l : ℕ)
      → current here ≡ none
      → set_current here none (set_current here (some l) current) ≡ current
  set_current-set_current l e = fun_ext λ x. ground arith

  -- Under the same conditions, a loop that is destroyed by the thread that constructed it, whatever
  -- its address, leaves the threads' pointers as they were and nothing for the kernel to watch, and
  -- the thread can construct a loop again.
  pub destroy_event_loop-event_loop :
      current here ≡ none
      → (r r' : Reactor) × (event_loop here self t w (pos a) (pos b) current
          ≡ ok (set_current here (some self) current, r))
        × (destroy_event_loop here t w (set_current here (some self) current, r) ≡ ok (current, r'))
        × Inv r'
        × ((k : ℕ) → interest r'.ctls k ≡ none)
  destroy_event_loop-event_loop e =
      let (r, made, h) = event_loop_lem e in
      let (r', gone, v, _, _, j) =
        destroy_event_loop_lem here t w a b t_ne_w (set_current here (some self) current) r
          h.both in
      (
        r,
        r',
        made,
        gone ∙ rw (set_current-set_current self e) refl,
        v,
        λ k. j k ∙ ground (arith, h.watched k),
      )

-- A loop whose wake-up channel is alive cannot be destroyed in another thread: that ends the program.
destroy_event_loop_elsewhere :
    (here t w : ℕ) (current : Current) (r : Reactor)
    → here ≢ r.tid
    → destroy_event_loop here t w (current, r) ≡ err fatal
unfolding destroy_event_loop
destroy_event_loop_elsewhere here t w current r h = rw (channel_remove_elsewhere here w r h) refl
