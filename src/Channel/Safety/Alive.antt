-- ===== src/Channel/Safety/Alive.antt =====
-- `handleEvent` where a callback may destroy the object that it runs on: after the callback the test of
-- the next one follows `this`. (The reported mask is in a local variable.)
use mudo_reprint.Base.{
  ℕ, ◌≡◌, refl, bit_or, Bool, true, not, ◌&&◌, ◌||◌, none, if◌then◌else◌, Result, ok, err, dangling,
  ◌>>=◌, arith,
}
use mudo_reprint.Channel.{
  Handlers, has, epollin, epollpri, epollout, epollerr, epollhup, epollrdhup, on_hup, on_error,
  on_readable, on_writable, handle_event, call_if_set, call_read_if_set,
}
use mudo_reprint.Channel.Flags.{Flags, encode, has-encode}
use mudo_reprint.Channel.Safety.{AllKeep, on_hup-Keeps, on_error-Keeps, on_readable-Keeps}

module _ {S : Type 0} (alive : S → Bool) where
  -- A member of the channel is read, and then `f` goes on.
  abbrev pub IsAlive : S → Type 0
  IsAlive s = alive s ≡ true

  abbrev pub touch : (S → Result S) → S → Result S
  touch f s = if alive s then f s else err dangling

  -- A block of `handleEvent`, by the test of the mask before it.
  abbrev pub block : Bool → (S → Result S) → S → Result S
  block b f s = if b then touch f s else ok s

module _ {Time S : Type 0} (alive : S → Bool) where
  unfoldable pub handle_event_alive : Handlers Time S → ℕ → Time → S → Result S
  unfolding on_hup on_error on_readable on_writable
  handle_event_alive h revent now s = do
    s₁ ← block alive (has revent epollhup && not (has revent epollin)) (on_hup h revent) s
    s₂ ← block alive (has revent epollerr) (on_error h revent) s₁
    let input = has revent (bit_or epollin (bit_or epollpri epollrdhup))
    s₃ ← block alive input (on_readable h revent now) s₂
    block alive (has revent epollout) (on_writable h revent) s₃

  on_hup-alive :
      (h : Handlers Time S) (revent : ℕ) (s : S)
      → alive s ≡ true
      → block alive (has revent epollhup && not (has revent epollin)) (on_hup h revent) s
        ≡ on_hup h revent s
  unfolding on_hup
  on_hup-alive h revent s a = ground arith

  on_error-alive :
      (h : Handlers Time S) (revent : ℕ) (s : S)
      → alive s ≡ true
      → block alive (has revent epollerr) (on_error h revent) s ≡ on_error h revent s
  unfolding on_error
  on_error-alive h revent s a = ground arith

  on_readable-alive :
      (h : Handlers Time S) (revent : ℕ) (now : Time) (s : S)
      → alive s ≡ true
      → block alive
          (has revent (bit_or epollin (bit_or epollpri epollrdhup)))
          (on_readable h revent now)
          s
        ≡ on_readable h revent now s
  unfolding on_readable
  on_readable-alive h revent now s a = ground arith

  on_writable-alive :
      (h : Handlers Time S) (revent : ℕ) (s : S)
      → alive s ≡ true
      → block alive (has revent epollout) (on_writable h revent) s ≡ on_writable h revent s
  unfolding on_writable
  on_writable-alive h revent s a = ground arith

  -- As long as no callback destroys the object and each returns, the tests that follow `this` make no
  -- difference.
  pub handle_event_alive-handle_event :
      (h : Handlers Time S) (revent : ℕ) (now : Time) (s : S)
      → AllKeep (IsAlive alive) h
      → alive s ≡ true
      → handle_event_alive h revent now s ≡ handle_event h revent now s
  unfolding handle_event_alive handle_event
  handle_event_alive-handle_event h revent now s k a =
      let (s₁, e₁, a₁) = on_hup-Keeps (IsAlive alive) h k revent s a in
      let (s₂, e₂, a₂) = on_error-Keeps (IsAlive alive) h revent s₁ k.no_error a₁ in
      let (s₃, e₃, a₃) = on_readable-Keeps (IsAlive alive) h k revent now s₂ a₂ in
      rw
        (
          on_hup-alive h revent s a,
          e₁,
          on_error-alive h revent s₁ a₁,
          e₂,
          on_readable-alive h revent now s₂ a₂,
          e₃,
          on_writable-alive h revent s₃ a₃,
        )
        refl

  -- With no error callback, by the reported flags.
  pub handle_event_alive-encode :
      (h : Handlers Time S) (f : Flags) (now : Time) (s : S)
      → h.error ≡ none
      → handle_event_alive h (encode f) now s ≡ (do
        s₁ ← block alive (f.hung_up && not f.readable) (call_if_set h.close) s
        s₂ ← block alive f.failed ok s₁
        s₃ ← block alive (f.readable || f.urgent || f.peer_closed) (call_read_if_set h.read now) s₂
        block alive f.writable (call_if_set h.write) s₃)
  unfolding handle_event_alive on_hup on_error on_readable on_writable
  handle_event_alive-encode h f now s e = ground (arith, has-encode f)
