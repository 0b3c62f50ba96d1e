-- ===== src/Lifetime/Servers.antt =====
-- A TcpServer from its constructor to its destructor.
use mudo_reprint.Base.{
  ℕ, ◌≡◌, refl, ◌≢◌, sym, inl, inr, Option, none, some, Bool, true, false, fatal, ◌&&◌, arith, ◌==◌,
  ok, err, dangling, Bool-cases, if◌then◌else◌, nat_eq, bit_or,
}
use mudo_reprint.Base.Int.{pos}
use mudo_reprint.Channel.{Channel, new_channel, epollin}
use mudo_reprint.Epoller.{Reactor}
use mudo_reprint.Epoller.Remove.{IsRegistered}
use mudo_reprint.Epoller.Kernel.{interest}
use mudo_reprint.Lifetime.{
  Current, set_current, Site, tcp_server, destroy_tcp_server, acceptor, listen,
}
use mudo_reprint.Lifetime.Loops.{HasBoth, HasBoth-Touches, watches_both, destroy_event_loop_lem}
use mudo_reprint.Lifetime.Channels.{make_and_update, IsMasked-IsRegistered}
use mudo_reprint.Lifetime.Threads.{event_loop_lem}

-- Once the body of the destructor has deleted a loop, in its own thread and with its two channels
-- registered, the destructor of the acceptor follows the pointer to it.
pub destroy_tcp_server_dangles :
    (here t w p a b : ℕ) (s : Site) (r : Reactor)
    → s.loop ≡ some r
    → t ≢ w
    → HasBoth r here t w a b
    → destroy_tcp_server here t w p s ≡ err dangling
unfolding destroy_tcp_server
destroy_tcp_server_dangles here t w p a b s r e d h =
    let (r', gone, _, _, _, _) = destroy_event_loop_lem here t w a b d s.current r h in
    rw (e, gone) refl

-- The kernel watches the listening socket, the timer descriptor and the eventfd, and no other.
abbrev pub watches_three : (t w p a b fd k : ℕ) → Option (ℕ × ℕ)
watches_three t w p a b fd k = if k == fd then some (epollin, p) else watches_both t w a b k

-- Three addresses and three descriptors that differ, in a thread that has no loop.
module _ (here self t w p a b fd : ℕ) (current : Current) (d₁ : t ≢ w) (d₂ : p ≢ t) (d₃ : p ≢ w)
    (d₄ : a ≢ b) (d₅ : fd ≢ a) (d₆ : fd ≢ b) (e : current here ≡ none) where
  -- What the constructor leads to.
  pub tcp_server_lem :
      (r : Reactor) × (tcp_server here self t w p fd (pos a) (pos b) true true current
        ≡ ok (record { current = set_current here (some self) current; loop = some r }))
      × HasBoth r here t w a b
      × ((k : ℕ) → interest r.ctls k ≡ watches_three t w p a b fd k)
      × ((c : Channel) × IsRegistered r here p c × (c.fd ≡ fd))
  unfolding tcp_server acceptor listen new_channel
  tcp_server_lem =
      let (r₁, made, h) = event_loop_lem here self t w a b current d₁ d₄ e in
      let (r₂, e₂, v₂, s₂, k₂, i₂) =
        make_and_update here p fd r₁ h.both.valid h.both.timer_registered.in_thread
          (h.others_free p d₂ d₃) (h.others_unused fd d₅ d₆) (λ m. bit_or m epollin) in
      (
        r₂,
        rw made (ground (arith, e₂, h.both.timer_registered.in_thread)),
        HasBoth-Touches s₂ (λ x. d₂ (sym x)) (λ x. d₃ (sym x)) v₂ h.both,
        λ k. elim (Bool-cases (k == fd)) [
          | inl x ↦ ground (arith, i₂)
          | inr x ↦ ground (arith, s₂.interest_same k, h.watched k)
        ],
        (
          k₂.channel,
          IsMasked-IsRegistered here p fd epollin r₁ r₂ (new_channel r₁.self fd)
              h.both.timer_registered.in_thread refl s₂ k₂,
          k₂.same_fd,
        ),
      )

  -- Where bind or listen fails the program ends.
  pub tcp_server_dies :
      (bound heard : Bool)
      → (bound && heard) ≡ false
      → tcp_server here self t w p fd (pos a) (pos b) bound heard current ≡ err fatal
  unfolding tcp_server acceptor listen
  tcp_server_dies bound heard bad =
      let (r₁, made, h) = event_loop_lem here self t w a b current d₁ d₄ e in
      rw made (ground (arith, bad))

-- In a thread that has no loop, with three addresses and three descriptors that differ, and where bind
-- and listen succeed, a server is
-- constructed with no assertion failing, and the kernel then watches the listening socket, the timer
-- descriptor and the eventfd for EPOLLIN, and no other. When this thread destroys the server, the
-- destructor of the acceptor follows the pointer to the loop that the server's own destructor has
-- deleted.
pub destroy_tcp_server-tcp_server :
    (here self t w p a b fd : ℕ) (current : Current)
    → t ≢ w
    → p ≢ t
    → p ≢ w
    → a ≢ b
    → fd ≢ a
    → fd ≢ b
    → current here ≡ none
    → (s : Site) × (r : Reactor) × (tcp_server here self t w p fd (pos a) (pos b) true true current
        ≡ ok s)
      × (s.current ≡ set_current here (some self) current)
      × (s.loop ≡ some r)
      × ((k : ℕ) → interest r.ctls k ≡ watches_three t w p a b fd k)
      × (destroy_tcp_server here t w p s ≡ err dangling)
destroy_tcp_server-tcp_server here self t w p a b fd current d₁ d₂ d₃ d₄ d₅ d₆ e =
    let (r, made, h, i, _) = tcp_server_lem here self t w p a b fd current d₁ d₂ d₃ d₄ d₅ d₆ e in
    (
      record { current = set_current here (some self) current; loop = some r },
      r,
      made,
      refl,
      refl,
      i,
      destroy_tcp_server_dangles here t w p a b _ r refl d₁ h,
    )
