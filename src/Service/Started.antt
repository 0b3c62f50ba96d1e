-- ===== src/Service/Started.antt =====
-- A server that has been constructed and started.
use mudo_reprint.Base.{
  ◌⊎◌, inl, inr, ◌∙◌, ℕ, ◌≤◌, ◌≡◌, refl, ◌≢◌, none, some, Bool, true, false, ◌&&◌, List, length,
  Result, ok, err, fatal, arith, text_eq,
}
use mudo_reprint.Base.Int.{pos}
use mudo_reprint.Buffer.{Buffers}
use mudo_reprint.Epoller.{Reactor}
use mudo_reprint.Epoller.Kernel.{interest}
use mudo_reprint.Epoller.Serving.{Serves, Holds, Inv-Serves, registered-Holds}
use mudo_reprint.Epoller.Remove.{IsRegistered}
use mudo_reprint.Channel.{Channel, epollin}
use mudo_reprint.Lifetime.Loops.{HasBoth}
use mudo_reprint.EventLoop.{new_loop}
use mudo_reprint.ThreadPool.{Pool, new_pool, start, start_threads}
use mudo_reprint.TcpServer.{Server, new_server, start_server}
use mudo_reprint.Lifetime.{Current, Site, set_current, tcp_server}
use mudo_reprint.Lifetime.Servers.{tcp_server_lem, tcp_server_dies, watches_three}
use mudo_reprint.Service.{World}
use mudo_reprint.Service.Valid.{IsValid}

-- `start` where no threads were asked for.
abbrev started_pool : ℕ → ℕ → List ℕ → Pool
started_pool self here name = record (new_pool self here name) { started = true }

-- The channels of the loop itself, with their descriptors: those of the timer, of the wake-up and of
-- the listening socket.
abbrev pub IsOwnChannel : (t w p a b fd q k : ℕ) → Type 0
IsOwnChannel t w p a b fd q k = ((q ≡ t) × (k ≡ a)) ⊎ (((q ≡ w) × (k ≡ b)) ⊎ ((q ≡ p) × (k ≡ fd)))

module _ (api : Buffers) where
  -- With no connection yet.
  abbrev pub idle_world : ℕ → Server → Reactor → World api
  idle_world here s r = record { server = s; loop = new_loop here; reactor = r; conns = λ _. none }

module _ (api : Buffers) (tid_of start_loop : ℕ → ℕ) (here self t w p a b fd : ℕ)
    (name ip_port : List ℕ) (current : Current) where
  abbrev made_server : (bound heard : Bool) → Result Site
  made_server bound heard = tcp_server here self t w p fd (pos a) (pos b) bound heard current

  abbrev started_server : Server
  started_server = record (new_server self here name ip_port) {
    is_started = true;
    pool = started_pool self here name;
  }

  started_server_lem :
      start_server here start_loop (new_server self here name ip_port) ≡ ok (true, started_server)
  unfolding start_server new_server new_pool start start_threads
  started_server_lem = ground arith

  started-IsValid :
      tid_of self ≡ here
      → length ip_port ≤ 51
      → (r : Reactor) → here ≡ r.tid
      → Serves r
      → ((q k : ℕ) → IsOwnChannel t w p a b fd q k → Holds here q k r)
      → IsValid tid_of here (IsOwnChannel t w p a b fd) (idle_world api here started_server r)
  unfolding new_server new_pool
  started-IsValid home short r thread v kept = record {
    serves = v;
    in_thread = thread;
    in_server = refl;
    home = home;
    alone = refl;
    started = refl;
    named = record { is_map = tt; numbered = λ k n e. cc; short = short };
    up = λ n c e. cc;
    listed = λ k n e. cc;
    kept = kept;
    own_apart = λ q k n c o e. cc;
    apart = λ n m c d e. cc;
  }

  three :
      a ≢ b
      → fd ≢ a
      → fd ≢ b
      → (r : Reactor) → Serves r
      → HasBoth r here t w a b
      → ((k : ℕ) → interest r.ctls k ≡ watches_three t w p a b fd k)
      → (c : Channel) → IsRegistered r here p c
      → c.fd ≡ fd
      → (q k : ℕ) → IsOwnChannel t w p a b fd q k
      → Holds here q k r
  three d₄ d₅ d₆ r v h i c g same q k (inl (at_t, at_a)) =
      rw (at_t, at_a)
        (registered-Holds a (epollin, t) v h.timer_registered h.timer_fd
          (i a ∙ ground (arith, d₄, d₅)))
  three d₄ d₅ d₆ r v h i c g same q k (inr (inl (at_w, at_b))) =
      rw (at_w, at_b)
        (registered-Holds b (epollin, w) v h.wakeup_registered h.wakeup_fd
          (i b ∙ ground (arith, d₄, d₆)))
  three d₄ d₅ d₆ r v h i c g same q k (inr (inr (at_p, at_fd))) =
      rw (at_p, at_fd) (registered-Holds fd (epollin, p) v g same (i fd ∙ ground arith))

  -- In a thread that has no loop, with three addresses and three descriptors that differ, and with an
  -- address of at most 51 bytes: where bind and listen succeed, the constructor and `start` succeed and
  -- leave a valid state with no connection, in which the kernel watches the listening socket, the timer
  -- descriptor and the eventfd, and no other. Where bind or listen fails, the constructor ends the
  -- program.
  pub tcp_server-IsValid :
      tid_of self ≡ here
      → length ip_port ≤ 51
      → t ≢ w
      → p ≢ t
      → p ≢ w
      → a ≢ b
      → fd ≢ a
      → fd ≢ b
      → current here ≡ none
      → (bound heard : Bool)
      → (((bound && heard) ≡ true)
          × ((site : Site) × (r : Reactor) × (s : Server) × (made_server bound heard ≡ ok site)
              × (site.loop ≡ some r)
              × (start_server here start_loop (new_server self here name ip_port) ≡ ok (true, s))
              × IsValid tid_of here (IsOwnChannel t w p a b fd) (idle_world api here s r)
              × ((k : ℕ) → interest r.ctls k ≡ watches_three t w p a b fd k)))
        ⊎ (((bound && heard) ≡ false) × (made_server bound heard ≡ err fatal))
  tcp_server-IsValid home short d₁ d₂ d₃ d₄ d₅ d₆ e true true =
      let (r, made, h, i, (c, g, same_fd)) =
        tcp_server_lem here self t w p a b fd current d₁ d₂ d₃ d₄ d₅ d₆ e in
      inl (
        refl,
        (
          record { current = set_current here (some self) current; loop = some r },
          r,
          started_server,
          made,
          refl,
          started_server_lem,
          started-IsValid home short r h.timer_registered.in_thread (Inv-Serves r h.valid)
              (three d₄ d₅ d₆ r (Inv-Serves r h.valid) h i c g same_fd),
          i,
        ),
      )
  tcp_server-IsValid home short d₁ d₂ d₃ d₄ d₅ d₆ e true false =
      inr (refl, tcp_server_dies here self t w p a b fd current d₁ d₂ d₃ d₄ d₅ d₆ e true false refl)
  tcp_server-IsValid home short d₁ d₂ d₃ d₄ d₅ d₆ e false heard =
      inr
        (refl, tcp_server_dies here self t w p a b fd current d₁ d₂ d₃ d₄ d₅ d₆ e false heard refl)
