-- ===== src/Lifetime/Served/Queued.antt =====
-- Functors of a connection that are still queued when it is closed.
use mudo_reprint.Base.{
  ℕ, ◌≡◌, refl, ◌≢◌, Option, List, [], ◌∷◌, ◌++◌, Result, ok, err, dangling, arith, text_eq,
}
use mudo_reprint.Buffer.{Buffers}
use mudo_reprint.Channel.{Channel, call_if_set}
use mudo_reprint.TcpConnection.{Conn, Functor, sends, connected, Wrote}
use mudo_reprint.TcpConnection.Sending.{send}
use mudo_reprint.TcpConnection.Close.{closed}
use mudo_reprint.TcpServer.{Server}
use mudo_reprint.Lifetime.Served.{Held, alive, close_held, run_functor}
use mudo_reprint.Lifetime.Served.Closing.{IsServed, left_over, close_held-gone}

module _ {api : Buffers} where
  -- The connection after a call of `send` in another thread.
  abbrev pub with_queued : Functor → Conn api → Conn api
  with_queued f c = record c { queued = c.queued ++ f ∷ [] }

  module _ {Time : Type 0} (user : Option (Conn api → Result (Conn api)))
      (message : Option (Time → Conn api → Result (Conn api))) (here there : ℕ) (s : Server)
      (c : Conn api) (ch : Channel) (v : IsServed here s c ch) (msg : List ℕ)
      (up : c.state ≡ connected) (other : there ≢ here)
      (quiet : call_if_set user (closed ch (with_queued (sends msg) c))
        ≡ ok (closed ch (with_queued (sends msg) c))) where
    still-IsServed : IsServed here s (with_queued (sends msg) c) ch
    still-IsServed = record {
      valid = v.valid;
      usable = v.usable;
      added = v.added;
      in_server = v.in_server;
      is_map = v.is_map;
      listed = v.listed;
    }

    -- When another thread sends on a connection that is up, the functor waits in the queue of the
    -- loop. If the loop closes the connection first, as it does at the end of the stream, the functor
    -- then follows the pointer to the connection that is gone.
    pub send-close_held :
        (answer : Wrote) (now : Wrote)
        → (h : Held api) × (send there msg answer c ≡ ok (with_queued (sends msg) c))
          × (close_held user message here (alive s (with_queued (sends msg) c)) ≡ ok h)
          × (run_functor here now (sends msg) h ≡ err dangling)
    unfolding send run_functor
    send-close_held answer now = (
      left_over s (with_queued (sends msg) c) ch,
      ground (arith, v.usable.in_thread),
      close_held-gone user message here s (with_queued (sends msg) c) ch still-IsServed quiet,
      refl,
    )
