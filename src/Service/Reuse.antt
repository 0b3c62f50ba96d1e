-- ===== src/Service/Reuse.antt =====
-- The descriptor of a connection that was closed, given to the next connection.
use mudo_reprint.Base.{ℕ, ◌≡◌, none, some, Option, Result, ok, err, assertion, arith, nat_eq}
use mudo_reprint.Buffer.{Buffers}
use mudo_reprint.Channel.{Channel}
use mudo_reprint.Epoller.Kernel.{interest}
use mudo_reprint.TcpConnection.{Conn, disconnected}
use mudo_reprint.Lifetime.Served.{close_held}
use mudo_reprint.Service.{World, at_conn, take_connection}
use mudo_reprint.Service.Valid.{IsValid}
use mudo_reprint.Service.Close.{close_at-IsValid}
use mudo_reprint.Service.Accept.{take_connection-refused}

module _ {api : Buffers} {Time : Type 0} (tid_of : ℕ → ℕ) (here : ℕ) (own : ℕ → ℕ → Type 0)
    (f : Conn api → Result (Conn api)) (message : Option (Time → Conn api → Result (Conn api)))
    (w : World api) (v : IsValid tid_of here own w) (n : ℕ) (c : Conn api)
    (there : w.conns n ≡ some c) (ch : Channel) (live : w.reactor.channels c.channel ≡ some ch)
    (quiet : (d : Conn api) → d.state ≡ disconnected → f d ≡ ok d) where
  own_fd : (v.up n c there).0 ≡ ch.fd
  own_fd = let u = (v.up n c there).1 in ground (arith, u.holds.live, live, u.holds.same_fd)

  -- In any valid state, and with a connection callback that does nothing to a closed connection: after a
  -- connection is closed, which leaves a valid state, the kernel does not watch its descriptor. But if the system then gives that
  -- descriptor to the next connection, an assertion ends the server, wherever the new channel is.
  pub take_connection-reused_fd :
      (w' : World api) × (at_conn (close_held (some f) message here) n w ≡ ok w')
      × IsValid tid_of here own w'
      × (interest w'.reactor.ctls ch.fd ≡ none)
      × ((m p : ℕ)
          → w'.reactor.channels p ≡ none
          → take_connection (some f) message here tid_of m p ch.fd w' ≡ err assertion)
  take_connection-reused_fd =
      let (w', e, v', _, i, mapped) =
        close_at-IsValid tid_of here own w v n c there (some f) message quiet in
      (
        w',
        e,
        v',
        rw own_fd at i,
        λ m p free.
            take_connection-refused tid_of here own f message w' v' m p ch.fd free c.channel
              (rw own_fd at mapped),
      )
