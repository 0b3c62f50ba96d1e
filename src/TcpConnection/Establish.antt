-- ===== src/TcpConnection/Establish.antt =====
-- `connectEstablished` on a new connection.
use mudo_reprint.Base.{ℕ, ◌≡◌, some, arith, bit_or}
use mudo_reprint.Channel.{Channel, call, epollin}
use mudo_reprint.Buffer.{Buffers}
use mudo_reprint.Epoller.{k_new}
use mudo_reprint.Epoller.Kernel.{interest}
use mudo_reprint.Epoller.Invariant.{Inv}
use mudo_reprint.Epoller.Update.{IsUsable, settled, update_with-Inv}
use mudo_reprint.TcpConnection.{Conn, Callbacks, connecting, connected, connect_established}

module _ {api : Buffers} where
  -- What the connection callback is called on.
  abbrev pub established : Channel → Conn api → Conn api
  established ch c = record c {
    state = connected;
    reactor = settled (λ m. bit_or m epollin) c.channel ch c.reactor;
  }

  module _ {Time : Type 0} (callbacks : Callbacks api Time) (here : ℕ) (c : Conn api)
      (ch : Channel) where
    -- On a connection that is connecting, in the loop's thread, in a reactor with its invariant and with
    -- a live new channel whose descriptor is free, `connectEstablished` sets the state and has the kernel watch the descriptor for input, the
    -- invariant holding on, and then calls the connection callback, or throws where there is none.
    pub connect_established-established :
        Inv c.reactor
        → IsUsable c.reactor here c.channel ch
        → c.state ≡ connecting
        → ch.index ≡ k_new
        → (connect_established callbacks here c ≡ call callbacks.conn_cb (established ch c))
          × Inv (established ch c).reactor
          × (interest (established ch c).reactor.ctls ch.fd
              ≡ some (bit_or ch.events epollin, c.channel))
    unfolding connect_established
    connect_established-established v u s new =
        let (r, watched, same, v') =
          update_with-Inv (λ m. bit_or m epollin) here c.channel c.reactor ch v u in
        (
          let watched' = rw u.live at watched in
              rw (s, u.live, watched') (rw same (ground (arith, u.in_thread))),
          rw same at v',
          ground (arith, new, v.agrees ch.fd, u.free_fd),
        )
