-- ===== src/TcpConnection/Close.antt =====
-- `handleClose`, and the next connection that gets the same descriptor.
use mudo_reprint.Base.{
  ℕ, ◌≡◌, refl, none, some, err, assertion, arith, lookup, nat_eq, ◌>>=◌, bit_or,
}
use mudo_reprint.Channel.{Channel, call_if_set, new_channel, epollin}
use mudo_reprint.Buffer.{Buffers}
use mudo_reprint.Epoller.{k_added, store}
use mudo_reprint.Epoller.Kernel.{interest}
use mudo_reprint.Epoller.Invariant.{Inv}
use mudo_reprint.Epoller.Update.{IsUsable, settled, update_with-Inv, index-cases}
use mudo_reprint.Epoller.Remove.{update_with_taken}
use mudo_reprint.TcpConnection.{
  Conn, Callbacks, connecting, disconnected, handle_close, connect_established,
}

module _ {api : Buffers} where
  -- What the callbacks of `handleClose` are called on.
  abbrev pub closed : Channel → Conn api → Conn api
  closed ch c = record c { state = disconnected; reactor = settled (λ _. 0) c.channel ch c.reactor }

  module _ {Time : Type 0} (callbacks : Callbacks api Time) (here : ℕ) (c : Conn api)
      (ch : Channel) where
    -- Closing a connection in the loop's thread, where its channel is alive and kAdded and the
    -- reactor has its invariant, sets the state and takes the descriptor out of the kernel's interest
    -- list, the invariant holding on, and then calls the connection callback and the close callback,
    -- in this order, where they are set. The descriptor stays in the epoller's map.
    pub handle_close-closed :
        Inv c.reactor
        → IsUsable c.reactor here c.channel ch
        → ch.index ≡ k_added
        → (handle_close callbacks here c ≡ (do
          c' ← call_if_set callbacks.conn_cb (closed ch c)
          call_if_set callbacks.close_cb c'))
          × Inv (closed ch c).reactor
          × (interest (closed ch c).reactor.ctls ch.fd ≡ none)
          × (lookup ch.fd (closed ch c).reactor.channel_map ≡ some c.channel)
    unfolding handle_close
    handle_close-closed v u e =
        let (r, watched, same, v') = update_with-Inv (λ _. 0) here c.channel c.reactor ch v u in
        (
          let watched' = rw u.live at watched in rw (u.live, watched') (rw same),
          rw same at v',
          ground (arith, v.agrees ch.fd, index-cases c.reactor c.channel ch v u.live, u.live),
          ground (arith, index-cases c.reactor c.channel ch v u.live),
        )

    -- After such a close, when the descriptor is closed and the system gives its number to the next
    -- connection of the same loop, that connection, still connecting and with its new channel at any
    -- address `q`, cannot be established: the assertion in `updateChannel` that the map has no such
    -- descriptor fails.
    pub connect_established-reused_fd :
        (d : Conn api) (q : ℕ)
        → Inv c.reactor
        → IsUsable c.reactor here c.channel ch
        → ch.index ≡ k_added
        → d.reactor ≡ store q (new_channel c.reactor.self ch.fd) (closed ch c).reactor
        → d.channel ≡ q
        → d.state ≡ connecting
        → connect_established callbacks here d ≡ err assertion
    unfolding connect_established new_channel
    connect_established-reused_fd d q v u e er eq es =
        let fresh = new_channel c.reactor.self ch.fd in
        let entry = (handle_close-closed v u e).3 in
        let thread : here ≡ d.reactor.tid = rw er (ground (arith, u.in_thread)) in
        let live : d.reactor.channels q ≡ some fresh = rw er (ground arith) in
        let owned : c.reactor.self ≡ d.reactor.self = rw er (ground arith) in
        let taken : lookup ch.fd d.reactor.channel_map ≡ some c.channel = rw er entry in
        let refused =
          update_with_taken (λ m. bit_or m epollin) here c.channel q d.reactor fresh thread live
            owned refl taken in
        let refused' = rw live at refused in rw (es, eq, live, refused') (ground (arith, thread))
