-- ===== src/Lifetime/Served/Closing.antt =====
-- What the close of a connection destroys, and what `handleEvent` then follows.
use mudo_reprint.Base.{
  ℕ, ◌≡◌, refl, true, false, Bool, not, ◌&&◌, ◌||◌, Option, none, some, if◌then◌else◌, Result, ok,
  err, dangling, contains, text_eq, lookup, erase, IsMap, lookup-erase_self, nat_eq, arith,
}
use mudo_reprint.Buffer.{Buffers}
use mudo_reprint.Channel.{Channel, call_if_set}
use mudo_reprint.Channel.Flags.{Flags, encode}
use mudo_reprint.Channel.Safety.Alive.{handle_event_alive, handle_event_alive-encode}
use mudo_reprint.Epoller.{Reactor, k_added}
use mudo_reprint.Epoller.Kernel.{interest}
use mudo_reprint.Epoller.Invariant.{Inv}
use mudo_reprint.Epoller.Update.{IsUsable}
use mudo_reprint.TcpConnection.{Conn, end_of_stream, Wrote}
use mudo_reprint.TcpConnection.Close.{closed, handle_close-closed}
use mudo_reprint.TcpServer.{Server, remove_connection}
use mudo_reprint.Lifetime.{delete_channel}
use mudo_reprint.Lifetime.Served.{
  Held, alive, gone, is_alive, close_held, release, destroy_connection, held_handlers, read_held,
  user_callbacks,
}

-- The flags by which `handleEvent` closes the connection, when the stream is at its end.
abbrev pub closes : Flags → Bool
closes f = f.hung_up || f.readable || f.urgent || f.peer_closed

-- The flags that it tests for after the block that closes the connection.
abbrev pub tested_later : Flags → Bool
tested_later f =
    if f.hung_up && not f.readable
    then f.failed || f.urgent || f.peer_closed || f.writable
    else f.writable

module _ {api : Buffers} where
  -- A connection in the server's own loop and map, whose channel is kAdded.
  pub record IsServed (here : ℕ) (s : Server) (c : Conn api) (ch : Channel) : Type 0 where
    pub valid : Inv c.reactor
    pub usable : IsUsable c.reactor here c.channel ch
    pub added : ch.index ≡ k_added
    pub in_server : here ≡ s.pool.base_tid
    pub is_map : IsMap s.connections
    pub listed : contains c.name s.connections ≡ true

  -- The server without the connection, and the loop without its channel.
  abbrev pub left_over : Server → Conn api → Channel → Held api
  left_over s c ch =
      gone (record s { connections = erase c.name s.connections })
        (delete_channel c.channel (closed ch c).reactor)

  module _ {Time : Type 0} (user : Option (Conn api → Result (Conn api)))
      (message : Option (Time → Conn api → Result (Conn api))) (here : ℕ) (s : Server)
      (c : Conn api) (ch : Channel) (v : IsServed here s c ch)
      (quiet : call_if_set user (closed ch c) ≡ ok (closed ch c)) where
    erased : contains c.name (erase c.name s.connections) ≡ false
    erased = ground (arith, lookup-erase_self c.name s.connections v.is_map)

    pub close_held-gone : close_held user message here (alive s c) ≡ ok (left_over s c ch)
    unfolding close_held release destroy_connection remove_connection
    close_held-gone =
        let (e, _, _, _) =
          handle_close-closed (user_callbacks user message here) here c ch v.valid v.usable
            v.added in
        rw (e, quiet) (ground (arith, v.in_server, v.listed, erased))

    -- In the server's own thread and loop, closing a connection that is in the map, with a connection
    -- callback that leaves it as it is: the map has it no more, it is destroyed with its assertion met,
    -- and the kernel watches the descriptor no more. The epoller's map still leads from the
    -- descriptor to the address of the channel that is gone.
    pub close_held_lem :
        (r : Reactor) × (close_held user message here (alive s c)
          ≡ ok (gone (record s { connections = erase c.name s.connections }) r))
        × (contains c.name (erase c.name s.connections) ≡ false)
        × (interest r.ctls ch.fd ≡ none)
        × (lookup ch.fd r.channel_map ≡ some c.channel)
        × (r.channels c.channel ≡ none)
    unfolding delete_channel
    close_held_lem =
        let (_, _, i, m) =
          handle_close-closed (user_callbacks user message here) here c ch v.valid v.usable
            v.added in
        (
          delete_channel c.channel (closed ch c).reactor,
          close_held-gone,
          erased,
          i,
          m,
          ground arith,
        )

    -- Under the same conditions, where the flags reported make `handleEvent` close the connection, for
    -- a hang-up or at the end of the stream: it returns with the connection destroyed if no flag that it
    -- tests for later is reported, and else reads a callback of the destroyed channel.
    pub handle_event-closes :
        (f : Flags) (count_first : Bool) (answer : Wrote) (now : Time)
        → closes f ≡ true
        → handle_event_alive is_alive
            (held_handlers user message here count_first end_of_stream answer)
            (encode f)
            now
            (alive s c)
          ≡ (if tested_later f then err dangling else ok (left_over s c ch))
    unfolding held_handlers read_held
    handle_event-closes f count_first answer now e =
        let by_flags =
          handle_event_alive-encode is_alive
            (held_handlers user message here count_first end_of_stream answer) f now (alive s c)
            refl in
        rw by_flags (ground (arith, close_held-gone, v.usable.in_thread))
