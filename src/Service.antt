-- ===== src/Service.antt =====
-- A TcpServer whose pool has no threads (TcpServer.cpp), with its connections (TcpConnection.cpp) and
-- the reactor of its loop, which they share.
--
-- Connections are known by numbers. `user` and `message` are the callbacks that the user sets.
pub mod Serving
pub mod Valid
pub mod Close
pub mod Joined
pub mod Accept
pub mod History
pub mod Reuse
pub mod Started
pub mod Destroy
pub mod Echo
pub mod Examples
mod Tests
use mudo_reprint.Base.{
  ℕ, Bool, Option, none, some, List, [], ◌∷◌, ◌==◌, if◌then◌else◌, Result, ok, err, dangling, ◌>>=◌,
  deref,
}
use mudo_reprint.Buffer.{Buffers}
use mudo_reprint.Epoller.{Reactor}
use mudo_reprint.EventLoop.{Loop}
use mudo_reprint.TcpConnection.{Conn, connecting, Received, Wrote, with_reactor, shut_down}
use mudo_reprint.TcpConnection.Sending.{send}
use mudo_reprint.TcpServer.{Server, conn_name, handle_new_conn}
use mudo_reprint.TcpServer.Handover.{Hosted, perform_all}
use mudo_reprint.Lifetime.{make_channel}
use mudo_reprint.Lifetime.Served.{
  Held, alive, gone, user_callbacks, close_held, read_held, write_held,
}

-- What happens to a connection in the loop's thread: the callbacks of its channel, and the calls of
-- the user.
pub data Event (Time : Type 0) : Type 0 where
  input : Received → Time → Event Time
  writable : (count_first : Bool) → Wrote → Event Time
  hang_up : Event Time
  send_call : List ℕ → Wrote → Event Time
  shut_down_call : Event Time

module _ (api : Buffers) where
  -- `loop` is the queue of the loop. The connections that are alive have the reactor `reactor`,
  -- whatever they had when they were stored.
  pub record World : Type 0 where
    pub server : Server
    pub loop : Loop ℕ
    pub reactor : Reactor
    pub conns : ℕ → Option (Conn api)

module _ {api : Buffers} where
  open api use {empty}

  -- `TcpConnection::TcpConnection`, with the channel at `p`.
  unfoldable pub new_connection : List ℕ → (p fd : ℕ) → Reactor → Conn api
  unfolding make_channel
  new_connection name p fd r = record {
    name = name;
    state = connecting;
    channel = p;
    in_buffer = empty;
    out_buffer = empty;
    calls = [];
    queued = [];
    reactor = make_channel p fd r;
  }

  abbrev pub set_conn : ℕ → Option (Conn api) → (ℕ → Option (Conn api)) → ℕ → Option (Conn api)
  set_conn n o conns m = if m == n then o else conns m

  abbrev pub put : ℕ → Held api → World api → World api
  put n (alive s c) w = record w {
    server = s;
    reactor = c.reactor;
    conns = set_conn n (some c) w.conns;
  }
  put n (gone s r) w = record w { server = s; reactor = r; conns = set_conn n none w.conns }

  -- What is done to the connection `n`.
  abbrev pub at_conn : (Held api → Result (Held api)) → ℕ → World api → Result (World api)
  at_conn f n w = do
    c ← deref (w.conns n)
    h ← f (alive w.server (with_reactor c w.reactor))
    ok (put n h w)

  -- A member called by the user, who holds the connection.
  abbrev pub by_user : (Conn api → Result (Conn api)) → Held api → Result (Held api)
  by_user f (alive s c) = do c' ← f c; ok (alive s c')
  by_user f (gone s r) = err dangling

  module _ {Time : Type 0} (user : Option (Conn api → Result (Conn api)))
      (message : Option (Time → Conn api → Result (Conn api))) (here : ℕ) where
    unfoldable pub handle : Event Time → Held api → Result (Held api)
    unfolding read_held write_held close_held
    handle (input bs now) h = read_held user message here bs now h
    handle (writable count_first answer) h = write_held user message here count_first answer h
    handle hang_up h = close_held user message here h
    handle (send_call msg answer) h = by_user (send here msg answer) h
    handle shut_down_call h = by_user (shut_down here) h

    -- `handleNewConn` with the connection `n`, whose channel is at `p`, and all that it leads to.
    unfoldable pub take_connection :
        (tid_of : ℕ → ℕ) → (n p fd : ℕ) → World api → Result (World api)
    unfolding new_connection
    take_connection tid_of n p fd w = do
      let name = conn_name w.server.name w.server.ip_port w.server.next_conn
      s ← handle_new_conn tid_of here n (record w.server { acts = [] })
      h ←
          perform_all (user_callbacks user message here) here s.acts
            (record { loop = w.loop; conn = new_connection name p fd w.reactor })
      ok (record {
        server = record s { acts = [] };
        loop = h.loop;
        reactor = h.conn.reactor;
        conns = set_conn n (some h.conn) w.conns;
      })
