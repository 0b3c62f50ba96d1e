-- ===== src/TcpServer/Handover.antt =====
-- A connection on its way from `handleNewConn` through the queue of its loop to `connectEstablished`.
use mudo_reprint.Base.{
  ℕ, ◌+◌, ◌≡◌, refl, ◌≢◌, true, some, List, [], ◌∷◌, ◌++◌, arith, Result, ok, err, ◌>>=◌, bit_or,
}
use mathlib.Core.List.{append_assoc}
use mudo_reprint.Buffer.{Buffers}
use mudo_reprint.Channel.{Channel, call_if_set, epollin}
use mudo_reprint.Epoller.{k_new}
use mudo_reprint.Epoller.Kernel.{interest}
use mudo_reprint.Epoller.Invariant.{Inv}
use mudo_reprint.Epoller.Update.{IsUsable}
use mudo_reprint.EventLoop.{Loop, queue_in_loop, push_pending, wakeup}
use mudo_reprint.ThreadPool.{Pool, get_next_loop}
use mudo_reprint.TcpConnection.{Conn, Callbacks, connecting, connect_established}
use mudo_reprint.TcpConnection.Establish.{established, connect_established-established}
use mudo_reprint.TcpServer.{Server, Act, establish_now, establish_queued, notify, handle_new_conn}
use mudo_reprint.TcpServer.Connections.{accepted, accepted_lem}

bind_ok : {A : Type 0} (m : Result A) → (m >>= λ a. ok a) ≡ m
bind_ok (err fault) = refl
bind_ok (ok a) = refl

queued_alone :
    (here n : ℕ) (l : Loop ℕ) → l.pending ≡ [] → (queue_in_loop here n l).pending ≡ n ∷ []
unfolding queue_in_loop push_pending wakeup
queued_alone here n l e = ground arith

module _ (api : Buffers) where
  -- A connection with the queue of its loop, whose functors are calls of `connectEstablished` for the
  -- connections of these numbers.
  pub record Hosted : Type 0 where
    pub loop : Loop ℕ
    pub conn : Conn api

module _ {api : Buffers} {Time : Type 0} (callbacks : Callbacks api Time) where
  -- What `handleNewConn` does to the connection, by the thread `here`.
  unfoldable pub perform : ℕ → Act → Hosted api → Result (Hosted api)
  perform here (establish_now loop n) h = do
    c ← connect_established callbacks here h.conn
    ok (record h { conn = c })
  perform here (establish_queued loop n) h = ok (record h { loop = queue_in_loop here n h.loop })
  perform here (notify n) h = do
    c ← call_if_set callbacks.conn_cb h.conn
    ok (record h { conn = c })

  unfoldable pub perform_all : ℕ → List Act → Hosted api → Result (Hosted api)
  unfolding perform
  perform_all here [] h = ok h
  perform_all here (a ∷ rest) h = do h' ← perform here a h; perform_all here rest h'

  -- The pending functors, called by the loop's thread.
  pub establish_pending : ℕ → List ℕ → Conn api → Result (Conn api)
  establish_pending here [] c = ok c
  establish_pending here (n ∷ ns) c = do
    c' ← connect_established callbacks here c
    establish_pending here ns c'

  -- Let the server's connection callback `f` be set, and let it leave a connection that is still
  -- connecting, with a live new channel in a reactor with its invariant, as one with these properties.
  -- When the pool gives a loop of another thread with no functor pending, `handleNewConn` leaves the
  -- connection's establishing in the queue of this loop, wakes it, and calls `f` in the server's thread.
  -- Once the loop calls its functors, the kernel watches the connection's descriptor for input, and `f`
  -- is called again, in the loop's thread.
  pub handle_new_conn-connect_established :
      (tid_of : ℕ → ℕ) (here n loop : ℕ) (pool : Pool) (s : Server) (h : Hosted api) (c : Conn api)
      (ch : Channel) (f : Conn api → Result (Conn api))
      → get_next_loop here s.pool ≡ ok (loop, pool)
      → s.has_conn_cb ≡ true
      → callbacks.conn_cb ≡ some f
      → tid_of loop ≢ here
      → h.loop.tid ≡ tid_of loop
      → h.loop.pending ≡ []
      → f h.conn ≡ ok c
      → Inv c.reactor
      → IsUsable c.reactor (tid_of loop) c.channel ch
      → c.state ≡ connecting
      → ch.index ≡ k_new
      → (s' : Server) × (acts : List Act) × (h' : Hosted api) × (handle_new_conn tid_of here n s
          ≡ ok s')
        × (s'.acts ≡ s.acts ++ acts)
        × (perform_all here acts h ≡ ok h')
        × (h'.loop.wakeups ≡ h.loop.wakeups + 1)
        × (establish_pending (tid_of loop) h'.loop.pending h'.conn ≡ f (established ch c))
        × (interest (established ch c).reactor.ctls ch.fd
            ≡ some (bit_or ch.events epollin, c.channel))
  unfolding perform_all perform establish_pending queue_in_loop push_pending wakeup
  handle_new_conn-connect_established tid_of here n loop pool s h c ch f answer set cb other tid
        idle first v u st new =
      let (e, _, i) = connect_established-established callbacks (tid_of loop) c ch v u st new in
      (
        accepted tid_of here n loop pool s,
        establish_queued loop n ∷ notify n ∷ [],
        record { loop = queue_in_loop here n h.loop; conn = c },
        accepted_lem tid_of here n loop pool s answer,
        ground (arith, append_assoc s.acts (establish_queued loop n ∷ []) (notify n ∷ [])),
        rw (cb, first) refl,
        ground arith,
        rw (queued_alone here n h.loop idle, e, cb) (bind_ok (f (established ch c))),
        i,
      )
