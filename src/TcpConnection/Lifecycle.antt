-- ===== src/TcpConnection/Lifecycle.antt =====
-- The states of a connection over any sequence of what can happen to it.
use native.Mathlib.Nat.{le_refl, le_trans}
use mudo_reprint.Base.{
  ℕ, ◌≤◌, Bool, List, [], ◌∷◌, Result, ok, err, arith, ◌>>=◌, Result-cases, inl, inr,
}
use mudo_reprint.Buffer.{Buffers}
use mudo_reprint.Channel.{call_if_set, call}
use mudo_reprint.Epoller.{enable_reading, disable_all}
use mudo_reprint.TcpConnection.{
  Conn, Callbacks, ConnectState, connected, disconnected, Wrote, Received, received, end_of_stream,
  read_failed, shut_down_in_loop, shut_down, handle_write, handle_close, handle_read,
  connect_established, Functor, sends, shuts_down,
}
use mudo_reprint.TcpConnection.Sending.{send_in_loop, send}
use mudo_reprint.TcpConnection.Advance.{
  rank, Advances, IsForward, IsForwardMessage, call_if_set-Advances, call-Advances,
  call_message-Advances, then-Advances, send-Advances, send_in_loop-Advances, shut_down-Advances,
  shut_down_in_loop-Advances, handle_write-Advances,
}

-- What can happen to a connection: its functors, its channel's callbacks and calls of `shutDown` in the
-- loop's thread, and calls of `send` from any thread. (TcpConnection.Race has `shutDown` from another.)
pub data Event (Time : Type 0) : Type 0 where
  establish : Event Time
  input : Received → Time → Event Time
  writable : (count_first : Bool) → Wrote → Event Time
  hang_up : Event Time
  send_call : (here : ℕ) → List ℕ → Wrote → Event Time
  shut_down_call : Event Time
  functor : Functor → Wrote → Event Time

module _ {api : Buffers} {Time : Type 0} (callbacks : Callbacks api Time) where
  open api use {append}

  run_functor : ℕ → Functor → Wrote → Conn api → Result (Conn api)
  run_functor here (sends msg) answer c = send_in_loop here msg answer c
  run_functor here shuts_down answer c = shut_down_in_loop here c

  pub step : Event Time → Conn api → Result (Conn api)
  unfolding run_functor
  step establish c = connect_established callbacks c.reactor.tid c
  step (input bs now) c = handle_read callbacks c.reactor.tid bs now c
  step (writable count_first answer) c = handle_write count_first c.reactor.tid answer c
  step hang_up c = handle_close callbacks c.reactor.tid c
  step (send_call here msg answer) c = send here msg answer c
  step shut_down_call c = shut_down c.reactor.tid c
  step (functor f answer) c = run_functor c.reactor.tid f answer c

  pub history : List (Event Time) → Conn api → Result (Conn api)
  history [] c = ok c
  history (e ∷ es) c = do c' ← step e c; history es c'

  -- The user's callbacks do not take the state of a connection back.
  pub record AreForward : Type 0 where
    pub conn : IsForward callbacks.conn_cb
    pub msg : IsForwardMessage callbacks.msg_cb
    pub close : IsForward callbacks.close_cb

  -- From a later state to the same call.
  earlier-Advances :
      (c d : Conn api) (m : Result (Conn api))
      → rank c.state ≤ rank d.state
      → Advances d m
      → Advances c m
  earlier-Advances c d (ok e) h a = le_trans h a
  earlier-Advances c d (err e) h a = tt

  rank-le : (s : ConnectState) → rank s ≤ rank disconnected
  rank-le s = ground arith

  module _ (forward : AreForward) where
    pub notify-Advances :
        (c : Conn api)
        → Advances c (do c' ← call_if_set callbacks.conn_cb c; call_if_set callbacks.close_cb c')
    notify-Advances c =
        then-Advances c (call_if_set callbacks.conn_cb c) (call_if_set callbacks.close_cb)
          (call_if_set-Advances callbacks.conn_cb c forward.conn)
          (λ d. call_if_set-Advances callbacks.close_cb d forward.close)

    handle_close-Advances : (here : ℕ) (c : Conn api) → Advances c (handle_close callbacks here c)
    unfolding handle_close
    handle_close-Advances here c = elim (Result-cases (disable_all here c.channel c.reactor)) [
      | inr (f, e) ↦ rw e tt
      | inl (r, e) ↦
          let d : Conn api = record c { state = disconnected; reactor = r } in
          rw e (earlier-Advances c d _ (rank-le c.state) (notify-Advances d))
    ]

    connect_established-Advances :
        (here : ℕ) (c : Conn api) → Advances c (connect_established callbacks here c)
    unfolding connect_established
    connect_established-Advances here c =
        elim (Result-cases (enable_reading here c.channel c.reactor)) [
          | inr (f, e) ↦ ground (arith, e)
          | inl (r, e) ↦
              let d : Conn api = record c { state = connected; reactor = r } in
              ground (
                arith,
                e,
                earlier-Advances c d (call callbacks.conn_cb d),
                call-Advances callbacks.conn_cb d forward.conn,
              )
        ]

    handle_read-Advances :
        (here : ℕ) (bs : Received) (now : Time) (c : Conn api)
        → Advances c (handle_read callbacks here bs now c)
    unfolding handle_read
    handle_read-Advances here (received b bs) now c =
        let d : Conn api = record c { in_buffer = append (b ∷ bs) c.in_buffer } in
        ground (arith, call_message-Advances callbacks.msg_cb now d forward.msg)
    handle_read-Advances here end_of_stream now c = ground (arith, handle_close-Advances here c)
    handle_read-Advances here (read_failed e) now c = ground arith

    step-Advances : (e : Event Time) (c : Conn api) → Advances c (step e c)
    unfolding step
    step-Advances establish c = connect_established-Advances c.reactor.tid c
    step-Advances (input bs now) c = handle_read-Advances c.reactor.tid bs now c
    step-Advances (writable count_first answer) c =
        handle_write-Advances count_first c.reactor.tid answer c
    step-Advances hang_up c = handle_close-Advances c.reactor.tid c
    step-Advances (send_call here msg answer) c = send-Advances here msg answer c
    step-Advances shut_down_call c = shut_down-Advances c.reactor.tid c
    step-Advances (functor (sends msg) answer) c = send_in_loop-Advances c.reactor.tid msg answer c
    step-Advances (functor shuts_down answer) c = shut_down_in_loop-Advances c.reactor.tid c

    -- Whatever of these happens to a connection, in whatever order, with `shutDown` called only in the
    -- loop's own thread, its state only moves along kConnecting,
    -- kConnected, kDisConnecting, kDisconnected, if no callback of the user moves it back.
    pub history-Advances : (es : List (Event Time)) (c : Conn api) → Advances c (history es c)
    unfolding history
    history-Advances [] c = le_refl _
    history-Advances (e ∷ es) c =
        then-Advances c (step e c) (history es) (step-Advances e c) (λ d. history-Advances es d)
