-- ===== src/TcpConnection/Race.antt =====
-- `shutDown` from another thread, whose test of the state and whose change of it are two steps.
use mudo_reprint.Base.{
  ℕ, ◌≤◌, ◌≡◌, ◌≢◌, refl, true, subst, [], ◌∷◌, ◌++◌, ok, Result-cases, inl, inr, arith,
}
use mudo_reprint.Buffer.{Buffers}
use mudo_reprint.Epoller.{disable_all}
use mudo_reprint.TcpConnection.{
  Conn, Callbacks, ConnectState, connected, disconnecting, disconnected, is_state, shut_down,
  start_shut_down, handle_close, shuts_down,
}
use mudo_reprint.TcpConnection.Advance.{rank, Advances}
use mudo_reprint.TcpConnection.Lifecycle.{AreForward, notify-Advances}

rank-disconnected : (s : ConnectState) → rank disconnected ≤ rank s → s ≡ disconnected
rank-disconnected s h = ground (arith, h)

module _ {api : Buffers} {Time : Type 0} (callbacks : Callbacks api Time)
    (forward : AreForward callbacks) where
  handle_close-disconnected :
      (here : ℕ) (c c' : Conn api) → handle_close callbacks here c ≡ ok c' → c'.state ≡ disconnected
  unfolding handle_close
  handle_close-disconnected here c c' h =
      elim (Result-cases (disable_all here c.channel c.reactor)) [
        | inr (f, e) ↦ absurd (ground (arith, e, h))
        | inl (r, e) ↦
            let d : Conn api = record c { state = disconnected; reactor = r } in
            let done = rw e at h in
            rank-disconnected c'.state
              (subst (Advances d) done (notify-Advances callbacks forward d))
      ]

  -- Another thread calls `shutDown` and finds the connection connected; before it goes on, `handleClose`
  -- runs in the loop's thread and returns, with callbacks that do not move the state back. The state
  -- is then kDisconnected, and the rest of `shutDown` moves it back to kDisConnecting.
  pub start_shut_down-handle_close :
      (here : ℕ) (c c' : Conn api)
      → is_state c.state connected ≡ true
      → handle_close callbacks c.reactor.tid c ≡ ok c'
      → here ≢ c'.reactor.tid
      → (c'' : Conn api) × (shut_down here c ≡ start_shut_down here c)
        × (c'.state ≡ disconnected)
        × (start_shut_down here c' ≡ ok c'')
        × (c''.state ≡ disconnecting)
        × (c''.queued ≡ c'.queued ++ shuts_down ∷ [])
  unfolding shut_down
  start_shut_down-handle_close here c c' up closed away = (
    record c' { state = disconnecting; queued = c'.queued ++ shuts_down ∷ [] },
    ground (arith, up),
    handle_close-disconnected c.reactor.tid c c' closed,
    ground (arith, away),
    refl,
    refl,
  )
