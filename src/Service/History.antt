-- ===== src/Service/History.antt =====
-- The server over any sequence of connections and events.
use mudo_reprint.Base.{
  ℕ, List, ◌^◌, ◌<◌, ◌≡◌, subst, inl, inr, some, none, Option, arith, lookup, text_eq, Result, ok,
  ◌>>=◌, Result-cases, Option-cases, nat_eq, Reach, Reach-keeps,
}
use mudo_reprint.Buffer.{Buffers}
use mudo_reprint.Epoller.Kernel.{interest}
use mudo_reprint.Epoller.Serving.{Holds-interest}
use mudo_reprint.TcpConnection.{
  Conn, disconnected, with_reactor, Received, received, end_of_stream, read_failed, handle_read,
  call_message, handle_write, shut_down,
}
use mudo_reprint.TcpConnection.Sending.{send}
use mudo_reprint.TcpServer.Connections.{without_conn}
use mudo_reprint.Lifetime.Served.{
  Held, alive, gone, user_callbacks, read_held, write_held, close_held, release,
}
use mudo_reprint.Service.{
  World, Event, input, writable, hang_up, send_call, shut_down_call, put, at_conn, handle,
  take_connection,
}
use mudo_reprint.Service.Serving.{
  IsUp, KeepsUp, send-KeepsUp, shut_down-KeepsUp, handle_write-KeepsUp, handle_read-KeepsUp,
  ok-KeepsUp,
}
use mudo_reprint.Service.Valid.{IsValid, continued-IsValid}
use mudo_reprint.Service.Close.{left_reactor, closed-IsValid, close_held-left}
use mudo_reprint.Service.Accept.{
  take_connection-refused, take_connection-notified, notified, taken-IsValid,
}

module _ {api : Buffers} {Time : Type 0} (tid_of : ℕ → ℕ) (here : ℕ)
    (f : Conn api → Result (Conn api))
    (message : Option (Time → Conn api → Result (Conn api))) where
  -- What the server is asked to do next: take a connection for a descriptor, as the object `n` with
  -- its channel at `p`, both new; or serve an event of a connection.
  pub data Step (w w' : World api) : Type 0 where
    takes :
        (n p fd : ℕ)
        → w.conns n ≡ none
        → w.reactor.channels p ≡ none
        → w.server.next_conn < 2 ^ 31
        → take_connection (some f) message here tid_of n p fd w ≡ ok w'
        → Step w w'
    serves :
        (n : ℕ) (e : Event Time) → at_conn (handle (some f) message here e) n w ≡ ok w' → Step w w'

  -- The user's callbacks keep a connection up on which they return, and the connection callback does
  -- nothing to one that is closed.
  pub record AreGentle : Type 0 where
    pub notified_up : KeepsUp here f
    pub read_up : (now : Time) → KeepsUp here (call_message message now)
    pub closed_quiet : (d : Conn api) → d.state ≡ disconnected → f d ≡ ok d

  module _ (own : ℕ → ℕ → Type 0) where
    module _ (gentle : AreGentle) (w : World api) (v : IsValid tid_of here own w) where
      taken-keeps :
          (n p fd : ℕ) (w' : World api)
          → w.conns n ≡ none
          → w.reactor.channels p ≡ none
          → w.server.next_conn < 2 ^ 31
          → take_connection (some f) message here tid_of n p fd w ≡ ok w'
          → IsValid tid_of here own w'
      taken-keeps n p fd w' unborn free lt e =
          elim (Option-cases (lookup fd w.reactor.channel_map)) [
            | inr (q, taken) ↦ absurd (
                ground (
                  arith,
                  e,
                  take_connection-refused tid_of here own f message w v n p fd free q taken,
                ))
            | inl unused ↦
                let by =
                  take_connection-notified tid_of here own f message w v n p fd free unused in
                elim (Result-cases (notified tid_of here own f message w v n p fd)) [
                  | inr (fault, g) ↦ absurd (ground (arith, e, rw g at by))
                  | inl (d, g) ↦ subst (IsValid tid_of here own) (ground (arith, e, rw g at by)) (
                      taken-IsValid tid_of here own f message w v n p fd free unused
                        gentle.notified_up d g unborn lt)
                ]
          ]

      module _ (n : ℕ) (c : Conn api) (there : w.conns n ≡ some c) where
        abbrev conn : Conn api
        conn = with_reactor c w.reactor

        abbrev fd : ℕ
        fd = (v.up n c there).0

        abbrev is_up : IsUp here fd conn
        is_up = (v.up n c there).1

        is_left :
            (h k : Held api)
            → k ≡ h
            → IsValid tid_of here own (put n k w)
            → IsValid tid_of here own (put n h w)
        is_left h k same = subst (λ x. IsValid tid_of here own (put n x w)) same

        -- A callback that keeps connections up.
        kept-IsValid :
            (g : Conn api → Result (Conn api)) (h : Held api)
            → KeepsUp here g
            → (do d ← g conn; ok (alive w.server d)) ≡ ok h
            → IsValid tid_of here own (put n h w)
        kept-IsValid g h keeps e = elim (Result-cases (g conn)) [
          | inr (fault, r) ↦ absurd (ground (arith, e, r))
          | inl (d, r) ↦
              is_left h (alive w.server d) (ground (arith, e, r))
                (continued-IsValid tid_of here own w v n fd c d there (keeps fd conn d is_up r))
        ]

        closing-IsValid :
            (h : Held api)
            → close_held (some f) message here (alive w.server conn) ≡ ok h
            → IsValid tid_of here own (put n h w)
        closing-IsValid h e =
            let left =
              close_held-left tid_of here own w v n c there (some f) message gentle.closed_quiet in
            is_left h
              (gone (without_conn c.name w.server) (left_reactor tid_of here own w v n c there))
              (ground (arith, e, left)) (closed-IsValid tid_of here own w v n c there)

        read-IsValid :
            (bs : Received) (now : Time) (h : Held api)
            → read_held (some f) message here bs now (alive w.server conn) ≡ ok h
            → IsValid tid_of here own (put n h w)
        unfolding read_held release handle_read
        read-IsValid (received b bs) now h e =
            elim (Result-cases
              (handle_read (user_callbacks (some f) message here) here (received b bs) now conn)) [
                | inr (fault, r) ↦ absurd (ground (arith, e, r))
                | inl (d, r) ↦
                    let on =
                      handle_read-KeepsUp here (user_callbacks (some f) message here) b bs now
                        (gentle.read_up now) fd conn d is_up r in
                    let listed : lookup d.name w.server.connections ≡ some n =
                      rw on.same_name ((v.up n c there).2) in
                    let stays : release w.server d ≡ ok (alive w.server d) =
                      ground (arith, listed) in
                    is_left h (alive w.server d) (ground (arith, e, r, stays))
                      (continued-IsValid tid_of here own w v n fd c d there on)
              ]
        read-IsValid end_of_stream now h e = closing-IsValid h (ground (arith, e))
        read-IsValid (read_failed errno) now h e =
            kept-IsValid (λ x. ok x) h (ok-KeepsUp here) (ground (arith, e))

        handled-IsValid :
            (e : Event Time) (h : Held api)
            → handle (some f) message here e (alive w.server conn) ≡ ok h
            → IsValid tid_of here own (put n h w)
        unfolding handle write_held
        handled-IsValid (input bs now) h r = read-IsValid bs now h r
        handled-IsValid (writable count_first answer) h r =
            kept-IsValid (handle_write count_first here answer) h
              (handle_write-KeepsUp here count_first answer) r
        handled-IsValid hang_up h r = closing-IsValid h r
        handled-IsValid (send_call msg answer) h r =
            kept-IsValid (send here msg answer) h (send-KeepsUp here msg answer) r
        handled-IsValid shut_down_call h r =
            kept-IsValid (shut_down here) h (shut_down-KeepsUp here) r

    step-IsValid :
        AreGentle
        → (w w' : World api) → Step w w'
        → IsValid tid_of here own w
        → IsValid tid_of here own w'
    step-IsValid gentle w w' (takes n p fd unborn free lt e) v =
        taken-keeps gentle w v n p fd w' unborn free lt e
    step-IsValid gentle w w' (serves n e r) v = elim (Option-cases (w.conns n)) [
      | inl none_there ↦ absurd (ground (arith, none_there, r))
      | inr (c, there) ↦
          elim (Result-cases
            (handle (some f) message here e (alive w.server (with_reactor c w.reactor)))) [
              | inr (fault, g) ↦ absurd (ground (arith, there, g, r))
              | inl (h, g) ↦
                  subst (IsValid tid_of here own) (ground (arith, there, g, r))
                    (handled-IsValid gentle w v n c there e h g)
            ]
    ]

    -- A server whose pool is started and has no threads, from any valid state, with a connection
    -- callback that is set, and with callbacks that keep a connection up on which they return, and of
    -- which that for connections does nothing to a closed one. However many connections it takes, and
    -- whatever happens to them, in whatever order, as long as the program runs on: the state is valid;
    -- the connections in the map are just those that are alive, each under its own name; each of them
    -- is up, and the kernel watches a descriptor with the address of its channel; no two share a
    -- channel; and the kernel still watches the loop's own channels, which `own` lists.
    pub Reach-IsValid :
        (w w' : World api)
        → AreGentle
        → IsValid tid_of here own w
        → Reach Step w w'
        → IsValid tid_of here own w'
          × ((n : ℕ) (c : Conn api)
              → w'.conns n ≡ some c
              → (fd : ℕ) × (mask : ℕ) × (interest w'.reactor.ctls fd ≡ some (mask, c.channel))
                × (lookup c.name w'.server.connections ≡ some n))
          × ((k : List ℕ) (n : ℕ)
              → lookup k w'.server.connections ≡ some n
              → (c : Conn api) × (w'.conns n ≡ some c) × (c.name ≡ k))
          × ((p fd : ℕ) → own p fd → (mask : ℕ) × (interest w'.reactor.ctls fd ≡ some (mask, p)))
    Reach-IsValid w w' gentle v r =
        let v' = Reach-keeps (IsValid tid_of here own) (step-IsValid gentle) r v in
        (
          v',
          (λ n c there.
              let (fd, u, listed) = v'.up n c there in
              (
                fd,
                u.holds.channel.events,
                Holds-interest here c.channel fd w'.reactor u.holds,
                listed,
              )),
          v'.listed,
          (λ p fd o.
              let h = v'.kept p fd o in (h.channel.events, Holds-interest here p fd w'.reactor h)),
        )
