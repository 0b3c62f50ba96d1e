-- ===== src/Service/Accept.antt =====
-- `handleNewConn` in the server's own loop, with the connection's establishing and the user's callback.
use mudo_reprint.Base.{
  ℕ, ◌^◌, ◌<◌, ◌≡◌, refl, subst, ◌≢◌, ◌∙◌, inl, inr, some, none, [], Option, if◌then◌else◌, arith,
  lookup, text_eq, Bool-cases, Result-cases, Result, ok, err, assertion, ◌>>=◌, bit_or,
  bit_or-ne_zero, nat_eq, lookup-insert, text_beq_iff,
}
use mudo_reprint.Buffer.{Buffers}
use mudo_reprint.Channel.{Channel, new_channel, epollin}
use mudo_reprint.Epoller.{Reactor, update_with, store}
use mudo_reprint.Epoller.Kernel.{interest}
use mudo_reprint.Epoller.Update.{settled, IsUsable}
use mudo_reprint.Epoller.Remove.{update_with_taken}
use mudo_reprint.Epoller.Effects.{Touches, Touches-trans}
use mudo_reprint.Epoller.Serving.{Holds, Holds-interest, made-Serves, update_with-Holds}
use mudo_reprint.TcpConnection.{Conn, connected, connect_established}
use mudo_reprint.TcpServer.Connections.{next_name, accepted_lem, fresh_name}
use mudo_reprint.TcpServer.Handover.{perform_all, perform}
use mudo_reprint.ThreadPool.{get_next_loop}
use mudo_reprint.Lifetime.{make_channel}
use mudo_reprint.Lifetime.Channels.{make_channel-Touches}
use mudo_reprint.Lifetime.Served.{user_callbacks}
use mudo_reprint.Service.{World, new_connection, take_connection}
use mudo_reprint.Service.Serving.{IsUp, Continues, KeepsUp, Continues-trans}
use mudo_reprint.Service.Valid.{IsValid}
use mudo_reprint.Service.Joined.{joined_world, joined-IsValid}

module _ {api : Buffers} {Time : Type 0} (tid_of : ℕ → ℕ) (here : ℕ) (own : ℕ → ℕ → Type 0)
    (f : Conn api → Result (Conn api)) (message : Option (Time → Conn api → Result (Conn api)))
    (w : World api) (v : IsValid tid_of here own w) (n p fd : ℕ) where
  abbrev fresh : Channel
  fresh = new_channel w.reactor.self fd

  abbrev made : Reactor
  made = store p fresh w.reactor

  abbrev watching : Reactor
  watching = settled (λ m. bit_or m epollin) p fresh made

  abbrev new_conn : Conn api
  new_conn = new_connection (next_name w.server) p fd w.reactor

  -- What the connection callback is called on.
  abbrev pub established : Conn api
  established = record new_conn { state = connected; reactor = watching }

  -- The calls of the connection callback.
  abbrev pub notified : Result (Conn api)
  notified = do c ← f established; if w.server.has_conn_cb then f c else ok c

  get_next_loop-base :
      get_next_loop here w.server.pool ≡ ok (w.server.pool.base_loop, w.server.pool)
  unfolding get_next_loop
  get_next_loop-base = ground (arith, v.in_server, v.alone, v.started)

  take_connection-by : take_connection (some f) message here tid_of n p fd w ≡ (do
    c ← connect_established (user_callbacks (some f) message here) here new_conn
    c' ← if w.server.has_conn_cb then f c else ok c
    ok (joined_world n w.loop c' w))
  unfolding take_connection perform_all perform
  take_connection-by =
      rw
        (accepted_lem tid_of here n w.server.pool.base_loop w.server.pool
          (record w.server { acts = [] }) get_next_loop-base)
        (ground (arith, v.home))

  module _ (free : w.reactor.channels p ≡ none) where
    -- A descriptor that the epoller's map has is refused.
    pub take_connection-refused :
        (q : ℕ)
        → lookup fd w.reactor.channel_map ≡ some q
        → take_connection (some f) message here tid_of n p fd w ≡ err assertion
    unfolding connect_established new_connection make_channel new_channel
    take_connection-refused q taken =
        let refused =
          update_with_taken (λ m. bit_or m epollin) here q p made fresh v.in_thread (ground arith)
            refl refl taken in
        take_connection-by ∙ ground (arith, refused, v.in_thread)

    module _ (unused : lookup fd w.reactor.channel_map ≡ none) where
      fresh-IsUsable : IsUsable made here p fresh
      unfolding new_channel
      fresh-IsUsable = record {
        in_thread = v.in_thread;
        live = ground arith;
        owned = refl;
        free_fd = λ _. unused;
      }

      watching-Holds :
          (update_with (λ m. bit_or m epollin) here p made ≡ ok watching)
          × Holds here p fd watching
          × Touches p fd made watching
      unfolding new_channel
      watching-Holds =
          update_with-Holds (λ m. bit_or m epollin) here p made fresh
            (made-Serves p fd w.reactor v.serves free) fresh-IsUsable
            (bit_or-ne_zero 0 epollin (λ e. omega arith))

      established-IsUp : IsUp here fd established
      unfolding new_connection
      established-IsUp = record { holds = watching-Holds.1; state = inl refl }

      established-Touches : Touches p fd w.reactor watching
      unfolding make_channel
      established-Touches = Touches-trans (make_channel-Touches p fd w.reactor) watching-Holds.2

      connected-established :
          connect_established (user_callbacks (some f) message here) here new_conn ≡ f established
      unfolding connect_established new_connection make_channel
      connected-established = ground (arith, watching-Holds.0, v.in_thread)

      -- Any other descriptor is watched, and the connection callback called on the connection.
      pub take_connection-notified :
          take_connection (some f) message here tid_of n p fd w
          ≡ (do c ← notified; ok (joined_world n w.loop c w))
      take_connection-notified = take_connection-by ∙ rw connected-established (ground arith)

      module _ (keeps : KeepsUp here f) (d : Conn api) (returns : notified ≡ ok d) where
        -- The connection as the callback leaves it.
        notified-Continues : Continues here fd established d
        notified-Continues = elim (Result-cases (f established)) [
          | inr (fault, e) ↦ absurd (ground (arith, e, returns))
          | inl (c, e) ↦
              let first = keeps fd established c established-IsUp e in
              elim (Bool-cases w.server.has_conn_cb) [
                | inl set ↦
                    let second = keeps fd c d first.up (ground (arith, e, returns, set)) in
                    Continues-trans here fd established c d first second
                | inr unset ↦
                    subst (Continues here fd established) (ground (arith, e, returns, unset)) first
              ]
        ]

        pub taken-IsValid :
            w.conns n ≡ none
            → w.server.next_conn < 2 ^ 31
            → IsValid tid_of here own (joined_world n w.loop d w)
        unfolding new_connection
        taken-IsValid unborn lt =
            let on = notified-Continues in
            joined-IsValid tid_of here own w v n p fd w.loop d unborn free lt on.same_name
              on.same_channel on.up (Touches-trans established-Touches on.touches)

        -- Let the state be valid, the descriptor not be in the epoller's map, the object and the address
        -- of its channel be new, the connection counter be in the range of int, and the connection
        -- callback keep connections up and return. Then the server takes the connection, in a valid state again: the kernel watches
        -- the descriptor with the channel's address, the map has the connection under a name that was
        -- free, and no other connection is touched.
        pub take_connection-taken :
            w.conns n ≡ none
            → w.server.next_conn < 2 ^ 31
            → (w' : World api) × (take_connection (some f) message here tid_of n p fd w ≡ ok w')
              × IsValid tid_of here own w'
              × (w'.conns n ≡ some d)
              × ((mask : ℕ) × (interest w'.reactor.ctls fd ≡ some (mask, p)))
              × (lookup (next_name w.server) w.server.connections ≡ none)
              × (lookup (next_name w.server) w'.server.connections ≡ some n)
              × ((m : ℕ) → m ≢ n → w'.conns m ≡ w.conns m)
              × ((k : ℕ) → k ≢ fd → interest w'.reactor.ctls k ≡ interest w.reactor.ctls k)
        unfolding new_connection
        take_connection-taken unborn lt =
            let on = notified-Continues in
            let t = Touches-trans established-Touches on.touches in
            (
              joined_world n w.loop d w,
              rw (take_connection-notified, returns) refl,
              taken-IsValid unborn lt,
              ground arith,
              (
                on.up.holds.channel.events,
                rw on.same_channel at (Holds-interest here d.channel fd d.reactor on.up.holds),
              ),
              fresh_name w.server v.named lt,
              ground (
                arith,
                lookup-insert (next_name w.server) (next_name w.server) n w.server.connections,
                text_beq_iff (next_name w.server) (next_name w.server),
              ),
              (λ m other. ground arith),
              t.interest_same,
            )
