-- ===== src/Service/Close.antt =====
-- The close of a connection that is up.
use mudo_reprint.Base.{
  ℕ, ◌≡◌, refl, ◌≢◌, ◌∙◌, sym, inl, inr, some, none, List, Option, ◌==◌, arith, lookup, erase,
  text_eq, Bool-cases, Result, ok, nat_eq, lookup-erase_self, lookup-erase_ne,
}
use mudo_reprint.Buffer.{Buffers}
use mudo_reprint.Channel.{Channel, call_if_set}
use mudo_reprint.Epoller.{Reactor}
use mudo_reprint.Epoller.Kernel.{interest}
use mudo_reprint.Epoller.Update.{settled}
use mudo_reprint.Epoller.Effects.{
  Touches, Touches-trans, settled-Touches, settled_live, settled_index,
}
use mudo_reprint.Epoller.Serving.{
  Holds-Touches, Serves, Holds-IsUsable, update_with-settled, update_with-Serves,
}
use mudo_reprint.Epoller.Leaving.{deleted-Serves}
use mudo_reprint.TcpConnection.{Conn, disconnected, with_reactor, handle_close}
use mudo_reprint.TcpConnection.Close.{closed}
use mudo_reprint.TcpServer.{remove_connection}
use mudo_reprint.TcpServer.Connections.{without_conn, without_conn-Inv}
use mudo_reprint.Lifetime.{delete_channel}
use mudo_reprint.Lifetime.Channels.{delete_channel-Touches}
use mudo_reprint.Lifetime.Served.{alive, gone, close_held, release, destroy_connection}
use mudo_reprint.Service.{World, put, at_conn}
use mudo_reprint.Service.Serving.{IsUp}
use mudo_reprint.Service.Valid.{IsValid, IsUp-Touches}

module _ {api : Buffers} (tid_of : ℕ → ℕ) (here : ℕ) (own : ℕ → ℕ → Type 0) (w : World api)
    (v : IsValid tid_of here own w) (n : ℕ) (c : Conn api) (there : w.conns n ≡ some c) where
  abbrev fd : ℕ
  fd = (v.up n c there).0

  abbrev is_up : IsUp here fd (with_reactor c w.reactor)
  is_up = (v.up n c there).1

  abbrev channel : Channel
  channel = is_up.holds.channel

  abbrev quieted : Reactor
  quieted = settled (λ _. 0) c.channel channel w.reactor

  -- The reactor without the connection's channel.
  abbrev pub left_reactor : Reactor
  left_reactor = delete_channel c.channel quieted

  abbrev pub closed_world : World api
  closed_world = put n (gone (without_conn c.name w.server) left_reactor) w

  listed_here : lookup c.name w.server.connections ≡ some n
  listed_here = (v.up n c there).2

  left-Touches : Touches c.channel channel.fd w.reactor left_reactor
  left-Touches =
      Touches-trans (settled-Touches (λ _. 0) c.channel w.reactor channel)
        (delete_channel-Touches c.channel channel.fd quieted)

  left-Serves : Serves left_reactor
  unfolding delete_channel
  left-Serves =
      deleted-Serves c.channel quieted
        (record channel { events = 0; index = settled_index (λ _. 0) channel })
        (update_with-Serves (λ _. 0) here c.channel w.reactor channel v.serves
          (Holds-IsUsable is_up.holds))
        (settled_live (λ _. 0) c.channel w.reactor channel) (ground (arith, is_up.holds.added))

  mapped_still : lookup fd left_reactor.channel_map ≡ some c.channel
  unfolding delete_channel
  mapped_still = ground (
    arith,
    v.serves.registered c.channel channel is_up.holds.live,
    is_up.holds.same_fd,
    is_up.holds.added,
  )

  deleted : left_reactor.channels c.channel ≡ none
  unfolding delete_channel
  deleted = ground arith

  -- A connection that is left is another one, with another name and another channel.
  left-was :
      (m : ℕ) (e : Conn api)
      → closed_world.conns m ≡ some e
      → (w.conns m ≡ some e) × (e.channel ≢ c.channel) × (e.name ≢ c.name)
  left-was m e at_m = elim (Bool-cases (m == n)) [
    | inl same ↦ absurd (ground (arith, at_m, same))
    | inr other ↦
        let was : w.conns m ≡ some e = ground (arith, at_m, other) in
        (
          was,
          (λ shared. ground (arith, v.apart m n e c was there shared, other)),
          (λ shared. ground (arith, rw shared at ((v.up m e was).2), listed_here, other)),
        )
  ]

  left-up :
      (m : ℕ) (e : Conn api)
      → closed_world.conns m ≡ some e
      → (k : ℕ) × IsUp here k (with_reactor e left_reactor)
        × (lookup e.name (erase c.name w.server.connections) ≡ some m)
  left-up m e at_m =
      let (was, other_channel, other_name) = left-was m e at_m in
      let (k, u, l) = v.up m e was in
      (
        k,
        IsUp-Touches tid_of here own e left-Touches left-Serves other_channel u,
        lookup-erase_ne e.name c.name w.server.connections other_name ∙ l,
      )

  left-listed :
      (k : List ℕ) (m : ℕ)
      → lookup k (erase c.name w.server.connections) ≡ some m
      → (e : Conn api) × (closed_world.conns m ≡ some e) × (e.name ≡ k)
  left-listed k m l =
      let other_name : k ≢ c.name = λ same.
        ground
          (arith, lookup-erase_self c.name w.server.connections v.named.is_map, rw same at l) in
      let (e, at_m, named) =
        v.listed k m (sym (lookup-erase_ne k c.name w.server.connections other_name) ∙ l) in
      elim (Bool-cases (m == n)) [
        | inl same ↦ absurd (other_name (sym named ∙ ground (arith, at_m, there, same)))
        | inr other ↦ (e, ground (arith, at_m, other), named)
      ]

  pub closed-IsValid : IsValid tid_of here own closed_world
  closed-IsValid = record {
    serves = left-Serves;
    in_thread = v.in_thread ∙ sym left-Touches.same_tid;
    in_server = v.in_server;
    home = v.home;
    alone = v.alone;
    started = v.started;
    named = without_conn-Inv c.name w.server v.named;
    up = left-up;
    listed = left-listed;
    kept = λ p k o.
        Holds-Touches left-Touches left-Serves (λ same. v.own_apart p k n c o there (sym same))
          (v.kept p k o);
    own_apart = λ p k m e o at_m. v.own_apart p k m e o (left-was m e at_m).0;
    apart = λ m m' e e' at_m at_m' shared.
        v.apart m m' e e' (left-was m e at_m).0 (left-was m' e' at_m').0 shared;
  }

  module _ {Time : Type 0} (user : Option (Conn api → Result (Conn api)))
      (message : Option (Time → Conn api → Result (Conn api)))
      (quiet : (d : Conn api) → d.state ≡ disconnected → call_if_set user d ≡ ok d) where
    pub close_held-left :
        close_held user message here (alive w.server (with_reactor c w.reactor))
        ≡ ok (gone (without_conn c.name w.server) left_reactor)
    unfolding close_held release destroy_connection remove_connection handle_close
    close_held-left =
        let watched =
          update_with-settled (λ _. 0) here c.channel w.reactor channel v.serves
            (Holds-IsUsable is_up.holds) in
        let returns = quiet (closed channel (with_reactor c w.reactor)) refl in
        let gone_from = lookup-erase_self c.name w.server.connections v.named.is_map in
        let watched' = rw is_up.holds.live at watched in
        rw (is_up.holds.live, watched', returns)
          (ground (arith, v.in_server, listed_here, gone_from))

    -- In any valid state, and with a connection callback that does nothing to a connection that is
    -- closed, the close of a connection returns, in a valid state without the connection: the kernel
    -- does not watch its descriptor, and the epoller's map still has the descriptor.
    pub close_at-IsValid :
        (w' : World api) × (at_conn (close_held user message here) n w ≡ ok w')
        × IsValid tid_of here own w'
        × (w'.conns n ≡ none)
        × (interest w'.reactor.ctls fd ≡ none)
        × (lookup fd w'.reactor.channel_map ≡ some c.channel)
    close_at-IsValid = (
      closed_world,
      rw (there, close_held-left) refl,
      closed-IsValid,
      ground arith,
      left-Serves.agrees fd ∙ ground (arith, mapped_still, deleted),
      mapped_still,
    )
