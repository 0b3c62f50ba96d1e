-- ===== src/Service/Joined.antt =====
-- A new connection that is up joins the others.
use mudo_reprint.Base.{
  ℕ, ◌^◌, ◌<◌, ◌≡◌, subst, ◌≢◌, ◌∙◌, sym, inl, inr, some, none, List, ◌==◌, if◌then◌else◌, arith,
  lookup, text_eq, Bool-cases, lookup-insert, text_beq_iff,
}
use mudo_reprint.Buffer.{Buffers}
use mudo_reprint.Epoller.Effects.{Touches}
use mudo_reprint.Epoller.Serving.{Holds-Touches}
use mudo_reprint.TcpConnection.{Conn, with_reactor}
use mudo_reprint.TcpServer.Connections.{next_name, fresh_name, joined, joined-Inv}
use mudo_reprint.EventLoop.{Loop}
use mudo_reprint.Service.{World, set_conn}
use mudo_reprint.Service.Serving.{IsUp}
use mudo_reprint.Service.Valid.{IsValid, IsUp-Touches}

module _ {api : Buffers} where
  abbrev pub joined_world : ℕ → Loop ℕ → Conn api → World api → World api
  joined_world n l d w = record {
    server = joined n w.server;
    loop = l;
    reactor = d.reactor;
    conns = set_conn n (some d) w.conns;
  }

module _ {api : Buffers} (tid_of : ℕ → ℕ) (here : ℕ) (own : ℕ → ℕ → Type 0) (w : World api)
    (v : IsValid tid_of here own w) (n p fd : ℕ) (l : Loop ℕ) (d : Conn api)
    (unborn : w.conns n ≡ none) (free : w.reactor.channels p ≡ none)
    (lt : w.server.next_conn < 2 ^ 31) (named : d.name ≡ next_name w.server) (at_p : d.channel ≡ p)
    (u : IsUp here fd d) (t : Touches p fd w.reactor d.reactor) where
  -- No connection has this address for its channel, or this name.
  others :
      (m : ℕ) (e : Conn api) → w.conns m ≡ some e → (e.channel ≢ p) × (e.name ≢ next_name w.server)
  others m e at_m =
      let (k, up, listed) = v.up m e at_m in
      (
        (λ shared. ground (arith, rw shared at up.holds.live, free)),
        (λ shared. ground (arith, rw shared at listed, fresh_name w.server v.named lt)),
      )

  added-up :
      (m : ℕ) (e : Conn api)
      → (joined_world n l d w).conns m ≡ some e
      → (k : ℕ) × IsUp here k (with_reactor e d.reactor)
        × (lookup e.name (joined n w.server).connections ≡ some m)
  added-up m e at_m = elim (Bool-cases (m == n)) [
    | inl same ↦
        let is_d : d ≡ e = ground (arith, at_m, same) in
        (
          fd,
          subst (λ x. IsUp here fd (with_reactor x d.reactor)) is_d u,
          ground (
            arith,
            lookup-insert d.name (next_name w.server) n w.server.connections,
            text_beq_iff d.name (next_name w.server),
            named,
          ),
        )
    | inr other ↦
        let was : w.conns m ≡ some e = ground (arith, at_m, other) in
        let (k, up, listed) = v.up m e was in
        let (other_channel, other_name) = others m e was in
        (
          k,
          IsUp-Touches tid_of here own e t u.holds.serves other_channel up,
          ground (
            arith,
            lookup-insert e.name (next_name w.server) n w.server.connections,
            text_beq_iff e.name (next_name w.server),
            listed,
            other_name,
          ),
        )
  ]

  added-listed :
      (k : List ℕ) (m : ℕ)
      → lookup k (joined n w.server).connections ≡ some m
      → (e : Conn api) × ((joined_world n l d w).conns m ≡ some e) × (e.name ≡ k)
  added-listed k m at_k = elim (Bool-cases (text_eq.beq k (next_name w.server))) [
    | inl new ↦
        let same : k ≡ next_name w.server =
          ground (arith, text_beq_iff k (next_name w.server), new) in
        (d, ground (arith, found, new), named ∙ sym same)
    | inr old ↦
        let (e, at_m, same) = v.listed k m (ground (arith, found, old)) in
        (e, ground (arith, at_m, unborn), same)
  ]
    where
      found :
          (if text_eq.beq k (next_name w.server) then some n else lookup k w.server.connections)
          ≡ some m
      found = sym (lookup-insert k (next_name w.server) n w.server.connections) ∙ at_k

  added-apart :
      (m m' : ℕ) (e e' : Conn api)
      → (joined_world n l d w).conns m ≡ some e
      → (joined_world n l d w).conns m' ≡ some e'
      → e.channel ≡ e'.channel
      → m ≡ m'
  added-apart m m' e e' at_m at_m' shared =
      ground (arith, v.apart m m' e e', others m e, others m' e', at_p, shared, at_m, at_m')

  -- The loop's own channels are at other addresses.
  own_elsewhere : (q k : ℕ) → own q k → q ≢ p
  own_elsewhere q k o same = ground (arith, rw same at ((v.kept q k o).live), free)

  added-own_apart :
      (q k m : ℕ) (e : Conn api) → own q k → (joined_world n l d w).conns m ≡ some e → e.channel ≢ q
  added-own_apart q k m e o at_m same =
      ground (arith, own_elsewhere q k o, v.own_apart q k m e o, at_p, at_m, same)

  pub joined-IsValid : IsValid tid_of here own (joined_world n l d w)
  joined-IsValid = record {
    serves = u.holds.serves;
    in_thread = u.holds.in_thread;
    in_server = v.in_server;
    home = v.home;
    alone = v.alone;
    started = v.started;
    named = joined-Inv n w.server v.named lt;
    up = added-up;
    listed = added-listed;
    kept = λ q k o. Holds-Touches t u.holds.serves (own_elsewhere q k o) (v.kept q k o);
    own_apart = added-own_apart;
    apart = added-apart;
  }
