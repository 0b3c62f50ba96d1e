-- ===== src/Service/Valid.antt =====
-- What holds of the server, its connections and its loop between two events.
use mudo_reprint.Base.{
  ℕ, ◌≡◌, refl, subst, ◌≢◌, ◌∙◌, sym, inl, inr, some, true, List, [], ◌==◌, arith, lookup, text_eq,
  Bool-cases,
}
use mudo_reprint.Buffer.{Buffers}
use mudo_reprint.Epoller.{Reactor}
use mudo_reprint.Epoller.Effects.{Touches}
use mudo_reprint.Epoller.Serving.{Serves, Holds, Holds-Touches}
use mudo_reprint.TcpConnection.{Conn, with_reactor}
use mudo_reprint.TcpServer.Connections.{Inv}
use mudo_reprint.Lifetime.Served.{alive}
use mudo_reprint.Service.{World, put}
use mudo_reprint.Service.Serving.{IsUp, Continues}

module _ {api : Buffers} (tid_of : ℕ → ℕ) (here : ℕ) (own : ℕ → ℕ → Type 0) where
  -- The server's pool, which is started, has no threads, and the server runs in the loop's thread; each connection that is alive is
  -- up, its channel is watched by the kernel, and the map has it under its name; each connection in
  -- the map is alive; no two share a channel; and the loop's own channels, which are those of `own`
  -- with their descriptors, are watched and are no connection's.
  pub record IsValid (w : World api) : Type 0 where
    pub serves : Serves w.reactor
    pub in_thread : here ≡ w.reactor.tid
    pub in_server : here ≡ w.server.pool.base_tid
    pub home : tid_of w.server.pool.base_loop ≡ here
    pub alone : w.server.pool.loops ≡ []
    pub started : w.server.pool.started ≡ true
    pub named : Inv w.server
    pub up :
        (n : ℕ) (c : Conn api)
        → w.conns n ≡ some c
        → (fd : ℕ) × IsUp here fd (with_reactor c w.reactor)
          × (lookup c.name w.server.connections ≡ some n)
    pub listed :
        (k : List ℕ) (n : ℕ)
        → lookup k w.server.connections ≡ some n
        → (c : Conn api) × (w.conns n ≡ some c) × (c.name ≡ k)
    pub kept : (p fd : ℕ) → own p fd → Holds here p fd w.reactor
    pub own_apart : (p fd n : ℕ) (c : Conn api) → own p fd → w.conns n ≡ some c → c.channel ≢ p
    pub apart :
        (n m : ℕ) (c d : Conn api)
        → w.conns n ≡ some c
        → w.conns m ≡ some d
        → c.channel ≡ d.channel
        → n ≡ m

  -- A connection that is up, in a reactor where another was touched.
  pub IsUp-Touches :
      {p k fd : ℕ} {r r' : Reactor} (c : Conn api)
      → Touches p k r r'
      → Serves r'
      → c.channel ≢ p
      → IsUp here fd (with_reactor c r)
      → IsUp here fd (with_reactor c r')
  IsUp-Touches c t v ne u = record { holds = Holds-Touches t v ne u.holds; state = u.state }

  module _ (w : World api) (v : IsValid w) (n fd : ℕ) (c d : Conn api) (there : w.conns n ≡ some c)
      (on : Continues here fd (with_reactor c w.reactor) d) where
    continued-up :
        (m : ℕ) (e : Conn api)
        → (put n (alive w.server d) w).conns m ≡ some e
        → (k : ℕ) × IsUp here k (with_reactor e d.reactor)
          × (lookup e.name w.server.connections ≡ some m)
    continued-up m e at_m = elim (Bool-cases (m == n)) [
      | inl same ↦
          let is_d : d ≡ e = ground (arith, at_m, same) in
          let listed : lookup d.name w.server.connections ≡ some n =
            rw on.same_name ((v.up n c there).2) in
          (
            fd,
            subst (λ x. IsUp here fd (with_reactor x d.reactor)) is_d on.up,
            ground (arith, listed),
          )
      | inr other ↦
          let old : w.conns m ≡ some e = ground (arith, at_m, other) in
          let (k, u, l) = v.up m e old in
          (
            k,
            IsUp-Touches e on.touches on.up.holds.serves
                (λ shared. ground (arith, v.apart m n e c old there shared, other)) u,
            l,
          )
    ]

    -- Each connection was alive before, under the same name and with the same channel.
    continued-was :
        (m : ℕ) (e : Conn api)
        → (put n (alive w.server d) w).conns m ≡ some e
        → (o : Conn api) × (w.conns m ≡ some o) × (o.channel ≡ e.channel)
    continued-was m e at_m = elim (Bool-cases (m == n)) [
      | inl same ↦ (c, ground (arith, there, same), ground (arith, on.same_channel, at_m, same))
      | inr other ↦ (e, ground (arith, at_m, other), refl)
    ]

    continued-listed :
        (k : List ℕ) (m : ℕ)
        → lookup k w.server.connections ≡ some m
        → (e : Conn api) × ((put n (alive w.server d) w).conns m ≡ some e) × (e.name ≡ k)
    continued-listed k m l =
        let (e, at_m, named) = v.listed k m l in
        elim (Bool-cases (m == n)) [
          | inl same ↦
              (d, ground (arith, same), on.same_name ∙ ground (arith, at_m, there, same, named))
          | inr other ↦ (e, ground (arith, at_m, other), named)
        ]

    pub continued-IsValid : IsValid (put n (alive w.server d) w)
    continued-IsValid = record {
      serves = on.up.holds.serves;
      in_thread = on.up.holds.in_thread;
      in_server = v.in_server;
      home = v.home;
      alone = v.alone;
      started = v.started;
      named = v.named;
      up = continued-up;
      listed = continued-listed;
      kept = λ p k o.
          Holds-Touches on.touches on.up.holds.serves
            (λ same. v.own_apart p k n c o there (sym same)) (v.kept p k o);
      own_apart = λ p k m e o at_m same.
          let (old, was, shared) = continued-was m e at_m in
          v.own_apart p k m old o was (shared ∙ same);
      apart = λ m m' e e' at_m at_m' shared.
          let (o, was, p) = continued-was m e at_m in
          let (o', was', p') = continued-was m' e' at_m' in
          v.apart m m' o o' was was' (p ∙ shared ∙ sym p');
    }
