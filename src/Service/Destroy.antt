-- ===== src/Service/Destroy.antt =====
-- `TcpServer::~TcpServer` (TcpServer.cpp) with the connections that the server has.
use mudo_reprint.Base.{
  ℕ, ◌≡◌, refl, ap, ◌⊎◌, inl, inr, ◌≢◌, List-cases, ◌∙◌, sym, inl, inr, some, none, List, [], ◌∷◌,
  arith, lookup, text_eq, text_beq_iff, Result, ok, err, assertion, dangling, ◌>>=◌, deref, nat_eq,
}
use mudo_reprint.Buffer.{Buffers}
use mudo_reprint.Epoller.{Reactor, k_new}
use mudo_reprint.Epoller.Update.{settled}
use mudo_reprint.Epoller.Remove.{IsRegistered, removed}
use mudo_reprint.Epoller.Effects.{
  removed-Touches, Touches-trans, settled-Touches, settled_live, settled_index,
}
use mudo_reprint.Epoller.Serving.{
  Serves, Holds, Holds-IsUsable, Holds-Touches, update_with-settled, update_with-Serves,
}
use mudo_reprint.Epoller.Leaving.{deleted-Serves, channel_remove-Serves}
use mudo_reprint.TcpConnection.{with_reactor}
use mudo_reprint.Lifetime.{
  Current, Site, set_current, through, delete_channel, close_channel, destroy_event_loop,
  destroy_acceptor, destroy_timer_queue,
}
use mudo_reprint.Lifetime.Channels.{delete_channel-Touches}
use mudo_reprint.Lifetime.Served.{destroy_connection}
use mudo_reprint.Service.{World, put}
use mudo_reprint.Service.Valid.{IsValid}

module _ {api : Buffers} where
  -- The destructor of the map of connections, which has no other owner's guard to wait for.
  unfoldable pub destroy_conns : List (List ℕ × ℕ) → World api → Result (World api)
  destroy_conns [] w = ok w
  destroy_conns ((k, n) ∷ rest) w = do
    c ← deref (w.conns n)
    h ← destroy_connection w.server (with_reactor c w.reactor)
    destroy_conns rest (put n h w)

  -- The body deletes the loop, whose timer channel is at `t` and whose wake-up channel is at `w`. The
  -- members follow, the last one first: the pool, which has no thread, the connections, and the
  -- acceptor, whose channel is at `p`.
  unfoldable pub destroy_server : (here t w p : ℕ) → Current → World api → Result Site
  unfolding destroy_event_loop destroy_acceptor
  destroy_server here t w p current world = do
    (current', r) ← destroy_event_loop here t w (current, world.reactor)
    _ ← destroy_conns world.server.connections (record world { reactor = r })
    through (destroy_acceptor here p) (record { current = current'; loop = none })

Holds-IsRegistered :
    {here p fd : ℕ} {r : Reactor} → (h : Holds here p fd r) → IsRegistered r here p h.channel
Holds-IsRegistered h = record {
  in_thread = h.in_thread;
  live = h.live;
  owned = h.owned;
  used = λ e. ground (arith, h.added);
}

-- The channel at `p` is taken down with no assertion failing.
close_channel-returns :
    (here p fd : ℕ) (r : Reactor)
    → Holds here p fd r
    → (r' : Reactor) × (close_channel here p r ≡ ok r')
unfolding close_channel
close_channel-returns here p fd r h =
    let quiet = settled (λ _. 0) p h.channel r in
    let muted = record h.channel { events = 0; index = settled_index (λ _. 0) h.channel } in
    let t = settled-Touches (λ _. 0) p r h.channel in
    let e₁ = update_with-settled (λ _. 0) here p r h.channel h.serves (Holds-IsUsable h) in
    let v₁ = update_with-Serves (λ _. 0) here p r h.channel h.serves (Holds-IsUsable h) in
    let g : IsRegistered quiet here p muted = record {
      in_thread = h.in_thread ∙ sym t.same_tid;
      live = settled_live (λ _. 0) p r h.channel;
      owned = h.owned ∙ sym t.same_self;
      used = λ e. ground (arith, h.added);
    } in
    let (e₂, _) = channel_remove-Serves here p quiet muted v₁ g in
    (delete_channel p (removed p muted quiet), rw (e₁, e₂) refl)

-- The loop's two channels are taken down.
destroy_event_loop-returns :
    (here t w a b : ℕ) (current : Current) (r : Reactor)
    → t ≢ w
    → Holds here t a r
    → Holds here w b r
    → (r' : Reactor) × (destroy_event_loop here t w (current, r)
        ≡ ok (set_current here none current, r'))
unfolding destroy_event_loop destroy_timer_queue delete_channel
destroy_event_loop-returns here t w a b current r ne ht hw =
    let (e₁, v₁) = channel_remove-Serves here w r hw.channel hw.serves (Holds-IsRegistered hw) in
    let r₁ = removed w hw.channel r in
    let s₂ =
      Touches-trans (removed-Touches w r hw.channel) (delete_channel-Touches w hw.channel.fd r₁) in
    let v₂ : Serves (delete_channel w r₁) =
      deleted-Serves w r₁ (record hw.channel { index = k_new }) v₁ (ground arith)
        (λ e. ground arith) in
    let (r₃, e₃) =
      close_channel-returns here t a (delete_channel w r₁) (Holds-Touches s₂ v₂ ne ht) in
    (r₃, rw (e₁, e₃) refl)

module _ {api : Buffers} (tid_of : ℕ → ℕ) (here : ℕ) (own : ℕ → ℕ → Type 0) (world : World api)
    (v : IsValid tid_of here own world) where
  -- Whatever reactor it is left with, the first connection of the map is up.
  destroy_conns-asserts :
      (k : List ℕ) (n : ℕ) (rest : List (List ℕ × ℕ)) (r : Reactor)
      → world.server.connections ≡ (k, n) ∷ rest
      → destroy_conns ((k, n) ∷ rest) (record world { reactor = r }) ≡ err assertion
  unfolding destroy_conns destroy_connection
  destroy_conns-asserts k n rest r e =
      let first : lookup k world.server.connections ≡ some n =
        rw e (ground (arith, text_beq_iff k k)) in
      let (c, there, named) = v.listed k n first in
      let (fd, up, _) = v.up n c there in rw there (ground (arith, up.state))

  -- The map of connections fails to be destroyed, or is empty.
  destroyed_conns :
      (r : Reactor)
      → ((world.server.connections ≢ [])
          × (destroy_conns world.server.connections (record world { reactor = r }) ≡ err assertion))
        ⊎ ((world.server.connections ≡ [])
            × (destroy_conns world.server.connections (record world { reactor = r })
                ≡ ok (record world { reactor = r })))
  unfolding destroy_conns
  destroyed_conns r = elim (List-cases world.server.connections) [
    | inl none_left ↦
        inr (none_left, ap (λ xs. destroy_conns xs (record world { reactor = r })) none_left)
    | inr ((k, n), rest, g) ↦ inl (
      (λ none_left. ground (arith, g, none_left)),
      ap (λ xs. destroy_conns xs (record world { reactor = r })) g
          ∙ destroy_conns-asserts k n rest r g,
    )
  ]

  -- In a valid state with the loop's timer channel and wake-up channel among its own: the destructor of
  -- the server takes the loop down with no assertion failing, and then never returns. With a
  -- connection left, the assertion that a connection is disconnected fails; with none, the
  -- acceptor's destructor follows the pointer to the loop that is gone.
  pub destroy_server-fails :
      (t w p a b : ℕ) (current : Current)
      → t ≢ w
      → own t a
      → own w b
      → ((r : Reactor) × (destroy_event_loop here t w (current, world.reactor)
            ≡ ok (set_current here none current, r)))
        × (((world.server.connections ≢ [])
              × (destroy_server here t w p current world ≡ err assertion))
            ⊎ ((world.server.connections ≡ [])
                × (destroy_server here t w p current world ≡ err dangling)))
  unfolding destroy_server
  destroy_server-fails t w p a b current ne at_t at_w =
      let (r, e) =
        destroy_event_loop-returns here t w a b current world.reactor ne (v.kept t a at_t)
          (v.kept w b at_w) in
      (
        (r, e),
        elim (destroyed_conns r) [
          | inl (some_left, asserts) ↦ inl (some_left, rw (e, asserts) refl)
          | inr (none_left, empty) ↦ inr (none_left, rw (e, empty) refl)
        ],
      )
