-- ===== src/Lifetime/Channels.antt =====
-- A channel that is made, registered by `enableReading`, and taken down by `disableAll`, `remove` and
-- its deletion, as in the destructors of Acceptor and TimerQueue.
use mudo_reprint.Base.{
  ℕ, ◌≡◌, refl, ◌∙◌, sym, subst, inl, inr, none, some, false, lookup, nat_eq, arith, ◌==◌, ok,
  Option-cases,
}
use mudo_reprint.Channel.{Channel, new_channel}
use mudo_reprint.Epoller.{Reactor, k_new, update_with}
use mudo_reprint.Epoller.Kernel.{interest, believed}
use mudo_reprint.Epoller.Invariant.{Inv, IsMapped}
use mudo_reprint.Epoller.Update.{IsUsable}
use mudo_reprint.Epoller.Remove.{IsRegistered}
use mudo_reprint.Epoller.History.{made-Inv}
use mudo_reprint.Epoller.Effects.{
  Touches, Touches-trans, IsMasked, update_with-Touches, channel_remove-Touches,
}
use mudo_reprint.Lifetime.{make_channel, delete_channel, close_channel}

pub make_channel-Touches : (p fd : ℕ) (r : Reactor) → Touches p fd r (make_channel p fd r)
unfolding make_channel
make_channel-Touches p fd r = record {
  same_self = refl;
  same_tid = refl;
  channels_same = λ q e. ground arith;
  map_same = λ k e. refl;
  interest_same = λ k e. refl;
}

pub delete_channel-Touches : (p fd : ℕ) (r : Reactor) → Touches p fd r (delete_channel p r)
unfolding delete_channel
delete_channel-Touches p fd r = record {
  same_self = refl;
  same_tid = refl;
  channels_same = λ q e. ground arith;
  map_same = λ k e. refl;
  interest_same = λ k e. refl;
}

module _ (r : Reactor) (v : Inv r) (p : ℕ) (c : Channel) (live : r.channels p ≡ some c)
    (new : c.index ≡ k_new) where
  -- The map leads to no channel that is kNew.
  mapped_elsewhere : (k q : ℕ) → IsMapped r k q → (q == p) ≡ false
  mapped_elsewhere k q m = ground (arith, m.live, m.index)

  deleted-IsMapped : (k q : ℕ) → IsMapped r k q → IsMapped (delete_channel p r) k q
  unfolding delete_channel
  deleted-IsMapped k q m = record {
    channel = m.channel;
    live = rw (mapped_elsewhere k q m) m.live;
    same_fd = m.same_fd;
    index = m.index;
  }

  deleted-believed : (k : ℕ) → believed (delete_channel p r) k ≡ believed r k
  unfolding delete_channel
  deleted-believed k = elim (Option-cases (lookup k r.channel_map)) [
    | inl e ↦ ground arith
    | inr (q, e) ↦ ground (arith, mapped_elsewhere k q (v.mapped k q e))
  ]

  -- A channel that is not registered can be deleted.
  pub delete_channel-Inv : Inv (delete_channel p r)
  unfolding delete_channel
  delete_channel-Inv = record {
    is_map = v.is_map;
    mapped = λ k q e. deleted-IsMapped k q (v.mapped k q e);
    registered = λ q d e. ground (arith, v.registered q d);
    accepted = v.accepted;
    agrees = λ k. rw (deleted-believed k) (v.agrees k);
  }

module _ (here p fd : ℕ) (r : Reactor) (v : Inv r) (in_thread : here ≡ r.tid)
    (free : r.channels p ≡ none) (unused : lookup fd r.channel_map ≡ none) where
  pub made-IsUsable : IsUsable (make_channel p fd r) here p (new_channel r.self fd)
  unfolding make_channel new_channel
  made-IsUsable = record {
    in_thread = in_thread;
    live = ground arith;
    owned = refl;
    free_fd = λ _. unused;
  }

  pub make_channel-Inv : Inv (make_channel p fd r)
  unfolding make_channel
  make_channel-Inv = made-Inv r v p fd free

  -- A member that ends in `update`, called first on a channel just made.
  pub make_and_update :
      (f : ℕ → ℕ)
      → (r' : Reactor) × (update_with f here p (make_channel p fd r) ≡ ok r')
        × Inv r'
        × Touches p fd r r'
        × IsMasked p (new_channel r.self fd) (f 0) r'
        × (interest r'.ctls fd ≡ some (f 0, p))
  unfolding new_channel
  make_and_update f =
      let (r', e, v', s, k, i) =
        update_with-Touches f here p (make_channel p fd r) (new_channel r.self fd) make_channel-Inv
          made-IsUsable in
      (r', e, v', Touches-trans (make_channel-Touches p fd r) s, k, ground (arith, i))

-- What the destructors of Acceptor and TimerQueue do to their channel, whether it was enabled or not:
-- no assertion fails, the descriptor is in neither the map nor the interest list, the channel is
-- deleted, and no other is touched.
pub close_channel-Touches :
    (here p : ℕ) (r : Reactor) (c : Channel)
    → Inv r
    → IsUsable r here p c
    → (r' : Reactor) × (close_channel here p r ≡ ok r')
      × Inv r'
      × Touches p c.fd r r'
      × (r'.channels p ≡ none)
      × (lookup c.fd r'.channel_map ≡ none)
      × (interest r'.ctls c.fd ≡ none)
unfolding close_channel delete_channel
close_channel-Touches here p r c v u =
    let (r₁, e₁, v₁, s₁, k, _) = update_with-Touches (λ _. 0) here p r c v u in
    let (r₂, e₂, v₂, s₂, n, m, i) = channel_remove-Touches here p r₁ k.channel v₁ (record {
      in_thread = u.in_thread ∙ sym s₁.same_tid;
      live = k.live;
      owned = k.same_loop ∙ u.owned ∙ sym s₁.same_self;
      used = k.used;
    }) in
    let s₃ = subst (λ fd. Touches p fd r₁ r₂) k.same_fd s₂ in
    (
      delete_channel p r₂,
      rw (e₁, e₂) refl,
      delete_channel-Inv r₂ v₂ p (record k.channel { index = k_new }) n refl,
      Touches-trans s₁ (Touches-trans s₃ (delete_channel-Touches p c.fd r₂)),
      ground arith,
      subst (λ fd. lookup fd r₂.channel_map ≡ none) k.same_fd m,
      subst (λ fd. interest r₂.ctls fd ≡ none) k.same_fd i,
    )

-- A channel that was set is registered.
pub IsMasked-IsRegistered :
    (here p fd mask : ℕ) (r t : Reactor) (c : Channel)
    → here ≡ r.tid
    → c.own_loop ≡ r.self
    → Touches p fd r t
    → (k : IsMasked p c mask t) → IsRegistered t here p k.channel
IsMasked-IsRegistered here p fd mask r t c h o s k = record {
  in_thread = h ∙ sym s.same_tid;
  live = k.live;
  owned = k.same_loop ∙ o ∙ sym s.same_self;
  used = k.used;
}

-- A registered channel is usable.
pub IsRegistered-IsUsable :
    {r : Reactor} {here p : ℕ} {c : Channel} → IsRegistered r here p c → IsUsable r here p c
IsRegistered-IsUsable g = record {
  in_thread = g.in_thread;
  live = g.live;
  owned = g.owned;
  free_fd = λ e. absurd (g.used e);
}
