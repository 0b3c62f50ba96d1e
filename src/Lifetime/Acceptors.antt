-- ===== src/Lifetime/Acceptors.antt =====
-- An Acceptor from its constructor to its destructor, whether it listened in between or not.
use mudo_reprint.Base.{
  ℕ, ◌≡◌, refl, ◌≢◌, subst, inl, inr, true, none, some, lookup, nat_eq, arith, ◌==◌, ok, ◌>>=◌,
  Bool-cases, bit_or,
}
use mudo_reprint.Channel.{new_channel, epollin}
use mudo_reprint.Epoller.{Reactor}
use mudo_reprint.Epoller.Kernel.{interest}
use mudo_reprint.Epoller.Invariant.{Inv}
use mudo_reprint.Epoller.Effects.{Touches, Touches-trans}
use mudo_reprint.Lifetime.{acceptor, listen, destroy_acceptor, make_channel}
use mudo_reprint.Lifetime.Channels.{
  make_and_update, made-IsUsable, make_channel-Inv, make_channel-Touches, close_channel-Touches,
  IsMasked-IsRegistered, IsRegistered-IsUsable,
}

-- The same channels are alive and mapped, and the kernel watches the same.
pub record IsRestored (r t : Reactor) : Type 0 where
  pub channels_same : (q : ℕ) → t.channels q ≡ r.channels q
  pub map_same : (k : ℕ) → lookup k t.channel_map ≡ lookup k r.channel_map
  pub interest_same : (k : ℕ) → interest t.ctls k ≡ interest r.ctls k

-- A loop for which an address and a descriptor are free.
pub record HasRoom (r : Reactor) (p fd : ℕ) : Type 0 where
  pub valid : Inv r
  pub free : r.channels p ≡ none
  pub unused : lookup fd r.channel_map ≡ none

module _ (p fd : ℕ) (r : Reactor) (room : HasRoom r p fd) where
  Touches-IsRestored :
      (t : Reactor)
      → Touches p fd r t
      → t.channels p ≡ none
      → lookup fd t.channel_map ≡ none
      → interest t.ctls fd ≡ none
      → IsRestored r t
  Touches-IsRestored t s c m i = record {
    channels_same = λ q. elim (Bool-cases (q == p)) [
      | inl e ↦ ground (arith, c, room.free)
      | inr e ↦ ground (arith, s.channels_same q)
    ];
    map_same = λ k. elim (Bool-cases (k == fd)) [
      | inl e ↦ ground (arith, m, room.unused)
      | inr e ↦ ground (arith, s.map_same k)
    ];
    interest_same = λ k. elim (Bool-cases (k == fd)) [
      | inl e ↦ ground (arith, i, room.unused, room.valid.agrees fd)
      | inr e ↦ ground (arith, s.interest_same k)
    ];
  }

  -- In the loop's thread, with a free address and a free descriptor: an Acceptor that never listened
  -- is destroyed with no assertion failing.
  destroy_acceptor-acceptor :
      (r' : Reactor) × ((do r₁ ← acceptor p fd true r; destroy_acceptor r.tid p r₁) ≡ ok r')
      × Inv r'
      × IsRestored r r'
  unfolding destroy_acceptor acceptor new_channel
  destroy_acceptor-acceptor =
      let u = made-IsUsable r.tid p fd r room.valid refl room.free room.unused in
      let v = make_channel-Inv r.tid p fd r room.valid refl room.free room.unused in
      let (r', e, v', s, n, m, i) =
        close_channel-Touches r.tid p (make_channel p fd r) (new_channel r.self fd) v u in
      (r', e, v', Touches-IsRestored r' (Touches-trans (make_channel-Touches p fd r) s) n m i)

  -- In the loop's thread, with the reactor's invariant, a free address and a free descriptor: an
  -- Acceptor that is constructed and listens, where bind and listen succeed, has its descriptor watched for EPOLLIN, and all others as
  -- before. Its destructor then fails no assertion, keeps the invariant, and leaves the live channels,
  -- the map and the interest list as they were.
  pub destroy_acceptor-listen :
      (r₁ r₂ : Reactor) × ((do r₀ ← acceptor p fd true r; listen r.tid p true r₀) ≡ ok r₁)
      × (interest r₁.ctls fd ≡ some (epollin, p))
      × ((k : ℕ) → k ≢ fd → interest r₁.ctls k ≡ interest r.ctls k)
      × (destroy_acceptor r.tid p r₁ ≡ ok r₂)
      × Inv r₂
      × IsRestored r r₂
  unfolding listen acceptor destroy_acceptor new_channel make_channel
  destroy_acceptor-listen =
      let (r₁, e₁, v₁, s₁, k, i₁) =
        make_and_update r.tid p fd r room.valid refl room.free room.unused
          (λ m. bit_or m epollin) in
      let g =
        IsMasked-IsRegistered r.tid p fd epollin r r₁ (new_channel r.self fd) refl refl s₁ k in
      let (r₂, e₂, v₂, s₂, n, m, i) =
        close_channel-Touches r.tid p r₁ k.channel v₁ (IsRegistered-IsUsable g) in
      let t : Touches p fd r₁ r₂ = subst (λ x. Touches p x r₁ r₂) k.same_fd s₂ in
      (
        r₁,
        r₂,
        ground (arith, e₁),
        i₁,
        s₁.interest_same,
        e₂,
        v₂,
        Touches-IsRestored r₂ (Touches-trans s₁ t) n
            (subst (λ x. lookup x r₂.channel_map ≡ none) k.same_fd m)
            (subst (λ x. interest r₂.ctls x ≡ none) k.same_fd i),
      )
