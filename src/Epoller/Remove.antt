-- ===== src/Epoller/Remove.antt =====
-- `removeChannel`, what `disableReading` does by it, and what a descriptor that was not removed does
-- to its next owner.
use mudo_reprint.Base.{
  ℕ, ◌≡◌, refl, ◌≢◌, ◌⊎◌, inl, inr, none, some, false, ◌∷◌, lookup, erase, nat_eq, arith, ◌==◌,
  lookup-erase_ne, lookup-erase_self, erase-IsMap, ok, err, assertion, fatal, Option-cases,
  Bool-cases, if◌then◌else◌,
}
use mudo_reprint.Base.Int.{eqb_ℤ}
use mudo_reprint.Channel.{Channel, without, epollin}
use mudo_reprint.Epoller.{
  Reactor, ctl_del, ctl, k_new, k_added, k_deleted, update, remove_channel, channel_remove,
  update_event, disable_reading, update_with, channel_update, update_channel, add, register,
}
use mudo_reprint.Epoller.Kernel.{AllAccepted, interest, believed}
use mudo_reprint.Epoller.Invariant.{Inv, IsMapped}
use mudo_reprint.Epoller.Update.{mapped_fd, index-cases, update-update}

-- The reactor after the removal of the channel at `p`, which is `c` by then.
abbrev pub removed : ℕ → Channel → Reactor → Reactor
removed p c r = record r {
  channels = update r.channels p (some (record c { index = k_new }));
  epoller = record r.epoller {
    channel_map = erase c.fd r.channel_map;
    ctls = if eqb_ℤ c.index k_added then ctl ctl_del p c ∷ r.ctls else r.ctls;
  };
}

-- Channel `c` differs from the one at `p` in its mask at most.
module _ (r : Reactor) (v : Inv r) (p : ℕ) (old c : Channel) (live : r.channels p ≡ some old)
    (same_fd : old.fd ≡ c.fd) (same_index : old.index ≡ c.index)
    (mapped : lookup c.fd r.channel_map ≡ some p)
    (index : (c.index ≡ k_added) ⊎ (c.index ≡ k_deleted)) where
  removed-IsMapped :
      (fd q : ℕ) → lookup fd (removed p c r).channel_map ≡ some q → IsMapped (removed p c r) fd q
  removed-IsMapped fd q e = elim (Bool-cases (fd == c.fd)) [
    | inl hit ↦ absurd (ground (arith, lookup-erase_self c.fd r.channel_map v.is_map))
    | inr miss ↦
        elsewhere miss (v.mapped fd q (ground (arith, lookup-erase_ne fd c.fd r.channel_map)))
  ]
    where
      elsewhere : (fd == c.fd) ≡ false → IsMapped r fd q → IsMapped (removed p c r) fd q
      elsewhere miss k = record {
        channel = k.channel;
        live = ground (arith, k.live, k.same_fd);
        same_fd = k.same_fd;
        index = k.index;
      }

  removed-registered :
      (q : ℕ) (d : Channel)
      → (removed p c r).channels q ≡ some d
      → (d.index ≡ k_new) ⊎ (lookup d.fd (erase c.fd r.channel_map) ≡ some q)
  removed-registered q d e =
      ground (arith, v.registered q d, lookup-erase_ne d.fd c.fd r.channel_map)

  removed-agrees : (fd : ℕ) → interest (removed p c r).ctls fd ≡ believed (removed p c r) fd
  removed-agrees fd = elim (Bool-cases (fd == c.fd)) [
    | inl hit ↦ ground (arith, v.agrees c.fd, lookup-erase_self c.fd r.channel_map v.is_map)
    | inr miss ↦ elim (Option-cases (lookup fd r.channel_map)) [
      | inl e ↦ ground (arith, v.agrees fd, lookup-erase_ne fd c.fd r.channel_map)
      | inr (q, e) ↦
          ground
            (arith, v.agrees fd, lookup-erase_ne fd c.fd r.channel_map, mapped_fd r v p fd old live)
    ]
  ]

  removed-accepted : AllAccepted (removed p c r).ctls
  removed-accepted = ground (arith, v.agrees c.fd, v.accepted)

  removed-Inv : Inv (removed p c r)
  removed-Inv = record {
    is_map = erase-IsMap c.fd r.channel_map v.is_map;
    mapped = removed-IsMapped;
    registered = removed-registered;
    accepted = removed-accepted;
    agrees = removed-agrees;
  }

  -- Neither the map nor the kernel knows the descriptor any more.
  removed_forgets :
      (lookup c.fd (removed p c r).channel_map ≡ none) × (interest (removed p c r).ctls c.fd ≡ none)
  removed_forgets =
      ground (arith, removed-agrees c.fd, lookup-erase_self c.fd r.channel_map v.is_map)

-- A channel of this loop that is alive and registered.
pub record IsRegistered (r : Reactor) (here p : ℕ) (c : Channel) : Type 0 where
  pub in_thread : here ≡ r.tid
  pub live : r.channels p ≡ some c
  pub owned : c.own_loop ≡ r.self
  pub used : c.index ≢ k_new

module _ (here p : ℕ) (r : Reactor) (c : Channel) (v : Inv r) (u : IsRegistered r here p c) where
  mapped_index :
      (lookup c.fd r.channel_map ≡ some p) × ((c.index ≡ k_added) ⊎ (c.index ≡ k_deleted))
  mapped_index = ground (arith, index-cases r p c v u.live, u.used)

  abbrev muted : Channel
  muted = record c { events = without c.events epollin }

  pub channel_remove-removed : channel_remove here p r ≡ ok (removed p c r)
  unfolding channel_remove remove_channel update_event
  channel_remove-removed = ground (arith, mapped_index, u.in_thread, u.live, u.owned)

  disable_reading-removed : disable_reading here p r ≡ ok (removed p muted r)
  unfolding disable_reading channel_remove remove_channel update_event
  disable_reading-removed = ground (
    arith,
    mapped_index,
    u.in_thread,
    u.live,
    u.owned,
    update-update r.channels p (some muted) (some (record muted { index = k_new })),
  )

  -- In a reactor with the invariant, a live and registered channel of this loop and thread is removed
  -- with no assertion failing; its descriptor is then in neither the map nor the interest list, and
  -- the invariant holds on.
  pub channel_remove-Inv :
      (r' : Reactor) × (channel_remove here p r ≡ ok r')
      × Inv r'
      × (lookup c.fd r'.channel_map ≡ none)
      × (interest r'.ctls c.fd ≡ none)
  channel_remove-Inv =
      let facts = removed_forgets r v p c c u.live refl refl mapped_index.0 mapped_index.1 in
      (
        removed p c r,
        channel_remove-removed,
        removed-Inv r v p c c u.live refl refl mapped_index.0 mapped_index.1,
        facts.0,
        facts.1,
      )

  -- In a reactor with the invariant, `disableReading` removes a live and registered channel of this
  -- loop and thread altogether, whether or not it still waits for writability: no assertion fails,
  -- the invariant holds on, and the descriptor is in neither the map nor the interest list.
  pub disable_reading-Inv :
      (r' : Reactor) × (disable_reading here p r ≡ ok r')
      × Inv r'
      × (lookup c.fd r'.channel_map ≡ none)
      × (interest r'.ctls c.fd ≡ none)
  disable_reading-Inv =
      let facts = removed_forgets r v p c muted u.live refl refl mapped_index.0 mapped_index.1 in
      (
        removed p muted r,
        disable_reading-removed,
        removed-Inv r v p c muted u.live refl refl mapped_index.0 mapped_index.1,
        facts.0,
        facts.1,
      )

-- While any other channel is registered under a descriptor, kAdded or kDeleted, a new channel for
-- the same descriptor, in the same loop and its thread, fails the assertion in `updateChannel` at its
-- first use.
pub update_with_taken :
    (f : ℕ → ℕ) (here p q : ℕ) (r : Reactor) (c : Channel)
    → here ≡ r.tid
    → r.channels q ≡ some c
    → c.own_loop ≡ r.self
    → c.index ≡ k_new
    → lookup c.fd r.channel_map ≡ some p
    → update_with f here q r ≡ err assertion
unfolding channel_update update_channel add register
update_with_taken f here p q r c t live own new taken = ground arith

pub channel_remove_elsewhere :
    (here p : ℕ) (r : Reactor) → here ≢ r.tid → channel_remove here p r ≡ err fatal
unfolding channel_remove
channel_remove_elsewhere here p r h = ground arith
