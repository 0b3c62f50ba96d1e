-- ===== src/Epoller/Leaving.antt =====
-- The removal and the deletion of a channel, in a reactor whose map may have stale descriptors.
use mudo_reprint.Base.{
  ℕ, ◌≡◌, ◌≢◌, ◌⊎◌, inl, inr, none, some, lookup, nat_eq, arith, ◌==◌, ok, Bool-cases, erase-IsMap,
  lookup-erase_ne, lookup-erase_self,
}
use mudo_reprint.Channel.{Channel}
use mudo_reprint.Epoller.{
  Reactor, k_added, k_deleted, update, channel_remove, remove_channel, update_event,
}
use mudo_reprint.Epoller.Kernel.{interest}
use mudo_reprint.Epoller.Remove.{IsRegistered, removed}
use mudo_reprint.Epoller.Serving.{Serves, watched}

-- The deletion of a channel that the kernel does not watch.
pub deleted-Serves :
    (p : ℕ) (r : Reactor) (c : Channel)
    → Serves r
    → r.channels p ≡ some c
    → c.index ≢ k_added
    → Serves (record r { channels = update r.channels p none })
deleted-Serves p r c v live e = record {
  is_map = v.is_map;
  registered = λ q d. ground (arith, v.registered q d);
  accepted = v.accepted;
  agrees = λ k. ground (arith, v.agrees k, live);
}

-- A registered channel.
module _ (here p : ℕ) (r : Reactor) (c : Channel) (v : Serves r) (g : IsRegistered r here p c) where
  its_entry : (lookup c.fd r.channel_map ≡ some p) × ((c.index ≡ k_added) ⊎ (c.index ≡ k_deleted))
  its_entry = ground (arith, v.registered p c g.live, g.used)

  removed-agrees : (k : ℕ) → interest (removed p c r).ctls k ≡ watched (removed p c r) k
  removed-agrees k = elim (Bool-cases (k == c.fd)) [
    | inl hit ↦
        ground
          (arith, its_entry, v.agrees c.fd, g.live, lookup-erase_self c.fd r.channel_map v.is_map)
    | inr miss ↦ ground (arith, its_entry, v.agrees k, g.live, lookup-erase_ne k c.fd r.channel_map)
  ]

  removed-Serves : Serves (removed p c r)
  removed-Serves = record {
    is_map = erase-IsMap c.fd r.channel_map v.is_map;
    registered = λ q d e.
        ground (arith, v.registered q d, its_entry, lookup-erase_ne d.fd c.fd r.channel_map);
    accepted = ground (arith, v.accepted, v.agrees c.fd, its_entry, g.live);
    agrees = removed-agrees;
  }

  -- It is removed with no assertion failing.
  pub channel_remove-Serves :
      (channel_remove here p r ≡ ok (removed p c r)) × Serves (removed p c r)
  unfolding channel_remove remove_channel update_event
  channel_remove-Serves = (ground (arith, its_entry, g.in_thread, g.live, g.owned), removed-Serves)
