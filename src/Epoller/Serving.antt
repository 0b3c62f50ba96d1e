-- ===== src/Epoller/Serving.antt =====
-- What holds of a reactor whose channels are deleted without `remove`, as a TcpConnection deletes its
-- own: the map may keep descriptors that lead to a channel that is gone, or to a later one with
-- another descriptor at the same address.
use mudo_reprint.Base.{
  ◌≡◌, refl, sym, ◌∙◌, ◌≢◌, ◌⊎◌, inl, inr, none, some, Option, lookup, IsMap, nat_eq, arith, ◌==◌,
  ◌&&◌, if◌then◌else◌, lookup-insert, insert-IsMap, ok, Option-cases, ℕ,
}
use mudo_reprint.Base.Int.{eqb_ℤ}
use mudo_reprint.Channel.{Channel, is_none_event, new_channel}
use mudo_reprint.Epoller.{
  Reactor, k_new, k_added, k_deleted, update_channel, channel_update, update_with, modify, add,
  register, update_event, store,
}
use mudo_reprint.Epoller.Kernel.{AllAccepted, Entry, interest, believed}
use mudo_reprint.Epoller.Invariant.{Inv, IsMapped}
use mudo_reprint.Epoller.Update.{IsUsable, settled, update-update, index-cases}
use mudo_reprint.Epoller.Remove.{IsRegistered}
use mudo_reprint.Epoller.Effects.{Touches, settled-Touches, settled_index, settled_live}

-- The entry of the channel, if it has the descriptor `fd` and is kAdded.
abbrev pub entry_for : ℕ → ℕ → Option Channel → Option Entry
entry_for fd p none = none
entry_for fd p (some c) = if c.fd == fd && eqb_ℤ c.index k_added then some (c.events, p) else none

-- The interest list as the map and the channels that are alive give it.
abbrev pub watched : Reactor → ℕ → Option Entry
watched r fd = elim (lookup fd r.channel_map) [
  | none ↦ none
  | some p ↦ entry_for fd p (r.channels p)
]

-- A live channel is kNew, or the map leads from its descriptor to it; every `epoll_ctl` call so far
-- was accepted; and the kernel watches just the live channels that are kAdded.
pub record Serves (r : Reactor) : Type 0 where
  pub is_map : IsMap r.channel_map
  pub registered :
      (p : ℕ) (c : Channel)
      → r.channels p ≡ some c
      → (c.index ≡ k_new)
        ⊎ ((lookup c.fd r.channel_map ≡ some p) × ((c.index ≡ k_added) ⊎ (c.index ≡ k_deleted)))
  pub accepted : AllAccepted r.ctls
  pub agrees : (fd : ℕ) → interest r.ctls fd ≡ watched r fd

believed-watched : (r : Reactor) → Inv r → (fd : ℕ) → believed r fd ≡ watched r fd
believed-watched r v fd = elim (Option-cases (lookup fd r.channel_map)) [
  | inl e ↦ ground arith
  | inr (p, e) ↦ same_entry p e (v.mapped fd p e)
]
  where
    same_entry :
        (p : ℕ) → lookup fd r.channel_map ≡ some p → IsMapped r fd p → believed r fd ≡ watched r fd
    same_entry p e m = ground (arith, m.live, m.same_fd)

-- It holds where the map has no stale descriptor.
pub Inv-Serves : (r : Reactor) → Inv r → Serves r
Inv-Serves r v = record {
  is_map = v.is_map;
  registered = λ p c live. index-cases r p c v live;
  accepted = v.accepted;
  agrees = λ fd. v.agrees fd ∙ believed-watched r v fd;
}

module _ (f : ℕ → ℕ) (here p : ℕ) (r : Reactor) (c : Channel) (v : Serves r)
    (u : IsUsable r here p c) where
  pub update_with-settled : update_with f here p r ≡ ok (settled f p c r)
  unfolding channel_update update_channel modify add register update_event is_none_event
  update_with-settled = ground (
    arith,
    v.registered p c u.live,
    u.free_fd,
    update-update r.channels p (some (record c { events = f c.events })),
  )

  settled-registered :
      (q : ℕ) (d : Channel)
      → (settled f p c r).channels q ≡ some d
      → (d.index ≡ k_new)
        ⊎ ((lookup d.fd (settled f p c r).channel_map ≡ some q)
            × ((d.index ≡ k_added) ⊎ (d.index ≡ k_deleted)))
  settled-registered q d e = ground (
    arith,
    v.registered p c u.live,
    v.registered q d,
    u.free_fd,
    lookup-insert d.fd c.fd p r.channel_map,
  )

  settled-agrees : (fd : ℕ) → interest (settled f p c r).ctls fd ≡ watched (settled f p c r) fd
  settled-agrees fd = ground (
    arith,
    v.registered p c u.live,
    v.agrees fd,
    u.live,
    u.free_fd,
    lookup-insert fd c.fd p r.channel_map,
  )

  settled-accepted : AllAccepted (settled f p c r).ctls
  settled-accepted =
      ground (arith, v.registered p c u.live, v.accepted, v.agrees c.fd, u.live, u.free_fd)

  pub update_with-Serves : Serves (settled f p c r)
  update_with-Serves = record {
    is_map = ground (arith, v.is_map, insert-IsMap c.fd p r.channel_map);
    registered = settled-registered;
    accepted = settled-accepted;
    agrees = settled-agrees;
  }

-- At `p` there is a live channel of this loop that has the descriptor `fd` and is kAdded.
pub record Holds (here p fd : ℕ) (r : Reactor) : Type 0 where
  pub serves : Serves r
  pub in_thread : here ≡ r.tid
  pub channel : Channel
  pub live : r.channels p ≡ some channel
  pub owned : channel.own_loop ≡ r.self
  pub same_fd : channel.fd ≡ fd
  pub added : channel.index ≡ k_added

-- The kernel watches such a channel, under its descriptor and with its address.
pub Holds-interest :
    (here p fd : ℕ) (r : Reactor)
    → (h : Holds here p fd r) → interest r.ctls fd ≡ some (h.channel.events, p)
Holds-interest here p fd r h =
    let reg = h.serves.registered p h.channel h.live in
    ground (arith, h.serves.agrees fd, reg, h.same_fd, h.added, h.live)

-- A registered channel whose descriptor is watched.
pub registered-Holds :
    {here p : ℕ} {r : Reactor} {c : Channel} (fd : ℕ) (e : Entry)
    → Serves r
    → IsRegistered r here p c
    → c.fd ≡ fd
    → interest r.ctls fd ≡ some e
    → Holds here p fd r
registered-Holds {p = p} {r = r} {c = c} fd e v g same_fd watched = record {
  serves = v;
  in_thread = g.in_thread;
  channel = c;
  live = g.live;
  owned = g.owned;
  same_fd = same_fd;
  added = ground (arith, v.registered p c g.live, g.used, v.agrees fd, same_fd, watched, g.live);
}

pub Holds-IsUsable :
    {here p fd : ℕ} {r : Reactor} → (h : Holds here p fd r) → IsUsable r here p h.channel
Holds-IsUsable h = record {
  in_thread = h.in_thread;
  live = h.live;
  owned = h.owned;
  free_fd = λ e. ground (arith, h.added);
}

-- A usable channel that gets a mask with some event is then one that the kernel watches.
pub update_with-Holds :
    (f : ℕ → ℕ) (here p : ℕ) (r : Reactor) (c : Channel)
    → Serves r
    → IsUsable r here p c
    → f c.events ≢ 0
    → (update_with f here p r ≡ ok (settled f p c r))
      × Holds here p c.fd (settled f p c r)
      × Touches p c.fd r (settled f p c r)
update_with-Holds f here p r c v u some_event =
    let t = settled-Touches f p r c in
    (
      update_with-settled f here p r c v u,
      record {
        serves = update_with-Serves f here p r c v u;
        in_thread = u.in_thread ∙ sym t.same_tid;
        channel = record c { events = f c.events; index = settled_index f c };
        live = settled_live f p r c;
        owned = u.owned ∙ sym t.same_self;
        same_fd = refl;
        added = ground (arith, v.registered p c u.live);
      },
      t,
    )

-- What is done to one channel leaves the others as they are.
pub Holds-Touches :
    {here p fd q fd' : ℕ} {r r' : Reactor}
    → Touches p fd r r'
    → Serves r'
    → q ≢ p
    → Holds here q fd' r
    → Holds here q fd' r'
Holds-Touches t v ne h = record {
  serves = v;
  in_thread = h.in_thread ∙ sym t.same_tid;
  channel = h.channel;
  live = t.channels_same _ ne ∙ h.live;
  owned = h.owned ∙ sym t.same_self;
  same_fd = h.same_fd;
  added = h.added;
}

-- A channel that is made at a free address.
pub made-Serves :
    (p fd : ℕ) (r : Reactor)
    → Serves r
    → r.channels p ≡ none
    → Serves (store p (new_channel r.self fd) r)
unfolding new_channel
made-Serves p fd r v free = record {
  is_map = v.is_map;
  registered = λ q c e. ground (arith, v.registered q c, free);
  accepted = v.accepted;
  agrees = λ k. ground (arith, v.agrees k, free);
}
