-- ===== src/Epoller/Update.antt =====
-- The members that end in `update` keep the invariant, and no assertion in them fails.
use mudo_reprint.Base.{
  ◌≡◌, refl, ◌⊎◌, inl, inr, none, some, true, false, ◌∷◌, Option, lookup, insert, IsMap, nat_eq,
  arith, ◌==◌, if◌then◌else◌, Dict, lookup-insert, insert-IsMap, ok, Option-cases, Bool-cases,
  fun_ext, ℕ,
}
use mudo_reprint.Base.Int.{ℤ, eqb_ℤ}
use mudo_reprint.Channel.{Channel, is_none_event}
use mudo_reprint.Epoller.{
  Reactor, Op, ctl_add, ctl_mod, ctl_del, ctl, k_new, k_added, k_deleted, update, update_channel,
  channel_update, update_with, modify, add, register, update_event,
}
use mudo_reprint.Epoller.Kernel.{interest, believed, accepts, result, entry_of}
use mudo_reprint.Epoller.Invariant.{Inv, IsMapped}

-- A descriptor that is mapped to `p` is that of the channel at `p`.
pub mapped_fd :
    (r : Reactor) (v : Inv r) (p fd : ℕ) (c : Channel)
    → r.channels p ≡ some c
    → lookup fd r.channel_map ≡ some p
    → (fd ≡ c.fd) × ((c.index ≡ k_added) ⊎ (c.index ≡ k_deleted))
mapped_fd r v p fd c live e = from_mapped (v.mapped fd p e)
  where
    from_mapped : IsMapped r fd p → (fd ≡ c.fd) × ((c.index ≡ k_added) ⊎ (c.index ≡ k_deleted))
    from_mapped m = ground (arith, m.live, m.same_fd, m.index)

-- The reactor after an update that leaves the channel at `p` as `c` with the index `ix`.
abbrev after : Op → ℤ → Dict ℕ ℕ → ℕ → Channel → Reactor → Reactor
after op ix m p c r = record r {
  channels = update r.channels p (some (record c { index = ix }));
  epoller = record r.epoller { channel_map = m; ctls = ctl op p c ∷ r.ctls };
}

module _ (r : Reactor) (v : Inv r) (p : ℕ) (old c : Channel) (live : r.channels p ≡ some old)
    (same : old.fd ≡ c.fd) (op : Op) (ix : ℤ) (m : Dict ℕ ℕ) (m_map : IsMap m)
    (found : (fd : ℕ) → lookup fd m ≡ (if fd == c.fd then some p else lookup fd r.channel_map))
    (before : (lookup c.fd r.channel_map ≡ none) ⊎ (lookup c.fd r.channel_map ≡ some p))
    (accepted : accepts op (interest r.ctls c.fd) ≡ true)
    (index : (ix ≡ k_added) ⊎ (ix ≡ k_deleted))
    (entry : result (ctl op p c) ≡ entry_of p (some (record c { index = ix }))) where
  after-IsMapped :
      (fd q : ℕ)
      → lookup fd (after op ix m p c r).channel_map ≡ some q
      → IsMapped (after op ix m p c r) fd q
  after-IsMapped fd q e = elim (Bool-cases (q == p)) [
    | inl same_ptr ↦ record {
      channel = record c { index = ix };
      live = rw same_ptr;
      same_fd = ground (arith, found fd, mapped_fd r v p fd old live);
      index = index;
    }
    | inr other ↦ elsewhere other (v.mapped fd q (ground (arith, found fd)))
  ]
    where
      elsewhere : (q == p) ≡ false → IsMapped r fd q → IsMapped (after op ix m p c r) fd q
      elsewhere other k = record {
        channel = k.channel;
        live = rw other k.live;
        same_fd = k.same_fd;
        index = k.index;
      }

  after-registered :
      (q : ℕ) (d : Channel)
      → (after op ix m p c r).channels q ≡ some d
      → (d.index ≡ k_new) ⊎ (lookup d.fd m ≡ some q)
  after-registered q d e = ground (arith, found d.fd, v.registered q d)

  after-agrees :
      (fd : ℕ) → interest (after op ix m p c r).ctls fd ≡ believed (after op ix m p c r) fd
  after-agrees fd = elim (Bool-cases (fd == c.fd)) [
    | inl hit ↦ ground (arith, found fd)
    | inr miss ↦ elim (Option-cases (lookup fd r.channel_map)) [
      | inl e ↦ ground (arith, found fd, v.agrees fd)
      | inr (q, e) ↦ ground (arith, found fd, v.agrees fd, mapped_fd r v p fd old live)
    ]
  ]

  after-Inv : Inv (after op ix m p c r)
  after-Inv = record {
    is_map = m_map;
    mapped = after-IsMapped;
    registered = after-registered;
    accepted = (accepted, v.accepted);
    agrees = after-agrees;
  }

pub update-update :
    (f : ℕ → Option Channel) (p : ℕ) (a b : Option Channel)
    → update (update f p a) p b ≡ update f p b
update-update f p a b = fun_ext λ q. ground arith

-- What a member that sets the mask of the channel at `p` by `f` leads to, by the channel's index.
abbrev pub settled : (ℕ → ℕ) → ℕ → Channel → Reactor → Reactor
settled f p old r =
    let c = record old { events = f old.events } in
    if eqb_ℤ old.index k_new
    then after ctl_add k_added (insert old.fd p r.channel_map) p c r
    else if eqb_ℤ old.index k_deleted
    then after ctl_add k_added r.channel_map p c r
    else if f old.events == 0
    then after ctl_del k_deleted r.channel_map p c r
    else after ctl_mod k_added r.channel_map p c r

-- A channel of this loop that is alive, and whose descriptor is free if it is not registered yet.
pub record IsUsable (r : Reactor) (here p : ℕ) (c : Channel) : Type 0 where
  pub in_thread : here ≡ r.tid
  pub live : r.channels p ≡ some c
  pub owned : c.own_loop ≡ r.self
  pub free_fd : c.index ≡ k_new → lookup c.fd r.channel_map ≡ none

pub index-cases :
    (r : Reactor) (p : ℕ) (c : Channel)
    → Inv r
    → r.channels p ≡ some c
    → (c.index ≡ k_new)
      ⊎ ((lookup c.fd r.channel_map ≡ some p) × ((c.index ≡ k_added) ⊎ (c.index ≡ k_deleted)))
index-cases r p c v live = ground (arith, v.registered p c live, mapped_fd r v p c.fd c live)

update_with-settled :
    (f : ℕ → ℕ) (here p : ℕ) (r : Reactor) (c : Channel)
    → Inv r
    → IsUsable r here p c
    → update_with f here p r ≡ ok (settled f p c r)
unfolding channel_update update_channel modify add register update_event is_none_event
update_with-settled f here p r c v u = ground (
  arith,
  index-cases r p c v u.live,
  u.free_fd,
  update-update r.channels p (some (record c { events = f c.events })),
)

module _ (f : ℕ → ℕ) (here p : ℕ) (r : Reactor) (old : Channel) (v : Inv r)
    (u : IsUsable r here p old) where
  abbrev remasked : Channel
  remasked = record old { events = f old.events }

  added_new-Inv :
      old.index ≡ k_new → Inv (after ctl_add k_added (insert old.fd p r.channel_map) p remasked r)
  added_new-Inv e =
      after-Inv r v p old remasked u.live refl ctl_add k_added (insert old.fd p r.channel_map)
        (insert-IsMap old.fd p r.channel_map v.is_map)
        (λ fd. lookup-insert fd old.fd p r.channel_map) (inl (u.free_fd e))
        (ground (arith, v.agrees old.fd, u.free_fd e)) (inl refl) refl

  module _ (mapped : lookup old.fd r.channel_map ≡ some p) where
    same_map :
        (fd : ℕ)
        → lookup fd r.channel_map ≡ (if fd == old.fd then some p else lookup fd r.channel_map)
    same_map fd = ground arith

    added_again-Inv : old.index ≡ k_deleted → Inv (after ctl_add k_added r.channel_map p remasked r)
    added_again-Inv e =
        after-Inv r v p old remasked u.live refl ctl_add k_added r.channel_map v.is_map same_map
          (inr mapped) (ground (arith, v.agrees old.fd, u.live)) (inl refl) refl

    removed-Inv : old.index ≡ k_added → Inv (after ctl_del k_deleted r.channel_map p remasked r)
    removed-Inv e =
        after-Inv r v p old remasked u.live refl ctl_del k_deleted r.channel_map v.is_map same_map
          (inr mapped) (ground (arith, v.agrees old.fd, u.live)) (inr refl) refl

    modified-Inv : old.index ≡ k_added → Inv (after ctl_mod k_added r.channel_map p remasked r)
    modified-Inv e =
        after-Inv r v p old remasked u.live refl ctl_mod k_added r.channel_map v.is_map same_map
          (inr mapped) (ground (arith, v.agrees old.fd, u.live)) (inl refl) refl

    registered-Inv : (old.index ≡ k_added) ⊎ (old.index ≡ k_deleted) → Inv (settled f p old r)
    registered-Inv (inr e) = rw e (added_again-Inv e)
    registered-Inv (inl e) = elim (Bool-cases (f old.events == 0)) [
      | inl none_left ↦ rw (e, none_left) (removed-Inv e)
      | inr some_left ↦ rw (e, some_left) (modified-Inv e)
    ]

  settled-Inv : Inv (settled f p old r)
  settled-Inv = elim (index-cases r p old v u.live) [
    | inl e ↦ rw e (added_new-Inv e)
    | inr (mapped, e) ↦ registered-Inv mapped e
  ]

-- Whatever a member that ends in `update` does to the mask, it passes every assertion when the
-- channel is alive, belongs to this loop and thread, and has a free descriptor if it is new. It then
-- keeps the invariant, so that the kernel watches just the kAdded channels with their own masks.
pub update_with-Inv :
    (f : ℕ → ℕ) (here p : ℕ) (r : Reactor) (c : Channel)
    → Inv r
    → IsUsable r here p c
    → (r' : Reactor) × (update_with f here p r ≡ ok r') × (r' ≡ settled f p c r) × Inv r'
update_with-Inv f here p r c v u =
    (settled f p c r, update_with-settled f here p r c v u, refl, settled-Inv f here p r c v u)
