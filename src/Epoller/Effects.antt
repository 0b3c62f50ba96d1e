-- ===== src/Epoller/Effects.antt =====
-- What the members do to one channel, and that they leave all others as they were.
use mudo_reprint.Base.{
  ℕ, ◌≡◌, refl, ◌≢◌, ◌∙◌, none, some, lookup, lookup-insert, lookup-erase_ne, nat_eq, arith, ◌==◌,
  ◌&&◌, ◌||◌, if◌then◌else◌, ok,
}
use mudo_reprint.Base.Int.{ℤ, eqb_ℤ}
use mudo_reprint.Channel.{Channel}
use mudo_reprint.Epoller.{Reactor, k_new, k_added, k_deleted, update_with, channel_remove}
use mudo_reprint.Epoller.Kernel.{interest}
use mudo_reprint.Epoller.Invariant.{Inv}
use mudo_reprint.Epoller.Update.{IsUsable, settled, update_with-Inv}
use mudo_reprint.Epoller.Refinement.{update_with-watch}
use mudo_reprint.Epoller.Remove.{IsRegistered, channel_remove-Inv, removed, channel_remove-removed}

-- From `r` to `t`, nothing changes but the channel at `p` and its descriptor `fd`.
pub record Touches (p fd : ℕ) (r t : Reactor) : Type 0 where
  pub same_self : t.self ≡ r.self
  pub same_tid : t.tid ≡ r.tid
  pub channels_same : (q : ℕ) → q ≢ p → t.channels q ≡ r.channels q
  pub map_same : (k : ℕ) → k ≢ fd → lookup k t.channel_map ≡ lookup k r.channel_map
  pub interest_same : (k : ℕ) → k ≢ fd → interest t.ctls k ≡ interest r.ctls k

pub Touches-refl : (p fd : ℕ) (r : Reactor) → Touches p fd r r
Touches-refl p fd r = record {
  same_self = refl;
  same_tid = refl;
  channels_same = λ q e. refl;
  map_same = λ k e. refl;
  interest_same = λ k e. refl;
}

pub Touches-trans :
    {p fd : ℕ} {r s t : Reactor} → Touches p fd r s → Touches p fd s t → Touches p fd r t
Touches-trans a b = record {
  same_self = b.same_self ∙ a.same_self;
  same_tid = b.same_tid ∙ a.same_tid;
  channels_same = λ q e. b.channels_same q e ∙ a.channels_same q e;
  map_same = λ k e. b.map_same k e ∙ a.map_same k e;
  interest_same = λ k e. b.interest_same k e ∙ a.interest_same k e;
}

-- The channel at `p` in `t`, registered for the mask `mask`.
pub record IsMasked (p : ℕ) (c : Channel) (mask : ℕ) (t : Reactor) : Type 0 where
  pub channel : Channel
  pub live : t.channels p ≡ some channel
  pub same_fd : channel.fd ≡ c.fd
  pub same_loop : channel.own_loop ≡ c.own_loop
  pub has_mask : channel.events ≡ mask
  pub used : channel.index ≢ k_new

-- The index that an update leaves.
abbrev pub settled_index : (ℕ → ℕ) → Channel → ℤ
settled_index f c =
    if eqb_ℤ c.index k_new || eqb_ℤ c.index k_deleted
    then k_added
    else if f c.events == 0
    then k_deleted
    else k_added

pub settled_live :
    (f : ℕ → ℕ) (p : ℕ) (r : Reactor) (c : Channel)
    → (settled f p c r).channels p
      ≡ some (record c { events = f c.events; index = settled_index f c })
settled_live f p r c = ground arith

settled_index-used : (f : ℕ → ℕ) (c : Channel) → settled_index f c ≢ k_new
settled_index-used f c e = ground arith

settled-IsMasked :
    (f : ℕ → ℕ) (p : ℕ) (r : Reactor) (c : Channel) → IsMasked p c (f c.events) (settled f p c r)
settled-IsMasked f p r c = record {
  channel = record c { events = f c.events; index = settled_index f c };
  live = settled_live f p r c;
  same_fd = refl;
  same_loop = refl;
  has_mask = refl;
  used = settled_index-used f c;
}

pub settled-Touches :
    (f : ℕ → ℕ) (p : ℕ) (r : Reactor) (c : Channel) → Touches p c.fd r (settled f p c r)
settled-Touches f p r c = record {
  same_self = ground arith;
  same_tid = ground arith;
  channels_same = λ q e. ground arith;
  map_same = λ k e. ground (arith, lookup-insert k c.fd p r.channel_map);
  interest_same = λ k e. ground arith;
}

settled-interest :
    (f : ℕ → ℕ) (here p : ℕ) (r : Reactor) (c : Channel)
    → Inv r
    → IsUsable r here p c
    → interest (settled f p c r).ctls c.fd
      ≡ (if eqb_ℤ c.index k_added && f c.events == 0 then none else some (f c.events, p))
settled-interest f here p r c v u =
    let (r', e, v', w) = update_with-watch f here p r c v u in
    let (r'', e', same, v'') = update_with-Inv f here p r c v u in
    let d : settled f p c r ≡ r' = ground (arith, e, e', same) in rw (d, w c.fd) (ground arith)

pub removed-Touches : (p : ℕ) (r : Reactor) (c : Channel) → Touches p c.fd r (removed p c r)
removed-Touches p r c = record {
  same_self = refl;
  same_tid = refl;
  channels_same = λ q e. ground arith;
  map_same = λ k e. lookup-erase_ne k c.fd r.channel_map (ground arith);
  interest_same = λ k e. ground arith;
}

-- A member that ends in `update` gives a usable channel its new mask, and touches no other.
pub update_with-Touches :
    (f : ℕ → ℕ) (here p : ℕ) (r : Reactor) (c : Channel)
    → Inv r
    → IsUsable r here p c
    → (r' : Reactor) × (update_with f here p r ≡ ok r')
      × Inv r'
      × Touches p c.fd r r'
      × IsMasked p c (f c.events) r'
      × (interest r'.ctls c.fd
          ≡ (if eqb_ℤ c.index k_added && f c.events == 0 then none else some (f c.events, p)))
update_with-Touches f here p r c v u =
    let (r', e, same, v') = update_with-Inv f here p r c v u in
    (
      r',
      e,
      v',
      rw same (settled-Touches f p r c),
      rw same (settled-IsMasked f p r c),
      rw same (settled-interest f here p r c v u),
    )

-- A registered channel that is removed is kNew again, its descriptor is in neither the map nor the
-- interest list, and no other channel is touched.
pub channel_remove-Touches :
    (here p : ℕ) (r : Reactor) (c : Channel)
    → Inv r
    → IsRegistered r here p c
    → (r' : Reactor) × (channel_remove here p r ≡ ok r')
      × Inv r'
      × Touches p c.fd r r'
      × (r'.channels p ≡ some (record c { index = k_new }))
      × (lookup c.fd r'.channel_map ≡ none)
      × (interest r'.ctls c.fd ≡ none)
channel_remove-Touches here p r c v u =
    let (r', e, v', m, i) = channel_remove-Inv here p r c v u in
    let d : r' ≡ removed p c r = ground (arith, e, channel_remove-removed here p r c v u) in
    (r', e, v', rw d (removed-Touches p r c), rw d (ground arith), m, i)
