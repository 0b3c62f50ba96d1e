-- ===== src/Epoller/Poll.antt =====
-- `poll`: which channels become active, what they are told, and the growth of the event vector.
use mudo_reprint.Base.{
  ℕ, ◌*◌, ◌≤◌, ◌<◌, ◌≡◌, refl, inl, inr, some, false, List, [], ◌∷◌, ◌++◌, map, lookup, nat_eq,
  arith, ◌==◌, Result, ok, Option-cases, Bool-cases, All, length, ap,
}
use mathlib.Core.List.{append_assoc, append-nil}
use mudo_reprint.Channel.{Channel, set_revent}
use mudo_reprint.Epoller.{Reactor, k_added, store, fill_active_channels, filled, poll, events, grow}
use mudo_reprint.Epoller.Kernel.{interest}
use mudo_reprint.Epoller.Invariant.{Inv, IsMapped}
use mudo_reprint.Epoller.Update.{mapped_fd}

-- The kernel reports pointers of its interest list only.
abbrev pub IsReported : Reactor → ℕ × ℕ → Type 0
IsReported r (p, e) = (fd : ℕ) × (mask : ℕ) × (interest r.ctls fd ≡ some (mask, p))

-- Setting the reported word of a channel changes nothing that the invariant speaks of.
module _ (r : Reactor) (v : Inv r) (p event : ℕ) (c : Channel) (live : r.channels p ≡ some c) where
  abbrev told : Reactor
  told = store p (record c { revent = event }) r

  told-IsMapped : (fd q : ℕ) → lookup fd r.channel_map ≡ some q → IsMapped told fd q
  told-IsMapped fd q e = elim (Bool-cases (q == p)) [
    | inl hit ↦ record {
      channel = record c { revent = event };
      live = rw hit;
      same_fd = ground (arith, mapped_fd r v p fd c live);
      index = ground (arith, mapped_fd r v p fd c live);
    }
    | inr miss ↦ elsewhere miss (v.mapped fd q e)
  ]
    where
      elsewhere : (q == p) ≡ false → IsMapped r fd q → IsMapped told fd q
      elsewhere miss k = record {
        channel = k.channel;
        live = rw miss k.live;
        same_fd = k.same_fd;
        index = k.index;
      }

  told-Inv : Inv told
  told-Inv = record {
    is_map = v.is_map;
    mapped = told-IsMapped;
    registered = λ q d e. ground (arith, v.registered q d, v.registered p c live);
    accepted = v.accepted;
    agrees = λ fd. ground (arith, v.agrees fd);
  }

-- An entry of the interest list points at a live channel.
pub reported_live :
    (r : Reactor) (v : Inv r) (w : ℕ × ℕ)
    → IsReported r w
    → (c : Channel) × (r.channels w.0 ≡ some c) × (c.index ≡ k_added)
reported_live r v (p, e) (fd, mask, entry) = elim (Option-cases (lookup fd r.channel_map)) [
  | inl m ↦ absurd (ground (arith, v.agrees fd))
  | inr (q, m) ↦ from_mapped q m (v.mapped fd q m)
]
  where
    from_mapped :
        (q : ℕ)
        → lookup fd r.channel_map ≡ some q
        → IsMapped r fd q
        → (c : Channel) × (r.channels p ≡ some c) × (c.index ≡ k_added)
    from_mapped q m k = (
      k.channel,
      ground (arith, v.agrees fd, k.live, entry),
      ground (arith, v.agrees fd, k.live, entry),
    )

IsReported-mono :
    (es : List (ℕ × ℕ)) (r : Reactor) (p : ℕ) (c : Channel)
    → All (IsReported r) es
    → All (IsReported (store p c r)) es
IsReported-mono [] r p c h = tt
IsReported-mono ((q, e) ∷ es) r p c h = (h.0, IsReported-mono es r p c h.1)

abbrev Filled : List (ℕ × ℕ) → List ℕ → Reactor → Result (List ℕ × Reactor) → Type 0
Filled es active r res =
    (r' : Reactor) × (res ≡ ok (active ++ map (λ w. w.0) es, r'))
    × Inv r'
    × (r'.epoller ≡ r.epoller)

fill-Filled :
    (es : List (ℕ × ℕ)) (active : List ℕ) (r : Reactor)
    → Inv r
    → All (IsReported r) es
    → Filled es active r (fill_active_channels es active r)
unfolding fill_active_channels set_revent
fill-Filled [] active r v h = (r, rw append-nil, v, refl)
fill-Filled ((p, event) ∷ es) active r v h =
    let (c, live, _) = reported_live r v (p, event) h.0 in
    let c' : Channel = record c { revent = event } in
    let (r', e, v', same) =
      fill-Filled es (active ++ p ∷ []) (store p c' r) (told-Inv r v p event c live)
        (IsReported-mono es r p c' h.1) in
    (
      r',
      rw (live, e) (ap (λ l. ok (l, r')) (append_assoc active (p ∷ []) (map (λ w. w.0) es))),
      v',
      same,
    )

grow-Inv : (n : ℕ) (r : Reactor) → Inv r → Inv (grow n r)
grow-Inv n r v = elim (Bool-cases (n == r.slots)) [
  | inl full ↦ rw full (record {
    is_map = v.is_map;
    mapped = λ fd q e. elsewhere fd q (v.mapped fd q e);
    registered = v.registered;
    accepted = v.accepted;
    agrees = v.agrees;
  })
  | inr spare ↦ rw spare v
]
  where
    elsewhere :
        (fd q : ℕ)
        → IsMapped r fd q
        → IsMapped (record r { epoller = record r.epoller { slots = r.slots * 2 } }) fd q
    elsewhere fd q k = record {
      channel = k.channel;
      live = k.live;
      same_fd = k.same_fd;
      index = k.index;
    }

-- When the kernel reports entries of its interest list, no more of them than there are slots, `poll`
-- follows no dangling pointer and fails no assertion: it appends the reported channels in order,
-- keeps the invariant, and leaves more slots than there were reports.
pub poll-Inv :
    (es : List (ℕ × ℕ)) (active : List ℕ) (r : Reactor)
    → Inv r
    → All (IsReported r) es
    → length es ≤ r.slots
    → 0 < r.slots
    → (r' : Reactor) × (poll (events es) active r ≡ ok (active ++ map (λ w. w.0) es, r'))
      × Inv r'
      × (r'.channel_map ≡ r.channel_map)
      × (r'.ctls ≡ r.ctls)
      × (length es < r'.slots)
unfolding poll filled
poll-Inv [] active r v h le po = (r, rw append-nil, v, refl, refl, po)
poll-Inv ((p, event) ∷ es) active r v h le po =
    let ws = (p, event) ∷ es in
    let (r', e, v', same) = fill-Filled ws active r v h in
    (
      grow (length ws) r',
      ground (arith, e),
      grow-Inv (length ws) r' v',
      ground (arith, same),
      ground (arith, same),
      ground (arith, same),
    )
