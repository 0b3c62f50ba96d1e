-- ===== src/Epoller/History.antt =====
-- A reactor over any sequence of what the program does to it.
use mudo_reprint.Base.{
  ℕ, ◌≤◌, ◌<◌, ◌≡◌, inl, inr, none, false, List, All, length, lookup, nat_eq, arith, ok, ◌==◌,
  Option-cases, subst, Reach, Reach-keeps,
}
use mudo_reprint.Channel.{Channel, new_channel}
use mudo_reprint.Epoller.{Reactor, store, update_with, channel_remove, poll, events}
use mudo_reprint.Epoller.Kernel.{believed}
use mudo_reprint.Epoller.Invariant.{Inv, IsMapped, new_reactor, new_reactor-Inv}
use mudo_reprint.Epoller.Update.{IsUsable, update_with-Inv}
use mudo_reprint.Epoller.Remove.{IsRegistered, channel_remove-Inv}
use mudo_reprint.Epoller.Poll.{IsReported, poll-Inv}

-- A channel is made at a free address; a usable one sets its mask and updates; a registered one is
-- removed; and `poll` is given reports of the interest list.
pub data Step (r t : Reactor) : Type 0 where
  makes : (p fd : ℕ) → r.channels p ≡ none → t ≡ store p (new_channel r.self fd) r → Step r t
  updates :
      (f : ℕ → ℕ) (here p : ℕ) (c : Channel)
      → IsUsable r here p c
      → update_with f here p r ≡ ok t
      → Step r t
  removes :
      (here p : ℕ) (c : Channel)
      → IsRegistered r here p c
      → channel_remove here p r ≡ ok t
      → Step r t
  polls :
      (es : List (ℕ × ℕ)) (active found : List ℕ)
      → All (IsReported r) es
      → length es ≤ r.slots
      → 0 < r.slots
      → poll (events es) active r ≡ ok (found, t)
      → Step r t

module _ (r : Reactor) (v : Inv r) (p fd : ℕ) (free : r.channels p ≡ none) where
  abbrev made : Reactor
  made = store p (new_channel r.self fd) r

  -- The map leads to no free address.
  mapped_elsewhere : (k q : ℕ) → IsMapped r k q → (q == p) ≡ false
  mapped_elsewhere k q m = ground (arith, m.live, free)

  made-IsMapped : (k q : ℕ) → IsMapped r k q → IsMapped made k q
  made-IsMapped k q m = record {
    channel = m.channel;
    live = rw (mapped_elsewhere k q m) m.live;
    same_fd = m.same_fd;
    index = m.index;
  }

  made-believed : (k : ℕ) → believed made k ≡ believed r k
  made-believed k = elim (Option-cases (lookup k r.channel_map)) [
    | inl e ↦ ground arith
    | inr (q, e) ↦ ground (arith, mapped_elsewhere k q (v.mapped k q e))
  ]

  pub made-Inv : Inv made
  unfolding new_channel
  made-Inv = record {
    is_map = v.is_map;
    mapped = λ k q e. made-IsMapped k q (v.mapped k q e);
    registered = λ q d e. ground (arith, v.registered q d);
    accepted = v.accepted;
    agrees = λ k. rw (made-believed k) (v.agrees k);
  }

Step-Inv : (r t : Reactor) → Step r t → Inv r → Inv t
Step-Inv r t (makes p fd free e) v = rw e (made-Inv r v p fd free)
Step-Inv r t (updates f here p c u e) v =
    let (t', e', _, v') = update_with-Inv f here p r c v u in
    let same : t' ≡ t = cc in subst Inv same v'
Step-Inv r t (removes here p c u e) v =
    let (t', e', v', _, _) = channel_remove-Inv here p r c v u in
    let same : t' ≡ t = cc in subst Inv same v'
Step-Inv r t (polls es active found h le po e) v =
    let (t', e', v', _, _, _) = poll-Inv es active r v h le po in
    let same : t' ≡ t = cc in subst Inv same v'

-- From a new reactor, over any sequence of new channels, updates of usable channels, removals of
-- registered ones and polls: the kernel accepted every `epoll_ctl` call, its interest list holds just
-- the kAdded channels under their descriptors with their own masks and addresses, and every
-- descriptor in the map is that of a live channel.
pub Reach-new_reactor-Inv :
    (self tid : ℕ) (t : Reactor) → Reach Step (new_reactor self tid) t → Inv t
Reach-new_reactor-Inv self tid t r = Reach-keeps Inv Step-Inv r (new_reactor-Inv self tid)
