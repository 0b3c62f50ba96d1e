-- ===== src/Epoller/Kernel.antt =====
-- The interest list that the recorded `epoll_ctl` calls produce, by the documented behaviour of the
-- call: ADD fails on a descriptor that is in the list, MOD and DEL on one that is not, and a call
-- that fails changes nothing.
use mudo_reprint.Base.{
  ℕ, ◌≡◌, Bool, true, false, Option, none, some, List, [], ◌∷◌, ◌==◌, ◌&&◌, if◌then◌else◌, lookup,
  nat_eq,
}
use mudo_reprint.Base.Int.{eqb_ℤ}
use mudo_reprint.Channel.{Channel}
use mudo_reprint.Epoller.{Op, ctl_add, ctl_mod, ctl_del, Ctl, Reactor, k_added}

-- An entry is the event word and the user pointer.
abbrev pub Entry : Type 0
Entry = ℕ × ℕ

abbrev pub accepts : Op → Option Entry → Bool
accepts ctl_add none = true
accepts ctl_add (some _) = false
accepts ctl_mod none = false
accepts ctl_mod (some _) = true
accepts ctl_del none = false
accepts ctl_del (some _) = true

abbrev pub result : Ctl → Option Entry
result c = elim c.op [
  | ctl_add ↦ some (c.events, c.ptr)
  | ctl_mod ↦ some (c.events, c.ptr)
  | ctl_del ↦ none
]

abbrev pub interest : List Ctl → ℕ → Option Entry
interest [] fd = none
interest (c ∷ cs) fd =
    if c.fd == fd && accepts c.op (interest cs fd) then result c else interest cs fd

-- No call fails.
abbrev pub AllAccepted : List Ctl → Type 0
AllAccepted [] = Unit
AllAccepted (c ∷ cs) = (accepts c.op (interest cs c.fd) ≡ true) × AllAccepted cs

-- What the reactor takes the interest list to be: the channels of its map that are kAdded, each with
-- its own events and address.
abbrev pub entry_of : ℕ → Option Channel → Option Entry
entry_of p none = none
entry_of p (some c) = if eqb_ℤ c.index k_added then some (c.events, p) else none

abbrev pub believed : Reactor → ℕ → Option Entry
believed r fd = elim (lookup fd r.channel_map) [ none ↦ none | some p ↦ entry_of p (r.channels p) ]
