-- ===== src/Epoller/Invariant.antt =====
-- What holds of a reactor between two calls.
use mudo_reprint.Base.{ℕ, ◌≡◌, refl, ◌⊎◌, none, some, lookup, IsMap, nat_eq}
use mudo_reprint.Channel.{Channel}
use mudo_reprint.Epoller.{Reactor, k_new, k_added, k_deleted, new_epoller}
use mudo_reprint.Epoller.Kernel.{AllAccepted, interest, believed}

-- The descriptor `fd` is mapped to a live channel that has it and is kAdded or kDeleted.
pub record IsMapped (r : Reactor) (fd p : ℕ) : Type 0 where
  pub channel : Channel
  pub live : r.channels p ≡ some channel
  pub same_fd : channel.fd ≡ fd
  pub index : (channel.index ≡ k_added) ⊎ (channel.index ≡ k_deleted)

-- Mapped descriptors have registered channels; a live channel is mapped unless it is kNew; every
-- `epoll_ctl` call so far was accepted; and the kernel's interest list is the one that the map and
-- the channels' indices and masks stand for.
pub record Inv (r : Reactor) : Type 0 where
  pub is_map : IsMap r.channel_map
  pub mapped : (fd p : ℕ) → lookup fd r.channel_map ≡ some p → IsMapped r fd p
  pub registered :
      (p : ℕ) (c : Channel)
      → r.channels p ≡ some c
      → (c.index ≡ k_new) ⊎ (lookup c.fd r.channel_map ≡ some p)
  pub accepted : AllAccepted r.ctls
  pub agrees : (fd : ℕ) → interest r.ctls fd ≡ believed r fd

abbrev pub new_reactor : ℕ → ℕ → Reactor
new_reactor self tid = record {
  self = self;
  tid = tid;
  channels = λ _. none;
  epoller = new_epoller;
}

pub new_reactor-Inv : (self tid : ℕ) → Inv (new_reactor self tid)
unfolding new_epoller
new_reactor-Inv self tid = record {
  is_map = tt;
  mapped = λ fd p e. cc;
  registered = λ p c e. cc;
  accepted = tt;
  agrees = λ fd. refl;
}

-- It has no channel in its map, and the kernel watches nothing for it.
pub new_reactor_lem :
    (self tid k : ℕ)
    → (lookup k (new_reactor self tid).channel_map ≡ none)
      × (interest (new_reactor self tid).ctls k ≡ none)
unfolding new_epoller
new_reactor_lem self tid k = (refl, refl)
