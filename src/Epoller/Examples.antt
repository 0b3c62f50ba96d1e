-- ===== src/Epoller/Examples.antt =====
-- A reactor with one channel, at address 3 for descriptor 7, before and after its first
-- `enableReading`.
use mudo_reprint.Epoller.Kernel.{interest}
use mudo_reprint.Base.{some, none, lookup, ◌≡◌, refl, inl, nat_eq, arith, bit_or, subst, ◌≤◌}
use mudo_reprint.Channel.{Channel, new_channel, epollin}
use mudo_reprint.Epoller.{Reactor, k_added, new_epoller, store}
use mudo_reprint.Epoller.Invariant.{Inv, new_reactor}
use mudo_reprint.Epoller.Update.{IsUsable, settled, update_with-Inv}

abbrev pub example_channel : Channel
example_channel = new_channel 0 7

abbrev pub one_new : Reactor
one_new = store 3 example_channel (new_reactor 0 5)

pub one_new-Inv : Inv one_new
unfolding new_channel new_epoller
one_new-Inv = record {
  is_map = tt;
  mapped = λ fd p e. cc;
  registered = λ p c e. inl (ground arith);
  accepted = tt;
  agrees = λ fd. refl;
}

pub one_new-IsUsable : IsUsable one_new 5 3 example_channel
unfolding new_epoller new_channel
one_new-IsUsable = record { in_thread = refl; live = refl; owned = refl; free_fd = λ e. refl }

abbrev pub one_added : Reactor
one_added = settled (λ m. bit_or m epollin) 3 example_channel one_new

abbrev pub added_channel : Channel
added_channel = record example_channel { events = epollin; index = k_added }

pub one_added-Inv : Inv one_added
one_added-Inv =
    let (r, e, same, v) =
      update_with-Inv (λ m. bit_or m epollin) 5 3 one_new example_channel one_new-Inv
        one_new-IsUsable in
    subst Inv same v

pub one_added-IsUsable : IsUsable one_added 5 3 added_channel
unfolding new_epoller new_channel
one_added-IsUsable = record {
  in_thread = refl;
  live = refl;
  owned = refl;
  free_fd = λ e. absurd (ground arith);
}

pub one_added_entry : interest one_added.ctls 7 ≡ some (epollin, 3)
unfolding new_epoller new_channel
one_added_entry = refl

pub one_added_fits : 1 ≤ one_added.slots
unfolding new_epoller new_channel
one_added_fits = omega arith

pub one_added_room : (one_added.channels 4 ≡ none) × (lookup 8 one_added.channel_map ≡ none)
unfolding new_epoller new_channel
one_added_room = (refl, refl)
