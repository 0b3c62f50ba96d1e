-- ===== src/Epoller/Tests.antt =====
-- The members of the reactor on one channel.
use mudo_reprint.Base.{
  ◌<◌, ◌≡◌, refl, some, [], ◌∷◌, nat_eq, arith, bit_or, ok, ℕ, Reach, here, next, subst,
}
use mudo_reprint.Channel.{new_channel, epollin}
use mudo_reprint.Epoller.{Reactor, enable_reading, poll, events, new_epoller, k_added}
use mudo_reprint.Epoller.Kernel.{interest}
use mudo_reprint.Epoller.Invariant.{Inv, new_reactor}
use mudo_reprint.Epoller.Update.{update_with-Inv}
use mudo_reprint.Epoller.Remove.{IsRegistered}
use mudo_reprint.Base.Int.{eqb_ℤ}
use mudo_reprint.Epoller.Refinement.{watch, update_with-watch}
use mudo_reprint.Epoller.History.{Step, makes, updates, Reach-new_reactor-Inv}
use mudo_reprint.Epoller.Poll.{poll-Inv}
use mudo_reprint.Epoller.Examples.{
  example_channel, one_new, one_new-Inv, one_new-IsUsable, one_added, one_added-Inv, added_channel,
}

added-IsRegistered : IsRegistered one_added 5 3 added_channel
unfolding new_epoller new_channel
added-IsRegistered = record {
  in_thread = refl;
  live = refl;
  owned = refl;
  used = λ e. ground arith;
}

added_entry : interest one_added.ctls 7 ≡ some (epollin, 3)
unfolding new_epoller new_channel
added_entry = refl

one_slot : 0 < one_added.slots
unfolding new_epoller new_channel
one_slot = omega arith

two_slots : 1 < one_added.slots
unfolding new_epoller new_channel
two_slots = omega arith

poll-Inv_example :
    (r' : Reactor) × (poll (events ((3, epollin) ∷ [])) [] one_added ≡ ok (3 ∷ [], r'))
    × Inv r'
    × (r'.channel_map ≡ one_added.channel_map)
    × (r'.ctls ≡ one_added.ctls)
    × (1 < r'.slots)
poll-Inv_example =
    poll-Inv ((3, epollin) ∷ []) [] one_added one_added-Inv ((7, epollin, added_entry), tt)
      (omega (arith, two_slots)) one_slot

update_with-watch_example :
    (r' : Reactor) × (enable_reading 5 3 one_new ≡ ok r')
    × Inv r'
    × ((k : ℕ)
        → interest r'.ctls k
          ≡ watch
              (eqb_ℤ example_channel.index k_added)
              (bit_or example_channel.events epollin)
              3
              example_channel.fd
              (interest one_new.ctls)
              k)
update_with-watch_example =
    update_with-watch (λ m. bit_or m epollin) 5 3 one_new example_channel one_new-Inv
      one_new-IsUsable

first_update : enable_reading 5 3 one_new ≡ ok one_added
first_update =
    let (r, e, same, v) =
      update_with-Inv (λ m. bit_or m epollin) 5 3 one_new example_channel one_new-Inv
        one_new-IsUsable in
    subst (λ t. enable_reading 5 3 one_new ≡ ok t) same e

one_added-Reach : Reach Step (new_reactor 0 5) one_added
one_added-Reach =
    next (next here (makes 3 7 refl refl))
      (updates (λ m. bit_or m epollin) 5 3 example_channel one_new-IsUsable first_update)

Reach-new_reactor-Inv_example : Inv one_added
Reach-new_reactor-Inv_example = Reach-new_reactor-Inv 0 5 one_added one_added-Reach
