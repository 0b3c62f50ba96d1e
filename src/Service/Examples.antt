-- ===== src/Service/Examples.antt =====
-- The echo server in its loop, with no connection yet.
use mudo_reprint.Base.{
  ℕ, ◌≡◌, refl, Result, none, some, true, [], ◌∷◌, arith, lookup, nat_eq, text_eq,
}
use mudo_reprint.Channel.{Channel, new_channel}
use mudo_reprint.Buffer.{list_buffers}
use mudo_reprint.Epoller.{Reactor}
use mudo_reprint.TcpConnection.{Conn}
use mudo_reprint.EchoServer.{test_message, test_connection}
use mudo_reprint.EchoServer.RoundTrip.{takes_all}
use mudo_reprint.TcpServer.{Server}
use mudo_reprint.Lifetime.{Current, make_channel}
use mudo_reprint.Service.{World}
use mudo_reprint.Service.Valid.{IsValid}
use mudo_reprint.Epoller.Serving.{Holds, Inv-Serves, registered-Holds}
use mudo_reprint.Channel.{epollin}
use mudo_reprint.Epoller.Examples.{one_added, one_added-Inv, one_added-IsUsable, one_added_entry}
use mudo_reprint.Service.History.{AreGentle}
use mudo_reprint.Service.Started.{idle_world}
use mudo_reprint.Service.Echo.{echo-AreGentle}
use mudo_reprint.Base.{bit_or, inl, inr, ◌⊎◌}
use mudo_reprint.Epoller.{store, new_epoller}
use mudo_reprint.Epoller.Update.{settled, IsUsable}
use mudo_reprint.Epoller.Effects.{Touches, Touches-trans}
use mudo_reprint.Epoller.Serving.{Serves, made-Serves, update_with-Holds, Holds-Touches}
use mudo_reprint.Lifetime.Channels.{make_channel-Touches}

-- Every loop is in the thread 5.
abbrev pub tid_of : ℕ → ℕ
tid_of loop = 5

abbrev pub no_loops : Current
no_loops thread = none

abbrev pub server : Server
server = record {
  name = 115 ∷ [];
  ip_port = 49 ∷ 58 ∷ 50 ∷ [];
  is_started = true;
  has_conn_cb = true;
  connections = [];
  next_conn = 1;
  pool = record {
    base_loop = 1;
    base_tid = 5;
    thread_num = 0;
    name = 115 ∷ [];
    threads = [];
    loops = [];
    next = 0;
    started = true;
  };
  acts = [];
}

-- The reactor of Epoller.Examples with a second channel, at 6 for the descriptor 9.
abbrev pub second_channel : Channel
second_channel = new_channel 0 9

abbrev pub two_new : Reactor
two_new = store 6 second_channel one_added

abbrev pub two_added : Reactor
two_added = settled (λ m. bit_or m epollin) 6 second_channel two_new

two_new-Serves : Serves two_new
unfolding new_channel
two_new-Serves = made-Serves 6 9 one_added (Inv-Serves one_added one_added-Inv) refl

two_new-IsUsable : IsUsable two_new 5 6 second_channel
unfolding new_channel new_epoller
two_new-IsUsable = record { in_thread = refl; live = refl; owned = refl; free_fd = λ e. refl }

second_holds : Holds 5 6 9 two_added × Touches 6 9 two_new two_added
unfolding new_channel
second_holds =
    let (_, h, t) =
      update_with-Holds (λ m. bit_or m epollin) 5 6 two_new second_channel two_new-Serves
        two_new-IsUsable (λ e. omega arith) in
    (h, t)

first_holds : Holds 5 3 7 two_added
unfolding make_channel new_channel
first_holds =
    let u = one_added-IsUsable in
    let h : Holds 5 3 7 one_added =
      registered-Holds 7 (epollin, 3) (Inv-Serves one_added one_added-Inv)
        (record {
          in_thread = u.in_thread;
          live = u.live;
          owned = u.owned;
          used = λ e. ground arith;
        })
        refl one_added_entry in
    Holds-Touches (Touches-trans (make_channel-Touches 6 9 one_added) second_holds.1)
      second_holds.0.serves (λ e. omega arith) h

abbrev pub idle : World list_buffers
idle = idle_world list_buffers 5 server two_added

-- The loop's own channels.
abbrev pub IsOwn : ℕ → ℕ → Type 0
IsOwn p k = ((p ≡ 3) × (k ≡ 7)) ⊎ ((p ≡ 6) × (k ≡ 9))

kept_own : (p k : ℕ) → IsOwn p k → Holds 5 p k two_added
kept_own p k (inl (at_p, at_k)) = rw (at_p, at_k) first_holds
kept_own p k (inr (at_p, at_k)) = rw (at_p, at_k) (second_holds.0)

pub idle-IsValid : IsValid tid_of 5 IsOwn idle
unfolding new_channel
idle-IsValid = record {
  serves = second_holds.0.serves;
  in_thread = refl;
  in_server = refl;
  home = refl;
  alone = refl;
  started = refl;
  named = record { is_map = tt; numbered = λ k n e. cc; short = omega arith };
  up = λ n c e. cc;
  listed = λ k n e. cc;
  kept = kept_own;
  own_apart = λ p k n c o e. cc;
  apart = λ n m c d e. cc;
}

abbrev pub echo : ℕ → Conn list_buffers → Result (Conn list_buffers)
echo = test_message {api = list_buffers} 5 takes_all

pub echo_gentle : AreGentle tid_of 5 (test_connection {api = list_buffers}) (some echo)
echo_gentle = echo-AreGentle tid_of 5 takes_all

-- There is room for another channel.
pub room : (idle.reactor.channels 4 ≡ none) × (lookup 8 idle.reactor.channel_map ≡ none)
unfolding new_channel new_epoller
room = (refl, refl)
