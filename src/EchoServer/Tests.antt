-- ===== src/EchoServer/Tests.antt =====
-- Two messages on the connection of the reactor's example.
use mudo_reprint.Base.{ℕ, ◌≡◌, refl, List, [], ◌∷◌, ok, arith}
use mudo_reprint.Buffer.{list_buffers}
use mudo_reprint.Channel.{is_writing, has, new_channel}
use mudo_reprint.Epoller.Examples.{one_added, one_added-IsUsable, added_channel}
use mudo_reprint.TcpConnection.{Conn, connected}
use mudo_reprint.EchoServer.RoundTrip.{Message, IsQuiet, read_all, sent, read_all-sent}

abbrev conn : Conn list_buffers
conn = record {
  name = [];
  state = connected;
  channel = 3;
  in_buffer = [];
  out_buffer = [];
  calls = [];
  queued = [];
  reactor = one_added;
}

conn-IsQuiet : IsQuiet 5 conn added_channel
unfolding is_writing new_channel has
conn-IsQuiet = record {
  in_loop = record { thread = one_added-IsUsable.in_thread; live = one_added-IsUsable.live };
  up = refl;
  idle = (refl, refl);
  read_out = refl;
}

abbrev two : List Message
two = (104, 105 ∷ []) ∷ (33, []) ∷ []

abbrev now : ℕ
now = 0

read_all-sent_example :
    (c' : Conn list_buffers) × (read_all 5 ok now two conn ≡ ok c')
    × (sent c'.calls ≡ 104 ∷ 105 ∷ 33 ∷ [])
    × IsQuiet 5 c' added_channel
read_all-sent_example =
    read_all-sent 5 ok now two conn added_channel conn-IsQuiet (omega arith, (omega arith, tt))
