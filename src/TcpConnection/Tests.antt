-- ===== src/TcpConnection/Tests.antt =====
-- A connection whose channel is the example of the reactor, with plain lists for buffers.
use mudo_reprint.Base.{
  zero, suc, ap, length, ltb, if◌then◌else◌, ◌-◌, ◌^◌, assertion, ℕ, ◌<◌, ◌≡◌, ◌≢◌, refl, ◌⊎◌, inr,
  true, none, some, List, [], ◌∷◌, ◌++◌, nat_eq, arith, bit_or, ok, err, assertion, out_of_range,
}
use mudo_reprint.Buffer.{list_buffers}
use mudo_reprint.Channel.{Channel, new_channel, epollout, is_writing, has}
use mudo_reprint.Epoller.{store}
use mudo_reprint.Epoller.Invariant.{Inv}
use mudo_reprint.Epoller.Update.{settled, update_with-Inv}
use mudo_reprint.Epoller.{disable_all}
use mudo_reprint.Epoller.Examples.{one_added, one_added-Inv, one_added-IsUsable, added_channel}
use mudo_reprint.TcpConnection.{
  Conn, Callbacks, connected, disconnected, wrote, failed, ewouldblock, write, shutdown_write,
  handle_write, handle_close, end_of_stream,
}
use mudo_reprint.TcpConnection.{shut_down, start_shut_down, shuts_down, disconnecting}
use mudo_reprint.TcpConnection.Race.{start_shut_down-handle_close}
use mudo_reprint.TcpConnection.Sending.{send_in_loop}
use mudo_reprint.TcpConnection.Overflow.{send_in_loop-overflow}
use mudo_reprint.TcpConnection.SendCases.{InLoop, IsIdle, send_in_loop-throws}
use mudo_reprint.TcpConnection.ShortWrite.{send_in_loop-short_write}
use mudo_reprint.TcpConnection.Write.{handle_write-loses}
use mudo_reprint.TcpConnection.Advance.{Advances}
use mudo_reprint.TcpConnection.Lifecycle.{
  Event, send_call, shut_down_call, input, history, AreForward, history-Advances,
}

abbrev conn : Conn list_buffers
conn = record {
  name = 99 ∷ [];
  state = connected;
  channel = 3;
  in_buffer = [];
  out_buffer = [];
  calls = [];
  queued = [];
  reactor = one_added;
}

abbrev msg : List ℕ
msg = 104 ∷ 105 ∷ 33 ∷ []

conn-InLoop : InLoop 5 conn added_channel
conn-InLoop = record { thread = one_added-IsUsable.in_thread; live = one_added-IsUsable.live }

conn_up : conn.state ≢ disconnected
conn_up e = ground arith

conn-IsIdle : IsIdle conn added_channel
unfolding is_writing new_channel has
conn-IsIdle = (refl, refl)

send_in_loop-throws_example : send_in_loop 5 msg (failed ewouldblock) conn ≡ err out_of_range
send_in_loop-throws_example =
    send_in_loop-throws 5 msg (failed ewouldblock) conn added_channel conn-InLoop conn_up
      (omega arith) (omega arith) (inr (conn-IsIdle, refl, refl))

-- The kernel takes one byte of three: the first of them is then kept, and goes out again.
send_in_loop-short_write_example :
    (c' : Conn list_buffers) × (send_in_loop 5 msg (wrote 1) conn ≡ ok c')
    × Inv c'.reactor
    × (c'.reactor ≡ settled (λ m. bit_or m epollout) 3 added_channel one_added)
    × (c'.out_buffer ≡ 104 ∷ 105 ∷ [])
    × (104 ∷ c'.out_buffer ≢ msg)
send_in_loop-short_write_example =
    send_in_loop-short_write 5 0 msg conn added_channel one_added-Inv one_added-IsUsable conn_up
      conn-IsIdle (omega arith) (omega arith) (λ e. ground arith)

-- The channel waits for writability with two bytes in the buffer.
abbrev writing_channel : Channel
writing_channel = record added_channel { events = 5 }

abbrev writing : Conn list_buffers
writing = record conn { out_buffer = 105 ∷ 33 ∷ []; reactor = store 3 writing_channel one_added }

writing-InLoop : InLoop 5 writing writing_channel
writing-InLoop = record { thread = one_added-IsUsable.in_thread; live = refl }

writing-IsWriting : is_writing writing_channel ≡ true
unfolding is_writing has
writing-IsWriting = refl

handle_write-loses_example :
    ((0 < 2) × (handle_write true 5 (wrote 2) writing ≡ err assertion))
    ⊎ ((◌≡◌ {A = ℕ} 2 0)
        × (handle_write true 5 (wrote 2) writing
            ≡ ok (record writing {
              out_buffer = [];
              calls = shutdown_write ∷ write (105 ∷ 33 ∷ []) (wrote 2) ∷ [];
            }))
        × (◌≡◌ {A = List ℕ} [] []))
handle_write-loses_example =
    handle_write-loses true 5 (wrote 2) writing writing_channel writing-InLoop writing-IsWriting

-- The connection callback records its call under the name.
abbrev callbacks : Callbacks list_buffers ℕ
callbacks = record {
  conn_cb = some (λ c. ok (record c { name = c.name ++ 43 ∷ [] }));
  msg_cb = some (λ now c. ok c);
  close_cb = none;
}

callbacks-AreForward : AreForward callbacks
callbacks-AreForward = record { conn = λ c. omega arith; msg = λ now c. omega arith; close = tt }

abbrev events : List (Event ℕ)
events = send_call 5 msg (wrote 3) ∷ shut_down_call ∷ input end_of_stream 0 ∷ []

history-Advances_example : Advances conn (history callbacks events conn)
history-Advances_example = history-Advances callbacks callbacks-AreForward events conn

-- Thread 6 has found the connection up when the loop, in thread 5, closes it.
abbrev closed : Conn list_buffers
closed = record conn {
  state = disconnected;
  name = conn.name ++ 43 ∷ [];
  reactor = settled (λ m. 0) 3 added_channel one_added;
}

closed_lem : handle_close callbacks 5 conn ≡ ok closed
unfolding handle_close
closed_lem =
    let (r, e, same, v) =
      update_with-Inv (λ m. 0) 5 3 one_added added_channel one_added-Inv one_added-IsUsable in
    let done : disable_all 5 3 one_added ≡ ok closed.reactor = rw same at e in rw done refl

start_shut_down-handle_close_example :
    (c'' : Conn list_buffers) × (shut_down 6 conn ≡ start_shut_down 6 conn)
    × (closed.state ≡ disconnected)
    × (start_shut_down 6 closed ≡ ok c'')
    × (c''.state ≡ disconnecting)
    × (c''.queued ≡ shuts_down ∷ [])
unfolding new_channel
start_shut_down-handle_close_example =
    start_shut_down-handle_close callbacks callbacks-AreForward 6 conn closed refl closed_lem
      (λ e. omega arith)

zeros : ℕ → List ℕ
zeros zero = []
zeros (suc n) = 0 ∷ zeros n

length-zeros : (n : ℕ) → length (zeros n) ≡ n
unfolding zeros
length-zeros zero = refl
length-zeros (suc n) = ap suc (length-zeros n)

abbrev big_msg : List ℕ
big_msg = zeros (2 ^ 31)

-- All but 4096 bytes are taken.
send_in_loop-overflow_example : send_in_loop 5 big_msg (wrote (2 ^ 31 - 4096)) conn ≡ (
    if ltb (length big_msg - (2 ^ 31 - 4096)) (2 ^ 31)
    then err assertion
    else ok (record conn { calls = write big_msg (wrote (2 ^ 31 - 4096)) ∷ [] }))
send_in_loop-overflow_example =
    send_in_loop-overflow 5 big_msg conn added_channel conn-InLoop conn_up
      (omega (arith, length-zeros (2 ^ 31))) (omega (arith, length-zeros (2 ^ 31)))
      (wrote (2 ^ 31 - 4096)) conn-IsIdle (omega (arith, length-zeros (2 ^ 31)))
