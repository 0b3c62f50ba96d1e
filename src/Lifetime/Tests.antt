-- ===== src/Lifetime/Tests.antt =====
-- Examples. descriptors 10 and 11 are the timer's and the eventfd, 12 the listening socket.
use mudo_reprint.Base.{
  ◌⊎◌, Option, nat_eq, [], ◌∷◌, Result, text_eq, true, false, ℕ, ◌≡◌, refl, ◌≢◌, none, some, ok,
  err, dangling, arith, nat_eq, ◌>>=◌, ◌&&◌, ◌==◌, fatal,
}
use mudo_reprint.Base.Int.{pos}
use mudo_reprint.Channel.{epollin}
use mudo_reprint.Epoller.{Reactor}
use mudo_reprint.Epoller.Kernel.{interest}
use mudo_reprint.Epoller.Invariant.{Inv}
use mudo_reprint.Epoller.Examples.{one_added, one_added-Inv, one_added_room}
use mudo_reprint.Lifetime.{
  Current, set_current, event_loop, destroy_event_loop, acceptor, listen, destroy_acceptor,
}
use mudo_reprint.Lifetime.Acceptors.{HasRoom, IsRestored, destroy_acceptor-listen}
use mudo_reprint.Epoller.Examples.{one_added-IsUsable, added_channel}
use mudo_reprint.Buffer.{list_buffers}
use mudo_reprint.Channel.{new_channel}
use mudo_reprint.Channel.Flags.{Flags, encode}
use mudo_reprint.Channel.Safety.Alive.{handle_event_alive}
use mudo_reprint.TcpConnection.{Conn, connected, end_of_stream, failed, ewouldblock}
use mudo_reprint.TcpServer.{Server, new_server}
use mudo_reprint.ThreadPool.{new_pool}
use mudo_reprint.EchoServer.{test_connection}
use mudo_reprint.Lifetime.Served.{alive, is_alive, close_held, held_handlers}
use mudo_reprint.Lifetime.Served.Closing.{IsServed, handle_event-closes}
use mudo_reprint.Lifetime.Served.{Held, run_functor}
use mudo_reprint.Lifetime.Served.Queued.{with_queued, send-close_held}
use mudo_reprint.TcpConnection.{sends, wrote}
use mudo_reprint.TcpConnection.Sending.{send}
use mudo_reprint.Lifetime.Listening.{start_acceptor, Started, start_calls, start_acceptor-listens}
use mudo_reprint.Socket.Examples.{Simple, simple_calls}
use mudo_reprint.Base.{◌==◌, fatal, false}
use mudo_reprint.Lifetime.Threads.{destroy_event_loop-event_loop}

abbrev no_loops : Current
no_loops = λ t. none

abbrev room : HasRoom one_added 4 8
room = record { valid = one_added-Inv; free = one_added_room.0; unused = one_added_room.1 }

destroy_acceptor-listen_example :
    (r₁ r₂ : Reactor) × ((do r₀ ← acceptor 4 8 true one_added; listen one_added.tid 4 true r₀)
      ≡ ok r₁)
    × (interest r₁.ctls 8 ≡ some (epollin, 4))
    × ((k : ℕ) → k ≢ 8 → interest r₁.ctls k ≡ interest one_added.ctls k)
    × (destroy_acceptor one_added.tid 4 r₁ ≡ ok r₂)
    × Inv r₂
    × IsRestored one_added r₂
destroy_acceptor-listen_example = destroy_acceptor-listen 4 8 one_added room

destroy_event_loop-event_loop_example :
    (r r' : Reactor) × (event_loop 5 1 2 3 (pos 10) (pos 11) no_loops
      ≡ ok (set_current 5 (some 1) no_loops, r))
    × (destroy_event_loop 5 2 3 (set_current 5 (some 1) no_loops, r) ≡ ok (no_loops, r'))
    × Inv r'
    × ((k : ℕ) → interest r'.ctls k ≡ none)
destroy_event_loop-event_loop_example =
    destroy_event_loop-event_loop 5 1 2 3 10 11 no_loops (λ e. omega arith) (λ e. omega arith) refl

-- A connection of an echo server of one thread, in the reactor of the example.
abbrev conn : Conn list_buffers
conn = record {
  name = 97 ∷ [];
  state = connected;
  channel = 3;
  in_buffer = [];
  out_buffer = [];
  calls = [];
  queued = [];
  reactor = one_added;
}

abbrev served : Server
served = record (new_server 1 5 (101 ∷ []) (49 ∷ [])) { connections = (97 ∷ [], 1) ∷ [] }

conn-IsServed : IsServed 5 served conn added_channel
unfolding new_channel new_server new_pool
conn-IsServed = record {
  valid = one_added-Inv;
  usable = one_added-IsUsable;
  added = refl;
  in_server = refl;
  is_map = (refl, tt);
  listed = refl;
}

-- The peer has closed its side while the connection waits for writability.
abbrev closed_and_writable : Flags
closed_and_writable = record {
  readable = true;
  urgent = false;
  writable = true;
  failed = false;
  hung_up = false;
  peer_closed = true;
}

abbrev log_only : Option (Conn list_buffers → Result (Conn list_buffers))
log_only = some test_connection

abbrev no_message : Option (ℕ → Conn list_buffers → Result (Conn list_buffers))
no_message = none

handle_event-closes_example :
    handle_event_alive is_alive
      (held_handlers log_only no_message 5 true end_of_stream (failed ewouldblock))
      (encode closed_and_writable)
      0
      (alive served conn)
    ≡ err dangling
unfolding test_connection
handle_event-closes_example =
    handle_event-closes log_only no_message 5 served conn added_channel conn-IsServed refl
      closed_and_writable true (failed ewouldblock) 0 refl

send-close_held_example :
    (h : Held list_buffers) × (send 6 (104 ∷ []) (wrote 1) conn
      ≡ ok (with_queued (sends (104 ∷ [])) conn))
    × (close_held log_only no_message 5 (alive served (with_queued (sends (104 ∷ [])) conn)) ≡ ok h)
    × (run_functor 5 (wrote 1) (sends (104 ∷ [])) h ≡ err dangling)
unfolding test_connection
send-close_held_example =
    send-close_held log_only no_message 5 6 served conn added_channel conn-IsServed (104 ∷ []) refl
      (λ e. omega arith) refl (wrote 1) (wrote 1)

-- The address 80 is taken, and the socket 8 is new.
abbrev kernel : Simple
kernel = record {
  options = λ fd o. 0;
  used = λ a. a == 80;
  bound = λ fd. none;
  hearing = λ fd. false;
}

abbrev listening : Started simple_calls
listening = start_calls simple_calls 8 81 kernel

start_acceptor-listens_example :
    (((listening.bound && listening.heard) ≡ true)
      × ((r' : Reactor) × (start_acceptor simple_calls one_added.tid 4 8 81 (kernel, one_added)
            ≡ ok (listening.kernel, r'))
          × Inv r'
          × (interest r'.ctls 8 ≡ some (epollin, 4))
          × ((k : ℕ) → k ≢ 8 → interest r'.ctls k ≡ interest one_added.ctls k)))
    ⊎ (((listening.bound && listening.heard) ≡ false)
        × (start_acceptor simple_calls one_added.tid 4 8 81 (kernel, one_added) ≡ err fatal))
start_acceptor-listens_example = start_acceptor-listens simple_calls 8 81 kernel 4 one_added room
