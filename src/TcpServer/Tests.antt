-- ===== src/TcpServer/Tests.antt =====
-- A server with one connection and a pool of two loops, 10 and 11, in the threads 20 and 21.
use mudo_reprint.Base.{
  bit_or, ◌-◌, false, Result, nat_eq, ℕ, ◌≡◌, refl, none, some, true, List, [], ◌∷◌, arith, ok,
  text_eq,
}
use mudo_reprint.ThreadPool.{Pool, get_next_loop}
use mudo_reprint.TcpServer.{Server, Act, conn_name, handle_new_conn}
use mudo_reprint.Buffer.{list_buffers}
use mudo_reprint.Channel.{epollin, new_channel}
use mudo_reprint.Epoller.{k_new}
use mudo_reprint.Epoller.Kernel.{interest}
use mudo_reprint.Epoller.Examples.{one_new, one_new-Inv, one_new-IsUsable, example_channel}
use mudo_reprint.TcpConnection.{Conn, Callbacks, connecting}
use mudo_reprint.TcpConnection.Establish.{established}
use mudo_reprint.TcpServer.Handover.{
  Hosted, perform_all, establish_pending, handle_new_conn-connect_established,
}

abbrev pool : Pool
pool = record {
  base_loop = 1;
  base_tid = 5;
  thread_num = 2;
  name = 115 ∷ [];
  threads = [];
  loops = 10 ∷ 11 ∷ [];
  next = 0;
  started = true;
}

abbrev first_name : List ℕ
first_name = conn_name (115 ∷ []) (49 ∷ 58 ∷ 50 ∷ []) 1

abbrev server : Server
server = record {
  name = 115 ∷ [];
  ip_port = 49 ∷ 58 ∷ 50 ∷ [];
  is_started = true;
  has_conn_cb = true;
  connections = (first_name, 100) ∷ [];
  next_conn = 2;
  pool = pool;
  acts = [];
}

-- The loops 10 and 11 in the threads 5 and 6, and a server in the thread 9.
abbrev thread_of : ℕ → ℕ
thread_of loop = loop - 5

abbrev elsewhere : Server
elsewhere = record server { pool = record pool { base_tid = 9 } }

elsewhere_answer : get_next_loop 9 elsewhere.pool ≡ ok (10, record elsewhere.pool { next = 1 })
unfolding get_next_loop
elsewhere_answer = refl

abbrev log_only : Conn list_buffers → Result (Conn list_buffers)
log_only c = ok c

abbrev callbacks : Callbacks list_buffers ℕ
callbacks = record { conn_cb = some log_only; msg_cb = none; close_cb = none }

abbrev hosted : Hosted list_buffers
hosted = record {
  loop = record { tid = 5; quit_flag = false; pending = []; calling = false; wakeups = 0 };
  conn = record {
    name = [];
    state = connecting;
    channel = 3;
    in_buffer = [];
    out_buffer = [];
    calls = [];
    queued = [];
    reactor = one_new;
  };
}

example-IsNew : example_channel.index ≡ k_new
unfolding new_channel
example-IsNew = refl

handle_new_conn-connect_established_example :
    (s' : Server) × (acts : List Act) × (h' : Hosted list_buffers) × (handle_new_conn thread_of 9
        101 elsewhere
      ≡ ok s')
    × (s'.acts ≡ acts)
    × (perform_all callbacks 9 acts hosted ≡ ok h')
    × (h'.loop.wakeups ≡ 1)
    × (establish_pending callbacks 5 h'.loop.pending h'.conn
        ≡ ok (established example_channel hosted.conn))
    × (interest (established example_channel hosted.conn).reactor.ctls example_channel.fd
        ≡ some (bit_or example_channel.events epollin, 3))
handle_new_conn-connect_established_example =
    handle_new_conn-connect_established callbacks thread_of 9 101 10
      (record elsewhere.pool { next = 1 }) elsewhere hosted hosted.conn example_channel log_only
      elsewhere_answer refl refl (λ e. omega arith) refl refl refl one_new-Inv one_new-IsUsable refl
      example-IsNew
