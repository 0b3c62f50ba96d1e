-- ===== src/Lifetime/Served.antt =====
-- A connection of a TcpServer up to its destructor (TcpConnection.cpp and TcpServer.cpp): who keeps
-- it alive, and what its channel's callbacks do to it.
--
-- Its owners are the server's map, and the guards that its members hold while they call back.
-- `user` and `message` are the connection callback and the message callback that the user sets.
pub mod Closing
pub mod Queued
use mudo_reprint.Base.{
  ℕ, true, false, Bool, Option, none, some, List, [], ◌∷◌, if◌then◌else◌, Result, ok, err,
  assertion, fatal, dangling, ◌>>=◌, ◌>>◌, check, contains, text_eq,
}
use mudo_reprint.Buffer.{Buffers}
use mudo_reprint.Channel.{Handlers}
use mudo_reprint.Epoller.{Reactor}
use mudo_reprint.TcpConnection.Sending.{send_in_loop}
use mudo_reprint.TcpConnection.{
  Functor, sends, shuts_down, shut_down_in_loop, Conn, Callbacks, disconnected, is_state, in_thread,
  Received, received, end_of_stream, read_failed, Wrote, handle_close, handle_read, handle_write,
}
use mudo_reprint.TcpServer.{Server, remove_connection}
use mudo_reprint.Lifetime.{delete_channel}

module _ (api : Buffers) where
  -- A server with the connection, or, after the connection's destructor, with its loop.
  pub data Held : Type 0 where
    alive : Server → Conn api → Held
    gone : Server → Reactor → Held

module _ {api : Buffers} where
  abbrev pub is_alive : Held api → Bool
  is_alive (alive s c) = true
  is_alive (gone s r) = false

  -- `TcpConnection::~TcpConnection`: the assertion, and then the members, of which the channel is one.
  unfoldable pub destroy_connection : Server → Conn api → Result (Held api)
  unfolding delete_channel
  destroy_connection s c = do
    check (is_state c.state disconnected) assertion
    ok (gone s (delete_channel c.channel c.reactor))

  -- A guard is released. It was the last owner if the map does not have the connection.
  unfoldable pub release : Server → Conn api → Result (Held api)
  unfolding destroy_connection
  release s c = if contains c.name s.connections then ok (alive s c) else destroy_connection s c

  module _ {Time : Type 0} (user : Option (Conn api → Result (Conn api)))
      (message : Option (Time → Conn api → Result (Conn api))) (here : ℕ) where
    -- The callbacks that the members of the connection call before the server's close callback.
    abbrev pub user_callbacks : Callbacks api Time
    user_callbacks = record { conn_cb = user; msg_cb = message; close_cb = none }

    -- `handleClose`, whose last call is that of the server's `removeConnection`.
    unfoldable pub close_held : Held api → Result (Held api)
    unfolding release
    close_held (alive s c) = do
      c' ← handle_close user_callbacks here c
      s' ← remove_connection here c'.name s
      release s' c'
    close_held (gone s r) = err dangling

    unfoldable pub read_held : Received → Time → Held api → Result (Held api)
    unfolding close_held release
    read_held (received b bs) now (alive s c) = do
      c' ← handle_read user_callbacks here (received b bs) now c
      release s c'
    read_held end_of_stream now (alive s c) = do
      check (in_thread here c) fatal
      close_held (alive s c)
    read_held (read_failed errno) now (alive s c) = do
      c' ← handle_read user_callbacks here (read_failed errno) now c
      ok (alive s c')
    read_held input now (gone s r) = err dangling

    unfoldable pub write_held : Bool → Wrote → Held api → Result (Held api)
    write_held count_first answer (alive s c) = do
      c' ← handle_write count_first here answer c
      ok (alive s c')
    write_held count_first answer (gone s r) = err dangling

    -- The callbacks that the constructor gives to the channel.
    unfoldable pub held_handlers : Bool → Received → Wrote → Handlers Time (Held api)
    unfolding close_held read_held write_held
    held_handlers count_first input answer = record {
      read = some (read_held input);
      write = some (write_held count_first answer);
      close = some close_held;
      error = none;
    }

  -- A functor that `send` or `shutDown` has queued, which is bound to the bare `this`. The kernel's answer
  -- to a write is `answer`.
  unfoldable pub run_functor : ℕ → Wrote → Functor → Held api → Result (Held api)
  run_functor here answer (sends msg) (alive s c) = do
    c' ← send_in_loop here msg answer c
    ok (alive s c')
  run_functor here answer shuts_down (alive s c) = do c' ← shut_down_in_loop here c; ok (alive s c')
  run_functor here answer f (gone s r) = err dangling
