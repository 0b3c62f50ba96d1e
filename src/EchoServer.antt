-- ===== src/EchoServer.antt =====
-- main.cpp: the callbacks of its echo server.
pub mod RoundTrip
pub mod Functors
pub mod Server
mod Tests
use mudo_reprint.Base.{ℕ, List, [], ◌∷◌, ◌++◌, take, Result, ok, ◌>>=◌, if◌then◌else◌, some, none}
use mudo_reprint.Buffer.{Buffers}
use mudo_reprint.TcpConnection.{
  Conn, Callbacks, connected, is_state, Wrote, wrote, failed, Received, received, SocketCall, write,
  shutdown_write, handle_read,
}
use mudo_reprint.TcpConnection.Sending.{send}

module _ {api : Buffers} where
  open api use {bytes, retrieve_all}

  -- `answer` is what the kernel says to a write of some bytes.
  unfoldable pub test_message :
      ℕ → (List ℕ → Wrote) → {Time : Type 0} → Time → Conn api → Result (Conn api)
  test_message here answer time c =
      let msg = bytes c.in_buffer in
      let c' = record c { in_buffer = retrieve_all c.in_buffer } in
      if is_state c'.state connected then send here msg (answer msg) c' else ok c'

  -- `testConnection` only writes a log line.
  unfoldable pub test_connection : Conn api → Result (Conn api)
  test_connection c = ok c

  -- The connections of the server have these callbacks, and `on_close` of the server.
  abbrev pub echo_callbacks :
      {Time : Type 0} → ℕ → (List ℕ → Wrote) → (Conn api → Result (Conn api)) → Callbacks api Time
  echo_callbacks here answer on_close = record {
    conn_cb = some test_connection;
    msg_cb = some (test_message here answer);
    close_cb = some on_close;
  }
