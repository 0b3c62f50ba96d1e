-- ===== src/TcpConnection.antt =====
-- TcpConnection.h and TcpConnection.cpp, with CallBacks.cpp: a connection in the reactor of its loop.
--
-- What the kernel answers to a read or a write is an argument. The user's callbacks are functions on
-- the state; an empty `std::function` is `none`. A functor that goes to the loop's queue, because
-- another thread asked for it, is recorded in `queued`.
pub mod Sending
pub mod SendCases
pub mod ShortWrite
pub mod Overflow
pub mod Write
pub mod Establish
pub mod Close
pub mod Advance
pub mod Print
pub mod Lifecycle
pub mod Race
mod Tests
use mudo_reprint.Base.{
  ℕ, ◌+◌, ◌-◌, ◌%◌, ◌^◌, Bool, true, false, not, ◌&&◌, ◌||◌, Option, none, some, List, [], ◌∷◌,
  ◌++◌, ◌==◌, ltb, leb, if◌then◌else◌, length, take, drop, Result, ok, err, assertion, fatal,
  out_of_range, bad_function_call, ◌>>=◌, ◌>>◌, check, deref,
}
use mudo_reprint.Base.Int.{ℤ, pos, negsuc, pos_part, ltb_ℤ, leb_ℤ}
use mudo_reprint.Buffer.{Buffers}
use mudo_reprint.Channel.{Channel, Handlers, is_writing, call, call_if_set, call_read_if_set}
use mudo_reprint.Epoller.{Reactor, enable_reading, enable_write, disable_write, disable_all}

pub data ConnectState : Type 0 where
  connecting connected disconnecting disconnected : ConnectState

-- `m_state == s`
abbrev pub is_state : ConnectState → ConnectState → Bool
is_state connecting connecting = true
is_state connected connected = true
is_state disconnecting disconnecting = true
is_state disconnected disconnected = true
is_state _ _ = false

abbrev pub ewouldblock : ℕ
ewouldblock = 11

abbrev pub epipe : ℕ
epipe = 32

abbrev pub econnreset : ℕ
econnreset = 104

-- What `write` answers: a number of bytes, or -1 and `errno`.
pub data Wrote : Type 0 where
  wrote : ℕ → Wrote
  failed : (errno : ℕ) → Wrote

-- What `readv` answers: some bytes (at least one), the end of the stream, or -1 and `errno`.
pub data Received : Type 0 where
  received : ℕ → List ℕ → Received
  end_of_stream : Received
  read_failed : (errno : ℕ) → Received

-- The calls on the connection's socket: `write` with the `count` bytes offered, and `shutdown`.
pub data SocketCall : Type 0 where
  write : (offered : List ℕ) → (answer : Wrote) → SocketCall
  shutdown_write : SocketCall

pub data Functor : Type 0 where
  sends : List ℕ → Functor
  shuts_down : Functor

module _ (api : Buffers) where
  open api use {Buffer}

  -- `channel` is the address of the connection's channel; `calls` are the socket calls, newest first.
  pub record Conn : Type 0 where
    pub name : List ℕ
    pub state : ConnectState
    pub channel : ℕ
    pub in_buffer : Buffer
    pub out_buffer : Buffer
    pub calls : List SocketCall
    pub queued : List Functor
    pub reactor : Reactor

  pub record Callbacks (Time : Type 0) : Type 0 where
    pub conn_cb : Option (Conn → Result Conn)
    pub msg_cb : Option (Time → Conn → Result Conn)
    pub close_cb : Option (Conn → Result Conn)

module _ (api : Buffers) where
  open api use {Buffer, bytes, retrieve_all}

  -- The order in which the two arguments of `write` in `handleWrite` are evaluated, which the
  -- language leaves open: `retrieveAllAsString` empties the buffer that `readableBytes` counts.
  abbrev pub offered_count : Bool → Buffer → ℕ
  offered_count count_first b =
      if count_first then length (bytes b) else length (bytes (retrieve_all b))

-- `n` after the first block of `sendInLoop`.
abbrev pub taken : Wrote → ℕ
taken (wrote n) = n
taken (failed errno) = 0

module _ {api : Buffers} where
  open api use {Buffer, bytes, append, retrieve, retrieve_all}

  abbrev pub with_reactor : Conn api → Reactor → Conn api
  with_reactor c r = record c { reactor = r }

  abbrev pub called : SocketCall → Conn api → Conn api
  called s c = record c { calls = s ∷ c.calls }

  abbrev pub in_thread : ℕ → Conn api → Bool
  in_thread here c = here == c.reactor.tid

  abbrev pub channel_of : Conn api → Result Channel
  channel_of c = deref (c.reactor.channels c.channel)

  abbrev pub set_state : ConnectState → Conn api → Conn api
  set_state s c = record c { state = s }

  unfoldable pub shut_down_in_loop : ℕ → Conn api → Result (Conn api)
  unfolding is_writing
  shut_down_in_loop here c = do
    check (in_thread here c) fatal
    channel ← channel_of c
    ok (if not (is_writing channel) then called shutdown_write c else c)

  -- What `shutDown` does once its test has found kConnected. In the loop's thread it follows the test at
  -- once; from another thread the loop can run in between.
  abbrev pub start_shut_down : ℕ → Conn api → Result (Conn api)
  start_shut_down here c =
      let c' = set_state disconnecting c in
      if in_thread here c'
      then shut_down_in_loop here c'
      else ok (record c' { queued = c'.queued ++ shuts_down ∷ [] })

  -- `shutDown` where nothing runs between its test and the rest.
  unfoldable pub shut_down : ℕ → Conn api → Result (Conn api)
  shut_down here c = if is_state c.state connected then start_shut_down here c else ok c

  -- The branch of `handleWrite` for `n > 0`.
  pub after_write : ℕ → ℕ → Conn api → Result (Conn api)
  after_write here n c = do
    b ← retrieve n c.out_buffer
    let c₁ = record c { out_buffer = b }
    if length (bytes b) == 0
        then (do
          r ← disable_write here c₁.channel c₁.reactor
          let c₂ = with_reactor c₁ r
          if is_state c₂.state disconnecting then shut_down_in_loop here c₂ else ok c₂)
        else ok c₁

  unfoldable pub handle_write : Bool → ℕ → Wrote → Conn api → Result (Conn api)
  unfolding is_writing
  handle_write count_first here answer c = do
    check (in_thread here c) fatal
    channel ← channel_of c
    let count = offered_count api count_first c.out_buffer
    let bs = take count (bytes c.out_buffer)
    let c₁ = called (write bs answer) (record c { out_buffer = retrieve_all c.out_buffer })
    if is_writing channel
        then (if taken answer == 0
            then ok (called shutdown_write c₁)
            else after_write here (taken answer) c₁)
        else ok c

  -- `m_msgCallBack(...)`, which throws if it is empty.
  abbrev pub call_message :
      {Time : Type 0}
      → Option (Time → Conn api → Result (Conn api))
      → Time
      → Conn api
      → Result (Conn api)
  call_message none now c = err bad_function_call
  call_message (some f) now c = f now c

  module _ {Time : Type 0} (callbacks : Callbacks api Time) where
    unfoldable pub handle_close : ℕ → Conn api → Result (Conn api)
    handle_close here c = do
      let c₁ = set_state disconnected c
      r ← disable_all here c₁.channel c₁.reactor
      c₂ ← call_if_set callbacks.conn_cb (with_reactor c₁ r)
      call_if_set callbacks.close_cb c₂

    -- `handleError` reads SO_ERROR and writes a log line.
    unfoldable pub handle_read : ℕ → Received → Time → Conn api → Result (Conn api)
    handle_read here (received b bs) now c = do
      check (in_thread here c) fatal
      call_message callbacks.msg_cb now (record c { in_buffer = append (b ∷ bs) c.in_buffer })
    handle_read here end_of_stream now c = do check (in_thread here c) fatal; handle_close here c
    handle_read here (read_failed errno) now c = do check (in_thread here c) fatal; ok c

    unfoldable pub connect_established : ℕ → Conn api → Result (Conn api)
    connect_established here c = do
      check (in_thread here c) fatal
      check (is_state c.state connecting) assertion
      let c₁ = set_state connected c
      r ← enable_reading here c₁.channel c₁.reactor
      call callbacks.conn_cb (with_reactor c₁ r)

    -- The callbacks that the constructor gives to the channel.
    pub channel_handlers : Bool → ℕ → Received → Wrote → Handlers Time (Conn api)
    channel_handlers count_first here input answer = record {
      read = some (handle_read here input);
      write = some (handle_write count_first here answer);
      close = some (handle_close here);
      error = none;
    }
