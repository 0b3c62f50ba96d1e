-- ===== src/EchoServer/RoundTrip.antt =====
-- What comes in goes out.
use mudo_reprint.Base.{
  ℕ, ◌^◌, ◌<◌, ◌≡◌, refl, ◌∙◌, inl, List, [], ◌∷◌, ◌++◌, length, take, take-all, All, Result, ok,
  ◌>>=◌, arith,
}
use mathlib.Core.List.{append_assoc, append-nil}
use mudo_reprint.Channel.{Channel}
use mudo_reprint.Buffer.{Buffers}
use mudo_reprint.TcpConnection.{
  Conn, connected, Wrote, wrote, failed, received, SocketCall, write, shutdown_write, handle_read,
}
use mudo_reprint.TcpConnection.Sending.{send}
use mudo_reprint.TcpConnection.SendCases.{InLoop, IsIdle, send_in_loop-nothing_kept}
use mudo_reprint.EchoServer.{test_message, echo_callbacks}

-- A message as it is read: its first byte and the others.
abbrev pub Message : Type 0
Message = ℕ × List ℕ

abbrev pub text : Message → List ℕ
text (b, bs) = b ∷ bs

abbrev pub texts : List Message → List ℕ
texts [] = []
texts (m ∷ ms) = text m ++ texts ms

-- The bytes that the kernel has taken, oldest first.
abbrev pub sent : List SocketCall → List ℕ
sent [] = []
sent (write bs (wrote n) ∷ calls) = sent calls ++ take n bs
sent (write bs (failed errno) ∷ calls) = sent calls
sent (shutdown_write ∷ calls) = sent calls

-- A kernel that takes whatever it is offered.
abbrev pub takes_all : List ℕ → Wrote
takes_all bs = wrote (length bs)

module _ {api : Buffers} where
  open api use {bytes, append, retrieve_all, bytes-append, bytes-retrieve_all}

  -- The connection after a message: the write is logged, and the rest is as before.
  abbrev pub echoed : Message → Conn api → Conn api
  echoed m c = record c {
    in_buffer = retrieve_all (append (text m) c.in_buffer);
    calls = write (text m) (wrote (length (text m))) ∷ c.calls;
  }

  -- A connection that is up, in its loop's thread, with nothing buffered.
  pub record IsQuiet (here : ℕ) (c : Conn api) (ch : Channel) : Type 0 where
    pub in_loop : InLoop here c ch
    pub up : c.state ≡ connected
    pub idle : IsIdle c ch
    pub read_out : bytes c.in_buffer ≡ []

  echoed-IsQuiet :
      (here : ℕ) (m : Message) (c : Conn api) (ch : Channel)
      → IsQuiet here c ch
      → IsQuiet here (echoed m c) ch
  echoed-IsQuiet here m c ch q = record {
    in_loop = record { thread = q.in_loop.thread; live = q.in_loop.live };
    up = q.up;
    idle = q.idle;
    read_out = bytes-retrieve_all (append (text m) c.in_buffer);
  }

module _ {api : Buffers} {Time : Type 0} (here : ℕ) (on_close : Conn api → Result (Conn api))
    (now : Time) where
  open api use {bytes, append, retrieve_all, bytes-append, bytes-retrieve_all}

  -- One call of the connection's `handleRead` for each message.
  pub read_all : List Message → Conn api → Result (Conn api)
  read_all [] c = ok c
  read_all ((b, bs) ∷ ms) c = do
    c' ← handle_read (echo_callbacks here takes_all on_close) here (received b bs) now c
    read_all ms c'

  handle_read-echoed :
      (m : Message) (c : Conn api) (ch : Channel)
      → IsQuiet here c ch
      → length (text m) < 2 ^ 31
      → handle_read (echo_callbacks here takes_all on_close) here (received m.0 m.1) now c
        ≡ ok (echoed m c)
  unfolding handle_read test_message send
  handle_read-echoed (b, bs) c ch q short =
      let msg : List ℕ = b ∷ bs in
      let c' : Conn api = record c { in_buffer = retrieve_all (append msg c.in_buffer) } in
      let whole : bytes (append msg c.in_buffer) ≡ msg = rw (bytes-append, q.read_out) refl in
      let l' : InLoop here c' ch = record { thread = q.in_loop.thread; live = q.in_loop.live } in
      let nothing_kept =
        send_in_loop-nothing_kept here msg (wrote (length msg)) c' ch l' (λ e. ground (arith, q.up))
          short q.idle (inl refl) in
      rw (whole, q.up) (ground (arith, q.in_loop.thread, nothing_kept))

  -- An echo server gives back what it is sent. However many messages arrive one after the other on a
  -- connection that is up and idle, each of 1 to 2^31 - 1 bytes, and as long as the kernel takes
  -- what it is offered: the bytes written are the bytes read, in order, and the connection is up and
  -- idle again.
  pub read_all-sent :
      (ms : List Message) (c : Conn api) (ch : Channel)
      → IsQuiet here c ch
      → All (λ m. length (text m) < 2 ^ 31) ms
      → (c' : Conn api) × (read_all ms c ≡ ok c')
        × (sent c'.calls ≡ sent c.calls ++ texts ms)
        × IsQuiet here c' ch
  unfolding read_all
  read_all-sent [] c ch q a = (c, refl, rw append-nil refl, q)
  read_all-sent (m ∷ ms) c ch q a =
      let (c', e, s, q') = read_all-sent ms (echoed m c) ch (echoed-IsQuiet here m c ch q) a.1 in
      (
        c',
        rw (handle_read-echoed m c ch q a.0) e,
        s
            ∙ (rw (take-all (length (text m)) (text m) (omega arith))
                (append_assoc (sent c.calls) (text m) (texts ms))),
        q',
      )
