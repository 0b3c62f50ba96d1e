-- ===== src/Acceptor.antt =====
-- Acceptor.h and Acceptor.cpp: what `handleRead` does with the descriptor that `accept` returns.
pub mod Ownership
use mudo_reprint.Base.{
  ℕ, true, Option, none, some, ◌==◌, Result, ok, err, fatal, ◌>>=◌, ◌>>◌, check,
}
use mudo_reprint.Base.Int.{pos}
use mudo_reprint.Socket.{Sockets, mark, close, construct, destroy}

-- What `Socket::accept` answers: a descriptor, which the kernel has opened, or -1 and `errno`. (The
-- errors that `sockets::accept` does not expect end the program in there.)
pub data Accepted : Type 0 where
  accepted : (fd : ℕ) → Accepted
  failed : (errno : ℕ) → Accepted

-- `m_acceptReadCb(Socket(connfd), peer)`, with the temporary object at the address `p`.
abbrev hand_over : (ℕ → Sockets → Result Sockets) → ℕ → ℕ → Sockets → Result Sockets
hand_over callback p n s = do s' ← callback p (construct p (pos n) s); destroy p s'

-- `tid` is the thread of the loop, and the callback takes the address of the object.
pub handle_read :
    (here tid : ℕ) → Accepted → ℕ → Option (ℕ → Sockets → Result Sockets) → Sockets → Result Sockets
handle_read here tid (accepted n) p (some callback) s = do
  check (here == tid) fatal
  hand_over callback p n (mark n true s)
handle_read here tid (accepted n) p none s = do
  check (here == tid) fatal
  ok (close (pos n) (mark n true s))
handle_read here tid (failed errno) p callback s = do check (here == tid) fatal; ok s
