-- ===== src/Connector.antt =====
-- Connector.h and Connector.cpp. `m_loop` is a pointer that may hold no valid address; `saved_errno` is
-- 0 where the call of `connect` succeeds.
pub mod Attempts
mod Tests
use mudo_reprint.Base.{
  ℕ, Bool, true, false, ◌||◌, Option, none, some, List, [], ◌∷◌, ◌++◌, ◌==◌, Result, ok, ◌>>=◌,
  ◌>>◌, deref, if◌then◌else◌, bit_or,
}
use mudo_reprint.Base.Int.{pos}
use mudo_reprint.Channel.{new_channel}
use mudo_reprint.Epoller.{Reactor, store, enable_write, channel_remove, channel_update, update}
use mudo_reprint.Socket.{Sockets, mark, close}

pub record Connector : Type 0 where
  pub loop : Option ℕ
  pub name : List ℕ
  pub channel : Option ℕ

-- The constructor takes a loop and does not keep it.
pub new_connector : (loop : ℕ) (name : List ℕ) → Connector
new_connector loop name = record { loop = none; name = name; channel = none }

abbrev pub one_of : ℕ → List ℕ → Bool
one_of n [] = false
one_of n (x ∷ xs) = n == x || one_of n xs

-- 0, EINPROGRESS, EINTR, EISCONN
unfoldable pub is_connecting : ℕ → Bool
is_connecting errno = one_of errno (0 ∷ 115 ∷ 4 ∷ 106 ∷ [])

-- EAGAIN, EADDRINUSE, EADDRNOTAVAIL, ECONNREFUSED, ENETUNREACH
unfoldable pub is_retried : ℕ → Bool
is_retried errno = one_of errno (11 ∷ 98 ∷ 99 ∷ 111 ∷ 101 ∷ [])

-- The connector, the descriptors, and the reactor of its loop.
pub record World : Type 0 where
  pub connector : Connector
  pub sockets : Sockets
  pub reactor : Reactor

-- The new channel is at the address `p`. After `enableWrite` the loop's `updateChannel` is called
-- once more.
pub connecting : (here p fd : ℕ) → World → Result World
connecting here p fd w = do
  loop ← deref w.connector.loop
  let r₀ = store p (new_channel loop fd) w.reactor
  r₁ ← enable_write here p r₀
  r₂ ← channel_update here p r₁
  ok (record w { connector = record w.connector { channel = some p }; reactor = r₂ })

-- `retry` has no body.
pub retry : ℕ → World → World
retry fd w = w

-- `fd` is the descriptor that `createNonblockingOrDie` opens.
pub connect : (here p fd saved_errno : ℕ) → World → Result World
unfolding connecting retry
connect here p fd saved_errno w =
    let opened = record w { sockets = mark fd true w.sockets } in
    if is_connecting saved_errno
    then connecting here p fd opened
    else ok (
        if is_retried saved_errno
        then retry fd opened
        else record opened { sockets = close (pos fd) opened.sockets })

pub handle_write : ℕ → World → Result World
handle_write here w = do
  p ← deref w.connector.channel
  r ← channel_remove here p w.reactor
  ok (record w {
    connector = record w.connector { channel = none };
    reactor = record r { channels = update r.channels p none };
  })
