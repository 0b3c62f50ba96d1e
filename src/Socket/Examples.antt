-- ===== src/Socket/Examples.antt =====
-- A kernel with sockets that shows that the calls of Socket.Options can be had.
use mudo_reprint.Base.{ℕ, Bool, true, false, not, ◌&&◌, Option, none, some, ◌==◌, if◌then◌else◌}
use mudo_reprint.Socket.Options.{
  SocketCalls, SockOption, tcp_nodelay, so_reuseaddr, so_reuseport, so_keepalive,
}

-- Addresses are numbers.
pub record Simple : Type 0 where
  pub options : ℕ → SockOption → ℕ
  pub used : ℕ → Bool
  pub bound : ℕ → Option ℕ
  pub hearing : ℕ → Bool

abbrev is_option : SockOption → SockOption → Bool
is_option tcp_nodelay tcp_nodelay = true
is_option so_reuseaddr so_reuseaddr = true
is_option so_reuseport so_reuseport = true
is_option so_keepalive so_keepalive = true
is_option _ _ = false

abbrev simple_setsockopt : ℕ → SockOption → ℕ → Simple → Bool × Simple
simple_setsockopt fd o v k =
    (true, record k { options = λ g q. if g == fd && is_option q o then v else k.options g q })

abbrev can_bind : ℕ → ℕ → Simple → Bool
can_bind fd a k = not (k.used a)

abbrev simple_bind : ℕ → ℕ → Simple → Bool × Simple
simple_bind fd a k = (
  can_bind fd a k,
  if can_bind fd a k then record k { bound = λ g. if g == fd then some a else k.bound g } else k,
)

abbrev simple_listen : ℕ → Simple → Bool × Simple
simple_listen fd k = elim (k.bound fd) [
  | none ↦ (false, k)
  | some a ↦ (true, record k { hearing = λ g. if g == fd then true else k.hearing g })
]

abbrev pub simple_calls : SocketCalls
simple_calls = record {
  Kernel = Simple;
  Address = ℕ;
  setsockopt = simple_setsockopt;
  bind = simple_bind;
  listen = simple_listen;
  shutdown = λ fd k. (true, k);
  accept = λ fd k. (none, k);
}
