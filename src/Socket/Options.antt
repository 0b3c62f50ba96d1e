-- ===== src/Socket/Options.antt =====
-- The options and the calls of a socket in Socket.h and Socket.cpp.
--
-- The system calls are an interface, and nothing is assumed of their answers. What `bindOrDie` and
-- `listenOrDie` of SocketsOps.cpp do besides is to end the program where the call fails.
use mudo_reprint.Base.{ℕ, Bool, Option, none, some, if◌then◌else◌, Result, ok, fatal, ◌>>◌, check}

pub data SockOption : Type 0 where
  tcp_nodelay so_reuseaddr so_reuseport so_keepalive : SockOption

pub record SocketCalls : Type 1 where
  pub Kernel : Type 0
  pub Address : Type 0
  -- The calls, each with whether it succeeds.
  pub setsockopt : ℕ → SockOption → ℕ → Kernel → Bool × Kernel
  pub bind : ℕ → Address → Kernel → Bool × Kernel
  pub listen : ℕ → Kernel → Bool × Kernel
  pub shutdown : ℕ → Kernel → Bool × Kernel
  pub accept : ℕ → Kernel → Option (ℕ × Address) × Kernel

module _ (api : SocketCalls) where
  open api use {Kernel, Address, setsockopt, bind, listen, shutdown, accept}

  -- `int optval = on ? 1 : 0;` and the call, whose result is not read.
  abbrev set_option : SockOption → Bool → ℕ → Kernel → Kernel
  set_option o on fd k = (setsockopt fd o (if on then 1 else 0) k).1

  pub set_tcp_no_delay : Bool → ℕ → Kernel → Kernel
  set_tcp_no_delay on fd k = set_option tcp_nodelay on fd k

  unfoldable pub set_reuse_addr : Bool → ℕ → Kernel → Kernel
  set_reuse_addr on fd k = set_option so_reuseaddr on fd k

  -- The result is read only to write a log line.
  pub set_reuse_port : Bool → ℕ → Kernel → Kernel
  set_reuse_port on fd k = set_option so_reuseport on fd k

  pub set_keep_alive : Bool → ℕ → Kernel → Kernel
  set_keep_alive on fd k = set_option so_keepalive on fd k

  unfoldable pub bind_address : ℕ → Address → Kernel → Result Kernel
  bind_address fd a k = let (done, k') = bind fd a k in do check done fatal; ok k'

  unfoldable pub listen_on : ℕ → Kernel → Result Kernel
  listen_on fd k = let (done, k') = listen fd k in do check done fatal; ok k'

  pub shutdown_write : ℕ → Kernel → Kernel
  shutdown_write fd k = (shutdown fd k).1

  -- The descriptor, or none for -1, and what `*peeraddr` is then.
  pub accept_from : ℕ → Address → Kernel → Option ℕ × Address × Kernel
  accept_from fd peer k =
      let (answer, k') = accept fd k in
      elim answer [ none ↦ (none, peer, k') | some (connfd, a) ↦ (some connfd, a, k') ]
