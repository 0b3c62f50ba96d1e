-- ===== src/Socket.antt =====
-- Socket.h and Socket.cpp; here the ownership of a descriptor: construction, move, and destruction.
--
-- `objects` maps the Socket objects that are alive, by address, to their `sockfd_`. `is_open` is the
-- kernel's table, as far as these descriptors go, and `refused` the arguments of the `close` calls
-- that failed, which the program only logs.
pub mod Ownership
pub mod Options
pub mod Print
pub mod Examples
mod Tests
use mudo_reprint.Base.{
  ℕ, Bool, true, false, Option, none, some, List, [], ◌∷◌, ◌==◌, if◌then◌else◌, Result, ok, ◌>>=◌,
  deref,
}
use mudo_reprint.Base.Int.{ℤ, pos, negsuc, eqb_ℤ}

pub record Sockets : Type 0 where
  pub objects : ℕ → Option ℤ
  pub is_open : ℕ → Bool
  pub refused : List ℤ

abbrev pub no_socket : ℤ
no_socket = negsuc 0

abbrev pub none_open : Sockets
none_open = record { objects = λ _. none; is_open = λ _. false; refused = [] }

abbrev pub put : ℕ → Option ℤ → Sockets → Sockets
put p o s = record s { objects = λ q. if q == p then o else s.objects q }

abbrev pub mark : ℕ → Bool → Sockets → Sockets
mark n b s = record s { is_open = λ k. if k == n then b else s.is_open k }

-- `sockets::close(fd)`: the kernel refuses a descriptor that is not open.
abbrev pub close : ℤ → Sockets → Sockets
close (pos n) s = if s.is_open n then mark n false s else record s { refused = pos n ∷ s.refused }
close (negsuc n) s = record s { refused = negsuc n ∷ s.refused }

-- `Socket(fd)`, at the address `p`.
unfoldable pub construct : ℕ → ℤ → Sockets → Sockets
construct p fd s = put p (some fd) s

-- `Socket(Socket &&rhs)` at `p`, from the object at `q`.
unfoldable pub move_construct : ℕ → ℕ → Sockets → Result Sockets
move_construct p q s = do
  fd ← deref (s.objects q)
  ok (if p == q then s else put q (some no_socket) (put p (some fd) s))

-- `operator=(Socket &&rhs)`
pub move_assign : ℕ → ℕ → Sockets → Result Sockets
move_assign p q s = do
  mine ← deref (s.objects p)
  theirs ← deref (s.objects q)
  ok (if p == q then s else put q (some no_socket) (put p (some theirs) (close mine s)))

-- `~Socket`
unfoldable pub destroy : ℕ → Sockets → Result Sockets
destroy p s = do
  fd ← deref (s.objects p)
  ok (put p none (if eqb_ℤ fd no_socket then s else close fd s))
