-- ===== src/Lifetime/Listening.antt =====
-- An Acceptor (Acceptor.h) from its socket to `listen`, with the calls on the socket.
use mudo_reprint.Base.{
  ◌⊎◌, inl, inr, Bool, Bool-cases, ◌&&◌, ℕ, ◌≡◌, refl, ◌≢◌, true, false, some, ◌==◌, arith, Result,
  ok, err, fatal, ◌>>=◌, ◌>>◌, check, bit_or,
}
use mudo_reprint.Channel.{epollin}
use mudo_reprint.Epoller.{Reactor, enable_reading}
use mudo_reprint.Epoller.Kernel.{interest}
use mudo_reprint.Epoller.Invariant.{Inv}
use mudo_reprint.Socket.Options.{SocketCalls, so_reuseaddr, set_reuse_addr, bind_address, listen_on}
use mudo_reprint.Lifetime.{make_channel}
use mudo_reprint.Lifetime.Channels.{make_and_update}
use mudo_reprint.Lifetime.Acceptors.{HasRoom}

module _ (api : SocketCalls) where
  open api use {Kernel, Address, setsockopt, bind, listen}

  -- The constructor, with the socket `fd` and its channel at `p`.
  unfoldable pub new_acceptor : (p fd : ℕ) → Address → Kernel × Reactor → Result (Kernel × Reactor)
  unfolding make_channel set_reuse_addr bind_address
  new_acceptor p fd a (k, r) = do
    let r' = make_channel p fd r
    k' ← bind_address api fd a (set_reuse_addr api true fd k)
    ok (k', r')

  -- `Acceptor::listen`
  unfoldable pub listen_acceptor : (here p fd : ℕ) → Kernel × Reactor → Result (Kernel × Reactor)
  unfolding listen_on
  listen_acceptor here p fd (k, r) = do
    check (here == r.tid) fatal
    k' ← listen_on api fd k
    r' ← enable_reading here p r
    ok (k', r')

  pub start_acceptor : (here p fd : ℕ) → Address → Kernel × Reactor → Result (Kernel × Reactor)
  unfolding new_acceptor listen_acceptor
  start_acceptor here p fd a s = do s' ← new_acceptor p fd a s; listen_acceptor here p fd s'

  -- Three calls on the socket, one after the other: SO_REUSEADDR is set to 1, it is bound, and it
  -- listens. Whether the last two succeed, and the kernel after them.
  pub record Started : Type 0 where
    pub bound : Bool
    pub heard : Bool
    pub kernel : Kernel

  abbrev pub start_calls : ℕ → Address → Kernel → Started
  start_calls fd a k =
      let (_, k₁) = setsockopt fd so_reuseaddr 1 k in
      let (bound, k₂) = bind fd a k₁ in
      let (heard, k₃) = listen fd k₂ in record { bound = bound; heard = heard; kernel = k₃ }

  module _ (fd : ℕ) (a : Address) (k : Kernel) (p : ℕ) (r : Reactor) (room : HasRoom r p fd) where
    abbrev calls : Started
    calls = start_calls fd a k

    -- In the loop's thread, with room for another channel: where `bind`, after SO_REUSEADDR has been
    -- set, and then `listen` succeed, the acceptor is made, the kernel is left as after these three
    -- calls, and it watches the socket for EPOLLIN and all else as before. Where one of the two fails,
    -- the program ends.
    pub start_acceptor-listens :
        (((calls.bound && calls.heard) ≡ true)
          × ((r' : Reactor) × (start_acceptor r.tid p fd a (k, r) ≡ ok (calls.kernel, r'))
              × Inv r'
              × (interest r'.ctls fd ≡ some (epollin, p))
              × ((q : ℕ) → q ≢ fd → interest r'.ctls q ≡ interest r.ctls q)))
        ⊎ (((calls.bound && calls.heard) ≡ false)
            × (start_acceptor r.tid p fd a (k, r) ≡ err fatal))
    unfolding start_acceptor new_acceptor listen_acceptor listen_on bind_address set_reuse_addr
        make_channel
    start_acceptor-listens = elim (Bool-cases (calls.bound && calls.heard)) [
      | inl done ↦
          let (r', e, v', s, m, i) =
            make_and_update r.tid p fd r room.valid refl room.free room.unused
              (λ m. bit_or m epollin) in
          inl (done, (r', ground (arith, done, e), v', i, s.interest_same))
      | inr bad ↦ inr (bad, ground (arith, bad))
    ]
