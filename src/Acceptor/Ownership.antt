-- ===== src/Acceptor/Ownership.antt =====
-- No accepted descriptor is lost or closed by mistake.
use mudo_reprint.Base.{ℕ, ◌≡◌, ◌≢◌, true, false, none, some, ok, arith, fun_ext, ap}
use mudo_reprint.Base.Int.{pos}
use mudo_reprint.Socket.{Sockets, no_socket, put, mark, construct, move_construct, destroy}
use mudo_reprint.Socket.Ownership.{Inv, opens-Inv, move_construct-Inv, destroy-Inv}
use mudo_reprint.Acceptor.{accepted, handle_read}

module _ (here tid p n : ℕ) (s : Sockets) (thread : here ≡ tid) (closed : s.is_open n ≡ false) where
  abbrev opened : Sockets
  opened = construct p (pos n) (mark n true s)

  module _ (q : ℕ) where
    abbrev moved : Sockets
    moved = put p (some no_socket) (put q (some (pos n)) opened)

    -- The callback of the server moves the descriptor into an object of its own, at the address `q`.
    -- Then after `handleRead` that object holds the open descriptor, the temporary one is gone, and
    -- still each open descriptor has exactly one object.
    pub handle_read-handed :
        Inv s
        → s.objects p ≡ none
        → s.objects q ≡ none
        → p ≢ q
        → (t : Sockets) × (handle_read here tid (accepted n) p (some (λ r. move_construct q r)) s
            ≡ ok t)
          × Inv t
          × (t.objects q ≡ some (pos n))
          × (t.objects p ≡ none)
          × (t.is_open n ≡ true)
    unfolding handle_read construct move_construct destroy
    handle_read-handed v free_p free_q differ =
        let first = opens-Inv p n s v free_p closed in
        let move : move_construct q p opened ≡ ok moved = ground arith in
        let second = move_construct-Inv first q p (ground arith) move in
        let gone : destroy p moved ≡ ok (put p none moved) = ground arith in
        (
          put p none moved,
          ground arith,
          destroy-Inv second p gone,
          ground arith,
          ground arith,
          ground arith,
        )

  -- With no callback the descriptor is closed at once, and everything is as before.
  pub handle_read-closed : handle_read here tid (accepted n) p none s ≡ ok s
  unfolding handle_read
  handle_read-closed =
      let same : (mark n false (mark n true s)).is_open ≡ s.is_open = fun_ext λ k. ground arith in
      rw thread (ground (arith, same, ap (λ f. record s { is_open = f }) same))
