-- ===== src/Service/Serving.antt =====
-- A connection that is up, and what the members and callbacks leave of it.
use mudo_reprint.Base.{
  ℕ, ◌≡◌, refl, subst, ◌∙◌, ◌⊎◌, inl, inr, Bool, List, ◌∷◌, Result, ok, arith, bit_or,
  bit_or-ne_zero, Bool-cases, length,
}
use mudo_reprint.Base.Int.{pos_part}
use mudo_reprint.Channel.{Channel, is_writing, epollout}
use mudo_reprint.Buffer.{Buffers}
use mudo_reprint.Epoller.{Reactor, update_with}
use mudo_reprint.Epoller.Update.{settled}
use mudo_reprint.Epoller.Effects.{Touches, Touches-refl, Touches-trans}
use mudo_reprint.Epoller.Serving.{Holds, Holds-IsUsable, update_with-Holds}
use mudo_reprint.TcpConnection.{
  Conn, connected, disconnecting, Wrote, wrote, write, SocketCall, handle_write, handle_read,
  Callbacks, call_message, received, taken, shut_down, shut_down_in_loop,
}
use mudo_reprint.TcpConnection.Sending.{send, send_in_loop, finish_send, keep_rest, remaining}
use mudo_reprint.TcpConnection.SendCases.{InLoop}
use mudo_reprint.TcpConnection.Write.{handle_write-loses}

module _ {api : Buffers} where
  open api use {Buffer, bytes, append}

  -- Its channel, for `fd`, is watched by the kernel.
  pub record IsUp (here fd : ℕ) (c : Conn api) : Type 0 where
    pub holds : Holds here c.channel fd c.reactor
    pub state : (c.state ≡ connected) ⊎ (c.state ≡ disconnecting)

  -- From `c` to `d` it stays up, and no other channel is touched.
  pub record Continues (here fd : ℕ) (c d : Conn api) : Type 0 where
    pub same_name : d.name ≡ c.name
    pub same_channel : d.channel ≡ c.channel
    pub touches : Touches c.channel fd c.reactor d.reactor
    pub up : IsUp here fd d

  Continues-refl : (here fd : ℕ) (c : Conn api) → IsUp here fd c → Continues here fd c c
  Continues-refl here fd c u = record {
    same_name = refl;
    same_channel = refl;
    touches = Touches-refl c.channel fd c.reactor;
    up = u;
  }

  pub Continues-trans :
      (here fd : ℕ) (a b c : Conn api)
      → Continues here fd a b
      → Continues here fd b c
      → Continues here fd a c
  Continues-trans here fd a b c h k = record {
    same_name = k.same_name ∙ h.same_name;
    same_channel = k.same_channel ∙ h.same_channel;
    touches =
        Touches-trans h.touches
          (subst (λ p. Touches p fd b.reactor c.reactor) h.same_channel k.touches);
    up = k.up;
  }

  -- A callback that keeps any connection up on which it returns.
  abbrev pub KeepsUp : (here : ℕ) → (Conn api → Result (Conn api)) → Type 0
  KeepsUp here f = (fd : ℕ) (c d : Conn api) → IsUp here fd c → f c ≡ ok d → Continues here fd c d

  abbrev write_armed : Conn api → Channel → Reactor
  write_armed c ch = settled (λ m. bit_or m epollout) c.channel ch c.reactor

  -- The same connection, in the same reactor or with its channel armed for writing.
  abbrev IsKept : Conn api → Channel → Conn api → Type 0
  IsKept c ch d =
      (d.name ≡ c.name)
      × (d.channel ≡ c.channel)
      × ((d.state ≡ connected) ⊎ (d.state ≡ disconnecting))
      × ((d.reactor ≡ c.reactor) ⊎ (d.reactor ≡ write_armed c ch))

  module _ (here fd : ℕ) (c : Conn api) (u : IsUp here fd c) where
    arming :
        (update_with (λ m. bit_or m epollout) here c.channel c.reactor
          ≡ ok (write_armed c u.holds.channel))
        × Holds here c.channel fd (write_armed c u.holds.channel)
        × Touches c.channel fd c.reactor (write_armed c u.holds.channel)
    arming =
        let some_event = bit_or-ne_zero u.holds.channel.events epollout (λ e. omega arith) in
        let (e, h, t) =
          update_with-Holds (λ m. bit_or m epollout) here c.channel c.reactor u.holds.channel
            u.holds.serves (Holds-IsUsable u.holds) some_event in
        (
          e,
          subst (λ k. Holds here c.channel k (write_armed c u.holds.channel)) u.holds.same_fd h,
          subst (λ k. Touches c.channel k c.reactor (write_armed c u.holds.channel)) u.holds.same_fd
              t,
        )

    keep_rest-IsKept :
        (msg : List ℕ) (n remain : ℕ) (calls : List SocketCall) (d : Conn api)
        → keep_rest here msg n remain (record c { calls = calls }) ≡ ok d
        → IsKept c u.holds.channel d
    unfolding keep_rest
    keep_rest-IsKept msg n remain calls d e = ground (arith, u.holds.live, u.state, arming.0, e)

    finish_send-IsKept :
        (msg : List ℕ) (answer : Wrote) (calls : List SocketCall) (d : Conn api)
        → finish_send here msg answer (record c { calls = calls }) ≡ ok d
        → IsKept c u.holds.channel d
    unfolding finish_send
    finish_send-IsKept msg answer calls d e = ground (
      arith,
      u.state,
      keep_rest-IsKept msg (taken answer) (pos_part (remaining (length msg) answer)) calls d,
      e,
    )

    send_in_loop-IsKept :
        (msg : List ℕ) (answer : Wrote) (d : Conn api)
        → send_in_loop here msg answer c ≡ ok d
        → IsKept c u.holds.channel d
    unfolding send_in_loop
    send_in_loop-IsKept msg answer d e = ground (
      arith,
      u.state,
      u.holds.live,
      finish_send-IsKept msg answer (write msg answer ∷ c.calls) d,
      finish_send-IsKept msg (wrote 0) c.calls d,
      e,
    )

    send-IsKept :
        (msg : List ℕ) (answer : Wrote) (d : Conn api)
        → send here msg answer c ≡ ok d
        → IsKept c u.holds.channel d
    unfolding send
    send-IsKept msg answer d e =
        ground (arith, u.state, send_in_loop-IsKept msg answer d, u.holds.in_thread, e)

    shut_down-IsKept : (d : Conn api) → shut_down here c ≡ ok d → IsKept c u.holds.channel d
    unfolding shut_down shut_down_in_loop
    shut_down-IsKept d e = ground (arith, u.state, u.holds.live, u.holds.in_thread, e)

    handle_write-IsKept :
        (count_first : Bool) (answer : Wrote) (d : Conn api)
        → handle_write count_first here answer c ≡ ok d
        → IsKept c u.holds.channel d
    unfolding handle_write
    handle_write-IsKept count_first answer d e = elim (Bool-cases (is_writing u.holds.channel)) [
      | inl busy ↦
          let l : InLoop here c u.holds.channel = record {
            thread = u.holds.in_thread;
            live = u.holds.live;
          } in
          ground
            (arith, u.state, handle_write-loses count_first here answer c u.holds.channel l busy, e)
      | inr idle ↦ ground (arith, u.state, u.holds.live, u.holds.in_thread, e, idle)
    ]

    kept-Continues : (d : Conn api) → IsKept c u.holds.channel d → Continues here fd c d
    kept-Continues d (name, channel, state, inl same) = record {
      same_name = name;
      same_channel = channel;
      touches = rw same (Touches-refl c.channel fd c.reactor);
      up = record { holds = rw (same, channel) u.holds; state = state };
    }
    kept-Continues d (name, channel, state, inr armed) = record {
      same_name = name;
      same_channel = channel;
      touches = rw armed arming.2;
      up = record { holds = rw (armed, channel) arming.1; state = state };
    }

module _ {api : Buffers} (here : ℕ) where
  pub send-KeepsUp :
      (msg : List ℕ) (answer : Wrote) → KeepsUp here (send {api = api} here msg answer)
  send-KeepsUp msg answer fd c d u e =
      kept-Continues here fd c u d (send-IsKept here fd c u msg answer d e)

  pub shut_down-KeepsUp : KeepsUp here (shut_down {api = api} here)
  shut_down-KeepsUp fd c d u e = kept-Continues here fd c u d (shut_down-IsKept here fd c u d e)

  pub handle_write-KeepsUp :
      (count_first : Bool) (answer : Wrote)
      → KeepsUp here (handle_write {api = api} count_first here answer)
  handle_write-KeepsUp count_first answer fd c d u e =
      kept-Continues here fd c u d (handle_write-IsKept here fd c u count_first answer d e)

  pub ok-KeepsUp : KeepsUp here (λ (c : Conn api). ok c)
  ok-KeepsUp fd c d u e =
      subst (Continues here fd c) (ground (arith, e)) (Continues-refl here fd c u)

  -- Input is appended to a buffer before the message callback is called.
  pub handle_read-KeepsUp :
      {Time : Type 0} (callbacks : Callbacks api Time) (b : ℕ) (bs : List ℕ) (now : Time)
      → KeepsUp here (call_message callbacks.msg_cb now)
      → KeepsUp here (handle_read callbacks here (received b bs) now)
  unfolding handle_read
  handle_read-KeepsUp callbacks b bs now keeps fd c d u e =
      let c' = record c { in_buffer = api.append (b ∷ bs) c.in_buffer } in
      let on =
        keeps fd c' d (record { holds = u.holds; state = u.state })
          (ground (arith, e, u.holds.in_thread)) in
      record {
        same_name = on.same_name;
        same_channel = on.same_channel;
        touches = on.touches;
        up = on.up;
      }
