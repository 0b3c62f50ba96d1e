-- ===== src/TcpConnection/Advance.antt =====
-- No member takes the state of a connection back.
use mudo_reprint.Base.{
  ℕ, ◌≤◌, Bool, none, some, Option, List, ◌∷◌, Result, ok, err, arith, ◌>>=◌, take, Result-cases,
  inl, inr, length,
}
use native.Mathlib.Nat.{le_refl}
use mudo_reprint.Base.Int.{pos_part}
use mudo_reprint.Buffer.{Buffers}
use mudo_reprint.Channel.{call_if_set, call}
use mudo_reprint.Epoller.{disable_write}
use mudo_reprint.TcpConnection.{
  Conn, ConnectState, connecting, connected, disconnecting, disconnected, Wrote, write, wrote,
  taken, offered_count, shut_down_in_loop, shut_down, after_write, handle_write, call_message,
}
use mudo_reprint.TcpConnection.Sending.{keep_rest, finish_send, send_in_loop, send, remaining}

abbrev pub rank : ConnectState → ℕ
rank connecting = 0
rank connected = 1
rank disconnecting = 2
rank disconnected = 3

module _ {api : Buffers} where
  open api use {bytes, retrieve, retrieve_all}

  -- Where the call returns, the state is the same or a later one.
  abbrev pub Advances : Conn api → Result (Conn api) → Type 0
  Advances c (ok c') = rank c.state ≤ rank c'.state
  Advances c (err e) = Unit

  pub keep_rest-Advances :
      (here : ℕ) (msg : List ℕ) (n remain : ℕ) (c : Conn api)
      → Advances c (keep_rest here msg n remain c)
  unfolding keep_rest
  keep_rest-Advances here msg n remain c = ground arith

  pub finish_send-Advances :
      (here : ℕ) (msg : List ℕ) (answer : Wrote) (c : Conn api)
      → Advances c (finish_send here msg answer c)
  unfolding finish_send
  finish_send-Advances here msg answer c = ground (
    arith,
    keep_rest-Advances here msg (taken answer) (pos_part (remaining (length msg) answer)) c,
  )

  pub send_in_loop-Advances :
      (here : ℕ) (msg : List ℕ) (answer : Wrote) (c : Conn api)
      → Advances c (send_in_loop here msg answer c)
  unfolding send_in_loop
  send_in_loop-Advances here msg answer c = ground (
    arith,
    finish_send-Advances here msg answer (record c { calls = write msg answer ∷ c.calls }),
    finish_send-Advances here msg (wrote 0) c,
  )

  pub send-Advances :
      (here : ℕ) (msg : List ℕ) (answer : Wrote) (c : Conn api)
      → Advances c (send here msg answer c)
  unfolding send
  send-Advances here msg answer c = ground (arith, send_in_loop-Advances here msg answer c)

  pub shut_down_in_loop-Advances : (here : ℕ) (c : Conn api) → Advances c (shut_down_in_loop here c)
  unfolding shut_down_in_loop
  shut_down_in_loop-Advances here c = ground arith

  pub shut_down-Advances : (here : ℕ) (c : Conn api) → Advances c (shut_down here c)
  unfolding shut_down
  shut_down-Advances here c =
      ground (arith, shut_down_in_loop-Advances here (record c { state = disconnecting }))

  pub after_write-Advances : (here n : ℕ) (c : Conn api) → Advances c (after_write here n c)
  unfolding after_write
  after_write-Advances here n c = elim (Result-cases (retrieve n c.out_buffer)) [
    | inr (f, e) ↦ rw e tt
    | inl (b, e) ↦ rw e (elim (Result-cases (disable_write here c.channel c.reactor)) [
      | inr (f, d) ↦ ground (arith, d)
      | inl (r, d) ↦
          ground
            (arith, d, shut_down_in_loop-Advances here (record c { out_buffer = b; reactor = r }))
    ])
  ]

  pub handle_write-Advances :
      (count_first : Bool) (here : ℕ) (answer : Wrote) (c : Conn api)
      → Advances c (handle_write count_first here answer c)
  unfolding handle_write
  handle_write-Advances count_first here answer c = ground (
    arith,
    after_write-Advances here (taken answer) (record c {
      out_buffer = retrieve_all c.out_buffer;
      calls =
          write (take (offered_count api count_first c.out_buffer) (bytes c.out_buffer)) answer
          ∷ c.calls;
    }),
  )

  -- A callback of the user does not move the state back either; it has no member to do so with.
  abbrev pub IsForward : Option (Conn api → Result (Conn api)) → Type 0
  IsForward none = Unit
  IsForward (some f) = (c : Conn api) → Advances c (f c)

  abbrev pub IsForwardMessage :
      {Time : Type 0} → Option (Time → Conn api → Result (Conn api)) → Type 0
  IsForwardMessage none = Unit
  IsForwardMessage {Time} (some f) = (now : Time) (c : Conn api) → Advances c (f now c)

  pub call_if_set-Advances :
      (o : Option (Conn api → Result (Conn api))) (c : Conn api)
      → IsForward o
      → Advances c (call_if_set o c)
  call_if_set-Advances none c h = le_refl _
  call_if_set-Advances (some f) c h = h c

  pub call-Advances :
      (o : Option (Conn api → Result (Conn api))) (c : Conn api)
      → IsForward o
      → Advances c (call o c)
  call-Advances none c h = tt
  call-Advances (some f) c h = h c

  pub call_message-Advances :
      {Time : Type 0} (o : Option (Time → Conn api → Result (Conn api))) (now : Time) (c : Conn api)
      → IsForwardMessage o
      → Advances c (call_message o now c)
  call_message-Advances none now c h = tt
  call_message-Advances (some f) now c h = h now c

  -- Two calls one after the other.
  pub then-Advances :
      (c : Conn api) (m : Result (Conn api)) (f : Conn api → Result (Conn api))
      → Advances c m
      → ((d : Conn api) → Advances d (f d))
      → Advances c (m >>= f)
  then-Advances c (err e) f h k = tt
  then-Advances c (ok d) f h k = ground (arith, k d)
