-- ===== src/Service/Echo.antt =====
-- The echo server of main.cpp.
use mudo_reprint.Base.{ℕ, refl, List, some, arith, inl, inr, Bool-cases}
use mudo_reprint.Buffer.{Buffers}
use mudo_reprint.TcpConnection.{Conn, Wrote, is_state, connected}
use mudo_reprint.EchoServer.{test_message, test_connection}
use mudo_reprint.Service.Serving.{Continues, IsUp, KeepsUp, send-KeepsUp, ok-KeepsUp}
use mudo_reprint.Service.History.{AreGentle}

module _ {api : Buffers} {Time : Type 0} (tid_of : ℕ → ℕ) (here : ℕ) (answer : List ℕ → Wrote) where
  open api use {bytes, retrieve_all}

  test_message-KeepsUp : (now : Time) → KeepsUp here (test_message {api = api} here answer now)
  unfolding test_message
  test_message-KeepsUp now fd c d u e =
      let msg = bytes c.in_buffer in
      let c' : Conn api = record c { in_buffer = retrieve_all c.in_buffer } in
      let u' : IsUp here fd c' = record { holds = u.holds; state = u.state } in
      let on : Continues here fd c' d = elim (Bool-cases (is_state c'.state connected)) [
        | inl up ↦ send-KeepsUp here msg (answer msg) fd c' d u' (ground (arith, e, up))
        | inr not_up ↦ ok-KeepsUp here fd c' d u' (ground (arith, e, not_up))
      ] in
      record {
        same_name = on.same_name;
        same_channel = on.same_channel;
        touches = on.touches;
        up = on.up;
      }

  -- Whatever the kernel answers to its writes, its callbacks are as a server needs them.
  pub echo-AreGentle :
      AreGentle tid_of here
        (test_connection {api = api})
        (some (test_message {api = api} here answer {Time = Time}))
  unfolding test_connection
  echo-AreGentle = record {
    notified_up = ok-KeepsUp here;
    read_up = test_message-KeepsUp;
    closed_quiet = λ d e. refl;
  }
