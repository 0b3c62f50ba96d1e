-- ===== src/TcpConnection/Overflow.antt =====
-- `sendInLoop` with a message whose length does not fit into `int`.
use mudo_reprint.Base.{
  ℕ, ◌-◌, ◌^◌, ◌<◌, ◌≤◌, ◌≡◌, ◌∙◌, ◌≢◌, List, ◌∷◌, length, ltb, if◌then◌else◌, ok, err, assertion,
  arith,
}
use mudo_reprint.Base.Int.{pos, negsuc}
use mudo_reprint.Channel.{Channel}
use mudo_reprint.Buffer.{Buffers}
use mudo_reprint.TcpConnection.{Conn, disconnected, Wrote, wrote, failed, write, taken}
use mudo_reprint.TcpConnection.Sending.{send_in_loop, finish_send, remaining, as_int}
use mudo_reprint.TcpConnection.SendCases.{
  InLoop, IsBusy, IsIdle, send_in_loop-idle, send_in_loop-busy,
}

module _ (len : ℕ) (big : 2 ^ 31 ≤ len) (lt : len < 2 ^ 32) where
  as_int-negative : as_int len ≡ negsuc (2 ^ 32 - 1 - len)
  as_int-negative = ground arith

  remaining-big :
      (answer : Wrote)
      → taken answer ≤ len
      → remaining len answer ≡ (
          if ltb (len - taken answer) (2 ^ 31)
          then pos (len - taken answer)
          else negsuc (2 ^ 32 - 1 - (len - taken answer)))
  unfolding remaining
  remaining-big (wrote n) h = ground arith
  remaining-big (failed errno) h = ground arith

module _ {api : Buffers} (here : ℕ) (msg : List ℕ) (c : Conn api) (ch : Channel)
    (l : InLoop here c ch) (up : c.state ≢ disconnected) (big : 2 ^ 31 ≤ length msg)
    (lt : length msg < 2 ^ 32) where
  finish_send-big :
      (answer : Wrote) (d : Conn api)
      → taken answer ≤ length msg
      → finish_send here msg answer d
        ≡ (if ltb (length msg - taken answer) (2 ^ 31) then err assertion else ok d)
  unfolding finish_send
  finish_send-big answer d h =
      rw (remaining-big (length msg) big lt answer h, as_int-negative (length msg) big lt)
        (ground arith)

  -- Where output waits already, such a message is dropped: nothing is written or kept, and the call
  -- returns as if it was sent.
  pub send_in_loop-drops : (answer : Wrote) → IsBusy c ch → send_in_loop here msg answer c ≡ ok c
  send_in_loop-drops answer busy =
      send_in_loop-busy here msg answer c ch l up busy
      ∙ (finish_send-big (wrote 0) c (omega arith) ∙ ground (arith, big))

  -- A message of 2^31 to 2^32 - 1 bytes on a connection that is idle and not disconnected, in the loop's
  -- thread. Whatever the write answers: where it leaves less than 2^31 bytes, and so also where it
  -- takes the whole message, the assertion `remain <= len` fails; where it leaves more, the call
  -- returns with the rest neither written nor kept for later.
  pub send_in_loop-overflow :
      (answer : Wrote)
      → IsIdle c ch
      → taken answer ≤ length msg
      → send_in_loop here msg answer c ≡ (
          if ltb (length msg - taken answer) (2 ^ 31)
          then err assertion
          else ok (record c { calls = write msg answer ∷ c.calls }))
  send_in_loop-overflow answer idle h =
      send_in_loop-idle here msg answer c ch l up idle ∙ finish_send-big answer _ h
