-- ===== src/TcpConnection/ShortWrite.antt =====
-- `sendInLoop` after a write that takes part of the message.
use mudo_reprint.Base.{
  ℕ, zero, suc, ◌-◌, ◌^◌, ◌<◌, ◌≤◌, ◌≡◌, ◌∙◌, ◌≢◌, List, [], ◌∷◌, ◌++◌, length, length-eq_zero,
  take, drop, get_elem?, ok, arith, bit_or,
}
use mudo_reprint.Channel.{Channel, epollout}
use mudo_reprint.Buffer.{Buffers}
use mudo_reprint.Epoller.{Reactor, update_with}
use mudo_reprint.Epoller.Invariant.{Inv}
use mudo_reprint.Epoller.Update.{IsUsable, settled, update_with-Inv}
use mudo_reprint.TcpConnection.{Conn, disconnected, wrote, write}
use mudo_reprint.TcpConnection.Sending.{send_in_loop, finish_send, keep_rest, substr, size_t_pred}
use mudo_reprint.TcpConnection.SendCases.{IsIdle, send_in_loop-idle, remaining-wrote, as_int-small}

size_t_pred-suc : (n : ℕ) → n < 2 ^ 64 → size_t_pred (suc n) ≡ n
unfolding size_t_pred
size_t_pred-suc n h = omega arith

substr_inside :
    (s : List ℕ) (position count : ℕ)
    → position ≤ length s
    → substr s position count ≡ ok (take count (drop position s))
unfolding substr
substr_inside s position count h = ground arith

-- The bytes that a short write of `suc n` leaves to be sent, as the code cuts them.
abbrev pub rest_of : ℕ → List ℕ → List ℕ
rest_of n msg = take (length msg - suc n) (drop n msg)

rest_differs :
    (n : ℕ) (msg : List ℕ)
    → suc n < length msg
    → take (suc n) msg ++ rest_of n msg ≡ msg
    → get_elem? msg n ≡ get_elem? msg (suc n)
rest_differs n [] h e = absurd (omega arith)
rest_differs zero (x ∷ []) h e = absurd (omega arith)
rest_differs zero (x ∷ y ∷ msg) h e =
    let one_left : length (x ∷ y ∷ msg) - 1 ≡ suc (length msg) = omega arith in
    cc (rw one_left at e)
rest_differs (suc n) (x ∷ msg) h e =
    let same_rest : length (x ∷ msg) - suc (suc n) ≡ length msg - suc n = omega arith in
    rest_differs n msg (omega arith) (cc (rw same_rest at e))

module _ {api : Buffers} where
  open api use {bytes, append, bytes-append}

  module _ (here n : ℕ) (msg : List ℕ) (c : Conn api) (ch : Channel) (v : Inv c.reactor)
      (u : IsUsable c.reactor here c.channel ch) (up : c.state ≢ disconnected) (idle : IsIdle c ch)
      (partial_write : suc n < length msg) (short : length msg < 2 ^ 31) where
    abbrev sent : Conn api
    sent = record c { calls = write msg (wrote (suc n)) ∷ c.calls }

    abbrev kept : Reactor → Conn api
    kept r = record sent { out_buffer = append (rest_of n msg) c.out_buffer; reactor = r }

    keep_rest-kept :
        (r : Reactor)
        → update_with (λ m. bit_or m epollout) here c.channel c.reactor ≡ ok r
        → keep_rest here msg (suc n) (length msg - suc n) sent ≡ ok (kept r)
    unfolding keep_rest
    keep_rest-kept r e =
        let watched = rw u.live at e in
        rw (
          size_t_pred-suc n (omega arith),
          substr_inside msg n (length msg - suc n) (omega arith),
          u.live,
          idle.0,
          watched,
        )

    finish_send-kept :
        (r : Reactor)
        → update_with (λ m. bit_or m epollout) here c.channel c.reactor ≡ ok r
        → finish_send here msg (wrote (suc n)) sent ≡ ok (kept r)
    unfolding finish_send
    finish_send-kept r e = ground (
      arith,
      keep_rest-kept r e,
      remaining-wrote (length msg) (suc n) (omega arith) short,
      as_int-small (length msg) short,
    )

    kept_bytes : (r : Reactor) → bytes (kept r).out_buffer ≡ rest_of n msg
    kept_bytes r =
        rw (bytes-append (rest_of n msg) c.out_buffer, length-eq_zero (bytes c.out_buffer) idle.1)

    -- On an idle connection that is not disconnected, for a message of less than 2^31 bytes: when the
    -- write takes some of the message but not all, the channel waits for writability, the
    -- reactor's invariant holds on, and the buffer has as many bytes as were left. They are cut one
    -- byte too early, though. So if the last byte that was taken differs from the next, then what was
    -- written together with what is kept is not the message.
    pub send_in_loop-short_write :
        get_elem? msg n ≢ get_elem? msg (suc n)
        → (c' : Conn api) × (send_in_loop here msg (wrote (suc n)) c ≡ ok c')
          × Inv c'.reactor
          × (c'.reactor ≡ settled (λ m. bit_or m epollout) c.channel ch c.reactor)
          × (bytes c'.out_buffer ≡ rest_of n msg)
          × (take (suc n) msg ++ bytes c'.out_buffer ≢ msg)
    send_in_loop-short_write differ =
        let (r, e, same, v') =
          update_with-Inv (λ m. bit_or m epollout) here c.channel c.reactor ch v u in
        let start =
          send_in_loop-idle here msg (wrote (suc n)) c ch
            (record { thread = u.in_thread; live = u.live }) up idle in
        (
          kept r,
          start ∙ finish_send-kept r e,
          v',
          same,
          kept_bytes r,
          (λ whole. differ (rest_differs n msg partial_write (rw kept_bytes at whole))),
        )
