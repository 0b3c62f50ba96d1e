-- ===== src/TcpConnection/SendCases.antt =====
-- `sendInLoop`, branch by branch.
use mudo_reprint.Base.{
  ℕ, ◌-◌, ◌^◌, ◌<◌, ◌≤◌, ◌≡◌, refl, ◌∙◌, ◌≢◌, ◌⊎◌, inl, inr, true, false, some, List, ◌∷◌, length,
  ok, err, out_of_range, arith,
}
use native.Mathlib.Nat.{le_refl}
use mudo_reprint.Base.Int.{pos}
use mudo_reprint.Channel.{Channel, is_writing}
use mudo_reprint.Buffer.{Buffers}
use mudo_reprint.TcpConnection.{
  Conn, ConnectState, disconnected, is_state, Wrote, wrote, failed, epipe, econnreset, write, taken,
}
use mudo_reprint.TcpConnection.Sending.{
  send_in_loop, finish_send, keep_rest, is_fault, substr, size_t_pred, remaining, as_int,
}

is_state-ne : (s : ConnectState) → s ≢ disconnected → is_state s disconnected ≡ false
is_state-ne s h = ground arith

substr_beyond :
    (s : List ℕ) (position count : ℕ)
    → length s < position
    → substr s position count ≡ err out_of_range
unfolding substr
substr_beyond s position count h = ground arith

size_t_pred-zero : size_t_pred 0 ≡ 2 ^ 64 - 1
unfolding size_t_pred
size_t_pred-zero = refl

substr_past_end :
    (msg : List ℕ) (n count : ℕ)
    → n ≡ 0
    → length msg < 2 ^ 64 - 1
    → substr msg (size_t_pred n) count ≡ err out_of_range
substr_past_end msg n count e h = rw (e, size_t_pred-zero) (substr_beyond msg _ count h)

pub remaining-wrote : (len n : ℕ) → n ≤ len → len < 2 ^ 31 → remaining len (wrote n) ≡ pos (len - n)
unfolding remaining
remaining-wrote len n h lt = ground arith

pub remaining-untaken :
    (len : ℕ) (answer : Wrote) → taken answer ≡ 0 → len < 2 ^ 31 → remaining len answer ≡ pos len
unfolding remaining
remaining-untaken len answer t lt = ground arith

pub as_int-small : (len : ℕ) → len < 2 ^ 31 → as_int len ≡ pos len
as_int-small len lt = ground arith

module _ {api : Buffers} where
  open api use {Buffer, bytes}

  -- The connection's channel is alive, and the caller is the loop's thread.
  pub record InLoop (here : ℕ) (c : Conn api) (ch : Channel) : Type 0 where
    pub thread : here ≡ c.reactor.tid
    pub live : c.reactor.channels c.channel ≡ some ch

  -- Output waits: the channel is writing or the buffer holds bytes.
  abbrev pub IsBusy : Conn api → Channel → Type 0
  IsBusy c ch = (is_writing ch ≡ true) ⊎ (0 < length (bytes c.out_buffer))

  abbrev pub IsIdle : Conn api → Channel → Type 0
  IsIdle c ch = (is_writing ch ≡ false) × (length (bytes c.out_buffer) ≡ 0)

  module _ (here : ℕ) (msg : List ℕ) (answer : Wrote) (c : Conn api)
      (short : length msg < 2 ^ 31) where
    finish_send-done :
        (answer ≡ wrote (length msg)) ⊎ ((answer ≡ failed epipe) ⊎ (answer ≡ failed econnreset))
        → finish_send here msg answer c ≡ ok c
    unfolding finish_send
    finish_send-done (inl e) = ground (
      arith,
      remaining-wrote (length msg) (length msg) (le_refl (length msg)) short,
      as_int-small (length msg) short,
    )
    finish_send-done (inr e) =
        ground (arith, remaining-untaken (length msg) answer, as_int-small (length msg) short)

    finish_send-throws :
        0 < length msg
        → taken answer ≡ 0
        → is_fault answer ≡ false
        → finish_send here msg answer c ≡ err out_of_range
    unfolding finish_send keep_rest
    finish_send-throws some_left t f = ground (
      arith,
      remaining-untaken (length msg) answer t short,
      as_int-small (length msg) short,
      substr_past_end msg (taken answer) (length msg) t,
    )

  module _ (here : ℕ) (msg : List ℕ) (answer : Wrote) (c : Conn api) (ch : Channel)
      (l : InLoop here c ch) (up : c.state ≢ disconnected) where
    pub send_in_loop-idle :
        IsIdle c ch
        → send_in_loop here msg answer c
          ≡ finish_send here msg answer (record c { calls = write msg answer ∷ c.calls })
    unfolding send_in_loop
    send_in_loop-idle i = ground (arith, l.thread, l.live, is_state-ne c.state up)

    pub send_in_loop-busy :
        IsBusy c ch → send_in_loop here msg answer c ≡ finish_send here msg (wrote 0) c
    unfolding send_in_loop
    send_in_loop-busy i = ground (arith, l.thread, l.live, is_state-ne c.state up)

    module _ (short : length msg < 2 ^ 31) where
      -- On an idle connection that is not disconnected, for a message of less than 2^31 bytes: a
      -- write that takes the whole of it, or that fails with EPIPE or ECONNRESET, is all that
      -- happens. Nothing is kept for later.
      pub send_in_loop-nothing_kept :
          IsIdle c ch
          → (answer ≡ wrote (length msg)) ⊎ ((answer ≡ failed epipe) ⊎ (answer ≡ failed econnreset))
          → send_in_loop here msg answer c ≡ ok (record c { calls = write msg answer ∷ c.calls })
      send_in_loop-nothing_kept i a =
          send_in_loop-idle i ∙ finish_send-done here msg answer _ short a

      -- A connection that is not disconnected throws `std::out_of_range` for every message of 1 to
      -- 2^31 - 1 bytes, whenever output waits already, and whenever it is idle and the write takes
      -- nothing with no fault, as with EWOULDBLOCK: `msg.substr(n - 1, remain)` is then called with
      -- n = 0.
      pub send_in_loop-throws :
          0 < length msg
          → IsBusy c ch ⊎ (IsIdle c ch × (taken answer ≡ 0) × (is_fault answer ≡ false))
          → send_in_loop here msg answer c ≡ err out_of_range
      send_in_loop-throws some_left (inl busy) =
          send_in_loop-busy busy ∙ finish_send-throws here msg (wrote 0) c short some_left refl refl
      send_in_loop-throws some_left (inr (idle, t, f)) =
          send_in_loop-idle idle ∙ finish_send-throws here msg answer _ short some_left t f
