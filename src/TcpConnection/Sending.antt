-- ===== src/TcpConnection/Sending.antt =====
-- `send` and `sendInLoop`. (shutDown and the channel's callbacks are in the parent.)
use mudo_reprint.Base.{
  ℕ, ◌+◌, ◌-◌, ◌%◌, ◌^◌, Bool, false, not, ◌&&◌, ◌||◌, List, [], ◌∷◌, ◌++◌, ◌==◌, ltb,
  if◌then◌else◌, length, take, drop, Result, ok, err, assertion, fatal, out_of_range, ◌>>=◌, ◌>>◌,
  check,
}
use mudo_reprint.Base.Int.{ℤ, pos, negsuc, pos_part, ltb_ℤ, leb_ℤ}
use mudo_reprint.Buffer.{Buffers}
use mudo_reprint.Channel.{is_writing}
use mudo_reprint.Epoller.{enable_write}
use mudo_reprint.TcpConnection.{
  Conn, connected, disconnected, is_state, Wrote, wrote, failed, write, sends, taken, ewouldblock,
  epipe, econnreset, with_reactor, called, in_thread, channel_of,
}

-- `s.substr(pos, count)`
unfoldable pub substr : List ℕ → ℕ → ℕ → Result (List ℕ)
substr s position count =
    if ltb (length s) position then err out_of_range else ok (take count (drop position s))

-- `n - 1` as the `size_t` that `substr` takes.
unfoldable pub size_t_pred : ℕ → ℕ
size_t_pred n = (n + (2 ^ 64 - 1)) % 2 ^ 64

-- EPIPE and ECONNRESET end the sending; no other error does, nor is EWOULDBLOCK among them.
abbrev pub is_fault : Wrote → Bool
is_fault (wrote n) = false
is_fault (failed errno) = not (errno == ewouldblock) && (errno == epipe || errno == econnreset)

-- A value that is narrowed to `int`.
abbrev pub as_int : ℕ → ℤ
as_int n = let w = n % 2 ^ 32 in if ltb w (2 ^ 31) then pos w else negsuc (2 ^ 32 - 1 - w)

-- `remain`, which is `len`, or `len - n` after a write; the difference is of 64 bits.
unfoldable pub remaining : ℕ → Wrote → ℤ
remaining len (wrote n) = as_int (len + (2 ^ 64 - n))
remaining len (failed errno) = as_int len

module _ {api : Buffers} where
  open api use {bytes, append}

  -- The last block of `sendInLoop`: `remain` of the message is left, of which `n` bytes are gone.
  unfoldable pub keep_rest : ℕ → List ℕ → ℕ → ℕ → Conn api → Result (Conn api)
  unfolding is_writing
  keep_rest here msg n remain c = do
    rest ← substr msg (size_t_pred n) remain
    channel ← channel_of c
    let c' = record c { out_buffer = append rest c.out_buffer }
    if is_writing channel
        then ok c'
        else (do r ← enable_write here c'.channel c'.reactor; ok (with_reactor c' r))

  unfoldable pub finish_send : ℕ → List ℕ → Wrote → Conn api → Result (Conn api)
  unfolding remaining
  finish_send here msg answer c = do
    let remain = remaining (length msg) answer
    check (leb_ℤ remain (as_int (length msg))) assertion
    if not (is_fault answer) && ltb_ℤ (pos 0) remain
        then keep_rest here msg (taken answer) (pos_part remain) c
        else ok c

  -- Where there is output already, no write is tried and `n` stays 0.
  unfoldable pub send_in_loop : ℕ → List ℕ → Wrote → Conn api → Result (Conn api)
  unfolding is_writing
  send_in_loop here msg answer c = do
    check (in_thread here c) fatal
    if is_state c.state disconnected then ok c else (do
      channel ← channel_of c
      if not (is_writing channel) && length (bytes c.out_buffer) == 0
          then finish_send here msg answer (called (write msg answer) c)
          else finish_send here msg (wrote 0) c)

  unfoldable pub send : ℕ → List ℕ → Wrote → Conn api → Result (Conn api)
  send here msg answer c =
      if is_state c.state connected
      then (if in_thread here c
          then send_in_loop here msg answer c
          else ok (record c { queued = c.queued ++ sends msg ∷ [] }))
      else ok c
