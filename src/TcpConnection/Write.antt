-- ===== src/TcpConnection/Write.antt =====
-- `handleWrite`: what becomes of the bytes that wait in the output buffer.
use mudo_reprint.Base.{
  ℕ, ◌<◌, ◌≡◌, ◌⊎◌, inl, inr, Bool, true, List, [], ◌∷◌, take, ok, err, assertion, arith, ◌==◌,
  Bool-cases,
}
use mudo_reprint.Channel.{Channel, is_writing}
use mudo_reprint.Buffer.{Buffers}
use mudo_reprint.TcpConnection.{
  Conn, Wrote, write, shutdown_write, handle_write, after_write, offered_count, taken,
}
use mudo_reprint.TcpConnection.SendCases.{InLoop}

module _ {api : Buffers} where
  open api use {bytes, retrieve_all, bytes-retrieve_all, retrieve, retrieve_short}

  module _ (count_first : Bool) (here : ℕ) (answer : Wrote) (c : Conn api) (ch : Channel)
      (l : InLoop here c ch) (writing : is_writing ch ≡ true) where
    abbrev offered : List ℕ
    offered = take (offered_count api count_first c.out_buffer) (bytes c.out_buffer)

    abbrev emptied : Conn api
    emptied = record c {
      out_buffer = retrieve_all c.out_buffer;
      calls = write offered answer ∷ c.calls;
    }

    abbrev given_up : Conn api
    given_up = record emptied { calls = shutdown_write ∷ write offered answer ∷ c.calls }

    after_write-asserts : (n : ℕ) → 0 < n → after_write here n emptied ≡ err assertion
    unfolding after_write
    after_write-asserts n h = rw (
        retrieve_short n (retrieve_all c.out_buffer)
          (rw (bytes-retrieve_all c.out_buffer) (omega arith)))

    -- In either order of evaluation, and whatever the kernel answers, `handleWrite` on a writing
    -- channel never hands over bytes and returns. Where the write takes some, the assertion in
    -- `retrieve` fails on the buffer, which is empty by then. Where it takes none, the call returns
    -- with the buffer empty, whatever was in it, and the socket shut down for writing.
    pub handle_write-loses :
        ((0 < taken answer) × (handle_write count_first here answer c ≡ err assertion))
        ⊎ ((taken answer ≡ 0)
            × (handle_write count_first here answer c ≡ ok given_up)
            × (bytes given_up.out_buffer ≡ []))
    unfolding handle_write
    handle_write-loses = elim (Bool-cases (taken answer == 0)) [
      | inl nothing ↦ inr (
        ground arith,
        rw (l.thread, l.live, writing, nothing) (ground arith),
        bytes-retrieve_all c.out_buffer,
      )
      | inr something ↦ inl (
        ground arith,
        rw (l.thread, l.live, writing, something)
            (ground (arith, after_write-asserts (taken answer))),
      )
    ]
