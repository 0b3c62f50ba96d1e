-- ===== src/Channel/Flags.antt =====
-- Words of the six readiness bits that the program names, and the tests on them.
use mudo_reprint.Base.{ℕ, ◌+◌, ◌≡◌, Bool, ◌||◌, bit_or, if◌then◌else◌, arith}
use mudo_reprint.Channel.{has, epollin, epollpri, epollout, epollerr, epollhup, epollrdhup}

pub record Flags : Type 0 where
  pub readable : Bool
  pub urgent : Bool
  pub writable : Bool
  pub failed : Bool
  pub hung_up : Bool
  pub peer_closed : Bool

abbrev pub weight : Bool → ℕ → ℕ
weight b w = if b then w else 0

-- The word whose set bits are the flags.
abbrev pub encode : Flags → ℕ
encode f =
    weight f.readable epollin
    + weight f.urgent epollpri
    + weight f.writable epollout
    + weight f.failed epollerr
    + weight f.hung_up epollhup
    + weight f.peer_closed epollrdhup

abbrev Tests : Bool → Bool → Bool → Bool → Bool → Bool → Type 0
Tests a b c d e f =
    let w = encode (record {
      readable = a;
      urgent = b;
      writable = c;
      failed = d;
      hung_up = e;
      peer_closed = f;
    }) in
    (has w epollin ≡ a)
    × (has w epollout ≡ c)
    × (has w epollerr ≡ d)
    × (has w epollhup ≡ e)
    × (has w (bit_or epollin (bit_or epollpri epollrdhup)) ≡ (a || b || f))

tests : (a b c d e f : Bool) → Tests a b c d e f
unfolding has
tests a b c d e f = ground arith

-- What the conditions of `handleEvent` read off an encoded word.
pub has-encode :
    (f : Flags)
    → (has (encode f) epollin ≡ f.readable)
      × (has (encode f) epollout ≡ f.writable)
      × (has (encode f) epollerr ≡ f.failed)
      × (has (encode f) epollhup ≡ f.hung_up)
      × (has (encode f) (bit_or epollin (bit_or epollpri epollrdhup))
          ≡ (f.readable || f.urgent || f.peer_closed))
has-encode f = tests f.readable f.urgent f.writable f.failed f.hung_up f.peer_closed
