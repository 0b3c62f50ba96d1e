-- ===== src/Socket/Print.antt =====
-- What `getTcpInfoString` (Socket.cpp) prints of a connection.
use mudo_reprint.Base.{
  ℕ, ◌-◌, ◌<◌, ◌≡◌, Option, none, some, List, [], ◌∷◌, ◌++◌, length, length-take, show, snprintf,
  arith,
}

-- The members of `struct tcp_info` that are printed, without their prefix.
pub record TcpInfo : Type 0 where
  pub retransmits : ℕ
  pub rto : ℕ
  pub ato : ℕ
  pub snd_mss : ℕ
  pub rcv_mss : ℕ
  pub lost : ℕ
  pub retrans : ℕ
  pub rtt : ℕ
  pub rttvar : ℕ
  pub snd_ssthresh : ℕ
  pub snd_cwnd : ℕ
  pub total_retrans : ℕ

-- A label and `%u`.
abbrev item : List ℕ → ℕ → List ℕ
item label value = label ++ b'=' ∷ show value

abbrev tcp_info_text : TcpInfo → List ℕ
tcp_info_text t =
    item (b'u' ∷ b'n' ∷ b'r' ∷ b'e' ∷ b'c' ∷ b'o' ∷ b'v' ∷ b'e' ∷ b'r' ∷ b'e' ∷ b'd' ∷ [])
      t.retransmits
    ++ b' ' ∷ item (b'r' ∷ b't' ∷ b'o' ∷ []) t.rto
    ++ b' ' ∷ item (b'a' ∷ b't' ∷ b'o' ∷ []) t.ato
    ++ b' ' ∷ item (b's' ∷ b'n' ∷ b'd' ∷ b'_' ∷ b'm' ∷ b's' ∷ b's' ∷ []) t.snd_mss
    ++ b' ' ∷ item (b'r' ∷ b'c' ∷ b'v' ∷ b'_' ∷ b'm' ∷ b's' ∷ b's' ∷ []) t.rcv_mss
    ++ b' ' ∷ item (b'l' ∷ b'o' ∷ b's' ∷ b't' ∷ []) t.lost
    ++ b' ' ∷ item (b'r' ∷ b'e' ∷ b't' ∷ b'r' ∷ b'a' ∷ b'n' ∷ b's' ∷ []) t.retrans
    ++ b' ' ∷ item (b'r' ∷ b't' ∷ b't' ∷ []) t.rtt
    ++ b' ' ∷ item (b'r' ∷ b't' ∷ b't' ∷ b'v' ∷ b'a' ∷ b'r' ∷ []) t.rttvar
    ++ b' '
      ∷ item (b's' ∷ b's' ∷ b'h' ∷ b't' ∷ b'h' ∷ b'r' ∷ b'e' ∷ b's' ∷ b'h' ∷ []) t.snd_ssthresh
    ++ b' ' ∷ item (b'c' ∷ b'w' ∷ b'n' ∷ b'd' ∷ []) t.snd_cwnd
    ++ b' '
      ∷ item
          (b't' ∷ b'o' ∷ b't' ∷ b'a' ∷ b'l' ∷ b'_' ∷ b'r' ∷ b'e' ∷ b't' ∷ b'r' ∷ b'a' ∷ b'n' ∷ b's'
            ∷ [])
          t.total_retrans

-- `getTcpInfo` answers none where the call of `getsockopt` fails; then `buf` is left as it was.
unfoldable pub get_tcp_info_string : (size : ℕ) → Option TcpInfo → Option (List ℕ)
get_tcp_info_string size none = none
get_tcp_info_string size (some t) = some (snprintf size (tcp_info_text t))

-- With the byte that ends it, the text fits into a buffer that has room for one byte.
pub get_tcp_info_string-fits :
    (size : ℕ) (t : TcpInfo) (text : List ℕ)
    → 0 < size
    → get_tcp_info_string size (some t) ≡ some text
    → length text < size
unfolding get_tcp_info_string
get_tcp_info_string-fits size t text h e =
    let short = length-take (size - 1) (tcp_info_text t) in ground (arith, short, e)
