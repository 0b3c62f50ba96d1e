-- ===== src/TcpServer/Names.antt =====
-- The names of connections.
use mudo_reprint.Base.{
  ℕ, ◌≤◌, ◌<◌, ◌^◌, ◌≡◌, ◌∙◌, sym, List, [], ◌∷◌, ◌++◌, length, length-append, arith, show,
  show-injective, length-show-int, snprintf, take-all, append-cancel,
}
use mudo_reprint.TcpServer.{conn_name}

suffix : List ℕ → ℕ → List ℕ
suffix ip_port n = b'-' ∷ ip_port ++ b'#' ∷ show n

snprintf-suffix :
    (ip_port : List ℕ) (n : ℕ)
    → length ip_port ≤ 51
    → n < 2 ^ 31
    → snprintf 64 (suffix ip_port n) ≡ suffix ip_port n
unfolding suffix
snprintf-suffix ip_port n h lt =
    take-all 63 (b'-' ∷ ip_port ++ b'#' ∷ show n)
      (omega (arith, length-append ip_port (b'#' ∷ show n), length-show-int n lt))

suffix-injective : (ip_port : List ℕ) (m n : ℕ) → suffix ip_port m ≡ suffix ip_port n → m ≡ n
unfolding suffix
suffix-injective ip_port m n e =
    show-injective m n (cc (append-cancel ip_port (append-cancel (b'-' ∷ []) e)))

-- While the address takes at most 51 bytes and the counter is an int, `buf` is not cut, and two
-- connections of a server never have the same name.
pub conn_name-injective :
    (name ip_port : List ℕ) (m n : ℕ)
    → length ip_port ≤ 51
    → m < 2 ^ 31
    → n < 2 ^ 31
    → conn_name name ip_port m ≡ conn_name name ip_port n
    → m ≡ n
unfolding suffix
conn_name-injective name ip_port m n h lm ln e =
    suffix-injective ip_port m n (
      sym (snprintf-suffix ip_port m h lm)
      ∙ (append-cancel name e ∙ snprintf-suffix ip_port n h ln))
