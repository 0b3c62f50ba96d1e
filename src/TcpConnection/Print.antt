-- ===== src/TcpConnection/Print.antt =====
-- `stateToString`.
use mudo_reprint.Base.{ℕ, ◌≡◌, List, [], ◌∷◌, arith}
use mudo_reprint.TcpConnection.{ConnectState, connecting, connected, disconnecting, disconnected}

-- The state is always one of the four, so the default branch is never taken.
unfoldable pub state_to_string : ConnectState → List ℕ
state_to_string disconnected =
    b'k' ∷ b'D' ∷ b'i' ∷ b's' ∷ b'c' ∷ b'o' ∷ b'n' ∷ b'n' ∷ b'e' ∷ b'c' ∷ b't' ∷ b'e' ∷ b'd' ∷ []
state_to_string connecting =
    b'k' ∷ b'C' ∷ b'o' ∷ b'n' ∷ b'n' ∷ b'e' ∷ b'c' ∷ b't' ∷ b'i' ∷ b'n' ∷ b'g' ∷ []
state_to_string connected = b'k' ∷ b'C' ∷ b'o' ∷ b'n' ∷ b'n' ∷ b'e' ∷ b'c' ∷ b't' ∷ b'e' ∷ b'd' ∷ []
state_to_string disconnecting =
    b'k' ∷ b'D' ∷ b'i' ∷ b's' ∷ b'C' ∷ b'o' ∷ b'n' ∷ b'n' ∷ b'e' ∷ b'c' ∷ b't' ∷ b'i' ∷ b'n' ∷ b'g'
    ∷ []

-- Different states are printed differently.
pub state_to_string-injective : (a b : ConnectState) → state_to_string a ≡ state_to_string b → a ≡ b
unfolding state_to_string
state_to_string-injective a b e = ground arith
