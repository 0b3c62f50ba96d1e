-- ===== src/Epoller/Print.antt =====
-- `operationToString` and `eventsToString`, and reading them back.
use mudo_reprint.Base.{
  All, ◌<◌, sym, ap, ◌∙◌, show-injective, show-below, ℕ, ◌≡◌, refl, Bool, true, false, Option, none,
  some, List, [], ◌∷◌, ◌++◌, if◌then◌else◌, arith, show, ◌==◌,
}
use mudo_reprint.Channel.{has, epollin, epollpri, epollout, epollerr, epollhup, epollrdhup}
use mudo_reprint.Channel.Flags.{Flags, encode}
use mudo_reprint.Epoller.{Op, ctl_add, ctl_mod, ctl_del}

-- The operations of `epoll_ctl` are the three of `Op`, so the branch that asserts is never taken.
unfoldable pub operation_to_string : Op → List ℕ
operation_to_string ctl_add = b'A' ∷ b'D' ∷ b'D' ∷ []
operation_to_string ctl_del = b'D' ∷ b'E' ∷ b'L' ∷ []
operation_to_string ctl_mod = b'M' ∷ b'O' ∷ b'D' ∷ []

pub operation_to_string-injective :
    (a b : Op) → operation_to_string a ≡ operation_to_string b → a ≡ b
unfolding operation_to_string
operation_to_string-injective a b e = ground arith

-- `if (ev & bit) oss << word;`
abbrev when : ℕ → ℕ → List ℕ → List ℕ
when ev bit word = if has ev bit then word else []

unfoldable event_words : ℕ → List ℕ
event_words ev =
    when ev epollin (b'I' ∷ b'N' ∷ b' ' ∷ [])
    ++ when ev epollpri (b'P' ∷ b'R' ∷ b'I' ∷ b' ' ∷ [])
    ++ when ev epollout (b'O' ∷ b'U' ∷ b'T' ∷ b' ' ∷ [])
    ++ when ev epollhup (b'H' ∷ b'U' ∷ b'P' ∷ b' ' ∷ [])
    ++ when ev epollrdhup (b'R' ∷ b'D' ∷ b'H' ∷ b'U' ∷ b'P' ∷ b' ' ∷ [])
    ++ when ev epollerr (b'E' ∷ b'R' ∷ b'R' ∷ b' ' ∷ [])

unfoldable pub events_to_string : (fd ev : ℕ) → List ℕ
unfolding event_words
events_to_string fd ev = show fd ++ b':' ∷ b' ' ∷ event_words ev

tail : List ℕ → List ℕ
tail [] = []
tail (c ∷ cs) = cs

-- The rest of a text after a word that it may start with.
strip : List ℕ → List ℕ → Option (List ℕ)
strip [] text = some text
strip (x ∷ word) [] = none
strip (x ∷ word) (y ∷ text) = let rest = strip word text in if x == y then rest else none

read_word : List ℕ → List ℕ → Bool × List ℕ
unfolding strip
read_word word text = elim (strip word text) [ none ↦ (false, text) | some rest ↦ (true, rest) ]

-- The six flags, from the words in their order.
pub read_events : List ℕ → Flags
unfolding read_word
read_events t₀ =
    let (readable, t₁) = read_word (b'I' ∷ b'N' ∷ b' ' ∷ []) t₀ in
    let (urgent, t₂) = read_word (b'P' ∷ b'R' ∷ b'I' ∷ b' ' ∷ []) t₁ in
    let (writable, t₃) = read_word (b'O' ∷ b'U' ∷ b'T' ∷ b' ' ∷ []) t₂ in
    let (hung_up, t₄) = read_word (b'H' ∷ b'U' ∷ b'P' ∷ b' ' ∷ []) t₃ in
    let (peer_closed, t₅) = read_word (b'R' ∷ b'D' ∷ b'H' ∷ b'U' ∷ b'P' ∷ b' ' ∷ []) t₄ in
    let (failed, t₆) = read_word (b'E' ∷ b'R' ∷ b'R' ∷ b' ' ∷ []) t₅ in
    record {
      readable = readable;
      urgent = urgent;
      writable = writable;
      failed = failed;
      hung_up = hung_up;
      peer_closed = peer_closed;
    }

read_words :
    (a b c d e f : Bool)
    → read_events (
        event_words (
          encode (record {
            readable = a;
            urgent = b;
            writable = c;
            failed = d;
            hung_up = e;
            peer_closed = f;
          })))
      ≡ record { readable = a; urgent = b; writable = c; failed = d; hung_up = e; peer_closed = f }
unfolding read_events event_words has
read_words a b c d e f = ground arith

-- What stands before the first colon, and what follows it.
split_colon : List ℕ → List ℕ × List ℕ
split_colon [] = ([], [])
split_colon (c ∷ cs) =
    let (before, after) = split_colon cs in if c == b':' then ([], cs) else (c ∷ before, after)

split_colon-append :
    (xs ys : List ℕ) → All (λ c. c < b':') xs → split_colon (xs ++ b':' ∷ ys) ≡ (xs, ys)
unfolding split_colon
split_colon-append [] ys a = refl
split_colon-append (x ∷ xs) ys a = ground (arith, split_colon-append xs ys a.1, a.0)

-- What the log shows of a call of `epoll_ctl` determines the descriptor and the six flags of the mask.
pub events_to_string-injective :
    (m n : ℕ) (f g : Flags)
    → events_to_string m (encode f) ≡ events_to_string n (encode g)
    → (m ≡ n) × (f ≡ g)
unfolding events_to_string tail
events_to_string-injective m n f g e =
    let left = split_colon-append (show m) (b' ' ∷ event_words (encode f)) (show-below m) in
    let right = split_colon-append (show n) (b' ' ∷ event_words (encode g)) (show-below n) in
    let same = sym left ∙ ap split_colon e ∙ right in
    (
      show-injective m n (ap (λ p. p.0) same),
      sym (read_words f.readable f.urgent f.writable f.failed f.hung_up f.peer_closed)
          ∙ ap (λ p. read_events (tail p.1)) same
          ∙ read_words g.readable g.urgent g.writable g.failed g.hung_up g.peer_closed,
    )
