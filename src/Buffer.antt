-- ===== src/Buffer.antt =====
-- What the program uses of muduo::net::Buffer (muduo/net/Buffer.h, not part of the repository): an
-- interface with the documented behaviour of each member, over the readable bytes.
use mudo_reprint.Base.{
  ℕ, ◌≤◌, ◌<◌, ◌≡◌, refl, List, [], ◌++◌, length, drop, leb, if◌then◌else◌, Result, ok, err,
  assertion, arith,
}

pub record Buffers : Type 1 where
  pub Buffer : Type 0
  pub bytes : Buffer → List ℕ
  pub empty : Buffer
  pub bytes-empty : bytes empty ≡ []
  pub append : List ℕ → Buffer → Buffer
  pub bytes-append : (s : List ℕ) (b : Buffer) → bytes (append s b) ≡ bytes b ++ s
  -- What is left after `retrieveAllAsString`, which returns the readable bytes.
  pub retrieve_all : Buffer → Buffer
  pub bytes-retrieve_all : (b : Buffer) → bytes (retrieve_all b) ≡ []
  -- `retrieve(n)` asserts that n bytes are there.
  pub retrieve : ℕ → Buffer → Result Buffer
  pub retrieve_enough :
      (n : ℕ) (b : Buffer)
      → n ≤ length (bytes b)
      → (b' : Buffer) × (retrieve n b ≡ ok b') × (bytes b' ≡ drop n (bytes b))
  pub retrieve_short : (n : ℕ) (b : Buffer) → length (bytes b) < n → retrieve n b ≡ err assertion

abbrev pub list_retrieve : ℕ → List ℕ → Result (List ℕ)
list_retrieve n b = if leb n (length b) then ok (drop n b) else err assertion

pub list_retrieve_enough :
    (n : ℕ) (b : List ℕ)
    → n ≤ length b
    → (b' : List ℕ) × (list_retrieve n b ≡ ok b') × (b' ≡ drop n b)
list_retrieve_enough n b h = (drop n b, ground arith, refl)

pub list_retrieve_short : (n : ℕ) (b : List ℕ) → length b < n → list_retrieve n b ≡ err assertion
list_retrieve_short n b h = ground arith

-- Plain lists of bytes, as an example.
abbrev pub list_buffers : Buffers
list_buffers = record {
  Buffer = List ℕ;
  bytes = λ b. b;
  empty = [];
  bytes-empty = refl;
  append = λ s b. b ++ s;
  bytes-append = λ s b. refl;
  retrieve_all = λ b. [];
  bytes-retrieve_all = λ b. refl;
  retrieve = list_retrieve;
  retrieve_enough = list_retrieve_enough;
  retrieve_short = list_retrieve_short;
}
