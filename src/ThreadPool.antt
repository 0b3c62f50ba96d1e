-- ===== src/ThreadPool.antt =====
-- EventLoopThreadPoll.h and EventLoopThreadPoll.cpp. Loops are known by numbers.
pub mod Rotation
pub mod Start
pub mod Trial
mod Tests
use mudo_reprint.Base.{
  ℕ, zero, suc, ◌+◌, ◌≤◌, ◌<◌, Bool, true, false, not, Option, none, some, List, [], ◌∷◌, ◌++◌,
  ◌==◌, leb, if◌then◌else◌, length, get_elem?, Result, ok, err, assertion, fatal, ◌>>=◌, ◌>>◌,
  check, deref, show,
}

pub record Pool : Type 0 where
  pub base_loop : ℕ
  pub base_tid : ℕ
  pub thread_num : ℕ
  pub name : List ℕ
  pub threads : List (List ℕ)
  pub loops : List ℕ
  pub next : ℕ
  pub started : Bool

unfoldable pub new_pool : (base_loop base_tid : ℕ) → List ℕ → Pool
new_pool base_loop base_tid name = record {
  base_loop = base_loop;
  base_tid = base_tid;
  thread_num = 0;
  name = name;
  threads = [];
  loops = [];
  next = 0;
  started = false;
}

unfoldable pub set_thread_num : ℕ → Pool → Pool
set_thread_num n p = record p { thread_num = n }

-- `snprintf(buf, size, "%s%d", m_name, i)`; the buffer has 32 bytes more than the name.
abbrev pub thread_name : List ℕ → ℕ → List ℕ
thread_name name i = name ++ show i

-- The rounds of the loop in `start` from `i` on; `start_loop i` is the loop that the thread returns.
unfoldable pub start_threads : (ℕ → ℕ) → (rounds i : ℕ) → Pool → Pool
start_threads start_loop zero i p = p
start_threads start_loop (suc rounds) i p = start_threads start_loop rounds (i + 1) (record p {
  threads = p.threads ++ thread_name p.name i ∷ [];
  loops = p.loops ++ start_loop i ∷ [];
})

unfoldable pub start : ℕ → (ℕ → ℕ) → Pool → Result Pool
unfolding start_threads
start here start_loop p = do
  check (here == p.base_tid) fatal
  check (not p.started) assertion
  ok (start_threads start_loop p.thread_num 0 (record p { started = true }))

-- Indexing the vector out of range is a fault.
unfoldable pub get_next_loop : ℕ → Pool → Result (ℕ × Pool)
get_next_loop here p = do
  check (here == p.base_tid) fatal
  check p.started assertion
  if length p.loops == 0 then ok (p.base_loop, p) else (do
    loop ← deref (get_elem? p.loops p.next)
    let next = p.next + 1
    ok (loop, record p { next = if leb (length p.loops) next then 0 else next }))
