-- ===== src/ThreadPool/Trial.antt =====
-- EventThreadPoll_test.cpp: the assertions of its `main`. (What it prints, and the timers and functors that print,
-- are left out.)
use mudo_reprint.Base.{
  ℕ, ◌≡◌, ◌≢◌, not, List, [], ◌∷◌, ◌==◌, Result, ok, assertion, ◌>>=◌, ◌>>◌, check, arith,
}
use mudo_reprint.ThreadPool.{Pool, new_pool, set_thread_num, start, start_threads, get_next_loop}

abbrev single : List ℕ
single = b's' ∷ b'i' ∷ b'n' ∷ b'g' ∷ b'l' ∷ b'e' ∷ []

abbrev another : List ℕ
another = b'a' ∷ b'n' ∷ b'o' ∷ b't' ∷ b'h' ∷ b'e' ∷ b'r' ∷ []

abbrev three : List ℕ
three = b't' ∷ b'h' ∷ b'r' ∷ b'e' ∷ b'e' ∷ []

-- `model` with its name, `setThreadNum(n)` and `start`; `loops i` is the loop of the thread `i`.
unfoldable pub model : (here loop : ℕ) → List ℕ → ℕ → (ℕ → ℕ) → Result Pool
model here loop name n loops = start here loops (set_thread_num n (new_pool loop here name))

-- `assert(model.getNextLoop() == expected)`
unfoldable pub assert_next : (here expected : ℕ) → Pool → Result Pool
assert_next here expected p = do
  (next, p') ← get_next_loop here p
  check (next == expected) assertion
  ok p'

-- `assert(other != model.getNextLoop())`
unfoldable pub assert_next_differs : (here other : ℕ) → Pool → Result Pool
assert_next_differs here other p = do
  (next, p') ← get_next_loop here p
  check (not (other == next)) assertion
  ok p'

unfoldable pub single_thread : (here loop : ℕ) → (ℕ → ℕ) → Result Pool
unfolding model assert_next
single_thread here loop loops = do
  p ← model here loop single 0 loops
  p₁ ← assert_next here loop p
  p₂ ← assert_next here loop p₁
  assert_next here loop p₂

unfoldable pub another_thread : (here loop : ℕ) → (ℕ → ℕ) → Result Pool
unfolding model assert_next
another_thread here loop loops = do
  p ← model here loop another 1 loops
  (next_loop, p₁) ← get_next_loop here p
  check (not (next_loop == loop)) assertion
  p₂ ← assert_next here next_loop p₁
  assert_next here next_loop p₂

unfoldable pub three_threads : (here loop : ℕ) → (ℕ → ℕ) → Result Pool
unfolding model assert_next assert_next_differs
three_threads here loop loops = do
  p ← model here loop three 3 loops
  (next_loop, p₁) ← get_next_loop here p
  check (not (next_loop == loop)) assertion
  p₂ ← assert_next_differs here next_loop p₁
  p₃ ← assert_next_differs here next_loop p₂
  assert_next here next_loop p₃

-- `main`, up to `loop.loop()`; `f`, `g` and `h` give the loops of the three parts.
unfoldable pub trial : (here loop : ℕ) → (f g h : ℕ → ℕ) → Result (Unit {0})
unfolding single_thread another_thread three_threads
trial here loop f g h = do
  _ ← single_thread here loop f
  _ ← another_thread here loop g
  _ ← three_threads here loop h
  ok tt

-- In whatever thread `main` runs and whatever the loops of the threads, none of its assertions fails,
-- as long as these differ from the base loop, and in the third part from the first one.
pub trial_passes :
    (here loop : ℕ) (f g h : ℕ → ℕ)
    → g 0 ≢ loop
    → h 0 ≢ loop
    → h 0 ≢ h 1
    → h 0 ≢ h 2
    → trial here loop f g h ≡ ok tt
unfolding trial start start_threads get_next_loop set_thread_num new_pool
trial_passes here loop f g h a b c d = ground arith
