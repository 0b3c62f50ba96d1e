-- ===== src/ThreadPool/Start.antt =====
-- `start`: one thread and one loop for each number below the thread count.
use mathlib.Core.List.{append_assoc, append-nil}
use mudo_reprint.Base.{
  ℕ, zero, suc, ◌+◌, ◌≡◌, refl, ap, true, false, List, [], ◌∷◌, ◌++◌, ok, err, assertion, arith,
  length,
}
use mudo_reprint.ThreadPool.{Pool, start, start_threads, thread_name}

-- f i, f (i + 1), and so on.
abbrev pub numbered : {A : Type 0} → (ℕ → A) → ℕ → ℕ → List A
numbered f i zero = []
numbered f i (suc n) = f i ∷ numbered f (i + 1) n

pub length-numbered : {A : Type 0} (f : ℕ → A) (i n : ℕ) → length (numbered f i n) ≡ n
length-numbered f i zero = refl
length-numbered f i (suc n) = ap suc (length-numbered f (i + 1) n)

module _ (start_loop : ℕ → ℕ) where
  abbrev filled : ℕ → ℕ → Pool → Pool
  filled n i p = record p {
    threads = p.threads ++ numbered (thread_name p.name) i n;
    loops = p.loops ++ numbered start_loop i n;
  }

  start_threads-filled : (n i : ℕ) (p : Pool) → start_threads start_loop n i p ≡ filled n i p
  unfolding start_threads
  start_threads-filled zero i p = rw (append-nil, append-nil)
  start_threads-filled (suc n) i p = ground (
    arith,
    start_threads-filled n (i + 1) (record p {
      threads = p.threads ++ thread_name p.name i ∷ [];
      loops = p.loops ++ start_loop i ∷ [];
    }),
    append_assoc p.threads (thread_name p.name i ∷ []) (numbered (thread_name p.name) (i + 1) n),
    append_assoc p.loops (start_loop i ∷ []) (numbered start_loop (i + 1) n),
  )

  -- Called for the first time in the base loop's thread, `start` makes as many threads as were set,
  -- named by the pool's name and their number, and keeps their loops in the same order; a second call
  -- fails its assertion.
  pub start_once :
      (here other : ℕ) (again : ℕ → ℕ) (p : Pool)
      → here ≡ p.base_tid
      → other ≡ p.base_tid
      → p.started ≡ false
      → (p' : Pool) × (start here start_loop p ≡ ok p')
        × (p'.loops ≡ p.loops ++ numbered start_loop 0 p.thread_num)
        × (p'.threads ≡ p.threads ++ numbered (thread_name p.name) 0 p.thread_num)
        × (start other again p' ≡ err assertion)
  unfolding start
  start_once here other again p h o s = (
    filled p.thread_num 0 (record p { started = true }),
    ground (arith, start_threads-filled p.thread_num 0 (record p { started = true })),
    refl,
    refl,
    ground arith,
  )
