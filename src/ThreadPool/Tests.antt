-- ===== src/ThreadPool/Tests.antt =====
-- A pool of three loops.
use mudo_reprint.Base.{◌≡◌, refl, [], ◌∷◌, ok, true, false}
use mudo_reprint.ThreadPool.{Pool}
use mudo_reprint.ThreadPool.Rotation.{next_loops, next_loops-rotation}

abbrev idle : Pool
idle = record {
  base_loop = 1;
  base_tid = 5;
  thread_num = 3;
  name = 112 ∷ [];
  threads = [];
  loops = [];
  next = 0;
  started = false;
}

abbrev running : Pool
running = record idle { loops = 10 ∷ 11 ∷ 12 ∷ []; next = 1; started = true }

next_loops-rotation_example : next_loops 5 3 running ≡ ok (11 ∷ 12 ∷ 10 ∷ [], running)
next_loops-rotation_example =
    next_loops-rotation 5 running (10 ∷ []) (12 ∷ []) 11 refl refl refl refl
