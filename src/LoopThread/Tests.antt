-- ===== src/LoopThread/Tests.antt =====
-- A thread that is started and ended, and one whose loop others end first.
use mudo_reprint.Base.{◌≡◌, refl, ◌⊎◌, Bool, true, false, Reach, here, next}
use mudo_reprint.LoopThread.{
  crashed, dangled, destroyed, joining, started, absent, looping, ended, Thread, Step, unused,
  spawns, publishes, wakes, returns, other_quits, loop_ends, reads, reads_null, stores_flag,
  wakes_loop, wakes_late, joins,
}
use mudo_reprint.LoopThread.Handshake.{handshake_safe}

abbrev finished : Thread
finished = record {
  owner = destroyed;
  worker = ended;
  loop_set = false;
  quit_flag = true;
  others_quit = false;
}

up :
    (others_quit : Bool)
    → Reach Step (unused others_quit) (record {
      owner = started true;
      worker = looping;
      loop_set = true;
      quit_flag = false;
      others_quit = others_quit;
    })
up others_quit =
    next (next (next (next here (spawns refl refl)) (publishes refl refl)) (wakes refl refl refl))
      (returns refl refl)

finished-Reach : Reach Step (unused false) finished
finished-Reach =
    next
      (next
        (next (next (next (up false) (reads true refl refl refl)) (stores_flag refl refl refl))
          (wakes_loop refl refl refl))
        (loop_ends refl refl refl))
      (joins refl refl refl)

handshake_safe_example :
    ((b : Bool) → destroyed ≡ started b → b ≡ true)
    × (destroyed ≡ joining → (ended ≡ ended) ⊎ ((ended ≡ looping) × (true ≡ true)))
    × (destroyed ≡ destroyed → (ended ≡ ended) ⊎ (ended ≡ absent))
    × (destroyed ≡ crashed → false ≡ true)
    × (destroyed ≡ dangled → (true ≡ true) × (ended ≡ ended))
handshake_safe_example = handshake_safe false finished finished-Reach

-- Where others end the loop first, the destructor reads a null pointer and calls `quit` through it.
ended_early : (t : Thread) × Reach Step (unused true) t × (t.owner ≡ crashed) × (t.loop_set ≡ false)
ended_early = (
  _,
  next (next (next (up true) (other_quits refl refl refl refl)) (loop_ends refl refl refl))
      (reads_null true refl refl refl),
  refl,
  refl,
)

-- With no other quitter: the destructor stores the flag, the thread takes it and ends, and with it goes
-- the loop that `quit` then reads.
quit_dangles : (t : Thread) × Reach Step (unused false) t × (t.owner ≡ dangled)
quit_dangles = (
  _,
  next
      (next (next (next (up false) (reads true refl refl refl)) (stores_flag refl refl refl))
        (loop_ends refl refl refl))
      (wakes_late refl refl refl),
  refl,
)
