-- ===== src/LoopThread/Handshake.antt =====
-- `startLoop` returns a loop, and the destructor ends it.
use mudo_reprint.Base.{◌≡◌, ◌≢◌, ◌⊎◌, Bool, true, false, arith, refl, Reach, Reach-keeps}
use mudo_reprint.LoopThread.{
  Owner, unstarted, waiting, woken, quitting, waking, joining, destroyed, crashed, dangled, started,
  absent, created, looping, ended, Thread, unused, Step, spawns, publishes, wakes, returns,
  other_quits, loop_ends, reads, reads_null, stores_flag, wakes_loop, wakes_late, quits_late, joins,
  ends_unstarted,
}

-- `m_loop` is set just while the loop runs.
abbrev IsLooping : Thread → Type 0
IsLooping s = (s.worker ≡ looping) × (s.loop_set ≡ true)

abbrev IsEnded : Thread → Type 0
IsEnded s = (s.worker ≡ ended) × (s.loop_set ≡ false)

-- With the pointer in hand: the loop runs, or others have ended it.
abbrev IsServing : Thread → Type 0
IsServing s =
    (IsLooping s × ((s.quit_flag ≡ false) ⊎ (s.others_quit ≡ true)))
    ⊎ (IsEnded s × (s.others_quit ≡ true))

abbrev IsGood : Owner → Thread → Type 0
IsGood unstarted s = (s.worker ≡ absent) × (s.loop_set ≡ false) × (s.quit_flag ≡ false)
IsGood waiting s =
    (s.quit_flag ≡ false) × (((s.worker ≡ created) × (s.loop_set ≡ false)) ⊎ IsLooping s)
IsGood woken s = (s.quit_flag ≡ false) × IsLooping s
IsGood quitting s = IsServing s
IsGood waking s = (s.quit_flag ≡ true) × (IsLooping s ⊎ IsEnded s)
IsGood dangled s = (s.quit_flag ≡ true) × IsEnded s
IsGood joining s = (IsLooping s × (s.quit_flag ≡ true)) ⊎ IsEnded s
IsGood destroyed s = (s.worker ≢ looping) × (s.worker ≢ created)
IsGood crashed s = (s.others_quit ≡ true) × (s.worker ≢ created)
IsGood (started b) s = (b ≡ true) × IsServing s

pub Inv : Thread → Type 0
Inv s = IsGood s.owner s

Step-Inv : (s t : Thread) → Step s t → Inv s → Inv t
unfolding Inv
Step-Inv s t (spawns p e) v = ground (arith, v)
Step-Inv s t (publishes p e) v = ground (arith, v)
Step-Inv s t (wakes p q e) v = ground (arith, v)
Step-Inv s t (returns p e) v = ground (arith, v)
Step-Inv s t (other_quits o p q e) v = ground (arith, v)
Step-Inv s t (loop_ends p q e) v = ground (arith, v)
Step-Inv s t (reads b p q e) v = ground (arith, v)
Step-Inv s t (reads_null b p q e) v = ground (arith, v)
Step-Inv s t (stores_flag p q e) v = ground (arith, v)
Step-Inv s t (wakes_loop p q e) v = ground (arith, v)
Step-Inv s t (wakes_late p q e) v = ground (arith, v)
Step-Inv s t (quits_late p q e) v = ground (arith, v)
Step-Inv s t (joins p q e) v = ground (arith, v)
Step-Inv s t (ends_unstarted p e) v = ground (arith, v)

Step-others :
    (others_quit : Bool) (s t : Thread)
    → Step s t
    → s.others_quit ≡ others_quit
    → t.others_quit ≡ others_quit
Step-others others_quit s t st h = ground arith

-- However the two threads interleave: `startLoop` returns the pointer to the loop and never null; the
-- destructor waits only for a thread that has ended or whose loop was asked to quit, and returns only
-- when the thread has ended or never was; it calls `quit` through a null or dangling pointer only if
-- others may ask the loop to quit before; and `quit` reads a loop that is gone only after it has
-- stored the flag, when the thread has taken the flag and ended.
pub handshake_safe :
    (others_quit : Bool) (t : Thread)
    → Reach Step (unused others_quit) t
    → ((b : Bool) → t.owner ≡ started b → b ≡ true)
      × (t.owner ≡ joining → (t.worker ≡ ended) ⊎ ((t.worker ≡ looping) × (t.quit_flag ≡ true)))
      × (t.owner ≡ destroyed → (t.worker ≡ ended) ⊎ (t.worker ≡ absent))
      × (t.owner ≡ crashed → others_quit ≡ true)
      × (t.owner ≡ dangled → (t.quit_flag ≡ true) × (t.worker ≡ ended))
unfolding Inv
handshake_safe others_quit t r =
    let v : Inv t = Reach-keeps Inv Step-Inv r (ground arith) in
    let same = Reach-keeps (λ s. s.others_quit ≡ others_quit) (Step-others others_quit) r refl in
    (
      (λ b e. ground (arith, v)),
      ground (arith, v),
      ground (arith, v),
      ground (arith, v),
      ground (arith, v),
    )
