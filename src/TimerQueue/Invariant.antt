-- ===== src/TimerQueue/Invariant.antt =====
-- What holds of the set of timers and of those taken out of it to be run.
use mudo_reprint.Base.{ℕ, ◌<◌, ◌≡◌, refl, true, Option, none, some, List, [], ◌∷◌, All, arith}
use mudo_reprint.Timestamp.{Timestamps}
use mudo_reprint.TimerSet.{entry_lt, set_insert, below, from, uintptr_max}
use mudo_reprint.TimerSet.Order.{IsSorted, set_insert-IsSorted, All-set_insert}
use mudo_reprint.TimerSet.Expiry.{IsPointer, from-IsSorted, All-below, All-from}
use mudo_reprint.TimerSet.Pointers.{Misses, IsDistinct, apart-insert, below-IsDistinct, below-apart}
use mudo_reprint.TimerQueue.{Timer, set_timer}

module _ {api : Timestamps} {Cb : Type 0} where
  open api use {Time, lt_lem}

  -- The entry's pointer is to a live timer, which expires at the entry's time.
  abbrev pub IsLive : (ℕ → Option (Timer api Cb)) → Time × ℕ → Type 0
  IsLive timers e = (t : Timer api Cb) × (timers e.1 ≡ some t) × (t.expiration ≡ e.0)

  -- Of the entries `out` that were taken out, and the set: the set is in order; all entries are of
  -- live timers; and no timer is pointed at twice.
  pub record Inv (out set : List (Time × ℕ)) (timers : ℕ → Option (Timer api Cb)) : Type 0 where
    pub sorted : IsSorted api set
    pub pointers : All (IsPointer api) set
    pub live : All (IsLive timers) set
    pub out_pointers : All (IsPointer api) out
    pub out_live : All (IsLive timers) out
    pub out_distinct : IsDistinct out
    pub apart : All (λ d. Misses d.1 set) out

  pub IsLive-update :
      (p : ℕ) (o : Option (Timer api Cb)) (timers : ℕ → Option (Timer api Cb))
      (xs : List (Time × ℕ))
      → Misses p xs
      → All (IsLive timers) xs
      → All (IsLive (set_timer timers p o)) xs
  IsLive-update p o timers [] m a = tt
  IsLive-update p o timers (x ∷ xs) m a =
      ((a.0.0, ground (arith, m.0, a.0.1), a.0.2), IsLive-update p o timers xs m.1 a.1)

  -- A timer that no entry points at can be written and put into the set.
  pub put-Inv :
      (out set : List (Time × ℕ)) (timers : ℕ → Option (Timer api Cb)) (p : ℕ) (t : Timer api Cb)
      → Inv out set timers
      → Misses p set
      → Misses p out
      → p < uintptr_max
      → Inv out (set_insert api (t.expiration, p) set) (set_timer timers p (some t))
  put-Inv out set timers p t v ms mo lt = record {
    sorted = set_insert-IsSorted api (t.expiration, p) set v.sorted;
    pointers = All-set_insert api (IsPointer api) (t.expiration, p) set lt v.pointers;
    live =
        All-set_insert api (IsLive (set_timer timers p (some t))) (t.expiration, p) set
          (t, ground arith, refl) (IsLive-update p (some t) timers set ms v.live);
    out_pointers = v.out_pointers;
    out_live = IsLive-update p (some t) timers out mo v.out_live;
    out_distinct = v.out_distinct;
    apart = apart-insert api t.expiration p set out mo v.apart;
  }

  -- It can be deleted too.
  pub drop-Inv :
      (out set : List (Time × ℕ)) (timers : ℕ → Option (Timer api Cb)) (p : ℕ)
      → Inv out set timers
      → Misses p set
      → Misses p out
      → Inv out set (set_timer timers p none)
  drop-Inv out set timers p v ms mo = record {
    sorted = v.sorted;
    pointers = v.pointers;
    live = IsLive-update p none timers set ms v.live;
    out_pointers = v.out_pointers;
    out_live = IsLive-update p none timers out mo v.out_live;
    out_distinct = v.out_distinct;
    apart = v.apart;
  }

  -- The rest of the entries that were taken out.
  pub tail-Inv :
      (d : Time × ℕ) (out set : List (Time × ℕ)) (timers : ℕ → Option (Timer api Cb))
      → Inv (d ∷ out) set timers
      → Inv out set timers
  tail-Inv d out set timers v = record {
    sorted = v.sorted;
    pointers = v.pointers;
    live = v.live;
    out_pointers = v.out_pointers.1;
    out_live = v.out_live.1;
    out_distinct = v.out_distinct.1;
    apart = v.apart.1;
  }

  -- An address that holds no timer is pointed at by no entry.
  pub Misses-free :
      (p : ℕ) (xs : List (Time × ℕ)) (timers : ℕ → Option (Timer api Cb))
      → timers p ≡ none
      → All (IsLive timers) xs
      → Misses p xs
  Misses-free p [] timers e a = tt
  Misses-free p (x ∷ xs) timers e a = ((λ h. ground (arith, a.0.1)), Misses-free p xs timers e a.1)

  -- In an ordered list of live entries no pointer stands twice.
  Misses-above :
      (x : Time × ℕ) (xs : List (Time × ℕ)) (timers : ℕ → Option (Timer api Cb))
      → IsLive timers x
      → All (IsLive timers) xs
      → All (λ y. entry_lt api x y ≡ true) xs
      → Misses x.1 xs
  Misses-above x [] timers l a s = tt
  Misses-above x (y ∷ xs) timers l a s = (
    (λ h. ground (arith, l.1, l.2, a.0.1, a.0.2, s.0, lt_lem x.0 y.0, lt_lem y.0 x.0)),
    Misses-above x xs timers l a.1 s.1,
  )

  pub IsSorted-IsDistinct :
      (xs : List (Time × ℕ)) (timers : ℕ → Option (Timer api Cb))
      → IsSorted api xs
      → All (IsLive timers) xs
      → IsDistinct xs
  IsSorted-IsDistinct [] timers s a = tt
  IsSorted-IsDistinct (x ∷ xs) timers s a =
      (Misses-above x xs timers a.0 a.1 s.0, IsSorted-IsDistinct xs timers s.1 a.1)

  -- Taking the due entries out.
  pub split-Inv :
      (key : Time × ℕ) (set : List (Time × ℕ)) (timers : ℕ → Option (Timer api Cb))
      → Inv [] set timers
      → Inv (below api key set) (from api key set) timers
  split-Inv key set timers v =
      let distinct = IsSorted-IsDistinct set timers v.sorted v.live in
      record {
        sorted = from-IsSorted api key set v.sorted;
        pointers = All-from api (IsPointer api) key set v.pointers;
        live = All-from api (IsLive timers) key set v.live;
        out_pointers = All-below api (IsPointer api) key set v.pointers;
        out_live = All-below api (IsLive timers) key set v.live;
        out_distinct = below-IsDistinct api key set distinct;
        apart = below-apart api key set distinct;
      }
