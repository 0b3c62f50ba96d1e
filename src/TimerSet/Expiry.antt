-- ===== src/TimerSet/Expiry.antt =====
-- `lower_bound` with the entry of the current time and the largest pointer: it cuts the list exactly
-- between what is due and what is not.
use mudo_reprint.Base.{ℕ, ◌<◌, ◌≡◌, refl, ◌↔◌, true, List, [], ◌∷◌, ◌++◌, All, arith}
use mudo_reprint.Base.Int.{◌≤ℤ◌, ◌<ℤ◌}
use mudo_reprint.Timestamp.{Timestamps}
use mudo_reprint.TimerSet.{entry_lt, is_first, below, from, uintptr_max}
use mudo_reprint.TimerSet.Order.{IsSorted}

module _ (api : Timestamps) where
  open api use {Time, micros, lt_lem}

  pub below-append-from :
      (key : Time × ℕ) (xs : List (Time × ℕ)) → below api key xs ++ from api key xs ≡ xs
  below-append-from key [] = refl
  below-append-from key (x ∷ xs) = ground (arith, below-append-from key xs)

  pub from-IsSorted :
      (key : Time × ℕ) (xs : List (Time × ℕ)) → IsSorted api xs → IsSorted api (from api key xs)
  from-IsSorted key [] s = tt
  from-IsSorted key (x ∷ xs) s = ground (arith, from-IsSorted key xs s.1)

  pub All-below :
      (P : Time × ℕ → Type 0) (key : Time × ℕ) (xs : List (Time × ℕ))
      → All P xs
      → All P (below api key xs)
  All-below P key [] a = tt
  All-below P key (x ∷ xs) a = ground (arith, All-below P key xs a.1)

  pub All-from :
      (P : Time × ℕ → Type 0) (key : Time × ℕ) (xs : List (Time × ℕ))
      → All P xs
      → All P (from api key xs)
  All-from P key [] a = tt
  All-from P key (x ∷ xs) a = ground (arith, All-from P key xs a.1)

  -- Pointers of timers are below the largest one.
  abbrev pub IsPointer : Time × ℕ → Type 0
  IsPointer e = e.1 < uintptr_max

  abbrev pub IsDue : Time → Time × ℕ → Type 0
  IsDue now e = micros e.0 ≤ℤ micros now

  abbrev pub IsLater : Time → Time × ℕ → Type 0
  IsLater now e = micros now <ℤ micros e.0

  below-IsDue :
      (now : Time) (xs : List (Time × ℕ))
      → All IsPointer xs
      → All (IsDue now) (below api (now, uintptr_max) xs)
  below-IsDue now [] a = tt
  below-IsDue now ((t, p) ∷ xs) a =
      ground (arith, lt_lem t now, lt_lem now t, below-IsDue now xs a.1)

  IsLater-than :
      (now t : Time) (p : ℕ) (xs : List (Time × ℕ))
      → micros now <ℤ micros t
      → All (λ y. entry_lt api (t, p) y ≡ true) xs
      → All (IsLater now) xs
  IsLater-than now t p [] h a = tt
  IsLater-than now t p ((u, q) ∷ xs) h a =
      (ground (arith, lt_lem t u, lt_lem u t, a.0), IsLater-than now t p xs h a.1)

  from-IsLater :
      (now : Time) (xs : List (Time × ℕ))
      → IsSorted api xs
      → All IsPointer xs
      → All (IsLater now) (from api (now, uintptr_max) xs)
  from-IsLater now [] s a = tt
  from-IsLater now ((t, p) ∷ xs) s a =
      ground
        (arith, lt_lem t now, lt_lem now t, from-IsLater now xs s.1 a.1, IsLater-than now t p xs)

  -- Of an ordered list the part before the lower bound holds the entries that are due, the rest those
  -- that are later, and nothing is lost or moved.
  pub expiry_split :
      (now : Time) (xs : List (Time × ℕ))
      → IsSorted api xs
      → All IsPointer xs
      → All (IsDue now) (below api (now, uintptr_max) xs)
        × All (IsLater now) (from api (now, uintptr_max) xs)
        × (below api (now, uintptr_max) xs ++ from api (now, uintptr_max) xs ≡ xs)
  expiry_split now xs s a =
      (below-IsDue now xs a, from-IsLater now xs s a, below-append-from (now, uintptr_max) xs)

  -- `insert` reports a new first timer exactly when its time is before that of every entry.
  pub is_first_iff :
      (t : Time) (xs : List (Time × ℕ))
      → IsSorted api xs
      → (is_first api t xs ≡ true) ↔ All (IsLater t) xs
  is_first_iff t [] s = ground arith
  is_first_iff t ((u, q) ∷ xs) s = (
    (λ h. (ground (arith, lt_lem t u), IsLater-than t u q xs (ground (arith, lt_lem t u)) s.0)),
    (λ a. ground (arith, lt_lem t u, a.0)),
  )
