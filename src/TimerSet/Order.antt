-- ===== src/TimerSet/Order.antt =====
-- The order of the entries, and insertion into the ordered list.
use mudo_reprint.Base.{ℕ, ◌≡◌, true, List, [], ◌∷◌, All, arith}
use mudo_reprint.Timestamp.{Timestamps}
use mudo_reprint.TimerSet.{entry_lt, set_insert}

module _ (api : Timestamps) where
  open api use {Time, micros, micros_injective, lt_lem}

  -- Every entry comes before all that follow it; in particular none stands twice.
  abbrev pub IsSorted : List (Time × ℕ) → Type 0
  IsSorted [] = Unit
  IsSorted (x ∷ xs) = All (λ y. entry_lt api x y ≡ true) xs × IsSorted xs

  pub entry_lt_trans :
      (x y z : Time × ℕ)
      → entry_lt api x y ≡ true
      → entry_lt api y z ≡ true
      → entry_lt api x z ≡ true
  entry_lt_trans (t, p) (u, q) (w, k) h g =
      ground (arith, lt_lem t u, lt_lem u t, lt_lem u w, lt_lem w u, lt_lem t w, lt_lem w t)

  All-trans :
      (x y : Time × ℕ) (xs : List (Time × ℕ))
      → entry_lt api x y ≡ true
      → All (λ z. entry_lt api y z ≡ true) xs
      → All (λ z. entry_lt api x z ≡ true) xs
  All-trans x y [] h a = tt
  All-trans x y (z ∷ xs) h a = (entry_lt_trans x y z h a.0, All-trans x y xs h a.1)

  pub All-set_insert :
      (P : Time × ℕ → Type 0) (e : Time × ℕ) (xs : List (Time × ℕ))
      → P e
      → All P xs
      → All P (set_insert api e xs)
  All-set_insert P e [] h a = (h, tt)
  All-set_insert P e (x ∷ xs) h a = ground (arith, All-set_insert P e xs h a.1)

  -- Inserting into an ordered list gives an ordered list.
  pub set_insert-IsSorted :
      (e : Time × ℕ) (xs : List (Time × ℕ)) → IsSorted xs → IsSorted (set_insert api e xs)
  set_insert-IsSorted e [] s = (tt, tt)
  set_insert-IsSorted e (x ∷ xs) s = ground (
    arith,
    All-trans e x xs,
    All-set_insert (λ y. entry_lt api x y ≡ true) e xs,
    set_insert-IsSorted e xs s.1,
  )
