-- ===== src/TimerSet/Pointers.antt =====
-- Which timers the entries of a list point at.
use mudo_reprint.Base.{ℕ, ◌≢◌, sym, List, [], ◌∷◌, All, arith, Bool-cases, inl, inr}
use mudo_reprint.Timestamp.{Timestamps}
use mudo_reprint.TimerSet.{entry_lt, set_insert, below, from}
use mudo_reprint.TimerSet.Order.{All-set_insert}
use mudo_reprint.TimerSet.Expiry.{All-below, All-from}

module _ {T : Type 0} where
  -- No entry of the list points at `p`.
  abbrev pub Misses : ℕ → List (T × ℕ) → Type 0
  Misses p = All (λ e. e.1 ≢ p)

  abbrev pub IsDistinct : List (T × ℕ) → Type 0
  IsDistinct [] = Unit
  IsDistinct (x ∷ xs) = Misses x.1 xs × IsDistinct xs

module _ (api : Timestamps) where
  open api use {Time}

  pub apart-insert :
      (t : Time) (p : ℕ) (set out : List (Time × ℕ))
      → Misses p out
      → All (λ d. Misses d.1 set) out
      → All (λ d. Misses d.1 (set_insert api (t, p) set)) out
  apart-insert t p set [] m a = tt
  apart-insert t p set (d ∷ out) m a = (
    All-set_insert api (λ e. e.1 ≢ d.1) (t, p) set (λ e. m.0 (sym e)) a.0,
    apart-insert t p set out m.1 a.1,
  )

  pub below-IsDistinct :
      (key : Time × ℕ) (xs : List (Time × ℕ)) → IsDistinct xs → IsDistinct (below api key xs)
  below-IsDistinct key [] d = tt
  below-IsDistinct key (x ∷ xs) d =
      ground (arith, below-IsDistinct key xs d.1, All-below api (λ e. e.1 ≢ x.1) key xs d.0)

  pub below-apart :
      (key : Time × ℕ) (xs : List (Time × ℕ))
      → IsDistinct xs
      → All (λ d. Misses d.1 (from api key xs)) (below api key xs)
  below-apart key [] d = tt
  below-apart key (x ∷ xs) d = elim (Bool-cases (entry_lt api x key)) [
    | inl before ↦ simp before (All-from api (λ e. e.1 ≢ x.1) key xs d.0, below-apart key xs d.1)
    | inr after ↦ simp after tt
  ]
