-- ===== src/Base/Maps.antt =====
-- `std::map`, of which the program uses `find`, `operator[]` and `erase` by key: an association
-- list with one entry for each key.
use Prim.Native.Nat.{ℕ}
use mathlib.Core.Path.{◌≡◌, refl}
use mathlib.Core.Logic.{◌≢◌, ◌↔◌}
use mathlib.Core.Bool.{Bool, true, false, ◌&&◌}
use mathlib.Core.Option.{Option, none, some}
use mathlib.Core.List.{List, [], ◌∷◌}
use native.Mathlib.Omega.{arith}
use mudo_reprint.Base.Tests.{◌==◌, ==_iff, if◌then◌else◌}

-- The equality test of a key type.
pub record Eq {ℓ} (A : Type ℓ) : Type ℓ where
  pub beq : A → A → Bool
  pub beq_iff : (a b : A) → (beq a b ≡ true) ↔ (a ≡ b)

instance abbrev pub nat_eq : Eq ℕ
nat_eq = record { beq = ◌==◌; beq_iff = ==_iff }

-- Byte strings.
abbrev pub text_beq : List ℕ → List ℕ → Bool
text_beq [] [] = true
text_beq [] (y ∷ ys) = false
text_beq (x ∷ xs) [] = false
text_beq (x ∷ xs) (y ∷ ys) = x == y && text_beq xs ys

pub text_beq_iff : (a b : List ℕ) → (text_beq a b ≡ true) ↔ (a ≡ b)
text_beq_iff [] [] = ground arith
text_beq_iff [] (y ∷ ys) = ground arith
text_beq_iff (x ∷ xs) [] = ground arith
text_beq_iff (x ∷ xs) (y ∷ ys) = ground (arith, text_beq_iff xs ys)

instance abbrev pub text_eq : Eq (List ℕ)
text_eq = record { beq = text_beq; beq_iff = text_beq_iff }

abbrev pub Dict {ℓ κ} : Type ℓ → Type κ → Type (ℓ ⊔ κ)
Dict K V = List (K × V)

module _ {ℓ κ} {K : Type ℓ} {V : Type κ} ⦃e : Eq K⦄ where
  abbrev pub lookup : K → Dict K V → Option V
  lookup k [] = none
  lookup k ((j, v) ∷ d) = if e.beq k j then some v else lookup k d

  -- `d[k] = v`
  abbrev pub insert : K → V → Dict K V → Dict K V
  insert k v [] = (k, v) ∷ []
  insert k v ((j, w) ∷ d) = if e.beq k j then (k, v) ∷ d else (j, w) ∷ insert k v d

  -- `d.erase(k)`; what it returns is 1 where the key is there and 0 otherwise.
  abbrev pub erase : K → Dict K V → Dict K V
  erase k [] = []
  erase k ((j, w) ∷ d) = if e.beq k j then d else (j, w) ∷ erase k d

  -- `d.find(k) != d.end()`
  abbrev pub contains : K → Dict K V → Bool
  contains k d = elim (lookup k d) [ none ↦ false | some _ ↦ true ]

  -- No key has two entries.
  abbrev pub IsMap : Dict K V → Type κ
  IsMap [] = Unit
  IsMap ((k, v) ∷ d) = (lookup k d ≡ none) × IsMap d

  pub lookup-insert :
      (j k : K) (v : V) (d : Dict K V)
      → lookup j (insert k v d) ≡ (if e.beq j k then some v else lookup j d)
  lookup-insert j k v [] = refl
  lookup-insert j k v ((i, w) ∷ d) =
      ground (arith, e.beq_iff j k, e.beq_iff k i, e.beq_iff j i, lookup-insert j k v d)

  pub lookup-erase_ne : (j k : K) (d : Dict K V) → j ≢ k → lookup j (erase k d) ≡ lookup j d
  lookup-erase_ne j k [] h = refl
  lookup-erase_ne j k ((i, w) ∷ d) h =
      ground (arith, e.beq_iff k i, e.beq_iff j i, lookup-erase_ne j k d h)

  pub lookup-erase_self : (k : K) (d : Dict K V) → IsMap d → lookup k (erase k d) ≡ none
  lookup-erase_self k [] m = refl
  lookup-erase_self k ((i, w) ∷ d) m = ground (arith, e.beq_iff k i, lookup-erase_self k d m.1)

  pub insert-IsMap : (k : K) (v : V) (d : Dict K V) → IsMap d → IsMap (insert k v d)
  insert-IsMap k v [] m = (refl, tt)
  insert-IsMap k v ((i, w) ∷ d) m =
      ground (arith, e.beq_iff k i, e.beq_iff i k, insert-IsMap k v d m.1, lookup-insert i k v d)

  pub erase-IsMap : (k : K) (d : Dict K V) → IsMap d → IsMap (erase k d)
  erase-IsMap k [] m = tt
  erase-IsMap k ((i, w) ∷ d) m =
      ground (arith, e.beq_iff k i, e.beq_iff i k, erase-IsMap k d m.1, lookup-erase_ne i k d)
