-- ===== src/Base/Decimal.antt =====
-- `%d` of a number that is not negative, as bytes, and `snprintf`'s cut.
use Prim.Native.Nat.{ℕ, zero, suc, ◌+◌, ◌-◌, ◌*◌, ◌/◌, ◌%◌, ◌^◌, ◌<◌, ◌≤◌}
use mathlib.Core.Path.{◌≡◌, refl, sym, ap, ◌∙◌}
use mathlib.Core.Logic.{inl, inr}
use mathlib.Core.List.{List, [], ◌∷◌, ◌++◌}
use native.Mathlib.Omega.{arith}
use mudo_reprint.Base.Tests.{ltb, if◌then◌else◌, Bool-cases}
use mudo_reprint.Base.Lists.{length, take, length-append, All, All-append}

-- The digits, with more fuel than there are digits.
digits : ℕ → ℕ → List ℕ
digits zero n = []
digits (suc f) n =
    let front = digits f (n / 10) in
    if ltb n 10 then (b'0' + n) ∷ [] else front ++ (b'0' + n % 10) ∷ []

unfoldable pub show : ℕ → List ℕ
unfolding digits
show n = digits (suc n) n

-- Reading digits back.
value : ℕ → List ℕ → ℕ
value acc [] = acc
value acc (c ∷ cs) = value (acc * 10 + (c - b'0')) cs

value-append : (acc : ℕ) (xs ys : List ℕ) → value acc (xs ++ ys) ≡ value (value acc xs) ys
unfolding value
value-append acc [] ys = refl
value-append acc (x ∷ xs) ys = value-append (acc * 10 + (x - b'0')) xs ys

value-digits : (f n : ℕ) → n < f → value 0 (digits f n) ≡ n
unfolding value digits
value-digits zero n h = absurd (omega arith)
value-digits (suc f) n h = elim (Bool-cases (ltb n 10)) [
  | inl small ↦ rw small (omega arith)
  | inr large ↦ rw large (
      value-append 0 (digits f (n / 10)) ((b'0' + n % 10) ∷ [])
      ∙ omega (arith, value-digits f (n / 10) (ground arith)))
]

-- Different numbers are printed differently.
pub show-injective : (m n : ℕ) → show m ≡ show n → m ≡ n
unfolding show
show-injective m n e =
    sym (value-digits (suc m) m (omega arith))
    ∙ (ap (value 0) e ∙ value-digits (suc n) n (omega arith))

-- A bound on the length for the numbers below `m` gives one for those below `10 * m`.
one_more :
    (m k : ℕ)
    → ((f n : ℕ) → n < m → length (digits f n) ≤ suc k)
    → (f n : ℕ) → n < 10 * m
    → length (digits f n) ≤ suc (suc k)
unfolding digits
one_more m k h zero n l = omega arith
one_more m k h (suc f) n l = elim (Bool-cases (ltb n 10)) [
  | inl small ↦ rw small (omega arith)
  | inr large ↦
      rw (large, length-append (digits f (n / 10)) ((b'0' + n % 10) ∷ []))
        (omega (arith, h f (n / 10) (omega arith)))
]

one_digit : (f n : ℕ) → n < 10 → length (digits f n) ≤ 1
unfolding digits
one_digit zero n h = omega arith
one_digit (suc f) n h = ground arith

-- A 32-bit signed number that is not negative has at most ten digits.
pub length-show-int : (n : ℕ) → n < 2 ^ 31 → length (show n) ≤ 10
unfolding show
length-show-int n h =
    one_more 1_000_000_000 8
      (one_more 100_000_000 7 (
        one_more 10_000_000 6 (
          one_more 1_000_000 5 (
            one_more 100_000 4
              (one_more 10_000 3 (one_more 1000 2 (one_more 100 1 (one_more 10 0 one_digit))))))))
      (suc n) n (omega arith)

-- What `snprintf(buf, size, ...)` leaves in `buf` of the text that it is to print.
abbrev pub snprintf : ℕ → List ℕ → List ℕ
snprintf size text = take (size - 1) text

pub take-all {ℓ} : {A : Type ℓ} (n : ℕ) (xs : List A) → length xs ≤ n → take n xs ≡ xs
take-all zero [] h = refl
take-all zero (x ∷ xs) h = absurd (omega arith)
take-all (suc n) [] h = refl
take-all (suc n) (x ∷ xs) h = ap (◌∷◌ x) (take-all n xs (omega arith))

pub append-cancel {ℓ} : {A : Type ℓ} (xs : List A) {ys zs : List A} → xs ++ ys ≡ xs ++ zs → ys ≡ zs
append-cancel [] e = e
append-cancel (x ∷ xs) e = append-cancel xs (cc)

-- A digit is none of the bytes from ':' on.
digits-below : (f n : ℕ) → All (λ c. c < b':') (digits f n)
unfolding digits
digits-below zero n = tt
digits-below (suc f) n = elim (Bool-cases (ltb n 10)) [
  | inl small ↦ rw small (ground arith, tt)
  | inr large ↦ rw large (
      All-append (λ c. c < b':') (digits f (n / 10)) ((b'0' + n % 10) ∷ [])
        (digits-below f (n / 10)) (omega arith, tt))
]

pub show-below : (n : ℕ) → All (λ c. c < b':') (show n)
unfolding show
show-below n = digits-below (suc n) n
