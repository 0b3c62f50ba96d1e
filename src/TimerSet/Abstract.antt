-- ===== src/TimerSet/Abstract.antt =====
-- `std::set<Entry>` as a finite set: the lists of entries up to order and repetition.
use mathlib.Core.Quot
use mathlib.Core.Quot.{Quot, Quot-set}
use mudo_reprint.Base.{
  ℕ, ◌≡◌, refl, ap, subst, sym, ◌∙◌, true, false, Bool, not, ◌&&◌, ◌||◌, inl, inr, List, [], ◌∷◌,
  All, arith, Bool-cases,
}
use mudo_reprint.Timestamp.{Timestamps}
use mudo_reprint.TimerSet.{entry_lt, set_insert, below, from}
use mudo_reprint.TimerSet.Order.{IsSorted, entry_lt_trans}

module _ (api : Timestamps) where
  open api use {Time, micros, micros_injective, lt, lt_lem}

  -- Neither entry is before the other.
  abbrev pub same_entry : Time × ℕ → Time × ℕ → Bool
  same_entry d e = not (entry_lt api d e) && not (entry_lt api e d)

  abbrev pub has : Time × ℕ → List (Time × ℕ) → Bool
  has e [] = false
  has e (x ∷ xs) = same_entry e x || has e xs

  abbrev pub SameEntries : List (Time × ℕ) → List (Time × ℕ) → Type 0
  SameEntries xs ys = (e : Time × ℕ) → has e xs ≡ has e ys

  -- Finite sets of entries.
  abbrev pub Entries : Type 0
  Entries = Quot SameEntries

  abbrev pub of_list : List (Time × ℕ) → Entries
  of_list = Quot.mk

  unfoldable pub member : Time × ℕ → Entries → Bool
  member e = Quot.lift (hlevel) (has e) λ xs ys h. h e

  unfoldable pub adding : Time × ℕ → Entries → Entries
  adding x =
      Quot.lift Quot-set (λ xs. of_list (x ∷ xs))
        λ xs ys h. Quot.sound λ e. ap (λ b. same_entry e x || b) (h e)

  same_entry_lem : (d e : Time × ℕ) → same_entry d e ≡ true → d ≡ e
  same_entry_lem (t, p) (u, q) h = ground (arith, lt_lem t u, lt_lem u t, micros_injective t u)

  same_entry_refl : (d : Time × ℕ) → same_entry d d ≡ true
  same_entry_refl (t, p) = ground (arith, lt_lem t t)

  pub has-set_insert :
      (e x : Time × ℕ) (s : List (Time × ℕ)) → has e (set_insert api x s) ≡ has e (x ∷ s)
  has-set_insert e x [] = refl
  has-set_insert e x (y ∷ ys) = elim (Bool-cases (entry_lt api x y)) [
    | inl before ↦ rw before refl
    | inr not_before ↦ elim (Bool-cases (entry_lt api y x)) [
      | inl after ↦ rw (not_before, after) (ground (arith, has-set_insert e x ys))
      | inr not_after ↦
          let same : x ≡ y = same_entry_lem x y (ground (arith, not_before, not_after)) in
          rw (not_before, not_after) (ground (arith, ap (same_entry e) same))
    ]
  ]

  -- What comes before every entry of a list is none of them.
  has-above :
      (x : Time × ℕ) (xs : List (Time × ℕ))
      → All (λ y. entry_lt api x y ≡ true) xs
      → has x xs ≡ false
  has-above x [] a = refl
  has-above x (y ∷ ys) a = ground (arith, a.0, has-above x ys a.1)

  before_all :
      (x e : Time × ℕ) (xs : List (Time × ℕ))
      → All (λ y. entry_lt api x y ≡ true) xs
      → has e xs ≡ true
      → entry_lt api x e ≡ true
  before_all x e [] a h = absurd (ground arith)
  before_all x e (y ∷ ys) a h = elim (Bool-cases (same_entry e y)) [
    | inl hit ↦ rw (same_entry_lem e y hit) (a.0)
    | inr miss ↦ before_all x e ys a.1 (ground (arith, h, miss))
  ]

  -- Where the first entry is not before the key, none is.
  not_before :
      (e key x : Time × ℕ) (xs : List (Time × ℕ))
      → All (λ y. entry_lt api x y ≡ true) xs
      → entry_lt api x key ≡ false
      → has e (x ∷ xs) ≡ true
      → entry_lt api e key ≡ false
  not_before e key x xs a n h = elim (Bool-cases (same_entry e x)) [
    | inl hit ↦ ap (λ d. entry_lt api d key) (same_entry_lem e x hit) ∙ n
    | inr miss ↦
        let after = before_all x e xs a (ground (arith, h, miss)) in
        ground (arith, entry_lt_trans api x e key after, n)
  ]

  has-below :
      (e key : Time × ℕ) (s : List (Time × ℕ))
      → IsSorted api s
      → has e (below api key s) ≡ (has e s && entry_lt api e key)
  has-below e key [] v = refl
  has-below e key (x ∷ xs) v = elim (Bool-cases (entry_lt api x key)) [
    | inl before ↦ elim (Bool-cases (same_entry e x)) [
      | inl hit ↦
          let its = ap (λ d. entry_lt api d key) (same_entry_lem e x hit) ∙ before in
          rw before (ground (arith, hit, its))
      | inr miss ↦ rw before (ground (arith, miss, has-below e key xs v.1))
    ]
    | inr none_before ↦ rw none_before (ground (arith, not_before e key x xs v.0 none_before))
  ]

  has-from :
      (e key : Time × ℕ) (s : List (Time × ℕ))
      → IsSorted api s
      → has e (from api key s) ≡ (has e s && not (entry_lt api e key))
  has-from e key [] v = refl
  has-from e key (x ∷ xs) v = elim (Bool-cases (entry_lt api x key)) [
    | inl before ↦ elim (Bool-cases (same_entry e x)) [
      | inl hit ↦
          let its = ap (λ d. entry_lt api d key) (same_entry_lem e x hit) ∙ before in
          rw before (ground (arith, its, has-from e key xs v.1))
      | inr miss ↦ rw before (ground (arith, miss, has-from e key xs v.1))
    ]
    | inr none_before ↦ rw none_before (ground (arith, not_before e key x xs v.0 none_before))
  ]

  pub exact : (xs ys : List (Time × ℕ)) → of_list xs ≡ of_list ys → SameEntries xs ys
  unfolding member
  exact xs ys h e = ap (member e) h

  tails :
      (x : Time × ℕ) (xs ys : List (Time × ℕ))
      → IsSorted api (x ∷ xs)
      → IsSorted api (x ∷ ys)
      → SameEntries (x ∷ xs) (x ∷ ys)
      → SameEntries xs ys
  tails x xs ys v w h e = elim (Bool-cases (same_entry e x)) [
    | inl hit ↦
        let same = same_entry_lem e x hit in rw same (has-above x xs v.0 ∙ sym (has-above x ys w.0))
    | inr miss ↦ ground (arith, h e, miss)
  ]

  -- An ordered list is determined by its entries.
  pub unique :
      (xs ys : List (Time × ℕ)) → IsSorted api xs → IsSorted api ys → SameEntries xs ys → xs ≡ ys
  unique [] [] v w h = refl
  unique [] (y ∷ ys) v w h = absurd (ground (arith, h y, same_entry_refl y))
  unique (x ∷ xs) [] v w h = absurd (ground (arith, h x, same_entry_refl x))
  unique (x ∷ xs) (y ∷ ys) v w h = elim (Bool-cases (same_entry x y)) [
    | inl hit ↦
        let same = same_entry_lem x y hit in
        let w' = subst (λ d. IsSorted api (d ∷ ys)) (sym same) w in
        let h' = subst (λ d. SameEntries (x ∷ xs) (d ∷ ys)) (sym same) h in
        ap (λ d. d ∷ xs) same ∙ ap (λ zs. y ∷ zs) (unique xs ys v.1 w.1 (tails x xs ys v w' h'))
    | inr miss ↦
        let y_first = before_all y x ys w.0 (ground (arith, h x, same_entry_refl x, miss)) in
        let x_first = before_all x y xs v.0 (ground (arith, h y, same_entry_refl y, miss)) in
        absurd (ground (arith, entry_lt_trans api x y x x_first y_first, same_entry_refl x))
  ]

  -- The ordered list of entries is a finite set of them, whatever the order in which they came: to
  -- insert an entry is to add it to the set; two ordered lists that are the same set are the same
  -- list; and `lower_bound` cuts an ordered list into the members of the set that are before the key
  -- and the others.
  pub set_insert-adding :
      (x key : Time × ℕ) (s t : List (Time × ℕ))
      → IsSorted api s
      → IsSorted api t
      → (of_list (set_insert api x s) ≡ adding x (of_list s))
        × (of_list s ≡ of_list t → s ≡ t)
        × ((e : Time × ℕ)
            → member e (of_list (below api key s)) ≡ (member e (of_list s) && entry_lt api e key))
        × ((e : Time × ℕ)
            → member e (of_list (from api key s))
              ≡ (member e (of_list s) && not (entry_lt api e key)))
  unfolding adding member
  set_insert-adding x key s t v w = (
    Quot.sound (λ e. has-set_insert e x s),
    (λ same. unique s t v w (exact s t same)),
    (λ e. has-below e key s v),
    (λ e. has-from e key s v),
  )
