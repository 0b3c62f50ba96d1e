-- ===== src/ThreadPool/Rotation.antt =====
-- `getNextLoop` hands the loops out in turn.
use mathlib.Core.List.{append_assoc}
use native.Mathlib.Nat.{zero-add, suc-add}
use mudo_reprint.Base.{
  Result-cases, ℕ, zero, suc, ◌+◌, ◌≡◌, refl, ap, true, some, List, [], ◌∷◌, ◌++◌, Result, ok,
  arith, length, length-append, get_elem?, ◌>>=◌, leb, if◌then◌else◌, inl, inr,
}
use mudo_reprint.ThreadPool.{Pool, get_next_loop}

-- `n` calls one after the other, and the loops that they return.
pub next_loops : ℕ → ℕ → Pool → Result (List ℕ × Pool)
next_loops here zero p = ok ([], p)
next_loops here (suc n) p = do
  (loop, p₁) ← get_next_loop here p
  (loops, p₂) ← next_loops here n p₁
  ok (loop ∷ loops, p₂)

-- A call that returns was made in the base loop's thread, and keeps that.
pub get_next_loop-base_tid :
    (here : ℕ) (p : Pool) {loop : ℕ} {q : Pool}
    → get_next_loop here p ≡ ok (loop, q)
    → (here ≡ p.base_tid) × (q.base_tid ≡ p.base_tid)
unfolding get_next_loop
get_next_loop-base_tid here p e = ground arith

get_elem?-append : (pre post : List ℕ) (x : ℕ) → get_elem? (pre ++ x ∷ post) (length pre) ≡ some x
get_elem?-append [] post x = refl
get_elem?-append (y ∷ pre) post x = get_elem?-append pre post x

module _ (here : ℕ) where
  abbrev at : Pool → ℕ → Pool
  at p k = record p { next = k }

  -- A call with `pre` behind the index and `x` at it.
  one_call :
      (p : Pool) (pre post : List ℕ) (x : ℕ)
      → here ≡ p.base_tid
      → p.started ≡ true
      → p.loops ≡ pre ++ x ∷ post
      → p.next ≡ length pre
      → get_next_loop here p
        ≡ ok (x, at p (if leb (length p.loops) (p.next + 1) then 0 else p.next + 1))
  unfolding get_next_loop
  one_call p pre post x h s e n =
      ground (arith, ap length e, length-append pre (x ∷ post), get_elem?-append pre post x)

  -- The calls up to the end of the vector.
  to_the_end :
      (p : Pool) (pre post : List ℕ) (x : ℕ)
      → here ≡ p.base_tid
      → p.started ≡ true
      → p.loops ≡ pre ++ x ∷ post
      → p.next ≡ length pre
      → next_loops here (length (x ∷ post)) p ≡ ok (x ∷ post, at p 0)
  unfolding next_loops
  to_the_end p pre [] x h s e n =
      ground (arith, one_call p pre [] x h s e n, ap length e, length-append pre (x ∷ []))
  to_the_end p pre (y ∷ post) x h s e n = ground (
    arith,
    one_call p pre (y ∷ post) x h s e n,
    ap length e,
    length-append pre (x ∷ y ∷ post),
    length-append pre (x ∷ []),
    append_assoc pre (x ∷ []) (y ∷ post),
    to_the_end (at p (p.next + 1)) (pre ++ x ∷ []) post y,
  )

  -- The calls that stop before the end.
  part_way :
      (p : Pool) (pre mid post : List ℕ) (x : ℕ)
      → here ≡ p.base_tid
      → p.started ≡ true
      → p.loops ≡ pre ++ (mid ++ x ∷ post)
      → p.next ≡ length pre
      → next_loops here (length mid) p ≡ ok (mid, at p (length pre + length mid))
  unfolding next_loops
  part_way p pre [] post x h s e n = ground arith
  part_way p pre (y ∷ mid) post x h s e n = ground (
    arith,
    one_call p pre (mid ++ x ∷ post) y h s e n,
    ap length e,
    length-append pre (y ∷ mid ++ x ∷ post),
    length-append mid (x ∷ post),
    length-append pre (y ∷ []),
    append_assoc pre (y ∷ []) (mid ++ x ∷ post),
    part_way (at p (p.next + 1)) (pre ++ y ∷ []) mid post x,
  )

  next_loops-add :
      (a b : ℕ) (p p₁ p₂ : Pool) (xs ys : List ℕ)
      → next_loops here a p ≡ ok (xs, p₁)
      → next_loops here b p₁ ≡ ok (ys, p₂)
      → next_loops here (a + b) p ≡ ok (xs ++ ys, p₂)
  unfolding next_loops
  next_loops-add zero b p p₁ p₂ xs ys e f =
      let same : ◌≡◌ {A = List ℕ × Pool} ([], p) (xs, p₁) = cc in
      rw (zero-add, ← ap (λ w. w.0) same) (rw (ap (λ w. w.1) same) f)
  next_loops-add (suc a) b p p₁ p₂ xs ys e f = elim (Result-cases (get_next_loop here p)) [
    | inr (x, g) ↦ ground (arith, g)
    | inl ((l, q), g) ↦ elim (Result-cases (next_loops here a q)) [
      | inr (x, k) ↦ ground (arith, g, k)
      | inl ((zs, q'), k) ↦ ground (arith, g, k, suc-add a b, next_loops-add a b q q' p₂ zs ys k)
    ]
  ]

  size :
      (p : Pool) (pre post : List ℕ) (x : ℕ)
      → p.loops ≡ pre ++ x ∷ post
      → length p.loops ≡ length (x ∷ post) + length pre
  size p pre post x e = omega (arith, ap length e, length-append pre (x ∷ post))

  -- From any place in the vector, as many calls as there are loops return each loop once, in the
  -- vector's order from that place on and around its end, and leave the pool as it was.
  pub next_loops-rotation :
      (p : Pool) (pre post : List ℕ) (x : ℕ)
      → here ≡ p.base_tid
      → p.started ≡ true
      → p.loops ≡ pre ++ x ∷ post
      → p.next ≡ length pre
      → next_loops here (length p.loops) p ≡ ok ((x ∷ post) ++ pre, p)
  next_loops-rotation p pre post x h s e n =
      let tail = to_the_end p pre post x h s e n in
      let head = part_way (at p 0) [] pre post x h s e refl in
      let back : ◌≡◌ {A = Pool} (at p (length {A = ℕ} [] + length pre)) p = ground arith in
      let all =
        next_loops-add (length (x ∷ post)) (length pre) p (at p 0) p (x ∷ post) pre tail
          (rw back at head) in
      rw (size p pre post x e) all
