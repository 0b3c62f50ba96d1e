-- ===== src/Socket/Ownership.antt =====
-- Every open descriptor has exactly one Socket object.
use mudo_reprint.Base.{
  Reach, Reach-keeps, ℕ, ◌≡◌, refl, true, false, none, some, All, arith, ok, ◌==◌, Bool-cases, inl,
  inr, Option, fun_ext, ap, ◌∙◌, subst, Option-cases,
}
use mudo_reprint.Base.Int.{ℤ, pos, negsuc, eqb_ℤ}
use mudo_reprint.Socket.{
  Sockets, no_socket, none_open, put, mark, close, construct, move_construct, move_assign, destroy,
}

-- What the program does with Socket objects. A new object takes a descriptor that the kernel has just
-- opened, and objects are made at free addresses.
pub data Step (s t : Sockets) : Type 0 where
  opens :
      (p n : ℕ)
      → s.objects p ≡ none
      → s.is_open n ≡ false
      → t ≡ construct p (pos n) (mark n true s)
      → Step s t
  moves_new : (p q : ℕ) → s.objects p ≡ none → move_construct p q s ≡ ok t → Step s t
  assigns : (p q : ℕ) → move_assign p q s ≡ ok t → Step s t
  destroys : (p : ℕ) → destroy p s ≡ ok t → Step s t

-- An object holds an open descriptor, which no other holds, or -1; each open descriptor has an
-- object; and the kernel never refused to close anything but -1.
pub record Inv (s : Sockets) : Type 0 where
  pub held : (p n : ℕ) → s.objects p ≡ some (pos n) → s.is_open n ≡ true
  pub unique : (p q n : ℕ) → s.objects p ≡ some (pos n) → s.objects q ≡ some (pos n) → p ≡ q
  pub owner : (n : ℕ) → s.is_open n ≡ true → (p : ℕ) × (s.objects p ≡ some (pos n))
  pub empty : (p k : ℕ) → s.objects p ≡ some (negsuc k) → k ≡ 0
  pub refusals : All (λ fd. fd ≡ no_socket) s.refused

pub opens-Inv :
    (p n : ℕ) (s : Sockets)
    → Inv s
    → s.objects p ≡ none
    → s.is_open n ≡ false
    → Inv (construct p (pos n) (mark n true s))
unfolding construct
opens-Inv p n s v free closed = record {
  held = λ q k e. ground (arith, v.held q k);
  unique = λ q r k e f. ground (arith, v.unique q r k, v.held q k, v.held r k);
  owner = λ k o. elim (Bool-cases (k == n)) [
    | inl hit ↦ (p, ground arith)
    | inr miss ↦ let (q, e) = v.owner k (ground arith) in (q, ground arith)
  ];
  empty = λ q k e. ground (arith, v.empty q k);
  refusals = v.refusals;
}

-- Another object takes the descriptor over, -1 or not.
transfer-Inv :
    (p q : ℕ) (fd : ℤ) (s : Sockets)
    → Inv s
    → s.objects p ≡ none
    → s.objects q ≡ some fd
    → Inv (put q (some no_socket) (put p (some fd) s))
transfer-Inv p q fd s v free from = record {
  held = λ r k e. ground (arith, v.held r k, v.held q k);
  unique = λ r t k e f.
      ground
        (arith, v.unique r t k, v.unique q t k, v.unique r q k, v.unique q r k, v.unique t q k);
  owner = λ k o.
      let (r, e) = v.owner k o in
      elim (Bool-cases (r == q)) [ inl hit ↦ (p, ground arith) | inr miss ↦ (r, ground arith) ];
  empty = λ r k e. ground (arith, v.empty r k, v.empty q k);
  refusals = v.refusals;
}

-- An object goes, and its descriptor is closed.
release-Inv :
    (p : ℕ) (fd : ℤ) (s : Sockets) → Inv s → s.objects p ≡ some fd → Inv (put p none (close fd s))
release-Inv p (pos n) s v e = rw (v.held p n e) (record {
  held = λ r k f. ground (arith, v.held r k, v.unique r p k);
  unique = λ r t k f g. ground (arith, v.unique r t k);
  owner = λ k o. let (r, f) = v.owner k (ground arith) in (r, ground arith);
  empty = λ r k f. ground (arith, v.empty r k);
  refusals = v.refusals;
})
release-Inv p (negsuc j) s v e = record {
  held = λ r k f. ground (arith, v.held r k);
  unique = λ r t k f g. ground (arith, v.unique r t k);
  owner = λ k o. let (r, f) = v.owner k o in (r, ground arith);
  empty = λ r k f. ground (arith, v.empty r k);
  refusals = (ground (arith, v.empty p j e), v.refusals);
}

-- An object that holds nothing goes.
forget-Inv : (p : ℕ) (s : Sockets) → Inv s → s.objects p ≡ some no_socket → Inv (put p none s)
forget-Inv p s v e = record {
  held = λ r k f. ground (arith, v.held r k);
  unique = λ r t k f g. ground (arith, v.unique r t k);
  owner = λ k o. let (r, f) = v.owner k o in (r, ground arith);
  empty = λ r k f. ground (arith, v.empty r k);
  refusals = v.refusals;
}

close-objects : (fd : ℤ) (s : Sockets) → (close fd s).objects ≡ s.objects
close-objects (pos n) s = ground arith
close-objects (negsuc n) s = refl

put-put : (p : ℕ) (o r : Option ℤ) (s : Sockets) → put p o (put p r s) ≡ put p o s
put-put p o r s =
    let same : (put p o (put p r s)).objects ≡ (put p o s).objects = fun_ext λ q. ground arith in
    ap (λ f. record s { objects = f }) same

module _ {s t : Sockets} (v : Inv s) where
  pub move_construct-Inv : (p q : ℕ) → s.objects p ≡ none → move_construct p q s ≡ ok t → Inv t
  unfolding move_construct
  move_construct-Inv p q free e = elim (Option-cases (s.objects q)) [
    | inl gone ↦ absurd (ground (arith, gone))
    | inr (fd, from) ↦
        let same : put q (some no_socket) (put p (some fd) s) ≡ t = ground (arith, from) in
        subst Inv same (transfer-Inv p q fd s v free from)
  ]

  move_assign-Inv : (p q : ℕ) → move_assign p q s ≡ ok t → Inv t
  unfolding move_assign
  move_assign-Inv p q e = elim (Option-cases (s.objects p)) [
    | inl gone ↦ absurd (ground (arith, gone))
    | inr (mine, to) ↦ elim (Option-cases (s.objects q)) [
      | inl gone ↦ absurd (ground (arith, gone))
      | inr (theirs, from) ↦ elim (Bool-cases (p == q)) [
        | inl self ↦ let same : s ≡ t = ground (arith, to, from) in subst Inv same v
        | inr other ↦
            let same : put q (some no_socket) (put p (some theirs) (close mine s)) ≡ t =
              ground (arith, to, from) in
            let released = put p none (close mine s) in
            let emptied : put q (some no_socket) (put p (some theirs) released) ≡ t =
              ap (put q (some no_socket)) (put-put p (some theirs) none (close mine s)) ∙ same in
            let kept : released.objects q ≡ some theirs =
              ground (arith, close-objects mine s, from) in
            subst Inv emptied
              (transfer-Inv p q theirs released (release-Inv p mine s v to) (ground arith) kept)
      ]
    ]
  ]

  pub destroy-Inv : (p : ℕ) → destroy p s ≡ ok t → Inv t
  unfolding destroy
  destroy-Inv p e = elim (Option-cases (s.objects p)) [
    | inl gone ↦ absurd (ground (arith, gone))
    | inr (fd, there) ↦ elim (Bool-cases (eqb_ℤ fd no_socket)) [
      | inl nothing ↦
          let same : put p none s ≡ t = ground (arith, there) in
          let empty : fd ≡ no_socket = ground arith in
          subst Inv same (forget-Inv p s v (rw (← empty) there))
      | inr something ↦
          let same : put p none (close fd s) ≡ t = ground (arith, there) in
          subst Inv same (release-Inv p fd s v there)
    ]
  ]

  pub Step-Inv : Step s t → Inv t
  Step-Inv (opens p n free closed e) = rw e (opens-Inv p n s v free closed)
  Step-Inv (moves_new p q free e) = move_construct-Inv p q free e
  Step-Inv (assigns p q e) = move_assign-Inv p q e
  Step-Inv (destroys p e) = destroy-Inv p e

pub none_open-Inv : Inv none_open
none_open-Inv = record {
  held = λ p n e. cc;
  unique = λ p q n e f. cc;
  owner = λ n o. cc;
  empty = λ p k e. cc;
  refusals = tt;
}

-- Over any sequence of constructions, moves and destructions, each open descriptor is held by an
-- object, and by one only; no object holds a closed one; and no descriptor is closed twice, for the
-- kernel refuses nothing but a `close(-1)`.
pub Reach-none_open-Inv : (t : Sockets) → Reach Step none_open t → Inv t
Reach-none_open-Inv t r = Reach-keeps Inv (λ s t st v. Step-Inv v st) r none_open-Inv
