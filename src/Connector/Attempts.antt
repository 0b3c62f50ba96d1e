-- ===== src/Connector/Attempts.antt =====
-- What an attempt of a new connector comes to.
use mudo_reprint.Base.{
  ℕ, ◌≡◌, ◌≢◌, ◌⊎◌, inl, inr, true, false, none, ok, err, dangling, List, arith, Bool-cases, refl,
}
use mudo_reprint.Socket.{mark}
use mudo_reprint.Connector.{
  World, new_connector, connect, connecting, retry, is_connecting, is_retried,
}

-- 0, EINPROGRESS, EINTR, EISCONN
abbrev pub IsConnecting : ℕ → Type 0
IsConnecting e = (e ≡ 0) ⊎ ((e ≡ 115) ⊎ ((e ≡ 4) ⊎ (e ≡ 106)))

-- EAGAIN, EADDRINUSE, EADDRNOTAVAIL, ECONNREFUSED, ENETUNREACH
abbrev pub IsRetried : ℕ → Type 0
IsRetried e = (e ≡ 11) ⊎ ((e ≡ 98) ⊎ ((e ≡ 99) ⊎ ((e ≡ 111) ⊎ (e ≡ 101))))

abbrev pub IsFailed : ℕ → Type 0
IsFailed e = (e ≢ 0) × (e ≢ 115) × (e ≢ 4) × (e ≢ 106)

abbrev pub IsGivenUp : ℕ → Type 0
IsGivenUp e = (e ≢ 11) × (e ≢ 98) × (e ≢ 99) × (e ≢ 111) × (e ≢ 101)

IsConnecting-cases :
    (e : ℕ) → (IsConnecting e × (is_connecting e ≡ true)) ⊎ (IsFailed e × (is_connecting e ≡ false))
unfolding is_connecting
IsConnecting-cases e = elim (Bool-cases (is_connecting e)) [
  | inl h ↦ inl (ground (arith, h), h)
  | inr h ↦ inr (
    (
      λ x. ground (arith, h),
      λ x. ground (arith, h),
      λ x. ground (arith, h),
      λ x. ground (arith, h),
    ),
    h,
  )
]

IsRetried-cases :
    (e : ℕ) → (IsRetried e × (is_retried e ≡ true)) ⊎ (IsGivenUp e × (is_retried e ≡ false))
unfolding is_retried
IsRetried-cases e = elim (Bool-cases (is_retried e)) [
  | inl h ↦ inl (ground (arith, h), h)
  | inr h ↦ inr (
    (
      λ x. ground (arith, h),
      λ x. ground (arith, h),
      λ x. ground (arith, h),
      λ x. ground (arith, h),
      λ x. ground (arith, h),
    ),
    h,
  )
]

-- No attempt of a connector, as it is constructed, makes a channel. If `connect` succeeds or fails
-- with EINPROGRESS, EINTR or EISCONN, the unset pointer to the loop is followed. Else the attempt
-- returns, and the descriptor, with nothing left that knows it, stays open for EAGAIN, EADDRINUSE,
-- EADDRNOTAVAIL, ECONNREFUSED and ENETUNREACH, and is closed for every other error.
pub connect_fails :
    (here p fd saved_errno loop : ℕ) (name : List ℕ) (w : World)
    → w.connector ≡ new_connector loop name
    → w.sockets.is_open fd ≡ false
    → (IsConnecting saved_errno × (connect here p fd saved_errno w ≡ err dangling))
      ⊎ ((w' : World) × IsFailed saved_errno
          × (connect here p fd saved_errno w ≡ ok w')
          × (w'.connector.channel ≡ none)
          × (w'.sockets.objects ≡ w.sockets.objects)
          × ((IsRetried saved_errno × (w'.sockets.is_open fd ≡ true))
              ⊎ (IsGivenUp saved_errno × (w'.sockets.is_open fd ≡ false))))
unfolding connect connecting retry new_connector
connect_fails here p fd saved_errno loop name w made closed =
    elim (IsConnecting-cases saved_errno) [
      | inl (is, now) ↦ inl (is, ground (arith, made, now))
      | inr (is_not, failed) ↦ elim (IsRetried-cases saved_errno) [
        | inl (is, again) ↦ inr (
          record w { sockets = mark fd true w.sockets },
          is_not,
          ground (arith, failed, again),
          rw made refl,
          refl,
          inl (is, ground arith),
        )
        | inr (gone, given_up) ↦ inr (
          record w { sockets = mark fd false (mark fd true w.sockets) },
          is_not,
          ground (arith, failed, given_up),
          rw made refl,
          refl,
          inr (gone, ground arith),
        )
      ]
    ]
