-- ===== src/TimerSet.antt =====
-- The parts of TimerQueue that need no timer: `std::set<Entry>` as a list kept in the order of its
-- comparison, and `howMuchTimeFromNow`.
pub mod Order
pub mod Abstract
pub mod Expiry
pub mod Clock
pub mod Pointers
mod Tests
use mudo_reprint.Base.{
  ℕ, ◌+◌, ◌*◌, ◌/◌, ◌%◌, Bool, true, false, not, ◌&&◌, ◌||◌, List, [], ◌∷◌, ltb, if◌then◌else◌,
}
use mudo_reprint.Base.Int.{pos, pos_part, ◌-ℤ◌, ltb_ℤ, as_int64}
use mudo_reprint.Timestamp.{Timestamps}

-- `struct timespec`
pub record TimeSpec : Type 0 where
  pub tv_sec : ℕ
  pub tv_nsec : ℕ

-- The largest pointer, UINTPTR_MAX.
abbrev pub uintptr_max : ℕ
uintptr_max = 0xffff_ffff_ffff_ffff

module _ (api : Timestamps) where
  open api use {Time, micros, lt, micro_seconds_per_second}

  -- `std::pair<Timestamp, Timer *>::operator<`
  abbrev pub entry_lt : Time × ℕ → Time × ℕ → Bool
  entry_lt (t, p) (u, q) = lt t u || (not (lt u t) && ltb p q)

  -- `m_timerSet.insert(e)`: nothing happens where an equivalent entry is there.
  abbrev pub set_insert : Time × ℕ → List (Time × ℕ) → List (Time × ℕ)
  set_insert e [] = e ∷ []
  set_insert e (x ∷ xs) =
      if entry_lt e x then e ∷ x ∷ xs else if entry_lt x e then x ∷ set_insert e xs else x ∷ xs

  -- What lies before and from `m_timerSet.lower_bound(key)` on.
  abbrev pub below : Time × ℕ → List (Time × ℕ) → List (Time × ℕ)
  below key [] = []
  below key (x ∷ xs) = if entry_lt x key then x ∷ below key xs else []

  abbrev pub from : Time × ℕ → List (Time × ℕ) → List (Time × ℕ)
  from key [] = []
  from key (x ∷ xs) = if entry_lt x key then from key xs else x ∷ xs

  -- `it == m_timerSet.end() || when < it->first`, for `it` the first entry.
  abbrev pub is_first : Time → List (Time × ℕ) → Bool
  is_first when [] = true
  is_first when ((t, p) ∷ xs) = lt when t

  -- `int64_t microseconds`, where a difference out of its range wraps around.
  abbrev clamped : Time → Time → ℕ
  clamped now when =
      let microseconds = as_int64 (micros when -ℤ micros now) in
      if ltb_ℤ microseconds (pos 100) then 100 else pos_part microseconds

  unfoldable pub how_much_time_from_now : Time → Time → TimeSpec
  how_much_time_from_now now when =
      let microseconds = clamped now when in
      record {
        tv_sec = microseconds / micro_seconds_per_second;
        tv_nsec = microseconds % micro_seconds_per_second * 1000;
      }
