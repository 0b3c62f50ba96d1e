-- ===== src/Timestamp.antt =====
-- What the program uses of muduo::Timestamp and `addTime` (muduo/base/Timestamp.h, not part of the
-- repository), and of the `double` that is a timer's interval: an interface with the documented
-- behaviour of each member.
use mudo_reprint.Base.{ℕ, ◌+◌, ◌≡◌, refl, Bool, ltb}
use mudo_reprint.Base.Int.{ℤ, pos, negsuc, ltb_ℤ}

pub record Timestamps : Type 1 where
  pub Time : Type 0
  pub Interval : Type 0
  -- `microSecondsSinceEpoch()`, an int64_t, which is all that a Timestamp holds.
  pub micros : Time → ℤ
  pub micros_injective : (s t : Time) → micros s ≡ micros t → s ≡ t
  -- `operator<`
  pub lt : Time → Time → Bool
  pub lt_lem : (s t : Time) → lt s t ≡ ltb_ℤ (micros s) (micros t)
  -- `Timestamp()` and `Timestamp::invalid()`
  pub invalid : Time
  pub valid : Time → Bool
  pub valid_lem : (t : Time) → valid t ≡ ltb_ℤ (pos 0) (micros t)
  pub valid-invalid : valid invalid ≡ Bool.false
  -- `interval > 0.0`, and `addTime`
  pub positive : Interval → Bool
  pub add_time : Time → Interval → Time
  pub micro_seconds_per_second : ℕ
  pub micro_seconds_per_second_lem : micro_seconds_per_second ≡ 1000000

-- Time in whole microseconds, as an example.
abbrev pub whole_micros : Timestamps
whole_micros = record {
  Time = ℤ;
  Interval = ℕ;
  micros = λ t. t;
  micros_injective = λ s t e. e;
  lt = ltb_ℤ;
  lt_lem = λ s t. refl;
  invalid = pos 0;
  valid = ltb_ℤ (pos 0);
  valid_lem = λ t. refl;
  valid-invalid = refl;
  positive = λ i. ltb 0 i;
  add_time = λ t i. elim t [ pos n ↦ pos (n + i) | negsuc n ↦ negsuc n ];
  micro_seconds_per_second = 1000000;
  micro_seconds_per_second_lem = refl;
}
