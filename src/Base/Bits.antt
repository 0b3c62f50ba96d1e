-- ===== src/Base/Bits.antt =====
-- Masks of flags.
use Prim.Native.Nat.{ℕ, zero, suc, ◌/◌, max, bit_or, bit_or-bitwise, digits}
use mathlib.Core.Path.{◌≡◌, ◌∙◌, sym}
use mathlib.Core.Logic.{◌≢◌}
use native.Mathlib.Omega.{arith}

digits-zero : (n a b : ℕ) → digits (λ b. b) max n a b ≡ 0 → b ≡ 0
digits-zero zero a b e = e
digits-zero (suc n) zero b e = e
digits-zero (suc n) (suc a) b e =
    let upper = digits-zero n (suc a / 2) (b / 2) (omega (arith, e)) in omega (arith, e, upper)

-- A mask to which a flag is added is not empty.
pub bit_or-ne_zero : (a b : ℕ) → b ≢ 0 → bit_or a b ≢ 0
bit_or-ne_zero a b h e = h (digits-zero a a b (sym (bit_or-bitwise a b) ∙ e))
