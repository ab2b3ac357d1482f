-- ===== src/Common/Order.antt =====
-- Products of native numbers under an order.
use Prim.Native.Nat.{ℕ, ◌*◌, ◌≤◌}
use native.Mathlib.Omega.{arith}

pub mul_mono_left : (a b d : ℕ) → a ≤ b → a * d ≤ b * d
mul_mono_left a b d h = grind arith

pub mul_mono : (a b c d : ℕ) → a ≤ b → c ≤ d → a * c ≤ b * d
mul_mono a b c d h k = grind arith
