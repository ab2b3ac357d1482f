-- ===== src/Common/Bits.antt =====
-- `bit_or` and `bit_and` by their lowest digit; the `bit_or` of numbers whose digits do not overlap
-- is their sum.
use Prim.Native.Nat.{
  ℕ, zero, suc, ◌+◌, ◌-◌, ◌*◌, ◌/◌, ◌%◌, ◌^◌, ◌≤◌, ◌<◌, min, max, bit_or, bit_and, digits,
  bit_or-bitwise, bit_and-bitwise,
}
use mathlib.Core.Path.{◌≡◌, refl, ap, ◌∙◌}
use native.Mathlib.Nat.{pow-suc}
use native.Mathlib.Omega.{arith}

-- The native operations stand for a recursion on the binary digits of the first number, with that
-- number as fuel. One more step of fuel changes nothing, so any number of steps does not.
module _ (rest : ℕ → ℕ) (digit : ℕ → ℕ → ℕ) where
  one_more :
      (fuel x y : ℕ) → x ≤ fuel → digits rest digit (suc fuel) x y ≡ digits rest digit fuel x y
  one_more zero zero y h = refl
  one_more (suc fuel) zero y h = refl
  one_more zero (suc x) y h = absurd (omega arith)
  one_more (suc fuel) (suc x) y h =
      ap (λ high. high * 2 + digit (suc x % 2) (y % 2))
        (one_more fuel (suc x / 2) (y / 2) (omega arith))

  many_more :
      (extra fuel x y : ℕ)
      → x ≤ fuel
      → digits rest digit (fuel + extra) x y ≡ digits rest digit fuel x y
  many_more zero fuel x y h = let same : fuel + 0 ≡ fuel = omega arith in rw same refl
  many_more (suc extra) fuel x y h =
      let later : fuel + suc extra ≡ suc (fuel + extra) = omega arith in
      rw later (one_more (fuel + extra) x y (omega arith) ∙ many_more extra fuel x y h)

  half_fuel :
      (x y : ℕ) → digits rest digit x (suc x / 2) y ≡ digits rest digit (suc x / 2) (suc x / 2) y
  half_fuel x y =
      let split : x ≡ suc x / 2 + (x - suc x / 2) = omega arith in
      ap (λ fuel. digits rest digit fuel (suc x / 2) y) split
      ∙ many_more (x - suc x / 2) (suc x / 2) (suc x / 2) y (omega arith)

pub bit_or_lowest : (x y : ℕ) → bit_or x y ≡ max (x % 2) (y % 2) + 2 * bit_or (x / 2) (y / 2)
bit_or_lowest zero y = omega (arith, bit_or-bitwise 0 y, bit_or-bitwise 0 (y / 2))
bit_or_lowest (suc x) y =
    let high = half_fuel (λ y. y) max x (y / 2) in
    omega (arith, bit_or-bitwise (suc x) y, bit_or-bitwise (suc x / 2) (y / 2), high)

pub bit_and_lowest : (x y : ℕ) → bit_and x y ≡ min (x % 2) (y % 2) + 2 * bit_and (x / 2) (y / 2)
bit_and_lowest zero y = omega (arith, bit_and-bitwise 0 y, bit_and-bitwise 0 (y / 2))
bit_and_lowest (suc x) y =
    let high = half_fuel (λ y. zero) min x (y / 2) in
    omega (arith, bit_and-bitwise (suc x) y, bit_and-bitwise (suc x / 2) (y / 2), high)

or_nothing : (x bound : ℕ) → x ≤ bound → bit_or x 0 ≡ x
or_nothing zero bound h = refl
or_nothing (suc x) zero h = absurd (omega arith)
or_nothing (suc x) (suc bound) h =
    omega (arith, bit_or_lowest (suc x) 0, or_nothing (suc x / 2) bound (omega arith))

pub bit_or-zero : (a : ℕ) → bit_or a 0 ≡ a
bit_or-zero a = or_nothing a a (omega arith)

pub bit_or-shift : (k a m : ℕ) → m < 2 ^ k → bit_or (a * 2 ^ k) m ≡ a * 2 ^ k + m
bit_or-shift zero a m h =
    let e : m ≡ 0 = omega arith in rw e (omega (arith, bit_or-zero (a * 2 ^ 0)))
bit_or-shift (suc k) a m h =
    let p : 2 ^ suc k ≡ 2 ^ k * 2 = pow-suc 2 k in
    let q : a * 2 ^ suc k ≡ a * 2 ^ k * 2 = omega (arith, ap (λ (t : ℕ). a * t) p) in
    let d : a * 2 ^ suc k / 2 ≡ a * 2 ^ k = omega arith in
    rw (bit_or_lowest (a * 2 ^ suc k) m, d) (omega (arith, bit_or-shift k a (m / 2) (omega arith)))
