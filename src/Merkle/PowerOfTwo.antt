-- ===== src/Merkle/PowerOfTwo.antt =====
-- nextPowerOfTwo gives the least power of two that is not below its argument.
use Prim.Native.Nat.{bit_and}
use native.Mathlib.Nat.{pow-suc, one-le-pow, pow-zero, pow-le-pow_right}
use btcchain.Common.{
  ℕ, zero, suc, ◌+◌, ◌-◌, ◌*◌, ◌/◌, ◌%◌, ◌^◌, ◌≤◌, ◌<◌, ◌≡◌, refl, ◌∙◌, arith, inl, inr, ◌⊎◌,
  Bool-cases, ◌==◌, ltb, ltb→lt, ◌≢◌, false, ==_iff, subst, sym,
}
use btcchain.Common.Bits.{bit_and_lowest}
use btcchain.Merkle.{log2_loop, next_power_of_two}

bit_and_self : (f a : ℕ) → a ≤ f → bit_and a a ≡ a
bit_and_self zero a h = let e : a ≡ 0 = omega arith in rw e
bit_and_self (suc f) zero h = refl
bit_and_self (suc f) (suc a) h =
    omega (arith, bit_and_lowest (suc a) (suc a), bit_and_self f (suc a / 2) (omega arith))

-- A positive number that shares no digit with its predecessor is a power of two.
power_of_bit_and : (f n : ℕ) → n ≤ f → 0 < n → bit_and n (n - 1) ≡ 0 → (k : ℕ) × (n ≡ 2 ^ k)
power_of_bit_and zero n h positive e = absurd (omega arith)
power_of_bit_and (suc f) n h positive e = elim (parity n) [
  | inl even ↦
      let half : (n - 1) / 2 ≡ n / 2 - 1 = omega arith in
      let shifted : bit_and (n / 2) ((n - 1) / 2) ≡ 0 = omega (arith, bit_and_lowest n (n - 1)) in
      let (k, p) =
        power_of_bit_and f (n / 2) (omega arith) (omega arith)
          (subst (λ t. bit_and (n / 2) t ≡ 0) half shifted) in
      (suc k, omega (arith, pow-suc 2 k))
  | inr odd ↦
      let half : (n - 1) / 2 ≡ n / 2 = omega arith in
      let shifted : bit_and (n / 2) ((n - 1) / 2) ≡ 0 = omega (arith, bit_and_lowest n (n - 1)) in
      let self : n / 2 ≡ 0 =
        sym (bit_and_self (n / 2) (n / 2) (omega arith))
        ∙ subst (λ t. bit_and (n / 2) t ≡ 0) half shifted in
      (0, omega (arith, pow-zero 2))
]
  where
    parity : (n : ℕ) → (n % 2 ≡ 0) ⊎ (n % 2 ≡ 1)
    parity n = omega arith

log2_loop-bounds :
    (f n : ℕ) → n ≤ f → 0 < n → (2 ^ log2_loop f n ≤ n) × (n < 2 ^ (log2_loop f n + 1))
unfolding log2_loop
log2_loop-bounds zero n h positive = absurd (omega arith)
log2_loop-bounds (suc f) n h positive = elim (Bool-cases (ltb n 2)) [
  | inl small ↦ rw (small, log2_loop) (ground (arith, ltb→lt n 2 small))
  | inr large ↦
      let (lo, hi) = log2_loop-bounds f (n / 2) (ground arith) (ground arith) in
      let r = log2_loop f (n / 2) in
      let e : suc r + 1 ≡ suc (r + 1) = omega arith in
      rw (large, log2_loop, e) (omega (arith, pow-suc 2 r), omega (arith, pow-suc 2 (r + 1)))
]

bit_and_power : (r : ℕ) → bit_and (2 ^ r) (2 ^ r - 1) ≡ 0
bit_and_power zero = refl
bit_and_power (suc r) =
    let p : 2 ^ suc r ≡ 2 ^ r * 2 = pow-suc 2 r in
    let positive : 0 < 2 ^ r = one-le-pow r 2 (omega arith) in
    let a : 2 ^ suc r / 2 ≡ 2 ^ r = omega arith in
    let b : (2 ^ suc r - 1) / 2 ≡ 2 ^ r - 1 = omega arith in
    let rest : bit_and (2 ^ suc r / 2) ((2 ^ suc r - 1) / 2) ≡ 0 = rw (a, b) (bit_and_power r) in
    omega (arith, bit_and_lowest (2 ^ suc r) (2 ^ suc r - 1))

not_power : (n r : ℕ) → (bit_and n (n - 1) == 0) ≡ false → n ≢ 2 ^ r
not_power n r shared e = let clear : bit_and n (n - 1) ≡ 0 = rw e (bit_and_power r) in ground arith

-- For positive n, nextPowerOfTwo gives a power of two from n up and below 2 * n, the least one.
pub next_power_of_two_lem :
    (n : ℕ) → 0 < n → (k : ℕ) × (next_power_of_two n ≡ 2 ^ k) × (n ≤ 2 ^ k) × (2 ^ k < 2 * n)
unfolding next_power_of_two
next_power_of_two_lem n positive = elim (Bool-cases (bit_and n (n - 1) == 0)) [
  | inl clear ↦
      let (k, e) =
        power_of_bit_and n n (omega arith) positive ((==_iff (bit_and n (n - 1)) 0).0 clear) in
      (k, rw (clear, next_power_of_two) e, omega arith, omega arith)
  | inr shared ↦
      let (lo, hi) = log2_loop-bounds n n (omega arith) positive in
      let r = log2_loop n n in
      let e : r + 1 ≡ suc r = omega arith in
      (
        r + 1,
        rw (shared, next_power_of_two),
        omega arith,
        rw e (omega (arith, pow-suc 2 r, not_power n r shared)),
      )
]

double_lt : (j k : ℕ) → j < k → 2 * 2 ^ j ≤ 2 ^ k
double_lt j k h =
    omega (arith, pow-suc 2 j, pow-le-pow_right {n = 2} (omega arith) {i = suc j} {j = k} h)

even_power : (k : ℕ) → 2 < 2 ^ k → 2 ^ k % 2 ≡ 0
even_power zero h = absurd (omega (arith, pow-zero 2))
even_power (suc k) h = omega (arith, pow-suc 2 k)

-- An odd number above one and its successor have the same next power of two.
pub next_power_of_two-odd :
    (m : ℕ) → 0 < m → next_power_of_two (2 * m + 1) ≡ next_power_of_two (2 * m + 2)
next_power_of_two-odd m positive =
    let (k, ek, lk, hk) = next_power_of_two_lem (2 * m + 1) (omega arith) in
    let (j, ej, lj, hj) = next_power_of_two_lem (2 * m + 2) (omega arith) in
    let even : 2 ^ k % 2 ≡ 0 = even_power k (omega arith) in
    elim (order j k) [
      | inl less ↦ absurd (omega (arith, double_lt j k less))
      | inr (inl e) ↦ rw (ek, ej, e)
      | inr (inr more) ↦ absurd (omega (arith, double_lt k j more))
    ]
  where
    order : (j k : ℕ) → (j < k) ⊎ ((j ≡ k) ⊎ (k < j))
    order j k = omega arith
