-- ===== src/Difficulty/Compact/Bytes.antt =====
-- The byte length that BigToCompact takes as the exponent, and hashes as integers.
use mathlib.Core.List.{reverse, reverse-cons}
use native.Mathlib.Nat.{pow-suc, one-le-pow, pow-zero}
use btcchain.Common.{
  ℕ, zero, suc, ◌+◌, ◌*◌, ◌/◌, ◌%◌, ◌^◌, ◌≤◌, ◌<◌, List, [], ◌∷◌, ◌++◌, ◌≡◌, refl, ap, ◌∙◌, arith,
  inl, inr, ◌⊎◌,
}
use btcchain.Difficulty.Compact.{
  digits_256, bytes, set_bytes, sha_hash_to_big, byte_len_loop, byte_len,
}

byte_len_loop-zero : (f : ℕ) → byte_len_loop f 0 ≡ 0
unfolding byte_len_loop
byte_len_loop-zero zero = refl
byte_len_loop-zero (suc f) = refl

byte_len_loop-eq : (f n k : ℕ) → n ≤ f → 256 ^ k ≤ n → n < 256 ^ suc k → byte_len_loop f n ≡ suc k
unfolding byte_len_loop
byte_len_loop-eq zero n k h lo hi = absurd (omega (arith, one-le-pow k 256 (omega arith)))
byte_len_loop-eq (suc f) n zero h lo hi =
    let e : n / 256 ≡ 0 = omega (arith, pow-suc 256 0, pow-zero 256) in
    ground (arith, pow-zero 256, ap (byte_len_loop f) e ∙ byte_len_loop-zero f)
byte_len_loop-eq (suc f) n (suc k) h lo hi =
    let p : 256 ^ suc k ≡ 256 ^ k * 256 = pow-suc 256 k in
    let q : 256 ^ suc (suc k) ≡ 256 ^ suc k * 256 = pow-suc 256 (suc k) in
    ground (
      arith,
      one-le-pow k 256 (omega arith),
      byte_len_loop-eq f (n / 256) k (omega arith) (omega arith) (omega arith),
    )

pub byte_len-eq : (n k : ℕ) → 256 ^ k ≤ n → n < 256 ^ suc k → byte_len n ≡ suc k
unfolding byte_len
byte_len-eq n k lo hi = byte_len_loop-eq n n k (omega arith) lo hi

-- Every positive number lies between two powers of 256.
pub find_power :
    (b n : ℕ) → 0 < n → n < 256 ^ b → (k : ℕ) × (k < b) × (256 ^ k ≤ n) × (n < 256 ^ suc k)
find_power zero n pos h = absurd (omega (arith, pow-zero 256))
find_power (suc b) n positive h = elim (cases n (256 ^ b)) [
  | inl lt ↦ let (k, p, q, r) = find_power b n positive lt in (k, omega arith, q, r)
  | inr ge ↦ (b, omega arith, ge, h)
]
  where
    cases : (x y : ℕ) → (x < y) ⊎ (y ≤ x)
    cases x y = omega arith

-- The digits of a number below 256 ^ k, read back, are the number.
set_bytes-append :
    (acc : ℕ) (xs ys : List ℕ) → set_bytes acc (xs ++ ys) ≡ set_bytes (set_bytes acc xs) ys
unfolding set_bytes
set_bytes-append acc [] ys = refl
set_bytes-append acc (x ∷ xs) ys = set_bytes-append (acc * 256 + x) xs ys

set_bytes-digits : (k n : ℕ) → n < 256 ^ k → set_bytes 0 (reverse (digits_256 k n)) ≡ n
unfolding digits_256 set_bytes
set_bytes-digits zero n h = omega (arith, pow-zero 256)
set_bytes-digits (suc k) n h =
    rw
      (
        reverse-cons (n % 256) (digits_256 k (n / 256)),
        set_bytes-append 0 (reverse (digits_256 k (n / 256))) ((n % 256) ∷ []),
        set_bytes-digits k (n / 256) (omega (arith, pow-suc 256 k)),
      )
      (omega arith)

-- Reversing the 32 bytes of a hash and reading them, the most significant first, gives the number
-- that the hash is held as.
pub sha_hash_to_big-eq : (h : ℕ) → h < 256 ^ 32 → sha_hash_to_big h ≡ h
unfolding sha_hash_to_big bytes
sha_hash_to_big-eq h lt = set_bytes-digits 32 h lt
