-- ===== src/Difficulty/Compact/RoundTrip.antt =====
-- A compact form in normal form is the compact form of the number that it stands for.
use native.Mathlib.Nat.{pow-suc, one-le-pow}
use btcchain.Common.{
  ℕ, zero, suc, ◌+◌, ◌-◌, ◌*◌, ◌/◌, ◌^◌, ◌≤◌, ◌<◌, ◌≡◌, ap, ◌∙◌, arith, inl, inr, ◌⊎◌,
}
use btcchain.Common.Int.{pos}
use btcchain.Common.Order.{mul_mono_left}
use btcchain.Difficulty.Compact.{compact_to_big, big_to_compact, normalize, mantissa_of, byte_len}
use btcchain.Difficulty.Compact.Bytes.{byte_len-eq}
use btcchain.Difficulty.Compact.Precision.{
  scale, compact_to_big-scale, normalize_low, normalize_high, big_to_compact-pos, mantissa_small,
  mantissa_large, pow_three, pow_four,
}

lt_or_ge : (x y : ℕ) → (x < y) ⊎ (y ≤ x)
lt_or_ge x y = omega arith

encode_low :
    (n L M : ℕ)
    → 0 < n
    → byte_len n ≡ L
    → mantissa_of (pos n) L ≡ M
    → L < 256
    → M < 2 ^ 23
    → big_to_compact (pos n) ≡ L * 2 ^ 24 + M
encode_low n L M positive len man h hi =
    big_to_compact-pos n L positive len ∙ ap (normalize L) man ∙ normalize_low L M h hi

encode_high :
    (n L m : ℕ)
    → 0 < n
    → byte_len n ≡ L
    → mantissa_of (pos n) L ≡ m * 256
    → L < 255
    → 2 ^ 15 ≤ m
    → m < 2 ^ 16
    → big_to_compact (pos n) ≡ (L + 1) * 2 ^ 24 + m
encode_high n L m positive len man h lo hi =
    let d : m * 256 / 256 ≡ m = omega arith in
    big_to_compact-pos n L positive len
    ∙ ap (normalize L) man
    ∙ normalize_high L (m * 256) h (omega arith) (omega arith)
    ∙ ap (λ (t : ℕ). (L + 1) * 2 ^ 24 + t) d

exact_quotient : (q d : ℕ) → 0 < d → q * d / d ≡ q
exact_quotient q d positive = grind arith

-- Three leading bytes q above j + 1 zero bytes.
leading :
    (j q : ℕ)
    → 2 ^ 16 ≤ q
    → q < 2 ^ 24
    → (byte_len (q * 256 ^ suc j) ≡ suc (3 + j))
      × (mantissa_of (pos (q * 256 ^ suc j)) (suc (3 + j)) ≡ q)
      × (0 < q * 256 ^ suc j)
leading j q lo hi =
    let d = 256 ^ suc j in
    let positive : 0 < d = one-le-pow (suc j) 256 (omega arith) in
    let below : 2 ^ 16 * d ≤ q * d = mul_mono_left (2 ^ 16) q d lo in
    let above : (q + 1) * d ≤ 2 ^ 24 * d = mul_mono_left (q + 1) (2 ^ 24) d (omega arith) in
    let lo' : 256 ^ (3 + j) ≤ q * d = omega (arith, pow_three j) in
    let hi' : q * d < 256 ^ suc (3 + j) = omega (arith, pow_four j) in
    (
      byte_len-eq (q * d) (3 + j) lo' hi',
      mantissa_large (q * d) j hi' ∙ exact_quotient q d positive,
      omega arith,
    )

shift_byte : (m j : ℕ) → m * 256 ^ suc j ≡ m * 256 * 256 ^ j
shift_byte m j = omega (arith, ap (λ (t : ℕ). m * t) (pow-suc 256 j))

-- A mantissa of two bytes: the third leading byte is a zero below it.
encode_two :
    (j m : ℕ)
    → j < 253
    → 2 ^ 15 ≤ m
    → m < 2 ^ 16
    → big_to_compact (pos (m * 256 ^ j)) ≡ (3 + j) * 2 ^ 24 + m
encode_two zero m h lo hi =
    encode_high (m * 256 ^ 0) 2 m (omega arith)
      (byte_len-eq (m * 256 ^ 0) 1 (omega arith) (omega arith))
      (mantissa_small (m * 256 ^ 0) 1 (omega arith) (omega arith) ∙ omega arith) (omega arith) lo hi
encode_two (suc zero) m h lo hi =
    encode_high (m * 256 ^ 1) 3 m (omega arith)
      (byte_len-eq (m * 256 ^ 1) 2 (omega arith) (omega arith))
      (mantissa_small (m * 256 ^ 1) 2 (omega arith) (omega arith) ∙ omega arith) (omega arith) lo hi
encode_two (suc (suc i)) m h lo hi =
    let (len, man, positive) = leading i (m * 256) (omega arith) (omega arith) in
    let e : 3 + suc (suc i) ≡ suc (3 + i) + 1 = omega arith in
    rw (shift_byte m (suc i), e)
      (encode_high (m * 256 * 256 ^ suc i) (suc (3 + i)) m positive len man (omega arith) lo hi)

-- A mantissa of three bytes.
encode_three :
    (j m : ℕ)
    → j < 253
    → 2 ^ 16 ≤ m
    → m < 2 ^ 23
    → big_to_compact (pos (m * 256 ^ j)) ≡ (3 + j) * 2 ^ 24 + m
encode_three zero m h lo hi =
    encode_low (m * 256 ^ 0) 3 m (omega arith)
      (byte_len-eq (m * 256 ^ 0) 2 (omega arith) (omega arith))
      (mantissa_small (m * 256 ^ 0) 2 (omega arith) (omega arith) ∙ omega arith) (omega arith) hi
encode_three (suc j) m h lo hi =
    let (len, man, positive) = leading j m lo (omega arith) in
    let e : 3 + suc j ≡ suc (3 + j) = omega arith in
    rw e (encode_low (m * 256 ^ suc j) (suc (3 + j)) m positive len man (omega arith) hi)

scale-three : (j m : ℕ) → scale (3 + j) m ≡ m * 256 ^ j
unfolding scale
scale-three zero m = omega arith
scale-three (suc j) m = let d : 3 + suc j - 3 ≡ suc j = omega arith in rw d (ground arith)

-- With exponent from 3 to 255, no sign bit and a mantissa of at least 2 ^ 15, decoding and then
-- encoding a compact form gives it back.
pub compact_roundtrip :
    (j m : ℕ)
    → j < 253
    → 2 ^ 15 ≤ m
    → m < 2 ^ 23
    → big_to_compact (compact_to_big ((3 + j) * 2 ^ 24 + m)) ≡ (3 + j) * 2 ^ 24 + m
compact_roundtrip j m h lo hi =
    rw (compact_to_big-scale (3 + j) m hi, scale-three j m)
      (elim (lt_or_ge m (2 ^ 16)) [
        | inl low ↦ encode_two j m h lo low
        | inr high ↦ encode_three j m h high hi
      ])
