-- ===== src/Difficulty/Compact/Precision.antt =====
-- What the compact form keeps of a number: its leading bytes.
use native.Mathlib.Nat.{pow-suc, pow-zero, one-le-pow}
use btcchain.Common.{
  ℕ, zero, suc, ◌+◌, ◌-◌, ◌*◌, ◌/◌, ◌%◌, ◌^◌, ◌≤◌, ◌<◌, ◌≡◌, ap, ◌∙◌, arith, inl, inr, ◌⊎◌, leb,
  if◌then◌else◌,
}
use btcchain.Common.Int.{pos}
use btcchain.Common.Order.{mul_mono_left}
use btcchain.Common.Bits.{bit_or-shift}
use btcchain.Difficulty.Compact.{
  compact_to_big, big_to_compact, pack, normalize, mantissa_of, rsh_abs, byte_len,
}
use btcchain.Difficulty.Compact.Bytes.{byte_len-eq, find_power}

-- The fields of a packed word do not overlap.
pub pack_lem : (e m : ℕ) → e < 256 → m < 2 ^ 24 → pack e m ≡ e * 2 ^ 24 + m
unfolding pack
pack_lem e m p q =
    let same : e * 2 ^ 24 % 2 ^ 32 ≡ e * 2 ^ 24 = omega arith in rw (same, bit_or-shift 24 e m q)

-- The number that exponent e and a mantissa m without the sign bit stand for.
unfoldable pub scale : ℕ → ℕ → ℕ
scale e m = if leb e 3 then m / 256 ^ (3 - e) else m * 256 ^ (e - 3)

pub compact_to_big-scale :
    (e m : ℕ) → m < 2 ^ 23 → compact_to_big (e * 2 ^ 24 + m) ≡ pos (scale e m)
unfolding compact_to_big scale
compact_to_big-scale e m h =
    let a : (e * 2 ^ 24 + m) % 2 ^ 23 ≡ m = omega arith in
    let b : (e * 2 ^ 24 + m) / 2 ^ 23 % 2 ≡ 0 = omega arith in
    let c : (e * 2 ^ 24 + m) / 2 ^ 24 ≡ e = omega arith in rw (a, b, c) (ground arith)

pub normalize_low : (e m : ℕ) → e < 256 → m < 2 ^ 23 → normalize e m ≡ e * 2 ^ 24 + m
unfolding normalize
normalize_low e m p h = ground (arith, pack_lem e m)

pub normalize_high :
    (e m : ℕ) → e < 255 → 2 ^ 23 ≤ m → m < 2 ^ 24 → normalize e m ≡ (e + 1) * 2 ^ 24 + m / 256
unfolding normalize
normalize_high e m p lo hi = ground (arith, pack_lem (e + 1) (m / 256))

pub big_to_compact-pos :
    (n L : ℕ)
    → 0 < n
    → byte_len n ≡ L
    → big_to_compact (pos n) ≡ normalize L (mantissa_of (pos n) L)
unfolding big_to_compact
big_to_compact-pos n L positive e = let z : n + 0 ≡ n = omega arith in rw (z, e) (ground arith)

-- The mantissa before normalisation.
pub mantissa_small :
    (n k : ℕ) → k < 3 → n < 256 ^ suc k → mantissa_of (pos n) (suc k) ≡ n * 256 ^ (2 - k)
unfolding mantissa_of
mantissa_small n zero h p = ground (arith, pow-suc 256 0, pow-zero 256)
mantissa_small n (suc zero) h p = ground (arith, pow-suc 256 1)
mantissa_small n (suc (suc zero)) h p = ground arith
mantissa_small n (suc (suc (suc k))) h p = absurd (omega arith)

pub pow_four : (j : ℕ) → 256 ^ suc (3 + j) ≡ 256 ^ suc j * 2 ^ 24
pow_four j =
    let e : suc (3 + j) ≡ suc (suc (suc (suc j))) = omega arith in
    rw e (
      omega
        (arith, pow-suc 256 (suc (suc (suc j))), pow-suc 256 (suc (suc j)), pow-suc 256 (suc j)))

pub pow_three : (j : ℕ) → 256 ^ (3 + j) ≡ 256 ^ suc j * 2 ^ 16
pow_three j =
    let e : 3 + j ≡ suc (suc (suc j)) = omega arith in
    rw e (omega (arith, pow-suc 256 (suc (suc j)), pow-suc 256 (suc j)))

pub mantissa_large :
    (n j : ℕ) → n < 256 ^ suc (3 + j) → mantissa_of (pos n) (suc (3 + j)) ≡ n / 256 ^ suc j
unfolding mantissa_of rsh_abs
mantissa_large n j p =
    let d : suc (3 + j) - 3 ≡ suc j = omega arith in
    let small : n / 256 ^ suc j < 2 ^ 24 = grind (arith, pow_four j, one-le-pow (suc j) 256) in
    rw d (ground arith)

scale_large : (j m : ℕ) → scale (suc (3 + j)) m ≡ m * 256 ^ suc j
unfolding scale
scale_large j m = let d : suc (3 + j) - 3 ≡ suc j = omega arith in rw d (ground arith)

scale_larger : (j m : ℕ) → scale (suc (3 + j) + 1) m ≡ m * (256 ^ suc j * 256)
scale_larger j m =
    let e : suc (3 + j) + 1 ≡ suc (3 + suc j) = omega arith in
    rw (e, scale_large (suc j) m, pow-suc 256 (suc j))

-- Exponent and mantissa of the compact form of n, and what they stand for.
abbrev pub Encodes : ℕ → ℕ → ℕ → Type 0
Encodes n e m =
    (big_to_compact (pos n) ≡ e * 2 ^ 24 + m)
    × (e < 256)
    × (2 ^ 15 ≤ m)
    × (m < 2 ^ 23)
    × (scale e m ≤ n)
    × (2 ^ 15 * (n - scale e m) ≤ scale e m)

abbrev Close : ℕ → ℕ → Type 0
Close n v = (v ≤ n) × (2 ^ 15 * (n - v) ≤ v)

-- One normalisation step, from the mantissa of the leading three bytes.
encode_step :
    (n L M : ℕ)
    → 0 < n
    → byte_len n ≡ L
    → mantissa_of (pos n) L ≡ M
    → L < 255
    → 2 ^ 16 ≤ M
    → M < 2 ^ 24
    → Close n (scale L M)
    → (2 ^ 23 ≤ M → Close n (scale (L + 1) (M / 256)))
    → (e m : ℕ) × Encodes n e m
encode_step n L M positive len man small lo hi low high = elim (cases M (2 ^ 23)) [
  | inl lt ↦ (
    L,
    M,
    (
      big_to_compact-pos n L positive len
          ∙ ap (normalize L) man
          ∙ normalize_low L M (omega arith) lt,
      omega arith,
      omega arith,
      lt,
      low.0,
      low.1,
    ),
  )
  | inr ge ↦ (
    L + 1,
    M / 256,
    (
      big_to_compact-pos n L positive len ∙ ap (normalize L) man ∙ normalize_high L M small ge hi,
      omega arith,
      omega arith,
      omega arith,
      (high ge).0,
      (high ge).1,
    ),
  )
]
  where
    cases : (x y : ℕ) → (x < y) ⊎ (y ≤ x)
    cases x y = omega arith

encode_small : (n k : ℕ) → 0 < n → k < 3 → 256 ^ k ≤ n → n < 256 ^ suc k → (e m : ℕ) × Encodes n e m
unfolding scale
encode_small n zero positive h lo hi =
    encode_step n 1 (n * 256 ^ 2) positive (byte_len-eq n 0 lo hi) (mantissa_small n 0 h hi)
      (omega arith) (omega arith) (omega (arith, pow-suc 256 0, pow-zero 256)) (omega arith)
      (λ p. omega arith)
encode_small n (suc zero) positive h lo hi =
    encode_step n 2 (n * 256 ^ 1) positive (byte_len-eq n 1 lo hi) (mantissa_small n 1 h hi)
      (omega arith) (omega arith) (omega arith) (omega arith) (λ p. omega arith)
encode_small n (suc (suc zero)) positive h lo hi =
    encode_step n 3 (n * 256 ^ 0) positive (byte_len-eq n 2 lo hi) (mantissa_small n 2 h hi)
      (omega arith) (omega arith) (omega arith) (omega arith) (λ p. omega arith)
encode_small n (suc (suc (suc k))) positive h lo hi = absurd (omega arith)

-- Rounding down to a multiple of d loses less than d.
Close-multiple : (n d q : ℕ) → q * d ≤ n → n < q * d + d → 2 ^ 15 ≤ q → Close n (q * d)
Close-multiple n d q below above big = grind arith

leading_bounds :
    (n d : ℕ) → 0 < d → d * 2 ^ 16 ≤ n → n < d * 2 ^ 24 → (2 ^ 16 ≤ n / d) × (n / d < 2 ^ 24)
leading_bounds n d positive lo hi = grind arith

floor_bounds : (n d : ℕ) → 0 < d → (n / d * d ≤ n) × (n < n / d * d + d)
floor_bounds n d positive = grind arith

floor_bounds_256 :
    (n d : ℕ) → 0 < d → (n / d / 256 * (d * 256) ≤ n) × (n < n / d / 256 * (d * 256) + d * 256)
floor_bounds_256 n d positive =
    let (below, above) = floor_bounds n d positive in
    let q = n / d in
    let r = q / 256 in
    let lo : r * 256 * d ≤ q * d = mul_mono_left (r * 256) q d (omega arith) in
    let hi : (q + 1) * d ≤ (r * 256 + 256) * d =
      mul_mono_left (q + 1) (r * 256 + 256) d (omega arith) in
    omega arith

encode_large :
    (n j : ℕ)
    → 0 < n
    → 3 + j < 254
    → 256 ^ (3 + j) ≤ n
    → n < 256 ^ suc (3 + j)
    → (e m : ℕ) × Encodes n e m
encode_large n j positive h lo hi =
    let d = 256 ^ suc j in
    let dpos : 0 < d = one-le-pow (suc j) 256 (omega arith) in
    let lo' : d * 2 ^ 16 ≤ n = omega (arith, pow_three j) in
    let hi' : n < d * 2 ^ 24 = omega (arith, pow_four j) in
    let (low, high) = leading_bounds n d dpos lo' hi' in
    let (below, above) = floor_bounds n d dpos in
    let (below', above') = floor_bounds_256 n d dpos in
    encode_step n (suc (3 + j)) (n / d) positive (byte_len-eq n (3 + j) lo hi)
      (mantissa_large n j hi) (omega arith) low high
      (rw (scale_large j (n / d)) (Close-multiple n d (n / d) below above (omega arith)))
      (λ p.
        rw (scale_larger j (n / d / 256))
          (Close-multiple n (d * 256) (n / d / 256) below' above' (omega arith)))

encode_cases :
    (n k : ℕ) → 0 < n → k < 254 → 256 ^ k ≤ n → n < 256 ^ suc k → (e m : ℕ) × Encodes n e m
encode_cases n zero positive a lo hi = encode_small n 0 positive (omega arith) lo hi
encode_cases n (suc zero) positive a lo hi = encode_small n 1 positive (omega arith) lo hi
encode_cases n (suc (suc zero)) positive a lo hi = encode_small n 2 positive (omega arith) lo hi
encode_cases n (suc (suc (suc j))) positive a lo hi =
    let e : suc (suc (suc j)) ≡ 3 + j = omega arith in
    encode_large n j positive (omega arith) (rw e at lo) (rw e at hi)

-- The compact form of a number keeps it up to one part in 2 ^ 15.
pub encode_lem : (n : ℕ) → 0 < n → n < 256 ^ 254 → (e m : ℕ) × Encodes n e m
encode_lem n positive h =
    let (k, a, lo, hi) = find_power 254 n positive h in encode_cases n k positive a lo hi

-- For 0 < n < 256 ^ 254 the compact form of n decodes to a number v with v ≤ n that is off by at
-- most v / 2 ^ 15.
pub compact_precision :
    (n : ℕ)
    → 0 < n
    → n < 256 ^ 254
    → (v : ℕ) × (compact_to_big (big_to_compact (pos n)) ≡ pos v) × (v ≤ n) × (2 ^ 15 * (n - v) ≤ v)
compact_precision n positive h =
    let (e, m, (form, _, _, small, below, close)) = encode_lem n positive h in
    (scale e m, rw form (compact_to_big-scale e m small), below, close)
