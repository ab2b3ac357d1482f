-- ===== src/Difficulty/Compact.antt =====
-- difficulty.go: the 32-bit compact form of big integers, and hashes as integers. A shift by 8 * k
-- bits is a product or quotient by 256 ^ k, and a mask of low bits a remainder.
pub mod Bytes
pub mod Precision
pub mod RoundTrip
use Prim.Native.Nat.{bit_or}
use mathlib.Core.List.{reverse}
use btcchain.Common.{
  ℕ, zero, suc, ◌+◌, ◌-◌, ◌*◌, ◌/◌, ◌%◌, ◌^◌, List, [], ◌∷◌, ◌==◌, leb, if◌then◌else◌, ◌≡◌, refl,
}
use btcchain.Common.Int.{ℤ, pos, negsuc, pos_part, neg_part, neg, ltb_ℤ}

-- A btcwire.ShaHash is an array of 32 bytes. It is held as the number below 2 ^ 256 whose digits
-- to base 256, least significant first, are those bytes; `hash.Bytes()` are the digits.
abbrev pub ShaHash : Type 0
ShaHash = ℕ

digits_256 : ℕ → ℕ → List ℕ
digits_256 zero n = []
digits_256 (suc k) n = (n % 256) ∷ digits_256 k (n / 256)

unfoldable pub bytes : ShaHash → List ℕ
unfolding digits_256
bytes h = digits_256 32 h

-- `big.Int.SetBytes`: the number with these bytes, most significant first.
unfoldable pub set_bytes : ℕ → List ℕ → ℕ
set_bytes acc [] = acc
set_bytes acc (b ∷ bs) = set_bytes (acc * 256 + b) bs

-- The loop of ShaHashToBig swaps the bytes from both ends: a reversal.
unfoldable pub sha_hash_to_big : ShaHash → ℕ
unfolding bytes set_bytes
sha_hash_to_big h = set_bytes 0 (reverse (bytes h))

-- The compact form is a uint32: exponent in bits 31-24, sign in bit 23, mantissa in bits 22-0.
unfoldable pub compact_to_big : ℕ → ℤ
compact_to_big compact =
    let mantissa = compact % 2 ^ 23 in
    let is_negative = compact / 2 ^ 23 % 2 == 1 in
    let exponent = compact / 2 ^ 24 in
    let bn =
      if leb exponent 3
      then pos (mantissa / 256 ^ (3 - exponent))
      else pos (mantissa * 256 ^ (exponent - 3)) in
    if is_negative then neg bn else bn

-- len(n.Bytes()) of a big.Int with absolute value n: the number of bytes without leading zeros.
-- Each round takes off one byte, so n itself is fuel enough.
byte_len_loop : ℕ → ℕ → ℕ
byte_len_loop zero n = 0
byte_len_loop (suc f) n = let more = suc (byte_len_loop f (n / 256)) in if n == 0 then 0 else more

unfoldable pub byte_len : ℕ → ℕ
unfolding byte_len_loop
byte_len n = byte_len_loop n n

-- The absolute value of tn.Rsh(tn, 8 * k), which rounds towards minus infinity.
unfoldable pub rsh_abs : ℤ → ℕ → ℕ
rsh_abs (pos n) k = n / 256 ^ k
rsh_abs (negsuc n) k = suc (n / 256 ^ k)

-- uint32(exponent<<24) | mantissa
unfoldable pub pack : ℕ → ℕ → ℕ
pack exponent mantissa = bit_or (exponent * 2 ^ 24 % 2 ^ 32) mantissa

-- A mantissa that reaches the sign bit loses a byte to the exponent.
unfoldable pub normalize : ℕ → ℕ → ℕ
normalize exponent mantissa =
    if mantissa / 2 ^ 23 % 2 == 1
    then pack (exponent + 1) (mantissa / 256)
    else pack exponent mantissa

unfoldable pub mantissa_of : ℤ → ℕ → ℕ
unfolding rsh_abs
mantissa_of n exponent =
    if leb exponent 3
    then (pos_part n + neg_part n) % 2 ^ 32 * 256 ^ (3 - exponent) % 2 ^ 32
    else rsh_abs n (exponent - 3) % 2 ^ 32

unfoldable pub big_to_compact : ℤ → ℕ
unfolding byte_len mantissa_of pack normalize
big_to_compact n =
    let magnitude = pos_part n + neg_part n in
    let exponent = byte_len magnitude in
    let compact = normalize exponent (mantissa_of n exponent) in
    if magnitude == 0 then 0 else if ltb_ℤ n (pos 0) then bit_or compact (2 ^ 23) else compact

max_target : compact_to_big 0x1d00ffff ≡ pos (0xffff * 2 ^ 208)
unfolding compact_to_big
max_target = refl

small_negative : big_to_compact (negsuc 0x12344) ≡ 0x03812345
unfolding big_to_compact
small_negative = refl

hash_of_five : sha_hash_to_big (5 + 256 * 7) ≡ 1797
unfolding sha_hash_to_big digits_256
hash_of_five = refl

max_target_back : big_to_compact (pos (0xffff * 2 ^ 208)) ≡ 0x1d00ffff
unfolding big_to_compact
max_target_back = refl
