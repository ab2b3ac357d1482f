-- ===== src/Difficulty/Work.antt =====
-- The work of a block: CalcWork of difficulty.go and CalcTrust of ppc.go.
use btcchain.Common.{
  ℕ, ◌+◌, ◌/◌, ◌^◌, ◌≤◌, ◌<◌, ◌≡◌, Bool, true, false, arith, not, if◌then◌else◌, ◌↔◌,
}
use btcchain.Common.Int.{ℤ, pos, pos_part, leb_ℤ, ◌≤ℤ◌}
use btcchain.Difficulty.Compact.{compact_to_big}

abbrev pub one_lsh_256 : ℕ
one_lsh_256 = 2 ^ 256

unfoldable pub calc_work : ℕ → ℕ
calc_work bits =
    let difficulty_num = compact_to_big bits in
    if leb_ℤ difficulty_num (pos 0) then 0 else one_lsh_256 / (pos_part difficulty_num + 1)

unfoldable pub calc_trust : ℕ → Bool → ℕ
calc_trust bits proof_of_stake =
    let difficulty_num = compact_to_big bits in
    if leb_ℤ difficulty_num (pos 0)
    then 0
    else if not proof_of_stake
    then 1
    else one_lsh_256 / (pos_part difficulty_num + 1)

abbrev pub IsPositive : ℤ → Type 0
IsPositive n = pos 1 ≤ℤ n

div_antitone : (n a b : ℕ) → a ≤ b → n / (b + 1) ≤ n / (a + 1)
div_antitone n a b h = grind arith

-- Of two compact forms, the first with a positive target that is at most the second's target, the
-- first has at least the work of the second.
pub calc_work-antitone :
    (a b : ℕ)
    → IsPositive (compact_to_big a)
    → compact_to_big a ≤ℤ compact_to_big b
    → calc_work b ≤ calc_work a
unfolding calc_work
calc_work-antitone a b positive h =
    ground
      (arith, div_antitone one_lsh_256 (pos_part (compact_to_big a)) (pos_part (compact_to_big b)))

div_pos : (n a : ℕ) → a < n → 0 < n / (a + 1)
div_pos n a h = grind arith

div_zero : (n a : ℕ) → n ≤ a → n / (a + 1) ≡ 0
div_zero n a h = grind arith

-- The work is zero just for targets that are not positive or need more than 256 bits.
pub calc_work-pos :
    (bits : ℕ)
    → (0 < calc_work bits)
      ↔ (IsPositive (compact_to_big bits) × (pos_part (compact_to_big bits) < one_lsh_256))
unfolding calc_work
calc_work-pos bits =
    let t = pos_part (compact_to_big bits) in
    (λ h. ground (arith, div_zero one_lsh_256 t), λ h. ground (arith, div_pos one_lsh_256 t))

-- A proof-of-stake block counts its work; a proof-of-work block counts one if its target is
-- positive, and nothing otherwise.
pub calc_trust-cases :
    (bits : ℕ)
    → (calc_trust bits true ≡ calc_work bits)
      × (IsPositive (compact_to_big bits) → calc_trust bits false ≡ 1)
      × (leb_ℤ (compact_to_big bits) (pos 0) ≡ true → calc_trust bits false ≡ 0)
unfolding calc_trust calc_work
calc_trust-cases bits = (ground arith, ground arith, ground arith)
