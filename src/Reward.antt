-- ===== src/Reward.antt =====
-- The block rewards and fees of ppc.go, and CalcBlockSubsidy of validate.go.
pub mod Curve
use btcchain.Common.{
  ℕ, zero, suc, ◌+◌, ◌-◌, ◌*◌, ◌/◌, ◌^◌, ◌≤◌, ◌<◌, ◌≡◌, refl, Bool, true, false, arith, ltb, leb,
  ◌==◌, if◌then◌else◌, Option, none, some,
}
use btcchain.Common.Int.{ℤ, pos, negsuc, ltb_ℤ, ◌*ℤ◌}
use btcchain.Difficulty.Compact.{compact_to_big, big_to_compact}
use mathlib.Core.Option

abbrev pub cent : ℕ
cent = 10_000

abbrev pub coin : ℕ
coin = 100 * cent

abbrev pub min_tx_fee : ℕ
min_tx_fee = cent

abbrev pub min_tx_out_amount : ℕ
min_tx_out_amount = min_tx_fee

abbrev pub max_mint_proof_of_work : ℕ
max_mint_proof_of_work = 9999 * coin

-- mid ^ 4 * target_limit > subsidy_limit ^ 4 * target
unfoldable pub exceeds : ℤ → ℤ → ℕ → Bool
exceeds target_limit target mid =
    let sub = max_mint_proof_of_work in
    ltb_ℤ (pos (sub * sub * (sub * sub)) *ℤ target) (pos (mid * mid * (mid * mid)) *ℤ target_limit)

-- The loop of PPCGetProofOfWorkReward from the two bounds; `none` when the fuel runs out.
unfoldable pub reward_loop : ℤ → ℤ → ℕ → ℕ → ℕ → Option ℕ
reward_loop limit target zero lower upper = none
reward_loop limit target (suc fuel) lower upper =
    let mid = (lower + upper) / 2 in
    elim (leb (lower + cent) upper) [
      | true ↦ elim (exceeds limit target mid) [
        | true ↦ reward_loop limit target fuel lower mid
        | false ↦ reward_loop limit target fuel mid upper
      ]
      | false ↦ some upper
    ]

unfoldable pub clamp_subsidy : ℕ → ℕ
clamp_subsidy upper =
    let subsidy = upper / cent * cent in
    if ltb max_mint_proof_of_work subsidy then max_mint_proof_of_work else subsidy

-- PPCGetProofOfWorkReward(nBits, netParams), where pow_limit is netParams.PowLimit.
unfoldable pub proof_of_work_reward : ℕ → ℤ → Option ℕ
unfolding reward_loop clamp_subsidy exceeds
proof_of_work_reward bits pow_limit =
    let target_limit = compact_to_big (big_to_compact pow_limit) in
    Option.map clamp_subsidy (
      reward_loop target_limit (compact_to_big bits) max_mint_proof_of_work cent
        max_mint_proof_of_work)

-- GetMinFee, of the serialized size.
unfoldable pub get_min_fee : ℕ → ℕ
get_min_fee size = (1 + size / 1000) * min_tx_fee

abbrev pub base_subsidy : ℕ → ℕ
base_subsidy satoshi_per_bitcoin = 50 * satoshi_per_bitcoin

-- CalcBlockSubsidy. The unit btcutil.SatoshiPerBitcoin is the first argument.
unfoldable pub calc_block_subsidy : ℕ → ℕ → ℕ → ℕ
calc_block_subsidy satoshi_per_bitcoin height halving_interval =
    if halving_interval == 0
    then base_subsidy satoshi_per_bitcoin
    else base_subsidy satoshi_per_bitcoin / 2 ^ (height / halving_interval)

easiest_reward : proof_of_work_reward 0x1d00ffff (pos (2 ^ 224 - 1)) ≡ some 9_999_000_000
unfolding proof_of_work_reward compact_to_big big_to_compact ◌*ℤ◌
easiest_reward = refl

-- A target 16 times lower halves the reward.
sixteenth_reward : proof_of_work_reward 0x1c0ffff0 (pos (2 ^ 224 - 1)) ≡ some 4_999_500_000
unfolding proof_of_work_reward compact_to_big big_to_compact ◌*ℤ◌
sixteenth_reward = refl
