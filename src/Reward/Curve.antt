-- ===== src/Reward/Curve.antt =====
-- The bisection of PPCGetProofOfWorkReward finds where the reward curve crosses the target.
use native.Mathlib.Nat.{pow-suc, div-div-eq-div-mul}
use btcchain.Common.{ℕ, suc, ◌+◌, ◌*◌, ◌/◌, ◌^◌, ◌≤◌, ◌<◌, ◌≡◌, true, false, arith, ◌⊎◌}
use btcchain.Common.Int.{ℤ}
use btcchain.Reward.{cent, max_mint_proof_of_work, exceeds, calc_block_subsidy}

-- The curve has not passed the target at `lower`, unless that is the least reward, and has passed
-- it at `upper`, unless that is the greatest.
abbrev pub Brackets : ℤ → ℤ → ℕ → ℕ → Type 0
Brackets limit target lower upper =
    (cent ≤ lower)
    × (lower ≤ upper)
    × (upper ≤ max_mint_proof_of_work)
    × ((lower ≡ cent) ⊎ (exceeds limit target lower ≡ false))
    × ((upper ≡ max_mint_proof_of_work) ⊎ (exceeds limit target upper ≡ true))

div_div_two : (s k : ℕ) → s / 2 ^ suc k ≡ s / 2 ^ k / 2
div_div_two s k = rw (pow-suc 2 k, div-div-eq-div-mul s (2 ^ k) 2)

-- With a positive halving interval, the subsidy one interval later is half of the subsidy, rounded
-- down.
pub calc_block_subsidy-halves :
    (unit height interval : ℕ)
    → 0 < interval
    → calc_block_subsidy unit (height + interval) interval
      ≡ calc_block_subsidy unit height interval / 2
unfolding calc_block_subsidy
calc_block_subsidy-halves unit height interval h =
    let next : (height + interval) / interval ≡ suc (height / interval) = grind arith in
    rw next (ground (arith, div_div_two (50 * unit) (height / interval)))
