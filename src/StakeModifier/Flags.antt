-- ===== src/StakeModifier/Flags.antt =====
-- The flags of a block's meta data: the setters of ppc.go, beside the getters.
use btcchain.Common.{ℕ, ◌+◌, ◌-◌, ◌/◌, ◌%◌, ◌≡◌, arith, Bool, true, false, not, ◌==◌, if◌then◌else◌}
use btcchain.Wire.{Meta}
use btcchain.Chain.Nodes.{is_proof_of_stake}
use btcchain.StakeModifier.{is_generated_stake_modifier, get_meta_stake_entropy_bit}

-- `flags |= weight` and `flags &^= weight`, for a power of two.
unfoldable pub set_flag : ℕ → Bool → ℕ → ℕ
set_flag weight true flags = if (flags / weight) % 2 == 1 then flags else flags + weight
set_flag weight false flags = if (flags / weight) % 2 == 1 then flags - weight else flags

unfoldable pub set_proof_of_stake : Bool → Meta → Meta
set_proof_of_stake b meta = record meta { flags = set_flag 1 b meta.flags }

unfoldable pub set_meta_stake_entropy_bit : ℕ → Meta → Meta
set_meta_stake_entropy_bit bit meta = record meta { flags = set_flag 2 (not (bit == 0)) meta.flags }

unfoldable pub set_generated_stake_modifier : Bool → Meta → Meta
set_generated_stake_modifier b meta = record meta { flags = set_flag 4 b meta.flags }

-- Each setter makes its getter give what was set, and leaves the other two flags as they were.
pub set_flags-apart :
    (b : Bool) (bit : ℕ) (meta : Meta)
    → (is_proof_of_stake (set_proof_of_stake b meta) ≡ b)
      × (is_generated_stake_modifier (set_proof_of_stake b meta) ≡ is_generated_stake_modifier meta)
      × (get_meta_stake_entropy_bit (set_proof_of_stake b meta) ≡ get_meta_stake_entropy_bit meta)
      × (is_generated_stake_modifier (set_generated_stake_modifier b meta) ≡ b)
      × (is_proof_of_stake (set_generated_stake_modifier b meta) ≡ is_proof_of_stake meta)
      × (get_meta_stake_entropy_bit (set_generated_stake_modifier b meta)
          ≡ get_meta_stake_entropy_bit meta)
      × (get_meta_stake_entropy_bit (set_meta_stake_entropy_bit bit meta)
          ≡ (if bit == 0 then 0 else 1))
      × (is_proof_of_stake (set_meta_stake_entropy_bit bit meta) ≡ is_proof_of_stake meta)
      × (is_generated_stake_modifier (set_meta_stake_entropy_bit bit meta)
          ≡ is_generated_stake_modifier meta)
unfolding set_proof_of_stake set_generated_stake_modifier set_meta_stake_entropy_bit set_flag
set_flags-apart true bit meta = (
  ground arith,
  ground arith,
  ground arith,
  ground arith,
  ground arith,
  ground arith,
  ground arith,
  ground arith,
  ground arith,
)
set_flags-apart false bit meta = (
  ground arith,
  ground arith,
  ground arith,
  ground arith,
  ground arith,
  ground arith,
  ground arith,
  ground arith,
  ground arith,
)
