-- ===== src/KernelExamples.antt =====
-- Runs of the proof of stake, its flags and a dry run with it at concrete inputs.
use btcchain.Common.{◌*◌, ◌≡◌, refl, true, false, [], ◌∷◌, ◌==◌, if◌then◌else◌, ok}
use btcchain.Common.Int.{pos, int64, ◌+ℤ◌, ◌-ℤ◌, ◌*ℤ◌, euclid_div, min_ℤ}
use btcchain.Wire.{Tx, Meta, nano}
use btcchain.Difficulty.Compact.{compact_to_big, sha_hash_to_big, set_bytes, bytes}
use btcchain.Validate.{Packages}
use btcchain.Validate.Blocks.{is_protocol_v03}
use btcchain.Inputs.{find_origin}
use btcchain.Scripts.{passed, validate_item}
use btcchain.Chain.State.{Env}
use btcchain.Chain.Nodes.{is_proof_of_stake}
use btcchain.Chain.Connect.DryRun.{Kept}
use btcchain.Chain.Process.{process_block}
use btcchain.Chain.Lookup.{
  TxReply, TxDb, given, all_missing, fill_entry, fill_all, fetch_tx_store_main,
  fetch_transaction_store, block_at_height,
}
use btcchain.StakeModifier.{StakeParams}
use btcchain.StakeKernel.{
  StakePackages, time_weight, coin_day_weight, meets_target, kernel_start, accept_kernel,
  check_stake_kernel_hash, verify_signature, check_kernel_among, check_found,
  check_tx_proof_of_stake, stake_kernel,
}
use btcchain.StakeKernel.Hashes.{IsStaked, check_tx_proof_of_stake-IsStaked}
use btcchain.StakeKernel.Keeps.{process_block-Kept}
use btcchain.CheckExamples.{packages, tx_of, pay, spend}
use btcchain.StakeModifier.{is_generated_stake_modifier, get_meta_stake_entropy_bit}
use btcchain.StakeModifier.Flags.{
  set_proof_of_stake, set_generated_stake_modifier, set_meta_stake_entropy_bit, set_flags-apart,
}
use btcchain.ChainExamples.{no_meta, env, chain, block_of, dry}
use btcchain.LineExamples.{net}

abbrev params : StakeParams
params = record {
  modifier_interval = 21600;
  stake_min_age = 2592000;
  is_testnet3 = false;
  stake_modifier_checkpoints = [];
}

abbrev staking : Packages
staking = record packages { is_coin_stake = λ tx. true }

abbrev stake : StakePackages
stake = record {
  double_sha256 = λ bytes. 5;
  hash160 = λ bytes. bytes;
  tx_loc = λ block. 81 ∷ [];
  run_script = λ signature script index tx bip16. passed;
}

-- Ten thousand coins, received at time 0.
abbrev origin : Tx
origin = tx_of 5 [] (pay 10_000_000_000 ∷ [])

abbrev reply : TxReply
reply = record { sha = 5; answer = given origin (pos 1) (false ∷ []) }

abbrev txs : TxDb (Unit {0})
txs = record {
  fetch_tx_by_sha_list = λ db shas. reply ∷ [];
  fetch_un_spent_tx_by_sha_list = λ db shas. reply ∷ [];
}

abbrev kernel_env : Env (Unit {0})
kernel_env = record env {
  fetch_block_by_sha = λ db sha. ok (record (block_of sha 100) { transactions = origin ∷ [] });
}

-- The coinstake comes three million seconds later.
abbrev coin_stake : Tx
coin_stake = record (tx_of 9 (spend 5 0 ∷ []) []) { time = 3_000_000 * nano }

staked :
    check_tx_proof_of_stake staking stake params kernel_env txs coin_stake 0 0x1d00_ffff chain
    ≡ ok 5
unfolding check_tx_proof_of_stake check_found check_kernel_among check_stake_kernel_hash
    verify_signature validate_item find_origin block_at_height fetch_transaction_store
    fetch_tx_store_main fill_all fill_entry all_missing kernel_start meets_target coin_day_weight
    time_weight accept_kernel compact_to_big sha_hash_to_big set_bytes bytes int64 ◌+ℤ◌ ◌-ℤ◌ ◌*ℤ◌
    euclid_div min_ℤ is_protocol_v03
staked = refl

check_tx_proof_of_stake-IsStaked_example :
    IsStaked staking stake params kernel_env txs coin_stake 0x1d00_ffff 5 chain
check_tx_proof_of_stake-IsStaked_example =
    check_tx_proof_of_stake-IsStaked staking stake params kernel_env txs coin_stake 0 0x1d00_ffff 5
      chain staked

process_block-Kept_example :
    Kept kernel_env
      (process_block kernel_env net
        (stake_kernel packages stake params kernel_env txs 0)
        (λ b. ok tt)
        7
        (block_of 103 102)
        dry
        chain).1
      chain
process_block-Kept_example =
    process_block-Kept packages stake params kernel_env txs net (λ b. ok tt) 0 7 (block_of 103 102)
      dry chain refl

abbrev flagged : Meta
flagged = record no_meta { flags = 5 }

set_flags-apart_example :
    (is_proof_of_stake (set_proof_of_stake false flagged) ≡ false)
    × (is_generated_stake_modifier (set_proof_of_stake false flagged)
        ≡ is_generated_stake_modifier flagged)
    × (get_meta_stake_entropy_bit (set_proof_of_stake false flagged)
        ≡ get_meta_stake_entropy_bit flagged)
    × (is_generated_stake_modifier (set_generated_stake_modifier false flagged) ≡ false)
    × (is_proof_of_stake (set_generated_stake_modifier false flagged) ≡ is_proof_of_stake flagged)
    × (get_meta_stake_entropy_bit (set_generated_stake_modifier false flagged)
        ≡ get_meta_stake_entropy_bit flagged)
    × (get_meta_stake_entropy_bit (set_meta_stake_entropy_bit 1 flagged)
        ≡ (if 1 == 0 then 0 else 1))
    × (is_proof_of_stake (set_meta_stake_entropy_bit 1 flagged) ≡ is_proof_of_stake flagged)
    × (is_generated_stake_modifier (set_meta_stake_entropy_bit 1 flagged)
        ≡ is_generated_stake_modifier flagged)
set_flags-apart_example = set_flags-apart false 1 flagged
