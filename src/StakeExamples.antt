-- ===== src/StakeExamples.antt =====
-- Runs of the stake modifiers over the chain of ChainExamples.
use btcchain.Common.{
  ℕ, zero, suc, ◌-◌, ◌*◌, ◌≡◌, refl, arith, true, false, none, List, [], ◌∷◌, ok, All,
}
use btcchain.Common.Int.{pos, int64, ◌+ℤ◌, ◌-ℤ◌, ◌*ℤ◌}
use btcchain.Wire.{Block, Header, Meta, nano}
use btcchain.Chain.State.{BlockNode, BlockChain, Env, bind}
use btcchain.Chain.Nodes.{get_prev_node_from_block, get_prev_node_from_node}
use btcchain.Chain.Pruning.{get_block_node}
use btcchain.Common.Sort.{sort, insert_sorted}
use btcchain.StakeModifier.{
  StakeParams, BlockTimeHash, Chosen, select_block, selection_interval, sum_sections,
  get_last_stake_modifier, look_at, better, past_stop, selection_hash,
}
use btcchain.StakeModifier.Selection.{IsOwn, Beaten, select_block-lowest}
use btcchain.StakeModifier.Next.{
  after_prev, after_last, generate, after_candidates, finish, select_rounds, add_bit, candidates,
  compute_next_stake_modifier,
}
use btcchain.StakeModifier.Later.Found.{IsLate, get_kernel_stake_modifier-IsLate}
use btcchain.Common.Int.{ltb_ℤ}
use btcchain.StakeModifier.Later.{KernelModifier, get_kernel_stake_modifier, seek_from, seek}
use btcchain.ChainExamples.{no_meta, env, chain, block_of}

abbrev hash_of : List ℕ → ℕ
hash_of bytes = 5

abbrev params : StakeParams
params = record {
  modifier_interval = 21600;
  stake_min_age = 2592000;
  is_testnet3 = false;
  stake_modifier_checkpoints = [];
}

interval_of_nine_days : selection_interval params ≡ pos 761920
unfolding selection_interval sum_sections int64 ◌+ℤ◌ ◌*ℤ◌
interval_of_nine_days = refl

abbrev items : List BlockTimeHash
items = record { time = 0; hash = 100 } ∷ record { time = 0; hash = 101 } ∷ []

select_block-lowest_example :
    (best : Chosen) × (select_block hash_of env items (0 ∷ []) (pos 7) 9 none chain
      ≡ (ok best, chain))
    × IsOwn hash_of chain.heap (0 ∷ []) 9 best
    × All (Beaten hash_of chain.heap (0 ∷ []) 9 (pos 7) best) (0 ∷ 1 ∷ [])
select_block-lowest_example =
    select_block-lowest hash_of env items (0 ∷ 1 ∷ []) (0 ∷ []) (pos 7) 9 chain (refl, (refl, tt))
      ((omega arith, tt), (tt, tt))

-- Node 0 has a generated modifier and its entropy bit set; node 1 comes 30000 seconds later.
abbrev marked : Meta
marked = record no_meta { flags = 6; stake_modifier = 77 }

abbrev stake_nodes : ℕ → BlockNode
stake_nodes zero = record (chain.heap 0) { meta = marked }
stake_nodes (suc n) = record (chain.heap (suc n)) { timestamp = 30000 * nano }

abbrev stake_chain : BlockChain (Unit {0})
stake_chain = record chain { heap = stake_nodes }

abbrev new_block : Block
new_block = record (block_of 102 101) {
  header = record (block_of 102 101).header { timestamp = 60000 * nano };
}

generates : (compute_next_stake_modifier hash_of env params new_block stake_chain).0 ≡ ok (1, true)
unfolding compute_next_stake_modifier after_prev after_last generate after_candidates finish
    select_rounds add_bit candidates select_block look_at better past_stop selection_hash
    get_last_stake_modifier selection_interval sum_sections int64 ◌+ℤ◌ ◌-ℤ◌ ◌*ℤ◌ bind get_block_node
    get_prev_node_from_block get_prev_node_from_node sort insert_sorted
generates = refl

-- The block at height n is a million seconds after the one below, and each has a new modifier.
abbrev header_of : ℕ → Header
header_of sha = record (block_of sha 100).header { timestamp = (sha - 100) * 1_000_000 * nano }

abbrev stake_env : Env (Unit {0})
stake_env = record env {
  fetch_block_header_by_sha = λ db sha. ok (header_of sha, marked);
  fetch_block_height_by_sha = λ db sha. ok (sha - 100);
}

abbrev found : KernelModifier
found = record { modifier = 77; height = pos 1; time = 1_000_000 }

finds : get_kernel_stake_modifier stake_env params stake_chain 100 0 true ≡ ok found
unfolding get_kernel_stake_modifier seek_from seek selection_interval sum_sections int64 ◌+ℤ◌ ◌-ℤ◌
    ◌*ℤ◌
finds = refl

interval_ahead : ltb_ℤ (pos 0) (int64 (pos 0 +ℤ selection_interval params)) ≡ true
unfolding selection_interval sum_sections int64 ◌+ℤ◌ ◌*ℤ◌
interval_ahead = refl

get_kernel_stake_modifier-IsLate_example :
    IsLate stake_env stake_chain params
      (int64 (pos 0 +ℤ selection_interval params))
      0
      true
      (get_kernel_stake_modifier stake_env params stake_chain 100 0 true)
get_kernel_stake_modifier-IsLate_example =
    get_kernel_stake_modifier-IsLate stake_env stake_chain params 100 0 true (header_of 100) marked
      0 refl refl interval_ahead λ h e. absurd (cc)
