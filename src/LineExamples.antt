-- ===== src/LineExamples.antt =====
-- Runs over a chain that is one line of nodes: retargeting, median times, locators and a dry run.
use btcchain.Common.{
  ℕ, zero, suc, ◌+◌, ◌*◌, ◌^◌, ◌≤◌, ◌<◌, ◌≡◌, ◌⊎◌, refl, arith, true, false, leb, none, some, List,
  [], length, ok, none_not_some, some_inj,
}
use btcchain.Common.Int.{pos}
use btcchain.Common.Sort.{count}
use btcchain.Difficulty.Compact.{compact_to_big, big_to_compact}
use btcchain.Chain.State.{BlockNode, BlockChain}
use btcchain.Chain.Connect.Branches.{IsDescending}
use btcchain.Chain.Retarget.{
  RetargetParams, calc_easiest_difficulty, retarget, get_last_block_index,
  ppc_calc_next_required_difficulty,
}
use btcchain.Chain.Retarget.Bounds.{
  min_ℕ, retargets_in, retarget_bounds, calc_easiest_difficulty-eq,
}
use btcchain.Chain.Retarget.Walks.{InMemory, IsNearest, get_last_block_index-IsNearest}
use btcchain.Chain.Retarget.Total.{ppc_calc_next_required_difficulty-returns}
use btcchain.Chain.PastMedian.{
  IsRooted, times_from, median_time_blocks, calc_past_median_time, calc_past_median_time-median,
}
use btcchain.Chain.Locator.{block_locator_from_hash}
use btcchain.Chain.Locator.Hashes.{IsLocator, block_locator_from_hash-IsLocator}
use btcchain.Chain.Accept.{Net}
use btcchain.ChainExamples.{env, chain, node_of}

-- Node n has height n and hash 100 + n.
abbrev line : ℕ → BlockNode
line zero = node_of 100 none 0 0 1 true
line (suc n) = node_of (101 + n) (some n) (100 + n) (suc n) (2 + n) true

abbrev line_chain : BlockChain (Unit {0})
line_chain = record chain { heap = line; next = 3000; best_chain = some 2015; index = [] }

abbrev params : RetargetParams
params = record {
  pow_limit = 2 ^ 224;
  pow_limit_bits = 0x1d00_ffff;
  reset_min_difficulty = false;
  initial_hash_target_bits = 0x1c00_ffff;
}

line-InMemory : InMemory line
line-InMemory zero h = absurd (omega arith)
line-InMemory (suc n) h = (n, refl, lower n)
  where
    lower : (n : ℕ) → (line n).height < suc n
    lower zero = omega arith
    lower (suc n) = omega arith

line-genesis : (q : ℕ) → (line q).height ≡ 0 → (line q).hash ≡ 100
line-genesis zero h = refl
line-genesis (suc n) h = absurd (omega arith)

line-IsRooted : IsRooted env line
line-IsRooted zero h = refl
line-IsRooted (suc n) h = absurd (cc)

line_height : (n : ℕ) → (line n).height ≡ n
line_height zero = refl
line_height (suc n) = refl

line-IsDescending : IsDescending line
line-IsDescending zero p e = absurd (none_not_some e)
line-IsDescending (suc n) p e = let q : n ≡ p = some_inj e in omega (arith, line_height p)

retarget_bounds_example :
    (t : ℕ) × (retarget params (pos 1000) (pos 5) ≡ pos t)
    × (t ≤ params.pow_limit)
    × (t ≤ 4 * 1000)
    × ((1000 ≤ 4 * t + 3) ⊎ (t ≡ params.pow_limit))
retarget_bounds_example = retarget_bounds params 1000 (pos 5)

bits_of_limit :
    compact_to_big 0x1d00_ffff
    ≡ pos 26959535291011309493156476344723991336010898738574164086137773096960
unfolding compact_to_big
bits_of_limit = refl

calc_easiest_difficulty-eq_example :
    calc_easiest_difficulty params 0x1d00_ffff (pos 5)
    ≡ ok (
        big_to_compact (
          pos (
            min_ℕ
              (26959535291011309493156476344723991336010898738574164086137773096960
                * 4 ^ retargets_in 5)
              params.pow_limit)))
calc_easiest_difficulty-eq_example =
    calc_easiest_difficulty-eq params 0x1d00_ffff
      26959535291011309493156476344723991336010898738574164086137773096960 (pos 5) refl
      bits_of_limit

abbrev old_limit : ℕ
old_limit = 26959535291011309493156476344723991336010898738574164086137773096960

abbrev low_line : ℕ → BlockNode
low_line n = record (line n) { bits = 0x1d00_ffff }

abbrev low_chain : BlockChain (Unit {0})
low_chain = record line_chain { heap = low_line }

get_last_block_index-IsNearest_example :
    (q : ℕ) × (get_last_block_index env 10 (some 9) true line_chain ≡ (ok (some q), line_chain))
    × IsNearest line true 9 q
get_last_block_index-IsNearest_example =
    get_last_block_index-IsNearest env 10 9 true line_chain line-InMemory (omega arith)

ppc_calc_next_required_difficulty-returns_example :
    (bits : ℕ) × (ppc_calc_next_required_difficulty env params (some 9) false line_chain
      ≡ (ok bits, line_chain))
ppc_calc_next_required_difficulty-returns_example =
    ppc_calc_next_required_difficulty-returns env params 9 false line_chain line-InMemory
      line-genesis (omega arith)

calc_past_median_time-median_example :
    (m : ℕ) × (calc_past_median_time env 0 (some 20) line_chain ≡ (ok m, line_chain))
    × (let times = times_from line median_time_blocks (some 20) in
        (length times ≤ 2 * count (λ t. leb t m) times) × (length times ≤ 2 * count (leb m) times))
calc_past_median_time-median_example =
    calc_past_median_time-median env 0 20 line_chain line-IsRooted

block_locator_from_hash-IsLocator_example :
    (l : List ℕ) × (block_locator_from_hash env 500 2115 line_chain ≡ ok l)
    × IsLocator env 500 line_chain 2115 l
block_locator_from_hash-IsLocator_example =
    block_locator_from_hash-IsLocator env 500 2115 line_chain line-IsDescending (omega arith)

abbrev pub net : Net
net = record {
  checkpoints = [];
  retarget = params;
  genesis_time = 0;
  is_testnet3 = false;
  v1_reject_num_required = 950;
  v1_reject_num_to_check = 1000;
  coinbase_height_num_required = 750;
  coinbase_height_num_to_check = 1000;
  block_is_proof_of_stake = λ block. false;
}
