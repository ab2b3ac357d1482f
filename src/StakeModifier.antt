-- ===== src/StakeModifier.antt =====
-- The stake modifiers of kernel.go: the intervals, the search for the last modifier, the choice of a
-- block from the candidates, the next modifier, and the modifier that a kernel hashes with.
pub mod Flags
pub mod Selection
pub mod Next
pub mod Later
use btcchain.Common.{
  ℕ, zero, suc, ◌+◌, ◌-◌, ◌*◌, ◌/◌, ◌%◌, ◌^◌, Option, none, some, List, [], ◌∷◌, ◌++◌, length, any,
  Bool, true, false, ◌&&◌, ◌||◌, not, ◌==◌, ltb, leb, if◌then◌else◌, Result, ok, err, failure,
  panic, divergence, Error,
}
use btcchain.Common.Int.{ℤ, pos, int64, ◌+ℤ◌, ◌-ℤ◌, ◌*ℤ◌, ltb_ℤ, leb_ℤ, quot}
use btcchain.Common.Sort.{sort}
use btcchain.Wire.{Block, Header, Meta, unix}
use btcchain.Chain.State.{BlockNode, BlockChain, Env, M, bind}
use btcchain.Chain.Nodes.{get_prev_node_from_node, get_prev_node_from_block}
use btcchain.Chain.Pruning.{get_block_node}
use btcchain.Chain.Retarget.{fuel_from}

-- The fields of btcnet.Params that are read here. Durations and times are in seconds.
pub record StakeParams : Type 0 where
  pub modifier_interval : ℕ
  pub stake_min_age : ℕ
  pub is_testnet3 : Bool
  pub stake_modifier_checkpoints : List (ℕ × ℕ)

abbrev pub modifier_interval_ratio : ℕ
modifier_interval_ratio = 3

abbrev pub protocol_v04_switch_time : ℕ
protocol_v04_switch_time = 1_399_300_000

abbrev pub protocol_v04_test_switch_time : ℕ
protocol_v04_test_switch_time = 1_395_700_000

abbrev pub is_protocol_v04 : StakeParams → ℕ → Bool
is_protocol_v04 params time =
    leb (if params.is_testnet3 then protocol_v04_test_switch_time else protocol_v04_switch_time)
      time

-- The flags of the meta data: bit 2, and bit 1.
abbrev pub is_generated_stake_modifier : Meta → Bool
is_generated_stake_modifier meta = (meta.flags / 4) % 2 == 1

abbrev pub get_meta_stake_entropy_bit : Meta → ℕ
get_meta_stake_entropy_bit meta = (meta.flags / 2) % 2

-- The length of section n, for n below 64.
abbrev pub selection_interval_section : StakeParams → ℕ → ℤ
selection_interval_section params n =
    quot (int64 (pos params.modifier_interval *ℤ pos 63))
      (pos (63 + (63 - n) * (modifier_interval_ratio - 1)))

-- The first n sections together.
unfoldable pub sum_sections : StakeParams → ℕ → ℤ
sum_sections params zero = pos 0
sum_sections params (suc n) = int64 (sum_sections params n +ℤ selection_interval_section params n)

unfoldable pub selection_interval : StakeParams → ℤ
selection_interval params = sum_sections params 64

-- The little-endian bytes of a number.
abbrev pub le_bytes : ℕ → ℕ → List ℕ
le_bytes zero v = []
le_bytes (suc n) v = (v % 256) ∷ le_bytes n (v / 256)

-- blockTimeHash, and the order of blockTimeHashSorter: by time, then by hash from its last byte on.
pub record BlockTimeHash : Type 0 where
  pub time : ℕ
  pub hash : ℕ

abbrev pub in_order : BlockTimeHash → BlockTimeHash → Bool
in_order a b = if a.time == b.time then leb a.hash b.hash else ltb a.time b.time

-- The block chosen so far: its selection hash, and its node.
abbrev pub Chosen : Type 0
Chosen = Option (ℕ × ℕ)

-- double_sha256 gives the hash of some bytes.
module _ (double_sha256 : List ℕ → ℕ) where
  -- The hash by which a block is chosen; that of a proof-of-stake block is divided by 2 ^ 32.
  unfoldable pub selection_hash : ℕ → BlockNode → ℕ
  selection_hash prev node =
      let proof = node.meta.hash_proof_of_stake in
      if proof == 0
      then double_sha256 (le_bytes 32 node.hash ++ le_bytes 8 prev)
      else double_sha256 (le_bytes 32 proof ++ le_bytes 8 prev) / 2 ^ 32

  unfoldable pub better : Chosen → ℕ → ℕ → Chosen
  better none h r = some (h, r)
  better (some (h', r')) h r = if ltb h h' then some (h, r) else some (h', r')

  -- Once a block is chosen, the loop ends at the first candidate that is later than the stop.
  unfoldable pub past_stop : Chosen → ℤ → BlockNode → Bool
  past_stop none stop node = false
  past_stop (some _) stop node = ltb_ℤ stop (pos (unix node.timestamp))

  -- What the loop has chosen after it has looked at a candidate's node.
  unfoldable pub look_at : List ℕ → ℕ → Chosen → ℕ → BlockNode → Chosen
  look_at selected prev best r node =
      if any (λ q. q == r) selected then best else better best (selection_hash prev node) r

  module _ {S : Type 0} (env : Env S) where
    -- selectBlockFromCandidates; `selected` has the nodes chosen before.
    unfoldable pub select_block : List BlockTimeHash → List ℕ → ℤ → ℕ → Chosen → M S Chosen
    select_block [] selected stop prev best s = (ok best, s)
    select_block (item ∷ items) selected stop prev best s =
        bind (get_block_node env item.hash s) λ r s'. elim (past_stop best stop (s'.heap r)) [
          | true ↦ (ok best, s')
          | false ↦
              select_block items selected stop prev (look_at selected prev best r (s'.heap r)) s'
        ]

module _ {S : Type 0} (env : Env S) where
  -- getLastStakeModifier, on fuel: the modifier and the time of its block.
  unfoldable pub get_last_stake_modifier : ℕ → Option ℕ → M S (ℕ × ℕ)
  get_last_stake_modifier fuel none s = (err panic, s)
  get_last_stake_modifier zero (some r) s = (err divergence, s)
  get_last_stake_modifier (suc fuel) (some r) s =
      let node = s.heap r in
      elim (is_generated_stake_modifier node.meta) [
        | true ↦ (ok (node.meta.stake_modifier, unix node.timestamp), s)
        | false ↦ elim (node.parent_hash == 0) [
          | true ↦ (err failure, s)
          | false ↦ bind (get_prev_node_from_node env r s) (get_last_stake_modifier fuel)
        ]
      ]
