-- ===== src/Chain/Accept.antt =====
-- accept.go: the checks of a block at its place in the chain, and its connection. The operations of
-- kernel.go that it calls are a parameter.
pub mod DryRun
use btcchain.Common.{
  ℕ, zero, suc, ◌+◌, Option, none, some, List, [], ◌∷◌, Bool, true, false, not, ◌==◌, ltb, leb,
  ◌||◌, ◌&&◌, all, if◌then◌else◌, get_elem?, Result, ok, err, Error, rule, failure, panic,
  divergence, or_panic, unexpected_difficulty, time_too_old, unfinalized_tx, bad_checkpoint,
  fork_too_old, block_version_too_old, proof_of_stake_check,
}
use btcchain.Common.Int.{pos, ltb_ℤ, leb_ℤ}
use btcchain.Wire.{Block, Tx}
use btcchain.Validate.{is_finalized_transaction}
use btcchain.Validate.Blocks.{check_serialized_height}
use btcchain.Chain.State.{
  BlockNode, BlockChain, Checkpoint, Env, M, bind, ◌>>=◌, ◌>>◌, pure, ask, unless, require, modify,
  set_node, block_accepted, send_notification,
}
use btcchain.Chain.Nodes.{get_prev_node_from_block, ppc_new_block_node, is_majority_version}
use btcchain.Chain.Retarget.{RetargetParams, ppc_calc_next_required_difficulty}
use btcchain.Chain.PastMedian.{calc_past_median_time}
use btcchain.Chain.Checkpoints.{verify_checkpoint, find_previous_checkpoint}
use btcchain.Chain.Pruning.{prune_block_nodes}
use btcchain.Chain.Connect.{Flags, connect_best_chain}

-- The net's parameters that accept.go and process.go read, and MsgBlock.IsProofOfStake of btcutil.
pub record Net : Type 0 where
  pub checkpoints : List Checkpoint
  pub retarget : RetargetParams
  pub genesis_time : ℕ
  pub is_testnet3 : Bool
  pub v1_reject_num_required : ℕ
  pub v1_reject_num_to_check : ℕ
  pub coinbase_height_num_required : ℕ
  pub coinbase_height_num_to_check : ℕ
  pub block_is_proof_of_stake : Block → Bool

-- kernel.go: both may load nodes; the first one checks a block, and they fill its meta data in.
pub record Kernel (S : Type 0) : Type 0 where
  pub check_block_proof_of_stake : Block → M S Block
  pub add_to_block_index : Block → M S Block

abbrev pub serialized_height_version : ℕ
serialized_height_version = 2

abbrev pub height_after : (ℕ → BlockNode) → Option ℕ → ℕ
height_after heap none = 0
height_after heap (some p) = (heap p).height + 1

-- An error becomes a rule violation; a panic goes on.
unfoldable pub as_rule : Error → Error → Error
as_rule e (rule code) = e
as_rule e failure = e
as_rule e panic = panic
as_rule e divergence = divergence

unfoldable pub or_rule : {S A : Type 0} → Error → M S A → M S A
or_rule e m s = (elim ((m s).0) [ ok a ↦ ok a | err x ↦ err (as_rule e x) ], (m s).1)

module _ {S : Type 0} (env : Env S) (net : Net) (kernel : Kernel S) where
  open net use {
    checkpoints, retarget, genesis_time, is_testnet3, v1_reject_num_required,
    v1_reject_num_to_check, coinbase_height_num_required, coinbase_height_num_to_check,
    block_is_proof_of_stake,
  }
  open kernel use {check_block_proof_of_stake, add_to_block_index}

  -- The checks that BFFastAdd leaves out: the target, the time, and the lock times.
  unfoldable pub check_header : Option ℕ → Block → M S (Unit {0})
  check_header prev block = do
    expected ← ppc_calc_next_required_difficulty env retarget prev (block_is_proof_of_stake block)
    require (block.header.bits == expected) (rule unexpected_difficulty)
    median ← calc_past_median_time env genesis_time prev
    require (ltb median block.header.timestamp) (rule time_too_old)
    require
        (all (λ tx. is_finalized_transaction tx block.height block.header.timestamp)
          block.transactions)
        (rule unfinalized_tx)

  -- BIP0034 for version 1 blocks.
  unfoldable pub check_old_version : Option ℕ → Block → M S (Unit {0})
  check_old_version prev block s = elim (ltb_ℤ block.header.version (pos 2)) [
    | false ↦ (ok tt, s)
    | true ↦
        let (majority, s') =
          is_majority_version env 2 prev v1_reject_num_required v1_reject_num_to_check s in
        require (not majority) (rule block_version_too_old) s'
  ]

  -- BIP0034 for the height in the coinbase.
  unfoldable pub check_coinbase_height : Option ℕ → Block → M S (Unit {0})
  check_coinbase_height prev block s =
      elim (leb_ℤ (pos serialized_height_version) block.header.version) [
        | false ↦ (ok tt, s)
        | true ↦
            let (majority, s') =
              is_majority_version env serialized_height_version prev coinbase_height_num_required
                coinbase_height_num_to_check s in
            elim majority [
              | false ↦ (ok tt, s')
              | true ↦
                  bind (or_panic (get_elem? block.transactions 0), s')
                    λ coinbase_tx s''.
                      (check_serialized_height coinbase_tx (pos (height_after s''.heap prev)), s'')
            ]
      ]

  -- The new node on top of its parent, with the parent's work added.
  unfoldable pub new_node : Option ℕ → Block → M S ℕ
  new_node prev block = do
    r ← ask (λ s. ok s.next)
    modify (λ s. record s { next = s.next + 1 })
    set_node r (λ _. ppc_new_block_node block.header block.sha block.height block.meta)
    on_top prev r
    pure r
    where
      on_top : Option ℕ → ℕ → M S (Unit {0})
      on_top none r s = (ok tt, s)
      on_top (some p) r s =
          set_node r
            (λ n. record n {
              parent = some p;
              height = block.height;
              work_sum = (s.heap p).work_sum + n.work_sum;
            })
            s

  unfoldable pub connect_accepted : Option ℕ → Block → Flags → M S (Unit {0})
  connect_accepted prev block flags = do
    r ← new_node prev block
    connect_best_chain env r block flags
    unless flags.dry_run (send_notification (block_accepted block))

  -- The part after the checks that stand in accept.go.
  unfoldable pub accept_checked : Option ℕ → Block → Flags → M S (Unit {0})
  accept_checked prev block flags = do
    checked ← or_rule (rule proof_of_stake_check) (check_block_proof_of_stake block)
    indexed ← add_to_block_index checked
    unless flags.dry_run (prune_block_nodes env)
    final ← add_to_block_index indexed
    connect_accepted prev final flags

  unfoldable pub maybe_accept_block : Block → Flags → M S (Unit {0})
  maybe_accept_block given flags = do
    prev ← get_prev_node_from_block env given
    height ← ask (λ s. ok (height_after s.heap prev))
    let block = record given { height = height }
    unless flags.fast_add (check_header prev block)
    ask (λ s.
        if verify_checkpoint checkpoints height block.sha s
        then ok tt
        else err (rule bad_checkpoint))
    checkpoint ← find_previous_checkpoint env checkpoints
    require (not (below_checkpoint height checkpoint)) (rule fork_too_old)
    unless (flags.fast_add || is_testnet3) (check_old_version prev block)
    unless (flags.fast_add || is_testnet3) (check_coinbase_height prev block)
    accept_checked prev block flags
    where
      below_checkpoint : ℕ → Option Block → Bool
      below_checkpoint height none = false
      below_checkpoint height (some c) = ltb height c.height
