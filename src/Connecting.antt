-- ===== src/Connecting.antt =====
-- The checks of a block at the place where it is connected (validate.go): checkBIP0030,
-- checkConnectBlock and CheckConnectBlock.
pub mod Reads
pub mod Origins
pub mod Signed
pub mod Spends
pub mod Accepted
use btcchain.Common.{
  ℕ, zero, suc, ◌+◌, Option, none, some, List, [], ◌∷◌, map, Bool, true, false, not, ◌&&◌, ◌||◌,
  ◌==◌, ltb, leb, if◌then◌else◌, Result, ok, err, Error, rule, failure, panic, divergence, ◌>>=◌,
  ◌>>◌, reject_if, overwrite_tx, too_many_sig_ops, bad_fees, bad_coinbase_value,
}
use btcchain.Common.Int.{ℤ, pos, int64, ◌+ℤ◌, ltb_ℤ}
use btcchain.Wire.{Block, Tx}
use btcchain.Reward.{proof_of_work_reward}
use btcchain.Validate.{Packages}
use btcchain.Validate.Blocks.{max_sig_ops_per_block, count_sig_ops}
use btcchain.TxStore.{tx_sha_missing, other_store_error, TxData, TxStore, is_transaction_spent}
use btcchain.Inputs.{sum_out, check_transaction_inputs, count_p2sh_sig_ops}
use btcchain.CoinAge.{get_coin_age_tx}
use btcchain.Chain.State.{BlockNode, BlockChain, Checkpoint, Env, M, bind}
use btcchain.Chain.Nodes.{is_proof_of_stake, ppc_new_block_node}
use btcchain.Chain.Checkpoints.{latest_checkpoint}
use btcchain.Chain.Lookup.{TxDb, set_of, fetch_tx_store, fetch_input_transactions}

-- The fields of btcnet.Params that are read here, and btcscript.Bip16Activation.
pub record ConnectParams : Type 0 where
  pub checkpoints : List Checkpoint
  pub pow_limit : ℤ
  pub coinbase_maturity : ℤ
  pub stake_min_age : ℕ
  pub bip16_activation : ℕ

abbrev pub block91842_hash : ℕ
block91842_hash = 0x00000000000a4d0a398161ffc163c503763b1f4360639393e0e4c8e300e0caec

abbrev pub block91880_hash : ℕ
block91880_hash = 0x00000000000743f190a18c5577a3c2d2a1f610ae9601ac046a38084ccb7cd721

unfoldable pub is_bip0030_node : BlockNode → Bool
is_bip0030_node node =
    ((node.height == 91842) && (node.hash == block91842_hash))
    || ((node.height == 91880) && (node.hash == block91880_hash))

-- DisableVerify
unfoldable pub disable_verify : {S : Type 0} → Bool → BlockChain S → BlockChain S
disable_verify disable s = record s { no_verify = disable }

-- The switch on the entry's error.
unfoldable pub check_overwrite : TxData → Result (Unit {0})
check_overwrite entry = elim entry.error [
  | none ↦ reject_if (not (is_transaction_spent entry)) overwrite_tx
  | some e ↦ elim e [ tx_sha_missing ↦ ok tt | other_store_error ↦ err failure ]
]

unfoldable pub check_overwrites : TxStore → Result (Unit {0})
check_overwrites [] = ok tt
check_overwrites ((hash, entry) ∷ more) = check_overwrite entry >> check_overwrites more

module _ (packages : Packages) where
  -- The loop that counts signature operations, from the total so far; `first` is i == 0.
  unfoldable pub check_all_sig_ops : Bool → TxStore → Bool → ℤ → List Tx → Result (Unit {0})
  check_all_sig_ops bip16 store first total [] = ok tt
  check_all_sig_ops bip16 store first total (tx ∷ txs) =
      (if bip16
        then count_p2sh_sig_ops packages (pos 0) (λ _ _. err failure) tx first store
        else ok (pos 0))
      >>= λ p2sh.
          let sum = int64 (total +ℤ int64 (count_sig_ops packages tx +ℤ p2sh)) in
          reject_if (ltb_ℤ sum total || ltb_ℤ (pos (max_sig_ops_per_block packages)) sum)
            too_many_sig_ops
          >> check_all_sig_ops bip16 store false sum txs

module _ {S : Type 0} (env : Env S) (txs : TxDb S) (packages : Packages)
    (params : ConnectParams) where
  open params use {checkpoints, pow_limit, coinbase_maturity, stake_min_age, bip16_activation}

  unfoldable pub check_bip0030 : ℕ → Block → M S (Unit {0})
  check_bip0030 r block s =
      bind (fetch_tx_store env txs r (set_of (map (λ tx. tx.sha) block.transactions)) s)
        λ store s'. (check_overwrites store, s')

  -- CheckTransactionInputs for each transaction, with the fees so far; a store is marked as it goes.
  unfoldable pub check_all_inputs : S → ℕ → TxStore → ℤ → List Tx → Result (ℤ × TxStore)
  check_all_inputs db height store fees [] = ok (fees, store)
  check_all_inputs db height store fees (tx ∷ later) =
      check_transaction_inputs packages coinbase_maturity (get_coin_age_tx env stake_min_age db) tx
        (pos height) store
      >>= λ (fee, next).
          let sum = int64 (fees +ℤ fee) in
          reject_if (ltb_ℤ sum fees) bad_fees >> check_all_inputs db height next sum later

  -- The coinbase of a proof-of-work block pays no more than the reward.
  unfoldable pub check_coinbase_value : BlockNode → Tx → Result (Unit {0})
  check_coinbase_value node coinbase =
      if is_proof_of_stake node.meta
      then ok tt
      else elim (proof_of_work_reward node.bits pow_limit) [
        | none ↦ err divergence
        | some reward ↦
            reject_if (ltb_ℤ (pos reward) (sum_out (pos 0) coinbase.tx_out)) bad_coinbase_value
      ]

  -- `!b.noVerify`, and the node is not before the last checkpoint.
  unfoldable pub runs_scripts : BlockChain S → ℕ → Bool
  runs_scripts s height =
      not s.no_verify
      && not
          (elim (latest_checkpoint checkpoints s) [ none ↦ false | some c ↦ leb height c.height ])

  module _ (check_block_scripts : Block → TxStore → Result (Unit {0})) where
    -- The checks that follow once the store is there, on a block with a first transaction.
    unfoldable pub check_with_store : ℕ → Block → Tx → TxStore → BlockChain S → Result (Unit {0})
    check_with_store r block coinbase store s =
        let node = s.heap r in
        check_all_sig_ops packages (ltb bip16_activation node.timestamp) store true (pos 0)
          block.transactions
        >> (check_all_inputs s.db node.height store (pos 0) block.transactions >>= λ (fees, marked).
            check_coinbase_value node coinbase
            >> (if runs_scripts s node.height then check_block_scripts block marked else ok tt))

    -- `transactions[0]` is read for a proof-of-work block.
    unfoldable pub check_first : ℕ → Block → TxStore → List Tx → M S (Unit {0})
    check_first r block store [] s = (err panic, s)
    check_first r block store (coinbase ∷ later) s = (check_with_store r block coinbase store s, s)

    unfoldable pub check_fetched : ℕ → Block → TxStore → M S (Unit {0})
    check_fetched r block store s = check_first r block store block.transactions s

    unfoldable pub check_overwriting : ℕ → Block → M S (Unit {0})
    check_overwriting r block s = elim (is_bip0030_node (s.heap r)) [
      | true ↦ (ok tt, s)
      | false ↦ check_bip0030 r block s
    ]

    abbrev pub is_first : BlockChain S → ℕ → Bool
    is_first s r = elim s.best_chain [ none ↦ (s.heap r).hash == env.genesis_hash | some _ ↦ false ]

    unfoldable pub check_connect_block : ℕ → Block → M S (Unit {0})
    check_connect_block r block s = elim (is_first s r) [
      | true ↦ (ok tt, s)
      | false ↦
          bind (check_overwriting r block s)
            λ _ s'. bind (fetch_input_transactions env txs r block s') (check_fetched r block)
    ]

    -- CheckConnectBlock: the check for a new node on top of the main chain, which the index does not
    -- hold.
    unfoldable pub check_on_top : Block → M S (Unit {0})
    check_on_top block s =
        let node = ppc_new_block_node block.header block.sha block.height block.meta in
        let on_top : BlockNode = elim s.best_chain [
          | none ↦ node
          | some b ↦ record node { parent = some b; work_sum = (s.heap b).work_sum + node.work_sum }
        ] in
        let heap = λ (q : ℕ). if q == s.next then on_top else s.heap q in
        check_connect_block s.next block (record s { heap = heap; next = s.next + 1 })
