-- ===== src/Connecting/Accepted.antt =====
-- What a block that passes checkConnectBlock spends (validate.go).
use btcchain.Common.{
  ℕ, ◌≡◌, refl, ap, inl, inr, some, Option-cases, List, [], ◌∷◌, All, get_elem?, true, false,
  Bool-cases, if◌then◌else◌, Result, ok, >>=-ok_then, ◌⊎◌, ltb, reject_if_iff, bad_coinbase_value,
}
use btcchain.Common.Int.{ℤ, pos, ◌≤ℤ◌, ltb_ℤ_iff}
use btcchain.Wire.{Block, Tx}
use btcchain.Reward.{proof_of_work_reward}
use btcchain.Validate.{Packages}
use btcchain.TxStore.{TxStore}
use btcchain.TxStore.Marks.{IsSpent}
use btcchain.Inputs.{sum_out}
use btcchain.Chain.State.{BlockNode, BlockChain, Env, bind_then}
use btcchain.Chain.Nodes.{is_proof_of_stake}
use btcchain.Chain.Lookup.{TxDb, fetch_input_transactions}
use btcchain.Connecting.Spends.{Distinct, all_spends, check_all_inputs-Distinct}
use btcchain.Connecting.{
  ConnectParams, check_all_sig_ops, check_all_inputs, check_coinbase_value, runs_scripts,
  check_with_store, check_first, check_fetched, check_overwriting, is_first, check_connect_block,
}

module _ {S : Type 0} (env : Env S) (txs : TxDb S) (packages : Packages)
    (params : ConnectParams) where
  -- A proof-of-stake block, or a coinbase that pays at most the reward.
  abbrev pub PaysAtMost : BlockNode → Tx → Type 0
  PaysAtMost node coinbase =
      (is_proof_of_stake node.meta ≡ true)
      ⊎ ((reward : ℕ) × (proof_of_work_reward node.bits params.pow_limit ≡ some reward)
          × (sum_out (pos 0) coinbase.tx_out ≤ℤ pos reward))

  check_coinbase_value-PaysAtMost :
      (node : BlockNode) (coinbase : Tx)
      → check_coinbase_value env txs packages params node coinbase ≡ ok tt
      → PaysAtMost node coinbase
  unfolding check_coinbase_value
  check_coinbase_value-PaysAtMost node coinbase = elim (Bool-cases (is_proof_of_stake node.meta)) [
    | inl e ↦ λ _. inl e
    | inr e ↦ elim (Option-cases (proof_of_work_reward node.bits params.pow_limit)) [
      | inl f ↦ rw (e, f, check_coinbase_value) (λ h. absurd (cc))
      | inr (reward, f) ↦
          rw (e, f, check_coinbase_value)
            (λ h. inr (
              reward,
              refl,
              (ltb_ℤ_iff (pos reward) (sum_out (pos 0) coinbase.tx_out)).0
                  ((reject_if_iff _ bad_coinbase_value).0 h),
            ))
    ]
  ]

  module _ (check_block_scripts : Block → TxStore → Result (Unit {0})) where
    -- The scripts are not run, or they pass with the store as the checks of the inputs leave it, which
    -- start from the given one.
    abbrev pub HasScripts : BlockChain S → ℕ → Block → TxStore → Type 0
    HasScripts s height block store =
        (runs_scripts env txs packages params s height ≡ false)
        ⊎ ((fees : ℤ) × (marked : TxStore) × (check_all_inputs env txs packages params s.db height
                store (pos 0) block.transactions
              ≡ ok (fees, marked))
            × (check_block_scripts block marked ≡ ok tt))

    run_scripts-HasScripts :
        (s : BlockChain S) (height : ℕ) (block : Block) (store : TxStore) (fees : ℤ)
        (marked : TxStore)
        → check_all_inputs env txs packages params s.db height store (pos 0) block.transactions
          ≡ ok (fees, marked)
        → (if runs_scripts env txs packages params s height
            then check_block_scripts block marked
            else ok tt)
          ≡ ok tt
        → HasScripts s height block store
    run_scripts-HasScripts s height block store fees marked inputs =
        elim (Bool-cases (runs_scripts env txs packages params s height)) [
          | inl e ↦ rw e (λ h. inr (fees, marked, inputs, h))
          | inr e ↦ λ _. inl e
        ]

    check_with_store-Distinct :
        (r : ℕ) (block : Block) (coinbase : Tx) (store : TxStore) (s : BlockChain S)
        → check_with_store env txs packages params check_block_scripts r block coinbase store s
          ≡ ok tt
        → Distinct (all_spends block.transactions)
          × All (λ p. ¬ IsSpent p store) (all_spends block.transactions)
          × PaysAtMost (s.heap r) coinbase
          × HasScripts s (s.heap r).height block store
    unfolding check_with_store
    check_with_store-Distinct r block coinbase store s =
        >>=-ok_then
          (check_all_sig_ops packages (ltb params.bip16_activation (s.heap r).timestamp) store true
            (pos 0) block.transactions)
          _
          λ _ _.
            >>=-ok_then
              (check_all_inputs env txs packages params s.db (s.heap r).height store (pos 0)
                block.transactions)
              _
              λ (fees, marked) inputs.
                >>=-ok_then (check_coinbase_value env txs packages params (s.heap r) coinbase) _
                  λ _ pays scripts.
                    let (distinct, fresh) =
                      check_all_inputs-Distinct env txs packages params s.db (s.heap r).height
                        block.transactions store (pos 0) (fees, marked) inputs in
                    (
                      distinct,
                      fresh,
                      check_coinbase_value-PaysAtMost (s.heap r) coinbase pays,
                      run_scripts-HasScripts s (s.heap r).height block store fees marked inputs
                          scripts,
                    )

    -- What is known of an accepted block: its fetched store, and its first transaction.
    abbrev pub IsConnectable : ℕ → Block → TxStore → BlockChain S → Type 0
    IsConnectable r block store s =
        Distinct (all_spends block.transactions)
        × All (λ p. ¬ IsSpent p store) (all_spends block.transactions)
        × ((coinbase : Tx) × (get_elem? block.transactions 0 ≡ some coinbase)
            × PaysAtMost (s.heap r) coinbase)
        × HasScripts s (s.heap r).height block store

    check_first-IsConnectable :
        (r : ℕ) (block : Block) (store : TxStore) (list : List Tx) (s : BlockChain S)
        → block.transactions ≡ list
        → (check_first env txs packages params check_block_scripts r block store list s).0 ≡ ok tt
        → IsConnectable r block store s
    unfolding check_first
    check_first-IsConnectable r block store [] s e h = absurd (cc)
    check_first-IsConnectable r block store (coinbase ∷ later) s e h =
        let (distinct, fresh, pays, scripts) =
          check_with_store-Distinct r block coinbase store s h in
        (distinct, fresh, (coinbase, ap (λ l. get_elem? l 0) e, pays), scripts)

    -- A block that passes checkConnectBlock, other than the first one, spends no output twice, and none
    -- that is spent from its point of view (in the store that is fetched for it); its first transaction
    -- pays at most the reward, unless the node is marked as proof of stake; and, where scripts are run,
    -- checkBlockScripts has passed with that store as CheckTransactionInputs leaves it.
    pub check_connect_block-IsConnectable :
        (r : ℕ) (block : Block) (s : BlockChain S)
        → is_first env txs packages params check_block_scripts s r ≡ false
        → (check_connect_block env txs packages params check_block_scripts r block s).0 ≡ ok tt
        → (store : TxStore) × (s' t : BlockChain S) × (check_overwriting env txs packages params
              check_block_scripts r block s
            ≡ (ok tt, s'))
          × (fetch_input_transactions env txs r block s' ≡ (ok store, t))
          × IsConnectable r block store t
    unfolding check_connect_block check_fetched
    check_connect_block-IsConnectable r block s other =
        rw (other, check_connect_block)
          (bind_then (check_overwriting env txs packages params check_block_scripts r block s) _
            λ _ s' passed.
              bind_then (fetch_input_transactions env txs r block s') _ λ store t fetched h. (
                store,
                s',
                t,
                passed,
                fetched,
                check_first-IsConnectable r block store block.transactions t refl h,
              ))
