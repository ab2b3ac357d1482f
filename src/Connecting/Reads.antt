-- ===== src/Connecting/Reads.antt =====
-- checkConnectBlock and CalcMintAndMoneySupply as operations of the environment of chain.go.
use btcchain.Common.{
  ℕ, ◌≡◌, refl, ◌∙◌, sym, ap, subst, Option, some, List, [], ◌∷◌, Bool, true, false, Bool-cases,
  inl, inr, Result, ok,
}
use btcchain.Wire.{Block, Tx}
use btcchain.Validate.{Packages}
use btcchain.TxStore.{TxStore}
use btcchain.CoinAge.{calc_mint_and_money_supply}
use btcchain.Chain.State.{BlockChain, Env, bind_all, bind_step, bind_then}
use btcchain.Chain.Nodes.{get_prev_node_from_node}
use btcchain.Chain.Retarget.Walks.{get_prev_of_parent}
use btcchain.Chain.Connect.{Flags, on_best, extend_best, connect_best_chain}
use btcchain.Chain.Lookup.{
  TxDb, Wanted, at_end, fetch_from, fetch_tx_store, fetch_wanted, fetch_listed,
  fetch_input_transactions,
}
use btcchain.Connecting.{
  ConnectParams, is_bip0030_node, check_bip0030, check_first, check_fetched, check_overwriting,
  is_first, check_connect_block,
}
use btcchain.Connecting.Accepted.{IsConnectable, check_connect_block-IsConnectable}

module _ {S : Type 0} (env : Env S) (txs : TxDb S) where
  fetch_from-state :
      (tx_set : List ℕ) (prev : Option ℕ) (s : BlockChain S)
      → (fetch_from env txs tx_set prev s).1 ≡ s
  unfolding fetch_from
  fetch_from-state tx_set prev s = elim (Bool-cases (at_end s prev)) [
    | inl e ↦ rw (e, fetch_from) refl
    | inr e ↦ rw (e, fetch_from) refl
  ]

  module _ (r p : ℕ) (s : BlockChain S) (up : (s.heap r).parent ≡ some p) where
    abbrev Same : BlockChain S → Type 0
    Same t = t ≡ s

    fetch_tx_store-state : (tx_set : List ℕ) → (fetch_tx_store env txs r tx_set s).1 ≡ s
    unfolding fetch_tx_store
    fetch_tx_store-state tx_set =
        ap (λ x. x.1) (bind_step (fetch_from env txs tx_set) (get_prev_of_parent env r p s up) refl)
        ∙ fetch_from-state tx_set (some p) s

    fetch_wanted-state : (w : Wanted) → (fetch_wanted env txs r w s).1 ≡ s
    unfolding fetch_wanted
    fetch_wanted-state w = bind_all Same _ _ (fetch_tx_store-state w.needed) λ _ k. k

    fetch_listed-state : (list : List Tx) → (fetch_listed env txs r list s).1 ≡ s
    unfolding fetch_listed
    fetch_listed-state [] = refl
    fetch_listed-state (coinbase ∷ later) = fetch_wanted-state _

    pub fetch_input_transactions-state :
        (block : Block) → (fetch_input_transactions env txs r block s).1 ≡ s
    unfolding fetch_input_transactions
    fetch_input_transactions-state block = fetch_listed-state block.transactions

    -- With the parent in memory, CalcMintAndMoneySupply leaves the state as it is.
    pub calc_mint_and_money_supply-state :
        (is_coin_stake : Tx → Bool) (block : Block)
        → (calc_mint_and_money_supply is_coin_stake env txs r block s).1 ≡ s
    unfolding calc_mint_and_money_supply
    calc_mint_and_money_supply-state is_coin_stake block =
        bind_all Same _ _ (fetch_input_transactions-state block) λ store k.
          bind_all Same _ _ k λ flow k.
            bind_all Same _ _
              (subst (λ t. (get_prev_node_from_node env r t).1 ≡ s) (sym k)
                (ap (λ x. x.1) (get_prev_of_parent env r p s up)))
              λ prev k. k

    module _ (packages : Packages) (params : ConnectParams)
        (check_block_scripts : Block → TxStore → Result (Unit {0})) where
      check_bip0030-state :
          (block : Block) → (check_bip0030 env txs packages params r block s).1 ≡ s
      unfolding check_bip0030
      check_bip0030-state block = bind_all Same _ _ (fetch_tx_store-state _) λ _ k. k

      pub check_overwriting-state :
          (block : Block)
          → (check_overwriting env txs packages params check_block_scripts r block s).1 ≡ s
      unfolding check_overwriting
      check_overwriting-state block = elim (Bool-cases (is_bip0030_node (s.heap r))) [
        | inl e ↦ rw (e, check_overwriting) refl
        | inr e ↦ rw (e, check_overwriting) (check_bip0030-state block)
      ]

      check_first-state :
          (block : Block) (store : TxStore) (list : List Tx) (t : BlockChain S)
          → (check_first env txs packages params check_block_scripts r block store list t).1 ≡ t
      unfolding check_first
      check_first-state block store [] t = refl
      check_first-state block store (coinbase ∷ later) t = refl

      -- With the parent in memory, checkConnectBlock leaves the state as it is, whatever its result.
      pub check_connect_block-state :
          (block : Block)
          → (check_connect_block env txs packages params check_block_scripts r block s).1 ≡ s
      unfolding check_connect_block check_fetched
      check_connect_block-state block =
          elim (Bool-cases (is_first env txs packages params check_block_scripts s r)) [
            | inl e ↦ rw (e, check_connect_block) refl
            | inr e ↦
                rw (e, check_connect_block)
                  (bind_all Same _ _ (check_overwriting-state block) λ _ k.
                    bind_all Same _ _
                      (subst (λ t. (fetch_input_transactions env txs r block t).1 ≡ s) (sym k)
                        (fetch_input_transactions-state block))
                      λ store k. check_first-state block store block.transactions _ ∙ k)
          ]

-- The environment with the code's own check and mint calculation, whose results chain.go reads.
module _ {S : Type 0} (env : Env S) (txs : TxDb S) (packages : Packages) (params : ConnectParams)
    (check_block_scripts : Block → TxStore → Result (Unit {0})) where
  abbrev pub checking_env : Env S
  checking_env = record env {
    check_connect_block =
        λ s r block. (check_connect_block env txs packages params check_block_scripts r block s).0;
    calc_mint_and_money_supply =
        λ s r block. (calc_mint_and_money_supply packages.is_coin_stake env txs r block s).0;
  }

  extend_best-checks :
      (r : ℕ) (block : Block) (flags : Flags) (s : BlockChain S)
      → flags.fast_add ≡ false
      → (extend_best checking_env r block flags s).0 ≡ ok tt
      → (check_connect_block env txs packages params check_block_scripts r block s).0 ≡ ok tt
  unfolding extend_best
  extend_best-checks r block flags s slow =
      rw (slow, extend_best)
        (bind_then
          {P = (check_connect_block env txs packages params check_block_scripts r block s).0
            ≡ ok tt}
          _ _ λ u _ e _. ap (λ x. x.0) e)

  pub connect_best_chain-IsConnectable :
      (r b : ℕ) (block : Block) (flags : Flags) (s : BlockChain S)
      → s.best_chain ≡ some b
      → on_best checking_env s r ≡ ok true
      → flags.fast_add ≡ false
      → (connect_best_chain checking_env r block flags s).0 ≡ ok tt
      → (store : TxStore) × (s' t : BlockChain S) × (check_overwriting env txs packages params
            check_block_scripts r block s
          ≡ (ok tt, s'))
        × (fetch_input_transactions env txs r block s' ≡ (ok store, t))
        × IsConnectable env txs packages params check_block_scripts r block store t
  unfolding connect_best_chain
  connect_best_chain-IsConnectable r b block flags s best on_top slow h =
      check_connect_block-IsConnectable env txs packages params check_block_scripts r block s
        (rw best refl)
        (extend_best-checks r block flags s slow (rw (on_top, connect_best_chain) at h))
