-- ===== src/Connecting/Signed.antt =====
-- The scripts of a block that is connected (validate.go and scriptval.go together).
use btcchain.Common.{
  ℕ, ◌≡◌, sym, ◌∙◌, ap, subst, inl, inr, some, List, Bool, true, false, Result, ok,
}
use btcchain.Wire.{Block, Tx}
use btcchain.Validate.{Packages}
use btcchain.TxStore.{TxStore}
use btcchain.Scripts.{ScriptOutcome}
use btcchain.Scripts.Passing.{AllPass}
use btcchain.Common.{ltb}
use btcchain.Common.Int.{pos}
use btcchain.Connecting.Origins.{check_all_inputs-IsOrigin, AllPass-known}
use btcchain.Scripts.Blocks.{CheckBlockScripts, CheckBlockScripts-IsJudged}
use btcchain.Chain.State.{BlockChain, Env}
use btcchain.Chain.Lookup.{TxDb, fetch_input_transactions}
use btcchain.Chain.Connect.{Flags, on_best, connect_best_chain}
use btcchain.Connecting.{ConnectParams, runs_scripts}
use btcchain.Connecting.Accepted.{HasScripts}
use btcchain.Connecting.Reads.{
  check_overwriting-state, fetch_input_transactions-state, checking_env,
  connect_best_chain-IsConnectable,
}

module _ {S : Type 0} (env : Env S) (txs : TxDb S) (packages : Packages) (params : ConnectParams)
    (run_script : List ℕ → List ℕ → ℕ → Tx → Bool → ScriptOutcome) (cpus : ℕ)
    (check_block_scripts : Block → TxStore → Result (Unit {0})) where
  -- Every script of the block passes with the transactions of the store.
  abbrev pub IsSigned : Block → TxStore → Type 0
  IsSigned block store =
      AllPass run_script store (ltb params.bip16_activation block.header.timestamp)
        block.transactions

  scripts-IsSigned :
      (s : BlockChain S) (height : ℕ) (block : Block) (store : TxStore)
      → ((store : TxStore)
          → CheckBlockScripts run_script params.bip16_activation cpus block store
              (check_block_scripts block store))
      → runs_scripts env txs packages params s height ≡ true
      → HasScripts env txs packages params check_block_scripts s height block store
      → IsSigned block store
  scripts-IsSigned s height block store outcome runs (inl e) = absurd (cc)
  scripts-IsSigned s height block store outcome runs (inr (fees, marked, inputs, passed)) =
      let bip16 = ltb params.bip16_activation block.header.timestamp in
      AllPass-known run_script store marked bip16
        (λ hash origin.
          check_all_inputs-IsOrigin env txs packages params s.db height block.transactions store
            (pos 0) (fees, marked) hash origin inputs)
        block.transactions
        (CheckBlockScripts-IsJudged run_script params.bip16_activation cpus block marked (ok tt) (
          subst (CheckBlockScripts run_script params.bip16_activation cpus block marked) passed
            (outcome marked)))

  -- Where checkBlockScripts gives what a run of its goroutines may give, and the scripts are run, a
  -- block that connectBestChain puts on top of the main chain, checks included, has in the store that
  -- is fetched for it the output that each input spends, those with the index 2 ^ 32 - 1 aside, and the
  -- run of the input's script with that output's passes.
  pub connect_best_chain-IsSigned :
      (r b : ℕ) (block : Block) (flags : Flags) (s : BlockChain S)
      → ((store : TxStore)
          → CheckBlockScripts run_script params.bip16_activation cpus block store
              (check_block_scripts block store))
      → s.best_chain ≡ some b
      → (s.heap r).parent ≡ some b
      → on_best (checking_env env txs packages params check_block_scripts) s r ≡ ok true
      → flags.fast_add ≡ false
      → runs_scripts env txs packages params s (s.heap r).height ≡ true
      → (connect_best_chain
          (checking_env env txs packages params check_block_scripts)
          r
          block
          flags
          s).0
        ≡ ok tt
      → (store : TxStore) × (fetch_input_transactions env txs r block s ≡ (ok store, s))
        × IsSigned block store
  connect_best_chain-IsSigned r b block flags s outcome best up on_top slow runs h =
      let (store, s', t, passed, fetched, (_, _, _, scripts)) =
        connect_best_chain-IsConnectable env txs packages params check_block_scripts r b block flags
          s best on_top slow h in
      let overwriting : s' ≡ s =
        sym (ap (λ x. x.1) passed)
        ∙ check_overwriting-state env txs r b s up packages params check_block_scripts block in
      let same : t ≡ s =
        sym (ap (λ x. x.1) fetched)
        ∙ ap (λ q. (fetch_input_transactions env txs r block q).1) overwriting
        ∙ fetch_input_transactions-state env txs r b s up block in
      (
        store,
        ap (fetch_input_transactions env txs r block) (sym overwriting)
            ∙ fetched
            ∙ ap (λ q. (ok store, q)) same,
        scripts-IsSigned s (s.heap r).height block store outcome runs (
            subst
              (λ q.
                HasScripts env txs packages params check_block_scripts q (q.heap r).height block
                  store)
              same scripts),
      )
