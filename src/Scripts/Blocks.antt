-- ===== src/Scripts/Blocks.antt =====
-- ValidateTransactionScripts and checkBlockScripts (scriptval.go). What they return depends on which
-- goroutine communicates first, so they are relations: the results that a run may give.
use btcchain.Common.{ℕ, ◌≡◌, List, [], ◌∷◌, length, Bool, ltb, some, Result, ok, err}
use btcchain.Wire.{Block, Tx}
use btcchain.TxStore.{TxStore}
use btcchain.Scripts.{
  ValidateItem, ScriptOutcome, Validator, items_from, items_of_block, validate_item, start, Reach,
}
use btcchain.Scripts.Passing.{AllPass, items_of_block-AllPass}
use btcchain.Scripts.Failing.{AnyRefuses, items_of_block-AnyRefuses}
use btcchain.Scripts.Runs.{Justified, validate-Justified}

-- Validate: nil at once for no items, and otherwise what a run returns.
abbrev pub MayValidate :
    (ValidateItem → Result (Unit {0})) → ℕ → List ValidateItem → Result (Unit {0}) → Type 0
MayValidate validate cpus [] result = result ≡ ok tt
MayValidate validate cpus (item ∷ items) result =
    (v : Validator) × Reach validate (length (item ∷ items)) (start cpus (item ∷ items)) v
    × (v.returned ≡ some result)

module _ (run_script : List ℕ → List ℕ → ℕ → Tx → Bool → ScriptOutcome)
    (bip16_activation cpus : ℕ) where
  abbrev pub ValidateTransactionScripts : Tx → TxStore → Bool → Result (Unit {0}) → Type 0
  ValidateTransactionScripts tx store bip16 =
      MayValidate (validate_item run_script store bip16) cpus (items_from 0 tx tx.tx_in)

  -- The check of one item, with the flags of its block.
  abbrev pub check_item : Block → TxStore → ValidateItem → Result (Unit {0})
  check_item block store =
      validate_item run_script store (ltb bip16_activation block.header.timestamp)

  abbrev pub CheckBlockScripts : Block → TxStore → Result (Unit {0}) → Type 0
  CheckBlockScripts block store =
      MayValidate (check_item block store) cpus (items_of_block block.transactions)

may_validate :
    (validate : ValidateItem → Result (Unit {0})) (cpus : ℕ) (items : List ValidateItem)
    (result : Result (Unit {0}))
    → MayValidate validate cpus items result
    → Justified validate items result
may_validate validate cpus [] result e = rw e tt
may_validate validate cpus (item ∷ items) result (v, run, e) =
    validate-Justified validate (item ∷ items) cpus run e

-- What a result says of the transactions of a block, with the transactions that a store has: success,
-- that the script of each input passes; an error, that an input fails with it.
abbrev pub IsJudged :
    (List ℕ → List ℕ → ℕ → Tx → Bool → ScriptOutcome)
    → TxStore
    → Bool
    → List Tx
    → Result (Unit {0})
    → Type 0
IsJudged run_script store bip16 txs (ok _) = AllPass run_script store bip16 txs
IsJudged run_script store bip16 txs (err e) = AnyRefuses run_script store bip16 txs e

judge :
    (run_script : List ℕ → List ℕ → ℕ → Tx → Bool → ScriptOutcome) (store : TxStore) (bip16 : Bool)
    (txs : List Tx) (result : Result (Unit {0}))
    → Justified (validate_item run_script store bip16) (items_of_block txs) result
    → IsJudged run_script store bip16 txs result
judge run_script store bip16 txs (ok tt) all = items_of_block-AllPass run_script store bip16 txs all
judge run_script store bip16 txs (err e) (item, i, at, fails) =
    items_of_block-AnyRefuses run_script store bip16 txs i item e at fails

-- Whatever the goroutines do first, checkBlockScripts succeeds only where each input of each transaction
-- of the block, those with the index 2 ^ 32 - 1 aside, spends an output of a transaction that the store
-- has without an error, and the run of its script with that output's, with the pay-to-script-hash
-- flag just for a block after its activation, passes. It fails only with an error that one of these
-- inputs gives: missing_tx where the store has no such transaction, bad_tx_input where that has no such
-- output, script_malformed and script_validation where the run cannot start or does not pass.
pub CheckBlockScripts-IsJudged :
    (run_script : List ℕ → List ℕ → ℕ → Tx → Bool → ScriptOutcome) (bip16_activation cpus : ℕ)
    (block : Block) (store : TxStore) (result : Result (Unit {0}))
    → CheckBlockScripts run_script bip16_activation cpus block store result
    → IsJudged run_script store
        (ltb bip16_activation block.header.timestamp)
        block.transactions
        result
CheckBlockScripts-IsJudged run_script bip16_activation cpus block store result may =
    judge run_script store (ltb bip16_activation block.header.timestamp) block.transactions result (
      may_validate (check_item run_script bip16_activation cpus block store) cpus
        (items_of_block block.transactions) result may)
