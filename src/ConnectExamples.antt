-- ===== src/ConnectExamples.antt =====
-- Runs of the connecting checks, the scripts and the proof of stake at concrete inputs: a block on top
-- of the main chain whose second transaction spends an output of the database.
use btcchain.Common.{
  ℕ, zero, suc, ◌+◌, ◌*◌, ◌^◌, ◌≡◌, refl, Bool, true, false, none, some, List, [], ◌∷◌, lookup, any,
  if◌then◌else◌, ◌==◌, length, Result, ok, ◌⊎◌, ◌≤◌,
}
use btcchain.Common.Int.{pos, int64, ◌+ℤ◌, ◌-ℤ◌, ◌*ℤ◌}
use btcchain.Wire.{Block, Tx, max_uint32}
use btcchain.Difficulty.Compact.{compact_to_big, big_to_compact}
use btcchain.Reward.{get_min_fee, proof_of_work_reward, reward_loop, clamp_subsidy, exceeds}
use btcchain.Validate.{is_coin_base, is_null_outpoint}
use btcchain.Validate.Blocks.{count_sig_ops, add_sig_ops}
use btcchain.TxStore.{TxStore}
use btcchain.Inputs.{
  find_origin, check_maturity, add_input, check_input, check_inputs, ppc_check_transaction_input,
  ppc_check_transaction_inputs, fee_of, settle, check_transaction_inputs,
}
use btcchain.Chain.State.{BlockNode, BlockChain, Env, bind}
use btcchain.Chain.Nodes.{get_prev_node_from_node}
use btcchain.Chain.Checkpoints.{latest_checkpoint}
use btcchain.Chain.Connect.{Flags, on_best, extend_best, connect_best_chain}
use btcchain.Chain.Lookup.{
  TxReply, TxDb, given, missing_entry, all_missing, fill_entry, fill_all, fetch_tx_store_main,
  fetch_from, fetch_tx_store, in_flight, want_origin, want_inputs, want_all, merge, fetch_wanted,
  fetch_listed, fetch_input_transactions,
}
use btcchain.Chain.Lookup.Filled.{answered, replies_for, fetch_tx_store_main-lookup}
use btcchain.Scripts.{
  ValidateItem, ScriptOutcome, passed, items_from, items_of_block, validate_item, Reach, start,
  here, next, send, Step, Validator, max_go_routines,
}
use btcchain.Scripts.Runs.{steps, validate_ends}
use btcchain.Scripts.Blocks.{IsJudged, check_item, CheckBlockScripts-IsJudged}
use btcchain.Scripts.Order.{in_order, validate-in_order}
use btcchain.Connecting.{
  ConnectParams, is_bip0030_node, check_overwrite, check_overwrites, check_all_sig_ops,
  check_bip0030, check_all_inputs, check_coinbase_value, runs_scripts, check_with_store,
  check_first, check_fetched, check_overwriting, check_connect_block,
}
use btcchain.Connecting.Reads.{checking_env, check_connect_block-state}
use btcchain.Connecting.Signed.{IsSigned, connect_best_chain-IsSigned}
use btcchain.CheckExamples.{packages, tx_of, pay, spend, first_tx}
use btcchain.ChainExamples.{env, chain, block_of, node_of}

abbrev origin : Tx
origin = tx_of 5 [] (pay 100_000 ∷ pay 50_000 ∷ [])

-- The database has one transaction, with its outputs unspent.
abbrev reply : TxReply
reply = record { sha = 5; answer = given origin (pos 1) (false ∷ false ∷ []) }

abbrev txs : TxDb (Unit {0})
txs = record {
  fetch_tx_by_sha_list = λ db shas. reply ∷ [];
  fetch_un_spent_tx_by_sha_list = λ db shas. reply ∷ [];
}

abbrev coinbase : Tx
coinbase = tx_of 6 (spend 0 max_uint32 ∷ []) (pay 1000 ∷ [])

abbrev new_block : Block
new_block = record (block_of 104 101) { transactions = coinbase ∷ first_tx ∷ [] }

-- Node 4 is new, on top of node 1, the end of the main chain.
abbrev tall : ℕ → BlockNode
tall zero = chain.heap 0
tall (suc zero) = chain.heap 1
tall (suc (suc zero)) = chain.heap 2
tall (suc (suc (suc zero))) = chain.heap 3
tall (suc (suc (suc (suc n)))) = record (node_of 104 (some 1) 101 2 3 false) { bits = 0x1d00_ffff }

abbrev tall_chain : BlockChain (Unit {0})
tall_chain = record chain { heap = tall; next = 5 }

abbrev params : ConnectParams
params = record {
  checkpoints = [];
  pow_limit = pos (2 ^ 224);
  coinbase_maturity = pos 100;
  stake_min_age = 2592000;
  bip16_activation = 1_333_238_400_000_000_000;
}

abbrev run_script : List ℕ → List ℕ → ℕ → Tx → Bool → ScriptOutcome
run_script signature script index tx bip16 = passed

-- A checkBlockScripts that takes one input after the other.
abbrev check_scripts : Block → TxStore → Result (Unit {0})
check_scripts block store =
    in_order (check_item run_script params.bip16_activation 4 block store)
      (items_of_block block.transactions)

abbrev checked_env : Env (Unit {0})
checked_env = checking_env env txs packages params check_scripts

abbrev adding : Flags
adding = record { fast_add = false; dry_run = true }

on_top : on_best checked_env tall_chain 4 ≡ ok true
unfolding on_best get_prev_node_from_node
on_top = refl

connects : (connect_best_chain checked_env 4 new_block adding tall_chain).0 ≡ ok tt
unfolding connect_best_chain on_best get_prev_node_from_node extend_best bind check_connect_block
    check_overwriting is_bip0030_node check_bip0030 fetch_tx_store fetch_from fetch_tx_store_main
    fill_all fill_entry all_missing check_overwrites check_overwrite fetch_input_transactions
    fetch_listed in_flight want_all want_inputs want_origin fetch_wanted merge check_fetched
    check_first check_with_store check_all_sig_ops count_sig_ops add_sig_ops int64 ◌+ℤ◌
    check_all_inputs check_transaction_inputs is_coin_base check_inputs check_input find_origin
    check_maturity add_input ppc_check_transaction_input settle ppc_check_transaction_inputs ◌-ℤ◌
    get_min_fee fee_of check_coinbase_value runs_scripts latest_checkpoint items_of_block items_from
    validate_item is_null_outpoint proof_of_work_reward reward_loop clamp_subsidy exceeds
    compact_to_big ◌*ℤ◌ big_to_compact
connects = refl

runs : runs_scripts env txs packages params tall_chain 2 ≡ true
unfolding runs_scripts latest_checkpoint
runs = refl

connect_best_chain-IsSigned_example :
    (store : TxStore) × (fetch_input_transactions env txs 4 new_block tall_chain
      ≡ (ok store, tall_chain))
    × IsSigned env txs packages params run_script 4 check_scripts new_block store
connect_best_chain-IsSigned_example =
    connect_best_chain-IsSigned env txs packages params run_script 4 check_scripts 4 1 new_block
      adding tall_chain
      (λ store.
        validate-in_order (check_item run_script params.bip16_activation 4 new_block store) 4
          (items_of_block new_block.transactions))
      refl refl on_top refl runs connects

check_connect_block-state_example :
    (check_connect_block env txs packages params check_scripts 4 new_block tall_chain).1
    ≡ tall_chain
check_connect_block-state_example =
    check_connect_block-state env txs 4 1 tall_chain refl packages params check_scripts new_block

fetch_tx_store_main-lookup_example : lookup 5 (fetch_tx_store_main txs tt (7 ∷ 5 ∷ []) false) ≡ (
    if any (λ h. h == 5) (7 ∷ 5 ∷ [])
    then some (answered 5 (replies_for txs tt (7 ∷ 5 ∷ []) false) (missing_entry 5))
    else none)
fetch_tx_store_main-lookup_example = fetch_tx_store_main-lookup txs tt (7 ∷ 5 ∷ []) false 5

abbrev one_store : TxStore
one_store =
    (
      5,
      record {
        tx = some origin;
        hash = 5;
        block_height = pos 1;
        spent = false ∷ false ∷ [];
        error = none;
      },
    )
    ∷ []

CheckBlockScripts-IsJudged_example :
    IsJudged run_script one_store false new_block.transactions (check_scripts new_block one_store)
CheckBlockScripts-IsJudged_example =
    CheckBlockScripts-IsJudged run_script params.bip16_activation 4 new_block one_store
      (check_scripts new_block one_store)
      (validate-in_order (check_item run_script params.bip16_activation 4 new_block one_store) 4
        (items_of_block new_block.transactions))

abbrev item : ValidateItem
item = record { tx_in_index = 0; tx_in = spend 5 0; tx = first_tx }

abbrev check : ValidateItem → Result (Unit {0})
check = check_item run_script params.bip16_activation 4 new_block []

-- The only item is sent to the only handler.
abbrev sent : Validator
sent = record { unsent = []; held = item ∷ []; idle = 0; processed_items = 0; returned = none }

send_item : Reach check 1 (start 4 (item ∷ [])) sent
unfolding start max_go_routines
send_item = next here (send item [] [] 0 0)

validate_ends_example :
    (((r : Result (Unit {0})) × (sent.returned ≡ some r)) ⊎ ((w : Validator) × Step check 1 sent w))
    × (steps check (item ∷ []) send_item ≤ 2 * length (item ∷ []) + 1)
validate_ends_example = validate_ends check (item ∷ []) 4 send_item
