-- ===== src/CheckExamples.antt =====
-- Runs of the theorems on transactions and blocks at concrete inputs.
use btcchain.Common.{
  lookup, Bool-cases, inl, inr, subst, some_inj, ==_iff, ◌==◌, ℕ, ◌+◌, ◌^◌, ◌≤◌, ◌≡◌, ◌≢◌, ◌↔◌,
  refl, arith, Bool, true, false, none, some, List, [], ◌∷◌, length, All, Result, ok, err, failure,
  panic,
}
use btcchain.Common.Int.{pos, ◌+ℤ◌, ◌-ℤ◌, int64}
use btcchain.Wire.{TxIn, TxOut, Tx, Block}
use btcchain.Validate.{
  Packages, is_coin_base, check_out_values, check_duplicate_inputs, check_previous_outputs,
  is_null_outpoint, ppc_check_transaction_sanity, ppc_check_outputs, check_transaction_sanity,
}
use btcchain.Validate.Amounts.{InRange, sum_values, check_out_values_iff}
use btcchain.Validate.Sanity.{IsSane, check_transaction_sanity_iff}
use btcchain.Validate.Blocks.{check_proof_of_work, check_block_sanity}
use btcchain.Validate.Blocks.Accepted.{
  HasWork, check_proof_of_work_iff, IsSaneBlock, check_block_sanity_iff,
}
use btcchain.Reward.{get_min_fee}
use btcchain.TxStore.{
  tx_sha_missing, TxData, TxStore, mark_output, spend_inputs, unspend_inputs, connect_transactions,
  disconnect_transactions,
}
use btcchain.TxStore.Restored.{IsReady, own, unspent}
use btcchain.TxStore.Returns.{disconnect_transactions-restores}
use btcchain.TxStore.Marks.{IsSpent, mark_output-panics}
use btcchain.Inputs.{
  find_origin, check_maturity, add_input, check_input, check_inputs, ppc_check_transaction_input,
  ppc_check_transaction_inputs, fee_of, settle, check_transaction_inputs,
}
use btcchain.Inputs.Spending.{check_transaction_inputs-marks, check_transaction_inputs-apart}
use btcchain.Inputs.Fees.{sum_inputs, check_transaction_inputs-fee}

abbrev pub packages : Packages
packages = record {
  max_block_payload = 1_000_000;
  max_satoshi = 2_000_000_000_000_000;
  is_coin_stake = λ tx. false;
  msg_block_is_proof_of_stake = λ block. false;
  is_empty = λ out. false;
  block_is_proof_of_stake = λ block. false;
  get_sig_op_count = length;
  is_pay_to_script_hash = λ script. false;
  get_precise_sig_op_count = λ script pk_script. length script;
  extract_pk_script_addrs = λ script. ok (true, some script ∷ []);
  parse_signature = λ signature. ok signature;
  verify = λ signature hash key. true;
}

abbrev pub spend : ℕ → ℕ → TxIn
spend hash index = record {
  previous_out_point = record { hash = hash; index = index };
  signature_script = [];
  sequence = 0;
}

abbrev pub pay : ℕ → TxOut
pay n = record { value = pos n; pk_script = [] }

abbrev pub tx_of : ℕ → List TxIn → List TxOut → Tx
tx_of sha ins outs = record {
  sha = sha;
  time = 0;
  tx_in = ins;
  tx_out = outs;
  lock_time = 0;
  size = 200;
}

abbrev pub first_tx : Tx
first_tx = tx_of 7 (spend 5 0 ∷ []) (pay 80_000 ∷ [])

abbrev pub second_tx : Tx
second_tx = tx_of 8 (spend 5 1 ∷ []) (pay 30_000 ∷ [])

-- Transaction 5 with two outputs of which none is spent.
abbrev origin_entry : List Bool → TxData
origin_entry spent = record {
  tx = some (tx_of 5 [] (pay 100_000 ∷ pay 50_000 ∷ []));
  hash = 5;
  block_height = pos 10;
  spent = spent;
  error = none;
}

abbrev store : TxStore
store = (5, origin_entry (false ∷ false ∷ [])) ∷ []

abbrev store_first : TxStore
store_first = (5, origin_entry (true ∷ false ∷ [])) ∷ []

abbrev store_both : TxStore
store_both = (5, origin_entry (true ∷ true ∷ [])) ∷ []

abbrev no_age : Tx → TxStore → Result ℕ
no_age tx s = err failure

check_out_values_iff_example :
    (check_out_values 1000 (pos 400) (pay 600 ∷ []) ≡ ok tt)
    ↔ (All (λ o. InRange 1000 o.value) (pay 600 ∷ []) × (400 + sum_values (pay 600 ∷ []) ≤ 1000))
check_out_values_iff_example =
    check_out_values_iff 1000 (omega arith) 400 (pay 600 ∷ []) (omega arith)

check_transaction_sanity_iff_example :
    (check_transaction_sanity packages first_tx ≡ ok tt) ↔ IsSane packages first_tx
check_transaction_sanity_iff_example = check_transaction_sanity_iff packages first_tx (omega arith)

abbrev block : Block
block = record {
  sha = 3;
  header = record {
    version = pos 1;
    prev_block = 0;
    merkle_root = 7;
    timestamp = 0;
    bits = 0x1d00_ffff;
  };
  transactions = first_tx ∷ [];
  signature = [];
  size = 300;
  height = 1;
  meta = record {
    flags = 0;
    chain_trust = 0;
    mint = pos 0;
    money_supply = pos 0;
    stake_modifier = 0;
    hash_proof_of_stake = 0;
    stake_modifier_checksum = 0;
  };
}

check_proof_of_work_iff_example :
    (check_proof_of_work block (pos (2 ^ 224)) false ≡ ok tt) ↔ HasWork block (pos (2 ^ 224)) false
check_proof_of_work_iff_example = check_proof_of_work_iff block (pos (2 ^ 224)) false

check_block_sanity_iff_example :
    (check_block_sanity packages ◌+◌ false 0 (pos (2 ^ 224)) 0 false block ≡ ok tt)
    ↔ IsSaneBlock packages ◌+◌ false 0 (pos (2 ^ 224)) 0 false block
check_block_sanity_iff_example =
    check_block_sanity_iff packages ◌+◌ false 0 (pos (2 ^ 224)) 0 false block (omega arith)

first_passes :
    check_transaction_inputs packages (pos 100) no_age first_tx (pos 20) store
    ≡ ok (pos 20_000, store_first)
unfolding check_transaction_inputs is_coin_base check_inputs check_input find_origin check_maturity
    add_input int64 ◌+ℤ◌ ppc_check_transaction_input settle ppc_check_transaction_inputs ◌-ℤ◌
    get_min_fee fee_of
first_passes = refl

second_passes :
    check_transaction_inputs packages (pos 100) no_age second_tx (pos 20) store_first
    ≡ ok (pos 20_000, store_both)
unfolding check_transaction_inputs is_coin_base check_inputs check_input find_origin check_maturity
    add_input int64 ◌+ℤ◌ ppc_check_transaction_input settle ppc_check_transaction_inputs ◌-ℤ◌
    get_min_fee fee_of
second_passes = refl

is_coin_base_first : is_coin_base first_tx ≡ false
unfolding is_coin_base
is_coin_base_first = refl

is_coin_base_second : is_coin_base second_tx ≡ false
unfolding is_coin_base
is_coin_base_second = refl

first_sane : check_transaction_sanity packages first_tx ≡ ok tt
unfolding check_transaction_sanity check_out_values int64 ◌+ℤ◌ check_duplicate_inputs
    check_previous_outputs is_coin_base is_null_outpoint ppc_check_transaction_sanity
    ppc_check_outputs
first_sane = refl

check_transaction_inputs-marks_example :
    All
      (λ i. (¬ IsSpent i.previous_out_point store) × IsSpent i.previous_out_point store_first)
      first_tx.tx_in
check_transaction_inputs-marks_example =
    check_transaction_inputs-marks packages (pos 100) no_age first_tx (pos 20) store (pos 20_000)
      store_first is_coin_base_first first_passes

check_transaction_inputs-apart_example :
    All (λ i. All (λ j. i.previous_out_point ≢ j.previous_out_point) second_tx.tx_in) first_tx.tx_in
check_transaction_inputs-apart_example =
    check_transaction_inputs-apart packages (pos 100) no_age first_tx second_tx (pos 20) (pos 20)
      store store_first store_both (pos 20_000) (pos 20_000) is_coin_base_first is_coin_base_second
      first_passes second_passes

check_transaction_inputs-fee_example :
    (n : ℕ) × (pos 20_000 ≡ pos n)
    × (n + sum_values first_tx.tx_out ≡ sum_inputs store first_tx.tx_in)
    × (get_min_fee first_tx.size ≤ n)
check_transaction_inputs-fee_example =
    check_transaction_inputs-fee packages (pos 100) no_age (omega arith) first_tx (pos 20) store
      (pos 20_000) store_first is_coin_base_first refl first_sane first_passes

mark_output-panics_example :
    (mark_output true (origin_entry (false ∷ false ∷ [])) (record { hash = 5; index = 2 }) store
      ≡ err panic)
    ↔ (2 ≡ length (false ∷ false ∷ []))
mark_output-panics_example =
    mark_output-panics true (origin_entry (false ∷ false ∷ [])) (record { hash = 5; index = 2 })
      store (omega arith)

-- The store of the block with the first transaction, which is cleared.
abbrev cleared_entry : TxData
cleared_entry = record {
  tx = none;
  hash = 7;
  block_height = pos 0;
  spent = [];
  error = some tx_sha_missing;
}

abbrev undo_store : TxStore
undo_store = (5, origin_entry (false ∷ false ∷ [])) ∷ (7, cleared_entry) ∷ []

abbrev connected_entry : TxData
connected_entry = record cleared_entry {
  tx = some first_tx;
  block_height = pos 20;
  spent = false ∷ [];
  error = none;
}

connects_first :
    connect_transactions 20 (first_tx ∷ []) undo_store
    ≡ ok ((5, origin_entry (true ∷ false ∷ [])) ∷ (7, connected_entry) ∷ [])
unfolding connect_transactions spend_inputs mark_output
connects_first = refl

abbrev back_store : TxStore
back_store = (5, origin_entry (false ∷ false ∷ [])) ∷ (7, cleared_entry) ∷ []

disconnects_first :
    disconnect_transactions
      (first_tx ∷ [])
      ((5, origin_entry (true ∷ false ∷ [])) ∷ (7, connected_entry) ∷ [])
    ≡ ok back_store
unfolding disconnect_transactions unspend_inputs mark_output
disconnects_first = refl

undo_store-IsReady :
    (k : ℕ) (x : TxData) → lookup k undo_store ≡ some x → IsReady (first_tx ∷ []) k x
undo_store-IsReady k x = elim (Bool-cases (5 == k)) [
  | inl e ↦ rw e (λ h. subst (IsReady (first_tx ∷ []) k) (some_inj h) (
      subst (λ q. IsReady (first_tx ∷ []) q (origin_entry (false ∷ false ∷ []))) ((==_iff 5 k).0 e)
        (unspent refl refl (refl, tt))))
  | inr e ↦ rw e (elim (Bool-cases (7 == k)) [
    | inl f ↦ rw f (λ h. subst (IsReady (first_tx ∷ []) k) (some_inj h) (own (rw f refl) refl))
    | inr f ↦ rw f (λ h. absurd (cc))
  ])
]

disconnect_transactions-restores_example :
    (last : TxStore) × (disconnect_transactions
        (first_tx ∷ [])
        ((5, origin_entry (true ∷ false ∷ [])) ∷ (7, connected_entry) ∷ [])
      ≡ ok last)
    × ((j : ℕ) → lookup j last ≡ lookup j undo_store)
disconnect_transactions-restores_example =
    disconnect_transactions-restores 20 (first_tx ∷ []) undo_store
      ((5, origin_entry (true ∷ false ∷ [])) ∷ (7, connected_entry) ∷ []) ((refl, tt), tt)
      undo_store-IsReady connects_first
