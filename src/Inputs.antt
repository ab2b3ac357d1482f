-- ===== src/Inputs.antt =====
-- CheckTransactionInputs (validate.go) and the Peercoin checks that it calls (ppc.go).
pub mod Spending
pub mod Fees
use btcchain.Common.{
  ℕ, zero, suc, ◌+◌, ◌*◌, ◌/◌, ◌%◌, ◌^◌, ◌≡◌, refl, ltb, leb, ◌==◌, if◌then◌else◌, Bool, true,
  false, not, ◌&&◌, ◌||◌, Option, none, some, List, [], ◌∷◌, length, get_elem?, set, lookup, insert,
  Result, ok, err, Error, rule, ◌>>=◌, ◌>>◌, reject_if, or_panic, panic, failure, missing_tx,
  immature_spend, bad_tx_input, double_spend, bad_tx_out_value, spend_too_high, earlier_timestamp,
  bad_coinstake_value, insufficient_fee, too_many_sig_ops,
}
use btcchain.Common.Int.{ℤ, pos, negsuc, neg, ◌+ℤ◌, ◌-ℤ◌, ◌*ℤ◌, int64, ltb_ℤ}
use btcchain.Wire.{OutPoint, Tx, TxIn, TxOut}
use btcchain.Reward.{cent, min_tx_fee, get_min_fee}
use btcchain.Validate.{Packages, is_coin_base}
use btcchain.TxStore.{TxData, TxStore}

-- Go's division by a positive number, which rounds towards zero.
abbrev pub quot : ℤ → ℕ → ℤ
quot (pos n) d = pos (n / d)
quot (negsuc n) d = neg (pos (suc n / d))

-- getProofOfStakeReward
unfoldable pub proof_of_stake_reward : ℤ → ℤ
proof_of_stake_reward coin_age =
    int64 (quot (int64 (coin_age *ℤ pos 33)) (365 * 33 + 8) *ℤ pos cent)

unfoldable pub ppc_check_transaction_input : Tx → Tx → Result (Unit {0})
ppc_check_transaction_input tx origin = reject_if (ltb tx.time origin.time) earlier_timestamp

-- `!exists || originTx.Err != nil || originTx.Tx == nil`
unfoldable pub find_origin : TxStore → ℕ → Result (TxData × Tx)
find_origin store hash = elim (lookup hash store) [
  | none ↦ err (rule missing_tx)
  | some entry ↦ elim entry.error [
    | some _ ↦ err (rule missing_tx)
    | none ↦ elim entry.tx [ none ↦ err (rule missing_tx) | some tx ↦ ok (entry, tx) ]
  ]
]

abbrev pub sum_out : ℤ → List TxOut → ℤ
sum_out total [] = total
sum_out total (o ∷ outs) = sum_out (int64 (total +ℤ o.value)) outs

-- coin_age is getCoinAgeTx, which reads the database.
module _ (packages : Packages) (coinbase_maturity : ℤ) (coin_age : Tx → TxStore → Result ℕ) where
  open packages use {max_satoshi, is_coin_stake, is_pay_to_script_hash, get_precise_sig_op_count}

  unfoldable pub check_maturity : ℤ → TxData → Tx → Result (Unit {0})
  check_maturity tx_height entry origin =
      reject_if
        (is_coin_base origin && ltb_ℤ (int64 (tx_height -ℤ entry.block_height)) coinbase_maturity)
        immature_spend

  -- The range tests of one input's amount; the result is the new total.
  unfoldable pub add_input : ℤ → ℤ → Result ℤ
  add_input total value =
      let sum = int64 (total +ℤ value) in
      reject_if (ltb_ℤ value (pos 0)) bad_tx_out_value
      >> (reject_if (ltb_ℤ (pos max_satoshi) value) bad_tx_out_value
          >> (reject_if (ltb_ℤ sum total || ltb_ℤ (pos max_satoshi) sum) bad_tx_out_value
              >> ok sum))

  -- One round of the loop: the new total, and the store with the output marked. After an error the
  -- callers read neither.
  unfoldable pub check_input : Tx → ℤ → TxIn → ℤ → TxStore → Result (ℤ × TxStore)
  check_input tx tx_height i total store = do
    (entry, origin) ← find_origin store i.previous_out_point.hash
    check_maturity tx_height entry origin
    let index = i.previous_out_point.index
    reject_if (leb (length entry.spent % 2 ^ 32) index) bad_tx_input
    spent ← or_panic (get_elem? entry.spent index)
    reject_if spent double_spend
    out ← or_panic (get_elem? origin.tx_out index)
    sum ← add_input total out.value
    ppc_check_transaction_input tx origin
    ok (
      sum,
      insert i.previous_out_point.hash (record entry { spent = set entry.spent index true }) store,
    )

  unfoldable pub check_inputs : Tx → ℤ → List TxIn → ℤ → TxStore → Result (ℤ × TxStore)
  check_inputs tx tx_height [] total store = ok (total, store)
  check_inputs tx tx_height (i ∷ ins) total store =
      check_input tx tx_height i total store >>= λ (sum, next).
      check_inputs tx tx_height ins sum next

  unfoldable pub ppc_check_transaction_inputs : Tx → TxStore → ℤ → ℤ → Result (Unit {0})
  ppc_check_transaction_inputs tx store satoshi_in satoshi_out =
      if is_coin_stake tx
      then elim (coin_age tx store) [
        | err e ↦ err failure
        | ok age ↦
            let reward = proof_of_stake_reward (int64 (pos age)) in
            let max_reward =
              int64 (int64 (reward -ℤ pos (get_min_fee tx.size)) +ℤ pos min_tx_fee) in
            reject_if (ltb_ℤ max_reward (int64 (satoshi_out -ℤ satoshi_in))) bad_coinstake_value
      ]
      else reject_if (ltb_ℤ (int64 (satoshi_in -ℤ satoshi_out)) (pos (get_min_fee tx.size)))
          insufficient_fee

  -- The fee of a coinstake is not below 0.
  unfoldable pub fee_of : Tx → ℤ → ℤ
  fee_of tx fee = if is_coin_stake tx && ltb_ℤ fee (pos 0) then pos 0 else fee

  -- The checks after the loop.
  unfoldable pub settle : Tx → ℤ → TxStore → Result (ℤ × TxStore)
  settle tx total_in store =
      let total_out = sum_out (pos 0) tx.tx_out in
      reject_if (not (is_coin_stake tx) && ltb_ℤ total_in total_out) spend_too_high
      >> (ppc_check_transaction_inputs tx store total_in total_out
          >> ok (fee_of tx (int64 (total_in -ℤ total_out)), store))

  unfoldable pub check_transaction_inputs : Tx → ℤ → TxStore → Result (ℤ × TxStore)
  check_transaction_inputs tx tx_height store =
      if is_coin_base tx
      then ok (pos 0, store)
      else check_inputs tx tx_height tx.tx_in (pos 0) store >>= λ (total_in, next).
          settle tx total_in next

  -- CountP2SHSigOps; its sum is an int.
  unfoldable pub count_p2sh_loop : List TxIn → TxStore → ℤ → Result ℤ
  count_p2sh_loop [] store total = ok total
  count_p2sh_loop (i ∷ ins) store total =
      find_origin store i.previous_out_point.hash >>= λ (entry, origin).
      let index = i.previous_out_point.index in
      reject_if (leb (length origin.tx_out % 2 ^ 32) index) bad_tx_input
      >> (or_panic (get_elem? origin.tx_out index) >>= λ out.
          let count = pos (get_precise_sig_op_count i.signature_script out.pk_script) in
          let sum = int64 (total +ℤ count) in
          if is_pay_to_script_hash out.pk_script
          then reject_if (ltb_ℤ sum total) too_many_sig_ops >> count_p2sh_loop ins store sum
          else count_p2sh_loop ins store total)

  unfoldable pub count_p2sh_sig_ops : Tx → Bool → TxStore → Result ℤ
  count_p2sh_sig_ops tx is_coin_base_tx store =
      if is_coin_base_tx then ok (pos 0) else count_p2sh_loop tx.tx_in store (pos 0)
