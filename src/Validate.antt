-- ===== src/Validate.antt =====
-- The checks of a transaction on its own (validate.go, ppc.go). What the btcwire, btcutil and
-- btcscript packages give is the record Packages.
pub mod Amounts
pub mod Sanity
pub mod Blocks
use btcchain.Common.{
  ℕ, zero, suc, ◌+◌, ◌*◌, ◌/◌, ◌≡◌, refl, ◌==◌, ltb, leb, if◌then◌else◌, Bool, true, false, not,
  ◌&&◌, ◌||◌, any, all, Option, none, some, List, [], ◌∷◌, length, Result, ok, err, rule, ◌>>=◌,
  ◌>>◌, reject_if, bad_tx_out_value, duplicate_tx_inputs, bad_coinbase_script_len, bad_tx_input,
  empty_tx_out, no_tx_inputs, no_tx_outputs, tx_too_big,
}
use btcchain.Common.Int.{ℤ, pos, ◌+ℤ◌, int64, ltb_ℤ}
use btcchain.Wire.{OutPoint, out_point_eq, Tx, TxIn, TxOut, Block, max_uint32, unix}
use btcchain.Reward.{min_tx_out_amount}

pub record Packages : Type 0 where
  -- btcwire.MaxBlockPayload and btcutil.MaxSatoshi
  pub max_block_payload : ℕ
  pub max_satoshi : ℕ
  -- btcwire: MsgTx.IsCoinStake, MsgBlock.IsProofOfStake, TxOut.IsEmpty; btcutil: Block.IsProofOfStake
  pub is_coin_stake : Tx → Bool
  pub msg_block_is_proof_of_stake : Block → Bool
  pub is_empty : TxOut → Bool
  pub block_is_proof_of_stake : Block → Bool
  -- btcscript
  pub get_sig_op_count : List ℕ → ℕ
  pub is_pay_to_script_hash : List ℕ → Bool
  pub get_precise_sig_op_count : List ℕ → List ℕ → ℕ
  -- ExtractPkScriptAddrs: is the class PubKeyTy, and each address's key if it has one (its bytes)
  pub extract_pk_script_addrs : List ℕ → Result (Bool × List (Option (List ℕ)))
  -- btcec: ParseSignature (the signature as bytes) and Verify of signature, hash and key
  pub parse_signature : List ℕ → Result (List ℕ)
  pub verify : List ℕ → ℕ → List ℕ → Bool

unfoldable pub is_null_outpoint : OutPoint → Bool
is_null_outpoint outpoint = (outpoint.index == max_uint32) && (outpoint.hash == 0)

unfoldable pub is_coin_base : Tx → Bool
is_coin_base tx = elim tx.tx_in [
  | [] ↦ false
  | i ∷ more ↦ elim more [
    | [] ↦
        not (not (i.previous_out_point.index == max_uint32) || not (i.previous_out_point.hash == 0))
    | j ∷ rest ↦ false
  ]
]

abbrev pub lock_time_threshold : ℕ
lock_time_threshold = 500_000_000

-- blockHeight is an int64; heights and times are not negative here.
unfoldable pub is_finalized_transaction : Tx → ℕ → ℕ → Bool
is_finalized_transaction tx block_height block_time =
    if tx.lock_time == 0
    then true
    else (let limit =
          if ltb tx.lock_time lock_time_threshold then block_height else unix block_time in
        if ltb tx.lock_time limit then true else all (λ i. i.sequence == max_uint32) tx.tx_in)

abbrev pub min_coinbase_script_len : ℕ
min_coinbase_script_len = 2

abbrev pub max_coinbase_script_len : ℕ
max_coinbase_script_len = 100

-- The loop over the outputs, from the total so far; an int64 sum wraps.
unfoldable pub check_out_values : ℕ → ℤ → List TxOut → Result (Unit {0})
check_out_values max total [] = ok tt
check_out_values max total (o ∷ outs) =
    let sum = int64 (total +ℤ o.value) in
    reject_if (ltb_ℤ o.value (pos 0)) bad_tx_out_value
    >> (reject_if (ltb_ℤ (pos max) o.value) bad_tx_out_value
        >> (reject_if (ltb_ℤ sum (pos 0)) bad_tx_out_value
            >> (reject_if (ltb_ℤ (pos max) sum) bad_tx_out_value >> check_out_values max sum outs)))

-- The loop that fills the set existingTxOut.
unfoldable pub check_duplicate_inputs : List OutPoint → List TxIn → Result (Unit {0})
check_duplicate_inputs existing [] = ok tt
check_duplicate_inputs existing (i ∷ ins) =
    reject_if (any (out_point_eq i.previous_out_point) existing) duplicate_tx_inputs
    >> check_duplicate_inputs (i.previous_out_point ∷ existing) ins

abbrev pub coinbase_script_len : Tx → ℕ
coinbase_script_len tx = elim tx.tx_in [ [] ↦ 0 | i ∷ _ ↦ length i.signature_script ]

-- The coinbase check, or the check that no other input is null.
unfoldable pub check_previous_outputs : Tx → Result (Unit {0})
check_previous_outputs tx =
    if is_coin_base tx
    then reject_if
        (ltb (coinbase_script_len tx) min_coinbase_script_len
          || ltb max_coinbase_script_len (coinbase_script_len tx))
        bad_coinbase_script_len
    else reject_if (any (λ i. is_null_outpoint i.previous_out_point) tx.tx_in) bad_tx_input

module _ (packages : Packages) where
  open packages use {max_block_payload, max_satoshi, is_coin_stake, is_empty}

  unfoldable pub ppc_check_outputs : Tx → List TxOut → Result (Unit {0})
  ppc_check_outputs tx [] = ok tt
  ppc_check_outputs tx (o ∷ outs) =
      reject_if (is_empty o && (not (is_coin_base tx) && not (is_coin_stake tx))) empty_tx_out
      >> (reject_if (not (is_empty o) && ltb_ℤ o.value (pos min_tx_out_amount)) bad_tx_out_value
          >> ppc_check_outputs tx outs)

  unfoldable pub ppc_check_transaction_sanity : Tx → Result (Unit {0})
  ppc_check_transaction_sanity tx = ppc_check_outputs tx tx.tx_out

  unfoldable pub check_transaction_sanity : Tx → Result (Unit {0})
  check_transaction_sanity tx =
      reject_if (length tx.tx_in == 0) no_tx_inputs
      >> (reject_if (length tx.tx_out == 0) no_tx_outputs
          >> (reject_if (ltb max_block_payload tx.size) tx_too_big
              >> (check_out_values max_satoshi (pos 0) tx.tx_out
                  >> (check_duplicate_inputs [] tx.tx_in
                      >> (check_previous_outputs tx >> ppc_check_transaction_sanity tx)))))
