-- ===== src/Validate/Blocks.antt =====
-- The checks of a block on its own (checkBlockSanity and what it calls in validate.go and ppc.go).
pub mod Accepted
use btcchain.Common.{
  ℕ, zero, suc, ◌+◌, ◌-◌, ◌*◌, ◌/◌, ◌%◌, ◌^◌, ◌≡◌, refl, ◌==◌, ltb, leb, if◌then◌else◌, Bool, true,
  false, not, ◌&&◌, ◌||◌, any, all, Option, none, some, List, [], ◌∷◌, map, length, get_elem?, drop,
  take, last?, get_or, Result, ok, err, rule, ◌>>=◌, ◌>>◌, reject_if, or_panic, Error, failure,
  panic, unexpected_difficulty, high_hash, no_transactions, too_many_transactions, block_too_big,
  invalid_time, time_too_new, first_tx_not_coinbase, multiple_coinbases, bad_merkle_root,
  duplicate_tx, too_many_sig_ops, missing_coinbase_height, bad_coinbase_height,
  wrong_coinstake_position, coinbase_not_empty, coinstake_time_violation, block_before_tx,
  bad_block_signature,
}
use btcchain.Common.Int.{ℤ, pos, ◌+ℤ◌, int64, ltb_ℤ, leb_ℤ, eq_ℤ}
use btcchain.Wire.{Tx, TxIn, TxOut, Block, nano, unix}
use btcchain.Difficulty.Compact.{compact_to_big, sha_hash_to_big, bytes}
use btcchain.Merkle.{build_merkle_tree_store}
use btcchain.Validate.{Packages, is_coin_base, check_transaction_sanity}

-- The target's range and the hash; the last argument is the bit BFNoPoWCheck.
unfoldable pub check_proof_of_work : Block → ℤ → Bool → Result (Unit {0})
check_proof_of_work block pow_limit no_pow_check =
    let target = compact_to_big block.header.bits in
    reject_if (leb_ℤ target (pos 0)) unexpected_difficulty
    >> (reject_if (ltb_ℤ pow_limit target) unexpected_difficulty
        >> reject_if (not no_pow_check && ltb_ℤ target (pos (sha_hash_to_big block.sha))) high_hash)

-- ppcutil.go and kernel.go
abbrev pub protocol_v03_switch_time : ℕ
protocol_v03_switch_time = 1_363_800_000

abbrev pub protocol_v03_test_switch_time : ℕ
protocol_v03_test_switch_time = 1_359_781_000

abbrev pub max_clock_drift : ℕ
max_clock_drift = 2 * 60 * 60

unfoldable pub is_protocol_v03 : Bool → ℕ → Bool
is_protocol_v03 testnet time =
    leb (if testnet then protocol_v03_test_switch_time else protocol_v03_switch_time) time

unfoldable pub check_coin_stake_timestamp : Bool → ℕ → ℕ → Bool
check_coin_stake_timestamp testnet time_block time_tx =
    if is_protocol_v03 testnet time_tx
    then time_block == time_tx
    else leb time_tx time_block && leb time_block (time_tx + max_clock_drift)

-- The value of the bytes, the least significant first.
abbrev pub little_endian : List ℕ → ℕ
little_endian [] = 0
little_endian (b ∷ bs) = b + 256 * little_endian bs

unfoldable pub check_serialized_height : Tx → ℤ → Result (Unit {0})
check_serialized_height coinbase_tx want_height = do
  input ← or_panic (get_elem? coinbase_tx.tx_in 0)
  let script = input.signature_script
  reject_if (length script == 0) missing_coinbase_height
  let serialized_len = get_or script 0 0
  reject_if (ltb (length (drop 1 script)) serialized_len) missing_coinbase_height
  let serialized_height = little_endian (take 8 (take serialized_len (drop 1 script)))
  reject_if (not (eq_ℤ (int64 (pos serialized_height)) want_height)) bad_coinbase_height

-- The loops for repeated hashes and for coinstakes that come too late.
unfoldable pub check_duplicate_txs : List ℕ → List Tx → Result (Unit {0})
check_duplicate_txs existing [] = ok tt
check_duplicate_txs existing (tx ∷ txs) =
    reject_if (any (λ h. h == tx.sha) existing) duplicate_tx
    >> check_duplicate_txs (tx.sha ∷ existing) txs

-- The root in the header against the last entry of the tree.
unfoldable pub check_merkle_root : (ℕ → ℕ → ℕ) → Block → Result (Unit {0})
check_merkle_root hash_merkle_branches block =
    let merkles =
      build_merkle_tree_store hash_merkle_branches (map (λ tx. tx.sha) block.transactions) in
    elim (last? merkles) [
      | some (some root) ↦ reject_if (not (block.header.merkle_root == root)) bad_merkle_root
      | _ ↦ err panic
    ]

module _ (packages : Packages) where
  open packages use {
    max_block_payload, is_coin_stake, is_empty, msg_block_is_proof_of_stake,
    block_is_proof_of_stake, get_sig_op_count, extract_pk_script_addrs, parse_signature, verify,
  }

  abbrev pub max_sig_ops_per_block : ℕ
  max_sig_ops_per_block = max_block_payload / 50

  -- Sums of type int wrap.
  abbrev pub add_sig_ops : ℤ → List (List ℕ) → ℤ
  add_sig_ops total [] = total
  add_sig_ops total (script ∷ scripts) =
      add_sig_ops (int64 (total +ℤ pos (get_sig_op_count script))) scripts

  unfoldable pub count_sig_ops : Tx → ℤ
  count_sig_ops tx =
      add_sig_ops (add_sig_ops (pos 0) (map (λ i. i.signature_script) tx.tx_in))
        (map (λ o. o.pk_script) tx.tx_out)

  unfoldable pub check_sig_ops : ℤ → List Tx → Result (Unit {0})
  check_sig_ops total [] = ok tt
  check_sig_ops total (tx ∷ txs) =
      let sum = int64 (total +ℤ count_sig_ops tx) in
      reject_if (ltb_ℤ sum total || ltb_ℤ (pos max_sig_ops_per_block) sum) too_many_sig_ops
      >> check_sig_ops sum txs

  unfoldable pub check_block_signature : ℕ → Block → Result Bool
  check_block_signature genesis_hash block =
      if block.sha == genesis_hash then ok (length block.signature == 0) else (do
        let place = if msg_block_is_proof_of_stake block then 1 else 0
        tx ← or_panic (get_elem? block.transactions place)
        out ← or_panic (get_elem? tx.tx_out place)
        elim (extract_pk_script_addrs out.pk_script) [
          | err e ↦ ok false
          | ok (pub_key_ty, addresses) ↦
              if pub_key_ty
              then elim (get_elem? addresses 0) [
                | none ↦ err panic
                | some none ↦ ok false
                | some (some key) ↦ elim (parse_signature block.signature) [
                  | err e ↦ ok false
                  | ok sig ↦ ok (verify sig block.sha key)
                ]
              ]
              else ok false
        ])

  -- `IsProofOfStake() && !checkCoinStakeTimestamp(...)`
  unfoldable pub check_coin_stake : Bool → Block → Result (Unit {0})
  check_coin_stake testnet block =
      if msg_block_is_proof_of_stake block
      then (do
        tx ← or_panic (get_elem? block.transactions 1)
        reject_if
            (not (check_coin_stake_timestamp testnet (unix block.header.timestamp) (unix tx.time)))
            coinstake_time_violation)
      else ok tt

  abbrev pub coinbase_empty : List TxOut → Bool
  coinbase_empty outs = (length outs == 1) && all is_empty outs

  unfoldable pub check_coinbase_out : Block → Result (Unit {0})
  check_coinbase_out block =
      if block_is_proof_of_stake block
      then (do
        tx ← or_panic (get_elem? block.transactions 0)
        reject_if (not (coinbase_empty tx.tx_out)) coinbase_not_empty)
      else ok tt

  unfoldable pub ppc_check_block_sanity : Bool → ℕ → Block → Result (Unit {0})
  ppc_check_block_sanity testnet genesis_hash block = do
    reject_if (any is_coin_stake (drop 2 block.transactions)) wrong_coinstake_position
    check_coinbase_out block
    check_coin_stake testnet block
    reject_if (any (λ tx. ltb block.header.timestamp tx.time) block.transactions) block_before_tx
    signed ← check_block_signature genesis_hash block
    reject_if (not signed) bad_block_signature

  unfoldable pub check_transactions : List Tx → Result (Unit {0})
  check_transactions [] = ok tt
  check_transactions (tx ∷ txs) = check_transaction_sanity packages tx >> check_transactions txs

  -- adjusted_time is timeSource.AdjustedTime().
  unfoldable pub check_block_sanity :
      (ℕ → ℕ → ℕ) → Bool → ℕ → ℤ → ℕ → Bool → Block → Result (Unit {0})
  check_block_sanity hash_merkle_branches testnet genesis_hash pow_limit adjusted_time no_pow_check
        block =
      let txs = block.transactions in
      reject_if (length txs == 0) no_transactions
      >> (reject_if (ltb max_block_payload (length txs)) too_many_transactions
          >> (reject_if (ltb max_block_payload block.size) block_too_big
              >> ((if msg_block_is_proof_of_stake block
                    then ok tt
                    else check_proof_of_work block pow_limit no_pow_check)
                  >> (reject_if (not (block.header.timestamp % nano == 0)) invalid_time
                      >> (reject_if
                            (ltb (adjusted_time + 2 * 60 * 60 * nano) block.header.timestamp)
                            time_too_new
                          >> (reject_if (not (any is_coin_base (take 1 txs))) first_tx_not_coinbase
                              >> (reject_if (any is_coin_base (drop 1 txs)) multiple_coinbases
                                  >> (check_transactions txs
                                      >> (check_merkle_root hash_merkle_branches block
                                          >> (check_duplicate_txs [] txs
                                              >> (check_sig_ops (pos 0) txs
                                                  >> ppc_check_block_sanity testnet genesis_hash
                                                      block)))))))))))
