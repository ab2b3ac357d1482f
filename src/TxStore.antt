-- ===== src/TxStore.antt =====
-- The transaction store of txlookup.go: what is known of the transactions that a block or a
-- transaction refers to. The Go map holds one TxData for each hash, which no other entry shares, so
-- a write through the pointer is an update of the entry.
pub mod Marks
pub mod Undo
pub mod Connected
pub mod Effects
pub mod Restored
pub mod Writable
pub mod Returns
use btcchain.Common.{
  ℕ, zero, suc, ◌+◌, ◌%◌, ◌^◌, ◌≡◌, refl, ltb, ◌==◌, if◌then◌else◌, Bool, true, false, Option, none,
  some, List, [], ◌∷◌, length, get_elem?, set, replicate, map, lookup, insert, all, Result, ok, err,
  ◌>>=◌, panic,
}
use btcchain.Common.Int.{ℤ, pos}
use btcchain.Wire.{OutPoint, Tx, TxIn, TxOut, Block}

-- btcdb.ErrTxShaMissing and any other error
pub data StoreError : Type 0 where
  tx_sha_missing other_store_error : StoreError

pub record TxData : Type 0 where
  pub tx : Option Tx
  pub hash : ℕ
  pub block_height : ℤ
  pub spent : List Bool
  pub error : Option StoreError

abbrev pub TxStore : Type 0
TxStore = List (ℕ × TxData)

-- `Spent[index] = mark`, after the test that stands before it in both functions. A slice has fewer
-- than 2 ^ 32 entries or its length is cut.
unfoldable pub mark_output : Bool → TxData → OutPoint → TxStore → Result TxStore
mark_output mark entry p store =
    if ltb (length entry.spent % 2 ^ 32) p.index
    then ok store
    else elim (get_elem? entry.spent p.index) [
      | none ↦ err panic
      | some _ ↦ ok (insert p.hash (record entry { spent = set entry.spent p.index mark }) store)
    ]

unfoldable pub spend_inputs : List TxIn → TxStore → Result TxStore
spend_inputs [] store = ok store
spend_inputs (i ∷ ins) store =
    (elim (lookup i.previous_out_point.hash store) [
      | none ↦ ok store
      | some entry ↦ mark_output true entry i.previous_out_point store
    ])
    >>= spend_inputs ins

unfoldable pub unspend_inputs : List TxIn → TxStore → Result TxStore
unspend_inputs [] store = ok store
unspend_inputs (i ∷ ins) store =
    (elim (lookup i.previous_out_point.hash store) [
      | none ↦ ok store
      | some entry ↦ elim entry.tx [
        | none ↦ ok store
        | some _ ↦ elim entry.error [
          | some _ ↦ ok store
          | none ↦ mark_output false entry i.previous_out_point store
        ]
      ]
    ])
    >>= unspend_inputs ins

abbrev pub add_tx : Tx → ℕ → TxStore → TxStore
add_tx tx height store = elim (lookup tx.sha store) [
  | none ↦ store
  | some entry ↦
      insert tx.sha
        (record entry {
          tx = some tx;
          block_height = pos height;
          spent = replicate (length tx.tx_out) false;
          error = none;
        })
        store
]

abbrev pub clear_tx : Tx → TxStore → TxStore
clear_tx tx store = elim (lookup tx.sha store) [
  | none ↦ store
  | some entry ↦
      insert tx.sha
        (record entry { tx = none; block_height = pos 0; spent = []; error = some tx_sha_missing })
        store
]

unfoldable pub connect_transactions : ℕ → List Tx → TxStore → Result TxStore
connect_transactions height [] store = ok store
connect_transactions height (tx ∷ txs) store =
    spend_inputs tx.tx_in (add_tx tx height store) >>= connect_transactions height txs

unfoldable pub disconnect_transactions : List Tx → TxStore → Result TxStore
disconnect_transactions [] store = ok store
disconnect_transactions (tx ∷ txs) store =
    unspend_inputs tx.tx_in (clear_tx tx store) >>= disconnect_transactions txs

-- isTransactionSpent (validate.go)
unfoldable pub is_transaction_spent : TxData → Bool
is_transaction_spent entry = all (λ b. b) entry.spent
