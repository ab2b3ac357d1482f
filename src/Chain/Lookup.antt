-- ===== src/Chain/Lookup.antt =====
-- The functions of txlookup.go that fill a transaction store from the database. A Go set is a list
-- here, and so is the order in which a map is read, which the source leaves open.
pub mod Filled
use btcchain.Common.{
  ℕ, zero, suc, ◌+◌, Option, none, some, List, [], ◌∷◌, ◌++◌, Bool, true, false, ◌&&◌, ◌==◌, leb,
  any, map, length, get_elem?, replicate, lookup, insert, if◌then◌else◌, Result, ok, err, failure,
  panic,
}
use btcchain.Common.Int.{ℤ, pos, negsuc}
use btcchain.Wire.{Block, Tx, TxIn}
use btcchain.TxStore.{
  StoreError, tx_sha_missing, TxData, TxStore, connect_transactions, disconnect_transactions,
}
use btcchain.Chain.State.{BlockNode, BlockChain, Env, M, bind}
use btcchain.Chain.Nodes.{get_prev_node_from_node}
use btcchain.Chain.Connect.{get_reorganize_nodes}

-- btcdb.TxListReply: an error, or the transaction with its height and spent marks.
pub data Answer : Type 0 where
  not_given : StoreError → Answer
  given : Tx → ℤ → List Bool → Answer

pub record TxReply : Type 0 where
  pub sha : ℕ
  pub answer : Answer

-- The queries of btcdb for lists of transactions.
pub record TxDb (S : Type 0) : Type 0 where
  pub fetch_tx_by_sha_list : S → List ℕ → List TxReply
  pub fetch_un_spent_tx_by_sha_list : S → List ℕ → List TxReply

-- `set[hash] = struct{}{}`
abbrev pub add_to_set : ℕ → List ℕ → List ℕ
add_to_set hash set = if any (λ h. h == hash) set then set else hash ∷ set

abbrev pub set_of : List ℕ → List ℕ
set_of [] = []
set_of (hash ∷ hashes) = add_to_set hash (set_of hashes)

-- `&TxData{Hash: &hash, Err: btcdb.ErrTxShaMissing}`
abbrev pub missing_entry : ℕ → TxData
missing_entry hash = record {
  tx = none;
  hash = hash;
  block_height = pos 0;
  spent = [];
  error = some tx_sha_missing;
}

unfoldable pub all_missing : List ℕ → TxStore
all_missing [] = []
all_missing (hash ∷ hashes) = insert hash (missing_entry hash) (all_missing hashes)

unfoldable pub fill_entry : Answer → TxData → TxData
fill_entry (not_given e) entry = record entry { error = some e }
fill_entry (given tx height spent) entry = record entry {
  tx = some tx;
  block_height = height;
  spent = spent;
  error = none;
}

-- The loop over the replies; one that was not asked for is skipped.
unfoldable pub fill_all : List TxReply → TxStore → TxStore
fill_all [] store = store
fill_all (reply ∷ replies) store = fill_all replies (elim (lookup reply.sha store) [
  | none ↦ store
  | some entry ↦ insert reply.sha (fill_entry reply.answer entry) store
])

module _ {S : Type 0} (txs : TxDb S) where
  open txs use {fetch_tx_by_sha_list, fetch_un_spent_tx_by_sha_list}

  unfoldable pub fetch_tx_store_main : S → List ℕ → Bool → TxStore
  fetch_tx_store_main db tx_set include_spent = elim (length tx_set == 0) [
    | true ↦ []
    | false ↦ elim include_spent [
      | true ↦ fill_all (fetch_tx_by_sha_list db tx_set) (all_missing tx_set)
      | false ↦ fill_all (fetch_un_spent_tx_by_sha_list db tx_set) (all_missing tx_set)
    ]
  ]

-- `b.bestChain == nil || (prevNode != nil && prevNode.hash.IsEqual(b.bestChain.hash))`
abbrev pub at_end : {S : Type 0} → BlockChain S → Option ℕ → Bool
at_end s prev = elim s.best_chain [
  | none ↦ true
  | some b ↦ elim prev [ none ↦ false | some p ↦ (s.heap p).hash == (s.heap b).hash ]
]

module _ {S : Type 0} (env : Env S) where
  open env use {fetch_block_sha_by_height, fetch_block_by_sha}

  -- The block at the height of a transaction; no block has a negative height.
  unfoldable pub block_at_height : S → ℤ → Result Block
  block_at_height db (negsuc n) = err failure
  block_at_height db (pos height) = elim (fetch_block_sha_by_height db height) [
    | err e ↦ err failure
    | ok sha ↦ elim (fetch_block_by_sha db sha) [ err e ↦ err failure | ok block ↦ ok block ]
  ]

module _ {S : Type 0} (env : Env S) (txs : TxDb S) where
  open env use {fetch_block_by_sha}

  -- The loops over the nodes to detach and to attach.
  unfoldable pub undo_blocks : List ℕ → BlockChain S → TxStore → Result TxStore
  undo_blocks [] s store = ok store
  undo_blocks (n ∷ ns) s store = elim (fetch_block_by_sha s.db (s.heap n).hash) [
    | err e ↦ err e
    | ok block ↦ elim (disconnect_transactions block.transactions store) [
      | err e ↦ err e
      | ok next ↦ undo_blocks ns s next
    ]
  ]

  unfoldable pub apply_blocks : List ℕ → BlockChain S → TxStore → Result TxStore
  apply_blocks [] s store = ok store
  apply_blocks (n ∷ ns) s store = elim (lookup (s.heap n).hash s.block_cache) [
    | none ↦ err failure
    | some block ↦ elim (connect_transactions block.height block.transactions store) [
      | err e ↦ err e
      | ok next ↦ apply_blocks ns s next
    ]
  ]

  -- The store from the point of view of a node that is not the end of the main chain.
  unfoldable pub view_from : Option ℕ → List ℕ → BlockChain S → Result TxStore
  view_from prev tx_set s = elim (get_reorganize_nodes s prev) [
    | err e ↦ err e
    | ok (detach, attach) ↦ elim (undo_blocks detach s (fetch_tx_store_main txs s.db tx_set true)) [
      | err e ↦ err e
      | ok store ↦ apply_blocks attach s store
    ]
  ]

  unfoldable pub fetch_from : List ℕ → Option ℕ → M S TxStore
  fetch_from tx_set prev s = elim (at_end s prev) [
    | true ↦ (ok (fetch_tx_store_main txs s.db tx_set false), s)
    | false ↦ (view_from prev tx_set s, s)
  ]

  unfoldable pub fetch_tx_store : ℕ → List ℕ → M S TxStore
  fetch_tx_store r tx_set s = bind (get_prev_node_from_node env r s) (fetch_from tx_set)

-- The map txInFlight, with the transaction beside its place: the last one of each hash among the
-- transactions from place i on.
unfoldable pub in_flight : ℕ → List Tx → List (ℕ × (ℕ × Tx)) → List (ℕ × (ℕ × Tx))
in_flight i [] places = places
in_flight i (tx ∷ txs) places = in_flight (suc i) txs (insert tx.sha (i, tx) places)

-- txNeededSet and txStore of fetchInputTransactions.
pub record Wanted : Type 0 where
  pub needed : List ℕ
  pub store : TxStore

-- `originTx` of the block with its outputs unspent.
abbrev pub flying_entry : ℕ → ℕ → Tx → TxData
flying_entry hash height tx = record {
  tx = some tx;
  hash = hash;
  block_height = pos height;
  spent = replicate (length tx.tx_out) false;
  error = none;
}

-- An input of the transaction at place i + 1, whose origin may stand at a place in the block.
unfoldable pub want_origin : ℕ → ℕ → ℕ → Option (ℕ × Tx) → Wanted → Wanted
want_origin height i hash none w = record {
  needed = add_to_set hash w.needed;
  store = insert hash (missing_entry hash) w.store;
}
want_origin height i hash (some (place, tx)) w = elim (leb place i) [
  | true ↦ record w { store = insert hash (flying_entry hash height tx) w.store }
  | false ↦ record {
    needed = add_to_set hash w.needed;
    store = insert hash (missing_entry hash) w.store;
  }
]

unfoldable pub want_inputs : List (ℕ × (ℕ × Tx)) → ℕ → ℕ → List TxIn → Wanted → Wanted
want_inputs places height i [] w = w
want_inputs places height i (input ∷ ins) w =
    let hash = input.previous_out_point.hash in
    want_inputs places height i ins (want_origin height i hash (lookup hash places) w)

unfoldable pub want_all : List (ℕ × (ℕ × Tx)) → ℕ → ℕ → List Tx → Wanted → Wanted
want_all places height i [] w = w
want_all places height i (tx ∷ later) w =
    want_all places height (suc i) later (want_inputs places height i tx.tx_in w)

-- `for _, txD := range txNeededStore { txStore[*txD.Hash] = txD }`
unfoldable pub merge : TxStore → TxStore → TxStore
merge [] store = store
merge ((k, entry) ∷ more) store = merge more (insert entry.hash entry store)

module _ {S : Type 0} (env : Env S) (txs : TxDb S) where
  unfoldable pub fetch_wanted : ℕ → Wanted → M S TxStore
  fetch_wanted r w s =
      bind (fetch_tx_store env txs r w.needed s) λ found s'. (ok (merge found w.store), s')

  -- transactions[1:] of a block with no transactions panics.
  unfoldable pub fetch_listed : ℕ → List Tx → M S TxStore
  fetch_listed r [] s = (err panic, s)
  fetch_listed r (coinbase ∷ later) s =
      fetch_wanted r
        (want_all (in_flight 0 (coinbase ∷ later) []) (s.heap r).height 0 later
          (record { needed = []; store = [] }))
        s

  unfoldable pub fetch_input_transactions : ℕ → Block → M S TxStore
  fetch_input_transactions r block = fetch_listed r block.transactions

  unfoldable pub fetch_transaction_store : Tx → BlockChain S → TxStore
  fetch_transaction_store tx s =
      fetch_tx_store_main txs s.db (set_of (tx.sha ∷ map (λ i. i.previous_out_point.hash) tx.tx_in))
        false
