-- ===== src/TxStore/Effects.antt =====
-- What undoing a transaction's inputs, and connecting and disconnecting a block, do to each entry
-- (txlookup.go).
use btcchain.Common.{
  ℕ, ◌≡◌, refl, sym, ◌∙◌, ap, inl, inr, ◌==◌, Bool, true, false, Bool-cases, none, some,
  Option-cases, List, [], ◌∷◌, length, replicate, if◌then◌else◌, lookup, ok, ok_inj, >>=-ok_then,
}
use btcchain.Common.Int.{pos}
use btcchain.Wire.{Tx, TxIn}
use btcchain.TxStore.{
  tx_sha_missing, TxData, TxStore, mark_output, spend_inputs, unspend_inputs, add_tx, clear_tx,
  connect_transactions, disconnect_transactions,
}
use btcchain.TxStore.Connected.{
  map_entry, map_entry_twice, map_entry_same, map_entry_ext, lookup-write, no_write, absent,
  mark_entry, mark_output-write, refs, spend_inputs-lookup,
}

-- An entry with a transaction and without an error.
abbrev pub is_live : TxData → Bool
is_live entry = elim entry.tx [
  | none ↦ false
  | some _ ↦ elim entry.error [ some _ ↦ false | none ↦ true ]
]

-- An entry as clear_tx leaves it.
abbrev pub cleared : TxData → TxData
cleared entry = record entry {
  tx = none;
  block_height = pos 0;
  spent = [];
  error = some tx_sha_missing;
}

abbrev pub unspend : List ℕ → TxData → TxData
unspend is entry = if is_live entry then mark_entry false is entry else entry

unspend_live :
    (is : List ℕ) (entry : TxData) (tx : Tx)
    → entry.tx ≡ some tx
    → entry.error ≡ none
    → unspend is entry ≡ mark_entry false is entry
unspend_live is entry tx e f = rw (e, f) refl

pub unspend_one :
    (i : TxIn) (store next : TxStore) (j : ℕ)
    → (elim (lookup i.previous_out_point.hash store) [
      | none ↦ ok store
      | some entry ↦ elim entry.tx [
        | none ↦ ok store
        | some _ ↦ elim entry.error [
          | some _ ↦ ok store
          | none ↦ mark_output false entry i.previous_out_point store
        ]
      ]
    ])
      ≡ ok next
    → lookup j next
      ≡ map_entry
          (λ x.
            if i.previous_out_point.hash == j
            then unspend (i.previous_out_point.index ∷ []) x
            else x)
          (lookup j store)
unspend_one i store next j = elim (Option-cases (lookup i.previous_out_point.hash store)) [
  | inl e ↦
      rw e (λ h. ap (lookup j) (sym (ok_inj h)) ∙ absent j i.previous_out_point.hash _ store e)
  | inr (entry, e) ↦ elim (Option-cases entry.tx) [
    | inl f ↦
        rw (e, f)
          (λ h.
            ap (lookup j) (sym (ok_inj h))
            ∙ no_write j i.previous_out_point.hash (unspend (i.previous_out_point.index ∷ [])) entry
                store e (rw f refl))
    | inr (tx, f) ↦ elim (Option-cases entry.error) [
      | inr (x, g) ↦
          rw (e, f, g)
            (λ h.
              ap (lookup j) (sym (ok_inj h))
              ∙ no_write j i.previous_out_point.hash (unspend (i.previous_out_point.index ∷ []))
                  entry store e (rw (f, g) refl))
      | inl g ↦
          rw (e, f, g)
            (mark_output-write false (unspend (i.previous_out_point.index ∷ [])) entry
              i.previous_out_point store next j e
              (unspend_live (i.previous_out_point.index ∷ []) entry tx f g))
    ]
  ]
]

then_unspend :
    (j : ℕ) (i : TxIn) (ins : List TxIn) (x : TxData)
    → unspend
        (refs j ins)
        (if i.previous_out_point.hash == j then unspend (i.previous_out_point.index ∷ []) x else x)
      ≡ unspend (refs j (i ∷ ins)) x
then_unspend j i ins x = elim (Bool-cases (i.previous_out_point.hash == j)) [
  | inr e ↦ rw e refl
  | inl e ↦
      rw e (elim (Bool-cases (is_live x)) [ inl f ↦ rw f (rw f refl) | inr f ↦ rw f (rw f refl) ])
]

pub unspend_nil : (x : TxData) → x ≡ unspend [] x
unspend_nil x = elim (Bool-cases (is_live x)) [ inl e ↦ rw e refl | inr e ↦ rw e refl ]

pub unspend_inputs-lookup :
    (ins : List TxIn) (store next : TxStore) (j : ℕ)
    → unspend_inputs ins store ≡ ok next
    → lookup j next ≡ map_entry (unspend (refs j ins)) (lookup j store)
unfolding unspend_inputs
unspend_inputs-lookup [] store next j = λ h.
    ap (lookup j) (sym (ok_inj h))
    ∙ map_entry_same (lookup j store)
    ∙ map_entry_ext (λ x. x) (unspend []) unspend_nil (lookup j store)
unspend_inputs-lookup (i ∷ ins) store next j =
    >>=-ok_then
      (elim (lookup i.previous_out_point.hash store) [
        | none ↦ ok store
        | some entry ↦ elim entry.tx [
          | none ↦ ok store
          | some _ ↦ elim entry.error [
            | some _ ↦ ok store
            | none ↦ mark_output false entry i.previous_out_point store
          ]
        ]
      ])
      (unspend_inputs ins)
      λ mid one rest.
        unspend_inputs-lookup ins mid next j rest
        ∙ ap (map_entry (unspend (refs j ins))) (unspend_one i store mid j one)
        ∙ map_entry_twice _ _ (lookup j store)
        ∙ map_entry_ext _ _ (then_unspend j i ins) (lookup j store)

abbrev pub added : Tx → ℕ → TxData → TxData
added tx height entry = record entry {
  tx = some tx;
  block_height = pos height;
  spent = replicate (length tx.tx_out) false;
  error = none;
}

add_tx-lookup :
    (tx : Tx) (height : ℕ) (store : TxStore) (j : ℕ)
    → lookup j (add_tx tx height store)
      ≡ map_entry (λ x. if tx.sha == j then added tx height x else x) (lookup j store)
add_tx-lookup tx height store j = elim (Option-cases (lookup tx.sha store)) [
  | inl e ↦ rw (e, add_tx) (absent j tx.sha (added tx height) store e)
  | inr (entry, e) ↦ rw (e, add_tx) (lookup-write j tx.sha (added tx height) entry store e)
]

pub clear_tx-lookup :
    (tx : Tx) (store : TxStore) (j : ℕ)
    → lookup j (clear_tx tx store)
      ≡ map_entry (λ x. if tx.sha == j then cleared x else x) (lookup j store)
clear_tx-lookup tx store j = elim (Option-cases (lookup tx.sha store)) [
  | inl e ↦ rw (e, clear_tx) (absent j tx.sha cleared store e)
  | inr (entry, e) ↦ rw (e, clear_tx) (lookup-write j tx.sha cleared entry store e)
]

-- What a block does to the entry of a hash, and what undoing it does.
abbrev pub connected : ℕ → ℕ → List Tx → TxData → TxData
connected j height [] x = x
connected j height (tx ∷ txs) x =
    connected j height txs
      (mark_entry true (refs j tx.tx_in) (if tx.sha == j then added tx height x else x))

abbrev pub disconnected : ℕ → List Tx → TxData → TxData
disconnected j [] x = x
disconnected j (tx ∷ txs) x =
    disconnected j txs (unspend (refs j tx.tx_in) (if tx.sha == j then cleared x else x))

pub connect_transactions-lookup :
    (height : ℕ) (txs : List Tx) (store next : TxStore) (j : ℕ)
    → connect_transactions height txs store ≡ ok next
    → lookup j next ≡ map_entry (connected j height txs) (lookup j store)
unfolding connect_transactions
connect_transactions-lookup height [] store next j =
    λ h. ap (lookup j) (sym (ok_inj h)) ∙ map_entry_same (lookup j store)
connect_transactions-lookup height (tx ∷ txs) store next j =
    >>=-ok_then (spend_inputs tx.tx_in (add_tx tx height store)) (connect_transactions height txs)
      λ mid one rest.
        connect_transactions-lookup height txs mid next j rest
        ∙ ap (map_entry (connected j height txs)) (
            spend_inputs-lookup tx.tx_in (add_tx tx height store) mid j one
            ∙ ap (map_entry (mark_entry true (refs j tx.tx_in))) (add_tx-lookup tx height store j)
            ∙ map_entry_twice _ _ (lookup j store))
        ∙ map_entry_twice _ _ (lookup j store)

pub disconnect_transactions-lookup :
    (txs : List Tx) (store next : TxStore) (j : ℕ)
    → disconnect_transactions txs store ≡ ok next
    → lookup j next ≡ map_entry (disconnected j txs) (lookup j store)
unfolding disconnect_transactions
disconnect_transactions-lookup [] store next j =
    λ h. ap (lookup j) (sym (ok_inj h)) ∙ map_entry_same (lookup j store)
disconnect_transactions-lookup (tx ∷ txs) store next j =
    >>=-ok_then (unspend_inputs tx.tx_in (clear_tx tx store)) (disconnect_transactions txs)
      λ mid one rest.
        disconnect_transactions-lookup txs mid next j rest
        ∙ ap (map_entry (disconnected j txs)) (
            unspend_inputs-lookup tx.tx_in (clear_tx tx store) mid j one
            ∙ ap (map_entry (unspend (refs j tx.tx_in))) (clear_tx-lookup tx store j)
            ∙ map_entry_twice _ _ (lookup j store))
        ∙ map_entry_twice _ _ (lookup j store)
