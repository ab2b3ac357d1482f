-- ===== src/TxStore/Restored.antt =====
-- The way back from a connected block: disconnectTransactions after connectTransactions (txlookup.go).
use btcchain.Common.{
  ℕ, ◌≡◌, refl, sym, ◌∙◌, ap, inl, inr, ◌==◌, Bool, true, false, Bool-cases, some, Option-cases,
  List, [], ◌∷◌, ◌++◌, any, lookup, ok,
}
use btcchain.Wire.{Tx}
use btcchain.TxStore.{TxData, TxStore, connect_transactions, disconnect_transactions}
use btcchain.TxStore.Undo.{put, puts, AllUnspent, puts_undo}
use btcchain.TxStore.Connected.{map_entry, map_entry_twice, mark_entry, refs}
use btcchain.TxStore.Effects.{
  is_live, cleared, unspend, unspend_nil, connected, disconnected, connect_transactions-lookup,
  disconnect_transactions-lookup,
}

abbrev pub is_among : ℕ → List Tx → Bool
is_among j txs = any (λ tx. tx.sha == j) txs

stays_cleared : (j : ℕ) (txs : List Tx) (x : TxData) → disconnected j txs (cleared x) ≡ cleared x
stays_cleared j [] x = refl
stays_cleared j (tx ∷ txs) x = elim (Bool-cases (tx.sha == j)) [
  | inl e ↦ rw e (stays_cleared j txs x)
  | inr e ↦ rw e (stays_cleared j txs x)
]

cleared-unspend : (is : List ℕ) (x : TxData) → cleared (unspend is x) ≡ cleared x
cleared-unspend is x = elim (Bool-cases (is_live x)) [ inl e ↦ rw e refl | inr e ↦ rw e refl ]

own_cleared :
    (j : ℕ) (txs : List Tx) (x : TxData) → is_among j txs ≡ true → disconnected j txs x ≡ cleared x
own_cleared j [] x = λ h. absurd (cc)
own_cleared j (tx ∷ txs) x = elim (Bool-cases (tx.sha == j)) [
  | inl e ↦ rw e (λ _. stays_cleared j txs x)
  | inr e ↦
      rw e (λ h.
        own_cleared j txs (unspend (refs j tx.tx_in) x) h ∙ cleared-unspend (refs j tx.tx_in) x)
]

cleared-connected :
    (j height : ℕ) (txs : List Tx) (x : TxData) → cleared (connected j height txs x) ≡ cleared x
cleared-connected j height [] x = refl
cleared-connected j height (tx ∷ txs) x =
    cleared-connected j height txs _
    ∙ elim (Bool-cases (tx.sha == j)) [ inl e ↦ rw e refl | inr e ↦ rw e refl ]

-- The places at which the inputs of the transactions refer to a hash.
abbrev pub all_refs : ℕ → List Tx → List ℕ
all_refs j [] = []
all_refs j (tx ∷ txs) = refs j tx.tx_in ++ all_refs j txs

puts_append :
    (mark : Bool) (is js : List ℕ) (spent : List Bool)
    → puts mark js (puts mark is spent) ≡ puts mark (is ++ js) spent
puts_append mark [] js spent = refl
puts_append mark (i ∷ is) js spent = puts_append mark is js (put mark i spent)

marks_append :
    (mark : Bool) (is js : List ℕ) (x : TxData)
    → mark_entry mark js (mark_entry mark is x) ≡ mark_entry mark (is ++ js) x
marks_append mark is js x = ap (λ l. record x { spent = l }) (puts_append mark is js x.spent)

unspend_append : (is js : List ℕ) (x : TxData) → unspend js (unspend is x) ≡ unspend (is ++ js) x
unspend_append is js x = elim (Bool-cases (is_live x)) [
  | inl e ↦ rw e (rw e (marks_append false is js x))
  | inr e ↦ rw e (rw e refl)
]

pub other_connected :
    (j height : ℕ) (txs : List Tx) (x : TxData)
    → is_among j txs ≡ false
    → connected j height txs x ≡ mark_entry true (all_refs j txs) x
other_connected j height [] x = λ _. refl
other_connected j height (tx ∷ txs) x = elim (Bool-cases (tx.sha == j)) [
  | inl e ↦ rw e (λ h. absurd (cc))
  | inr e ↦ rw e (λ h.
      other_connected j height txs _ h ∙ marks_append true (refs j tx.tx_in) (all_refs j txs) x)
]

other_disconnected :
    (j : ℕ) (txs : List Tx) (x : TxData)
    → is_among j txs ≡ false
    → disconnected j txs x ≡ unspend (all_refs j txs) x
other_disconnected j [] x = λ _. unspend_nil x
other_disconnected j (tx ∷ txs) x = elim (Bool-cases (tx.sha == j)) [
  | inl e ↦ rw e (λ h. absurd (cc))
  | inr e ↦
      rw e (λ h. other_disconnected j txs _ h ∙ unspend_append (refs j tx.tx_in) (all_refs j txs) x)
]

-- An entry of the store before a block: a transaction of the block is cleared; another one is not
-- referred to by the block, or it is there and the outputs that are referred to are not spent.
pub data IsReady (txs : List Tx) (j : ℕ) (x : TxData) : Type 0 where
  own : is_among j txs ≡ true → cleared x ≡ x → IsReady txs j x
  apart : is_among j txs ≡ false → all_refs j txs ≡ [] → IsReady txs j x
  unspent :
      is_among j txs ≡ false
      → is_live x ≡ true
      → AllUnspent (all_refs j txs) x.spent
      → IsReady txs j x

entry_back :
    (height : ℕ) (txs : List Tx) (j : ℕ) (x : TxData)
    → IsReady txs j x
    → disconnected j txs (connected j height txs x) ≡ x
entry_back height txs j x (own among clear) =
    own_cleared j txs (connected j height txs x) among ∙ cleared-connected j height txs x ∙ clear
entry_back height txs j x (apart among none_of) =
    other_disconnected j txs (connected j height txs x) among
    ∙ ap (unspend (all_refs j txs)) (other_connected j height txs x among)
    ∙ ap (λ l. unspend l (mark_entry true l x)) none_of
    ∙ sym (unspend_nil x)
entry_back height txs j x (unspent among live fresh) =
    other_disconnected j txs (connected j height txs x) among
    ∙ ap (unspend (all_refs j txs)) (other_connected j height txs x among)
    ∙ rw live (ap (λ l. record x { spent = l }) (puts_undo (all_refs j txs) x.spent fresh))

-- Where each entry is ready for the transactions of a block, connectTransactions with them and then
-- disconnectTransactions, if neither panics, give each entry back as it was.
pub connect_transactions-undo :
    (height : ℕ) (txs : List Tx) (store mid last : TxStore) (j : ℕ)
    → ((k : ℕ) (x : TxData) → lookup k store ≡ some x → IsReady txs k x)
    → connect_transactions height txs store ≡ ok mid
    → disconnect_transactions txs mid ≡ ok last
    → lookup j last ≡ lookup j store
connect_transactions-undo height txs store mid last j ready forth back =
    disconnect_transactions-lookup txs mid last j back
    ∙ ap (map_entry (disconnected j txs)) (connect_transactions-lookup height txs store mid j forth)
    ∙ map_entry_twice _ _ (lookup j store)
    ∙ elim (Option-cases (lookup j store)) [
      | inl e ↦ rw e refl
      | inr (x, e) ↦ rw e (ap some (entry_back height txs j x (ready j x e)))
    ]
