-- ===== src/TxStore/Returns.antt =====
-- disconnectTransactions after connectTransactions (txlookup.go): when it returns.
use btcchain.Common.{
  ℕ, ◌≡◌, refl, sym, ◌∙◌, ap, subst, inl, inr, ◌==◌, Bool, true, false, Bool-cases, none, some,
  some_inj, Option-cases, List, [], ◌∷◌, if◌then◌else◌, All, lookup, Result, ok, ◌>>=◌,
}
use btcchain.Wire.{OutPoint, Tx, TxIn}
use btcchain.TxStore.{
  TxData, TxStore, mark_output, unspend_inputs, clear_tx, connect_transactions,
  disconnect_transactions,
}
use btcchain.TxStore.Connected.{map_entry, refs}
use btcchain.TxStore.Effects.{
  is_live, cleared, unspend, unspend_one, clear_tx-lookup, unspend_inputs-lookup,
}
use btcchain.TxStore.Restored.{IsReady, connect_transactions-undo}
use btcchain.TxStore.Writable.{
  CanMark, puts-CanMark, CanMark-mark_output, Takes, IsOrdered, AllTake,
  connect_transactions-AllTake,
}

-- The entry that an output belongs to, if there is one and it is live, can be marked.
abbrev Frees : TxStore → OutPoint → Type 0
Frees store p =
    (x : TxData) → lookup p.hash store ≡ some x → is_live x ≡ true → CanMark p.index x.spent

Frees-later :
    (store next : TxStore) (p : OutPoint) (f : TxData → TxData)
    → ((x : TxData)
        → is_live (f x) ≡ true
        → (is_live x ≡ true) × (CanMark p.index x.spent → CanMark p.index (f x).spent))
    → lookup p.hash next ≡ map_entry f (lookup p.hash store)
    → Frees store p
    → Frees next p
Frees-later store next p f keeps same frees x found = elim (Option-cases (lookup p.hash store)) [
  | inl e ↦ absurd (cc (rw e at same))
  | inr (y, e) ↦
      let q : f y ≡ x = some_inj (sym (same ∙ ap (map_entry f) e) ∙ found) in
      subst (λ z. is_live z ≡ true → CanMark p.index z.spent) q
        (λ live. let (was, marks) = keeps y live in marks (frees y e was))
]

unspend_keeps :
    (is : List ℕ) (i : ℕ) (x : TxData)
    → is_live (unspend is x) ≡ true
    → (is_live x ≡ true) × (CanMark i x.spent → CanMark i (unspend is x).spent)
unspend_keeps is i x = elim (Bool-cases (is_live x)) [
  | inl e ↦ rw e (λ h. (refl, puts-CanMark false is i x.spent))
  | inr e ↦ rw e (λ h. absurd (cc))
]

clear_keeps :
    (b : Bool) (i : ℕ) (x : TxData)
    → is_live (if b then cleared x else x) ≡ true
    → (is_live x ≡ true) × (CanMark i x.spent → CanMark i (if b then cleared x else x).spent)
clear_keeps true i x h = absurd (cc)
clear_keeps false i x h = (h, λ c. c)

abbrev AllFree : TxStore → List TxIn → Type 0
AllFree store ins = All (λ i. Frees store i.previous_out_point) ins

free_after :
    (store next : TxStore)
    → ((p : OutPoint) → Frees store p → Frees next p)
    → (ins : List TxIn) → AllFree store ins
    → AllFree next ins
free_after store next keeps [] _ = tt
free_after store next keeps (i ∷ ins) (frees, more) =
    (keeps i.previous_out_point frees, free_after store next keeps ins more)

abbrev unspend_input : TxIn → TxStore → Result TxStore
unspend_input i store = elim (lookup i.previous_out_point.hash store) [
  | none ↦ ok store
  | some entry ↦ elim entry.tx [
    | none ↦ ok store
    | some _ ↦ elim entry.error [
      | some _ ↦ ok store
      | none ↦ mark_output false entry i.previous_out_point store
    ]
  ]
]

unspend_input-returns :
    (i : TxIn) (store : TxStore)
    → Frees store i.previous_out_point
    → (next : TxStore) × (unspend_input i store ≡ ok next)
unspend_input-returns i store frees = elim (Option-cases (lookup i.previous_out_point.hash store)) [
  | inl e ↦ rw (e, unspend_input) (store, refl)
  | inr (entry, e) ↦ elim (Option-cases entry.tx) [
    | inl f ↦ rw (e, f, unspend_input) (store, refl)
    | inr (tx, f) ↦ elim (Option-cases entry.error) [
      | inr (x, g) ↦ rw (e, f, g, unspend_input) (store, refl)
      | inl g ↦
          rw (e, f, g, unspend_input)
            (CanMark-mark_output false entry i.previous_out_point store
              (frees entry e (rw (f, g) refl)))
    ]
  ]
]

one-Frees :
    (i : TxIn) (store next : TxStore)
    → unspend_input i store ≡ ok next
    → (p : OutPoint) → Frees store p
    → Frees next p
one-Frees i store next h p =
    Frees-later store next p _
      (elim (Bool-cases (i.previous_out_point.hash == p.hash)) [
        | inl e ↦ rw e (unspend_keeps (i.previous_out_point.index ∷ []) p.index)
        | inr e ↦ rw e (λ x live. (live, λ c. c))
      ])
      (unspend_one i store next p.hash h)

unspend_inputs-returns :
    (ins : List TxIn) (store : TxStore)
    → AllFree store ins
    → (next : TxStore) × (unspend_inputs ins store ≡ ok next)
unfolding unspend_inputs
unspend_inputs-returns [] store _ = (store, refl)
unspend_inputs-returns (i ∷ ins) store (frees, more) =
    let (mid, one) = unspend_input-returns i store frees in
    let (next, rest) =
      unspend_inputs-returns ins mid (free_after store mid (one-Frees i store mid one) ins more) in
    (next, ap (λ r. r >>= unspend_inputs ins) one ∙ rest)

clear-Frees :
    (tx : Tx) (store : TxStore) (p : OutPoint) → Frees store p → Frees (clear_tx tx store) p
clear-Frees tx store p =
    Frees-later store (clear_tx tx store) p _ (clear_keeps (tx.sha == p.hash) p.index)
      (clear_tx-lookup tx store p.hash)

undo-Frees :
    (ins : List TxIn) (store next : TxStore)
    → unspend_inputs ins store ≡ ok next
    → (p : OutPoint) → Frees store p
    → Frees next p
undo-Frees ins store next h p =
    Frees-later store next p _ (unspend_keeps (refs p.hash ins) p.index)
      (unspend_inputs-lookup ins store next p.hash h)

abbrev AllFreeBlock : TxStore → List Tx → Type 0
AllFreeBlock store [] = Unit {0}
AllFreeBlock store (tx ∷ txs) = AllFree store tx.tx_in × AllFreeBlock store txs

free_block_after :
    (store next : TxStore)
    → ((p : OutPoint) → Frees store p → Frees next p)
    → (txs : List Tx) → AllFreeBlock store txs
    → AllFreeBlock next txs
free_block_after store next keeps [] _ = tt
free_block_after store next keeps (tx ∷ txs) (frees, more) =
    (free_after store next keeps tx.tx_in frees, free_block_after store next keeps txs more)

disconnect_transactions-returns :
    (txs : List Tx) (store : TxStore)
    → AllFreeBlock store txs
    → (last : TxStore) × (disconnect_transactions txs store ≡ ok last)
unfolding disconnect_transactions
disconnect_transactions-returns [] store _ = (store, refl)
disconnect_transactions-returns (tx ∷ txs) store (frees, more) =
    let clear = clear-Frees tx store in
    let (mid, one) =
      unspend_inputs-returns tx.tx_in (clear_tx tx store)
        (free_after store (clear_tx tx store) clear tx.tx_in frees) in
    let (last, rest) = disconnect_transactions-returns txs mid (
      free_block_after store mid
        (λ p f. undo-Frees tx.tx_in (clear_tx tx store) mid one p (clear p f)) txs more) in
    (last, ap (λ r. r >>= disconnect_transactions txs) one ∙ rest)

free_of_Takes :
    (store : TxStore) (ins : List TxIn)
    → All (λ i. Takes store i.previous_out_point) ins
    → AllFree store ins
free_of_Takes store [] _ = tt
free_of_Takes store (i ∷ ins) (takes, more) =
    ((λ x found _. takes x found), free_of_Takes store ins more)

block_of_takes : (store : TxStore) (txs : List Tx) → AllTake store txs → AllFreeBlock store txs
block_of_takes store [] _ = tt
block_of_takes store (tx ∷ txs) (takes, more) =
    (free_of_Takes store tx.tx_in takes, block_of_takes store txs more)

-- Where no input of a block refers to a later transaction of it and each entry is ready for the block,
-- disconnectTransactions after a connectTransactions that has not panicked does not panic either, and
-- gives each entry back as it was.
pub disconnect_transactions-restores :
    (height : ℕ) (txs : List Tx) (store mid : TxStore)
    → IsOrdered txs
    → ((k : ℕ) (x : TxData) → lookup k store ≡ some x → IsReady txs k x)
    → connect_transactions height txs store ≡ ok mid
    → (last : TxStore) × (disconnect_transactions txs mid ≡ ok last)
      × ((j : ℕ) → lookup j last ≡ lookup j store)
disconnect_transactions-restores height txs store mid ordered ready forth =
    let (last, back) =
      disconnect_transactions-returns txs mid (
        block_of_takes mid txs (connect_transactions-AllTake height txs store mid ordered forth)) in
    (last, back, λ j. connect_transactions-undo height txs store mid last j ready forth back)
