-- ===== src/TxStore/Writable.antt =====
-- The outputs that can be marked after connectTransactions (txlookup.go).
use btcchain.Common.{
  ℕ, ◌%◌, ◌^◌, ◌≡◌, refl, sym, ◌∙◌, ap, subst, inl, inr, ◌⊎◌, ltb, Bool, true, false, Bool-cases,
  some, some_inj, Option-cases, List, [], ◌∷◌, length, get_elem?, All, lookup, ok, >>=-ok_then,
}
use btcchain.Wire.{OutPoint, Tx, TxIn}
use btcchain.TxStore.{TxData, TxStore, mark_output, spend_inputs, add_tx, connect_transactions}
use btcchain.TxStore.Undo.{puts, length-puts, get_elem?-puts, written, over}
use btcchain.TxStore.Connected.{map_entry, map_entry_ext, mark_entry, refs, spend_inputs-lookup}
use btcchain.TxStore.Effects.{connect_transactions-lookup}
use btcchain.TxStore.Restored.{is_among, all_refs, other_connected}

-- A write at the place does not panic.
abbrev pub CanMark : ℕ → List Bool → Type 0
CanMark i spent =
    (ltb (length spent % 2 ^ 32) i ≡ true) ⊎ ((m : Bool) × (get_elem? spent i ≡ some m))

pub puts-CanMark :
    (mark : Bool) (is : List ℕ) (i : ℕ) (spent : List Bool)
    → CanMark i spent
    → CanMark i (puts mark is spent)
puts-CanMark mark is i spent (inl e) =
    inl (ap (λ n. ltb (n % 2 ^ 32) i) (length-puts mark is spent) ∙ e)
puts-CanMark mark is i spent (inr (m, e)) = elim (Bool-cases (written (length spent) is i)) [
  | inl w ↦ inr (mark, get_elem?-puts mark is spent i ∙ rw w (ap (over mark) e))
  | inr w ↦ inr (m, get_elem?-puts mark is spent i ∙ rw w e)
]

mark_output-CanMark :
    (mark : Bool) (entry : TxData) (p : OutPoint) (store next : TxStore)
    → mark_output mark entry p store ≡ ok next
    → CanMark p.index entry.spent
unfolding mark_output
mark_output-CanMark mark entry p store next =
    elim (Bool-cases (ltb (length entry.spent % 2 ^ 32) p.index)) [
      | inl e ↦ λ _. inl e
      | inr e ↦ elim (Option-cases (get_elem? entry.spent p.index)) [
        | inl f ↦ rw (e, f, mark_output) (λ h. absurd (cc))
        | inr (m, f) ↦ λ _. inr (m, f)
      ]
    ]

pub CanMark-mark_output :
    (mark : Bool) (entry : TxData) (p : OutPoint) (store : TxStore)
    → CanMark p.index entry.spent
    → (next : TxStore) × (mark_output mark entry p store ≡ ok next)
unfolding mark_output
CanMark-mark_output mark entry p store (inl e) = rw (e, mark_output) (store, refl)
CanMark-mark_output mark entry p store (inr (m, f)) =
    elim (Bool-cases (ltb (length entry.spent % 2 ^ 32) p.index)) [
      | inl e ↦ rw (e, mark_output) (store, refl)
      | inr e ↦ rw (e, f, mark_output) (_, refl)
    ]

-- The entry that an output belongs to, if there is one, can be marked.
abbrev pub Takes : TxStore → OutPoint → Type 0
Takes store p = (x : TxData) → lookup p.hash store ≡ some x → CanMark p.index x.spent

Takes-later :
    (store next : TxStore) (p : OutPoint) (is : List ℕ)
    → lookup p.hash next ≡ map_entry (mark_entry true is) (lookup p.hash store)
    → Takes store p
    → Takes next p
Takes-later store next p is same takes x found = elim (Option-cases (lookup p.hash store)) [
  | inl e ↦ absurd (cc (rw e at same))
  | inr (y, e) ↦
      let q : some (mark_entry true is y) ≡ some x =
        sym (same ∙ ap (map_entry (mark_entry true is)) e) ∙ found in
      subst (λ z. CanMark p.index z.spent) (some_inj q)
        (puts-CanMark true is p.index y.spent (takes y e))
]

spend_inputs-CanMark :
    (i : TxIn) (ins : List TxIn) (store next : TxStore) (x : TxData)
    → lookup i.previous_out_point.hash store ≡ some x
    → spend_inputs (i ∷ ins) store ≡ ok next
    → CanMark i.previous_out_point.index x.spent
unfolding spend_inputs
spend_inputs-CanMark i ins store next x found =
    rw (found, spend_inputs)
      (>>=-ok_then (mark_output true x i.previous_out_point store) (spend_inputs ins)
        λ mid one _. mark_output-CanMark true x i.previous_out_point store mid one)

spend_inputs-Takes :
    (ins : List TxIn) (store next : TxStore)
    → spend_inputs ins store ≡ ok next
    → All (λ i. Takes next i.previous_out_point) ins
unfolding spend_inputs
spend_inputs-Takes [] store next = λ _. tt
spend_inputs-Takes (i ∷ ins) store next = λ h. (
  Takes-later store next i.previous_out_point (refs i.previous_out_point.hash (i ∷ ins))
      (spend_inputs-lookup (i ∷ ins) store next i.previous_out_point.hash h)
      (λ x found. spend_inputs-CanMark i ins store next x found h),
  >>=-ok_then _ (spend_inputs ins) (λ mid _ rest. spend_inputs-Takes ins mid next rest) h,
)

-- No input refers to a transaction that comes later.
abbrev pub IsOrdered : List Tx → Type 0
IsOrdered [] = Unit {0}
IsOrdered (tx ∷ txs) =
    All (λ i. is_among i.previous_out_point.hash txs ≡ false) tx.tx_in × IsOrdered txs

abbrev pub AllTake : TxStore → List Tx → Type 0
AllTake store [] = Unit {0}
AllTake store (tx ∷ txs) = All (λ i. Takes store i.previous_out_point) tx.tx_in × AllTake store txs

Takes-after :
    (height : ℕ) (txs : List Tx) (store next : TxStore) (ins : List TxIn)
    → connect_transactions height txs store ≡ ok next
    → All (λ i. is_among i.previous_out_point.hash txs ≡ false) ins
    → All (λ i. Takes store i.previous_out_point) ins
    → All (λ i. Takes next i.previous_out_point) ins
Takes-after height txs store next [] h _ _ = tt
Takes-after height txs store next (i ∷ ins) h (other, others) (takes, more) = (
  Takes-later store next i.previous_out_point (all_refs i.previous_out_point.hash txs)
      (connect_transactions-lookup height txs store next i.previous_out_point.hash h
        ∙ map_entry_ext _ _ (λ x. other_connected i.previous_out_point.hash height txs x other)
            (lookup i.previous_out_point.hash store))
      takes,
  Takes-after height txs store next ins h others more,
)

pub connect_transactions-AllTake :
    (height : ℕ) (txs : List Tx) (store next : TxStore)
    → IsOrdered txs
    → connect_transactions height txs store ≡ ok next
    → AllTake next txs
unfolding connect_transactions
connect_transactions-AllTake height [] store next _ = λ _. tt
connect_transactions-AllTake height (tx ∷ txs) store next (here, ordered) =
    >>=-ok_then (spend_inputs tx.tx_in (add_tx tx height store)) (connect_transactions height txs)
      λ mid one rest. (
        Takes-after height txs mid next tx.tx_in rest here
            (spend_inputs-Takes tx.tx_in (add_tx tx height store) mid one),
        connect_transactions-AllTake height txs mid next ordered rest,
      )
