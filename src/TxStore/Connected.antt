-- ===== src/TxStore/Connected.antt =====
-- What connectTransactions and disconnectTransactions do to each entry of the store, and the way back
-- (txlookup.go).
use btcchain.Common.{
  ℕ, ◌%◌, ◌^◌, ◌≡◌, refl, sym, ◌∙◌, ap, inl, inr, ltb, ◌==◌, ==_iff, Bool, true, Bool-cases, Option,
  none, some, Option-cases, List, [], ◌∷◌, length, get_elem?, set, if◌then◌else◌, lookup, insert,
  lookup-insert, ok, ok_inj, >>=-ok_then,
}
use btcchain.Wire.{OutPoint, TxIn}
use btcchain.TxStore.{TxData, TxStore, mark_output, spend_inputs}
use btcchain.TxStore.Undo.{puts}

abbrev pub map_entry : (TxData → TxData) → Option TxData → Option TxData
map_entry f none = none
map_entry f (some entry) = some (f entry)

pub map_entry_twice :
    (f g : TxData → TxData) (o : Option TxData)
    → map_entry f (map_entry g o) ≡ map_entry (λ entry. f (g entry)) o
map_entry_twice f g none = refl
map_entry_twice f g (some entry) = refl

pub map_entry_same : (o : Option TxData) → o ≡ map_entry (λ entry. entry) o
map_entry_same none = refl
map_entry_same (some entry) = refl

-- A write at one hash, seen from another one.
pub lookup-write :
    (j h : ℕ) (f : TxData → TxData) (entry : TxData) (store : TxStore)
    → lookup h store ≡ some entry
    → lookup j (insert h (f entry) store)
      ≡ map_entry (λ x. if h == j then f x else x) (lookup j store)
lookup-write j h f entry store found =
    lookup-insert h j (f entry) store ∙ elim (Bool-cases (h == j)) [
      | inl e ↦ rw e (ap (map_entry f) (sym found ∙ ap (λ q. lookup q store) ((==_iff h j).0 e)))
      | inr e ↦ rw e (map_entry_same (lookup j store))
    ]

-- The places at which the inputs refer to a hash.
abbrev pub refs : ℕ → List TxIn → List ℕ
refs j [] = []
refs j (i ∷ ins) =
    if i.previous_out_point.hash == j then i.previous_out_point.index ∷ refs j ins else refs j ins

abbrev pub mark_entry : Bool → List ℕ → TxData → TxData
mark_entry mark is entry = record entry { spent = puts mark is entry.spent }

pub no_write :
    (j h : ℕ) (f : TxData → TxData) (entry : TxData) (store : TxStore)
    → lookup h store ≡ some entry
    → f entry ≡ entry
    → lookup j store ≡ map_entry (λ x. if h == j then f x else x) (lookup j store)
no_write j h f entry store found same = elim (Bool-cases (h == j)) [
  | inl e ↦
      let there : lookup j store ≡ some entry =
        ap (λ q. lookup q store) (sym ((==_iff h j).0 e)) ∙ found in
      rw e (there ∙ ap some (sym same) ∙ ap (map_entry f) (sym there))
  | inr e ↦ rw e (map_entry_same (lookup j store))
]

pub absent :
    (j h : ℕ) (f : TxData → TxData) (store : TxStore)
    → lookup h store ≡ none
    → lookup j store ≡ map_entry (λ x. if h == j then f x else x) (lookup j store)
absent j h f store missing = elim (Bool-cases (h == j)) [
  | inl e ↦
      let gone : lookup j store ≡ none =
        ap (λ q. lookup q store) (sym ((==_iff h j).0 e)) ∙ missing in
      gone ∙ ap (map_entry (λ x. if h == j then f x else x)) (sym gone)
  | inr e ↦ rw e (map_entry_same (lookup j store))
]

pub mark_output-write :
    (mark : Bool) (f : TxData → TxData) (entry : TxData) (p : OutPoint) (store next : TxStore)
    (j : ℕ)
    → lookup p.hash store ≡ some entry
    → f entry ≡ mark_entry mark (p.index ∷ []) entry
    → mark_output mark entry p store ≡ ok next
    → lookup j next ≡ map_entry (λ x. if p.hash == j then f x else x) (lookup j store)
unfolding mark_output
mark_output-write mark f entry p store next j found same =
    elim (Bool-cases (ltb (length entry.spent % 2 ^ 32) p.index)) [
      | inl e ↦
          rw (e, mark_output)
            (λ h.
              ap (lookup j) (sym (ok_inj h))
              ∙ no_write j p.hash f entry store found (same ∙ rw e refl))
      | inr e ↦ elim (Option-cases (get_elem? entry.spent p.index)) [
        | inl g ↦ rw (e, g, mark_output) (λ h. absurd (cc))
        | inr (m, g) ↦
            let written : record entry { spent = set entry.spent p.index mark } ≡ f entry =
              rw e refl ∙ sym same in
            rw (e, g, mark_output)
              (λ h.
                ap (lookup j) (sym (ok_inj h))
                ∙ ap (λ x. lookup j (insert p.hash x store)) written
                ∙ lookup-write j p.hash f entry store found)
      ]
    ]

then_marks :
    (mark : Bool) (j : ℕ) (i : TxIn) (ins : List TxIn) (x : TxData)
    → mark_entry mark (refs j ins) (
        if i.previous_out_point.hash == j
        then mark_entry mark (i.previous_out_point.index ∷ []) x
        else x)
      ≡ mark_entry mark (refs j (i ∷ ins)) x
then_marks mark j i ins x = elim (Bool-cases (i.previous_out_point.hash == j)) [
  | inl e ↦ rw e refl
  | inr e ↦ rw e refl
]

pub map_entry_ext :
    (f g : TxData → TxData)
    → ((x : TxData) → f x ≡ g x)
    → (o : Option TxData) → map_entry f o ≡ map_entry g o
map_entry_ext f g h none = refl
map_entry_ext f g h (some x) = ap some (h x)

pub spend_one :
    (i : TxIn) (store next : TxStore) (j : ℕ)
    → (elim (lookup i.previous_out_point.hash store) [
      | none ↦ ok store
      | some entry ↦ mark_output true entry i.previous_out_point store
    ])
      ≡ ok next
    → lookup j next
      ≡ map_entry
          (λ x.
            if i.previous_out_point.hash == j
            then mark_entry true (i.previous_out_point.index ∷ []) x
            else x)
          (lookup j store)
spend_one i store next j = elim (Option-cases (lookup i.previous_out_point.hash store)) [
  | inl e ↦
      rw e (λ h. ap (lookup j) (sym (ok_inj h)) ∙ absent j i.previous_out_point.hash _ store e)
  | inr (entry, e) ↦ rw e (
      mark_output-write true (mark_entry true (i.previous_out_point.index ∷ [])) entry
        i.previous_out_point store next j e refl)
]

pub spend_inputs-lookup :
    (ins : List TxIn) (store next : TxStore) (j : ℕ)
    → spend_inputs ins store ≡ ok next
    → lookup j next ≡ map_entry (mark_entry true (refs j ins)) (lookup j store)
unfolding spend_inputs
spend_inputs-lookup [] store next j =
    λ h. ap (lookup j) (sym (ok_inj h)) ∙ map_entry_same (lookup j store)
spend_inputs-lookup (i ∷ ins) store next j =
    >>=-ok_then
      (elim (lookup i.previous_out_point.hash store) [
        | none ↦ ok store
        | some entry ↦ mark_output true entry i.previous_out_point store
      ])
      (spend_inputs ins)
      λ mid one rest.
        spend_inputs-lookup ins mid next j rest
        ∙ ap (map_entry (mark_entry true (refs j ins))) (spend_one i store mid j one)
        ∙ map_entry_twice _ _ (lookup j store)
        ∙ map_entry_ext _ _ (then_marks true j i ins) (lookup j store)
