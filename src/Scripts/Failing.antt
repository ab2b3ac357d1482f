-- ===== src/Scripts/Failing.antt =====
-- The inputs of a block whose check fails, and the error (scriptval.go).
use btcchain.Common.{
  ℕ, zero, suc, ◌+◌, ◌%◌, ◌^◌, ◌≤◌, ◌<◌, ◌≡◌, ◌≢◌, refl, sym, ◌∙◌, ap, subst, arith, inl, inr, ◌⊎◌,
  none, some, Option-cases, some_inj, List, [], ◌∷◌, ◌++◌, length, get_elem?, lookup, Bool, false,
  Bool-cases, ◌==◌, leb, err, Error, rule, missing_tx, bad_tx_input, script_malformed,
  script_validation, Result-cases,
}
use btcchain.Wire.{Tx, TxIn, TxOut, max_uint32}
use btcchain.TxStore.{TxStore}
use btcchain.Inputs.{find_origin}
use btcchain.Scripts.{
  ValidateItem, ScriptOutcome, malformed, refused, passed, items_from, items_of_block,
  validate_item,
}
use btcchain.Scripts.Passing.{IsOrigin, find_origin-IsOrigin}

find_origin-missing :
    (store : TxStore) (hash : ℕ) (e : Error)
    → find_origin store hash ≡ err e
    → (rule missing_tx ≡ e) × ((origin : Tx) → ¬ IsOrigin store hash origin)
unfolding find_origin
find_origin-missing store hash e h = elim (Option-cases (lookup hash store)) [
  | inl f ↦
      let same : err (rule missing_tx) ≡ err e = rw (f, find_origin) at h in
      (cc, λ origin (x, at, _, _). absurd (cc))
  | inr (x, f) ↦ elim (Option-cases x.error) [
    | inr (y, g) ↦
        let same : err (rule missing_tx) ≡ err e = rw (f, g, find_origin) at h in
        (
          cc,
          λ origin (x', at, fine, _).
              absurd (cc (subst (λ z. z.error ≡ some y) (some_inj (sym f ∙ at)) g)),
        )
    | inl g ↦ elim (Option-cases x.tx) [
      | inl t ↦
          let same : err (rule missing_tx) ≡ err e = rw (f, g, t, find_origin) at h in
          (
            cc,
            λ origin (x', at, _, has).
                absurd (cc (subst (λ z. z.tx ≡ none) (some_inj (sym f ∙ at)) t)),
          )
      | inr (tx, t) ↦ absurd (cc (rw (f, g, t, find_origin) at h))
    ]
  ]
]

module _ (run_script : List ℕ → List ℕ → ℕ → Tx → Bool → ScriptOutcome) where
  -- Why an input fails, and with which error: its transaction is not in the store or has no such
  -- output, or the scripts cannot be read or do not pass.
  pub data Refuses (store : TxStore) (bip16 : Bool) (tx : Tx) (j : ℕ) (input : TxIn)
      : Error → Type 0 where
    no_origin :
        ((origin : Tx) → ¬ IsOrigin store input.previous_out_point.hash origin)
        → Refuses store bip16 tx j input (rule missing_tx)
    no_output :
        (origin : Tx)
        → IsOrigin store input.previous_out_point.hash origin
        → length origin.tx_out % 2 ^ 32 ≤ input.previous_out_point.index
        → Refuses store bip16 tx j input (rule bad_tx_input)
    unreadable :
        (origin : Tx) (out : TxOut)
        → IsOrigin store input.previous_out_point.hash origin
        → get_elem? origin.tx_out input.previous_out_point.index ≡ some out
        → run_script input.signature_script out.pk_script j tx bip16 ≡ malformed
        → Refuses store bip16 tx j input (rule script_malformed)
    invalid :
        (origin : Tx) (out : TxOut)
        → IsOrigin store input.previous_out_point.hash origin
        → get_elem? origin.tx_out input.previous_out_point.index ≡ some out
        → run_script input.signature_script out.pk_script j tx bip16 ≡ refused
        → Refuses store bip16 tx j input (rule script_validation)

  in_range : {A : Type 0} (l : List A) (i : ℕ) → i < length l → (a : A) × (get_elem? l i ≡ some a)
  in_range [] i h = absurd (omega arith)
  in_range (a ∷ l) zero h = (a, refl)
  in_range (a ∷ l) (suc i) h = in_range l i (omega arith)

  outcome_cases : (o : ScriptOutcome) → (o ≡ malformed) ⊎ ((o ≡ refused) ⊎ (o ≡ passed))
  outcome_cases malformed = inl refl
  outcome_cases refused = inr (inl refl)
  outcome_cases passed = inr (inr refl)

  validate_item-Refuses :
      (store : TxStore) (bip16 : Bool) (item : ValidateItem) (e : Error)
      → validate_item run_script store bip16 item ≡ err e
      → Refuses store bip16 item.tx item.tx_in_index item.tx_in e
  unfolding validate_item
  validate_item-Refuses store bip16 item e h =
      let p = item.tx_in.previous_out_point in
      elim (Result-cases (find_origin store p.hash)) [
        | inr (x, f) ↦
            let (same, missing) = find_origin-missing store p.hash x f in
            let stop : err x ≡ err e = rw (f, validate_item) at h in
            subst (Refuses store bip16 item.tx item.tx_in_index item.tx_in) (same ∙ cc)
              (no_origin missing)
        | inl ((entry, origin), f) ↦
            let there = find_origin-IsOrigin store p.hash entry origin f in
            elim (Bool-cases (leb (length origin.tx_out % 2 ^ 32) p.index)) [
              | inl g ↦
                  let stop : err (rule bad_tx_input) ≡ err e = rw (f, g, validate_item) at h in
                  subst (Refuses store bip16 item.tx item.tx_in_index item.tx_in) (cc)
                    (no_output origin there (ground arith))
              | inr g ↦
                  let (out, is_out) = in_range origin.tx_out p.index (ground arith) in
                  elim (outcome_cases (
                    run_script item.tx_in.signature_script out.pk_script item.tx_in_index item.tx
                      bip16)) [
                        | inl o ↦
                            let stop : err (rule script_malformed) ≡ err e =
                              rw (f, g, is_out, o, validate_item) at h in
                            subst (Refuses store bip16 item.tx item.tx_in_index item.tx_in) (cc)
                              (unreadable origin out there is_out o)
                        | inr (inl o) ↦
                            let stop : err (rule script_validation) ≡ err e =
                              rw (f, g, is_out, o, validate_item) at h in
                            subst (Refuses store bip16 item.tx item.tx_in_index item.tx_in) (cc)
                              (invalid origin out there is_out o)
                        | inr (inr o) ↦ absurd (cc (rw (f, g, is_out, o, validate_item) at h))
                      ]
            ]
      ]

  -- The item stands for one of the inputs, which are at the places from j on.
  abbrev IsAmong : ℕ → Tx → List TxIn → ValidateItem → Type 0
  IsAmong j tx ins item =
      (tx ≡ item.tx)
      × (k : ℕ) × (j + k ≡ item.tx_in_index)
      × (get_elem? ins k ≡ some item.tx_in)
      × (item.tx_in.previous_out_point.index ≢ 4_294_967_295)

  later-IsAmong :
      (j : ℕ) (tx : Tx) (input : TxIn) (ins : List TxIn) (item : ValidateItem)
      → IsAmong (suc j) tx ins item
      → IsAmong j tx (input ∷ ins) item
  later-IsAmong j tx input ins item (same, k, place, at, plain) =
      (same, suc k, omega arith, at, plain)

  list-IsAmong :
      (j : ℕ) (tx : Tx) (input : TxIn) (ins : List TxIn) (item : ValidateItem)
      (rest : List ValidateItem) (i : ℕ)
      → (input.previous_out_point.index == max_uint32) ≡ false
      → ((i : ℕ) → get_elem? rest i ≡ some item → IsAmong (suc j) tx ins item)
      → get_elem? (record { tx_in_index = j; tx_in = input; tx = tx } ∷ rest) i ≡ some item
      → IsAmong j tx (input ∷ ins) item
  list-IsAmong j tx input ins item rest zero e later h =
      subst (IsAmong j tx (input ∷ ins)) (some_inj h)
        (refl, 0, omega arith, refl, λ z. ground arith)
  list-IsAmong j tx input ins item rest (suc i) e later h =
      later-IsAmong j tx input ins item (later i h)

  items_from-IsAmong :
      (j : ℕ) (tx : Tx) (ins : List TxIn) (i : ℕ) (item : ValidateItem)
      → get_elem? (items_from j tx ins) i ≡ some item
      → IsAmong j tx ins item
  unfolding items_from
  items_from-IsAmong j tx [] i item = λ h. absurd (cc)
  items_from-IsAmong j tx (input ∷ ins) i item =
      elim (Bool-cases (input.previous_out_point.index == max_uint32)) [
        | inl e ↦
            rw (e, items_from)
              (λ h. later-IsAmong j tx input ins item (items_from-IsAmong (suc j) tx ins i item h))
        | inr e ↦
            rw (e, items_from)
              (list-IsAmong j tx input ins item (items_from (suc j) tx ins) i e
                λ i' h. items_from-IsAmong (suc j) tx ins i' item h)
      ]

  in_append :
      {A : Type 0} (xs ys : List A) (i : ℕ) (a : A)
      → get_elem? (xs ++ ys) i ≡ some a
      → (get_elem? xs i ≡ some a) ⊎ ((k : ℕ) × (get_elem? ys k ≡ some a))
  in_append [] ys i a h = inr (i, h)
  in_append (x ∷ xs) ys zero a h = inl h
  in_append (x ∷ xs) ys (suc i) a h = in_append xs ys i a h

  -- The input is that of a transaction of the list, at its place, with no coinbase's index.
  abbrev pub IsInput : List Tx → Tx → ℕ → TxIn → Type 0
  IsInput txs tx j input =
      (t : ℕ) × (get_elem? txs t ≡ some tx)
      × (get_elem? tx.tx_in j ≡ some input)
      × (input.previous_out_point.index ≢ 4_294_967_295)

  IsAmong-IsInput :
      (tx : Tx) (txs : List Tx) (item : ValidateItem)
      → IsAmong 0 tx tx.tx_in item
      → IsInput (tx ∷ txs) item.tx item.tx_in_index item.tx_in
  IsAmong-IsInput tx txs item (same, k, place, at, plain) =
      let q : k ≡ item.tx_in_index = omega arith in
      (
        0,
        ap some same,
        sym (ap (get_elem? item.tx.tx_in) q) ∙ sym (ap (λ (t : Tx). get_elem? t.tx_in k) same) ∙ at,
        plain,
      )

  items_of_block-IsInput :
      (txs : List Tx) (i : ℕ) (item : ValidateItem)
      → get_elem? (items_of_block txs) i ≡ some item
      → IsInput txs item.tx item.tx_in_index item.tx_in
  unfolding items_of_block
  items_of_block-IsInput [] i item h = absurd (cc)
  items_of_block-IsInput (tx ∷ txs) i item h =
      elim (in_append (items_from 0 tx tx.tx_in) (items_of_block txs) i item h) [
        | inl e ↦ IsAmong-IsInput tx txs item (items_from-IsAmong 0 tx tx.tx_in i item e)
        | inr (k, e) ↦
            let (t, at, place, plain) = items_of_block-IsInput txs k item e in
            (suc t, at, place, plain)
      ]

  -- An input of the transactions fails with this error.
  abbrev pub AnyRefuses : TxStore → Bool → List Tx → Error → Type 0
  AnyRefuses store bip16 txs e =
      (tx : Tx) × (j : ℕ) × (input : TxIn) × IsInput txs tx j input
      × Refuses store bip16 tx j input e

  pub items_of_block-AnyRefuses :
      (store : TxStore) (bip16 : Bool) (txs : List Tx) (i : ℕ) (item : ValidateItem) (e : Error)
      → get_elem? (items_of_block txs) i ≡ some item
      → validate_item run_script store bip16 item ≡ err e
      → AnyRefuses store bip16 txs e
  items_of_block-AnyRefuses store bip16 txs i item e at fails = (
    item.tx,
    item.tx_in_index,
    item.tx_in,
    items_of_block-IsInput txs i item at,
    validate_item-Refuses store bip16 item e fails,
  )
