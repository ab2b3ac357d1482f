-- ===== src/Scripts/Passing.antt =====
-- The inputs of a block whose scripts pass (scriptval.go).
use btcchain.Common.{
  ℕ, suc, ◌%◌, ◌^◌, ◌≡◌, refl, ◌∙◌, ap, inl, inr, ◌⊎◌, none, some, Option-cases, List, [], ◌∷◌,
  ◌++◌, length, get_elem?, All, lookup, Bool, Bool-cases, ◌==◌, ==_iff, leb, Result, ok, err, rule,
  bad_tx_input, script_malformed, script_validation, reject_if, or_panic, or_panic-eq, >>=-ok_then,
  ok_inj,
}
use btcchain.Wire.{Tx, TxIn, TxOut, max_uint32}
use btcchain.TxStore.{TxData, TxStore}
use btcchain.Inputs.{find_origin}
use btcchain.Scripts.{
  ValidateItem, ScriptOutcome, malformed, refused, passed, items_from, items_of_block,
  validate_item,
}

-- The store has this transaction for the hash, without an error.
abbrev pub IsOrigin : TxStore → ℕ → Tx → Type 0
IsOrigin store hash origin =
    (entry : TxData) × (lookup hash store ≡ some entry)
    × (entry.error ≡ none)
    × (entry.tx ≡ some origin)

pub find_origin-IsOrigin :
    (store : TxStore) (hash : ℕ) (entry : TxData) (origin : Tx)
    → find_origin store hash ≡ ok (entry, origin)
    → IsOrigin store hash origin
unfolding find_origin
find_origin-IsOrigin store hash entry origin h = elim (Option-cases (lookup hash store)) [
  | inl e ↦ absurd (cc (rw (e, find_origin) at h))
  | inr (x, e) ↦ elim (Option-cases x.error) [
    | inr (y, f) ↦ absurd (cc (rw (e, f, find_origin) at h))
    | inl f ↦ elim (Option-cases x.tx) [
      | inl g ↦ absurd (cc (rw (e, f, g, find_origin) at h))
      | inr (t, g) ↦
          let pair : ok (x, t) ≡ ok (entry, origin) = rw (e, f, g, find_origin) at h in
          (x, e, f, g ∙ ap (λ q. some q.1) (ok_inj pair))
    ]
  ]
]

abbrev accepted : Result (Unit {0})
accepted = ok tt

module _ (run_script : List ℕ → List ℕ → ℕ → Tx → Bool → ScriptOutcome) where
  -- The output that the input at place j of the transaction spends is in the store, and its script
  -- passes with that of the input.
  abbrev pub IsPassing : TxStore → Bool → Tx → ℕ → TxIn → Type 0
  IsPassing store bip16 tx j input =
      (origin : Tx) × (out : TxOut) × IsOrigin store input.previous_out_point.hash origin
      × (get_elem? origin.tx_out input.previous_out_point.index ≡ some out)
      × (run_script input.signature_script out.pk_script j tx bip16 ≡ passed)

  -- The same of each input from place j on, but for those with a coinbase's index.
  abbrev pub InputsPass : TxStore → Bool → Tx → ℕ → List TxIn → Type 0
  InputsPass store bip16 tx j [] = Unit {0}
  InputsPass store bip16 tx j (input ∷ ins) =
      ((input.previous_out_point.index ≡ 4_294_967_295) ⊎ IsPassing store bip16 tx j input)
      × InputsPass store bip16 tx (suc j) ins

  -- And of all transactions.
  abbrev pub AllPass : TxStore → Bool → List Tx → Type 0
  AllPass store bip16 [] = Unit {0}
  AllPass store bip16 (tx ∷ txs) = InputsPass store bip16 tx 0 tx.tx_in × AllPass store bip16 txs

  verdict_passed :
      (o : ScriptOutcome)
      → (elim o [
        | malformed ↦ err (rule script_malformed)
        | refused ↦ err (rule script_validation)
        | passed ↦ ok tt
      ])
        ≡ accepted
      → o ≡ passed
  verdict_passed malformed h = absurd (cc)
  verdict_passed refused h = absurd (cc)
  verdict_passed passed h = refl

  validate_item-IsPassing :
      (store : TxStore) (bip16 : Bool) (item : ValidateItem)
      → validate_item run_script store bip16 item ≡ ok tt
      → IsPassing store bip16 item.tx item.tx_in_index item.tx_in
  unfolding validate_item
  validate_item-IsPassing store bip16 item =
      let p = item.tx_in.previous_out_point in
      >>=-ok_then (find_origin store p.hash) _ λ (entry, origin) found.
        >>=-ok_then (reject_if (leb (length origin.tx_out % 2 ^ 32) p.index) bad_tx_input) _ λ _ _.
          >>=-ok_then (or_panic (get_elem? origin.tx_out p.index)) _ λ out is_out h. (
            origin,
            out,
            find_origin-IsOrigin store p.hash entry origin found,
            or_panic-eq _ out is_out,
            verdict_passed _ h,
          )

  abbrev Valid : TxStore → Bool → ValidateItem → Type 0
  Valid store bip16 item = validate_item run_script store bip16 item ≡ ok tt

  items_from-InputsPass :
      (store : TxStore) (bip16 : Bool) (tx : Tx) (j : ℕ) (ins : List TxIn)
      → All (Valid store bip16) (items_from j tx ins)
      → InputsPass store bip16 tx j ins
  unfolding items_from
  items_from-InputsPass store bip16 tx j [] = λ _. tt
  items_from-InputsPass store bip16 tx j (input ∷ ins) =
      elim (Bool-cases (input.previous_out_point.index == max_uint32)) [
        | inl e ↦
            rw (e, items_from)
              (λ all.
                (inl ((==_iff _ _).0 e), items_from-InputsPass store bip16 tx (suc j) ins all))
        | inr e ↦
            rw (e, items_from)
              (λ (one, all). (
                inr (
                    validate_item-IsPassing store bip16
                      (record { tx_in_index = j; tx_in = input; tx = tx }) one),
                items_from-InputsPass store bip16 tx (suc j) ins all,
              ))
      ]

  All-split :
      (P : ValidateItem → Type 0) (xs ys : List ValidateItem)
      → All P (xs ++ ys)
      → All P xs × All P ys
  All-split P [] ys all = (tt, all)
  All-split P (x ∷ xs) ys (p, all) = let (left, right) = All-split P xs ys all in ((p, left), right)

  pub items_of_block-AllPass :
      (store : TxStore) (bip16 : Bool) (txs : List Tx)
      → All (Valid store bip16) (items_of_block txs)
      → AllPass store bip16 txs
  unfolding items_of_block
  items_of_block-AllPass store bip16 [] all = tt
  items_of_block-AllPass store bip16 (tx ∷ txs) all =
      let (left, right) =
        All-split (Valid store bip16) (items_from 0 tx tx.tx_in) (items_of_block txs) all in
      (
        items_from-InputsPass store bip16 tx 0 tx.tx_in left,
        items_of_block-AllPass store bip16 txs right,
      )
