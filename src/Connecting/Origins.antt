-- ===== src/Connecting/Origins.antt =====
-- CheckTransactionInputs marks outputs and leaves the transactions of a store as they are (validate.go).
use btcchain.Common.{
  ℕ, ◌≡◌, refl, sym, ◌∙◌, ap, subst, inl, inr, some, some_inj, List, [], ◌∷◌, Bool, Bool-cases,
  ◌==◌, ==_iff, lookup, insert, lookup-insert, Result, ok, >>=-ok_then, ok_inj, reject_if, bad_fees,
  suc,
}
use btcchain.Common.Int.{ℤ, pos, int64, ◌+ℤ◌, ltb_ℤ}
use btcchain.Wire.{Tx, TxIn}
use btcchain.Validate.{Packages, is_coin_base}
use btcchain.TxStore.{TxData, TxStore}
use btcchain.TxStore.Marks.{spend_in}
use btcchain.Inputs.{check_input, check_inputs, check_transaction_inputs}
use btcchain.Inputs.Spending.{check_input-Round, check_transaction_inputs-parts}
use btcchain.Scripts.{ScriptOutcome}
use btcchain.Scripts.Passing.{IsOrigin, InputsPass, AllPass}
use btcchain.CoinAge.{get_coin_age_tx}
use btcchain.Chain.State.{Env}
use btcchain.Chain.Lookup.{TxDb}
use btcchain.Connecting.{ConnectParams, check_all_inputs}

mark-IsOrigin :
    (store : TxStore) (entry : TxData) (h i hash : ℕ) (origin : Tx)
    → lookup h store ≡ some entry
    → IsOrigin (insert h (spend_in entry i) store) hash origin
    → IsOrigin store hash origin
mark-IsOrigin store entry h i hash origin found (x, at, fine, has) = elim (Bool-cases (h == hash)) [
  | inl e ↦
      let same : spend_in entry i ≡ x =
        some_inj (sym (lookup-insert h hash (spend_in entry i) store ∙ rw e refl) ∙ at) in
      (
        entry,
        ap (λ k. lookup k store) (sym ((==_iff h hash).0 e)) ∙ found,
        ap (λ y. y.error) same ∙ fine,
        ap (λ y. y.tx) same ∙ has,
      )
  | inr e ↦ (x, sym (lookup-insert h hash (spend_in entry i) store ∙ rw e refl) ∙ at, fine, has)
]

module _ (packages : Packages) (maturity : ℤ) (coin_age : Tx → TxStore → Result ℕ) where
  check_inputs-IsOrigin :
      (tx : Tx) (height : ℤ) (ins : List TxIn) (total : ℤ) (store : TxStore) (sum : ℤ)
      (next : TxStore) (hash : ℕ) (origin : Tx)
      → check_inputs packages maturity coin_age tx height ins total store ≡ ok (sum, next)
      → IsOrigin next hash origin
      → IsOrigin store hash origin
  unfolding check_inputs
  check_inputs-IsOrigin tx height [] total store sum next hash origin h =
      subst (λ s. IsOrigin s hash origin) (sym (ap (λ x. x.1) (ok_inj h)))
  check_inputs-IsOrigin tx height (i ∷ ins) total store sum next hash origin h =
      >>=-ok_then (check_input packages maturity coin_age tx height i total store) _
        (λ (mid, after) one rest known.
          let round =
            check_input-Round packages maturity coin_age tx height i total store mid after one in
          mark-IsOrigin store round.entry i.previous_out_point.hash i.previous_out_point.index hash
            origin round.found
            (subst (λ s. IsOrigin s hash origin) round.marked
              (check_inputs-IsOrigin tx height ins mid after sum next hash origin rest known)))
        h

  check_transaction_inputs-IsOrigin :
      (tx : Tx) (height : ℤ) (store : TxStore) (fee : ℤ) (next : TxStore) (hash : ℕ) (origin : Tx)
      → check_transaction_inputs packages maturity coin_age tx height store ≡ ok (fee, next)
      → IsOrigin next hash origin
      → IsOrigin store hash origin
  unfolding check_transaction_inputs
  check_transaction_inputs-IsOrigin tx height store fee next hash origin h =
      elim (Bool-cases (is_coin_base tx)) [
        | inl e ↦
            let same : ok (pos 0, store) ≡ ok (fee, next) = rw (e, check_transaction_inputs) at h in
            subst (λ s. IsOrigin s hash origin) (sym (ap (λ x. x.1) (ok_inj same)))
        | inr e ↦
            let (total, loop, _) =
              check_transaction_inputs-parts packages maturity coin_age tx height store fee next e
                h in
            check_inputs-IsOrigin tx height tx.tx_in (pos 0) store total next hash origin loop
      ]

module _ {S : Type 0} (env : Env S) (txs : TxDb S) (packages : Packages)
    (params : ConnectParams) where
  pub check_all_inputs-IsOrigin :
      (db : S) (height : ℕ) (list : List Tx) (store : TxStore) (fees : ℤ) (last : ℤ × TxStore)
      (hash : ℕ) (origin : Tx)
      → check_all_inputs env txs packages params db height store fees list ≡ ok last
      → IsOrigin last.1 hash origin
      → IsOrigin store hash origin
  unfolding check_all_inputs
  check_all_inputs-IsOrigin db height [] store fees last hash origin h =
      subst (λ s. IsOrigin s hash origin) (sym (ap (λ x. x.1) (ok_inj h)))
  check_all_inputs-IsOrigin db height (tx ∷ later) store fees last hash origin h =
      >>=-ok_then
        (check_transaction_inputs packages params.coinbase_maturity
          (get_coin_age_tx env params.stake_min_age db) tx (pos height) store)
        _
        (λ (fee, next) one.
          >>=-ok_then (reject_if (ltb_ℤ (int64 (fees +ℤ fee)) fees) bad_fees) _ λ _ _ rest known.
            check_transaction_inputs-IsOrigin packages params.coinbase_maturity
              (get_coin_age_tx env params.stake_min_age db) tx (pos height) store fee next hash
              origin one
              (check_all_inputs-IsOrigin db height later next (int64 (fees +ℤ fee)) last hash origin
                rest known))
        h

-- Inputs that pass with one store pass with another one that has its transactions.
module _ (run_script : List ℕ → List ℕ → ℕ → Tx → Bool → ScriptOutcome) (store marked : TxStore)
    (bip16 : Bool)
    (known : (hash : ℕ) (origin : Tx)
      → IsOrigin marked hash origin
      → IsOrigin store hash origin) where
  inputs_pass :
      (tx : Tx) (j : ℕ) (ins : List TxIn)
      → InputsPass run_script marked bip16 tx j ins
      → InputsPass run_script store bip16 tx j ins
  inputs_pass tx j [] _ = tt
  inputs_pass tx j (input ∷ ins) (inl e, more) = (inl e, inputs_pass tx (suc j) ins more)
  inputs_pass tx j (input ∷ ins) (inr (origin, out, there, has, runs), more) = (
    inr (origin, out, known input.previous_out_point.hash origin there, has, runs),
    inputs_pass tx (suc j) ins more,
  )

  pub AllPass-known :
      (txs : List Tx) → AllPass run_script marked bip16 txs → AllPass run_script store bip16 txs
  AllPass-known [] _ = tt
  AllPass-known (tx ∷ txs) (one, more) = (inputs_pass tx 0 tx.tx_in one, AllPass-known txs more)
