-- ===== src/Connecting/Spends.antt =====
-- What the transactions of a block spend that pass CheckTransactionInputs one after the other.
use btcchain.Common.{
  ℕ, ◌≡◌, ◌≢◌, ap, subst, inl, inr, List, [], ◌∷◌, ◌++◌, map, All, All-imp, Bool-cases,
  if◌then◌else◌, Result, ok, >>=-ok_then, ok_inj, reject_if, bad_fees,
}
use btcchain.Common.Int.{ℤ, pos, int64, ◌+ℤ◌, ltb_ℤ}
use btcchain.Wire.{OutPoint, Tx, TxIn}
use btcchain.Validate.{Packages, is_coin_base}
use btcchain.TxStore.{TxStore}
use btcchain.TxStore.Marks.{IsSpent}
use btcchain.Inputs.{check_input, check_inputs, check_transaction_inputs}
use btcchain.Inputs.Spending.{
  check_input-IsSpent, check_inputs-keeps, check_inputs-IsSpent, check_inputs-fresh,
  check_transaction_inputs-parts,
}
use btcchain.CoinAge.{get_coin_age_tx}
use btcchain.Chain.State.{Env}
use btcchain.Chain.Lookup.{TxDb}
use btcchain.Connecting.{ConnectParams, check_all_inputs}

-- No output stands twice in the list.
abbrev pub Distinct : List OutPoint → Type 0
Distinct [] = Unit {0}
Distinct (p ∷ ps) = All (λ q. p ≢ q) ps × Distinct ps

-- The outputs that a transaction spends: none for a coinbase.
abbrev pub spends : Tx → List OutPoint
spends tx = if is_coin_base tx then [] else map (λ i. i.previous_out_point) tx.tx_in

abbrev pub all_spends : List Tx → List OutPoint
all_spends [] = []
all_spends (tx ∷ txs) = spends tx ++ all_spends txs

module _ {A : Type 0} (P : A → Type 0) where
  All-append : (xs ys : List A) → All P xs → All P ys → All P (xs ++ ys)
  All-append [] ys _ all = all
  All-append (x ∷ xs) ys (p, ps) all = (p, All-append xs ys ps all)

All-map :
    {A B : Type 0} (P : B → Type 0) (f : A → B) (l : List A)
    → All (λ a. P (f a)) l
    → All P (map f l)
All-map P f [] all = tt
All-map P f (a ∷ l) (p, ps) = (p, All-map P f l ps)

Distinct-append :
    (xs ys : List OutPoint)
    → Distinct xs
    → Distinct ys
    → All (λ p. All (λ q. p ≢ q) ys) xs
    → Distinct (xs ++ ys)
Distinct-append [] ys _ d _ = d
Distinct-append (x ∷ xs) ys (here, dx) d (apart, more) =
    (All-append (λ q. x ≢ q) xs ys here apart, Distinct-append xs ys dx d more)

-- A spent output is none of those that are not spent.
spent_apart :
    (p : OutPoint) (store : TxStore) (ps : List OutPoint)
    → IsSpent p store
    → All (λ q. ¬ IsSpent q store) ps
    → All (λ q. p ≢ q) ps
spent_apart p store ps spent fresh =
    All-imp (λ q unspent e. unspent (subst (λ x. IsSpent x store) e spent)) ps fresh

module _ (packages : Packages) (maturity : ℤ) (coin_age : Tx → TxStore → Result ℕ) where
  check_inputs-Distinct :
      (tx : Tx) (height : ℤ) (ins : List TxIn) (total : ℤ) (store : TxStore) (sum : ℤ)
      (next : TxStore)
      → check_inputs packages maturity coin_age tx height ins total store ≡ ok (sum, next)
      → Distinct (map (λ i. i.previous_out_point) ins)
  unfolding check_inputs
  check_inputs-Distinct tx height [] total store sum next = λ _. tt
  check_inputs-Distinct tx height (i ∷ ins) total store sum next =
      >>=-ok_then (check_input packages maturity coin_age tx height i total store) _
        λ (mid, after) one rest. (
          spent_apart i.previous_out_point after _
              (check_input-IsSpent packages maturity coin_age tx height i total store mid after one)
              (All-map (λ q. ¬ IsSpent q after) (λ i. i.previous_out_point) ins
                (check_inputs-fresh packages maturity coin_age tx height ins mid after sum next
                  rest)),
          check_inputs-Distinct tx height ins mid after sum next rest,
        )

  -- What a transaction that passes does with the outputs it spends.
  pub record Spending (tx : Tx) (store next : TxStore) : Type 0 where
    pub distinct : Distinct (spends tx)
    pub fresh : All (λ p. ¬ IsSpent p store) (spends tx)
    pub spent : All (λ p. IsSpent p next) (spends tx)
    pub keeps : (p : OutPoint) → IsSpent p store → IsSpent p next

  pub check_transaction_inputs-Spending :
      (tx : Tx) (height : ℤ) (store : TxStore) (fee : ℤ) (next : TxStore)
      → check_transaction_inputs packages maturity coin_age tx height store ≡ ok (fee, next)
      → Spending tx store next
  unfolding check_transaction_inputs
  check_transaction_inputs-Spending tx height store fee next h =
      elim (Bool-cases (is_coin_base tx)) [
        | inl e ↦
            let same : ok (pos 0, store) ≡ ok (fee, next) = rw (e, check_transaction_inputs) at h in
            record {
              distinct = rw e tt;
              fresh = rw e tt;
              spent = rw e tt;
              keeps = λ p. subst (IsSpent p) (ap (λ x. x.1) (ok_inj same));
            }
        | inr e ↦
            let (total, loop, _) =
              check_transaction_inputs-parts packages maturity coin_age tx height store fee next e
                h in
            record {
              distinct =
                  rw e (check_inputs-Distinct tx height tx.tx_in (pos 0) store total next loop);
              fresh = rw e (
                  All-map _ _ tx.tx_in (
                    check_inputs-fresh packages maturity coin_age tx height tx.tx_in (pos 0) store
                      total next loop));
              spent = rw e (
                  All-map _ _ tx.tx_in (
                    check_inputs-IsSpent packages maturity coin_age tx height tx.tx_in (pos 0) store
                      total next loop));
              keeps = λ p spent.
                  check_inputs-keeps packages maturity coin_age tx height tx.tx_in (pos 0) store
                    total next p loop spent;
            }
      ]

-- The same of a list of transactions.
module _ {S : Type 0} (env : Env S) (txs : TxDb S) (packages : Packages)
    (params : ConnectParams) where
  pub check_all_inputs-Distinct :
      (db : S) (height : ℕ) (list : List Tx) (store : TxStore) (fees : ℤ) (last : ℤ × TxStore)
      → check_all_inputs env txs packages params db height store fees list ≡ ok last
      → Distinct (all_spends list) × All (λ p. ¬ IsSpent p store) (all_spends list)
  unfolding check_all_inputs
  check_all_inputs-Distinct db height [] store fees last = λ _. (tt, tt)
  check_all_inputs-Distinct db height (tx ∷ later) store fees last =
      >>=-ok_then
        (check_transaction_inputs packages params.coinbase_maturity
          (get_coin_age_tx env params.stake_min_age db) tx (pos height) store)
        _
        λ (fee, next) one.
          >>=-ok_then (reject_if (ltb_ℤ (int64 (fees +ℤ fee)) fees) bad_fees) _ λ _ _ rest.
            let spending =
              check_transaction_inputs-Spending packages params.coinbase_maturity
                (get_coin_age_tx env params.stake_min_age db) tx (pos height) store fee next one in
            let (distinct, fresh) =
              check_all_inputs-Distinct db height later next (int64 (fees +ℤ fee)) last rest in
            (
              Distinct-append (spends tx) (all_spends later) spending.distinct distinct (
                  All-imp (λ p spent. spent_apart p next (all_spends later) spent fresh) (spends tx)
                    spending.spent),
              All-append (λ p. ¬ IsSpent p store) (spends tx) (all_spends later) spending.fresh
                  (All-imp (λ p unspent old. unspent (spending.keeps p old)) (all_spends later)
                    fresh),
            )
