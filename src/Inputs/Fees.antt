-- ===== src/Inputs/Fees.antt =====
-- The fee that CheckTransactionInputs (validate.go) returns.
use btcchain.Common.{
  ℕ, ◌+◌, ◌-◌, ◌^◌, ◌≤◌, ◌<◌, ◌≡◌, refl, sym, ◌∙◌, ap, subst, arith, inl, inr, ◌==◌, ==_iff, false,
  not, ◌&&◌, ◌||◌, Bool-cases, Option, none, some, List, [], ◌∷◌, get_elem?, lookup, insert,
  lookup-insert, All, Result, ok, >>=-ok_then, ok_inj, reject_if, reject_if_iff, bad_tx_out_value,
  spend_too_high, insufficient_fee,
}
use btcchain.Common.Int.{
  ℤ, pos, pos_part, neg_part, ◌+ℤ◌, ◌-ℤ◌, int64, ltb_ℤ, ◌≤ℤ◌, ltb_ℤ_iff, int64-eq, ℤ-cases,
}
use btcchain.Wire.{OutPoint, Tx, TxIn, TxOut}
use btcchain.Reward.{get_min_fee}
use btcchain.Validate.{Packages, is_coin_base, check_transaction_sanity}
use btcchain.Validate.Sanity.{check_transaction_sanity_iff}
use btcchain.Validate.Amounts.{InRange, sum_values, int64_add}
use btcchain.TxStore.{TxData, TxStore}
use btcchain.TxStore.Marks.{spend_in}
use btcchain.Inputs.{
  add_input, sum_out, check_input, check_inputs, settle, fee_of, ppc_check_transaction_inputs,
  check_transaction_inputs,
}
use btcchain.Inputs.Spending.{Round, check_input-Round, check_transaction_inputs-parts}

-- The amount of an output that the store knows.
abbrev pub value_in : ℕ → Option TxData → ℕ
value_in index none = 0
value_in index (some entry) = elim entry.tx [
  | none ↦ 0
  | some tx ↦ elim (get_elem? tx.tx_out index) [ none ↦ 0 | some out ↦ pos_part out.value ]
]

abbrev pub value_at : TxStore → OutPoint → ℕ
value_at store p = value_in p.index (lookup p.hash store)

-- What the inputs bring, without wrap-around.
abbrev pub sum_inputs : TxStore → List TxIn → ℕ
sum_inputs store [] = 0
sum_inputs store (i ∷ ins) = value_at store i.previous_out_point + sum_inputs store ins

value_at-spend :
    (p q : OutPoint) (entry : TxData) (store : TxStore)
    → lookup q.hash store ≡ some entry
    → value_at (insert q.hash (spend_in entry q.index) store) p ≡ value_at store p
value_at-spend p q entry store found = elim (Bool-cases (q.hash == p.hash)) [
  | inl e ↦
      let same : q.hash ≡ p.hash = (==_iff q.hash p.hash).0 e in
      let at = ap (value_in p.index) (lookup-insert q.hash p.hash (spend_in entry q.index) store) in
      at ∙ rw (e) (sym (ap (value_in p.index) (ap (λ h. lookup h store) (sym same) ∙ found)))
  | inr e ↦
      ap (value_in p.index)
        (lookup-insert q.hash p.hash (spend_in entry q.index) store ∙ rw (e) refl)
]

sum_inputs-spend :
    (ins : List TxIn) (q : OutPoint) (entry : TxData) (store : TxStore)
    → lookup q.hash store ≡ some entry
    → sum_inputs (insert q.hash (spend_in entry q.index) store) ins ≡ sum_inputs store ins
sum_inputs-spend [] q entry store found = refl
sum_inputs-spend (i ∷ ins) q entry store found = omega (
  arith,
  value_at-spend i.previous_out_point q entry store found,
  sum_inputs-spend ins q entry store found,
)

sum_out-eq :
    (max : ℕ) (t : ℕ) (outs : List TxOut)
    → max < 2 ^ 62
    → All (λ o. InRange max o.value) outs
    → t + sum_values outs ≤ max
    → sum_out (pos t) outs ≡ pos (t + sum_values outs)
sum_out-eq max t [] small each h = ap pos (omega arith)
sum_out-eq max t (o ∷ outs) small ((low, high), each) h = elim (ℤ-cases o.value) [
  | inr (n, v) ↦ absurd (omega (arith, ap pos_part v, ap neg_part v))
  | inl (n, v) ↦
      let size = ap pos_part v in
      let step : int64 (pos t +ℤ o.value) ≡ pos (t + n) = rw (v) (int64_add t n (omega arith)) in
      rw (step) (sum_out-eq max (t + n) outs small each (omega arith) ∙ ap pos (omega arith))
]

-ℤ-pos : (a b : ℕ) → b ≤ a → pos a -ℤ pos b ≡ pos (a - b)
unfolding ◌-ℤ◌
-ℤ-pos a b h = ground arith

int64_sub : (a b : ℕ) → b ≤ a → a < 2 ^ 62 → int64 (pos a -ℤ pos b) ≡ pos (a - b)
int64_sub a b h small = rw (-ℤ-pos a b h) (int64-eq (pos (a - b)) (omega arith, omega arith))

module _ (packages : Packages) (coinbase_maturity : ℤ) (coin_age : Tx → TxStore → Result ℕ)
    (small : packages.max_satoshi < 2 ^ 62) where
  open packages use {max_satoshi, is_coin_stake}

  total_in_range :
      (t : ℕ) (value sum : ℤ)
      → t ≤ max_satoshi
      → pos 0 ≤ℤ value
      → value ≤ℤ pos max_satoshi
      → (ltb_ℤ (int64 (pos t +ℤ value)) (pos t) || ltb_ℤ (pos max_satoshi) (int64 (pos t +ℤ value)))
        ≡ false
      → int64 (pos t +ℤ value) ≡ sum
      → (sum ≡ pos (t + pos_part value)) × (t + pos_part value ≤ max_satoshi)
  total_in_range t value sum h low high total same = elim (ℤ-cases value) [
    | inr (n, v) ↦ absurd (omega (arith, ap pos_part v, ap neg_part v))
    | inl (n, v) ↦
        let size = ap pos_part v in
        let sign = ap neg_part v in
        let exact : int64 (pos t +ℤ value) ≡ pos (t + n) = rw (v) (int64_add t n (omega arith)) in
        let fits = rw (exact) at total in
        (
          sym same ∙ exact ∙ ap pos (omega arith),
          (let le : t + n ≤ max_satoshi = ground arith in omega arith),
        )
  ]

  add_input-eq :
      (t : ℕ) (value sum : ℤ)
      → t ≤ max_satoshi
      → add_input packages coinbase_maturity coin_age (pos t) value ≡ ok sum
      → (sum ≡ pos (t + pos_part value)) × (t + pos_part value ≤ max_satoshi)
  unfolding add_input
  add_input-eq t value sum h run =
      let new = int64 (pos t +ℤ value) in
      >>=-ok_then (reject_if (ltb_ℤ value (pos 0)) bad_tx_out_value) _
        (λ _ low.
          >>=-ok_then (reject_if (ltb_ℤ (pos max_satoshi) value) bad_tx_out_value) _ λ _ high.
            >>=-ok_then
              (reject_if (ltb_ℤ new (pos t) || ltb_ℤ (pos max_satoshi) new) bad_tx_out_value) _
              λ _ total last.
                total_in_range t value sum h
                  ((ltb_ℤ_iff value (pos 0)).0 ((reject_if_iff _ bad_tx_out_value).0 low))
                  ((ltb_ℤ_iff (pos max_satoshi) value).0
                    ((reject_if_iff _ bad_tx_out_value).0 high))
                  ((reject_if_iff _ bad_tx_out_value).0 total) (ok_inj last))
        run

  Round-value :
      (i : TxIn) (total : ℤ) (store : TxStore) (sum : ℤ) (next : TxStore)
      → (round : Round packages coinbase_maturity coin_age i total store sum next)
      → value_at store i.previous_out_point ≡ pos_part round.out.value
  Round-value i total store sum next round = rw (round.found, round.has_tx, round.has_out) refl

  check_inputs-sum :
      (tx : Tx) (height : ℤ) (ins : List TxIn) (t : ℕ) (store : TxStore) (sum : ℤ) (next : TxStore)
      → t ≤ max_satoshi
      → check_inputs packages coinbase_maturity coin_age tx height ins (pos t) store
        ≡ ok (sum, next)
      → (sum ≡ pos (t + sum_inputs store ins)) × (t + sum_inputs store ins ≤ max_satoshi)
  unfolding check_inputs
  check_inputs-sum tx height [] t store sum next h =
      λ run. (sym (ap (λ x. x.0) (ok_inj run)) ∙ ap pos (omega arith), omega arith)
  check_inputs-sum tx height (i ∷ ins) t store sum next h =
      >>=-ok_then (check_input packages coinbase_maturity coin_age tx height i (pos t) store) _
        λ (mid, after) one rest.
          let p = i.previous_out_point in
          let round =
            check_input-Round packages coinbase_maturity coin_age tx height i (pos t) store mid
              after one in
          let value = Round-value i (pos t) store mid after round in
          let (new, fits) = add_input-eq t round.out.value mid h round.added in
          let same : sum_inputs after ins ≡ sum_inputs store ins =
            ap (λ s. sum_inputs s ins) round.marked
            ∙ sum_inputs-spend ins p round.entry store round.found in
          let (eq, le) =
            check_inputs-sum tx height ins (t + pos_part round.out.value) after sum next fits (
              subst
                (λ x.
                  check_inputs packages coinbase_maturity coin_age tx height ins x after
                  ≡ ok (sum, next))
                new rest) in
          (eq ∙ ap pos (omega arith), omega arith)

  stake_apart-check :
      (tx : Tx) (total total_out : ℤ) (store : TxStore)
      → is_coin_stake tx ≡ false
      → ppc_check_transaction_inputs packages coinbase_maturity coin_age tx store total total_out
        ≡ ok tt
      → pos (get_min_fee tx.size) ≤ℤ int64 (total -ℤ total_out)
  unfolding ppc_check_transaction_inputs
  stake_apart-check tx total total_out store plain h =
      let run = rw (plain, ppc_check_transaction_inputs) at h in
      (ltb_ℤ_iff (int64 (total -ℤ total_out)) (pos (get_min_fee tx.size))).0
        ((reject_if_iff _ insufficient_fee).0 run)

  covers : (a b : ℕ) → ltb_ℤ (pos a) (pos b) ≡ false → b ≤ a
  covers a b h = omega (arith, (ltb_ℤ_iff (pos a) (pos b)).0 h)

  settle-fee :
      (tx : Tx) (total_in total_out : ℕ) (store : TxStore) (fee : ℤ) (next : TxStore)
      → is_coin_stake tx ≡ false
      → total_in ≤ max_satoshi
      → total_out ≤ max_satoshi
      → sum_out (pos 0) tx.tx_out ≡ pos total_out
      → settle packages coinbase_maturity coin_age tx (pos total_in) store ≡ ok (fee, next)
      → (n : ℕ) × (fee ≡ pos n) × (n + total_out ≡ total_in) × (get_min_fee tx.size ≤ n)
  unfolding settle fee_of
  settle-fee tx total_in total_out store fee next plain small_in small_out sum run =
      let outs = sum_out (pos 0) tx.tx_out in
      let high = not (is_coin_stake tx) && ltb_ℤ (pos total_in) outs in
      >>=-ok_then (reject_if high spend_too_high) _
        (λ _ enough.
          >>=-ok_then
            (ppc_check_transaction_inputs packages coinbase_maturity coin_age tx store
              (pos total_in) outs)
            _
            λ _ paid last.
              let covered : high ≡ false = (reject_if_iff high spend_too_high).0 enough in
              let le : total_out ≤ total_in =
                covers total_in total_out (rw (plain, sum) at covered) in
              let exact = int64_sub total_in total_out le (omega arith) in
              let least =
                rw (sum, exact) at (stake_apart-check tx (pos total_in) outs store plain paid) in
              let whole : fee_of packages coinbase_maturity coin_age tx
                    (int64 (pos total_in -ℤ outs))
                  ≡ fee =
                ap (λ (x : ℤ × TxStore). x.0) (ok_inj last) in
              let result = rw (plain, sum, exact) at whole in
              (total_in - total_out, sym result, omega arith, omega (arith, least)))
        run

  -- Let the maximal amount be below 2 ^ 62. A sane transaction, neither coinbase nor coinstake, that
  -- passes CheckTransactionInputs pays exactly the difference of what its inputs bring and its
  -- outputs take, all sums without wrap-around, and at least the minimal fee of its size.
  pub check_transaction_inputs-fee :
      (tx : Tx) (height : ℤ) (store : TxStore) (fee : ℤ) (next : TxStore)
      → is_coin_base tx ≡ false
      → is_coin_stake tx ≡ false
      → check_transaction_sanity packages tx ≡ ok tt
      → check_transaction_inputs packages coinbase_maturity coin_age tx height store
        ≡ ok (fee, next)
      → (n : ℕ) × (fee ≡ pos n)
        × (n + sum_values tx.tx_out ≡ sum_inputs store tx.tx_in)
        × (get_min_fee tx.size ≤ n)
  check_transaction_inputs-fee tx height store fee next plain free sane h =
      let (_, (_, (_, ((each, sum), _)))) =
        (check_transaction_sanity_iff packages tx small).0 sane in
      let (total, loop, settled) =
        check_transaction_inputs-parts packages coinbase_maturity coin_age tx height store fee next
          plain h in
      let (eq, le) = check_inputs-sum tx height tx.tx_in 0 store total next (omega arith) loop in
      let brought : total ≡ pos (sum_inputs store tx.tx_in) = eq ∙ ap pos (omega arith) in
      let taken : sum_out (pos 0) tx.tx_out ≡ pos (sum_values tx.tx_out) =
        sum_out-eq max_satoshi 0 tx.tx_out small each (omega arith) ∙ ap pos (omega arith) in
      settle-fee tx (sum_inputs store tx.tx_in) (sum_values tx.tx_out) next fee next free
        (omega arith) sum taken
        (subst (λ x. settle packages coinbase_maturity coin_age tx x next ≡ ok (fee, next)) brought
          settled)
