-- ===== src/Validate/Sanity.antt =====
-- What CheckTransactionSanity (validate.go) and ppcCheckTransactionSanity (ppc.go) accept.
use btcchain.Common.{
  ℕ, ◌^◌, ◌≤◌, ◌<◌, ◌≡◌, ◌≢◌, ◌↔◌, refl, ◌∙◌, ap, arith, inl, inr, any_none, All-pair,
  duplicate_tx_inputs, ErrorCode, bad_coinbase_script_len, bad_tx_input, bad_tx_out_value,
  empty_tx_out, no_tx_inputs, no_tx_outputs, tx_too_big, ltb, ◌==◌, if◌then◌else◌, Bool, true,
  false, not, ◌&&◌, ◌||◌, Bool-cases, List, [], ◌∷◌, All, any, length, ok, >>_iff, reject_if,
  reject_if_iff,
}
use btcchain.Common.Int.{pos, ◌≤ℤ◌, ltb_ℤ}
use btcchain.Wire.{OutPoint, out_point_eq, Tx, TxIn, TxOut}
use btcchain.Reward.{min_tx_out_amount}
use btcchain.Validate.{
  Packages, is_null_outpoint, is_coin_base, coinbase_script_len, check_out_values,
  check_duplicate_inputs, check_previous_outputs, ppc_check_outputs, ppc_check_transaction_sanity,
  check_transaction_sanity,
}
use btcchain.Validate.Amounts.{InRange, sum_values, check_out_values_iff}

out_point_ext : (p q : OutPoint) → p.hash ≡ q.hash → p.index ≡ q.index → p ≡ q
out_point_ext p q h x =
    let at : ℕ → ℕ → OutPoint = λ hash index. record { hash = hash; index = index } in
    ap (λ hash. at hash p.index) h ∙ ap (at q.hash) x

out_point_eq_iff : (p q : OutPoint) → (out_point_eq p q ≡ false) ↔ (p ≢ q)
out_point_eq_iff p q = (
  λ h e. absurd (ground (arith, ap (λ p. p.hash) e, ap (λ p. p.index) e)),
  λ apart. elim (Bool-cases (out_point_eq p q)) [
    | inl e ↦ absurd (apart (out_point_ext p q (ground arith) (ground arith)))
    | inr e ↦ e
  ],
)

-- No two of the inputs spend the same output.
abbrev pub AreDistinct : List TxIn → Type 0
AreDistinct [] = Unit
AreDistinct (i ∷ ins) = All (λ j. j.previous_out_point ≢ i.previous_out_point) ins × AreDistinct ins

no_old : (ins : List TxIn) → All (λ i. All (λ p. i.previous_out_point ≢ p) []) ins
no_old [] = tt
no_old (i ∷ ins) = (tt, no_old ins)

check_duplicate_inputs_iff :
    (existing : List OutPoint) (ins : List TxIn)
    → (check_duplicate_inputs existing ins ≡ ok tt)
      ↔ (All (λ i. All (λ p. i.previous_out_point ≢ p) existing) ins × AreDistinct ins)
unfolding check_duplicate_inputs
check_duplicate_inputs_iff existing [] = (λ _. (tt, tt), λ _. refl)
check_duplicate_inputs_iff existing (i ∷ ins) =
    let p = i.previous_out_point in
    let rest = check_duplicate_inputs_iff (p ∷ existing) ins in
    let (to, from) = >>_iff _ _ (reject_if_iff _ duplicate_tx_inputs) rest in
    let (fresh_to, fresh_from) = any_none (out_point_eq p) (out_point_eq_iff p) existing in
    let (part, join) =
      All-pair (λ j. j.previous_out_point ≢ p) (λ j. All (λ q. j.previous_out_point ≢ q) existing)
        ins in
    (
      λ h.
          let (fresh, (all_new, distinct)) = to h in
          let (apart, old) = part all_new in ((fresh_to fresh, old), (apart, distinct)),
      λ ((fresh, old), (apart, distinct)). from (fresh_from fresh, (join (apart, old), distinct)),
    )

-- The script of a coinbase has 2 to 100 bytes; other transactions spend no null output.
abbrev pub InputsAllowed : Tx → Type 0
InputsAllowed tx = elim (is_coin_base tx) [
  | true ↦ (2 ≤ coinbase_script_len tx) × (coinbase_script_len tx ≤ 100)
  | false ↦ All (λ i. is_null_outpoint i.previous_out_point ≡ false) tx.tx_in
]

script_len_iff :
    (n : ℕ)
    → (reject_if (ltb n 2 || ltb 100 n) bad_coinbase_script_len ≡ ok tt) ↔ ((2 ≤ n) × (n ≤ 100))
script_len_iff n =
    let (to, from) = reject_if_iff (ltb n 2 || ltb 100 n) bad_coinbase_script_len in
    (λ h. let e = to h in (ground arith, ground arith), λ (low, high). from (ground arith))

no_null_iff :
    (ins : List TxIn)
    → (reject_if (any (λ i. is_null_outpoint i.previous_out_point) ins) bad_tx_input ≡ ok tt)
      ↔ All (λ i. is_null_outpoint i.previous_out_point ≡ false) ins
no_null_iff ins =
    let null : TxIn → Bool = λ i. is_null_outpoint i.previous_out_point in
    let (to, from) = reject_if_iff (any null ins) bad_tx_input in
    let (each_to, each_from) = any_none null (λ i. (λ h. h, λ h. h)) ins in
    (λ h. each_to (to h), λ h. from (each_from h))

check_previous_outputs_iff : (tx : Tx) → (check_previous_outputs tx ≡ ok tt) ↔ InputsAllowed tx
unfolding check_previous_outputs
check_previous_outputs_iff tx =
    elim (is_coin_base tx)
      as (λ b.
        ((if b
            then reject_if (ltb (coinbase_script_len tx) 2 || ltb 100 (coinbase_script_len tx))
                bad_coinbase_script_len
            else reject_if (any (λ i. is_null_outpoint i.previous_out_point) tx.tx_in) bad_tx_input)
          ≡ ok tt)
        ↔ elim b [
          | true ↦ (2 ≤ coinbase_script_len tx) × (coinbase_script_len tx ≤ 100)
          | false ↦ All (λ i. is_null_outpoint i.previous_out_point ≡ false) tx.tx_in
        ]) [ true ↦ script_len_iff (coinbase_script_len tx) | false ↦ no_null_iff tx.tx_in ]

pub nonempty_iff : (n : ℕ) (c : ErrorCode) → (reject_if (n == 0) c ≡ ok tt) ↔ (0 < n)
nonempty_iff n c =
    let (to, from) = reject_if_iff (n == 0) c in
    (λ h. let e = to h in ground arith, λ h. from (ground arith))

pub fits_iff : (n max : ℕ) (c : ErrorCode) → (reject_if (ltb max n) c ≡ ok tt) ↔ (n ≤ max)
fits_iff n max c =
    let (to, from) = reject_if_iff (ltb max n) c in
    (λ h. let e = to h in ground arith, λ h. from (ground arith))

module _ (packages : Packages) where
  open packages use {max_block_payload, max_satoshi, is_coin_stake, is_empty}

  -- Empty outputs stand in a coinbase or a coinstake; others have the least amount.
  abbrev pub OutputAllowed : Tx → TxOut → Type 0
  OutputAllowed tx o = elim (is_empty o) [
    | true ↦ (is_coin_base tx || is_coin_stake tx) ≡ true
    | false ↦ pos min_tx_out_amount ≤ℤ o.value
  ]

  one_out_iff :
      (tx : Tx) (o : TxOut)
      → (((is_empty o && (not (is_coin_base tx) && not (is_coin_stake tx))) ≡ false)
          × ((not (is_empty o) && ltb_ℤ o.value (pos min_tx_out_amount)) ≡ false))
        ↔ OutputAllowed tx o
  one_out_iff tx o =
      elim (is_empty o)
        as (λ b.
          (((b && (not (is_coin_base tx) && not (is_coin_stake tx))) ≡ false)
            × ((not b && ltb_ℤ o.value (pos min_tx_out_amount)) ≡ false))
          ↔ elim b [
            | true ↦ (is_coin_base tx || is_coin_stake tx) ≡ true
            | false ↦ pos min_tx_out_amount ≤ℤ o.value
          ]) [
            | true ↦ (λ (h, _). ground arith, λ h. (ground arith, refl))
            | false ↦ (λ (_, h). ground arith, λ h. (refl, ground arith))
          ]

  ppc_check_outputs_iff :
      (tx : Tx) (outs : List TxOut)
      → (ppc_check_outputs packages tx outs ≡ ok tt) ↔ All (OutputAllowed tx) outs
  unfolding ppc_check_outputs
  ppc_check_outputs_iff tx [] = (λ _. tt, λ _. refl)
  ppc_check_outputs_iff tx (o ∷ outs) =
      let rest = ppc_check_outputs_iff tx outs in
      let second = >>_iff _ _ (reject_if_iff _ bad_tx_out_value) rest in
      let (to, from) = >>_iff _ _ (reject_if_iff _ empty_tx_out) second in
      let (one_to, one_from) = one_out_iff tx o in
      (
        λ h. let (a, (b, more)) = to h in (one_to (a, b), more),
        λ (one, more). let (a, b) = one_from one in from (a, (b, more)),
      )

  -- What a transaction has to be, apart from the chain.
  abbrev pub IsSane : Tx → Type 0
  IsSane tx =
      (0 < length tx.tx_in)
      × ((0 < length tx.tx_out)
          × ((tx.size ≤ max_block_payload)
              × ((All (λ o. InRange max_satoshi o.value) tx.tx_out
                    × (sum_values tx.tx_out ≤ max_satoshi))
                  × (AreDistinct tx.tx_in
                      × (InputsAllowed tx × All (OutputAllowed tx) tx.tx_out)))))

  fresh_iff : (ins : List TxIn) → (check_duplicate_inputs [] ins ≡ ok tt) ↔ AreDistinct ins
  fresh_iff ins =
      let (to, from) = check_duplicate_inputs_iff [] ins in
      (λ h. (to h).1, λ h. from (no_old ins, h))

  amounts_iff :
      (outs : List TxOut)
      → max_satoshi < 2 ^ 62
      → (check_out_values max_satoshi (pos 0) outs ≡ ok tt)
        ↔ (All (λ o. InRange max_satoshi o.value) outs × (sum_values outs ≤ max_satoshi))
  amounts_iff outs small =
      let (to, from) = check_out_values_iff max_satoshi small 0 outs (omega arith) in
      (λ h. let (each, sum) = to h in (each, omega arith), λ (each, sum). from (each, omega arith))

  -- With a maximal amount below 2 ^ 62, CheckTransactionSanity accepts exactly the transactions
  -- that have inputs and outputs, fit into a block, whose outputs are each and in sum (without
  -- wrap-around) between 0 and the maximal amount, whose inputs spend distinct outputs, none of
  -- them null unless it is a coinbase (then its script has 2 to 100 bytes), and whose outputs have
  -- the least amount or, in a coinbase or coinstake, are empty.
  pub check_transaction_sanity_iff :
      (tx : Tx) → max_satoshi < 2 ^ 62 → (check_transaction_sanity packages tx ≡ ok tt) ↔ IsSane tx
  unfolding check_transaction_sanity ppc_check_transaction_sanity
  check_transaction_sanity_iff tx small = >>_iff _ _ (nonempty_iff _ no_tx_inputs) (
      >>_iff _ _ (nonempty_iff _ no_tx_outputs) (
        >>_iff _ _ (fits_iff _ _ tx_too_big) (
          >>_iff _ _ (amounts_iff tx.tx_out small) (
            >>_iff _ _ (fresh_iff tx.tx_in)
              (>>_iff _ _ (check_previous_outputs_iff tx) (ppc_check_outputs_iff tx tx.tx_out))))))
